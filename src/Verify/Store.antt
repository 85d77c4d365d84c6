-- ===== src/Verify/Store.antt =====
-- services/guardrail-gateway/app/verify/store.py: the interface of a verification store, whose
-- operations may raise, and MemoryVerificationStore, which never does. The clock's reading is an
-- argument. An operation takes the store and returns the store behind it with its result, or with
-- none where it raises.
use policy_guardrails_agent.Prelude.{
  if◌then◌else◌, ltb, leb, keep, str_eq, eq_iff, Eq, lookup, put, remove, ℕ, String, ◌≡◌, ◌↔◌, Bool,
  true, ◌&&◌, Option, none, some, List, [], ◌∷◌, ◌++◌, arith,
}
use policy_guardrails_agent.Session.Keys.{string_eq}
use policy_guardrails_agent.Session.Ordered.{move_to_end, trim}
use policy_guardrails_agent.Verify.Model.{Evidence, Verification, Status, is_pending}

-- an action on a store that may raise; what it changed before it raised stays changed
abbrev pub M : Type 0 → Type 0 → Type 0
M S A = S → Option A × S

infixl 5 ◌>>=◌ ◌>>◌
abbrev pub ◌>>=◌ : {S A B : Type 0} → M S A → (A → M S B) → M S B
◌>>=◌ m f s = let (r, s') = m s in elim r [ none ↦ (none, s') | some a ↦ f a s' ]

abbrev pub ◌>>◌ : {S A B : Type 0} → M S A → M S B → M S B
m >> k = m >>= λ _. k

abbrev pub pure : {S A : Type 0} → A → M S A
pure a s = (some a, s)

-- VerificationStore
pub record VerificationStore (S : Type 0) : Type 0 where
  pub put_verification : Verification → M S (Unit {0})
  pub get_verification : String → String → M S (Option Verification)
  pub pending_for : String → String → M S (Option Verification)
  pub add_evidence : String → Evidence → M S (Unit {0})
  pub evidence : String → String → M S (List Evidence)
  pub consume_evidence : String → String → M S (Unit {0})
  pub take_evidence : String → String → M S (List Evidence)

-- the keys (tenant, id) and (tenant, request_hash)
pub record TenantKey : Type 0 where
  pub tenant : String
  pub name : String

abbrev pub same_key : TenantKey → TenantKey → Bool
same_key a b = str_eq a.tenant b.tenant && str_eq a.name b.name

pub same_key_iff : (a b : TenantKey) → (same_key a b ≡ true) ↔ (a ≡ b)
same_key_iff a b = (
  λ h. ground (arith, eq_iff a.tenant b.tenant, eq_iff a.name b.name),
  λ h. ground (arith, eq_iff a.tenant b.tenant, eq_iff a.name b.name),
)

instance abbrev pub tenant_key_eq : Eq TenantKey
tenant_key_eq = record { beq = same_key; beq_iff = same_key_iff }

abbrev pub key : String → String → TenantKey
key tenant name = record { tenant = tenant; name = name }

pub record MemoryStore : Type 0 where
  pub max_entries : ℕ
  pub ver : List (TenantKey × Verification)
  pub pend : List (TenantKey × String)
  pub ev : List (TenantKey × List Evidence)

-- MemoryVerificationStore.put_verification
unfoldable pub put_verification : Verification → MemoryStore → MemoryStore
unfolding move_to_end trim
put_verification v st =
    let saved = record st {
      ver = trim st.max_entries (move_to_end (key v.tenant_id v.id) v st.ver);
    } in
    if is_pending v.status
    then record saved {
      pend = trim st.max_entries (put (key v.tenant_id v.request_hash) v.id st.pend);
    }
    else saved

-- a pending verification whose time is over is expired
abbrev pub at_time : ℕ → Verification → Verification
at_time now v =
    if is_pending v.status && leb v.expires_at now then record v { status = Status.expired } else v

-- MemoryVerificationStore.get_verification
unfoldable pub get_verification : ℕ → String → String → MemoryStore → Option Verification
get_verification now tenant vid st = elim (lookup (key tenant vid) st.ver) [
  | none ↦ none
  | some v ↦ some (at_time now v)
]

abbrev pub if_pending : Option Verification → Option Verification
if_pending none = none
if_pending (some v) = if is_pending v.status then some v else none

-- MemoryVerificationStore.pending_for
unfoldable pub pending_for : ℕ → String → String → MemoryStore → Option Verification
unfolding get_verification
pending_for now tenant request_hash st = elim (lookup (key tenant request_hash) st.pend) [
  | none ↦ none
  | some vid ↦ if str_eq vid "" then none else if_pending (get_verification now tenant vid st)
]

abbrev pub or_empty : Option (List Evidence) → List Evidence
or_empty none = []
or_empty (some es) = es

-- MemoryVerificationStore.add_evidence
unfoldable pub add_evidence : String → Evidence → MemoryStore → MemoryStore
unfolding move_to_end trim
add_evidence tenant e st =
    let k = key tenant e.request_hash in
    record st {
      ev = trim st.max_entries (move_to_end k (or_empty (lookup k st.ev) ++ e ∷ []) st.ev);
    }

-- e.expires_at > now
abbrev pub unexpired : ℕ → List Evidence → List Evidence
unexpired now = keep (λ e. ltb now e.expires_at)

-- MemoryVerificationStore.evidence
unfoldable pub evidence : ℕ → String → String → MemoryStore → List Evidence
evidence now tenant request_hash st =
    unexpired now (or_empty (lookup (key tenant request_hash) st.ev))

-- MemoryVerificationStore.consume_evidence
unfoldable pub consume_evidence : String → String → MemoryStore → MemoryStore
consume_evidence tenant request_hash st = record st { ev = remove (key tenant request_hash) st.ev }

-- MemoryVerificationStore.take_evidence
unfoldable pub take_evidence : ℕ → String → String → MemoryStore → List Evidence × MemoryStore
unfolding evidence consume_evidence
take_evidence now tenant request_hash st =
    (evidence now tenant request_hash st, consume_evidence tenant request_hash st)

-- the interface, filled by the memory store at one reading of the clock
unfoldable pub memory : ℕ → VerificationStore MemoryStore
unfolding put_verification get_verification pending_for add_evidence take_evidence
memory now = record {
  put_verification = λ v st. (some tt, put_verification v st);
  get_verification = λ tenant vid st. (some (get_verification now tenant vid st), st);
  pending_for = λ tenant h st. (some (pending_for now tenant h st), st);
  add_evidence = λ tenant e st. (some tt, add_evidence tenant e st);
  evidence = λ tenant h st. (some (evidence now tenant h st), st);
  consume_evidence = λ tenant h st. (some tt, consume_evidence tenant h st);
  take_evidence = λ tenant h st. let (es, st') = take_evidence now tenant h st in (some es, st');
}
