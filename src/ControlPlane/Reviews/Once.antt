-- ===== src/ControlPlane/Reviews/Once.antt =====
-- A review is decided once, and only an approved one gives its payload to the gateway.
use policy_guardrails_agent.Prelude.{
  if◌then◌else◌, ltb, Bool-cases, Option-cases, str_eq, eq_iff, lookup, lookup-put, ℕ, String, ◌≡◌,
  refl, sym, ap, ◌∙◌, subst, ◌⊎◌, inl, inr, Bool, true, false, not, Option, none, some, arith,
  clash, some_inj, none-some, first_chars, both_true,
}
use policy_guardrails_agent.Session.Keys.{string_eq}
use policy_guardrails_agent.ControlPlane.Records.{
  ReviewRecord, is_waiting, ReviewStatus, effective_status, effective_at,
}
use policy_guardrails_agent.ControlPlane.Rbac.{Principal, actor, reviews_decide}
use policy_guardrails_agent.ControlPlane.Store.{MemoryStore}
use policy_guardrails_agent.ControlPlane.Reviews.{
  try_decide, found_review, decide, answer_status, answered_review, Cipher, GatewayStatus, reported,
  status_for_gateway,
}
use policy_guardrails_agent.ControlPlane.Service.Sound.{
  Keeps, Keeps-store, Any, Keeps-bind, Keeps-require, Keeps-get, Keeps-given_or, Keeps-raise_if,
  Keeps-after, Keeps-modify, Keeps-pure, OnSome, Keeps-read, Keeps-some, Keeps-value,
}
use policy_guardrails_agent.ControlPlane.Store.Publication.{
  decide_review, decide_found, may_decide, get_review,
}
use policy_guardrails_agent.ControlPlane.Service.{not_found, state_conflict, ok}

-- one stored review that is not pending
module _ (id : String) (r : ReviewRecord) (closed : is_waiting r.status ≡ false) where
  abbrev I : MemoryStore → Type 0
  I s = lookup id s.reviews ≡ some r

  decided-Keeps :
      (j : String) (status : ReviewStatus) (reviewer : String) (at_time : ℕ) (note : String)
      (o : Option ReviewRecord) (s : MemoryStore)
      → lookup j s.reviews ≡ o
      → I s
      → I (decide_found j status reviewer at_time note o s).1
  decided-Keeps j status reviewer at_time note none s e i = i
  decided-Keeps j status reviewer at_time note (some q) s e i =
      elim (Bool-cases (may_decide q at_time)) [
        | inr m ↦ rw m i
        | inl m ↦ rw m (
            lookup-put j id
              (record q {
                status = status;
                reviewer = some reviewer;
                decided_at = some at_time;
                decision_note = note;
              })
              s.reviews
            ∙ elsewhere (Bool-cases (str_eq j id)) m)
      ]
    where
      elsewhere :
          (str_eq j id ≡ true) ⊎ (str_eq j id ≡ false)
          → may_decide q at_time ≡ true
          → (if str_eq j id
              then some (record q {
                status = status;
                reviewer = some reviewer;
                decided_at = some at_time;
                decision_note = note;
              })
              else lookup id s.reviews)
            ≡ some r
      elsewhere (inr n) m = rw n i
      elsewhere (inl n) m =
          let same = some_inj (sym e ∙ (ap (λ x. lookup x s.reviews) ((eq_iff j id).0 n) ∙ i)) in
          absurd (
            clash (both_true (is_waiting q.status) (ltb at_time q.expires_at) m).0
              (subst (λ (x : ReviewRecord). is_waiting x.status ≡ false) (sym same) closed))

  try-Keeps :
      (now : ℕ) (p : Principal) (j : String) (approved : Bool) (note : String)
      → Keeps I Any (try_decide now p j approved note)
  unfolding try_decide decide_review
  try-Keeps now p j approved note s i = (
    decided-Keeps j (answer_status approved) (actor p) now (first_chars 1000 note)
        (lookup j s.reviews) s refl i,
    tt,
  )

  found-Keeps : (j : String) → Keeps I Any (found_review j)
  unfolding found_review
  found-Keeps j =
      Keeps-bind I Any Any _ _ (Keeps-get I (get_review j))
        (λ found _. Keeps-given_or I found not_found)

  decide-Keeps :
      (now : ℕ) (p : Principal) (j : String) (approved : Bool) (note : String)
      → Keeps I Any (decide now p j approved note)
  unfolding decide
  decide-Keeps now p j approved note = Keeps-bind I Any Any _ _ (found-Keeps j) (λ q _.
      Keeps-bind I _ Any _ _ (Keeps-require I p reviews_decide (some q.tenant_id)) (λ _ _.
        Keeps-bind I _ Any _ _
          (Keeps-raise_if I (not (is_waiting (effective_status q now))) state_conflict)
          (λ _ _. Keeps-bind I Any Any _ _ (try-Keeps now p j approved note) (λ won _.
            Keeps-bind I _ Any _ _ (Keeps-raise_if I (not won) state_conflict) (λ _ _.
              Keeps-after I Any _ _ (Keeps-modify I _ (λ s i. i))
                (Keeps-pure I Any (answered_review now p approved note q) tt))))))

-- A review that has been approved or rejected is as it was after any further decision on it or on
-- another review, by whomever and whenever.
pub decided_stays :
    (now : ℕ) (p : Principal) (id j : String) (approved : Bool) (note : String) (r : ReviewRecord)
    (st : MemoryStore)
    → lookup id st.reviews ≡ some r
    → is_waiting r.status ≡ false
    → lookup id (decide now p j approved note st).1.reviews ≡ some r
decided_stays now p id j approved note r st i closed =
    Keeps-store (λ s. lookup id s.reviews ≡ some r) Any _ st
      (decide-Keeps id r closed now p j approved note) i

-- what a released payload comes from
pub record IsReleased {P : Type 0} (cipher : Cipher P) (st : MemoryStore) (id tenant : String)
    (x : P) : Type 0 where
  pub review : ReviewRecord
  pub stored : lookup id st.reviews ≡ some review
  pub approved : review.status ≡ ReviewStatus.approved
  pub own : review.tenant_id ≡ tenant
  pub decrypted : cipher.decrypt review.payload_enc ≡ some x

module _ {P : Type 0} (cipher : Cipher P) (st : MemoryStore) (id tenant : String) where
  abbrev Here : MemoryStore → Type 0
  Here s = s ≡ st

  abbrev IsStored : ReviewRecord → Type 0
  IsStored r = lookup id st.reviews ≡ some r

  found-IsStored : Keeps Here IsStored (found_review id)
  unfolding found_review
  found-IsStored =
      Keeps-bind Here (λ o. lookup id st.reviews ≡ o) IsStored _ _
        (Keeps-read Here (λ o. lookup id st.reviews ≡ o) (get_review id)
          (λ s i. ap (λ (x : MemoryStore). lookup id x.reviews) (sym i)))
        (λ found e. Keeps-some Here IsStored found not_found (each found e))
    where
      each : (o : Option ReviewRecord) → lookup id st.reviews ≡ o → OnSome IsStored o
      each none e = tt
      each (some r) e = e

  -- what holds of an answer to the gateway
  abbrev IsHonest : GatewayStatus P → Type 0
  IsHonest g =
      (g.payload ≡ none) ⊎ ((x : P) × (g.payload ≡ some x) × IsReleased cipher st id tenant x)

  was_approved :
      (s : ReviewStatus) (expires_at now : ℕ)
      → effective_at s expires_at now ≡ ReviewStatus.approved
      → s ≡ ReviewStatus.approved
  was_approved ReviewStatus.approved expires_at now q = refl
  was_approved ReviewStatus.rejected expires_at now q = absurd (ground arith)
  was_approved ReviewStatus.expired expires_at now q = absurd (ground arith)
  was_approved ReviewStatus.pending expires_at now q = absurd (ground arith)

  same_tenant : (r : ReviewRecord) → not (str_eq r.tenant_id tenant) ≡ false → r.tenant_id ≡ tenant
  same_tenant r e = ground (arith, eq_iff r.tenant_id tenant)

  reported-IsHonest :
      (now : ℕ) (r : ReviewRecord)
      → IsStored r
      → r.tenant_id ≡ tenant
      → IsHonest (reported cipher r (effective_status r now))
  reported-IsHonest now r e t = by_status (effective_status r now) refl
    where
      by_status : (s : ReviewStatus) → effective_status r now ≡ s → IsHonest (reported cipher r s)
      by_status ReviewStatus.pending q = inl refl
      by_status ReviewStatus.rejected q = inl refl
      by_status ReviewStatus.expired q = inl refl
      by_status ReviewStatus.approved q = elim (Option-cases (cipher.decrypt r.payload_enc)) [
        | inl n ↦ inl n
        | inr (x, d) ↦ inr (
          x,
          d,
          record {
            review = r;
            stored = e;
            approved = was_approved r.status r.expires_at now q;
            own = t;
            decrypted = d;
          },
        )
      ]

  status-Keeps : (now : ℕ) → Keeps Here IsHonest (status_for_gateway cipher now id tenant)
  unfolding status_for_gateway
  status-Keeps now = Keeps-bind Here IsStored IsHonest _ _ found-IsStored (λ r e.
      Keeps-bind Here _ IsHonest _ _
        (Keeps-raise_if Here (not (str_eq r.tenant_id tenant)) not_found)
        (λ _ same. Keeps-pure Here IsHonest _ (reported-IsHonest now r e (same_tenant r same))))

-- The gateway is told a held payload only where the review is stored as approved and belongs to the
-- tenant that asks; it is then the payload that was stored with the review.
pub payload-IsReleased :
    {P : Type 0} (cipher : Cipher P) (now : ℕ) (st : MemoryStore) (id tenant : String)
    (g : GatewayStatus P) (x : P)
    → (status_for_gateway cipher now id tenant st).0 ≡ ok g
    → g.payload ≡ some x
    → IsReleased cipher st id tenant x
payload-IsReleased cipher now st id tenant g x e q =
    elim (Keeps-value (Here cipher st id tenant) (IsHonest cipher st id tenant) _ g st e
      (status-Keeps cipher st id tenant now) refl) [
        | inl n ↦ absurd (none-some (sym n ∙ q))
        | inr (y, p, h) ↦ subst (IsReleased cipher st id tenant) (some_inj (sym p ∙ q)) h
      ]
