-- ===== src/Verify/Engine/Justified.antt =====
-- An allowing answer of the verification engine rests on evidence that closes the gap.
use policy_guardrails_agent.Prelude.{
  Bool-cases, Option-cases, lookup-remove, ℕ, String, ◌≡◌, refl, inl, inr, true, false, Option,
  none, some, List, [], ◌∷◌, ◌++◌, arith,
}
use policy_guardrails_agent.Risk.Codes.{ReasonCode, verified, evidence_of, dry_run}
use policy_guardrails_agent.Risk.Decision.{Outcome}
use policy_guardrails_agent.Verify.Model.{Levels, is_none, Evidence}
use policy_guardrails_agent.Verify.Planner.{
  VerifierSpec, plan, pending_steps, needs_human_review, inline_steps,
}
use policy_guardrails_agent.Verify.DryRun.{DryRunResult}
use policy_guardrails_agent.Verify.Store.{
  M, ◌>>=◌, VerificationStore, MemoryStore, memory, evidence, take_evidence, consume_evidence,
  same_key_iff, key,
}
use policy_guardrails_agent.Verify.Engine.{
  VerifyContext, VerificationEngine, Resolution, gap_with, plan_with, dry_run_evidence, ask_person,
  close_gap, after_inline, run_inline, carry_out, spend, turn_down, decide_on, attempt, resolve,
  is_refused, is_nil, too_many, planned, pure, Verification, ask_or_find, new_verification, asking,
  available, dry_run_of, judge, keep_evidence, or_hold,
}

-- A closed gap is the only one without a plan.
plan_none :
    (g : Levels) (available : List VerifierSpec) → plan g available ≡ none → is_none g ≡ true
unfolding plan
plan_none g available h = ground arith

plan_with-none :
    (e : VerificationEngine) (c : VerifyContext) (es : List Evidence)
    → plan_with e c es ≡ none
    → is_none (gap_with c es) ≡ true
unfolding plan_with
plan_with-none e c es h = plan_none (gap_with c es) (available e c) h

module _ {S : Type 0} (P : S → Type 0) where
  -- what an allowing answer entails; an exception or another outcome entails nothing
  abbrev pub OnAllow : Option Resolution × S → Type 0
  OnAllow (none, s) = Unit
  OnAllow (some r, s) = r.outcome ≡ Outcome.allow → P s

  bind_step :
      {A : Type 0} (o : Option A) (s : S) (f : A → M S Resolution)
      → ((a : A) → OnAllow (f a s))
      → OnAllow (elim o [ none ↦ (none, s) | some a ↦ f a s ])
  bind_step none s f h = tt
  bind_step (some a) s f h = h a

  OnAllow-bind :
      {A : Type 0} (m : M S A) (f : A → M S Resolution) (s : S)
      → ((a : A) → OnAllow (f a (m s).1))
      → OnAllow ((m >>= f) s)
  OnAllow-bind m f s h = bind_step (m s).0 (m s).1 f h

module _ {S : Type 0} (store : VerificationStore S) (e : VerificationEngine) (c : VerifyContext)
    (now : ℕ) (id : String) where
  -- the evidence at hand: what was found, and the dry runs whose estimate is within the limit
  pub data Collected (found : List Evidence) : List Evidence → Type 0 where
    as_found : Collected found found
    estimated :
        {es : List Evidence} (step : VerifierSpec) (res : DryRunResult)
        → Collected found es
        → dry_run_of store e c now id step e.dry_run c.sql ≡ some res
        → res.succeeded ≡ true
        → too_many res.estimated_rows e.max_rows ≡ false
        → Collected found (es ++ dry_run_evidence c now ∷ [])

  -- evidence that closes the gap of this request
  pub data Justified (found : List Evidence) : Type 0 where
    closing :
        {es : List Evidence} → Collected found es → is_none (gap_with c es) ≡ true → Justified found

  -- `Q` holds of every store from which the evidence has just been taken
  module _ (found : List Evidence) (Q : S → Type 0)
      (taken : (s : S) → Q (store.take_evidence c.tenant_id c.request_hash s).1) where
    abbrev Spent : S → Type 0
    Spent s = Justified found × Q s

    close_gap-OnAllow :
        (p : List VerifierSpec) (codes : List ReasonCode) {es : List Evidence} (s : S)
        → Collected found es
        → OnAllow Spent (close_gap store e c now id p codes es s)
    unfolding close_gap
    close_gap-OnAllow p codes {es} s k = elim (Bool-cases (is_none (gap_with c es))) [
      | inl closed ↦ rw closed (
          OnAllow-bind Spent (store.take_evidence c.tenant_id c.request_hash)
            (λ es. pure (planned Outcome.allow (verified ∷ codes) p)) s
            (λ es allowed. (closing k closed, taken s)))
      | inr short ↦ rw short (λ allowed. cc)
    ]

    ask_person-OnAllow :
        (p : List VerifierSpec) (codes : List ReasonCode) (s : S)
        → OnAllow Spent (ask_person store e c now id p codes s)
    unfolding ask_person
    ask_person-OnAllow p codes s =
        OnAllow-bind Spent (store.pending_for c.tenant_id c.request_hash)
          (λ o. ask_or_find store e c now id p codes o) s
          (λ o. asked o (store.pending_for c.tenant_id c.request_hash s).1)
      where
        asked :
            (o : Option Verification) (t : S)
            → OnAllow Spent (ask_or_find store e c now id p codes o t)
        asked (some v) t = λ allowed. cc
        asked none t =
            OnAllow-bind Spent (store.put_verification (new_verification c now id))
              (λ done. pure (asking p codes (new_verification c now id))) t (λ a allowed. cc)

    after_inline-OnAllow :
        (p : List VerifierSpec) (codes : List ReasonCode) {es : List Evidence} (s : S)
        → Collected found es
        → OnAllow Spent (after_inline store e c now id p codes es s)
    unfolding after_inline
    after_inline-OnAllow p codes {es} s k = elim (Bool-cases (is_nil (pending_steps p))) [
      | inl waits ↦ rw waits (close_gap-OnAllow p codes s k)
      | inr asks ↦ rw asks (ask_person-OnAllow p codes s)
    ]

    judge-OnAllow :
        (p : List VerifierSpec) (res : DryRunResult) (rest : M S Resolution) (s : S)
        → (res.succeeded ≡ true
            → too_many res.estimated_rows e.max_rows ≡ false
            → (t : S) → OnAllow Spent (rest t))
        → OnAllow Spent (judge store e c now id p res rest s)
    judge-OnAllow p res rest s h = elim (Bool-cases res.succeeded) [
      | inr failed ↦ rw failed (λ allowed. cc)
      | inl passed ↦ elim (Bool-cases (too_many res.estimated_rows e.max_rows)) [
        | inl many ↦ rw (passed, many) (λ allowed. cc)
        | inr fits ↦ rw (passed, fits) (kept (h passed fits))
      ]
    ]
      where
        kept :
            ((t : S) → OnAllow Spent (rest t))
            → OnAllow Spent (keep_evidence store e c now id p rest s)
        kept k = elim (Bool-cases (is_nil (pending_steps p))) [
          | inl closes ↦ rw closes (k s)
          | inr asks ↦ rw asks (
              OnAllow-bind Spent (store.add_evidence c.tenant_id (dry_run_evidence c now))
                (λ done. rest) s
                (λ done. k (store.add_evidence c.tenant_id (dry_run_evidence c now) s).1))
        ]

    run_inline-OnAllow :
        (p steps : List VerifierSpec) (codes : List ReasonCode) {es : List Evidence} (s : S)
        → Collected found es
        → OnAllow Spent (run_inline store e c now id p steps codes es s)
    unfolding run_inline
    run_inline-OnAllow p [] codes s k = after_inline-OnAllow p codes s k
    run_inline-OnAllow p (step ∷ steps) codes {es} s k =
        elim (Option-cases (dry_run_of store e c now id step e.dry_run c.sql)) [
          | inl skips ↦ rw skips (run_inline-OnAllow p steps codes s k)
          | inr (res, runs) ↦ rw runs (
              judge-OnAllow p res
                (run_inline store e c now id p steps (codes ++ evidence_of dry_run ∷ [])
                  (es ++ dry_run_evidence c now ∷ []))
                s
                (λ passed fits t.
                  run_inline-OnAllow p steps (codes ++ evidence_of dry_run ∷ []) t
                    (estimated step res k runs passed fits)))
        ]

    carry_out-OnAllow :
        (p : List VerifierSpec) {es : List Evidence} (s : S)
        → Collected found es
        → OnAllow Spent (carry_out store e c now id es p s)
    unfolding carry_out
    carry_out-OnAllow p s k = elim (Bool-cases (needs_human_review p)) [
      | inl human ↦ rw human (λ allowed. cc)
      | inr machine ↦ rw machine (run_inline-OnAllow p (inline_steps p) [] s k)
    ]

    spend-OnAllow :
        (o : Option (List VerifierSpec)) (s : S)
        → plan_with e c found ≡ o
        → Q s
        → OnAllow Spent (spend store e c now id found o s)
    unfolding spend
    spend-OnAllow none s closed q =
        λ allowed. (closing as_found (plan_with-none e c found closed), q)
    spend-OnAllow (some p) s more q = carry_out-OnAllow p s as_found

module _ (e : VerificationEngine) (c : VerifyContext) (now : ℕ) (id : String) where
  abbrev IsSpent : MemoryStore → Type 0
  IsSpent st = evidence now c.tenant_id c.request_hash st ≡ []

  take_evidence-IsSpent :
      (st : MemoryStore) → IsSpent ((memory now).take_evidence c.tenant_id c.request_hash st).1
  unfolding memory take_evidence
  take_evidence-IsSpent st = rw (
    lookup-remove,
    (same_key_iff (key c.tenant_id c.request_hash) (key c.tenant_id c.request_hash)).1 refl,
  )

  abbrev Answered : MemoryStore → Option Resolution × MemoryStore → Type 0
  Answered st = OnAllow (λ t.
      Justified (memory now) e c now id (evidence now c.tenant_id c.request_hash st) × IsSpent t)

  decide_on-OnAllow :
      (st : MemoryStore) (o : Option (List VerifierSpec))
      → plan_with e c (evidence now c.tenant_id c.request_hash st) ≡ o
      → Answered st
          (decide_on (memory now) e c now id (evidence now c.tenant_id c.request_hash st) o st)
  unfolding decide_on memory take_evidence
  decide_on-OnAllow st none closed =
      spend-OnAllow (memory now) e c now id (evidence now c.tenant_id c.request_hash st) IsSpent
        take_evidence-IsSpent _ (consume_evidence c.tenant_id c.request_hash st) refl
        (take_evidence-IsSpent st)
  decide_on-OnAllow st (some p) more =
      carry_out-OnAllow (memory now) e c now id (evidence now c.tenant_id c.request_hash st) IsSpent
        take_evidence-IsSpent p st as_found

  attempt-OnAllow : (st : MemoryStore) → Answered st (attempt (memory now) e c now id st)
  unfolding attempt memory turn_down
  attempt-OnAllow st = elim (Bool-cases (is_refused (evidence now c.tenant_id c.request_hash st))) [
    | inl refused ↦ rw refused (λ allowed. cc)
    | inr clear ↦ rw clear (decide_on-OnAllow st _ refl)
  ]

  allowed_of :
      (st : MemoryStore) (x : Option Resolution × MemoryStore)
      → Answered st x
      → (or_hold (memory now) e c now id x).0.outcome ≡ Outcome.allow
      → Justified (memory now) e c now id (evidence now c.tenant_id c.request_hash st)
        × IsSpent (or_hold (memory now) e c now id x).1
  allowed_of st (none, t) h allowed = cc
  allowed_of st (some r, t) h allowed = h allowed

  -- When the engine resolves a request to `allow`, evidence closes the whole gap between what the
  -- action needs and what the context gives: evidence that the store held for this very request,
  -- unexpired, and dry runs of this call that succeeded with a row estimate within the limit. The
  -- store then holds no evidence for the request any more.
  pub resolve-allow :
      (st : MemoryStore)
      → (resolve (memory now) e c now id st).0.outcome ≡ Outcome.allow
      → Justified (memory now) e c now id (evidence now c.tenant_id c.request_hash st)
        × (evidence now c.tenant_id c.request_hash (resolve (memory now) e c now id st).1 ≡ [])
  unfolding resolve
  resolve-allow st allowed =
      allowed_of st (attempt (memory now) e c now id st) (attempt-OnAllow st) allowed
