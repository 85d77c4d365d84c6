-- ===== src/Verify/Engine.antt =====
-- services/guardrail-gateway/app/verify/engine.py: a `verify` outcome becomes allow, a pending user
-- confirmation, or a hold. The store, the identity provider's tokens, the random ids and the clock
-- are parameters; an exception of the store is an action's none.
pub mod Justified
use policy_guardrails_agent.Prelude.{
  if◌then◌else◌, ltb, any, mem, dedup, ℕ, ◌+◌, String, Bool, true, false, not, ◌&&◌, Option, none,
  some, List, [], ◌∷◌, ◌++◌,
}
use policy_guardrails_agent.Context.Descriptors.{ActionDescriptor, is_given}
use policy_guardrails_agent.Risk.Codes.{
  ReasonCode, EvidenceKind, dry_run, user_confirmation, is_evidence, evidence_of, verify_plan,
  verified, verify_needs_human, verify_error, verify_incomplete, verify_user_confirmation,
  dry_run_failed, dry_run_too_many_rows, user_rejected,
}
use policy_guardrails_agent.Risk.Decision.{Outcome}
use policy_guardrails_agent.Verify.Model.{
  Levels, is_none, Evidence, Status, Verification, evidence_ttl_seconds, verification_ttl_seconds,
  required, current, gap,
}
use policy_guardrails_agent.Verify.Planner.{
  VerifierSpec, dry_run_spec, user_confirmation_spec, needs_human_review, inline_steps,
  pending_steps, kinds, plan,
}
use policy_guardrails_agent.Verify.DryRun.{SqlDryRun, applicable, run, DryRunResult}
use policy_guardrails_agent.Verify.Store.{M, ◌>>=◌, ◌>>◌, pure, VerificationStore}

-- UserTokenVerifier: an external check of a signed token; `accepts token user nonce` says that it
-- does not raise TokenRejected
pub record UserTokens : Type 0 where
  pub enabled : Bool
  pub require_nonce : Bool
  pub accepts : String → String → String → Bool

-- class VerifyContext; `production` and `bound_key` stand for the tests on environment and assurance
pub record VerifyContext : Type 0 where
  pub tenant_id : String
  pub agent_id : String
  pub user_id : Option String
  pub request_hash : String
  pub descriptor : ActionDescriptor
  pub codes : List ReasonCode
  pub production : Bool
  pub bound_key : Bool
  pub channels : List String
  pub tool_name : Option String
  pub resource : Option String
  pub sql : Option String

pub record Resolution : Type 0 where
  pub outcome : Outcome
  pub codes : List ReasonCode
  pub verification : Option Verification
  pub plan : List EvidenceKind

abbrev pub resolution : Outcome → List ReasonCode → Resolution
resolution out codes = record { outcome = out; codes = codes; verification = none; plan = [] }

abbrev pub planned : Outcome → List ReasonCode → List VerifierSpec → Resolution
planned out codes p = record { outcome = out; codes = codes; verification = none; plan = kinds p }

pub record VerificationEngine : Type 0 where
  pub dry_run : Option SqlDryRun
  pub user_tokens : Option UserTokens
  pub max_rows : ℕ

-- VerificationEngine.user_confirmation_enabled
abbrev pub tokens_enabled : Option UserTokens → Bool
tokens_enabled none = false
tokens_enabled (some t) = t.enabled

abbrev pub can_dry_run : Option SqlDryRun → VerifyContext → Bool
can_dry_run none c = false
can_dry_run (some r) c = is_given c.sql && applicable r c.descriptor c.tool_name c.resource

-- VerificationEngine.available
unfoldable pub available : VerificationEngine → VerifyContext → List VerifierSpec
available e c =
    (if can_dry_run e.dry_run c then dry_run_spec ∷ [] else [])
    ++ (if mem "user_confirmation" c.channels
          && (is_given c.user_id && tokens_enabled e.user_tokens)
        then user_confirmation_spec ∷ []
        else [])

-- the gap that is left with the evidence at hand
unfoldable pub gap_with : VerifyContext → List Evidence → Levels
gap_with c evidence =
    gap (required c.descriptor c.codes c.production)
      (current c.bound_key c.descriptor c.codes evidence)

-- VerificationEngine._plan, its second component; None is a closed gap
unfoldable pub plan_with :
    VerificationEngine → VerifyContext → List Evidence → Option (List VerifierSpec)
unfolding available gap_with
plan_with e c evidence = plan (gap_with c evidence) (available e c)

abbrev pub plan_codes : List VerifierSpec → List ReasonCode
plan_codes [] = []
plan_codes (s ∷ ss) = verify_plan s.kind ∷ plan_codes ss

abbrev pub described : Option (List VerifierSpec) → Resolution
described none = resolution Outcome.allow (verified ∷ [])
described (some p) =
    if needs_human_review p
    then planned Outcome.hold (verify_needs_human ∷ []) p
    else planned Outcome.verify (plan_codes p) p

-- VerificationEngine.describe
unfoldable pub describe : VerificationEngine → VerifyContext → Resolution
unfolding plan_with
describe e c = described (plan_with e c [])

-- any(e.kind == "user_confirmation" and not e.passed for e in evidence)
abbrev pub is_refused : List Evidence → Bool
is_refused = any (λ e. is_evidence e.kind user_confirmation && not e.passed)

-- e.kind for e in evidence if e.passed
abbrev pub passed_kinds : List Evidence → List EvidenceKind
passed_kinds [] = []
passed_kinds (e ∷ es) = let rest = passed_kinds es in if e.passed then e.kind ∷ rest else rest

abbrev pub evidence_codes : List EvidenceKind → List ReasonCode
evidence_codes [] = []
evidence_codes (k ∷ ks) = evidence_of k ∷ evidence_codes ks

-- ("VERIFIED", *dict.fromkeys(…))
abbrev pub allowed_by : List Evidence → Resolution
allowed_by es =
    resolution Outcome.allow (verified ∷ evidence_codes (dedup is_evidence (passed_kinds es)))

abbrev pub dry_run_evidence : VerifyContext → ℕ → Evidence
dry_run_evidence c now = record {
  kind = dry_run;
  request_hash = c.request_hash;
  passed = true;
  strength = dry_run_spec.closes;
  issued_at = now;
  expires_at = now + evidence_ttl_seconds;
}

abbrev pub new_verification : VerifyContext → ℕ → String → Verification
new_verification c now id = record {
  id = id;
  tenant_id = c.tenant_id;
  request_hash = c.request_hash;
  kind = user_confirmation;
  agent_id = c.agent_id;
  user_id = c.user_id;
  status = Status.pending;
  created_at = now;
  expires_at = now + verification_ttl_seconds;
}

-- res.estimated_rows is None or res.estimated_rows > self.max_rows
abbrev pub too_many : Option ℕ → ℕ → Bool
too_many none limit = true
too_many (some n) limit = ltb limit n

abbrev pub is_nil {ℓ} : {A : Type ℓ} → List A → Bool
is_nil [] = true
is_nil (x ∷ xs) = false

-- the answer that names a verification to confirm
abbrev pub asking : List VerifierSpec → List ReasonCode → Verification → Resolution
asking p codes v = record (planned Outcome.verify (codes ++ verify_user_confirmation ∷ []) p) {
  verification = some v;
}

module _ {S : Type 0} (store : VerificationStore S) (e : VerificationEngine) (c : VerifyContext)
    (now : ℕ) (id : String) where
  -- the verification that is open already, or a new one
  unfoldable pub ask_or_find :
      List VerifierSpec → List ReasonCode → Option Verification → M S Resolution
  ask_or_find p codes (some v) = pure (asking p codes v)
  ask_or_find p codes none = do
    store.put_verification (new_verification c now id)
    pure (asking p codes (new_verification c now id))

  -- the part behind `if p.pending`: open a verification, unless one is open
  unfoldable pub ask_person : List VerifierSpec → List ReasonCode → M S Resolution
  unfolding ask_or_find
  ask_person p codes = do
    found ← store.pending_for c.tenant_id c.request_hash
    ask_or_find p codes found

  -- the last part: close the gap with what was collected, or leave it to a person
  unfoldable pub close_gap : List VerifierSpec → List ReasonCode → List Evidence → M S Resolution
  close_gap p codes evidence =
      if not (is_none (gap_with c evidence))
      then pure (planned Outcome.hold (verify_incomplete ∷ []) p)
      else do
        store.take_evidence c.tenant_id c.request_hash
        pure (planned Outcome.allow (verified ∷ codes) p)

  -- what follows the loop over the inline steps
  unfoldable pub after_inline : List VerifierSpec → List ReasonCode → List Evidence → M S Resolution
  unfolding ask_person close_gap
  after_inline p codes evidence =
      if is_nil (pending_steps p) then close_gap p codes evidence else ask_person p codes

  -- a dry run that passed: its evidence is kept for the retry behind a person's confirmation
  abbrev pub keep_evidence : List VerifierSpec → M S Resolution → M S Resolution
  keep_evidence p rest =
      if is_nil (pending_steps p)
      then rest
      else (store.add_evidence c.tenant_id (dry_run_evidence c now) >> rest)

  -- the body of the loop at a dry run: what its result makes of the request
  abbrev pub judge : List VerifierSpec → DryRunResult → M S Resolution → M S Resolution
  judge p res rest =
      if not res.succeeded
      then pure (planned Outcome.hold (dry_run_failed ∷ []) p)
      else if too_many res.estimated_rows e.max_rows
      then pure (planned Outcome.hold (dry_run_too_many_rows ∷ []) p)
      else keep_evidence p rest

  -- step.kind == DRY_RUN.kind and self.dry_run is not None and c.sql is not None
  abbrev pub dry_run_of : VerifierSpec → Option SqlDryRun → Option String → Option DryRunResult
  dry_run_of step none sql = none
  dry_run_of step (some runner) none = none
  dry_run_of step (some runner) (some sql) =
      if is_evidence step.kind dry_run then some (run runner sql c.tool_name c.resource) else none

  -- the loop's next round, behind a step that did nothing or behind a dry run
  unfoldable pub after_step :
      List VerifierSpec → M S Resolution → M S Resolution → Option DryRunResult → M S Resolution
  after_step p skipped collected none = skipped
  after_step p skipped collected (some res) = judge p res collected

  -- the loop over the inline steps, of which only a dry run does anything
  unfoldable pub run_inline :
      List VerifierSpec → List VerifierSpec → List ReasonCode → List Evidence → M S Resolution
  unfolding after_inline after_step
  run_inline p [] codes evidence = after_inline p codes evidence
  run_inline p (step ∷ steps) codes evidence =
      let skipped = run_inline p steps codes evidence in
      let collected =
        run_inline p steps (codes ++ evidence_of dry_run ∷ [])
          (evidence ++ dry_run_evidence c now ∷ []) in
      after_step p skipped collected (dry_run_of step e.dry_run c.sql)

  -- from `if p.needs_human_review` on
  unfoldable pub carry_out : List Evidence → List VerifierSpec → M S Resolution
  unfolding run_inline
  carry_out evidence p =
      if needs_human_review p
      then pure (planned Outcome.hold (verify_needs_human ∷ []) p)
      else run_inline p (inline_steps p) [] evidence

  -- the second plan, over the evidence that was read and deleted in one step
  unfoldable pub spend : List Evidence → Option (List VerifierSpec) → M S Resolution
  unfolding carry_out
  spend taken none = pure (allowed_by taken)
  spend taken (some p) = carry_out taken p

  -- a person has refused this request
  unfoldable pub turn_down : M S Resolution
  turn_down = do
    store.consume_evidence c.tenant_id c.request_hash
    pure (resolution Outcome.deny (user_rejected ∷ []))

  -- Read-and-delete in one step, where the gap looks closed.
  unfoldable pub decide_on : List Evidence → Option (List VerifierSpec) → M S Resolution
  unfolding spend
  decide_on found none = do
    taken ← store.take_evidence c.tenant_id c.request_hash
    spend taken (plan_with e c taken)
  decide_on found (some p) = carry_out found p

  -- VerificationEngine._resolve
  unfoldable pub attempt : M S Resolution
  unfolding turn_down decide_on
  attempt = do
    found ← store.evidence c.tenant_id c.request_hash
    if is_refused found then turn_down else decide_on found (plan_with e c found)

  -- `except Exception`: hold
  abbrev pub or_hold : Option Resolution × S → Resolution × S
  or_hold (none, s) = (resolution Outcome.hold (verify_error ∷ []), s)
  or_hold (some r, s) = (r, s)

  -- VerificationEngine.resolve
  unfoldable pub resolve : S → Resolution × S
  unfolding attempt
  resolve s = or_hold (attempt s)

  -- `follow_up` where nothing is pending: evidence that was given decides
  unfoldable pub spend_passed : List Evidence → M S (Option Resolution)
  spend_passed found =
      if any (λ x. x.passed) found
      then (do
        taken ← store.take_evidence c.tenant_id c.request_hash
        pure (some (allowed_by taken)))
      else pure none

  abbrev pub still_open : Verification → Resolution
  still_open v = record (resolution Outcome.verify (verify_user_confirmation ∷ [])) {
    verification = some v;
  }

  -- `follow_up` where nobody refused: a pending verification still decides
  unfoldable pub look_pending : List Evidence → M S (Option Resolution)
  unfolding spend_passed
  look_pending found = do
    pending_one ← store.pending_for c.tenant_id c.request_hash
    elim pending_one [ some v ↦ pure (some (still_open v)) | none ↦ spend_passed found ]

  -- the body of `follow_up`
  unfoldable pub look_back : M S (Option Resolution)
  unfolding turn_down look_pending
  look_back = do
    found ← store.evidence c.tenant_id c.request_hash
    if is_refused found then (do r ← turn_down; pure (some r)) else look_pending found

  abbrev pub or_held : Option (Option Resolution) × S → Option Resolution × S
  or_held (none, s) = (some (resolution Outcome.hold (verify_error ∷ [])), s)
  or_held (some r, s) = (r, s)

  -- VerificationEngine.follow_up
  unfoldable pub follow_up : S → Option Resolution × S
  unfolding look_back
  follow_up s = or_held (look_back s)
