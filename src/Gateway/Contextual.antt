-- ===== src/Gateway/Contextual.antt =====
-- ContextualDecisions of services/guardrail-gateway/app/risk/contextual.py. The description of the
-- request (`describe`), the features for the advisors and the request's hash are parameters: the
-- functions take what these computed.
pub mod Recorded
use Prim.Native.String.{◌++◌ as concat}
use policy_guardrails_agent.Prelude.{
  if◌then◌else◌, ltb, leb, str_eq, mem, dedup, ℕ, ◌+◌, min, String, Bool, true, false, not, ◌&&◌,
  ◌||◌, Option, none, some, List, [], ◌∷◌, ◌++◌,
}
use policy_guardrails_agent.Sdk.Models.{Stage, Decision, same_stage, same_decision}
use policy_guardrails_agent.Context.Descriptors.{
  Kind, Verb, ActionDescriptor, is_kind, is_external, is_given,
}
use policy_guardrails_agent.Session.View.{SessionView, SessionUpdate, Penalty, quarantined}
use policy_guardrails_agent.Risk.Codes.{repeated_denials, advisor_risk, same_code, ReasonCode}
use policy_guardrails_agent.Risk.Config.{RiskConfig, Band}
use policy_guardrails_agent.Risk.Engine.{Assessment, Signal, band_for, codes}
use policy_guardrails_agent.Risk.Decision.{
  Outcome, TableResult, Facts, decide, is_verify, is_allowing,
}
use policy_guardrails_agent.Advise.Panel.{Advisory}
use policy_guardrails_agent.Verify.Model.{Verification}
use policy_guardrails_agent.Verify.Store.{VerificationStore}
use policy_guardrails_agent.Verify.Engine.{
  VerificationEngine, VerifyContext, Resolution, describe, resolve, follow_up,
}

-- RiskMode
pub data RiskMode : Type 0 where
  off shadow enforce : RiskMode

-- ContextualDecisions.enforcing
abbrev pub enforcing : RiskMode → Bool
enforcing off = false
enforcing shadow = false
enforcing enforce = true

pub data IdentityViolation : Type 0 where
  key_agent_mismatch unbound_key : IdentityViolation

-- ContextualDecisions.identity_violation: the key's agent, the claimed one, `require_bound_keys`
unfoldable pub identity_violation : Option String → String → Bool → Option IdentityViolation
identity_violation none claimed required = if required then some unbound_key else none
identity_violation (some own) claimed required =
    if str_eq claimed own then none else some key_agent_mismatch

abbrev pub kind_name : Kind → String
kind_name Kind.sql = "sql"
kind_name Kind.http = "http"
kind_name Kind.file = "file"
kind_name Kind.message = "message"
kind_name Kind.model = "model"
kind_name Kind.unknown = "unknown"

abbrev pub verb_name : Verb → String
verb_name Verb.read = "read"
verb_name Verb.write = "write"
verb_name Verb.delete = "delete"
verb_name Verb.send = "send"
verb_name Verb.execute = "execute"
verb_name Verb.admin = "admin"
verb_name Verb.unknown = "unknown"

-- f"{d.kind}:{d.verb}:{d.target}"
abbrev pub volume_name : ActionDescriptor → Option String → Option String
volume_name d none = none
volume_name d (some t) =
    some (concat (kind_name d.kind) (concat ":" (concat (verb_name d.verb) (concat ":" t))))

-- volume_key
unfoldable pub volume_key : ActionDescriptor → Option String
volume_key d =
    if (is_kind d.kind Kind.sql || (is_kind d.kind Kind.http || is_kind d.kind Kind.file))
      && is_given d.target
    then volume_name d d.target
    else none

-- class Prepared; without session state there is neither a view nor an assessment
pub record Prepared : Type 0 where
  pub descriptor : ActionDescriptor
  pub view : SessionView
  pub assessment : Assessment
  pub advisory : Option Advisory

-- the assessment of `advise` behind an advisory: more points, and the band of the higher score
unfoldable pub raised : Advisory → Assessment → Assessment
raised adv a =
    if ltb 0 adv.points
    then record a {
      score = min 100 (a.score + adv.points);
      band = band_for (min 100 (a.score + adv.points)) a.trust;
      signals = a.signals ++ record { code = advisor_risk; points = adv.points } ∷ [];
    }
    else a

-- ContextualDecisions.advise: `asked` is the panel's answer, none where the panel does not apply
unfoldable pub advise : Option Advisory → Prepared → Prepared
unfolding raised
advise none p = p
advise (some adv) p = record p { assessment = raised adv p.assessment; advisory = some adv }

abbrev pub advisor_verifies : Option Advisory → Bool
advisor_verifies none = false
advisor_verifies (some adv) = adv.verify

-- ContextualDecisions.decide
unfoldable pub decide_on : RiskConfig → Bool → ℕ → Prepared → Bool → Decision → Bool → TableResult
unfolding decide
decide_on cfg has_verifier now p policy_allow engine_decision accepts_obligations = decide (record {
  policy_allow = policy_allow;
  engine_decision = engine_decision;
  band = p.assessment.band;
  descriptor = p.descriptor;
  quarantined = quarantined p.view now;
  accepts_obligations = accepts_obligations;
  cfg = cfg;
  verification_available = has_verifier;
  advisor_verify = advisor_verifies p.advisory;
})

-- TableResult(r.outcome, tuple(dict.fromkeys((*table.reason_codes, *r.codes))))
abbrev pub resolved : TableResult → Resolution → TableResult × Option Verification
resolved t r = (
  record {
    outcome = r.outcome;
    reason_codes = dedup same_code (t.reason_codes ++ r.codes);
    obligations = [];
  },
  r.verification,
)

abbrev pub unless_found :
    {S : Type 0} → TableResult → Option Resolution × S → (TableResult × Option Verification) × S
unless_found t (none, s) = ((t, none), s)
unless_found t (some r, s) = (resolved t r, s)

-- ContextualDecisions.verify, with an engine
unfoldable pub verify_with :
    {S : Type 0}
    → VerificationStore S
    → VerificationEngine
    → VerifyContext
    → ℕ
    → String
    → RiskMode
    → TableResult
    → S
    → (TableResult × Option Verification) × S
unfolding describe resolve follow_up
verify_with store e c now id mode t s =
    if is_allowing t.outcome && enforcing mode
    then unless_found t (follow_up store e c now id s)
    else if is_verify t.outcome
    then (if enforcing mode
        then (let (r, after) = resolve store e c now id s in (resolved t r, after))
        else (resolved t (describe e c), s))
    else ((t, none), s)

-- what `record` reads of the request
pub record Recording : Type 0 where
  pub stage : Stage
  pub is_result : Bool
  pub untrusted_tool : Bool
  pub data_classification : String

abbrev pub add_label : Bool → String → List String → List String
add_label b l labels = if b && not (mem l labels) then labels ++ l ∷ [] else labels

-- `body.data_classification in SENSITIVE`
abbrev pub is_sensitive : String → Bool
is_sensitive c = mem c ("PII" ∷ "CONFIDENTIAL" ∷ [])

-- the labels that a released request leaves on its session
unfoldable pub labels_of : Recording → ActionDescriptor → List String
labels_of r d =
    add_label (is_sensitive r.data_classification) (concat "holds:" r.data_classification) (
      add_label
        (same_stage r.stage Stage.retrieval
          || ((r.is_result
                && (is_external d.destination
                    || (is_kind d.kind Kind.http || is_kind d.kind Kind.unknown)))
              || r.untrusted_tool))
        "untrusted_input" [])

-- decision in (Decision.ALLOW, Decision.MODIFY)
abbrev pub is_released : Decision → Bool
is_released d = same_decision d Decision.allow || same_decision d Decision.modify

abbrev pub learns : Recording → Decision → Bool
learns r final = is_released final && (same_stage r.stage Stage.tool && not r.is_result)

-- the update of ContextualDecisions.record
unfoldable pub update_of :
    RiskConfig
    → RiskMode
    → ℕ
    → Recording
    → ActionDescriptor
    → SessionView
    → Decision
    → SessionUpdate
unfolding labels_of volume_key
update_of cfg mode now r d view final =
    let denied = same_decision final Decision.block in
    let denials = view.denials + (if denied then 1 else 0) in
    record {
      denied = denied;
      allowed = is_released final;
      labels = if is_released final then labels_of r d else [];
      target = if learns r final then d.target else none;
      volume_key = if learns r final then volume_key d else none;
      rows = if learns r final then d.rows_requested else none;
      quarantine_seconds =
          (if denied && (enforcing mode && leb cfg.quarantine_after_denials denials)
            then cfg.quarantine_seconds
            else 0);
      agent_quarantine_seconds =
          (if denied
              && (enforcing mode
                  && leb cfg.agent_quarantine_after_denials (view.agent_recent_denials + 1))
            then cfg.quarantine_seconds
            else 0);
      penalty =
          (if denied && (leb cfg.penalty_after_denials denials && not view.penalised)
            then some (record {
              code = repeated_denials;
              points = cfg.denial_penalty_points;
              half_life = cfg.denial_penalty_half_life;
              at = now;
            })
            else none);
    }
