-- ===== src/Risk/Decision.antt =====
-- services/guardrail-gateway/app/risk/decision.py: the decision table, the only place where a final
-- verdict is made. Each step of `decide` that may replace the outcome is a function of its own.
pub mod Permissive
pub mod Tightening
use policy_guardrails_agent.Prelude.{
  if◌then◌else◌, ltb, dedup, ℕ, String, Bool, true, false, not, ◌&&◌, Option, none, some, List, [],
  ◌∷◌, ◌++◌,
}
use policy_guardrails_agent.Sdk.Models.{Decision}
use policy_guardrails_agent.Context.Descriptors.{
  Kind, Verb, ActionDescriptor, is_kind, is_verb, is_external, writes,
}
use policy_guardrails_agent.Risk.Codes.{
  ReasonCode, policy_deny, session_quarantined, risk_critical, risk_high, risk_elevated, row_limit,
  external_write, guardrail_block, guardrail_escalate, advisor_verify, verify_as_hold,
  obligations_unsupported, same_code,
}
use policy_guardrails_agent.Risk.Config.{RiskConfig, Band}

-- Outcome
pub data Outcome : Type 0 where
  allow allow_restricted modify throttle verify hold quarantine_session deny : Outcome

-- ORDER.index
abbrev pub order_index : Outcome → ℕ
order_index Outcome.allow = 0
order_index Outcome.allow_restricted = 1
order_index Outcome.modify = 2
order_index Outcome.throttle = 3
order_index Outcome.verify = 4
order_index Outcome.hold = 5
order_index Outcome.quarantine_session = 6
order_index Outcome.deny = 7

-- strongest, at the two outcomes that `decide` gives it
abbrev pub strongest : Outcome → Outcome → Outcome
strongest a b = if ltb (order_index a) (order_index b) then b else a

-- {"row_limit": n}
abbrev pub Obligations : Type 0
Obligations = List (String × ℕ)

pub record TableResult : Type 0 where
  pub outcome : Outcome
  pub reason_codes : List ReasonCode
  pub obligations : Obligations

-- to_legacy
abbrev pub to_legacy : Outcome → Bool → Decision
to_legacy Outcome.deny modified = Decision.block
to_legacy Outcome.quarantine_session modified = Decision.block
to_legacy Outcome.hold modified = Decision.escalate
to_legacy Outcome.verify modified = Decision.escalate
to_legacy Outcome.throttle modified = Decision.block
to_legacy Outcome.modify modified = Decision.modify
to_legacy Outcome.allow modified = if modified then Decision.modify else Decision.allow
to_legacy Outcome.allow_restricted modified = if modified then Decision.modify else Decision.allow

-- TableResult.legacy
abbrev pub legacy : TableResult → Decision
legacy r = to_legacy r.outcome false

-- from_engine
abbrev pub from_engine : Decision → Outcome
from_engine Decision.block = Outcome.deny
from_engine Decision.escalate = Outcome.hold
from_engine Decision.modify = Outcome.modify
from_engine Decision.allow = Outcome.allow

-- `out in ("allow", "allow_restricted", "modify")`
abbrev pub is_allowing : Outcome → Bool
is_allowing Outcome.allow = true
is_allowing Outcome.allow_restricted = true
is_allowing Outcome.modify = true
is_allowing Outcome.throttle = false
is_allowing Outcome.verify = false
is_allowing Outcome.hold = false
is_allowing Outcome.quarantine_session = false
is_allowing Outcome.deny = false

abbrev pub is_verify : Outcome → Bool
is_verify Outcome.verify = true
is_verify _ = false

-- `d.rows_requested is None or d.rows_requested > cfg.elevated_row_limit`
abbrev pub is_big : Option ℕ → ℕ → Bool
is_big none limit = true
is_big (some n) limit = ltb limit n

abbrev pub result : Outcome → List ReasonCode → Obligations → TableResult
result out codes obligations = record {
  outcome = out;
  reason_codes = codes;
  obligations = obligations;
}

-- risk_outcome; its triple is a `TableResult`
unfoldable pub risk_outcome : Band → ActionDescriptor → RiskConfig → TableResult
risk_outcome Band.critical d cfg = result Outcome.hold (risk_critical ∷ []) []
risk_outcome Band.high d cfg = result Outcome.verify (risk_high ∷ []) []
risk_outcome Band.elevated d cfg =
    if is_kind d.kind Kind.sql
      && (is_verb d.verb Verb.read && is_big d.rows_requested cfg.elevated_row_limit)
    then result Outcome.allow_restricted (risk_elevated ∷ row_limit ∷ [])
        (("row_limit", cfg.elevated_row_limit) ∷ [])
    else if writes d && is_external d.destination
    then result Outcome.verify (risk_elevated ∷ external_write ∷ []) []
    else result Outcome.allow (risk_elevated ∷ []) []
risk_outcome Band.low d cfg = result Outcome.allow [] []

-- the code that the guardrails' decision adds
abbrev pub engine_codes : Decision → List ReasonCode
engine_codes Decision.block = guardrail_block ∷ []
engine_codes Decision.escalate = guardrail_escalate ∷ []
engine_codes Decision.modify = []
engine_codes Decision.allow = []

-- the risk band's outcome and the guardrails', the strongest of the two
abbrev pub combined : TableResult → Decision → TableResult
combined r e = record r {
  outcome = strongest r.outcome (from_engine e);
  reason_codes = r.reason_codes ++ engine_codes e;
}

-- if advisor_verify and out in (…)
abbrev pub with_advisor : Bool → TableResult → TableResult
with_advisor advisor r =
    if advisor && is_allowing r.outcome
    then record r { outcome = Outcome.verify; reason_codes = r.reason_codes ++ advisor_verify ∷ [] }
    else r

-- if out == "verify" and not verification_available
abbrev pub with_verification : Bool → TableResult → TableResult
with_verification available r =
    if is_verify r.outcome && not available
    then record r { outcome = Outcome.hold; reason_codes = r.reason_codes ++ verify_as_hold ∷ [] }
    else r

abbrev pub is_empty : Obligations → Bool
is_empty [] = true
is_empty (o ∷ os) = false

-- if obligations and out in (…) and not accepts_obligations
abbrev pub with_obligations : Bool → TableResult → TableResult
with_obligations accepts r =
    if not (is_empty r.obligations) && (is_allowing r.outcome && not accepts)
    then record r {
      outcome = Outcome.hold;
      reason_codes = r.reason_codes ++ obligations_unsupported ∷ [];
    }
    else r

-- the last lines: obligations only with an allowing outcome, and each code once
abbrev pub finished : TableResult → TableResult
finished r = record {
  outcome = r.outcome;
  reason_codes = dedup same_code r.reason_codes;
  obligations = if is_allowing r.outcome then r.obligations else [];
}

-- the arguments of `decide`
pub record Facts : Type 0 where
  pub policy_allow : Bool
  pub engine_decision : Decision
  pub band : Band
  pub descriptor : ActionDescriptor
  pub quarantined : Bool
  pub accepts_obligations : Bool
  pub cfg : RiskConfig
  pub verification_available : Bool
  pub advisor_verify : Bool

-- decide
unfoldable pub decide : Facts → TableResult
unfolding risk_outcome
decide f =
    if not f.policy_allow
    then result Outcome.deny (policy_deny ∷ []) []
    else if f.quarantined
    then result Outcome.quarantine_session (session_quarantined ∷ []) []
    else finished (
        with_obligations f.accepts_obligations (
          with_verification f.verification_available (
            with_advisor f.advisor_verify
              (combined (risk_outcome f.band f.descriptor f.cfg) f.engine_decision))))
