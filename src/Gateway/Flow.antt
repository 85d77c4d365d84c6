-- ===== src/Gateway/Flow.antt =====
-- run_stage of services/guardrail-gateway/app/gateway/flow.py, from the policy's answer to the
-- decision that is returned and audited. Parsing, spans, metrics and the response's text fields are
-- not modelled.
pub mod Released
use policy_guardrails_agent.Prelude.{
  if◌then◌else◌, ℕ, String, Bool, true, false, not, ◌&&◌, ◌||◌, Option, none, some, [],
}
use policy_guardrails_agent.Sdk.Models.{Decision, Payload, same_decision}
use policy_guardrails_agent.Risk.Codes.{has_code, guardrail_escalate}
use policy_guardrails_agent.Risk.Decision.{Outcome, TableResult, legacy, Obligations}
use policy_guardrails_agent.Guardrails.Pipeline.{StageOutcome, GuardrailOutcome}
use policy_guardrails_agent.Guardrails.Escalation.{Review, hold_for_review}
use policy_guardrails_agent.Gateway.Contextual.{is_released}

-- _legacy_outcome_name
abbrev pub legacy_outcome_name : Decision → Outcome
legacy_outcome_name Decision.allow = Outcome.allow
legacy_outcome_name Decision.modify = Outcome.modify
legacy_outcome_name Decision.escalate = Outcome.hold
legacy_outcome_name Decision.block = Outcome.deny

-- table.outcome in ("allow", "allow_restricted")
abbrev pub is_allow : Outcome → Bool
is_allow Outcome.allow = true
is_allow Outcome.allow_restricted = true
is_allow _ = false

-- _final_outcome_name
unfoldable pub final_outcome_name : TableResult → Decision → Outcome
final_outcome_name t final =
    if same_decision (legacy t) final || (is_allow t.outcome && same_decision final Decision.modify)
    then t.outcome
    else legacy_outcome_name final

-- table.outcome in ("hold", "verify")
abbrev pub waits : Outcome → Bool
waits Outcome.hold = true
waits Outcome.verify = true
waits _ = false

-- _risk_held; the table is given in enforce mode only
unfoldable pub risk_held : Option TableResult → Bool
risk_held none = false
risk_held (some t) = waits t.outcome && not (has_code guardrail_escalate t.reason_codes)

-- the last tests of _apply_table
abbrev pub replaced : TableResult → ℕ → StageOutcome → ℕ → StageOutcome × ℕ
replaced t score out status = apart (legacy t) t.outcome
  where
    apart : Decision → Outcome → StageOutcome × ℕ
    apart Decision.block o =
        (record out { decision = Decision.block; risk_score = score; payload = none }, 403)
    apart Decision.escalate Outcome.verify =
        (record out { decision = Decision.escalate; risk_score = score; payload = none }, 202)
    apart Decision.escalate _ =
        (record out { decision = Decision.escalate; risk_score = score }, status)
    apart Decision.allow o = (out, status)
    apart Decision.modify o = (out, status)

-- _apply_table; `score` is the assessment's
unfoldable pub apply_table : TableResult → ℕ → StageOutcome → ℕ → StageOutcome × ℕ
apply_table t score out status =
    if same_decision (legacy t) out.decision
      || (same_decision (legacy t) Decision.allow && same_decision out.decision Decision.modify)
    then (out, status)
    else replaced t score out status

-- what the decision is made of: the table, in enforce mode and with its assessment's score, and
-- whether a verification is open
pub record Verdict : Type 0 where
  pub table : Option TableResult
  pub score : ℕ
  pub verification : Bool

abbrev pub enforced : Verdict → StageOutcome → ℕ → StageOutcome × ℕ
enforced v out status = by_table v.table
  where
    by_table : Option TableResult → StageOutcome × ℕ
    by_table none = (out, status)
    by_table (some t) =
        let (o, st) = apply_table t v.score out status in (o, if v.verification then 202 else st)

-- 202 if escalation_id else (403 if _risk_held(table, ctxd) else 200)
abbrev pub held_status : Option String → Bool → ℕ
held_status (some id) held = 202
held_status none held = if held then 403 else 200

-- the review queue's part
unfoldable pub queued :
    Option (Review → Option String)
    → Verdict
    → StageOutcome × ℕ
    → (StageOutcome × Option String) × ℕ
unfolding hold_for_review risk_held
queued control_plane v (out, status) =
    if same_decision out.decision Decision.escalate && not v.verification
    then (let filed =
          hold_for_review control_plane out
            (if risk_held v.table then some "gateway-risk" else none) in
        (filed, held_status filed.1 (risk_held v.table)))
    else ((out, none), status)

-- what the gateway answers
pub record StageResult : Type 0 where
  pub status : ℕ
  pub decision : Decision
  pub payload : Option Payload
  pub outcome : Outcome
  pub obligations : Obligations
  pub escalation_id : Option String

abbrev pub released : StageOutcome → Option Payload
released out = if is_released out.decision then out.payload else none

abbrev pub name_of : Option TableResult → Decision → Outcome
name_of none d = legacy_outcome_name d
name_of (some t) d = final_outcome_name t d

abbrev pub owed : Option TableResult → Option Payload → Obligations
owed none p = []
owed (some t) none = []
owed (some t) (some p) = t.obligations

abbrev pub answered : Verdict → (StageOutcome × Option String) × ℕ → StageResult
answered v ((out, id), status) = record {
  status = status;
  decision = out.decision;
  payload = released out;
  outcome = name_of v.table out.decision;
  obligations = owed v.table (released out);
  escalation_id = id;
}

-- run_stage, from the stage outcome and its status on
unfoldable pub conclude : Option (Review → Option String) → Verdict → StageOutcome → ℕ → StageResult
unfolding queued apply_table final_outcome_name
conclude control_plane v out status = answered v (queued control_plane v (enforced v out status))
