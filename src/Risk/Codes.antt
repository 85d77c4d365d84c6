-- ===== src/Risk/Codes.antt =====
-- The reason codes that the risk engine, the decision table and the verification engine put on a
-- decision. Each constructor is one of the program's strings; `volume_x n` is f"VOLUME_{n}X".
use policy_guardrails_agent.Prelude.{◌==◌, ℕ, ◌+◌, Bool, List, elem}

-- the kinds of evidence of app/verify/model.py
pub data EvidenceKind : Type 0 where
  dry_run user_confirmation human_approval : EvidenceKind

abbrev pub evidence_code : EvidenceKind → ℕ
evidence_code dry_run = 0
evidence_code user_confirmation = 1
evidence_code human_approval = 2

abbrev pub is_evidence : EvidenceKind → EvidenceKind → Bool
is_evidence a b = evidence_code a == evidence_code b

pub data ReasonCode : Type 0 where
  policy_deny session_quarantined : ReasonCode
  risk_critical risk_high risk_elevated row_limit external_write : ReasonCode
  guardrail_block guardrail_escalate advisor_verify verify_as_hold : ReasonCode
  obligations_unsupported : ReasonCode
  new_resource volume_no_baseline unbounded_read sensitive_then_external : ReasonCode
  tainted_session low_assurance no_session new_session repeated_denials : ReasonCode
  destructive_verb unknown_tool multiple_statements agent_finding : ReasonCode
  tool_definition_changed low_confidence advisor_risk : ReasonCode
  verified verify_needs_human verify_error verify_incomplete : ReasonCode
  verify_user_confirmation dry_run_failed dry_run_too_many_rows user_rejected : ReasonCode
  evidence_of verify_plan : EvidenceKind → ReasonCode
  volume_x : ℕ → ReasonCode

abbrev pub code_index : ReasonCode → ℕ
code_index policy_deny = 0
code_index session_quarantined = 1
code_index risk_critical = 2
code_index risk_high = 3
code_index risk_elevated = 4
code_index row_limit = 5
code_index external_write = 6
code_index guardrail_block = 7
code_index guardrail_escalate = 8
code_index advisor_verify = 9
code_index verify_as_hold = 10
code_index obligations_unsupported = 11
code_index new_resource = 12
code_index volume_no_baseline = 13
code_index unbounded_read = 14
code_index sensitive_then_external = 15
code_index tainted_session = 16
code_index low_assurance = 17
code_index no_session = 18
code_index new_session = 19
code_index repeated_denials = 20
code_index destructive_verb = 21
code_index unknown_tool = 22
code_index multiple_statements = 23
code_index agent_finding = 24
code_index tool_definition_changed = 25
code_index low_confidence = 26
code_index advisor_risk = 27
code_index verified = 28
code_index verify_needs_human = 29
code_index verify_error = 30
code_index verify_incomplete = 31
code_index verify_user_confirmation = 32
code_index dry_run_failed = 33
code_index dry_run_too_many_rows = 34
code_index user_rejected = 35
code_index (evidence_of k) = 40 + evidence_code k
code_index (verify_plan k) = 50 + evidence_code k
code_index (volume_x n) = 60 + n

-- equality of two codes as strings
abbrev pub same_code : ReasonCode → ReasonCode → Bool
same_code a b = code_index a == code_index b

-- `code in codes`
abbrev pub has_code : ReasonCode → List ReasonCode → Bool
has_code = elem same_code
