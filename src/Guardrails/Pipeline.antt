-- ===== src/Guardrails/Pipeline.antt =====
-- services/guardrail-gateway/app/engine/pipeline.py: a stage's guardrails run in groups, and their
-- decisions become one. Metrics, spans and latencies are not modelled; a reason's text is a value
-- that says where it comes from. `bound` is the answer of `resolve`.

pub mod Released
pub mod Decided
pub mod Obliged
pub mod Trusted
pub mod Shadows
use mathlib.Core.List.{foldl}
use policy_guardrails_agent.Prelude.{
  if◌then◌else◌, is_some, keep, mem, ℕ, max, String, Bool, false, not, ◌&&◌, ◌||◌, Option, none,
  some, List, [], ◌∷◌, ◌++◌, elem,
}
use policy_guardrails_agent.Sdk.Models.{
  Decision, Payload, Finding, same_decision, same_shape_as, strongest,
}
use policy_guardrails_agent.Guardrails.Assignment.{
  Mode, is_shadow, FailureMode, is_closed, Answer, answer, timed_out, raised, BoundGuardrail,
  failure_mode, is_named, same_text,
}

-- the text of `error`
pub data Error : Type 0 where
  undeclared : Decision → Error
  changed_shape timeout : Error
  exception : String → Error

-- the text of a `reason`
pub data Reason : Type 0 where
  given : String → Reason
  failed : String → Error → FailureMode → Reason
  required_missing : List String → Reason
  none_assigned all_allowed : Reason
  decided_by : String → Reason → Reason
  no_review_queue : Reason → Reason

-- the result that `_call` goes on with
pub record Result : Type 0 where
  pub decision : Decision
  pub reason : Reason
  pub risk_score : ℕ
  pub modified_payload : Option Payload
  pub findings : List Finding

-- class GuardrailOutcome
pub record GuardrailOutcome : Type 0 where
  pub guardrail_id : String
  pub version : String
  pub decision : Decision
  pub reason : Reason
  pub risk_score : ℕ
  pub mode : Mode
  pub error : Option Error
  pub findings : List Finding

-- class StageOutcome
pub record StageOutcome : Type 0 where
  pub decision : Decision
  pub reason : Reason
  pub risk_score : ℕ
  pub payload : Option Payload
  pub results : List GuardrailOutcome

-- groups[-1][0].assignment.parallel_group == g, where g is given
abbrev pub joins : BoundGuardrail → List BoundGuardrail → Bool
joins b [] = false
joins b (first ∷ rest) =
    is_named b.assignment.parallel_group
    && same_text first.assignment.parallel_group b.assignment.parallel_group

-- the body of the loop in `_groups`
unfoldable pub add_to_groups :
    List (List BoundGuardrail) → BoundGuardrail → List (List BoundGuardrail)
add_to_groups [] b = (b ∷ []) ∷ []
add_to_groups (g ∷ []) b = if joins b g then (g ++ b ∷ []) ∷ [] else g ∷ (b ∷ []) ∷ []
add_to_groups (g ∷ h ∷ gs) b = g ∷ add_to_groups (h ∷ gs) b

-- GuardrailEngine._groups
unfoldable pub groups : List BoundGuardrail → List (List BoundGuardrail)
unfolding add_to_groups
groups bound = foldl add_to_groups [] bound

abbrev pub is_modify : Decision → Bool
is_modify d = same_decision d Decision.modify

-- not payload.same_shape_as(result.modified_payload); with no payload that raises
abbrev pub shape_error : Payload → Option Payload → Option Error
shape_error p none = some (exception "AttributeError")
shape_error p (some q) = if same_shape_as p q then none else some changed_shape

-- the part of `_call` under `try`
unfoldable pub error_of : BoundGuardrail → Payload → Answer → Option Error
error_of b p timed_out = some timeout
error_of b p (raised name) = some (exception name)
error_of b p (answer r) =
    if not (elem same_decision r.decision b.manifest.decisions_emitted)
    then some (undeclared r.decision)
    else if is_modify r.decision
    then shape_error p r.modified_payload
    else none

-- if error is not None: the failure policy's result
abbrev pub failure : BoundGuardrail → Error → Result
failure b e = record {
  decision = if is_closed (failure_mode b) then Decision.block else Decision.allow;
  reason = failed b.manifest.id e (failure_mode b);
  risk_score = if is_closed (failure_mode b) then 100 else 0;
  modified_payload = none;
  findings = [];
}

abbrev pub accepted : BoundGuardrail → Answer → Result
accepted b timed_out = failure b timeout
accepted b (raised name) = failure b (exception name)
accepted b (answer r) = record {
  decision = r.decision;
  reason = given r.reason;
  risk_score = r.risk_score;
  modified_payload = r.modified_payload;
  findings = r.findings;
}

abbrev pub result_of : BoundGuardrail → Answer → Option Error → Result
result_of b a none = accepted b a
result_of b a (some e) = failure b e

-- the result of GuardrailEngine._call
unfoldable pub call : BoundGuardrail → Payload → Result
unfolding error_of
call b p = result_of b (b.evaluate p) (error_of b p (b.evaluate p))

-- the outcome of GuardrailEngine._call, for the audit log
unfoldable pub outcome_of : BoundGuardrail → Payload → GuardrailOutcome
unfolding call
outcome_of b p = record {
  guardrail_id = b.manifest.id;
  version = b.manifest.version;
  decision = (call b p).decision;
  reason = (call b p).reason;
  risk_score = (call b p).risk_score;
  mode = b.assignment.mode;
  error = error_of b p (b.evaluate p);
  findings = (call b p).findings;
}

-- the variables of `run`
pub record RunState : Type 0 where
  pub current : Payload
  pub outcomes : List GuardrailOutcome
  pub decisions : List Decision
  pub risk : ℕ
  pub deciding_reason : List (Decision × Reason)
  pub stop : Bool

abbrev pub reason_for : Decision → List (Decision × Reason) → Option Reason
reason_for d [] = none
reason_for d ((e, r) ∷ rs) = if same_decision e d then some r else reason_for d rs

-- deciding_reason.setdefault
abbrev pub set_default : Decision → Reason → List (Decision × Reason) → List (Decision × Reason)
set_default d r rs = if is_some (reason_for d rs) then rs else rs ++ (d, r) ∷ []

abbrev pub next_payload : Payload → Result → Payload
next_payload p r = if is_modify r.decision then or_keep r.modified_payload else p
  where
    or_keep : Option Payload → Payload
    or_keep none = p
    or_keep (some q) = q

-- decision in (Decision.BLOCK, Decision.ESCALATE)
abbrev pub stops : Decision → Bool
stops d = same_decision d Decision.block || same_decision d Decision.escalate

-- what an enforced result changes
unfoldable pub count : BoundGuardrail → Result → RunState → RunState
count b r s = record s {
  decisions = s.decisions ++ r.decision ∷ [];
  risk = max s.risk r.risk_score;
  deciding_reason = set_default r.decision (decided_by b.manifest.id r.reason) s.deciding_reason;
  current = next_payload s.current r;
  stop = s.stop || stops r.decision;
}

-- the body of the loop over a group's results; `p` is the payload that the group's calls were given
unfoldable pub note : Payload → RunState → BoundGuardrail → RunState
unfolding count outcome_of
note p s b =
    let seen = record s { outcomes = s.outcomes ++ outcome_of b p ∷ [] } in
    if is_shadow b.assignment.mode then seen else count b (call b p) seen

-- one group: every call is given the payload from before the group
unfoldable pub run_group : List BoundGuardrail → RunState → RunState
unfolding note
run_group g s = foldl (note s.current) s g

-- the loop over the groups, with its `break`
unfoldable pub run_groups : List (List BoundGuardrail) → RunState → RunState
unfolding run_group
run_groups [] s = s
run_groups (g ∷ gs) s =
    let after = run_group g s in
    let rest = run_groups gs after in if after.stop then after else rest

abbrev pub start : Payload → RunState
start p = record {
  current = p;
  outcomes = [];
  decisions = [];
  risk = 0;
  deciding_reason = [];
  stop = false;
}

-- {b.manifest.id for b in bound if b.assignment.mode == "enforce"}
abbrev pub enforced_ids : List BoundGuardrail → List String
enforced_ids [] = []
enforced_ids (b ∷ bs) =
    let rest = enforced_ids bs in if is_shadow b.assignment.mode then rest else b.manifest.id ∷ rest

-- [o for o in (obligations or []) if o not in enforced_ids]
abbrev pub missing : List BoundGuardrail → List String → List String
missing bound obligations = keep (λ o. not (mem o (enforced_ids bound))) obligations

abbrev pub or_all_allowed : Option Reason → Reason
or_all_allowed none = all_allowed
or_all_allowed (some r) = r

abbrev pub final_reason : List BoundGuardrail → RunState → Decision → Reason
final_reason [] s d = none_assigned
final_reason (b ∷ bs) s d =
    if same_decision d Decision.allow
    then all_allowed
    else or_all_allowed (reason_for d s.deciding_reason)

-- if final == Decision.ESCALATE and self._escalate_as_block
abbrev pub settled : Bool → Decision → Decision
settled escalate_as_block d =
    if same_decision d Decision.escalate && escalate_as_block then Decision.block else d

abbrev pub settled_reason : Bool → Decision → Reason → Reason
settled_reason escalate_as_block d r =
    if same_decision d Decision.escalate && escalate_as_block then no_review_queue r else r

-- the part of `run` behind the loop
unfoldable pub finish : Bool → List BoundGuardrail → RunState → StageOutcome
unfolding strongest
finish escalate_as_block bound s =
    let final = strongest s.decisions in
    let decision = settled escalate_as_block final in
    record {
      decision = decision;
      reason = settled_reason escalate_as_block final (final_reason bound s final);
      risk_score = s.risk;
      payload = if same_decision decision Decision.block then none else some s.current;
      results = s.outcomes;
    }

abbrev pub unless_missing : List String → StageOutcome → StageOutcome
unless_missing [] out = out
unless_missing (o ∷ os) out = record {
  decision = Decision.block;
  reason = required_missing (o ∷ os);
  risk_score = 100;
  payload = none;
  results = [];
}

-- GuardrailEngine.run
unfoldable pub run : Bool → List BoundGuardrail → Payload → List String → StageOutcome
unfolding groups run_groups finish
run escalate_as_block bound payload obligations =
    unless_missing (missing bound obligations)
      (finish escalate_as_block bound (run_groups (groups bound) (start payload)))
