-- ===== src/Guardrails/Assignment.antt =====
-- Assignment of packages/guardrail-sdk/guardrail_sdk/documents.py, the parts of Manifest that the
-- engine reads (manifest.py), and BoundGuardrail of
-- services/guardrail-gateway/app/engine/registry.py. A guardrail's `evaluate` is plugin code behind
-- an abstract class: it is a field, a function from the payload to an answer. The request's context
-- is fixed while a stage runs.
use policy_guardrails_agent.Prelude.{
  if◌then◌else◌, leb, is_some, str_eq, ℕ, String, Bool, true, false, not, ◌&&◌, ◌||◌, Option, none,
  some, List, is_empty,
}
use Prim.Native.String.{slice, find, len}
use policy_guardrails_agent.Sdk.Json.{Fields}
use policy_guardrails_agent.Sdk.Models.{Stage, Decision, Payload, GuardrailResult}

pub data Scope : Type 0 where
  global tenant agent : Scope

-- SCOPE_PRIORITY
abbrev pub scope_priority : Scope → ℕ
scope_priority global = 0
scope_priority tenant = 1
scope_priority agent = 2

pub data Mode : Type 0 where
  enforce shadow : Mode

abbrev pub is_shadow : Mode → Bool
is_shadow enforce = false
is_shadow shadow = true

pub data FailureMode : Type 0 where
  fail_closed fail_open : FailureMode

abbrev pub is_closed : FailureMode → Bool
is_closed fail_closed = true
is_closed fail_open = false

-- class Assignment
pub record Assignment : Type 0 where
  pub id : String
  pub guardrail_id : String
  pub guardrail_version : String
  pub scope_type : Scope
  pub scope_id : Option String
  pub stages : List Stage
  pub order : ℕ
  pub parallel_group : Option String
  pub enabled : Bool
  pub mode : Mode
  pub failure_mode : Option FailureMode
  pub timeout_ms : Option ℕ
  pub config : Fields

abbrev pub is_global : Scope → Bool
is_global global = true
is_global tenant = false
is_global agent = false

abbrev pub is_agent : Scope → Bool
is_agent global = false
is_agent tenant = false
is_agent agent = true

-- self.scope_id.split("/", 1)[0], None where it is not set or empty
abbrev pub first_part : Option String → Option String
first_part none = none
first_part (some s) = if str_eq s "" then none else some (slice s 0 (find s "/"))

-- Assignment.tenant_id
abbrev pub tenant_id : Assignment → Option String
tenant_id a = if is_global a.scope_type then none else first_part a.scope_id

abbrev pub has_slash : Option String → Bool
has_slash none = false
has_slash (some s) = leb (find s "/") (len s)

-- Assignment._scope, where it does not raise
unfoldable pub scope_is_valid : Assignment → Bool
scope_is_valid a =
    (if is_global a.scope_type then not (is_some a.scope_id) else is_some (first_part a.scope_id))
    && ((not (is_agent a.scope_type) || has_slash a.scope_id) && not (is_empty a.stages))

-- class Manifest, with `capabilities.parallel_safe` and `capabilities.emits_modify`
pub record Manifest : Type 0 where
  pub id : String
  pub version : String
  pub stages : List Stage
  pub failure_mode : FailureMode
  pub decisions_emitted : List Decision
  pub parallel_safe : Bool
  pub emits_modify : Bool
  pub remote_timeout_ms : Option ℕ
  pub config_schema : Fields

-- what a call to `evaluate` under `wait_for` comes to
pub data Answer : Type 0 where
  answer : GuardrailResult → Answer
  timed_out : Answer
  raised : String → Answer

-- class BoundGuardrail
pub record BoundGuardrail : Type 0 where
  pub assignment : Assignment
  pub manifest : Manifest
  pub evaluate : Payload → Answer

-- BoundGuardrail.failure_mode
abbrev pub own_or : Option FailureMode → FailureMode → FailureMode
own_or none default = default
own_or (some m) default = m

abbrev pub failure_mode : BoundGuardrail → FailureMode
failure_mode b = own_or b.assignment.failure_mode b.manifest.failure_mode

-- `if g`: neither None nor empty
abbrev pub is_named : Option String → Bool
is_named none = false
is_named (some g) = not (str_eq g "")

abbrev pub same_text : Option String → Option String → Bool
same_text none none = true
same_text none (some b) = false
same_text (some a) none = false
same_text (some a) (some b) = str_eq a b
