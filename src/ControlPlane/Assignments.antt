-- ===== src/ControlPlane/Assignments.antt =====
-- services/guardrail-control-plane/app/services/assignments.py: AssignmentService. pydantic is a
-- parameter: `parse` reads the fields of an assignment, none where it rejects one, and `dump` writes
-- them. The validator `_scope` of the assignment's class runs behind it.
pub mod Owned
pub mod Diff
use Prim.Native.String.{◌++◌ as concat}
use policy_guardrails_agent.Prelude.{
  if◌then◌else◌, is_some, keep, str_eq, mem, ℕ, String, Bool, true, not, ◌&&◌, ◌||◌, Option, none,
  some, List, [], ◌∷◌,
}
use policy_guardrails_agent.Sdk.Json.{end, field}
use policy_guardrails_agent.Session.Keys.{string_eq}
use policy_guardrails_agent.ControlPlane.Service.{
  Service, require, pure, ◌>>◌, raise_if, ◌>>=◌, validation_failed, given_or, get, not_found,
  modify,
}
use policy_guardrails_agent.Sdk.Json.{Fields, Json, field}
use policy_guardrails_agent.Guardrails.Assignment.{scope_is_valid, Assignment, same_text, tenant_id}
use policy_guardrails_agent.ControlPlane.Records.{AssignmentRecord, environments}
use policy_guardrails_agent.ControlPlane.Rbac.{
  Principal, is_platform, actor, assignments_write, Permission,
}
use policy_guardrails_agent.ControlPlane.Store.Publication.{
  list_assignments, get_assignment, get_version, delete_assignment, put_assignment, log,
}

pub record Pydantic : Type 0 where
  pub parse : Fields → Option Assignment
  pub dump : Assignment → Fields

-- PATCHABLE
abbrev pub patchable : List String
patchable =
    "enabled" ∷ "mode" ∷ "order" ∷ "parallel_group" ∷ "failure_mode" ∷ "timeout_ms" ∷ "config"
    ∷ "stages" ∷ "guardrail_version" ∷ []

-- _check_env
abbrev pub check_env : String → Service (Unit {0})
check_env environment = raise_if (not (mem environment environments)) not_found

-- Assignment.model_validate
abbrev pub if_valid : Option Assignment → Option Assignment
if_valid none = none
if_valid (some a) = if scope_is_valid a then some a else none

unfoldable pub validated_assignment : Pydantic → Fields → Option Assignment
unfolding scope_is_valid
validated_assignment y raw = if_valid (y.parse raw)

abbrev pub is_mine : Principal → AssignmentRecord → Bool
is_mine p r = is_platform p || same_text (tenant_id r.assignment) p.tenant_id

-- AssignmentService.list
unfoldable pub list_visible : Principal → String → Service (List AssignmentRecord)
unfolding require list_assignments
list_visible p environment = do
  check_env environment
  require p Permission.read p.tenant_id
  rows ← get (list_assignments environment)
  pure (keep (is_mine p) rows)

-- `if before is not None: p.require(…)`
abbrev pub require_before : Principal → Option AssignmentRecord → Service (Unit {0})
require_before p none = pure tt
require_before p (some before) = require p assignments_write (tenant_id before.assignment)

abbrev pub verb : Option AssignmentRecord → String
verb none = "create"
verb (some before) = "update"

abbrev pub saved_record : ℕ → Principal → String → Assignment → AssignmentRecord
saved_record now p environment a = record {
  environment = environment;
  assignment = a;
  updated_by = actor p;
  updated_at = now;
}

-- AssignmentService.put, behind the validation
unfoldable pub put_valid : ℕ → Principal → String → Assignment → Service AssignmentRecord
unfolding require
put_valid now p environment a = do
  require p assignments_write (tenant_id a)
  version ← get (get_version a.guardrail_id a.guardrail_version)
  raise_if (not (is_some version)) (validation_failed [] [])
  before ← get (get_assignment environment a.id)
  require_before p before
  let saved = saved_record now p environment a
  modify (put_assignment saved)
  modify (log "assignment" (concat environment (concat "/" a.id)) (verb before) (actor p) now)
  pure saved

-- AssignmentService.put
unfoldable pub put_raw : Pydantic → ℕ → Principal → String → Fields → Service AssignmentRecord
unfolding validated_assignment put_valid
put_raw y now p environment raw = do
  check_env environment
  a ← given_or (validated_assignment y raw) (validation_failed [] [])
  put_valid now p environment a

abbrev pub all_patchable : Fields → Bool
all_patchable end = true
all_patchable (field name v rest) = mem name patchable && all_patchable rest

-- d[name] = v
abbrev pub set_field : String → Json → Fields → Fields
set_field name v end = field name v end
set_field name v (field other w rest) =
    let more = set_field name v rest in
    if str_eq other name then field name v rest else field other w more

-- {**d, **changes}
abbrev pub merge : Fields → Fields → Fields
merge d end = d
merge d (field name v rest) = merge (set_field name v d) rest

-- AssignmentService.patch
unfoldable pub patch :
    Pydantic → ℕ → Principal → String → String → Fields → Service AssignmentRecord
unfolding put_raw
patch y now p environment assignment_id changes = do
  check_env environment
  raise_if (not (all_patchable changes)) (validation_failed [] [])
  found ← get (get_assignment environment assignment_id)
  current ← given_or found not_found
  put_raw y now p environment (merge (y.dump current.assignment) changes)

-- AssignmentService.delete
unfoldable pub delete : ℕ → Principal → String → String → Service (Unit {0})
unfolding require
delete now p environment assignment_id = do
  check_env environment
  found ← get (get_assignment environment assignment_id)
  current ← given_or found not_found
  require p assignments_write (tenant_id current.assignment)
  modify (delete_assignment environment assignment_id)
  modify (log "assignment" (concat environment (concat "/" assignment_id)) "delete" (actor p) now)
