-- ===== src/ControlPlane/Assignments/Diff.antt =====
-- AssignmentService.diff of services/guardrail-control-plane/app/services/assignments.py. Whether two
-- assignments are dumped to the same JSON is a parameter.
use policy_guardrails_agent.Prelude.{
  if◌then◌else◌, keep, str_eq, mem, String, Bool, false, not, ◌||◌, Option, none, some, List, [],
  ◌∷◌, ◌++◌, map,
}
use policy_guardrails_agent.Guardrails.Assignment.{Assignment, same_text}
use policy_guardrails_agent.ControlPlane.Rbac.{Principal, is_platform, Permission}
use policy_guardrails_agent.ControlPlane.Records.{SnapshotRecord}
use policy_guardrails_agent.ControlPlane.Service.{require, Service, ◌>>=◌, ◌>>◌, get}
use policy_guardrails_agent.ControlPlane.Catalog.{sorted_set}
use policy_guardrails_agent.ControlPlane.Store.Publication.{list_assignments, current_snapshot}
use policy_guardrails_agent.ControlPlane.Publishing.{version_of}
use policy_guardrails_agent.ControlPlane.Publishing.Requests.{tenant_of, assignments_of_record}
use policy_guardrails_agent.ControlPlane.Assignments.{check_env, pure}

-- what `diff` returns, without its time
pub record Diff : Type 0 where
  pub base_version : Option String
  pub added : List String
  pub removed : List String
  pub changed : List String
  pub details : List (String × (Option Assignment × Option Assignment))

abbrev pub find_id : String → List Assignment → Option Assignment
find_id id [] = none
find_id id (a ∷ rest) = let later = find_id id rest in if str_eq a.id id then some a else later

abbrev pub ids : List Assignment → List String
ids = map (λ (a : Assignment). a.id)

-- sorted(set(xs) - set(ys))
abbrev pub only_in : List Assignment → List Assignment → List String
only_in xs ys = sorted_set (keep (λ id. not (mem id (ids ys))) (ids xs))

abbrev pub differ : (Assignment → Assignment → Bool) → Option Assignment → Option Assignment → Bool
differ same none y = false
differ same (some x) none = false
differ same (some x) (some y) = not (same x y)

-- sorted(k for k in both if working[k] != live[k])
abbrev pub changed_in :
    (Assignment → Assignment → Bool) → List Assignment → List Assignment → List String
changed_in same working live =
    sorted_set (keep (λ id. differ same (find_id id working) (find_id id live)) (ids working))

-- {**live, **working}[id]
abbrev pub working_or_live : String → List Assignment → List Assignment → Option Assignment
working_or_live id working live = elim (find_id id working) [
  | some a ↦ some a
  | none ↦ find_id id live
]

abbrev pub is_owned : Principal → Option Assignment → Bool
is_owned p none = false
is_owned p (some a) = same_text (tenant_of a) p.tenant_id

-- the ids that the key may see
abbrev pub mine_only : Principal → List Assignment → List Assignment → List String → List String
mine_only p working live xs =
    if is_platform p then xs else keep (λ id. is_owned p (working_or_live id working live)) xs

-- AssignmentService._visible
abbrev pub visible_side : Principal → Option Assignment → Option Assignment
visible_side p none = none
visible_side p (some a) =
    if is_platform p || same_text (tenant_of a) p.tenant_id then some a else none

abbrev pub side_by_side :
    Principal
    → List Assignment
    → List Assignment
    → String
    → String × (Option Assignment × Option Assignment)
side_by_side p working live id =
    (id, (visible_side p (find_id id live), visible_side p (find_id id working)))

abbrev pub live_assignments : Option SnapshotRecord → List Assignment
live_assignments none = []
live_assignments (some s) = s.document.doc.assignments

abbrev pub diff_of :
    (Assignment → Assignment → Bool) → Principal → List Assignment → Option SnapshotRecord → Diff
diff_of same p working current =
    let live = live_assignments current in
    let added = mine_only p working live (only_in working live) in
    let removed = mine_only p working live (only_in live working) in
    let changed = mine_only p working live (changed_in same working live) in
    record {
      base_version = version_of current;
      added = added;
      removed = removed;
      changed = changed;
      details = map (side_by_side p working live) (added ++ (removed ++ changed));
    }

-- AssignmentService.diff
unfoldable pub diff : (Assignment → Assignment → Bool) → Principal → String → Service Diff
unfolding require list_assignments current_snapshot
diff same p environment = do
  check_env environment
  require p Permission.read p.tenant_id
  working ← get (list_assignments environment)
  current ← get (current_snapshot environment)
  pure (diff_of same p (assignments_of_record working) current)
