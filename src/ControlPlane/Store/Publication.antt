-- ===== src/ControlPlane/Store/Publication.antt =====
-- The part of MemoryStore (store/memory.py) that publication works on: the registry, the working
-- sets, the snapshots, the requests, the reviews, the keys, the gateways and the change log.
use policy_guardrails_agent.Prelude.{
  if◌then◌else◌, ltb, ◌==◌, length, take, any, keep, str_eq, lookup, put, remove, ℕ, ◌+◌, String,
  Bool, true, false, ◌&&◌, ◌||◌, Option, none, some, List, [], ◌∷◌, ◌++◌, sorted_by,
}
use policy_guardrails_agent.Session.Keys.{string_eq}
use policy_guardrails_agent.Verify.Store.{TenantKey, key, tenant_key_eq}
use policy_guardrails_agent.ControlPlane.Store.{MemoryStore}
use policy_guardrails_agent.ControlPlane.Records.{
  AdminKeyRecord, GatewayRecord, PublishRequestRecord, SnapshotRecord, AssignmentRecord,
  GuardrailVersionRecord, ReviewStatus, ReviewRecord, same_status, is_waiting,
}
use policy_guardrails_agent.ControlPlane.Store.{matches, find_value, text_after, values}

abbrev pub put_version : GuardrailVersionRecord → MemoryStore → MemoryStore
put_version v st = record st { versions = put (key v.guardrail_id v.version) v st.versions }

abbrev pub get_version : String → String → MemoryStore → Option GuardrailVersionRecord
get_version id version st = lookup (key id version) st.versions

-- sorted(self.versions.items()): by the key
abbrev pub key_after : TenantKey → TenantKey → Bool
key_after a b =
    text_after a.tenant b.tenant || (str_eq a.tenant b.tenant && text_after a.name b.name)

abbrev pub version_after :
    TenantKey × GuardrailVersionRecord → TenantKey × GuardrailVersionRecord → Bool
version_after (a, v) (b, w) = key_after a b

abbrev pub versions_of :
    Option String → List (TenantKey × GuardrailVersionRecord) → List GuardrailVersionRecord
versions_of id [] = []
versions_of id ((k, v) ∷ d) =
    let rest = versions_of id d in if matches id k.tenant then v ∷ rest else rest

unfoldable pub list_versions : Option String → MemoryStore → List GuardrailVersionRecord
list_versions id st = versions_of id (sorted_by version_after st.versions)

abbrev pub put_assignment : AssignmentRecord → MemoryStore → MemoryStore
put_assignment r st = record st {
  assignments = put (key r.environment r.assignment.id) r st.assignments;
}

abbrev pub get_assignment : String → String → MemoryStore → Option AssignmentRecord
get_assignment environment id st = lookup (key environment id) st.assignments

-- (order, id), the id from the key
abbrev pub assignment_after : TenantKey × AssignmentRecord → TenantKey × AssignmentRecord → Bool
assignment_after (k, a) (j, b) =
    ltb b.assignment.order a.assignment.order
    || (a.assignment.order == b.assignment.order && text_after k.name j.name)

abbrev pub assignments_of : String → List (TenantKey × AssignmentRecord) → List AssignmentRecord
assignments_of environment [] = []
assignments_of environment ((k, r) ∷ d) =
    let rest = assignments_of environment d in
    if str_eq k.tenant environment then r ∷ rest else rest

unfoldable pub list_assignments : String → MemoryStore → List AssignmentRecord
list_assignments environment st =
    assignments_of environment (sorted_by assignment_after st.assignments)

abbrev pub delete_assignment : String → String → MemoryStore → MemoryStore
delete_assignment environment id st = record st {
  assignments = remove (key environment id) st.assignments;
}

-- the assignments of the other environments
abbrev pub others :
    String → List (TenantKey × AssignmentRecord) → List (TenantKey × AssignmentRecord)
others environment [] = []
others environment ((k, r) ∷ d) =
    let rest = others environment d in if str_eq k.tenant environment then rest else (k, r) ∷ rest

abbrev pub put_all : List AssignmentRecord → MemoryStore → MemoryStore
put_all [] st = st
put_all (r ∷ rs) st = put_all rs (put_assignment r st)

unfoldable pub replace_assignments : String → List AssignmentRecord → MemoryStore → MemoryStore
replace_assignments environment rs st =
    put_all rs (record st { assignments = others environment st.assignments })

abbrev pub is_version : String → String → SnapshotRecord → Bool
is_version environment version s = str_eq s.environment environment && str_eq s.version version

-- none where it raises Conflict
unfoldable pub add_snapshot : SnapshotRecord → MemoryStore → Option MemoryStore
add_snapshot s st =
    if any (is_version s.environment s.version) (values st.snapshots)
    then none
    else some (record st { snapshots = put s.id s st.snapshots })

unfoldable pub get_snapshot : String → String → MemoryStore → Option SnapshotRecord
get_snapshot environment version st = find_value (is_version environment version) st.snapshots

-- `if sid`: neither None nor empty
abbrev pub at_id : Option String → List (String × SnapshotRecord) → Option SnapshotRecord
at_id none d = none
at_id (some sid) d = if str_eq sid "" then none else lookup sid d

unfoldable pub current_snapshot : String → MemoryStore → Option SnapshotRecord
current_snapshot environment st = at_id (lookup environment st.current) st.snapshots

unfoldable pub set_current_snapshot : String → String → MemoryStore → MemoryStore
set_current_snapshot environment id st = record st { current = put environment id st.current }

-- the newest first; the version breaks ties
abbrev pub snapshot_before : SnapshotRecord → SnapshotRecord → Bool
snapshot_before a b =
    ltb a.published_at b.published_at
    || (a.published_at == b.published_at && text_after b.version a.version)

abbrev pub list_snapshots : String → ℕ → MemoryStore → List SnapshotRecord
list_snapshots environment limit st =
    take limit (
      sorted_by snapshot_before
        (keep (λ s. str_eq s.environment environment) (values st.snapshots)))

abbrev pub count_snapshots : String → MemoryStore → ℕ
count_snapshots environment st =
    length (keep (λ s. str_eq s.environment environment) (values st.snapshots))

abbrev pub put_publish_request : PublishRequestRecord → MemoryStore → MemoryStore
put_publish_request r st = record st { publish_requests = put r.id r st.publish_requests }

abbrev pub get_publish_request : String → MemoryStore → Option PublishRequestRecord
get_publish_request id st = lookup id st.publish_requests

abbrev pub add_review : ReviewRecord → MemoryStore → MemoryStore
add_review r st = record st { reviews = put r.id r st.reviews }

abbrev pub get_review : String → MemoryStore → Option ReviewRecord
get_review id st = lookup id st.reviews

-- r.status != "pending" or r.expires_at <= decided_at, negated
abbrev pub may_decide : ReviewRecord → ℕ → Bool
may_decide r at = is_waiting r.status && ltb at r.expires_at

abbrev pub decide_found :
    String
    → ReviewStatus
    → String
    → ℕ
    → String
    → Option ReviewRecord
    → MemoryStore
    → Bool × MemoryStore
decide_found id status reviewer at note none st = (false, st)
decide_found id status reviewer at note (some r) st =
    if may_decide r at
    then (
      true,
      record st {
        reviews =
            put id
              (record r {
                status = status;
                reviewer = some reviewer;
                decided_at = some at;
                decision_note = note;
              })
              st.reviews;
      },
    )
    else (false, st)

unfoldable pub decide_review :
    String → ReviewStatus → String → ℕ → String → MemoryStore → Bool × MemoryStore
decide_review id status reviewer at note st =
    decide_found id status reviewer at note (lookup id st.reviews) st

abbrev pub viewed : String → String → Option ReviewRecord → MemoryStore → MemoryStore
viewed id actor none st = st
viewed id actor (some r) st = record st {
  reviews = put id (record r { raw_viewed_by = r.raw_viewed_by ++ actor ∷ [] }) st.reviews;
}

unfoldable pub add_review_raw_viewer : String → String → MemoryStore → MemoryStore
add_review_raw_viewer id actor st = viewed id actor (lookup id st.reviews) st

abbrev pub matches_status : Option ReviewStatus → ReviewStatus → Bool
matches_status none s = true
matches_status (some x) s = same_status s x

unfoldable pub list_reviews :
    Option String → Option ReviewStatus → ℕ → MemoryStore → List ReviewRecord
list_reviews tenant status limit st = take limit (
    sorted_by (λ a b. ltb a.created_at b.created_at)
      (keep (λ r. matches tenant r.tenant_id && matches_status status r.status)
        (values st.reviews)))

abbrev pub put_admin_key : AdminKeyRecord → MemoryStore → MemoryStore
put_admin_key k st = record st { admin_keys = put k.id k st.admin_keys }

abbrev pub find_admin_key : String → MemoryStore → Option AdminKeyRecord
find_admin_key hash st = find_value (λ k. str_eq k.key_hash hash) st.admin_keys

abbrev pub list_admin_keys : MemoryStore → List AdminKeyRecord
list_admin_keys st = values st.admin_keys

abbrev pub put_gateway : GatewayRecord → MemoryStore → MemoryStore
put_gateway g st = record st { gateways = put g.gateway_id g st.gateways }

abbrev pub list_gateways : Option String → MemoryStore → List GatewayRecord
list_gateways environment st = keep (λ g. matches environment g.environment) (values st.gateways)

-- Ctx.log and log_change, without the changed values that a record may carry
abbrev pub log : String → String → String → String → ℕ → MemoryStore → MemoryStore
log entity entity_id action actor now st = record st {
  changes =
      st.changes
      ++ (record {
        id = length st.changes + 1;
        entity = entity;
        entity_id = entity_id;
        action = action;
        actor = actor;
        at = now;
      })
        ∷ [];
}
