-- ===== src/ControlPlane/Publishing/Requests.antt =====
-- The methods of PublishService (services/guardrail-control-plane/app/services/publishing.py) that a
-- request reaches. `approve` is two parts: the checks, and the transaction behind them. Between the
-- two, other requests may be served.
use Prim.Native.String.{◌++◌ as concat}
use policy_guardrails_agent.Prelude.{
  if◌then◌else◌, ltb, is_some, keep, str_eq, ℕ, ◌+◌, String, Bool, true, false, not, ◌&&◌, ◌||◌,
  Option, none, some, List, map, sorted_by,
}
use policy_guardrails_agent.Session.Keys.{string_eq}
use policy_guardrails_agent.ControlPlane.Store.Publication.{
  current_snapshot, get_snapshot, put_publish_request, list_assignments, list_snapshots, log,
  get_publish_request,
}
use policy_guardrails_agent.ControlPlane.Store.{MemoryStore, matches, values}
use policy_guardrails_agent.ControlPlane.Service.{
  require, Service, pure, modify, ◌>>◌, ◌>>=◌, raise, get, given_or, state_conflict, raise_if,
  not_found, validation_failed, Problem,
}
use policy_guardrails_agent.ControlPlane.Records.{
  PublishRequestRecord, AssignmentRecord, SnapshotRecord, Document, RequestStatus, Kind,
  is_rollback, is_open, is_request_status,
}
use policy_guardrails_agent.Guardrails.Assignment.{Assignment, is_global, same_text, first_part}
use policy_guardrails_agent.ControlPlane.Publishing.{
  commit, Ctx, Order, compile_now, submit, actor, is_unchanged, version_of, PublishOutcome,
  document_of, Submission,
}
use policy_guardrails_agent.ControlPlane.Rbac.{
  Principal, is_platform, publish_request, publish_approve, Permission,
}
use policy_guardrails_agent.Guardrails.Registry.{SnapshotDoc}
use policy_guardrails_agent.ControlPlane.Compiler.{is_ok}

abbrev pub assignments_of_record : List AssignmentRecord → List Assignment
assignments_of_record = map (λ (r : AssignmentRecord). r.assignment)

abbrev pub publication : Principal → String → String → List Problem → Document → Submission
publication p environment note warnings document = record {
  principal = p;
  environment = environment;
  document = document;
  warnings = warnings;
  kind = Kind.publish;
  note = note;
  rolled_back_from = none;
}

abbrev pub restoration : Principal → String → String → String → List Problem → Document → Submission
restoration p environment target_version note warnings document = record {
  principal = p;
  environment = environment;
  document = document;
  warnings = warnings;
  kind = Kind.rollback;
  note = if str_eq note "" then concat "rollback to " target_version else note;
  rolled_back_from = some target_version;
}

-- PublishService.publish
unfoldable pub publish_working :
    Ctx → ℕ → String → Principal → String → String → Bool → Service PublishOutcome
unfolding require compile_now submit list_assignments
publish_working c now id p environment note force = do
  require p publish_request none
  working ← get (list_assignments environment)
  result ← compile_now c now environment (assignments_of_record working) force
  document ← document_of result
  submit c now id (publication p environment note result.warnings document)

-- PublishService.rollback
unfoldable pub roll_back :
    Ctx → ℕ → String → Principal → String → String → String → Service PublishOutcome
unfolding require compile_now submit get_snapshot
roll_back c now id p environment target_version note = do
  require p publish_request none
  found ← get (get_snapshot environment target_version)
  target ← given_or found not_found
  result ← compile_now c now environment target.document.doc.assignments true
  document ← document_of result
  submit c now id (restoration p environment target_version note result.warnings document)

-- PublishService._base_matches
unfoldable pub base_matches : PublishRequestRecord → MemoryStore → Bool
unfolding current_snapshot
base_matches req st = same_text (version_of (current_snapshot req.environment st)) req.base_version

abbrev pub expire_if_late : Ctx → ℕ → PublishRequestRecord → Service PublishRequestRecord
expire_if_late c now req =
    if ltb (req.requested_at + c.policy.publish_request_ttl) now
    then modify (put_publish_request (record req { status = RequestStatus.expired }))
      >> raise state_conflict
    else pure req

-- PublishService._pending
unfoldable pub pending_request : Ctx → ℕ → String → Service PublishRequestRecord
pending_request c now request_id = do
  found ← get (get_publish_request request_id)
  req ← given_or found not_found
  raise_if (not (is_open req.status)) state_conflict
  expire_if_late c now req

abbrev pub stale_unless : Bool → PublishRequestRecord → Service (Unit {0})
stale_unless true req = pure tt
stale_unless false req =
    modify (put_publish_request (record req { status = RequestStatus.stale }))
    >> raise state_conflict

-- PublishService.approve, up to the transaction
unfoldable pub check_approval : Ctx → ℕ → Principal → String → Service PublishRequestRecord
unfolding require pending_request base_matches compile_now
check_approval c now p request_id = do
  require p publish_approve none
  req ← pending_request c now request_id
  raise_if (str_eq req.requested_by_key p.key_id) state_conflict
  fresh ← get (base_matches req)
  stale_unless fresh req
  result ← compile_now c now req.environment req.document.doc.assignments (is_rollback req.kind)
  raise_if (not (is_ok result)) (validation_failed result.errors result.warnings)
  pure req

abbrev pub approval_order : Principal → PublishRequestRecord → Order
approval_order p req = record {
  environment = req.environment;
  document = req.document;
  published_by = req.requested_by;
  approved_by = some (actor p);
  kind = req.kind;
  rolled_back_from = req.rolled_back_from;
}

abbrev pub approved_request :
    ℕ → Principal → String → SnapshotRecord → PublishRequestRecord → PublishRequestRecord
approved_request now p note snap req = record req {
  status = RequestStatus.approved;
  decided_by = some (actor p);
  decided_at = some now;
  decision_note = note;
  published_version = some snap.version;
}

-- PublishService.approve, the transaction
unfoldable pub commit_approval :
    Ctx → ℕ → String → Principal → String → PublishRequestRecord → Service SnapshotRecord
unfolding base_matches commit
commit_approval c now id p note req = do
  fresh ← get (base_matches req)
  raise_if (not fresh) state_conflict
  snap ← commit c now id (approval_order p req)
  modify (put_publish_request (approved_request now p note snap req))
  modify (log "publish_request" req.id "approve" (actor p) now)
  pure snap

-- PublishService.approve
unfoldable pub approve : Ctx → ℕ → String → Principal → String → String → Service SnapshotRecord
unfolding check_approval commit_approval
approve c now id p request_id note = do
  req ← check_approval c now p request_id
  commit_approval c now id p note req

abbrev pub rejected_request : ℕ → Principal → String → PublishRequestRecord → PublishRequestRecord
rejected_request now p note req = record req {
  status = RequestStatus.rejected;
  decided_by = some (actor p);
  decided_at = some now;
  decision_note = note;
}

-- PublishService.reject
unfoldable pub reject : Ctx → ℕ → Principal → String → String → Service PublishRequestRecord
unfolding require pending_request
reject c now p request_id note = do
  require p publish_approve none
  req ← pending_request c now request_id
  let decided = rejected_request now p note req
  modify (put_publish_request decided)
  modify (log "publish_request" request_id "reject" (actor p) now)
  pure decided

abbrev pub import_order : Principal → Document → Order
import_order p d = record {
  environment = d.doc.environment;
  document = d;
  published_by = actor p;
  approved_by = some (actor p);
  kind = Kind.import_file;
  rolled_back_from = none;
}

abbrev pub import_new :
    Ctx → ℕ → String → Principal → Document → Option SnapshotRecord → Service SnapshotRecord
import_new c now id p d (some s) = pure s
import_new c now id p d none = commit c now id (import_order p d)

-- PublishService.import_snapshot
unfoldable pub import_snapshot :
    Ctx → ℕ → String → Principal → SnapshotDoc → Bool → Service SnapshotRecord
unfolding require compile_now is_unchanged commit
import_snapshot c now id p doc force = do
  require p publish_approve none
  result ← compile_now c now doc.environment doc.assignments force
  document ← document_of result
  same ← get (is_unchanged c doc.environment document)
  import_new c now id p document same

-- PublishService.current_document
abbrev pub current_document : String → MemoryStore → Option (Document × String)
current_document environment st = elim (current_snapshot environment st) [
  | none ↦ none
  | some s ↦ some (s.document, s.etag)
]

-- _tenant_of, on an assignment
abbrev pub tenant_of : Assignment → Option String
tenant_of a = if is_global a.scope_type then none else first_part a.scope_id

abbrev pub may_see : Principal → Assignment → Bool
may_see p a = not (is_some (tenant_of a)) || same_text (tenant_of a) p.tenant_id

-- visible_document
unfoldable pub visible_document : Principal → Document → Document
visible_document p d = record d {
  doc = record d.doc { assignments = keep (may_see p) d.doc.assignments };
}

abbrev pub shown : Principal → Option SnapshotRecord → Option SnapshotRecord
shown p none = none
shown p (some s) =
    if is_platform p then some s else some (record s { document = visible_document p s.document })

abbrev pub version_or_current : String → Option String → MemoryStore → Option SnapshotRecord
version_or_current environment none st = current_snapshot environment st
version_or_current environment (some v) st = get_snapshot environment v st

-- PublishService.snapshot
unfoldable pub snapshot : Principal → String → Option String → Service (Option SnapshotRecord)
unfolding require visible_document current_snapshot get_snapshot
snapshot p environment version = do
  require p Permission.read p.tenant_id
  snap ← get (version_or_current environment version)
  pure (shown p snap)

-- PublishService.history
unfoldable pub history : Principal → String → ℕ → Service (List SnapshotRecord)
unfolding require
history p environment limit = do
  require p Permission.read p.tenant_id
  get (list_snapshots environment limit)

-- list_publish_requests of store/memory.py: the newest first
abbrev pub list_publish_requests :
    Option String → Option RequestStatus → MemoryStore → List PublishRequestRecord
list_publish_requests environment status st =
    keep (λ r. matches environment r.environment && is_request_status status r.status)
      (sorted_by (λ a b. ltb a.requested_at b.requested_at) (values st.publish_requests))

-- PublishService.requests
unfoldable pub requests :
    Principal → Option String → Option RequestStatus → Service (List PublishRequestRecord)
unfolding require
requests p environment status = do
  require p Permission.read p.tenant_id
  get (list_publish_requests environment status)
