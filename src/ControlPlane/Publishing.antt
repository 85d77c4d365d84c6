-- ===== src/ControlPlane/Publishing.antt =====
-- services/guardrail-control-plane/app/services/publishing.py: PublishService. Each method takes the
-- clock's reading and the id of the record that it may create. The notice to the gateways behind a
-- commit and the metrics are left out.
pub mod Requests
pub mod Steps
pub mod Runs
pub mod Approval
pub mod TwoPerson
pub mod Log
pub mod Vouched
use Prim.Native.String.{◌++◌ as concat}
use policy_guardrails_agent.Prelude.{
  if◌then◌else◌, str_eq, mem, put, ℕ, ◌+◌, String, Bool, ◌||◌, Option, none, some, List, [], ◌∷◌,
  map,
}
use policy_guardrails_agent.Session.Keys.{string_eq}
use policy_guardrails_agent.ControlPlane.Store.Publication.{
  current_snapshot, add_snapshot, count_snapshots, set_current_snapshot, list_gateways,
  list_versions, replace_assignments, log, put_publish_request,
}
use policy_guardrails_agent.ControlPlane.Store.{MemoryStore}
use policy_guardrails_agent.ControlPlane.Records.{
  SnapshotRecord, GuardrailVersionRecord, Kind, is_rollback, Document, PublishRequestRecord,
  AssignmentRecord, RequestStatus, is_import,
}
use policy_guardrails_agent.Guardrails.Registry.{SnapshotDoc}
use policy_guardrails_agent.ControlPlane.Service.{
  Service, Policy, pure, Problem, given_or, invalid_value, raise, validation_failed, ◌>>◌, ◌>>=◌,
  get, guarded, modify,
}
use policy_guardrails_agent.Guardrails.Assignment.{Assignment}
use policy_guardrails_agent.ControlPlane.Compiler.{
  compile_snapshot, CompileResult, Versions, Validator, snapshot_version, etag, Hash, is_ok,
}
use policy_guardrails_agent.ControlPlane.Rbac.{Principal, actor}

-- what a service is set up with; `hash_all` is the hash of a whole document
pub record Ctx : Type 0 where
  pub policy : Policy
  pub valid : Validator
  pub hash : Hash
  pub hash_all : Document → String
  pub five_digits : ℕ → String

pub data OutcomeStatus : Type 0 where
  published pending_approval unchanged : OutcomeStatus

pub record PublishOutcome : Type 0 where
  pub status : OutcomeStatus
  pub snapshot : Option SnapshotRecord
  pub request : Option PublishRequestRecord
  pub warnings : List Problem

-- PublishService.requires_approval
abbrev pub requires_approval : Ctx → String → Bool
requires_approval c environment = mem environment c.policy.two_person_environments

-- RegistryService.versions_by_key
abbrev pub by_key : List GuardrailVersionRecord → Versions → Versions
by_key [] d = d
by_key (v ∷ vs) d = by_key vs (put (concat v.guardrail_id (concat "@" v.version)) v d)

abbrev pub versions_by_key : MemoryStore → Versions
versions_by_key st = by_key (list_versions none st) []

-- PublishService._compile
unfoldable pub compile_now : Ctx → ℕ → String → List Assignment → Bool → Service CompileResult
unfolding compile_snapshot
compile_now c now environment assignments force st = (
  compile_snapshot c.valid now c.policy.gateway_stale_seconds environment assignments
      (versions_by_key st) (list_gateways (some environment) st) force,
  st,
)

-- `if not result.ok: raise ValidationFailed(…)`, and the document
abbrev pub document_of : CompileResult → Service Document
document_of r =
    if is_ok r
    then given_or r.document invalid_value
    else raise (validation_failed r.errors r.warnings)

abbrev pub if_same : Ctx → SnapshotDoc → Option SnapshotRecord → Option SnapshotRecord
if_same c doc none = none
if_same c doc (some s) = if str_eq (c.hash s.document.doc) (c.hash doc) then some s else none

-- PublishService._is_unchanged
unfoldable pub is_unchanged : Ctx → String → Document → MemoryStore → Option SnapshotRecord
unfolding current_snapshot
is_unchanged c environment d st = if_same c d.doc (current_snapshot environment st)

abbrev pub kind_text : Kind → String
kind_text Kind.publish = "publish"
kind_text Kind.rollback = "rollback"
kind_text Kind.import_file = "import"

-- what a commit is made for
pub record Order : Type 0 where
  pub environment : String
  pub document : Document
  pub published_by : String
  pub approved_by : Option String
  pub kind : Kind
  pub rolled_back_from : Option String

-- the document that a commit publishes
abbrev pub final_document : Ctx → ℕ → ℕ → Order → Document
final_document c now sequence o = record {
  doc = record o.document.doc {
    version = snapshot_version c.hash c.five_digits o.environment o.document.doc sequence;
  };
  published_at = some now;
  published_by = some o.published_by;
  approved_by = o.approved_by;
}

abbrev pub snapshot_of : Ctx → ℕ → String → Order → Document → SnapshotRecord
snapshot_of c now id o final = record {
  id = id;
  environment = o.environment;
  version = final.doc.version;
  document = final;
  etag = etag (c.hash_all final);
  published_at = now;
  published_by = o.published_by;
  approved_by = o.approved_by;
  kind = o.kind;
  rolled_back_from = o.rolled_back_from;
}

abbrev pub working_record : ℕ → Order → Assignment → AssignmentRecord
working_record now o a = record {
  environment = o.environment;
  assignment = a;
  updated_by = o.published_by;
  updated_at = now;
}

-- `if kind in ("rollback", "import")`
abbrev pub restore : ℕ → Order → List Assignment → MemoryStore → MemoryStore
restore now o xs st =
    if is_rollback o.kind || is_import o.kind
    then replace_assignments o.environment (map (working_record now o) xs) st
    else st

-- PublishService._commit, without the record's making
unfoldable pub store_snapshot : ℕ → Order → SnapshotRecord → Service SnapshotRecord
unfolding add_snapshot set_current_snapshot replace_assignments
store_snapshot now o s = do
  guarded (add_snapshot s)
  modify (set_current_snapshot o.environment s.id)
  modify (restore now o s.document.doc.assignments)
  modify (
      log "snapshot" (concat o.environment (concat "/" s.version)) (kind_text o.kind) o.published_by
        now)
  pure s

unfoldable pub commit : Ctx → ℕ → String → Order → Service SnapshotRecord
unfolding store_snapshot
commit c now id o st =
    store_snapshot now o
      (snapshot_of c now id o (final_document c now (count_snapshots o.environment st + 1) o)) st

-- what `_submit` is called for
pub record Submission : Type 0 where
  pub principal : Principal
  pub environment : String
  pub document : Document
  pub warnings : List Problem
  pub kind : Kind
  pub note : String
  pub rolled_back_from : Option String

abbrev pub version_of : Option SnapshotRecord → Option String
version_of none = none
version_of (some s) = some s.version

abbrev pub request_of : ℕ → String → Submission → Option SnapshotRecord → PublishRequestRecord
request_of now id sub current = record {
  id = id;
  environment = sub.environment;
  kind = sub.kind;
  document = sub.document;
  base_version = version_of current;
  rolled_back_from = sub.rolled_back_from;
  requested_by = actor sub.principal;
  requested_by_key = sub.principal.key_id;
  requested_at = now;
  note = sub.note;
  status = RequestStatus.pending;
  decided_by = none;
  decided_at = none;
  decision_note = "";
  published_version = none;
}

-- the branch of `_submit` for a protected environment
unfoldable pub ask_approval : ℕ → String → Submission → Service PublishOutcome
unfolding current_snapshot
ask_approval now id sub = do
  current ← get (current_snapshot sub.environment)
  let req = request_of now id sub current
  modify (put_publish_request req)
  modify
      (log "publish_request" id (concat "request:" (kind_text sub.kind)) (actor sub.principal) now)
  pure (record {
    status = pending_approval;
    snapshot = none;
    request = some req;
    warnings = sub.warnings;
  })

abbrev pub order_of : Submission → Order
order_of sub = record {
  environment = sub.environment;
  document = sub.document;
  published_by = actor sub.principal;
  approved_by = none;
  kind = sub.kind;
  rolled_back_from = sub.rolled_back_from;
}

-- the branch of `_submit` for an environment without approval
unfoldable pub publish_at_once : Ctx → ℕ → String → Submission → Service PublishOutcome
unfolding commit
publish_at_once c now id sub = do
  snap ← commit c now id (order_of sub)
  pure
      (record { status = published; snapshot = some snap; request = none; warnings = sub.warnings })

abbrev pub submit_new :
    Ctx → ℕ → String → Submission → Option SnapshotRecord → Service PublishOutcome
submit_new c now id sub (some s) =
    pure (record { status = unchanged; snapshot = some s; request = none; warnings = sub.warnings })
submit_new c now id sub none =
    if requires_approval c sub.environment
    then ask_approval now id sub
    else publish_at_once c now id sub

-- PublishService._submit
unfoldable pub submit : Ctx → ℕ → String → Submission → Service PublishOutcome
unfolding is_unchanged ask_approval publish_at_once
submit c now id sub = do
  same ← get (is_unchanged c sub.environment sub.document)
  submit_new c now id sub same
