-- ===== src/ControlPlane/Examples.antt =====
-- The control plane at concrete requests: a snapshot for production that two keys publish.
use policy_guardrails_agent.Prelude.{
  if◌then◌else◌, str_eq, lookup, put, ◌≡◌, refl, false, none, some, [], ◌∷◌,
}
use policy_guardrails_agent.Session.Keys.{string_eq}
use policy_guardrails_agent.Verify.Store.{key, tenant_key_eq}
use policy_guardrails_agent.ControlPlane.Service.{◌>>=◌, raise, ok, guarded}
use policy_guardrails_agent.ControlPlane.Publishing.Steps.{
  Approval, remember_ask, remember_commit, begin, next, State, after, empty_store, Reach,
  empty_state, elsewhere, publish_step, checked_step, commit_step,
}
use policy_guardrails_agent.ControlPlane.Publishing.Log.{here}
use policy_guardrails_agent.Guardrails.Examples.{everywhere, manifest}
use policy_guardrails_agent.ControlPlane.Publishing.{
  Ctx, request_of, compile_now, submit, is_unchanged, ask_approval, snapshot_of, final_document,
  commit, store_snapshot,
}
use policy_guardrails_agent.ControlPlane.Store.{MemoryStore}
use policy_guardrails_agent.ControlPlane.Records.{
  GuardrailVersionRecord, PublishRequestRecord, VersionStatus, SnapshotRecord,
}
use policy_guardrails_agent.ControlPlane.Rbac.{Principal, can}
use policy_guardrails_agent.ControlPlane.Service.{
  Policy, require, raise_if, no_live_gateways, get, given_or, modify, pure,
}
use policy_guardrails_agent.ControlPlane.Publishing.Requests.{
  publish_working, publication, commit_approval, check_approval, pending_request, approval_order,
  base_matches,
}
use policy_guardrails_agent.ControlPlane.Compiler.{
  draft, compile_snapshot, errors_of, errors_found, strict,
}
use policy_guardrails_agent.ControlPlane.Store.Publication.{
  list_assignments, current_snapshot, get_publish_request, list_versions, add_snapshot,
  set_current_snapshot, replace_assignments,
}
use policy_guardrails_agent.ControlPlane.Publishing.Vouched.{TwoKeys}
use policy_guardrails_agent.ControlPlane.Publishing.Runs.{two_person_rule}

abbrev ann : Principal
ann = record { key_id = "key-ann-1"; name = "ann"; roles = "editor" ∷ []; tenant_id = none }

abbrev bob : Principal
bob = record { key_id = "key-bob-2"; name = "bob"; roles = "admin" ∷ []; tenant_id = none }

abbrev pub carl : Principal
carl = record {
  key_id = "key-carl-3";
  name = "carl";
  roles = "admin" ∷ [];
  tenant_id = some "acme";
}

abbrev policy : Policy
policy = record {
  two_person_environments = "production" ∷ [];
  publish_request_ttl = 86400;
  review_ttl_minutes = 15;
  gateway_stale_seconds = 300;
}

abbrev ctx : Ctx
ctx = record {
  policy = policy;
  valid = λ s c. some [];
  hash = λ d. if str_eq d.environment "production" then "3fa2c1d0" else "0";
  hash_all = λ d. "9b";
  five_digits = λ n. "00001";
}

abbrev pub pii_version : GuardrailVersionRecord
pii_version = record {
  guardrail_id = "pii";
  version = "1.0.0";
  manifest = manifest;
  status = VersionStatus.validated;
  source = "api";
  created_at = 1;
}

-- a working set of one assignment
abbrev pub ready : MemoryStore
ready = record empty_store {
  versions = (key "pii" "1.0.0", pii_version) ∷ [];
  assignments =
      (
        key "production" "a1",
        record {
          environment = "production";
          assignment = everywhere;
          updated_by = "ann";
          updated_at = 1;
        },
      )
      ∷ [];
}

abbrev s0 : State
s0 = record { store = ready; in_flight = []; log = record { asks = []; commits = [] } }

abbrev s1 : State
s1 = after (publish_working ctx 100 "r1" ann "production" "first" false) (remember_ask ann "r1" s0)

abbrev request : PublishRequestRecord
request =
    request_of 100 "r1"
      (publication ann "production" "first" (no_live_gateways "production" ∷ [])
        (draft "production" (everywhere ∷ [])))
      none

requested : get_publish_request "r1" s1.store ≡ some request
unfolding ◌>>=◌ publish_working require raise_if can get list_assignments compile_now
    compile_snapshot errors_of errors_found strict given_or submit is_unchanged ask_approval
    current_snapshot modify pure lookup put list_versions
requested = refl

abbrev s2 : State
s2 = record {
  store = (check_approval ctx 200 bob "r1" s1.store).1;
  in_flight = (record { approver = bob; request = request }) ∷ [];
  log = s1.log;
}

checked : (check_approval ctx 200 bob "r1" s1.store).0 ≡ ok request
unfolding ◌>>=◌ publish_working require raise_if can get list_assignments compile_now
    compile_snapshot errors_of errors_found strict given_or submit is_unchanged ask_approval
    current_snapshot modify pure lookup put list_versions check_approval pending_request
    base_matches raise
checked = refl

abbrev approval : Approval
approval = record { approver = bob; request = request }

abbrev s3 : State
s3 = after (commit_approval ctx 200 "s1" bob "fine" request) (remember_commit approval "s1" s2)

abbrev approved_snapshot : SnapshotRecord
approved_snapshot =
    snapshot_of ctx 200 "s1" (approval_order bob request)
      (final_document ctx 200 1 (approval_order bob request))

published_then : current_snapshot "production" s3.store ≡ some approved_snapshot
unfolding ◌>>=◌ publish_working require raise_if can get list_assignments compile_now
    compile_snapshot errors_of errors_found strict given_or submit is_unchanged ask_approval
    current_snapshot modify pure lookup put list_versions check_approval pending_request
    base_matches raise commit_approval commit store_snapshot guarded add_snapshot
    set_current_snapshot replace_assignments
published_then = refl

abbrev run : Reach ctx empty_state s3
run =
    next
      (next
        (next (next begin (elsewhere ready empty_state refl refl))
          (publish_step 100 "r1" ann "production" "first" false s0))
        (checked_step 200 bob "r1" request s1 checked))
      (commit_step 200 "s1" "fine" approval s2 here)

two_person_rule_example : TwoKeys s3.log "s1" "production" "ann (key-ann-)" (some "bob (key-bob-)")
two_person_rule_example =
    two_person_rule ctx s3 "production" approved_snapshot run published_then refl refl
