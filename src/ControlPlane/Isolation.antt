-- ===== src/ControlPlane/Isolation.antt =====
-- Tenants, roles and versions at concrete keys.
use policy_guardrails_agent.Prelude.{
  Bool-cases, is_some, All, str_eq, mem, lookup, String, ◌≡◌, refl, ap, inl, inr, true, false, none,
  some, [], ◌∷◌, elem, some_inj, none-some,
}
use policy_guardrails_agent.Session.Keys.{string_eq}
use policy_guardrails_agent.Verify.Store.{key, tenant_key_eq}
use policy_guardrails_agent.Sdk.Json.{end}
use policy_guardrails_agent.Guardrails.Assignment.{Scope}
use policy_guardrails_agent.ControlPlane.Catalog.Live.{IsLive, published_keys-IsLive}
use policy_guardrails_agent.ControlPlane.Service.{
  ◌>>=◌, get, no_live_gateways, raise_if, given_or, pure,
}
use policy_guardrails_agent.Guardrails.Examples.{everywhere, manifest, installed}
use policy_guardrails_agent.ControlPlane.Reviews.{
  status_for_gateway, Cipher, found_review, decide, reported,
}
use policy_guardrails_agent.ControlPlane.Rbac.{
  Principal, can, same_permission, assignments_write, platform_only,
}
use policy_guardrails_agent.ControlPlane.Store.Publication.{get_version}
use policy_guardrails_agent.ControlPlane.Compiler.{
  CompileResult, compile_snapshot, draft, errors_of, errors_found, strict,
}
use policy_guardrails_agent.ControlPlane.Store.{MemoryStore}
use policy_guardrails_agent.ControlPlane.Assignments.{Pydantic, put_raw, patch, delete}
use policy_guardrails_agent.ControlPlane.Catalog.Service.{CatalogCtx, publish_catalog}
use policy_guardrails_agent.ControlPlane.Records.{
  ApiKeyRecord, ReviewRecord, AssignmentRecord, ReviewStatus, GuardrailVersionRecord,
}
use policy_guardrails_agent.ControlPlane.Compiler.Loads.{HasAll, compile-loads}
use policy_guardrails_agent.ControlPlane.Catalog.{Contents, build_catalog}
use policy_guardrails_agent.ControlPlane.Catalog.Service.Monotone.{IsOrdered, publish-IsOrdered}
use policy_guardrails_agent.ControlPlane.Publishing.Steps.{empty_store}
use policy_guardrails_agent.ControlPlane.Examples.{pii_version, carl, ready}
use policy_guardrails_agent.ControlPlane.Rbac.Isolated.{raw_needs_role, tenant_isolated}
use policy_guardrails_agent.ControlPlane.Versions.{register}
use policy_guardrails_agent.ControlPlane.Reviews.Once.{
  decided_stays, IsReleased, payload-IsReleased,
}
use policy_guardrails_agent.ControlPlane.Versions.Immutable.{registered_stays}
use policy_guardrails_agent.Guardrails.Registry.{compile}
use policy_guardrails_agent.ControlPlane.Assignments.Owned.{foreign_untouched}

abbrev dora : Principal
dora = record {
  key_id = "key-dora-4";
  name = "dora";
  roles = "reviewer-raw" ∷ [];
  tenant_id = some "acme";
}

tenant_isolated_example :
    (carl.tenant_id ≡ some "acme") × (elem same_permission assignments_write platform_only ≡ false)
unfolding can
tenant_isolated_example = tenant_isolated carl assignments_write (some "acme") "acme" refl refl

raw_needs_role_example : mem "reviewer-raw" dora.roles ≡ true
unfolding can
raw_needs_role_example = raw_needs_role dora (some "acme") refl

abbrev compiled_result : CompileResult
compiled_result = record {
  document = some (draft "production" (everywhere ∷ []));
  errors = [];
  warnings = no_live_gateways "production" ∷ [];
}

all_there : HasAll (("pii@1.0.0", pii_version) ∷ []) installed
unfolding lookup
all_there = record { installed = found; loads = λ m a. refl }
  where
    found :
        (k : String) (rec : GuardrailVersionRecord)
        → lookup k (("pii@1.0.0", pii_version) ∷ []) ≡ some rec
        → lookup k (("pii@1.0.0", manifest) ∷ []) ≡ some rec.manifest
    found k rec e = elim (Bool-cases (str_eq "pii@1.0.0" k)) [
      | inl q ↦ rw q (ap (λ (r : GuardrailVersionRecord). some r.manifest) (some_inj (rw q at e)))
      | inr q ↦ absurd (none-some (rw q at e))
    ]

compile-loads_example :
    is_some (compile installed (draft "production" (everywhere ∷ [])).doc "production") ≡ true
unfolding compile_snapshot errors_of errors_found strict lookup
compile-loads_example =
    compile-loads (λ s c. some []) 100 300 "production" (everywhere ∷ [])
      (("pii@1.0.0", pii_version) ∷ []) [] false compiled_result
      (draft "production" (everywhere ∷ [])) installed refl refl all_there

-- reads one assignment, whatever the fields are
abbrev pydantic : Pydantic
pydantic = record {
  parse = λ f.
      some (record everywhere { id = "b1"; scope_type = Scope.tenant; scope_id = some "acme" });
  dump = λ a. end;
}

abbrev global_record : AssignmentRecord
global_record = record {
  environment = "production";
  assignment = everywhere;
  updated_by = "ann";
  updated_at = 1;
}

foreign_untouched_example :
    (lookup (key "production" "a1") (put_raw pydantic 5 carl "production" end ready).1.assignments
      ≡ some global_record)
    × (lookup
          (key "production" "a1")
          (patch pydantic 5 carl "production" "a1" end ready).1.assignments
        ≡ some global_record)
    × (lookup (key "production" "a1") (delete 5 carl "production" "a1" ready).1.assignments
        ≡ some global_record)
unfolding lookup
foreign_untouched_example =
    foreign_untouched pydantic 5 carl "acme" "production" "a1" end (key "production" "a1")
      global_record ready refl refl none-some

abbrev review : ReviewRecord
review = record {
  id = "v1";
  tenant_id = "acme";
  environment = "production";
  request_id = "q1";
  stage = "tool";
  agent_id = "agent";
  guardrail_id = "pii";
  reason = "mail found";
  risk_score = 70;
  preview = "mail";
  payload_enc = "secret";
  status = ReviewStatus.approved;
  reviewer = some "dora";
  decision_note = "";
  raw_viewed_by = [];
  created_at = 10;
  decided_at = some 20;
  expires_at = 910;
}

abbrev with_review : MemoryStore
with_review = record empty_store { reviews = ("v1", review) ∷ [] }

decided_stays_example :
    lookup "v1" (decide 30 dora "v1" false "no" with_review).1.reviews ≡ some review
unfolding lookup
decided_stays_example = decided_stays 30 dora "v1" "v1" false "no" review with_review refl refl

abbrev cipher : Cipher String
cipher = record { encrypt = λ p. "secret"; decrypt = λ t. some "mail ann" }

payload-IsReleased_example : IsReleased cipher with_review "v1" "acme" "mail ann"
unfolding status_for_gateway found_review ◌>>=◌ get given_or raise_if pure lookup
payload-IsReleased_example =
    payload-IsReleased cipher 40 with_review "v1" "acme"
      (reported cipher review ReviewStatus.approved) "mail ann" refl refl

abbrev live_key : ApiKeyRecord
live_key = record {
  id = "k1";
  tenant_id = "acme";
  name = "agent key";
  key_hash = "ab";
  prefix = "gk_";
  scopes = "guard:invoke" ∷ [];
  environments = none;
  is_active = true;
  expires_at = none;
  created_at = 1;
  revoked_at = none;
  rate_limit_per_minute = none;
  agent_id = none;
}

abbrev contents_of_acme : Contents
contents_of_acme = record {
  tenants =
      (record {
        id = "acme";
        name = "Acme";
        suspended = false;
        created_at = 1;
        advisor_data_classes = [];
      })
      ∷ [];
  keys = live_key ∷ (record live_key { id = "k2"; is_active = false }) ∷ [];
  agents = [];
  actions = [];
  modifiers = [];
  inventory = [];
}

abbrev OfAcme : ApiKeyRecord → Type 0
OfAcme k = k.tenant_id ≡ "acme"

published_keys-IsLive_example :
    All (λ t. All (IsLive OfAcme 50 t.id) t.api_keys) (build_catalog 50 contents_of_acme).tenants
published_keys-IsLive_example = published_keys-IsLive OfAcme 50 contents_of_acme (refl, (refl, tt))

abbrev catalog_ctx : CatalogCtx
catalog_ctx = record { digest = λ d. "3fa2c1d0"; stamp = λ t. "20261125"; inventory = λ st. [] }

publish-IsOrdered_example : IsOrdered (publish_catalog catalog_ctx 60 "c1" ready).catalogs
publish-IsOrdered_example = publish-IsOrdered catalog_ctx 60 "c1" ready tt

registered_stays_example :
    get_version "pii" "1.0.0"
      (register
        (record { parse = λ f. some manifest; same = λ a b. false })
        80
        none
        end
        "gateway"
        none
        ready).1
    ≡ some pii_version
unfolding lookup
registered_stays_example =
    registered_stays (record { parse = λ f. some manifest; same = λ a b. false }) 80 none end
      "gateway" none "pii" "1.0.0" pii_version ready refl
