-- ===== src/ControlPlane/Versions.antt =====
-- services/guardrail-control-plane/app/services/registry.py: RegistryService, and GatewayService of
-- services/gateways.py. pydantic's reading of a manifest is a parameter, and so is the comparison of
-- two dumped manifests.
pub mod Immutable
use Prim.Native.String.{◌++◌ as concat}
use policy_guardrails_agent.Prelude.{
  if◌then◌else◌, ℕ, String, Bool, false, not, Option, none, some, [],
}
use policy_guardrails_agent.Session.Keys.{string_eq}
use policy_guardrails_agent.Verify.Store.{TenantKey, key, tenant_key_eq}
use policy_guardrails_agent.Sdk.Json.{Fields}
use policy_guardrails_agent.ControlPlane.Rbac.{Principal, actor, registry_write}
use policy_guardrails_agent.ControlPlane.Service.{
  require, Service, pure, ◌>>◌, ◌>>=◌, raise, given_or, get, conflict, validation_failed, modify,
  raise_if, not_found,
}
use policy_guardrails_agent.Guardrails.Assignment.{Manifest}
use policy_guardrails_agent.ControlPlane.Records.{GuardrailVersionRecord, VersionStatus}
use policy_guardrails_agent.ControlPlane.Store.Publication.{get_version, put_version, log}

pub record Manifests : Type 0 where
  pub parse : Fields → Option Manifest
  pub same : Manifest → Manifest → Bool

abbrev pub require_platform : Option Principal → Service (Unit {0})
require_platform none = pure tt
require_platform (some p) = require p registry_write none

abbrev pub version_record : ℕ → String → Manifest → GuardrailVersionRecord
version_record now source m = record {
  guardrail_id = m.id;
  version = m.version;
  manifest = m;
  status = VersionStatus.validated;
  source = source;
  created_at = now;
}

abbrev pub registrar : Option Principal → String → String
registrar none source = concat "gateway (" (concat source ")")
registrar (some p) source = actor p

abbrev pub register_new :
    Manifests
    → ℕ
    → Option Principal
    → String
    → Manifest
    → Option GuardrailVersionRecord
    → Service GuardrailVersionRecord
register_new x now p source m (some existing) =
    if x.same existing.manifest m then pure existing else raise conflict
register_new x now p source m none =
    modify (put_version (version_record now source m))
    >> (modify (
          log "guardrail_version" (concat m.id (concat "@" m.version)) "register"
            (registrar p source) now)
        >> pure (version_record now source m))

-- conformance_report is not None and not conformance_report.get("passed", False)
abbrev pub has_failed : Option Bool → Bool
has_failed none = false
has_failed (some passed) = not passed

-- RegistryService.register; `passed` is the conformance report's field, where there is a report
unfoldable pub register :
    Manifests
    → ℕ
    → Option Principal
    → Fields
    → String
    → Option Bool
    → Service GuardrailVersionRecord
unfolding require
register x now p raw source passed = do
  require_platform p
  m ← given_or (x.parse raw) (validation_failed [] [])
  raise_if (has_failed passed) (validation_failed [] [])
  existing ← get (get_version m.id m.version)
  register_new x now p source m existing

-- RegistryService.deprecate
unfoldable pub deprecate : ℕ → Principal → String → String → Service GuardrailVersionRecord
unfolding require
deprecate now p id version = do
  require p registry_write none
  found ← get (get_version id version)
  rec ← given_or found not_found
  modify (put_version (record rec { status = VersionStatus.deprecated }))
  modify (log "guardrail_version" (concat id (concat "@" version)) "deprecate" (actor p) now)
  pure (record rec { status = VersionStatus.deprecated })
