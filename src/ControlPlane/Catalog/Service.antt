-- ===== src/ControlPlane/Catalog/Service.antt =====
-- CatalogService of services/guardrail-control-plane/app/services/catalog.py. Every method that
-- changes the catalog's records publishes the catalog behind it. Random keys and their hashes, the
-- digest of a document and the rendering of a time are parameters, and so is what the inventory says.
pub mod Monotone
use Prim.Native.String.{◌++◌ as concat}
use policy_guardrails_agent.Prelude.{
  if◌then◌else◌, leb, is_some, any, str_eq, mem, ℕ, ◌+◌, String, Bool, true, false, not, ◌&&◌,
  Option, none, some, List, [], ◌∷◌, is_empty, first_chars,
}
use policy_guardrails_agent.Session.Keys.{string_eq}
use policy_guardrails_agent.Guardrails.Assignment.{is_named}
use policy_guardrails_agent.ControlPlane.Rbac.{Principal, catalog_write, actor}
use policy_guardrails_agent.ControlPlane.Records.{
  CatalogDoc, CatalogRecord, ApiKeyRecord, GatewayRecord, TenantRecord,
}
use policy_guardrails_agent.ControlPlane.Store.{
  MemoryStore, current_catalog, get_tenant, list_tenants, get_agent, get_api_key, add_catalog,
  put_api_key, add_api_key, list_api_keys, put_tenant, list_agents, list_actions, list_modifiers,
}
use policy_guardrails_agent.ControlPlane.Catalog.{build_catalog, Inventory, Contents}
use policy_guardrails_agent.ControlPlane.Service.{
  Service, require, get, pure, ◌>>◌, ◌>>=◌, raise_if, guarded, modify, validation_failed, conflict,
  given_or, not_found,
}
use policy_guardrails_agent.ControlPlane.Compiler.{etag}
use policy_guardrails_agent.ControlPlane.Store.Publication.{list_gateways, log}

pub record CatalogCtx : Type 0 where
  pub digest : CatalogDoc → String
  pub stamp : ℕ → String
  pub inventory : MemoryStore → Inventory

abbrev pub contents : CatalogCtx → MemoryStore → Contents
contents x st = record {
  tenants = list_tenants st;
  keys = list_api_keys none st;
  agents = list_agents none st;
  actions = list_actions none st;
  modifiers = list_modifiers none st;
  inventory = x.inventory st;
}

-- catalog_version
abbrev pub catalog_version : CatalogCtx → ℕ → String → String
catalog_version x t digest =
    concat "catalog-" (concat (x.stamp t) (concat "-" (first_chars 8 digest)))

abbrev pub is_same : Option CatalogRecord → String → Bool
is_same none digest = false
is_same (some c) digest = str_eq c.content_hash digest

-- a time behind the current catalog's: by one unit of the clock here, by a microsecond in the program
abbrev pub later : ℕ → Option CatalogRecord → ℕ
later now none = now
later now (some c) = if leb now c.published_at then c.published_at + 1 else now

abbrev pub catalog_record :
    CatalogCtx → ℕ → String → CatalogDoc → Option CatalogRecord → CatalogRecord
catalog_record x now id doc current =
    let digest = x.digest doc in
    let t = later now current in
    record {
      id = id;
      version = catalog_version x t digest;
      document = record doc { version = catalog_version x t digest; published_at = some t };
      etag = etag digest;
      content_hash = digest;
      published_at = t;
    }

-- CatalogService.publish, on the store
unfoldable pub publish_catalog : CatalogCtx → ℕ → String → MemoryStore → MemoryStore
unfolding build_catalog
publish_catalog x now id st =
    let doc = build_catalog now (contents x st) in
    if is_same (current_catalog st) (x.digest doc)
    then st
    else add_catalog (catalog_record x now id doc (current_catalog st)) st

-- what a method's call brings: the principal, the time and the id of a new catalog
pub record Call : Type 0 where
  pub principal : Principal
  pub now : ℕ
  pub catalog_id : String

abbrev pub write_allowed : Call → Option String → Service (Unit {0})
write_allowed c tenant = require c.principal catalog_write tenant

-- log, and publish
unfoldable pub finish_change : CatalogCtx → Call → String → String → String → Service (Unit {0})
unfolding publish_catalog
finish_change x c entity id action = do
  modify (log entity id action (actor c.principal) c.now)
  modify (publish_catalog x c.now c.catalog_id)

-- CatalogService._tenant
abbrev pub the_tenant : String → Service TenantRecord
the_tenant id = get (get_tenant id) >>= λ found. given_or found not_found

abbrev pub new_tenant : ℕ → String → String → TenantRecord
new_tenant now id name = record {
  id = id;
  name = name;
  suspended = false;
  created_at = now;
  advisor_data_classes = [];
}

-- CatalogService.create_tenant
unfoldable pub create_tenant : CatalogCtx → Call → String → String → Service TenantRecord
unfolding require finish_change
create_tenant x c id name = do
  write_allowed c none
  found ← get (get_tenant id)
  raise_if (is_some found) conflict
  modify (put_tenant (new_tenant c.now id name))
  finish_change x c "tenant" id "create"
  pure (new_tenant c.now id name)

-- CatalogService.set_tenant_status
unfoldable pub set_tenant_status : CatalogCtx → Call → String → Bool → Service TenantRecord
unfolding require finish_change
set_tenant_status x c id suspended = do
  write_allowed c none
  tenant ← the_tenant id
  modify (put_tenant (record tenant { suspended = suspended }))
  finish_change x c "tenant" id (if suspended then "status:suspended" else "status:active")
  pure (record tenant { suspended = suspended })

abbrev pub owned_key : String → Option ApiKeyRecord → Option ApiKeyRecord
owned_key tenant none = none
owned_key tenant (some k) = if str_eq k.tenant_id tenant then some k else none

-- `if key is None or key.tenant_id != tenant_id: raise NotFound`
abbrev pub the_key : String → String → Service ApiKeyRecord
the_key tenant id = get (get_api_key id) >>= λ found. given_or (owned_key tenant found) not_found

-- BINDING_GATEWAY_WINDOW_MINUTES, in seconds
abbrev pub gateway_window : ℕ
gateway_window = 900

-- CatalogService._require_capability
abbrev pub is_old : ℕ → String → GatewayRecord → Bool
is_old now capability g =
    leb now (g.last_seen + gateway_window) && not (mem capability g.capabilities)

abbrev pub require_capability : ℕ → String → Service (Unit {0})
require_capability now capability =
    get (λ st. any (is_old now capability) (list_gateways none st)) >>= λ old.
    raise_if old (validation_failed [] [])

-- CatalogService._require_agent and _require_binding_support, where an agent is named
abbrev pub require_binding : ℕ → String → Option String → Service (Unit {0})
require_binding now tenant none = pure tt
require_binding now tenant (some agent) =
    (get (get_agent tenant agent) >>= λ found.
    raise_if (not (is_some found)) (validation_failed [] []))
    >> require_capability now "agent_bound_keys"

-- what `create_api_key` is given; `raw` is the random key, with its hash
pub record NewKey : Type 0 where
  pub id : String
  pub tenant_id : String
  pub name : String
  pub scopes : List String
  pub environments : Option (List String)
  pub expires_at : Option ℕ
  pub rate_limit_per_minute : Option ℕ
  pub agent_id : Option String
  pub raw : String
  pub raw_hash : String

abbrev pub key_record : ℕ → NewKey → ApiKeyRecord
key_record now n = record {
  id = n.id;
  tenant_id = n.tenant_id;
  name = n.name;
  key_hash = n.raw_hash;
  prefix = first_chars 12 n.raw;
  scopes = if is_empty n.scopes then "guard:invoke" ∷ [] else n.scopes;
  environments = n.environments;
  is_active = true;
  expires_at = n.expires_at;
  created_at = now;
  revoked_at = none;
  rate_limit_per_minute = n.rate_limit_per_minute;
  agent_id = n.agent_id;
}

-- CatalogService.create_api_key
unfoldable pub create_api_key : CatalogCtx → Call → NewKey → Service ApiKeyRecord
unfolding require finish_change
create_api_key x c n = do
  write_allowed c (some n.tenant_id)
  the_tenant n.tenant_id
  require_binding c.now n.tenant_id n.agent_id
  guarded (add_api_key (key_record c.now n))
  finish_change x c "api_key" n.id "create"
  pure (key_record c.now n)

abbrev pub revoked_key : ℕ → ApiKeyRecord → ApiKeyRecord
revoked_key now k = record k { is_active = false; revoked_at = some now }

-- CatalogService.revoke_api_key
unfoldable pub revoke_api_key : CatalogCtx → Call → String → String → Service ApiKeyRecord
unfolding require finish_change
revoke_api_key x c tenant id = do
  write_allowed c (some tenant)
  k ← the_key tenant id
  modify (put_api_key (revoked_key c.now k))
  finish_change x c "api_key" id "revoke"
  pure (revoked_key c.now k)

-- CatalogService.set_api_key_rate_limit
unfoldable pub set_api_key_rate_limit :
    CatalogCtx → Call → String → String → Option ℕ → Service ApiKeyRecord
unfolding require finish_change
set_api_key_rate_limit x c tenant id limit = do
  write_allowed c (some tenant)
  k ← the_key tenant id
  modify (put_api_key (record k { rate_limit_per_minute = limit }))
  finish_change x c "api_key" id "rate_limit"
  pure (record k { rate_limit_per_minute = limit })

-- CatalogService.bind_api_key
unfoldable pub bind_api_key :
    CatalogCtx → Call → String → String → Option String → Service ApiKeyRecord
unfolding require finish_change
bind_api_key x c tenant id agent = do
  write_allowed c (some tenant)
  k ← the_key tenant id
  raise_if (not k.is_active) (validation_failed [] [])
  require_binding c.now tenant agent
  modify (put_api_key (record k { agent_id = agent }))
  finish_change x c "api_key" id (if is_named agent then "bind" else "unbind")
  pure (record k { agent_id = agent })

-- `if not existing:`
abbrev pub import_unknown : Call → ApiKeyRecord → Bool → Service (Unit {0})
import_unknown c k true = pure tt
import_unknown c k false =
    guarded (add_api_key k) >> modify (log "api_key" k.id "import" (actor c.principal) c.now)

-- CatalogService.import_api_key
unfoldable pub import_api_key : Call → ApiKeyRecord → Service (Unit {0})
unfolding require
import_api_key c k = do
  write_allowed c (some k.tenant_id)
  known ← get (λ st. any (λ j. str_eq j.key_hash k.key_hash) (list_api_keys (some k.tenant_id) st))
  import_unknown c k known
