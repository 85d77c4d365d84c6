-- ===== src/ControlPlane/Catalog.antt =====
-- `build_catalog` of services/guardrail-control-plane/app/domain/compiler.py: the catalog document
-- from the records. What the inventory says of a tenant is an argument; the hash of a document and
-- the rendering of a time are parameters of the publication.
pub mod Live
pub mod Service
pub mod Profiles
use mathlib.Core.List.{foldl}
use policy_guardrails_agent.Prelude.{
  if◌then◌else◌, ltb, str_eq, dedup, lookup, put, ℕ, String, Bool, true, ◌&&◌, ◌||◌, Option, none,
  some, List, [], ◌∷◌, ◌++◌, sorted_by, is_empty,
}
use policy_guardrails_agent.Session.Keys.{string_eq}
use policy_guardrails_agent.ControlPlane.Records.{
  ActionRecord, TenantRecord, CatalogDoc, CatalogTenant, AgentRecord, ApiKeyRecord, ModifierRecord,
  CatalogAgent, CatalogApiKey,
}
use policy_guardrails_agent.ControlPlane.Store.{text_after, values}

-- class InventoryFlags
pub record InventoryFlags : Type 0 where
  pub agent_findings : List (String × List String)
  pub flagged_tools : List String

abbrev pub ByTenant : Type 0
ByTenant = List (String × CatalogTenant)

abbrev pub catalog_tenant : TenantRecord → CatalogTenant
catalog_tenant t = record {
  id = t.id;
  name = t.name;
  suspended = t.suspended;
  api_keys = [];
  agents = [];
  actions = [];
  modifiers = [];
  advisor_data_classes = t.advisor_data_classes;
  flagged_tools = [];
}

-- {t.id: CatalogTenant(…) for t in sorted(tenants)}
abbrev pub start_tenants : List TenantRecord → ByTenant → ByTenant
start_tenants [] d = d
start_tenants (t ∷ ts) d = start_tenants ts (put t.id (catalog_tenant t) d)

abbrev pub catalog_key : ApiKeyRecord → CatalogApiKey
catalog_key k = record {
  id = k.id;
  name = k.name;
  key_hash = k.key_hash;
  scopes = k.scopes;
  environments = k.environments;
  expires_at = k.expires_at;
  rate_limit_per_minute = k.rate_limit_per_minute;
  agent_id = k.agent_id;
}

-- k.expires_at is None or k.expires_at > now
abbrev pub unexpired_at : ℕ → Option ℕ → Bool
unexpired_at now none = true
unexpired_at now (some t) = ltb now t

abbrev pub is_live_key : ℕ → ApiKeyRecord → Bool
is_live_key now k = k.is_active && unexpired_at now k.expires_at

-- by_tenant[id] = f(by_tenant[id]), where the tenant is there
abbrev pub change_found :
    String → (CatalogTenant → CatalogTenant) → Option CatalogTenant → ByTenant → ByTenant
change_found id f none d = d
change_found id f (some t) d = put id (f t) d

unfoldable pub change_tenant : String → (CatalogTenant → CatalogTenant) → ByTenant → ByTenant
change_tenant id f d = change_found id f (lookup id d) d

unfoldable pub add_key : ℕ → ByTenant → ApiKeyRecord → ByTenant
unfolding change_tenant
add_key now d k =
    if is_live_key now k
    then change_tenant k.tenant_id (λ t. record t { api_keys = t.api_keys ++ catalog_key k ∷ [] }) d
    else d

abbrev pub or_nil : Option (List String) → List String
or_nil none = []
or_nil (some xs) = xs

-- sorted(set(xs))
abbrev pub sorted_set : List String → List String
sorted_set xs = sorted_by text_after (dedup str_eq xs)

abbrev pub findings_of : Option InventoryFlags → String → List String
findings_of none agent = []
findings_of (some flags) agent = sorted_set (or_nil (lookup agent flags.agent_findings))

abbrev pub Inventory : Type 0
Inventory = List (String × InventoryFlags)

abbrev pub catalog_agent : Inventory → AgentRecord → CatalogAgent
catalog_agent inventory a = record {
  agent_id = a.agent_id;
  base_trust_score = a.base_trust_score;
  allowed_tools = a.allowed_tools;
  open_findings = findings_of (lookup a.tenant_id inventory) a.agent_id;
}

unfoldable pub add_agent : Inventory → ByTenant → AgentRecord → ByTenant
unfolding change_tenant
add_agent inventory d a =
    change_tenant a.tenant_id
      (λ t. record t { agents = t.agents ++ catalog_agent inventory a ∷ [] }) d

unfoldable pub add_action : ByTenant → ActionRecord → ByTenant
unfolding change_tenant
add_action d r =
    change_tenant r.tenant_id
      (λ t. record t {
        actions =
            t.actions
            ++ (record {
              action = r.action;
              resource_pattern = r.resource_pattern;
              base_risk_score = r.base_risk_score;
            })
              ∷ [];
      })
      d

unfoldable pub add_modifier : ByTenant → ModifierRecord → ByTenant
unfolding change_tenant
add_modifier d m =
    change_tenant m.tenant_id
      (λ t. record t {
        modifiers =
            t.modifiers ++ (record { kind = m.kind; value = m.value; delta = m.delta }) ∷ [];
      })
      d

unfoldable pub flag_tools : ByTenant → String × InventoryFlags → ByTenant
unfolding change_tenant
flag_tools d (tid, flags) =
    if is_empty flags.flagged_tools
    then d
    else change_tenant tid (λ t. record t { flagged_tools = sorted_set flags.flagged_tools }) d

-- the keys of `sorted`
abbrev pub agent_after : AgentRecord → AgentRecord → Bool
agent_after a b =
    text_after a.tenant_id b.tenant_id
    || (str_eq a.tenant_id b.tenant_id && text_after a.agent_id b.agent_id)

abbrev pub action_after : ActionRecord → ActionRecord → Bool
action_after a b =
    text_after a.tenant_id b.tenant_id
    || (str_eq a.tenant_id b.tenant_id
        && (text_after a.action b.action
            || (str_eq a.action b.action && text_after a.resource_pattern b.resource_pattern)))

abbrev pub modifier_after : ModifierRecord → ModifierRecord → Bool
modifier_after a b =
    text_after a.tenant_id b.tenant_id
    || (str_eq a.tenant_id b.tenant_id
        && (text_after a.kind b.kind || (str_eq a.kind b.kind && text_after a.value b.value)))

-- what `build_catalog` is given
pub record Contents : Type 0 where
  pub tenants : List TenantRecord
  pub keys : List ApiKeyRecord
  pub agents : List AgentRecord
  pub actions : List ActionRecord
  pub modifiers : List ModifierRecord
  pub inventory : Inventory

-- the tenants with their keys, and then with all the rest
unfoldable pub with_keys : ℕ → Contents → ByTenant
unfolding add_key
with_keys now c =
    foldl (add_key now) (start_tenants (sorted_by (λ a b. text_after a.id b.id) c.tenants) [])
      (sorted_by (λ a b. text_after a.id b.id) c.keys)

unfoldable pub by_tenant : ℕ → Contents → ByTenant
unfolding with_keys add_agent add_action add_modifier flag_tools
by_tenant now c =
    let d1 = foldl (add_agent c.inventory) (with_keys now c) (sorted_by agent_after c.agents) in
    let d2 = foldl add_action d1 (sorted_by action_after c.actions) in
    let d3 = foldl add_modifier d2 (sorted_by modifier_after c.modifiers) in
    foldl flag_tools d3 c.inventory

-- build_catalog; its version is filled in by the publication
unfoldable pub build_catalog : ℕ → Contents → CatalogDoc
unfolding by_tenant
build_catalog now c = record {
  version = "pending";
  tenants = values (by_tenant now c);
  published_at = none;
}
