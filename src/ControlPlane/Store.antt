-- ===== src/ControlPlane/Store.antt =====
-- MemoryStore of services/guardrail-control-plane/app/store/memory.py, for everything but discovery.
-- The program copies a record whenever it puts one in or hands one out; values need no copies. A
-- transaction is a lock, so that nothing is undone where the code inside it raises.
pub mod Publication
pub mod Kept
use Prim.Native.Nat.{Ordering}
use Prim.Native.String.{compare as compare_text}
use policy_guardrails_agent.Prelude.{
  if◌then◌else◌, is_some, any, keep, str_eq, lookup, put, remove, String, Bool, true, false, ◌&&◌,
  Option, none, some, List, [], ◌∷◌, ◌++◌, sorted_by,
}
use mathlib.Core.List.{foldl}
use policy_guardrails_agent.Session.Keys.{string_eq}
use policy_guardrails_agent.Verify.Store.{TenantKey, key, tenant_key_eq}
use policy_guardrails_agent.ControlPlane.Records.{
  ModifierRecord, TenantRecord, AgentRecord, ApiKeyRecord, ActionRecord, GuardrailVersionRecord,
  AssignmentRecord, SnapshotRecord, PublishRequestRecord, ReviewRecord, AdminKeyRecord,
  GatewayRecord, ChangeRecord, CatalogRecord,
}

-- The keys (tenant, agent), (guardrail, version) and (environment, assignment) are a TenantKey.
pub record MemoryStore : Type 0 where
  pub tenants : List (String × TenantRecord)
  pub api_keys : List (String × ApiKeyRecord)
  pub agents : List (TenantKey × AgentRecord)
  pub actions : List (String × ActionRecord)
  pub modifiers : List (String × ModifierRecord)
  pub versions : List (TenantKey × GuardrailVersionRecord)
  pub assignments : List (TenantKey × AssignmentRecord)
  pub snapshots : List (String × SnapshotRecord)
  pub current : List (String × String)
  pub catalogs : List CatalogRecord
  pub publish_requests : List (String × PublishRequestRecord)
  pub reviews : List (String × ReviewRecord)
  pub admin_keys : List (String × AdminKeyRecord)
  pub gateways : List (String × GatewayRecord)
  pub changes : List ChangeRecord

module _ {K V : Type 0} where
  -- d.values()
  abbrev pub values : List (K × V) → List V
  values [] = []
  values ((k, v) ∷ d) = v ∷ values d

  -- the first value that passes the test
  abbrev pub find_value : (V → Bool) → List (K × V) → Option V
  find_value p [] = none
  find_value p ((k, v) ∷ d) = let rest = find_value p d in if p v then some v else rest

abbrev pub last_of {ℓ} : {A : Type ℓ} → List A → Option A
last_of [] = none
last_of (x ∷ []) = some x
last_of (x ∷ y ∷ xs) = last_of (y ∷ xs)

-- tenant_id is None or tenant_id == …
abbrev pub matches : Option String → String → Bool
matches none t = true
matches (some x) t = str_eq t x

abbrev pub text_after : String → String → Bool
text_after a b = elim (compare_text a b) [ Ordering.gt ↦ true | _ ↦ false ]

-- list_tenants, get_tenant, put_tenant
abbrev pub list_tenants : MemoryStore → List TenantRecord
list_tenants st = sorted_by (λ a b. text_after a.id b.id) (values st.tenants)

abbrev pub get_tenant : String → MemoryStore → Option TenantRecord
get_tenant id st = lookup id st.tenants

abbrev pub put_tenant : TenantRecord → MemoryStore → MemoryStore
put_tenant t st = record st { tenants = put t.id t st.tenants }

-- none where it raises Conflict
abbrev pub add_api_key : ApiKeyRecord → MemoryStore → Option MemoryStore
add_api_key k st =
    if any (λ j. str_eq j.key_hash k.key_hash) (values st.api_keys)
    then none
    else some (record st { api_keys = put k.id k st.api_keys })

abbrev pub get_api_key : String → MemoryStore → Option ApiKeyRecord
get_api_key id st = lookup id st.api_keys

abbrev pub list_api_keys : Option String → MemoryStore → List ApiKeyRecord
list_api_keys t st = keep (λ k. matches t k.tenant_id) (values st.api_keys)

abbrev pub put_api_key : ApiKeyRecord → MemoryStore → MemoryStore
put_api_key k st = record st { api_keys = put k.id k st.api_keys }

abbrev pub put_agent : AgentRecord → MemoryStore → MemoryStore
put_agent a st = record st { agents = put (key a.tenant_id a.agent_id) a st.agents }

abbrev pub get_agent : String → String → MemoryStore → Option AgentRecord
get_agent tenant agent st = lookup (key tenant agent) st.agents

abbrev pub list_agents : Option String → MemoryStore → List AgentRecord
list_agents t st = keep (λ a. matches t a.tenant_id) (values st.agents)

abbrev pub delete_agent : String → String → MemoryStore → Bool × MemoryStore
delete_agent tenant agent st =
    let k = key tenant agent in
    (is_some (lookup k st.agents), record st { agents = remove k st.agents })

-- the same (tenant, action, pattern)
abbrev pub same_action : ActionRecord → ActionRecord → Bool
same_action a b =
    str_eq a.tenant_id b.tenant_id
    && (str_eq a.action b.action && str_eq a.resource_pattern b.resource_pattern)

abbrev pub with_action_id : ActionRecord → ActionRecord → ActionRecord
with_action_id a existing = if same_action existing a then record a { id = existing.id } else a

unfoldable pub put_action : ActionRecord → MemoryStore → ActionRecord × MemoryStore
put_action a st =
    let saved = foldl with_action_id a (values st.actions) in
    (saved, record st { actions = put saved.id saved st.actions })

abbrev pub list_actions : Option String → MemoryStore → List ActionRecord
list_actions t st = keep (λ a. matches t a.tenant_id) (values st.actions)

abbrev pub owned_action : Option ActionRecord → String → Bool
owned_action none tenant = false
owned_action (some a) tenant = str_eq a.tenant_id tenant

abbrev pub delete_action : String → String → MemoryStore → Bool × MemoryStore
delete_action tenant id st =
    if owned_action (lookup id st.actions) tenant
    then (true, record st { actions = remove id st.actions })
    else (false, st)

abbrev pub same_modifier : ModifierRecord → ModifierRecord → Bool
same_modifier a b =
    str_eq a.tenant_id b.tenant_id && (str_eq a.kind b.kind && str_eq a.value b.value)

abbrev pub with_modifier_id : ModifierRecord → ModifierRecord → ModifierRecord
with_modifier_id m existing = if same_modifier existing m then record m { id = existing.id } else m

unfoldable pub put_modifier : ModifierRecord → MemoryStore → ModifierRecord × MemoryStore
put_modifier m st =
    let saved = foldl with_modifier_id m (values st.modifiers) in
    (saved, record st { modifiers = put saved.id saved st.modifiers })

abbrev pub list_modifiers : Option String → MemoryStore → List ModifierRecord
list_modifiers t st = keep (λ m. matches t m.tenant_id) (values st.modifiers)

abbrev pub owned_modifier : Option ModifierRecord → String → Bool
owned_modifier none tenant = false
owned_modifier (some m) tenant = str_eq m.tenant_id tenant

abbrev pub delete_modifier : String → String → MemoryStore → Bool × MemoryStore
delete_modifier tenant id st =
    if owned_modifier (lookup id st.modifiers) tenant
    then (true, record st { modifiers = remove id st.modifiers })
    else (false, st)

-- self.catalogs[-1]
abbrev pub current_catalog : MemoryStore → Option CatalogRecord
current_catalog st = last_of st.catalogs

abbrev pub add_catalog : CatalogRecord → MemoryStore → MemoryStore
add_catalog c st = record st { catalogs = st.catalogs ++ c ∷ [] }
