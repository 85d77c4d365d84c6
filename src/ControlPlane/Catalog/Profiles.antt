-- ===== src/ControlPlane/Catalog/Profiles.antt =====
-- CatalogService (services/guardrail-control-plane/app/services/catalog.py): agents, actions,
-- modifiers, and the data classes that hosted advisors may see.
use Prim.Native.String.{◌++◌ as concat}
use policy_guardrails_agent.Prelude.{
  if◌then◌else◌, all, mem, ℕ, String, Bool, not, some, List, [], ◌∷◌,
}
use policy_guardrails_agent.Session.Keys.{string_eq}
use policy_guardrails_agent.ControlPlane.Store.{
  MemoryStore, put_modifier, put_action, delete_modifier, delete_action, delete_agent, put_agent,
  put_tenant,
}
use policy_guardrails_agent.ControlPlane.Service.{
  require, Service, ok, pure, raised, not_found, ◌>>◌, ◌>>=◌, modify, raise_if, validation_failed,
}
use policy_guardrails_agent.ControlPlane.Catalog.Service.{
  finish_change, CatalogCtx, require_capability, Call, write_allowed, the_tenant,
}
use policy_guardrails_agent.ControlPlane.Records.{
  ModifierRecord, TenantRecord, AgentRecord, ActionRecord,
}
use policy_guardrails_agent.ControlPlane.Catalog.{sorted_set}

-- CatalogService.put_agent
unfoldable pub upsert_agent : CatalogCtx → Call → AgentRecord → Service AgentRecord
unfolding require finish_change
upsert_agent x c a = do
  write_allowed c (some a.tenant_id)
  the_tenant a.tenant_id
  modify (put_agent a)
  finish_change x c "agent" (concat a.tenant_id (concat "/" a.agent_id)) "upsert"
  pure a

-- a deletion that says whether there was something to delete
unfoldable pub delete_or_raise : (MemoryStore → Bool × MemoryStore) → Service (Unit {0})
delete_or_raise f s = let (there, s') = f s in if there then (ok tt, s') else (raised not_found, s')

-- CatalogService.delete_agent
unfoldable pub drop_agent : CatalogCtx → Call → String → String → Service (Unit {0})
unfolding require finish_change delete_or_raise
drop_agent x c tenant agent = do
  write_allowed c (some tenant)
  delete_or_raise (delete_agent tenant agent)
  finish_change x c "agent" (concat tenant (concat "/" agent)) "delete"

-- a write that returns what it stored
unfoldable pub upsert : {A : Type 0} → (MemoryStore → A × MemoryStore) → Service A
upsert f s = let (a, s') = f s in (ok a, s')

-- CatalogService.put_action
unfoldable pub upsert_action : CatalogCtx → Call → ActionRecord → Service ActionRecord
unfolding require finish_change upsert put_action
upsert_action x c a = do
  write_allowed c (some a.tenant_id)
  the_tenant a.tenant_id
  saved ← upsert (put_action a)
  finish_change x c "action" saved.id "upsert"
  pure saved

-- CatalogService.delete_action
unfoldable pub drop_action : CatalogCtx → Call → String → String → Service (Unit {0})
unfolding require finish_change delete_or_raise
drop_action x c tenant id = do
  write_allowed c (some tenant)
  delete_or_raise (delete_action tenant id)
  finish_change x c "action" id "delete"

-- CatalogService.put_modifier
unfoldable pub upsert_modifier : CatalogCtx → Call → ModifierRecord → Service ModifierRecord
unfolding require finish_change upsert put_modifier
upsert_modifier x c m = do
  write_allowed c (some m.tenant_id)
  the_tenant m.tenant_id
  saved ← upsert (put_modifier m)
  finish_change x c "modifier" saved.id "upsert"
  pure saved

-- CatalogService.delete_modifier
unfoldable pub drop_modifier : CatalogCtx → Call → String → String → Service (Unit {0})
unfolding require finish_change delete_or_raise
drop_modifier x c tenant id = do
  write_allowed c (some tenant)
  delete_or_raise (delete_modifier tenant id)
  finish_change x c "modifier" id "delete"

-- the classes that TenantRecord's field admits
abbrev pub data_classes : List String
data_classes = "PUBLIC" ∷ "INTERNAL" ∷ "CONFIDENTIAL" ∷ "PII" ∷ []

abbrev pub advisors_readable : ℕ → List String → List String → Service (Unit {0})
advisors_readable now [] before = pure tt
advisors_readable now (d ∷ ds) [] = require_capability now "advisors_v1"
advisors_readable now (d ∷ ds) (b ∷ bs) = pure tt

-- CatalogService.set_advisor_policy
unfoldable pub set_advisor_policy : CatalogCtx → Call → String → List String → Service TenantRecord
unfolding require finish_change
set_advisor_policy x c id classes = do
  write_allowed c (some id)
  tenant ← the_tenant id
  advisors_readable c.now (sorted_set classes) tenant.advisor_data_classes
  raise_if (not (all (λ d. mem d data_classes) (sorted_set classes))) (validation_failed [] [])
  modify (put_tenant (record tenant { advisor_data_classes = sorted_set classes }))
  finish_change x c "tenant" id "advisor_policy"
  pure (record tenant { advisor_data_classes = sorted_set classes })
