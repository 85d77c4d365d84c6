-- ===== src/ControlPlane/AdminKeys.antt =====
-- services/guardrail-control-plane/app/services/admin.py: AdminKeyService. The hash of a key is a
-- parameter; a key that is created brings its id and its random text.
pub mod Minted
use Prim.Native.String.{count}
use policy_guardrails_agent.Prelude.{
  if◌then◌else◌, ltb, is_some, all, keep, str_eq, mem, ℕ, String, true, false, not, ◌&&◌, ◌||◌,
  Option, none, some, List, [], ◌∷◌, is_empty, first_chars,
}
use policy_guardrails_agent.Session.Keys.{string_eq}
use policy_guardrails_agent.ControlPlane.Records.{AdminKeyRecord}
use policy_guardrails_agent.ControlPlane.Store.{MemoryStore, find_value}
use policy_guardrails_agent.ControlPlane.Service.{
  require, Service, ◌>>◌, ◌>>=◌, pure, get, raise_if, validation_failed, given_or, modify,
  not_found,
}
use policy_guardrails_agent.ControlPlane.Rbac.{Principal, actor, admin_keys, is_platform}
use policy_guardrails_agent.ControlPlane.Store.Publication.{
  find_admin_key, list_admin_keys, put_admin_key, log,
}
use policy_guardrails_agent.Guardrails.Assignment.{same_text}

-- ROLES
abbrev pub roles : List String
roles = "viewer" ∷ "reviewer" ∷ "reviewer-raw" ∷ "editor" ∷ "admin" ∷ []

abbrev pub principal_of : AdminKeyRecord → Principal
principal_of k = record { key_id = k.id; name = k.name; roles = k.roles; tenant_id = k.tenant_id }

abbrev pub if_active : Option AdminKeyRecord → Option Principal
if_active none = none
if_active (some k) = if k.is_active then some (principal_of k) else none

-- AdminKeyService.authenticate
unfoldable pub authenticate_admin :
    (String → String) → Option String → MemoryStore → Option Principal
authenticate_admin hash none st = none
authenticate_admin hash (some raw) st =
    if str_eq raw "" || ltb 256 (count raw) then none else if_active (find_admin_key (hash raw) st)

-- the checks that a caller makes `create` make; none is the command line's bootstrap
unfoldable pub may_mint : Option Principal → Option String → List String → Service (Unit {0})
unfolding require
may_mint none tenant minted = pure tt
may_mint (some p) tenant minted = do
  require p admin_keys tenant
  raise_if (not (is_platform p) && not (same_text tenant p.tenant_id)) (validation_failed [] [])
  raise_if (not (is_platform p) && (mem "admin" minted && not (is_some tenant)))
      (validation_failed [] [])

abbrev pub minted_by : Option Principal → String
minted_by none = "bootstrap"
minted_by (some p) = actor p

-- what `create` is given
pub record NewAdminKey : Type 0 where
  pub id : String
  pub name : String
  pub roles : List String
  pub tenant_id : Option String
  pub raw : String
  pub raw_hash : String

abbrev pub admin_record : ℕ → NewAdminKey → AdminKeyRecord
admin_record now n = record {
  id = n.id;
  name = n.name;
  key_hash = n.raw_hash;
  prefix = first_chars 12 n.raw;
  roles = n.roles;
  tenant_id = n.tenant_id;
  is_active = true;
  created_at = now;
}

-- AdminKeyService.create
unfoldable pub mint : ℕ → Option Principal → NewAdminKey → Service AdminKeyRecord
unfolding may_mint
mint now p n = do
  raise_if (not (all (λ r. mem r roles) n.roles) || is_empty n.roles) (validation_failed [] [])
  may_mint p n.tenant_id n.roles
  modify (put_admin_key (admin_record now n))
  modify (log "admin_key" n.id "create" (minted_by p) now)
  pure (admin_record now n)

-- AdminKeyService.revoke
unfoldable pub revoke_admin : ℕ → Principal → String → Service (Unit {0})
unfolding require
revoke_admin now p id = do
  found ← get (λ st. find_value (λ k. str_eq k.id id) st.admin_keys)
  k ← given_or found not_found
  require p admin_keys k.tenant_id
  modify (put_admin_key (record k { is_active = false }))
  modify (log "admin_key" id "revoke" (actor p) now)

-- AdminKeyService.list
unfoldable pub list_keys : Principal → Service (List AdminKeyRecord)
unfolding require
list_keys p = do
  require p admin_keys p.tenant_id
  keys ← get list_admin_keys
  pure (keep (λ k. is_platform p || same_text k.tenant_id p.tenant_id) keys)
