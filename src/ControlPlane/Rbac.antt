-- ===== src/ControlPlane/Rbac.antt =====
-- services/guardrail-control-plane/app/domain/rbac.py: the permissions of an admin API key. A role is
-- a text; one that the table does not list grants nothing.
pub mod Isolated
use policy_guardrails_agent.Guardrails.Assignment.{same_text}
use Prim.Native.String.{◌++◌ as concat}
use policy_guardrails_agent.Prelude.{
  if◌then◌else◌, is_some, str_eq, String, Bool, true, false, not, ◌||◌, Option, none, some, List,
  [], ◌∷◌, ◌++◌, elem, first_chars,
}

pub data Permission : Type 0 where
  read catalog_write registry_write assignments_write publish_request publish_approve : Permission
  reviews_decide reviews_raw admin_keys discovery_write inventory_write : Permission

-- Permission.value
abbrev pub permission_value : Permission → String
permission_value read = "read"
permission_value catalog_write = "catalog:write"
permission_value registry_write = "registry:write"
permission_value assignments_write = "assignments:write"
permission_value publish_request = "publish:request"
permission_value publish_approve = "publish:approve"
permission_value reviews_decide = "reviews:decide"
permission_value reviews_raw = "reviews:raw"
permission_value admin_keys = "admin-keys:write"
permission_value discovery_write = "discovery:write"
permission_value inventory_write = "inventory:write"

-- the members of a `str` enumeration are equal when their values are
abbrev pub same_permission : Permission → Permission → Bool
same_permission a b = str_eq (permission_value a) (permission_value b)

abbrev pub editor_permissions : List Permission
editor_permissions =
    read ∷ catalog_write ∷ assignments_write ∷ publish_request ∷ inventory_write ∷ []

abbrev pub admin_permissions : List Permission
admin_permissions =
    read ∷ catalog_write ∷ registry_write ∷ assignments_write ∷ publish_request ∷ publish_approve
    ∷ reviews_decide ∷ admin_keys ∷ discovery_write ∷ inventory_write ∷ []

-- ROLE_PERMISSIONS.get(role, frozenset())
abbrev pub role_permissions : String → List Permission
role_permissions role =
    if str_eq role "viewer"
    then read ∷ []
    else if str_eq role "reviewer"
    then read ∷ reviews_decide ∷ []
    else if str_eq role "reviewer-raw"
    then read ∷ reviews_decide ∷ reviews_raw ∷ []
    else if str_eq role "editor"
    then editor_permissions
    else if str_eq role "admin"
    then admin_permissions
    else []

-- PLATFORM_ONLY
abbrev pub platform_only : List Permission
platform_only = registry_write ∷ publish_request ∷ publish_approve ∷ discovery_write ∷ []

-- class Principal
pub record Principal : Type 0 where
  pub key_id : String
  pub name : String
  pub roles : List String
  pub tenant_id : Option String

-- Principal.actor
abbrev pub actor : Principal → String
actor p = concat p.name (concat " (" (concat (first_chars 8 p.key_id) ")"))

-- Principal.is_platform
abbrev pub is_platform : Principal → Bool
is_platform p = not (is_some p.tenant_id)

-- the union over `self.roles`
abbrev pub granted : List String → List Permission
granted [] = []
granted (role ∷ roles) = role_permissions role ++ granted roles

-- Principal.permissions
abbrev pub permissions : Principal → List Permission
permissions p = granted p.roles

-- tenant_id is not None and tenant_id == self.tenant_id, for a tenant's key
abbrev pub is_own : Option String → Option String → Bool
is_own none mine = false
is_own (some t) mine = same_text (some t) mine

-- Principal.can
unfoldable pub can : Principal → Permission → Option String → Bool
can p permission tenant_id =
    if not (elem same_permission permission (permissions p))
    then false
    else if is_platform p
    then true
    else if elem same_permission permission platform_only
    then false
    else is_own tenant_id p.tenant_id

-- Principal.visible_tenant
abbrev pub visible_tenant : Principal → String → Bool
visible_tenant p tenant_id = is_platform p || same_text p.tenant_id (some tenant_id)

-- SYSTEM
abbrev pub system : Principal
system = record { key_id = "system"; name = "system"; roles = "admin" ∷ []; tenant_id = none }
