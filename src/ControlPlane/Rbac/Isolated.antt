-- ===== src/ControlPlane/Rbac/Isolated.antt =====
-- What the permissions keep apart: tenants, the platform, and the raw text of a review.
use policy_guardrails_agent.Prelude.{
  if◌then◌else◌, Bool-cases, is_some, str_eq, eq_iff, mem, String, ◌≡◌, refl, ap, ◌∙◌, subst, inl,
  inr, Bool, true, false, not, ◌||◌, Option, none, some, List, [], ◌∷◌, ◌++◌, arith, elem, neither,
  either_false, clash,
}
use policy_guardrails_agent.ControlPlane.Rbac.{
  is_own, Permission, same_permission, can, Principal, reviews_raw, platform_only, granted,
  permissions, role_permissions, is_platform,
}

same_option : (t : Option String) (mine : String) → is_own t (some mine) ≡ true → t ≡ some mine
same_option none mine e = ground arith
same_option (some t) mine e = ap some ((eq_iff t mine).0 e)

gate :
    (held platform only mine : Bool)
    → (if not held then false else if platform then true else if only then false else mine) ≡ true
    → platform ≡ false
    → (mine ≡ true) × (only ≡ false)
gate held platform only mine = ground arith

pub can-held :
    (p : Principal) (permission : Permission) (t : Option String)
    → can p permission t ≡ true
    → elem same_permission permission (permissions p) ≡ true
unfolding can
can-held p permission t ok = elim (Bool-cases (elem same_permission permission (permissions p))) [
  | inl e ↦ e
  | inr e ↦ ground arith
]

-- A key of a tenant that may do something may do it on an object of its own tenant, and the
-- permission is none of those that only the platform has.
pub tenant_isolated :
    (p : Principal) (permission : Permission) (t : Option String) (mine : String)
    → p.tenant_id ≡ some mine
    → can p permission t ≡ true
    → (t ≡ some mine) × (elem same_permission permission platform_only ≡ false)
unfolding can
tenant_isolated p permission t mine own ok =
    let r =
      gate (elem same_permission permission (permissions p)) (is_platform p)
        (elem same_permission permission platform_only) (is_own t p.tenant_id) ok
        (ap (λ o. not (is_some o)) own) in
    (same_option t mine (subst (λ o. is_own t o ≡ true) own r.0), r.1)

elem-append :
    (x : Permission) (ps qs : List Permission)
    → elem same_permission x (ps ++ qs) ≡ (elem same_permission x ps || elem same_permission x qs)
elem-append x [] qs = refl
elem-append x (y ∷ ps) qs = ground (arith, elem-append x ps qs)

raw_role :
    (role : String)
    → str_eq role "reviewer-raw" ≡ false
    → elem same_permission reviews_raw (role_permissions role) ≡ false
raw_role role e = ground arith

raw_roles :
    (roles : List String)
    → mem "reviewer-raw" roles ≡ false
    → elem same_permission reviews_raw (granted roles) ≡ false
raw_roles [] e = refl
raw_roles (role ∷ roles) e =
    let (e1, e2) = neither (str_eq role "reviewer-raw") (mem "reviewer-raw" roles) e in
    elem-append reviews_raw (role_permissions role) (granted roles)
    ∙ either_false (elem same_permission reviews_raw (role_permissions role))
        (elem same_permission reviews_raw (granted roles)) (raw_role role e1) (raw_roles roles e2)

-- Whoever may read the raw text of a review has the role reviewer-raw; no other role grants it.
pub raw_needs_role :
    (p : Principal) (t : Option String)
    → can p reviews_raw t ≡ true
    → mem "reviewer-raw" p.roles ≡ true
raw_needs_role p t ok = elim (Bool-cases (mem "reviewer-raw" p.roles)) [
  | inl e ↦ e
  | inr e ↦ absurd (clash (can-held p reviews_raw t ok) (raw_roles p.roles e))
]
