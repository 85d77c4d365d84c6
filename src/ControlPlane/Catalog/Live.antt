-- ===== src/ControlPlane/Catalog/Live.antt =====
-- The catalog carries live keys only, each under its own tenant.
use mathlib.Core.List.{foldl}
use policy_guardrails_agent.Prelude.{
  Bool-cases, All, str_eq, eq_iff, lookup, put, ℕ, String, ◌≡◌, refl, sym, subst, inl, inr, true,
  Option, none, some, List, [], ◌∷◌, ◌++◌, arith, sorted_by, All-sorted_by, is_empty, some_inj,
}
use policy_guardrails_agent.Session.Keys.{string_eq}
use policy_guardrails_agent.ControlPlane.Records.{
  ApiKeyRecord, TenantRecord, CatalogApiKey, CatalogTenant, ModifierRecord, ActionRecord,
  AgentRecord,
}
use policy_guardrails_agent.ControlPlane.Catalog.{
  add_key, ByTenant, change_tenant, start_tenants, change_found, is_live_key, catalog_key,
  catalog_tenant, build_catalog, flag_tools, with_keys, add_agent, by_tenant, add_action,
  add_modifier, Inventory, InventoryFlags, Contents, modifier_after, action_after, agent_after,
}
use policy_guardrails_agent.ControlPlane.Store.{values, text_after}

-- the record that a published key comes from
pub record IsLive (P : ApiKeyRecord → Type 0) (now : ℕ) (tenant : String) (k : CatalogApiKey)
    : Type 0 where
  pub origin : ApiKeyRecord
  pub stored : P origin
  pub live : is_live_key now origin ≡ true
  pub own : origin.tenant_id ≡ tenant
  pub same : k ≡ catalog_key origin

module _ (P : ApiKeyRecord → Type 0) (now : ℕ) where
  -- an entry of the dictionary: its id is the dictionary's key
  abbrev HasLive : CatalogTenant → Type 0
  HasLive t = All (IsLive P now t.id) t.api_keys

  abbrev Entry : String × CatalogTenant → Type 0
  Entry (id, t) = (t.id ≡ id) × HasLive t

  abbrev Entries : ByTenant → Type 0
  Entries = All Entry

  put-Entries :
      (id : String) (t : CatalogTenant) (d : ByTenant)
      → Entry (id, t)
      → Entries d
      → Entries (put id t d)
  unfolding put
  put-Entries id t [] p ps = (p, tt)
  put-Entries id t ((j, u) ∷ d) p ps = elim (Bool-cases (str_eq j id)) [
    | inl q ↦ rw q (p, ps.1)
    | inr q ↦ rw q (ps.0, put-Entries id t d p ps.1)
  ]

  lookup-Entry :
      (id : String) (d : ByTenant) (t : CatalogTenant)
      → Entries d
      → lookup id d ≡ some t
      → Entry (id, t)
  unfolding lookup
  lookup-Entry id [] t ps h = ground arith
  lookup-Entry id ((j, u) ∷ d) t ps h = elim (Bool-cases (str_eq j id)) [
    | inl q ↦
        subst (λ x. Entry (id, x)) (some_inj (rw q at h))
          (subst (λ x. Entry (x, u)) ((eq_iff j id).0 q) ps.0)
    | inr q ↦ lookup-Entry id d t ps.1 (rw q at h)
  ]

  change-Entries :
      (id : String) (f : CatalogTenant → CatalogTenant) (d : ByTenant)
      → ((t : CatalogTenant) → Entry (id, t) → Entry (id, f t))
      → Entries d
      → Entries (change_tenant id f d)
  unfolding change_tenant
  change-Entries id f d h ps = go (lookup id d) refl
    where
      go : (o : Option CatalogTenant) → lookup id d ≡ o → Entries (change_found id f o d)
      go none e = ps
      go (some t) e = put-Entries id (f t) d (h t (lookup-Entry id d t ps e)) ps

  All-append :
      {A : Type 0} (Q : A → Type 0) (xs : List A) (x : A) → All Q xs → Q x → All Q (xs ++ x ∷ [])
  All-append Q [] x h q = (q, tt)
  All-append Q (y ∷ xs) x h q = (h.0, All-append Q xs x h.1 q)

  key-Entries : (d : ByTenant) (k : ApiKeyRecord) → P k → Entries d → Entries (add_key now d k)
  unfolding add_key
  key-Entries d k p ps = elim (Bool-cases (is_live_key now k)) [
    | inr e ↦ rw e ps
    | inl e ↦ rw e (
        change-Entries k.tenant_id (λ t. record t { api_keys = t.api_keys ++ catalog_key k ∷ [] }) d
          (λ t h. (
            h.0,
            All-append (IsLive P now t.id) t.api_keys (catalog_key k) h.1
                (record { origin = k; stored = p; live = e; own = sym h.0; same = refl }),
          ))
          ps)
  ]

  foldl-Entries :
      {A : Type 0} (f : ByTenant → A → ByTenant) (Q : A → Type 0) (d : ByTenant) (xs : List A)
      → ((e : ByTenant) (x : A) → Q x → Entries e → Entries (f e x))
      → All Q xs
      → Entries d
      → Entries (foldl f d xs)
  foldl-Entries f Q d [] h qs ps = ps
  foldl-Entries f Q d (x ∷ xs) h qs ps = foldl-Entries f Q (f d x) xs h qs.1 (h d x qs.0 ps)

  start-Entries : (ts : List TenantRecord) (d : ByTenant) → Entries d → Entries (start_tenants ts d)
  start-Entries [] d ps = ps
  start-Entries (t ∷ ts) d ps =
      start-Entries ts (put t.id (catalog_tenant t) d)
        (put-Entries t.id (catalog_tenant t) d (refl, tt) ps)

  fold-Entries :
      {A : Type 0} (f : ByTenant → A → ByTenant) (d : ByTenant) (xs : List A)
      → ((e : ByTenant) (x : A) → Entries e → Entries (f e x))
      → Entries d
      → Entries (foldl f d xs)
  fold-Entries f d [] h ps = ps
  fold-Entries f d (x ∷ xs) h ps = fold-Entries f (f d x) xs h (h d x ps)

  values-Entries : (d : ByTenant) → Entries d → All HasLive (values d)
  values-Entries [] ps = tt
  values-Entries ((id, t) ∷ d) ps = (ps.0.1, values-Entries d ps.1)

  agent-Entries :
      (inventory : Inventory) (d : ByTenant) (a : AgentRecord)
      → Entries d
      → Entries (add_agent inventory d a)
  unfolding add_agent
  agent-Entries inventory d a = change-Entries a.tenant_id _ d (λ t h. h)

  action-Entries : (d : ByTenant) (r : ActionRecord) → Entries d → Entries (add_action d r)
  unfolding add_action
  action-Entries d r = change-Entries r.tenant_id _ d (λ t h. h)

  modifier-Entries : (d : ByTenant) (m : ModifierRecord) → Entries d → Entries (add_modifier d m)
  unfolding add_modifier
  modifier-Entries d m = change-Entries m.tenant_id _ d (λ t h. h)

  flag-Entries : (d : ByTenant) (x : String × InventoryFlags) → Entries d → Entries (flag_tools d x)
  unfolding flag_tools
  flag-Entries d (tid, flags) ps = elim (Bool-cases (is_empty flags.flagged_tools)) [
    | inl e ↦ rw e ps
    | inr e ↦ rw e (change-Entries tid _ d (λ t h. h) ps)
  ]

  with_keys-Entries : (c : Contents) → All P c.keys → Entries (with_keys now c)
  unfolding with_keys
  with_keys-Entries c ks =
      foldl-Entries (add_key now) P _ (sorted_by (λ a b. text_after a.id b.id) c.keys) key-Entries
        (All-sorted_by (λ a b. text_after a.id b.id) P c.keys ks)
        (start-Entries (sorted_by (λ a b. text_after a.id b.id) c.tenants) [] tt)

  by_tenant-Entries : (c : Contents) → All P c.keys → Entries (by_tenant now c)
  unfolding by_tenant
  by_tenant-Entries c ks = fold-Entries flag_tools _ c.inventory flag-Entries (
      fold-Entries add_modifier _ (sorted_by modifier_after c.modifiers) modifier-Entries (
        fold-Entries add_action _ (sorted_by action_after c.actions) action-Entries (
          fold-Entries (add_agent c.inventory) _ (sorted_by agent_after c.agents)
            (agent-Entries c.inventory) (with_keys-Entries c ks))))

-- Every API key in a catalog comes from one of the records it is built from, which is active, has not
-- expired and belongs to the tenant that the key is listed under; so revoked keys and other tenants'
-- keys are not published. P is any property of the records.
pub published_keys-IsLive :
    (P : ApiKeyRecord → Type 0) (now : ℕ) (c : Contents)
    → All P c.keys
    → All (λ t. All (IsLive P now t.id) t.api_keys) (build_catalog now c).tenants
unfolding build_catalog
published_keys-IsLive P now c ks =
    values-Entries P now (by_tenant now c) (by_tenant-Entries P now c ks)
