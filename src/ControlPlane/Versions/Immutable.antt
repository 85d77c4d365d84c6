-- ===== src/ControlPlane/Versions/Immutable.antt =====
-- A registered version keeps its manifest.
use policy_guardrails_agent.Prelude.{
  Bool-cases, lookup, lookup-put, ℕ, String, ◌≡◌, sym, ◌∙◌, subst, ◌⊎◌, inl, inr, Bool, false,
  Option, none, some, [], none-some,
}
use policy_guardrails_agent.Session.Keys.{string_eq}
use policy_guardrails_agent.Verify.Store.{TenantKey, key, same_key, same_key_iff, tenant_key_eq}
use policy_guardrails_agent.ControlPlane.Records.{GuardrailVersionRecord}
use policy_guardrails_agent.ControlPlane.Versions.{
  Manifests, register, register_new, require_platform, has_failed, version_record,
}
use policy_guardrails_agent.ControlPlane.Store.{MemoryStore}
use policy_guardrails_agent.ControlPlane.Rbac.{Principal, registry_write}
use policy_guardrails_agent.Sdk.Json.{Fields}
use policy_guardrails_agent.Guardrails.Assignment.{Manifest}
use policy_guardrails_agent.ControlPlane.Service.Sound.{
  Keeps, Any, Keeps-store, Keeps-after, Keeps-read, Keeps-bind, Keeps-if, Keeps-pure,
  Keeps-given_or, Keeps-raise, Keeps-weaken, Keeps-require, Keeps-modify, Keeps-raise_if,
}
use policy_guardrails_agent.ControlPlane.Store.Publication.{get_version, put_version}
use policy_guardrails_agent.ControlPlane.Service.{get, validation_failed, conflict}

module _ (k : TenantKey) (r : GuardrailVersionRecord) where
  abbrev I : MemoryStore → Type 0
  I s = lookup k s.versions ≡ some r

  abbrev Apart : TenantKey → Option GuardrailVersionRecord → Type 0
  Apart j o = (same_key j k ≡ false) ⊎ (o ≡ some r)

  read-Apart : (j : TenantKey) → Keeps I (Apart j) (get (λ s. lookup j s.versions))
  read-Apart j =
      Keeps-read I (Apart j) (λ s. lookup j s.versions)
        (λ s i. elim (Bool-cases (same_key j k)) [
          | inl e ↦ inr (subst (λ x. lookup x s.versions ≡ some r) (sym ((same_key_iff j k).0 e)) i)
          | inr e ↦ inl e
        ])

  new-Keeps :
      (x : Manifests) (now : ℕ) (p : Option Principal) (source : String) (m : Manifest)
      (o : Option GuardrailVersionRecord)
      → Apart (key m.id m.version) o
      → Keeps I Any (register_new x now p source m o)
  new-Keeps x now p source m (some existing) h =
      Keeps-if I Any (x.same existing.manifest m) _ _ (λ _. Keeps-pure I Any existing tt)
        (λ _. Keeps-raise I Any conflict)
  new-Keeps x now p source m none (inr e) = absurd (none-some e)
  new-Keeps x now p source m none (inl e) =
      Keeps-after I Any _ _
        (Keeps-modify I (put_version (version_record now source m)) (λ s i.
          lookup-put (key m.id m.version) k (version_record now source m) s.versions ∙ rw e i))
        (Keeps-after I Any _ _ (Keeps-modify I _ (λ s i. i)) (Keeps-pure I Any _ tt))

  platform-Keeps : (p : Option Principal) → Keeps I Any (require_platform p)
  platform-Keeps none = Keeps-pure I Any tt tt
  platform-Keeps (some p) = Keeps-weaken I _ _ _ (λ _ _. tt) (Keeps-require I p registry_write none)

  register-Keeps :
      (x : Manifests) (now : ℕ) (p : Option Principal) (raw : Fields) (source : String)
      (passed : Option Bool)
      → Keeps I Any (register x now p raw source passed)
  unfolding register
  register-Keeps x now p raw source passed = Keeps-after I Any _ _ (platform-Keeps p) (
      Keeps-bind I Any Any _ _ (Keeps-given_or I (x.parse raw) (validation_failed [] [])) (λ m _.
        Keeps-bind I _ Any _ _ (Keeps-raise_if I (has_failed passed) (validation_failed [] []))
          (λ _ _.
            Keeps-bind I (Apart (key m.id m.version)) Any _ _ (read-Apart (key m.id m.version))
              (λ existing h. new-Keeps x now p source m existing h))))

-- Nothing that anybody registers, a gateway or an admin, changes a version that is registered.
pub registered_stays :
    (x : Manifests) (now : ℕ) (p : Option Principal) (raw : Fields) (source : String)
    (passed : Option Bool) (id version : String) (r : GuardrailVersionRecord) (st : MemoryStore)
    → get_version id version st ≡ some r
    → get_version id version (register x now p raw source passed st).1 ≡ some r
registered_stays x now p raw source passed id version r st i =
    Keeps-store (λ s. lookup (key id version) s.versions ≡ some r) Any _ st
      (register-Keeps (key id version) r x now p raw source passed) i
