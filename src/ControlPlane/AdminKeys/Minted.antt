-- ===== src/ControlPlane/AdminKeys/Minted.antt =====
-- What a new admin key may be.
use policy_guardrails_agent.Prelude.{ℕ, String, ◌≡◌, Option, some, List, []}
use policy_guardrails_agent.ControlPlane.AdminKeys.{
  may_mint, mint, NewAdminKey, admin_keys, admin_record,
}
use policy_guardrails_agent.ControlPlane.Rbac.{Principal}
use policy_guardrails_agent.ControlPlane.Service.Sound.{
  Keeps, Keeps-bind, Keeps-value, Keeps-raise_if, Keeps-require, Keeps-after, Keeps-weaken,
  Keeps-modify, Keeps-pure,
}
use policy_guardrails_agent.ControlPlane.Records.{AdminKeyRecord}
use policy_guardrails_agent.ControlPlane.Store.{MemoryStore}
use policy_guardrails_agent.ControlPlane.Service.{ok, validation_failed}
use policy_guardrails_agent.ControlPlane.Rbac.Isolated.{tenant_isolated}

may-Keeps :
    (p : Principal) (mine : String) (tenant : Option String) (minted : List String)
    → p.tenant_id ≡ some mine
    → Keeps (λ _. Unit {0}) (λ _. tenant ≡ some mine) (may_mint (some p) tenant minted)
unfolding may_mint
may-Keeps p mine tenant minted own =
    let I : MemoryStore → Type 0 = λ _. Unit {0} in
    Keeps-bind I _ _ _ _ (Keeps-require I p admin_keys tenant) (λ _ may.
      Keeps-bind I _ _ _ _ (Keeps-raise_if I _ (validation_failed [] [])) (λ _ _.
        Keeps-weaken I _ _ _ (λ _ _. (tenant_isolated p admin_keys tenant mine own may).0)
          (Keeps-raise_if I _ (validation_failed [] []))))

mint-Keeps :
    (now : ℕ) (p : Principal) (mine : String) (n : NewAdminKey)
    → p.tenant_id ≡ some mine
    → Keeps (λ _. Unit {0}) (λ (k : AdminKeyRecord). k.tenant_id ≡ some mine) (mint now (some p) n)
unfolding mint
mint-Keeps now p mine n own =
    let I : MemoryStore → Type 0 = λ _. Unit {0} in
    Keeps-bind I _ _ _ _ (Keeps-raise_if I _ (validation_failed [] [])) (λ _ _.
      Keeps-bind I _ _ _ _ (may-Keeps p mine n.tenant_id n.roles own) (λ _ t.
        Keeps-after I _ _ _ (Keeps-modify I _ (λ s i. i)) (
          Keeps-after I _ _ _ (Keeps-modify I _ (λ s i. i))
            (Keeps-pure I _ (admin_record now n) t))))

-- A key of a tenant creates keys of that tenant only, never one for the platform or another tenant.
pub minted_own :
    (now : ℕ) (p : Principal) (mine : String) (n : NewAdminKey) (st : MemoryStore)
    (k : AdminKeyRecord)
    → p.tenant_id ≡ some mine
    → (mint now (some p) n st).0 ≡ ok k
    → k.tenant_id ≡ some mine
minted_own now p mine n st k own e =
    Keeps-value (λ _. Unit {0}) (λ (k : AdminKeyRecord). k.tenant_id ≡ some mine) _ k st e
      (mint-Keeps now p mine n own) tt
