-- ===== src/ControlPlane/Store/Kept.antt =====
-- A property of every stored record, through the reads and the writes of a dictionary.
use policy_guardrails_agent.Prelude.{
  Bool-cases, All, Eq, lookup, put, ◌≡◌, subst, inl, inr, some, List, [], ◌∷◌, arith, some_inj,
}
use policy_guardrails_agent.ControlPlane.Store.{values}

module _ {K V : Type 0} ⦃e : Eq K⦄ (P : V → Type 0) where
  pub All-put :
      (k : K) (v : V) (d : List (K × V)) → P v → All P (values d) → All P (values (put k v d))
  unfolding put
  All-put k v [] p ps = (p, tt)
  All-put k v ((j, w) ∷ d) p ps = elim (Bool-cases (e.beq j k)) [
    | inl q ↦ rw q (p, ps.1)
    | inr q ↦ rw q (ps.0, All-put k v d p ps.1)
  ]

  pub All-lookup : (k : K) (v : V) (d : List (K × V)) → All P (values d) → lookup k d ≡ some v → P v
  unfolding lookup
  All-lookup k v [] ps h = ground arith
  All-lookup k v ((j, w) ∷ d) ps h = elim (Bool-cases (e.beq j k)) [
    | inl q ↦ subst P (some_inj (rw q at h)) ps.0
    | inr q ↦ All-lookup k v d ps.1 (rw q at h)
  ]
