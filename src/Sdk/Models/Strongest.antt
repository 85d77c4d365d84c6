-- ===== src/Sdk/Models/Strongest.antt =====
-- `strongest` of models.py is the maximum of its list in the order of precedence.
use mathlib.Core.List.{foldl}
use policy_guardrails_agent.Prelude.{All, ◌≤◌, ◌≡◌, refl, ◌⊎◌, inl, inr, List, [], ◌∷◌, arith}
use policy_guardrails_agent.Sdk.Models.{Decision, precedence, stronger, strongest}

precedence-foldl-init :
    (d : Decision) (ds : List Decision) → precedence d ≤ precedence (foldl stronger d ds)
precedence-foldl-init d [] = omega arith
precedence-foldl-init d (e ∷ ds) = ground (arith, precedence-foldl-init (stronger d e) ds)

foldl-upper :
    (d : Decision) (ds : List Decision)
    → All (λ e. precedence e ≤ precedence (foldl stronger d ds)) ds
foldl-upper d [] = tt
foldl-upper d (e ∷ ds) =
    (ground (arith, precedence-foldl-init (stronger d e) ds), foldl-upper (stronger d e) ds)

-- No decision of the list is stronger than the result.
pub strongest-upper : (ds : List Decision) → All (λ e. precedence e ≤ precedence (strongest ds)) ds
unfolding strongest
strongest-upper [] = tt
strongest-upper (d ∷ ds) = (precedence-foldl-init d ds, foldl-upper d ds)

abbrev pub Occurs : Decision → List Decision → Type 0
Occurs d [] = ⊥
Occurs d (e ∷ es) = (d ≡ e) ⊎ Occurs d es

foldl-Occurs : (d : Decision) (ds : List Decision) → Occurs (foldl stronger d ds) (d ∷ ds)
foldl-Occurs d [] = inl refl
foldl-Occurs d (e ∷ ds) = ground (arith, foldl-Occurs (stronger d e) ds)

-- The result is one of the decisions, unless there are none.
pub strongest-mem : (ds : List Decision) → (ds ≡ []) ⊎ Occurs (strongest ds) ds
unfolding strongest
strongest-mem [] = inl refl
strongest-mem (d ∷ ds) = inr (foldl-Occurs d ds)

-- `strongest` is the maximum of the decisions in the order allow, modify, escalate, block: no
-- decision of the list is above it, and it is one of them unless the list is empty.
pub strongest_lem :
    (ds : List Decision)
    → All (λ e. precedence e ≤ precedence (strongest ds)) ds
      × ((ds ≡ []) ⊎ Occurs (strongest ds) ds)
strongest_lem ds = (strongest-upper ds, strongest-mem ds)
