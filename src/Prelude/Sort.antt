-- ===== src/Prelude/Sort.antt =====
-- Python's `sorted`, for an order given by a test: a stable insertion sort, and what it keeps.
use mathlib.Core.Bool.{Bool}
use mathlib.Core.List.{List, [], ◌∷◌}
use policy_guardrails_agent.Prelude.Tests.{if◌then◌else◌, Bool-cases}
use policy_guardrails_agent.Prelude.Lists.{All}
use mathlib.Core.Logic.{inl, inr}

module _ {ℓ} {A : Type ℓ} (after : A → A → Bool) where
  -- where the first argument stood in front of the list
  abbrev pub insert_by : A → List A → List A
  insert_by b [] = b ∷ []
  insert_by b (c ∷ cs) = let rest = insert_by b cs in if after b c then c ∷ rest else b ∷ c ∷ cs

  -- sorted(xs, key=…): `after x y` says that the key of x is greater than that of y
  abbrev pub sorted_by : List A → List A
  sorted_by [] = []
  sorted_by (x ∷ xs) = insert_by x (sorted_by xs)

  All-insert_by {κ} :
      (P : A → Type κ) (x : A) (xs : List A) → P x → All P xs → All P (insert_by x xs)
  All-insert_by P x [] p ps = (p, tt)
  All-insert_by P x (c ∷ cs) p ps = elim (Bool-cases (after x c)) [
    | inl e ↦ rw e (ps.0, All-insert_by P x cs p ps.1)
    | inr e ↦ rw e (p, ps)
  ]

  pub All-sorted_by {κ} : (P : A → Type κ) (xs : List A) → All P xs → All P (sorted_by xs)
  All-sorted_by P [] ps = tt
  All-sorted_by P (x ∷ xs) ps = All-insert_by P x (sorted_by xs) ps.0 (All-sorted_by P xs ps.1)
