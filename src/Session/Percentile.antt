-- ===== src/Session/Percentile.antt =====
-- `p95` of services/guardrail-gateway/app/session/store.py. The values are row counts, so they are
-- whole numbers; ceil(0.95 * n) is (95 * n + 99) / 100 for every n up to the window of 200.
use policy_guardrails_agent.Prelude.{
  if◌then◌else◌, ltb, leb, leb→le, Bool-cases, length, All, ℕ, zero, suc, ◌+◌, ◌-◌, ◌*◌, ◌/◌, ◌≤◌,
  ◌<◌, min, ◌≡◌, refl, ◌⊎◌, inl, inr, Option, none, some, List, [], ◌∷◌, arith,
}

-- `sorted`
insert_sorted : ℕ → List ℕ → List ℕ
insert_sorted x [] = x ∷ []
insert_sorted x (y ∷ ys) = let rest = insert_sorted x ys in if leb x y then x ∷ y ∷ ys else y ∷ rest

sorted : List ℕ → List ℕ
unfolding insert_sorted
sorted [] = []
sorted (x ∷ xs) = insert_sorted x (sorted xs)

-- s[i], for an index in range
at_or_zero : List ℕ → ℕ → ℕ
at_or_zero [] i = 0
at_or_zero (x ∷ xs) zero = x
at_or_zero (x ∷ xs) (suc i) = at_or_zero xs i

abbrev pub p95_index : ℕ → ℕ
p95_index n = min (n - 1) ((95 * n + 99) / 100 - 1)

unfoldable pub p95 : List ℕ → Option ℕ
unfolding sorted at_or_zero
p95 [] = none
p95 (v ∷ vs) = let s = sorted (v ∷ vs) in some (at_or_zero s (p95_index (length s)))

-- how many values are above a bound
abbrev pub count_above : ℕ → List ℕ → ℕ
count_above b [] = 0
count_above b (x ∷ xs) = (if ltb b x then 1 else 0) + count_above b xs

abbrev pub IsSorted : List ℕ → Type 0
IsSorted [] = Unit
IsSorted (x ∷ xs) = All (λ y. x ≤ y) xs × IsSorted xs

All-le-insert :
    (b x : ℕ) (xs : List ℕ) → b ≤ x → All (λ y. b ≤ y) xs → All (λ y. b ≤ y) (insert_sorted x xs)
unfolding insert_sorted
All-le-insert b x [] h a = (h, tt)
All-le-insert b x (y ∷ ys) h a = elim (Bool-cases (leb x y)) [
  | inl e ↦ rw e (h, a)
  | inr e ↦ rw e (a.0, All-le-insert b x ys h a.1)
]

All-le-weaken : (b c : ℕ) (xs : List ℕ) → b ≤ c → All (λ y. c ≤ y) xs → All (λ y. b ≤ y) xs
All-le-weaken b c [] h a = tt
All-le-weaken b c (x ∷ xs) h a = (omega arith, All-le-weaken b c xs h a.1)

insert_sorted-IsSorted : (x : ℕ) (xs : List ℕ) → IsSorted xs → IsSorted (insert_sorted x xs)
unfolding insert_sorted
insert_sorted-IsSorted x [] h = (tt, tt)
insert_sorted-IsSorted x (y ∷ ys) h = elim (Bool-cases (leb x y)) [
  | inl e ↦ rw e ((leb→le x y e, All-le-weaken x y ys (leb→le x y e) h.0), h)
  | inr e ↦ rw e (All-le-insert y x ys (ground arith) h.0, insert_sorted-IsSorted x ys h.1)
]

sorted-IsSorted : (xs : List ℕ) → IsSorted (sorted xs)
unfolding sorted
sorted-IsSorted [] = tt
sorted-IsSorted (x ∷ xs) = insert_sorted-IsSorted x (sorted xs) (sorted-IsSorted xs)

count_above-insert :
    (b x : ℕ) (xs : List ℕ) → count_above b (insert_sorted x xs) ≡ count_above b (x ∷ xs)
unfolding insert_sorted
count_above-insert b x [] = refl
count_above-insert b x (y ∷ ys) = ground (arith, count_above-insert b x ys)

count_above-sorted : (b : ℕ) (xs : List ℕ) → count_above b (sorted xs) ≡ count_above b xs
unfolding sorted
count_above-sorted b [] = refl
count_above-sorted b (x ∷ xs) =
    omega (arith, count_above-insert b x (sorted xs), count_above-sorted b xs)

length-insert_sorted : (x : ℕ) (xs : List ℕ) → length (insert_sorted x xs) ≡ suc (length xs)
unfolding insert_sorted
length-insert_sorted x [] = refl
length-insert_sorted x (y ∷ ys) = ground (arith, length-insert_sorted x ys)

length-sorted : (xs : List ℕ) → length (sorted xs) ≡ length xs
unfolding sorted
length-sorted [] = refl
length-sorted (x ∷ xs) = omega (arith, length-insert_sorted x (sorted xs), length-sorted xs)

count_above_le : (b : ℕ) (xs : List ℕ) → count_above b xs ≤ length xs
count_above_le b [] = omega arith
count_above_le b (x ∷ xs) = ground (arith, count_above_le b xs)

-- in a sorted list, only what stands behind an index is above the value there
count_above-at :
    (xs : List ℕ) (i : ℕ)
    → IsSorted xs
    → i < length xs
    → count_above (at_or_zero xs i) xs + i < length xs
unfolding at_or_zero
count_above-at [] i s h = absurd (omega arith)
count_above-at (x ∷ xs) zero s h = ground (arith, count_above_le x xs)
count_above-at (x ∷ xs) (suc i) s h = ground (arith, count_above-at xs i s.1, at_ge x xs i s.0)
  where
    at_ge :
        (b : ℕ) (ys : List ℕ) (j : ℕ)
        → All (λ y. b ≤ y) ys
        → (b ≤ at_or_zero ys j) ⊎ (length ys ≤ j)
    at_ge b [] j a = inr (omega arith)
    at_ge b (y ∷ ys) zero a = inl a.0
    at_ge b (y ∷ ys) (suc j) a = ground (arith, at_ge b ys j a.1)

-- At most a twentieth of the recorded values lie above the 95th percentile.
pub p95-above : (vs : List ℕ) {p : ℕ} → p95 vs ≡ some p → 20 * count_above p vs ≤ length vs
unfolding p95
p95-above [] h = cc
p95-above (v ∷ vs) {p} h =
    let n : ℕ = length (sorted (v ∷ vs)) in
    ground (
      arith,
      count_above-at (sorted (v ∷ vs)) (p95_index n) (sorted-IsSorted (v ∷ vs)),
      length-sorted (v ∷ vs),
      count_above-sorted p (v ∷ vs),
    )
