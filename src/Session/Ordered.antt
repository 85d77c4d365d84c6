-- ===== src/Session/Ordered.antt =====
-- Python's `OrderedDict` as the stores use it: a bounded map whose entries stand in the order of
-- their last touch, the oldest first. Shared by the session store and the verification store.
use policy_guardrails_agent.Prelude.{
  if◌then◌else◌, is_some, length, drop, length-append, length-drop, Eq, lookup, remove,
  lookup-remove, ℕ, zero, suc, ◌+◌, ◌-◌, ◌≤◌, ◌<◌, ◌≡◌, refl, false, none, some, List, [], ◌∷◌,
  ◌++◌, arith,
}

module _ {ℓ κ} {K : Type ℓ} {V : Type κ} ⦃e : Eq K⦄ where
  -- `d[k] = v; d.move_to_end(k)`
  unfoldable pub move_to_end : K → V → List (K × V) → List (K × V)
  move_to_end k v d = remove k d ++ (k, v) ∷ []

  -- `while len(d) > bound: d.popitem(last=False)`
  unfoldable pub trim : ℕ → List (K × V) → List (K × V)
  trim bound d = drop (length d - bound) d

  -- a write through a reference to a value that the dictionary may still hold
  unfoldable pub write_back : K → V → List (K × V) → List (K × V)
  write_back k v [] = []
  write_back k v ((j, w) ∷ d) =
      let rest = write_back k v d in if e.beq j k then (k, v) ∷ d else (j, w) ∷ rest

module _ {ℓ κ} {K : Type ℓ} {V : Type κ} ⦃e : Eq K⦄ where
  pub length-trim : (bound : ℕ) (d : List (K × V)) → length (trim bound d) ≤ bound
  unfolding trim
  length-trim bound d = omega (arith, length-drop (length d - bound) d)

  pub length-write_back : (k : K) (v : V) (d : List (K × V)) → length (write_back k v d) ≡ length d
  unfolding write_back
  length-write_back k v [] = refl
  length-write_back k v ((j, w) ∷ d) = ground (arith, length-write_back k v d)

  length-remove : (k : K) (d : List (K × V)) → length (remove k d) ≤ length d
  unfolding remove
  length-remove k [] = omega arith
  length-remove k ((j, w) ∷ d) = ground (arith, length-remove k d)

  pub length-move_to_end :
      (k : K) (v : V) (d : List (K × V)) → length (move_to_end k v d) ≤ length d + 1
  unfolding move_to_end
  length-move_to_end k v d =
      omega (arith, length-append (remove k d) ((k, v) ∷ []), length-remove k d)

  lookup-append_last :
      (k j : K) (v : V) (d : List (K × V))
      → lookup k d ≡ none
      → lookup j (d ++ (k, v) ∷ []) ≡ (if e.beq k j then some v else lookup j d)
  unfolding lookup
  lookup-append_last k j v [] h = refl
  lookup-append_last k j v ((i, w) ∷ d) h =
      ground (arith, lookup-append_last k j v d, e.beq_iff i k, e.beq_iff i j, e.beq_iff k j)

  -- What stands under a key after the write: the new value, or what stood there before.
  pub lookup-move_to_end :
      (k j : K) (v : V) (d : List (K × V))
      → lookup j (move_to_end k v d) ≡ (if e.beq k j then some v else lookup j d)
  unfolding move_to_end
  lookup-move_to_end k j v d =
      let gone : lookup k (remove k d) ≡ none =
        ground (arith, lookup-remove k k d, e.beq_iff k k) in
      ground (arith, lookup-append_last k j v (remove k d) gone, lookup-remove k j d)

  pub lookup-write_back :
      (k j : K) (v : V) (d : List (K × V))
      → lookup j (write_back k v d)
        ≡ (if e.beq k j then (if is_some (lookup k d) then some v else none) else lookup j d)
  unfolding lookup write_back
  lookup-write_back k j v [] = ground arith
  lookup-write_back k j v ((i, w) ∷ d) =
      ground (arith, lookup-write_back k j v d, e.beq_iff i k, e.beq_iff i j, e.beq_iff k j)

  -- While the dictionary is within its bound, nothing is dropped.
  pub trim-fits : (bound : ℕ) (d : List (K × V)) → length d ≤ bound → trim bound d ≡ d
  unfolding trim
  trim-fits bound d h = drop-zero (length d - bound) d (omega arith)
    where
      drop-zero : (n : ℕ) (xs : List (K × V)) → n ≡ 0 → drop n xs ≡ xs
      drop-zero zero xs p = refl
      drop-zero (suc n) xs p = absurd (omega arith)

module _ {ℓ κ} {K : Type ℓ} {V : Type κ} ⦃e : Eq K⦄ where
  lookup-drop_last :
      (k : K) (v : V) (n : ℕ) (d : List (K × V))
      → lookup k d ≡ none
      → n ≤ length d
      → lookup k (drop n (d ++ (k, v) ∷ [])) ≡ some v
  unfolding lookup
  lookup-drop_last k v zero d h p = ground (arith, lookup-append_last k k v d, e.beq_iff k k)
  lookup-drop_last k v (suc n) [] h p = absurd (omega arith)
  lookup-drop_last k v (suc n) ((j, w) ∷ d) h p =
      lookup-drop_last k v n d (ground arith) (omega arith)

  -- The entry that was touched last survives the trimming.
  pub lookup-trim_touched :
      (bound : ℕ) (k : K) (v : V) (d : List (K × V))
      → 1 ≤ bound
      → lookup k (trim bound (move_to_end k v d)) ≡ some v
  unfolding trim move_to_end
  lookup-trim_touched bound k v d h =
      lookup-drop_last k v (length (remove k d ++ (k, v) ∷ []) - bound) (remove k d)
        (ground (arith, lookup-remove k k d, e.beq_iff k k))
        (omega (arith, length-append (remove k d) ((k, v) ∷ [])))

  -- A write through the reference that a touch handed out is what the key then holds.
  pub lookup-touched :
      (bound : ℕ) (k : K) (v w : V) (d : List (K × V))
      → 1 ≤ bound
      → lookup k (write_back k w (trim bound (move_to_end k v d))) ≡ some w
  lookup-touched bound k v w d h = ground (
    arith,
    lookup-write_back k k w (trim bound (move_to_end k v d)),
    lookup-trim_touched bound k v d,
    e.beq_iff k k,
  )

  -- With room for one more entry, the other keys hold what they held.
  pub lookup-untouched :
      (bound : ℕ) (k j : K) (v w : V) (d : List (K × V))
      → length d < bound
      → e.beq k j ≡ false
      → lookup j (write_back k w (trim bound (move_to_end k v d))) ≡ lookup j d
  lookup-untouched bound k j v w d h p =
      rw (trim-fits bound (move_to_end k v d) (omega (arith, length-move_to_end k v d)))
        (ground (arith, lookup-write_back k j w (move_to_end k v d), lookup-move_to_end k j v d))

  pub length-touched :
      (bound : ℕ) (k : K) (v w : V) (d : List (K × V))
      → length (write_back k w (trim bound (move_to_end k v d))) ≤ bound
  length-touched bound k v w d = omega (
    arith,
    length-write_back k w (trim bound (move_to_end k v d)),
    length-trim bound (move_to_end k v d),
  )
