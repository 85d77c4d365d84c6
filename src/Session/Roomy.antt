-- ===== src/Session/Roomy.antt =====
-- An ordered dictionary whose keys all fit within its bound: a touch of one key drops no other. The
-- store's dictionaries and those of the verification store are of this kind.
use policy_guardrails_agent.Prelude.{
  if◌then◌else◌, Bool-cases, is_some, length, length-append, Eq, lookup, remove, ℕ, ◌+◌, ◌≤◌, ◌≡◌,
  refl, sym, subst, inl, inr, Bool, true, false, ◌||◌, List, [], ◌∷◌, arith,
}
use policy_guardrails_agent.Session.Ordered.{
  move_to_end, write_back, length-write_back, trim, lookup-write_back, lookup-move_to_end,
  trim-fits,
}

module _ {ℓ κ} {K : Type ℓ} {V : Type κ} ⦃e : Eq K⦄ where
  -- how many of the keys stand in the dictionary
  abbrev pub found : List (K × V) → List K → ℕ
  found d [] = 0
  found d (k ∷ keys) = (if is_some (lookup k d) then 1 else 0) + found d keys

module _ {ℓ} {K : Type ℓ} ⦃e : Eq K⦄ where
  abbrev pub is_key : K → List K → Bool
  is_key k [] = false
  is_key k (j ∷ keys) = e.beq j k || is_key k keys

module _ {ℓ κ} {K : Type ℓ} {V : Type κ} ⦃e : Eq K⦄ where
  found_le : (d : List (K × V)) (keys : List K) → found d keys ≤ length keys
  found_le d [] = omega arith
  found_le d (k ∷ keys) = ground (arith, found_le d keys)

  length-remove_found :
      (k : K) (d : List (K × V))
      → length (remove k d) + (if is_some (lookup k d) then 1 else 0) ≤ length d
  unfolding remove lookup
  length-remove_found k [] = omega arith
  length-remove_found k ((j, w) ∷ d) = ground (arith, length-remove_found k d, e.beq_iff j k)

  -- the dictionary behind a touch of a key and a write through the reference
  abbrev touched : ℕ → K → V → V → List (K × V) → List (K × V)
  touched bound k v w d = write_back k w (trim bound (move_to_end k v d))

  found-moved :
      (k : K) (v : V) (d : List (K × V)) (keys : List K)
      → found d keys ≤ found (move_to_end k v d) keys
  found-moved k v d [] = omega arith
  found-moved k v d (j ∷ keys) = ground (arith, found-moved k v d keys, lookup-move_to_end k j v d)

  found-new :
      (k : K) (v : V) (d : List (K × V)) (keys : List K)
      → is_key k keys ≡ true
      → found d keys + (if is_some (lookup k d) then 0 else 1) ≤ found (move_to_end k v d) keys
  found-new k v d [] h = cc
  found-new k v d (j ∷ keys) h = elim (Bool-cases (e.beq j k)) [
    | inl y ↦
        subst
          (λ i.
            found d (i ∷ keys) + (if is_some (lookup k d) then 0 else 1)
            ≤ found (move_to_end k v d) (i ∷ keys))
          (sym ((e.beq_iff j k).0 y))
          (ground (arith, found-moved k v d keys, lookup-move_to_end k k v d, e.beq_iff k k))
    | inr n ↦ ground (arith, found-new k v d keys, lookup-move_to_end k j v d)
  ]

  found-written :
      (k : K) (w : V) (d : List (K × V)) (keys : List K)
      → found (write_back k w d) keys ≡ found d keys
  found-written k w d [] = refl
  found-written k w d (j ∷ keys) = elim (Bool-cases (e.beq k j)) [
    | inl y ↦
        subst (λ i. found (write_back k w d) (i ∷ keys) ≡ found d (i ∷ keys)) ((e.beq_iff k j).0 y)
          (ground (arith, found-written k w d keys, lookup-write_back k k w d, e.beq_iff k k))
    | inr n ↦ ground (arith, found-written k w d keys, lookup-write_back k j w d)
  ]

  -- the entries are of these keys, so there are no more of them
  abbrev pub IsRoomy : List K → List (K × V) → Type 0
  IsRoomy keys d = length d ≤ found d keys

  length-moved :
      (k : K) (v : V) (d : List (K × V)) (keys : List K)
      → is_key k keys ≡ true
      → IsRoomy keys d
      → length (move_to_end k v d) ≤ found (move_to_end k v d) keys
  length-moved k v d keys member roomy = omega (
    arith,
    length-moved_found,
    found-new k v d keys member,
    length-remove_found k d,
    one_or_none (is_some (lookup k d)),
  )
    where
      length-moved_found : length (move_to_end k v d) ≡ length (remove k d) + 1
      length-moved_found = unfold move_to_end in length-append (remove k d) ((k, v) ∷ [])

      one_or_none : (b : Bool) → (if b then 1 else 0) + (if b then 0 else 1) ≡ 1
      one_or_none true = refl
      one_or_none false = refl

  kept_all :
      (bound : ℕ) (k : K) (v : V) (d : List (K × V)) (keys : List K)
      → length keys ≤ bound
      → is_key k keys ≡ true
      → IsRoomy keys d
      → trim bound (move_to_end k v d) ≡ move_to_end k v d
  kept_all bound k v d keys fits member roomy =
      trim-fits bound (move_to_end k v d)
        (omega (arith, length-moved k v d keys member roomy, found_le (move_to_end k v d) keys))

  pub touched-IsRoomy :
      (bound : ℕ) (k : K) (v w : V) (d : List (K × V)) (keys : List K)
      → length keys ≤ bound
      → is_key k keys ≡ true
      → IsRoomy keys d
      → IsRoomy keys (touched bound k v w d)
  touched-IsRoomy bound k v w d keys fits member roomy =
      rw (kept_all bound k v d keys fits member roomy) (
        omega (
          arith,
          length-write_back k w (move_to_end k v d),
          found-written k w (move_to_end k v d) keys,
          length-moved k v d keys member roomy,
        ))

  pub lookup-other :
      (bound : ℕ) (k j : K) (v w : V) (d : List (K × V)) (keys : List K)
      → length keys ≤ bound
      → is_key k keys ≡ true
      → IsRoomy keys d
      → e.beq k j ≡ false
      → lookup j (touched bound k v w d) ≡ lookup j d
  lookup-other bound k j v w d keys fits member roomy apart =
      rw (kept_all bound k v d keys fits member roomy)
        (ground (arith, lookup-write_back k j w (move_to_end k v d), lookup-move_to_end k j v d))
