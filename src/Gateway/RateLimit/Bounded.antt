-- ===== src/Gateway/RateLimit/Bounded.antt =====
-- How many requests a key gets through.
use policy_guardrails_agent.Prelude.{
  if◌then◌else◌, leb, leb→le, Bool-cases, is_some, length, All, str_eq, eq_iff, mem, lookup, put, ℕ,
  ◌+◌, ◌-◌, ◌*◌, ◌≤◌, String, ◌≡◌, refl, sym, ◌∙◌, subst, inl, inr, true, false, not, ◌&&◌, Option,
  none, some, List, [], ◌∷◌, arith,
}
use policy_guardrails_agent.Session.Keys.{string_eq}
use policy_guardrails_agent.Gateway.RateLimit.{
  Bucket, limit_for, check, RateLimiter, check_all, fresh_limiter, unit, spend, bucket_or_full,
}
use policy_guardrails_agent.Gateway.RateLimit.Roomy.{
  IsRoomy, lookup-put_bucket, check_lem, put-IsRoomy,
}
use policy_guardrails_agent.Gateway.RateLimit.Credit.{
  credit, Past-later, Past, credit-later, gain-append, spend-last, spend-credit,
}

-- the times go forward
abbrev pub Forward : ℕ → List (String × ℕ) → Type 0
Forward t [] = Unit
Forward t (c ∷ calls) = (t ≤ c.1) × Forward c.1 calls

abbrev pub end_of : ℕ → List (String × ℕ) → ℕ
end_of t [] = t
end_of t (c ∷ calls) = end_of c.1 calls

end_after : (t : ℕ) (calls : List (String × ℕ)) → Forward t calls → t ≤ end_of t calls
end_after t [] f = omega arith
end_after t (c ∷ calls) f = omega (arith, f.0, end_after c.1 calls f.1)

-- the calls come with these keys
abbrev pub Known : List String → List (String × ℕ) → Type 0
Known keys = All (λ (c : String × ℕ). mem c.0 keys ≡ true)

-- whether the answer lets this key through
abbrev let_through : String → String → Option ℕ → ℕ
let_through key_id k answer = if str_eq k key_id && not (is_some answer) then 1 else 0

module _ (keys : List String) (limits : String → Option ℕ) (key_id : String) where
  -- the store fits the keys, and the bucket of the key is of a time gone by
  record IsReady (per_minute t : ℕ) (r : RateLimiter) : Type 0 where
    fits : length keys ≤ r.max_keys
    roomy : IsRoomy keys r
    limited : limit_for r (limits key_id) ≡ per_minute
    past : Past t (lookup key_id r.buckets)

  abbrev Spends : ℕ → ℕ → RateLimiter → ℕ → RateLimiter → Type 0
  Spends per_minute now r n r' =
      n * unit + credit per_minute now (lookup key_id r'.buckets)
      ≤ credit per_minute now (lookup key_id r.buckets)

  unlimited :
      (k : String) (override : Option ℕ) (now : ℕ) (r : RateLimiter)
      → limit_for r override ≡ 0
      → check k override now r ≡ (none, r)
  unfolding check
  unlimited k override now r e = ground arith

  limit_same :
      (r : RateLimiter) (d : List (String × Bucket)) (o : Option ℕ)
      → limit_for (record r { buckets = d }) o ≡ limit_for r o
  limit_same r d none = refl
  limit_same r d (some n) = refl

  -- a check of the key
  own :
      (per_minute now : ℕ) (r : RateLimiter)
      → 1 ≤ per_minute
      → mem key_id keys ≡ true
      → IsReady per_minute now r
      → IsReady per_minute now (check key_id (limits key_id) now r).1
        × Spends per_minute now r
            (let_through key_id key_id (check key_id (limits key_id) now r).0)
            (check key_id (limits key_id) now r).1
  own per_minute now r limited member i =
      let old = lookup key_id r.buckets in
      let s = spend per_minute now (bucket_or_full per_minute now old) in
      let found : lookup key_id (put key_id s.1 r.buckets) ≡ some s.1 =
        ground (arith, lookup-put_bucket key_id key_id s.1 r.buckets, eq_iff key_id key_id) in
      let last : s.1.last ≡ now = spend-last per_minute now (bucket_or_full per_minute now old) in
      rw
        (
          check_lem keys key_id (limits key_id) now r i.fits member i.roomy (rw i.limited limited),
          i.limited,
        )
        (
          record {
            fits = i.fits;
            roomy = put-IsRoomy keys key_id s.1 r member i.roomy;
            limited = limit_same r (put key_id s.1 r.buckets) (limits key_id) ∙ i.limited;
            past = rw found (omega (arith, last));
          },
          rw found (ground (arith, spend-credit per_minute now old i.past, eq_iff key_id key_id)),
        )

  -- a check of another key
  other :
      (per_minute now : ℕ) (k : String) (r : RateLimiter)
      → str_eq k key_id ≡ false
      → mem k keys ≡ true
      → IsReady per_minute now r
      → IsReady per_minute now (check k (limits k) now r).1
        × Spends per_minute now r
            (let_through key_id k (check k (limits k) now r).0)
            (check k (limits k) now r).1
  other per_minute now k r apart member i = elim (Bool-cases (leb (limit_for r (limits k)) 0)) [
    | inl off ↦
        rw (unlimited k (limits k) now r (omega (arith, leb→le _ 0 off)), apart) (i, omega arith)
    | inr on ↦
        let pm = limit_for r (limits k) in
        let s = spend pm now (bucket_or_full pm now (lookup k r.buckets)) in
        let same : lookup key_id (put k s.1 r.buckets) ≡ lookup key_id r.buckets =
          ground (arith, lookup-put_bucket k key_id s.1 r.buckets) in
        rw (check_lem keys k (limits k) now r i.fits member i.roomy (ground arith), apart)
          (
            record {
              fits = i.fits;
              roomy = put-IsRoomy keys k s.1 r member i.roomy;
              limited = limit_same r (put k s.1 r.buckets) (limits key_id) ∙ i.limited;
              past = rw same i.past;
            },
            rw same (omega arith),
          )
  ]

  each :
      (per_minute now : ℕ) (k : String) (r : RateLimiter)
      → 1 ≤ per_minute
      → mem k keys ≡ true
      → IsReady per_minute now r
      → IsReady per_minute now (check k (limits k) now r).1
        × Spends per_minute now r
            (let_through key_id k (check k (limits k) now r).0)
            (check k (limits k) now r).1
  each per_minute now k r limited member i = elim (Bool-cases (str_eq k key_id)) [
    | inl y ↦
        subst
          (λ j.
            IsReady per_minute now (check j (limits j) now r).1
            × Spends per_minute now r (let_through key_id j (check j (limits j) now r).0)
                (check j (limits j) now r).1)
          (sym ((eq_iff k key_id).0 y))
          (own per_minute now r limited
            (subst (λ j. mem j keys ≡ true) ((eq_iff k key_id).0 y) member) i)
    | inr n ↦ other per_minute now k r n member i
  ]

  later-IsReady :
      (per_minute t now : ℕ) (r : RateLimiter)
      → t ≤ now
      → IsReady per_minute t r
      → IsReady per_minute now r
  later-IsReady per_minute t now r h i = record {
    fits = i.fits;
    roomy = i.roomy;
    limited = i.limited;
    past = Past-later t now (lookup key_id r.buckets) h i.past;
  }

  check_all-bound :
      (per_minute t : ℕ) (calls : List (String × ℕ)) (r : RateLimiter)
      → 1 ≤ per_minute
      → Forward t calls
      → Known keys calls
      → IsReady per_minute t r
      → (check_all limits key_id calls r).0 * unit
        ≤ credit per_minute t (lookup key_id r.buckets) + (end_of t calls - t) * per_minute
  unfolding check_all
  check_all-bound per_minute t [] r limited f known i = omega arith
  check_all-bound per_minute t ((k, now) ∷ calls) r limited f known i =
      let answered = check k (limits k) now r in
      let (ready, spent) =
        each per_minute now k r limited known.0 (later-IsReady per_minute t now r f.0 i) in
      summed (let_through key_id k answered.0) (check_all limits key_id calls answered.1).0
        (credit per_minute now (lookup key_id answered.1.buckets)) _ _ ((now - t) * per_minute)
        ((end_of now calls - now) * per_minute) _ spent
        (check_all-bound per_minute now calls answered.1 limited f.1 known.1 ready)
        (credit-later per_minute t now (lookup key_id r.buckets) f.0 i.past)
        (gain-append per_minute t now (end_of now calls) f.0 (end_after now calls f.1))
    where
      summed :
          (a n x y z g k m : ℕ)
          → a * unit + x ≤ y
          → n * unit ≤ x + k
          → y ≤ z + g
          → g + k ≡ m
          → (a + n) * unit ≤ z + m
      summed a n x y z g k m p q r s = omega arith

-- What `check` lets a key through. From a start with no bucket, over checks of this and other keys
-- whose times go forward, a key whose limit is at least one per minute gets through no more requests
-- than one minute of its limit and what its limit adds in the time that passes. There are no more
-- keys than the limiter holds, so that no bucket is forgotten early, and a key's limit stays the same.
pub allowed_bound :
    (default max_keys t : ℕ) (limits : String → Option ℕ) (key_id : String) (keys : List String)
    (calls : List (String × ℕ))
    → 1 ≤ limit_for (fresh_limiter default max_keys) (limits key_id)
    → length keys ≤ max_keys
    → Known keys calls
    → Forward t calls
    → let per_minute = limit_for (fresh_limiter default max_keys) (limits key_id) in
      (check_all limits key_id calls (fresh_limiter default max_keys)).0 * unit
      ≤ per_minute * unit + (end_of t calls - t) * per_minute
unfolding lookup
allowed_bound default max_keys t limits key_id keys calls limited fits known f =
    check_all-bound keys limits key_id (limit_for (fresh_limiter default max_keys) (limits key_id))
      t calls (fresh_limiter default max_keys) limited f known
      (record { fits = fits; roomy = omega arith; limited = refl; past = tt })
