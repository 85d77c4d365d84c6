-- ===== src/Gateway/RateLimit/Roomy.antt =====
-- While the keys fit into the limiter, a check changes the bucket of its key and no other.
use policy_guardrails_agent.Prelude.{
  if◌then◌else◌, ltb, leb, Bool-cases, is_some, length, str_eq, eq_iff, mem, lookup, put, ℕ, ◌+◌,
  ◌≤◌, String, ◌≡◌, refl, subst, inl, inr, true, false, Option, none, some, List, [], ◌∷◌, arith,
}
use policy_guardrails_agent.Session.Keys.{string_eq}
use policy_guardrails_agent.Gateway.RateLimit.{
  Bucket, RateLimiter, check, limit_for, spend, bucket_or_full, wait_for,
}

-- how many of the keys have a bucket
abbrev pub found : List (String × Bucket) → List String → ℕ
found m [] = 0
found m (k ∷ keys) = (if is_some (lookup k m) then 1 else 0) + found m keys

pub found_le : (m : List (String × Bucket)) (keys : List String) → found m keys ≤ length keys
found_le m [] = omega arith
found_le m (k ∷ keys) = ground (arith, found_le m keys)

pub lookup-put_bucket :
    (k j : String) (b : Bucket) (m : List (String × Bucket))
    → lookup j (put k b m) ≡ (if str_eq k j then some b else lookup j m)
unfolding lookup put
lookup-put_bucket k j b [] = refl
lookup-put_bucket k j b ((i, w) ∷ m) =
    ground (arith, lookup-put_bucket k j b m, eq_iff i k, eq_iff i j, eq_iff k j)

length-put :
    (k : String) (b : Bucket) (m : List (String × Bucket))
    → length (put k b m) ≡ length m + (if is_some (lookup k m) then 0 else 1)
unfolding lookup put
length-put k b [] = refl
length-put k b ((i, w) ∷ m) = ground (arith, length-put k b m)

found_mono :
    (k : String) (b : Bucket) (m : List (String × Bucket)) (keys : List String)
    → found m keys ≤ found (put k b m) keys
found_mono k b m [] = omega arith
found_mono k b m (j ∷ keys) = ground (arith, found_mono k b m keys, lookup-put_bucket k j b m)

found-put :
    (k : String) (b : Bucket) (m : List (String × Bucket)) (keys : List String)
    → mem k keys ≡ true
    → found m keys + (if is_some (lookup k m) then 0 else 1) ≤ found (put k b m) keys
found-put k b m [] h = cc
found-put k b m (j ∷ keys) h = elim (Bool-cases (str_eq k j)) [
  | inl y ↦
      subst
        (λ i.
          found m (i ∷ keys) + (if is_some (lookup k m) then 0 else 1)
          ≤ found (put k b m) (i ∷ keys))
        ((eq_iff k j).0 y)
        (ground (arith, found_mono k b m keys, lookup-put_bucket k k b m, eq_iff k k))
  | inr n ↦ ground (arith, found-put k b m keys, lookup-put_bucket k j b m, eq_iff j k)
]

-- the buckets are of these keys, so there are no more of them
abbrev pub IsRoomy : List String → RateLimiter → Type 0
IsRoomy keys r = length r.buckets ≤ found r.buckets keys

-- while the keys fit, a check changes the bucket of its key and no other
pub check_lem :
    (keys : List String) (k : String) (override : Option ℕ) (now : ℕ) (r : RateLimiter)
    → length keys ≤ r.max_keys
    → mem k keys ≡ true
    → IsRoomy keys r
    → 1 ≤ limit_for r override
    → let per_minute = limit_for r override in
      let s = spend per_minute now (bucket_or_full per_minute now (lookup k r.buckets)) in
      check k override now r ≡ (
        if s.0 then none else wait_for per_minute s.1.tokens,
        record r { buckets = put k s.1 r.buckets },
      )
unfolding check
check_lem keys k override now r fits member roomy limited =
    let per_minute = limit_for r override in
    let b = (spend per_minute now (bucket_or_full per_minute now (lookup k r.buckets))).1 in
    let small : ltb r.max_keys (length (put k b r.buckets)) ≡ false = ground (
      arith,
      length-put k b r.buckets,
      found-put k b r.buckets keys member,
      found_le (put k b r.buckets) keys,
    ) in
    let on : leb per_minute 0 ≡ false = ground arith in rw (small, on) refl

pub put-IsRoomy :
    (keys : List String) (k : String) (b : Bucket) (r : RateLimiter)
    → mem k keys ≡ true
    → IsRoomy keys r
    → IsRoomy keys (record r { buckets = put k b r.buckets })
put-IsRoomy keys k b r member roomy =
    omega (arith, length-put k b r.buckets, found-put k b r.buckets keys member)
