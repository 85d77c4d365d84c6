-- ===== src/Gateway/RateLimit/Credit.antt =====
-- What a key may still spend: its tokens, what its limit adds in time, and why a bucket may be
-- forgotten.
use native.Mathlib.Nat.{add-mul, mul_comm}
use policy_guardrails_agent.Prelude.{
  if◌then◌else◌, leb, leb→le, Bool-cases, ℕ, ◌+◌, ◌-◌, ◌*◌, ◌≤◌, min, ◌≡◌, refl, ap, inl, inr,
  false, Option, none, some, arith,
}
use policy_guardrails_agent.Session.Keys.{string_eq}
use policy_guardrails_agent.Gateway.RateLimit.{
  Bucket, unit, spend, capacity, refilled, is_recent, bucket_or_full,
}

idle : (now : ℕ) (b : Bucket) → is_recent now b ≡ false → b.last + unit ≤ now
idle now b h = ground arith

-- a full minute of the limit
gained :
    (per_minute now last : ℕ) → last + unit ≤ now → per_minute * unit ≤ (now - last) * per_minute
gained per_minute now last h =
    let d = now - last - unit in
    let split : (now - last) ≡ unit + d = omega arith in
    omega
      (arith, ap (λ z. z * per_minute) split, add-mul unit d per_minute, mul_comm per_minute unit)

-- A bucket that was not used for a minute is full again, so forgetting it changes nothing.
pub forgotten_lem :
    (per_minute now : ℕ) (b : Bucket)
    → is_recent now b ≡ false
    → refilled per_minute now b ≡ refilled per_minute now (bucket_or_full per_minute now none)
unfolding refilled
forgotten_lem per_minute now b h =
    full_tests (capacity per_minute) (b.tokens + (now - b.last) * per_minute)
      ((now - now) * per_minute) (omega (arith, gained per_minute now b.last (idle now b h)))
  where
    full_tests : (c x z : ℕ) → c ≤ x → min c x ≡ min c (c + z)
    full_tests c x z h = omega arith

spend-bound :
    (per_minute now : ℕ) (b : Bucket)
    → b.last ≤ now
    → ((if (spend per_minute now b).0 then 1 else 0) * unit + (spend per_minute now b).1.tokens
        ≤ b.tokens + (now - b.last) * per_minute)
unfolding spend refilled
spend-bound per_minute now b h = elim (Bool-cases (leb unit (refilled per_minute now b))) [
  | inl e ↦ rw e (omega (arith, leb→le unit (refilled per_minute now b) e))
  | inr e ↦ rw e (omega arith)
]

pub spend-last : (per_minute now : ℕ) (b : Bucket) → (spend per_minute now b).1.last ≡ now
unfolding spend
spend-last per_minute now b = elim (Bool-cases (leb unit (refilled per_minute now b))) [
  | inl e ↦ rw e refl
  | inr e ↦ rw e refl
]

-- the gain of two stretches of time
pub gain-append : (p a b c : ℕ) → a ≤ b → b ≤ c → (b - a) * p + (c - b) * p ≡ (c - a) * p
gain-append p a b c h k =
    let split : (c - a) ≡ (b - a) + (c - b) = omega arith in
    omega (arith, ap (λ z. z * p) split, add-mul (b - a) (c - b) p)

-- what the key may still spend at this time
abbrev pub credit : ℕ → ℕ → Option Bucket → ℕ
credit per_minute t none = capacity per_minute
credit per_minute t (some b) = b.tokens + (t - b.last) * per_minute

abbrev pub Past : ℕ → Option Bucket → Type 0
Past t none = Unit
Past t (some b) = b.last ≤ t

pub Past-later : (t now : ℕ) (o : Option Bucket) → t ≤ now → Past t o → Past now o
Past-later t now none h p = tt
Past-later t now (some b) h p = omega arith

pub credit-later :
    (per_minute t now : ℕ) (o : Option Bucket)
    → t ≤ now
    → Past t o
    → credit per_minute now o ≤ credit per_minute t o + (now - t) * per_minute
credit-later per_minute t now none h p = omega arith
credit-later per_minute t now (some b) h p = omega (arith, gain-append per_minute b.last t now p h)

nothing_gained : (per_minute now : ℕ) → (now - now) * per_minute ≡ 0
nothing_gained per_minute now = let z : now - now ≡ 0 = omega arith in rw z (omega arith)

credit_now :
    (per_minute now : ℕ) (b : Bucket) → b.last ≡ now → credit per_minute now (some b) ≡ b.tokens
credit_now per_minute now b e = rw e (omega (arith, nothing_gained per_minute now))

pub spend-credit :
    (per_minute now : ℕ) (o : Option Bucket)
    → Past now o
    → let s = spend per_minute now (bucket_or_full per_minute now o) in
      (if s.0 then 1 else 0) * unit + credit per_minute now (some s.1) ≤ credit per_minute now o
spend-credit per_minute now none p =
    let full = bucket_or_full per_minute now none in
    omega (
      arith,
      credit_now per_minute now (spend per_minute now full).1 (spend-last per_minute now full),
      spend-bound per_minute now full (omega arith),
      nothing_gained per_minute now,
    )
spend-credit per_minute now (some b) p = omega (
  arith,
  credit_now per_minute now (spend per_minute now b).1 (spend-last per_minute now b),
  spend-bound per_minute now b p,
)
