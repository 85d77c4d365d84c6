-- ===== src/Gateway/Limits.antt =====
-- A key with a limit of two requests per minute, beside a key without a limit.
use policy_guardrails_agent.Prelude.{
  if◌then◌else◌, str_eq, lookup, put, ℕ, ◌+◌, ◌-◌, ◌*◌, ◌≤◌, String, ◌≡◌, refl, Option, some, List,
  [], ◌∷◌, arith,
}
use policy_guardrails_agent.Session.Keys.{string_eq}
use policy_guardrails_agent.Gateway.RateLimit.{check_all, fresh_limiter, unit}
use policy_guardrails_agent.Gateway.RateLimit.Bounded.{end_of, allowed_bound}

abbrev two_keys : String → Option ℕ
two_keys k = if str_eq k "k1" then some 2 else some 0

abbrev calls : List (String × ℕ)
calls = ("k1", 0) ∷ ("k2", 5) ∷ ("k1", 10) ∷ ("k1", 20) ∷ ("k2", 25) ∷ ("k1", 30000) ∷ []

three_of_four : (check_all two_keys "k1" calls (fresh_limiter 600 10)).0 ≡ 3
unfolding check_all lookup put
three_of_four = refl

allowed_bound_example :
    (check_all two_keys "k1" calls (fresh_limiter 600 10)).0 * unit
    ≤ 2 * unit + (end_of 0 calls - 0) * 2
allowed_bound_example =
    allowed_bound 600 10 0 two_keys "k1" ("k1" ∷ "k2" ∷ []) calls (omega arith) (omega arith)
      (refl, (refl, (refl, (refl, (refl, (refl, tt))))))
      (omega arith, (omega arith, (omega arith, (omega arith, (omega arith, (omega arith, tt))))))
