-- ===== src/Risk/Numerics.antt =====
-- The floating-point functions of Python's `math` module and `round` that the risk engine calls.
-- They are a parameter: `Float` is the type of doubles, and each operation is one expression of
-- services/guardrail-gateway/app/risk/engine.py or app/session/store.py.
use policy_guardrails_agent.Prelude.{ℕ}
use policy_guardrails_agent.Prelude.Int.{ℤ}

pub record Numerics : Type 1 where
  pub Float : Type 0
  pub nought : Float
  pub plus : Float → Float → Float
  -- points * math.pow(2, -(age / 86400) / half_life_days), at an age in seconds
  pub decayed : ℕ → ℕ → ℕ → Float
  -- round(base - lost)
  pub round_less : ℕ → Float → ℤ
  -- round(8 * math.log2(rows / p95))
  pub log_points : ℕ → ℕ → ℕ
  -- round(penalty * (1 - confidence)), at a confidence in hundredths
  pub share : ℕ → ℕ → ℕ
