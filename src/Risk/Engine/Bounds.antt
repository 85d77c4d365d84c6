-- ===== src/Risk/Engine/Bounds.antt =====
-- The score, the band and the trust stay within their bounds.
use policy_guardrails_agent.Prelude.{ℕ, ◌≤◌, ◌≡◌, refl, arith}
use policy_guardrails_agent.Session.View.{SessionView}
use policy_guardrails_agent.Risk.Config.{band_rank}
use policy_guardrails_agent.Risk.Numerics.{Numerics}
use policy_guardrails_agent.Risk.Engine.{Request, assess, band_for, current_trust}

-- A higher score or a lower trust never gives a lower band.
pub band_for_mono :
    (s s' t t' : ℕ) → s ≤ s' → t' ≤ t → band_rank (band_for s t) ≤ band_rank (band_for s' t')
unfolding band_for
band_for_mono s s' t t' h k = ground arith

module _ (num : Numerics) where
  -- Behaviour never raises trust above the approved base.
  pub current_trust-le :
      (base : ℕ) (v : SessionView) (now : ℕ) → current_trust num base v now ≤ base
  unfolding current_trust
  current_trust-le base v now = ground arith

  -- The score lies between the inherent risk and 100, the trust is at most the base trust, and the
  -- band is that of the score and the trust.
  pub assess_bounds :
      (r : Request)
      → r.inherent ≤ 100
      → (r.inherent ≤ (assess num r).score)
        × ((assess num r).score ≤ 100)
        × ((assess num r).trust ≤ r.base_trust)
        × ((assess num r).band ≡ band_for (assess num r).score (assess num r).trust)
  unfolding assess
  assess_bounds r h = (omega arith, omega arith, current_trust-le r.base_trust r.view r.now, refl)
