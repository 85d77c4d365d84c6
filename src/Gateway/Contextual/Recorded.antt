-- ===== src/Gateway/Contextual/Recorded.antt =====
-- What a decision leaves in the session, and what an advisor's answer does to an assessment.
use policy_guardrails_agent.Prelude.{
  ltb, Bool-cases, ℕ, ◌+◌, ◌≤◌, min, ◌≡◌, refl, ◌⊎◌, inl, inr, true, false, none, [], arith,
}
use policy_guardrails_agent.Sdk.Models.{Decision}
use policy_guardrails_agent.Context.Descriptors.{ActionDescriptor}
use policy_guardrails_agent.Session.View.{SessionView, SessionUpdate}
use policy_guardrails_agent.Risk.Config.{RiskConfig, band_rank}
use policy_guardrails_agent.Risk.Engine.{Assessment, band_for}
use policy_guardrails_agent.Risk.Engine.Bounds.{band_for_mono}
use policy_guardrails_agent.Advise.Panel.{Advisory}
use policy_guardrails_agent.Gateway.Contextual.{RiskMode, enforcing, Recording, update_of, raised}

-- A request that was not released teaches nothing and leaves no label; a session or an agent is
-- quarantined only where a denied request is recorded in enforce mode; nothing is denied and
-- allowed at once.
pub update_of_lem :
    (cfg : RiskConfig) (mode : RiskMode) (now : ℕ) (r : Recording) (d : ActionDescriptor)
    (view : SessionView) (final : Decision)
    → let u = update_of cfg mode now r d view final in
      ((u.allowed ≡ true)
        ⊎ ((u.labels ≡ []) × (u.target ≡ none) × (u.volume_key ≡ none) × (u.rows ≡ none)))
      × (((u.denied ≡ true) × (enforcing mode ≡ true))
          ⊎ ((u.quarantine_seconds ≡ 0) × (u.agent_quarantine_seconds ≡ 0)))
      × ((u.denied ≡ false) ⊎ (u.allowed ≡ false))
unfolding update_of
update_of_lem cfg mode now r d view Decision.block =
    (inr (refl, refl, refl, refl), blocked, inr refl)
  where
    u : SessionUpdate
    u = update_of cfg mode now r d view Decision.block

    blocked :
        ((u.denied ≡ true) × (enforcing mode ≡ true))
        ⊎ ((u.quarantine_seconds ≡ 0) × (u.agent_quarantine_seconds ≡ 0))
    blocked = elim (Bool-cases (enforcing mode)) [
      | inl e ↦ inl (refl, e)
      | inr e ↦ rw e (inr (refl, refl))
    ]
update_of_lem cfg mode now r d view Decision.escalate =
    (inr (refl, refl, refl, refl), inr (refl, refl), inl refl)
update_of_lem cfg mode now r d view Decision.allow = (inl refl, inr (refl, refl), inl refl)
update_of_lem cfg mode now r d view Decision.modify = (inl refl, inr (refl, refl), inl refl)

-- Advisors never lower the score or the band of an assessment, and never touch the trust, where
-- the score is at most 100 and the band is that of the score and the trust.
pub raised-ge :
    (adv : Advisory) (a : Assessment)
    → a.score ≤ 100
    → a.band ≡ band_for a.score a.trust
    → (a.score ≤ (raised adv a).score)
      × (band_rank a.band ≤ band_rank (raised adv a).band)
      × ((raised adv a).trust ≡ a.trust)
unfolding raised
raised-ge adv a h e = elim (Bool-cases (ltb 0 adv.points)) [
  | inr z ↦ rw z (omega arith, omega arith, refl)
  | inl p ↦
      rw (p, e)
        (
          omega arith,
          band_for_mono a.score (min 100 (a.score + adv.points)) a.trust a.trust (omega arith)
              (omega arith),
          refl,
        )
]
