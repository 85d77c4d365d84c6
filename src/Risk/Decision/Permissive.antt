-- ===== src/Risk/Decision/Permissive.antt =====
-- When the decision table lets a request through, and what it then asks of the caller.
use policy_guardrails_agent.Prelude.{◌≤◌, ◌≡◌, ◌↔◌, ◌⊎◌, true, false, [], ◌∷◌, arith}
use policy_guardrails_agent.Sdk.Models.{precedence}
use policy_guardrails_agent.Risk.Decision.{Facts, decide, risk_outcome, is_allowing, legacy}

-- The band and the descriptor ask for something that is no outright verification or hold.
abbrev pub MayPass : Facts → Type 0
MayPass f =
    (f.policy_allow ≡ true)
    × (f.quarantined ≡ false)
    × (precedence f.engine_decision ≤ 1)
    × (f.advisor_verify ≡ false)
    × (is_allowing (risk_outcome f.band f.descriptor f.cfg).outcome ≡ true)
    × (((risk_outcome f.band f.descriptor f.cfg).obligations ≡ []) ⊎ (f.accepts_obligations ≡ true))

-- A request passes the decision table exactly when the policy allows it, its session is not
-- quarantined, the guardrails allow or modify it, no enforcing advisor asks for evidence, the risk
-- band's own answer is an allowing one, and the caller accepts the obligations, if there are any.
pub decide_allows_iff : (f : Facts) → (is_allowing (decide f).outcome ≡ true) ↔ MayPass f
unfolding decide
decide_allows_iff f = (λ h. ground arith, λ h. ground arith)

-- The final decision is never weaker, in the order allow, modify, escalate, block, than what the
-- guardrails decided; for a request that the policy denies or a quarantined session too.
pub engine-le-decide : (f : Facts) → precedence f.engine_decision ≤ precedence (legacy (decide f))
unfolding decide
engine-le-decide f = ground arith

-- Obligations leave the table only with an allowing outcome, and only for a caller that accepts
-- obligations; what they ask for is the configured row limit.
pub decide-obligations :
    (f : Facts)
    → ((decide f).obligations ≡ [])
      ⊎ ((is_allowing (decide f).outcome ≡ true)
          × (f.accepts_obligations ≡ true)
          × ((decide f).obligations ≡ ("row_limit", f.cfg.elevated_row_limit) ∷ []))
unfolding decide
decide-obligations f = ground arith
