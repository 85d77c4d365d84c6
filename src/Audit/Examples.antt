-- ===== src/Audit/Examples.antt =====
-- The audit chain at concrete events; the digest here is the event itself.
use policy_guardrails_agent.Prelude.{lookup, String, ◌≡◌, refl, none, [], ◌∷◌}
use policy_guardrails_agent.Session.Keys.{string_eq}
use policy_guardrails_agent.Audit.Chain.{Chained, AuditChain, stamp_all, add_all, fresh_verifier}
use policy_guardrails_agent.Audit.Chain.Verified.{verify-stamp}

abbrev digest : Chained String → String
digest f = f.body

abbrev fresh : AuditChain
fresh = record { chain_id = "c1"; heads = [] }

no_heads : lookup "acme" fresh.heads ≡ none
unfolding lookup
no_heads = refl

verify-stamp_example :
    (add_all digest fresh_verifier
      (stamp_all digest fresh "acme" ("allowed" ∷ "denied" ∷ [])).0).problems
    ≡ []
verify-stamp_example = verify-stamp digest "acme" fresh ("allowed" ∷ "denied" ∷ []) refl no_heads
