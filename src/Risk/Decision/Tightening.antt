-- ===== src/Risk/Decision/Tightening.antt =====
-- What an advisor, a higher band or a missing verifier does to the outcome.
use policy_guardrails_agent.Prelude.{
  Bool-cases, ℕ, ◌≤◌, ◌<◌, ◌≡◌, ◌≢◌, ◌⊎◌, inl, inr, Bool, true, false, [], arith,
}
use policy_guardrails_agent.Sdk.Models.{Decision}
use policy_guardrails_agent.Context.Descriptors.{Kind, Verb, ActionDescriptor}
use policy_guardrails_agent.Risk.Config.{Band, band_rank, RiskConfig}
use policy_guardrails_agent.Risk.Decision.{
  Outcome, Facts, decide, order_index, is_big, with_verification, risk_outcome, with_advisor,
  combined, result, TableResult, with_obligations,
}

abbrev pub advised : Facts → Bool → Facts
advised f b = record f { advisor_verify = b }

-- the outcome behind the steps that follow the advisor's
abbrev settled : Facts → TableResult → ℕ
settled f t =
    order_index
      (with_obligations f.accepts_obligations
        (with_verification f.verification_available t)).outcome

settled-with_advisor :
    (f : Facts) (t : TableResult)
    → (f.accepts_obligations ≡ true) ⊎ (f.verification_available ≡ false)
    → settled f t ≤ settled f (with_advisor true t)
settled-with_advisor f t h = ground arith

-- Where the caller accepts obligations, or no verifier is configured, an advisor's request for
-- evidence never makes the outcome weaker.
pub advised-ge :
    (f : Facts)
    → (f.accepts_obligations ≡ true) ⊎ (f.verification_available ≡ false)
    → order_index (decide (advised f false)).outcome ≤ order_index (decide (advised f true)).outcome
unfolding decide
advised-ge f h = elim (Bool-cases f.policy_allow) [
  | inr denied ↦ rw denied (omega arith)
  | inl p ↦ elim (Bool-cases f.quarantined) [
    | inl q ↦ rw (p, q) (omega arith)
    | inr q ↦
        rw (p, q)
          (settled-with_advisor f
            (combined (risk_outcome f.band f.descriptor f.cfg) f.engine_decision) h)
  ]
]

-- an elevated read of an SQL table that asks for more rows than the row limit, with nothing else
-- against it, by a caller that cannot take obligations
pub record IsUnsupportedRead (f : Facts) : Type 0 where
  pub allowed : f.policy_allow ≡ true
  pub calm : f.quarantined ≡ false
  pub elevated : f.band ≡ Band.elevated
  pub sql : f.descriptor.kind ≡ Kind.sql
  pub read : f.descriptor.verb ≡ Verb.read
  pub big : is_big f.descriptor.rows_requested f.cfg.elevated_row_limit ≡ true
  pub passed : f.engine_decision ≡ Decision.allow
  pub deaf : f.accepts_obligations ≡ false
  pub verifier : f.verification_available ≡ true

-- For an elevated, oversized SQL read of a caller that does not accept obligations, on a gateway
-- with a verification engine, an advisor's request for evidence turns a `hold` into the weaker
-- outcome `verify`.
pub advised_weakens :
    (f : Facts)
    → IsUnsupportedRead f
    → ((decide (advised f false)).outcome ≡ Outcome.hold)
      × ((decide (advised f true)).outcome ≡ Outcome.verify)
      × (order_index (decide (advised f true)).outcome
          < order_index (decide (advised f false)).outcome)
unfolding decide
advised_weakens f h = ground arith

abbrev pub banded : Facts → Band → Facts
banded f b = record f { band = b }

-- the outcome that the later steps make of the two answers, for a caller that accepts obligations
abbrev settle : Outcome → Decision → Bool → Bool → ℕ
settle r e advisor available =
    order_index
      (with_verification available (with_advisor advisor (combined (result r [] []) e))).outcome

settle_mono :
    (r s : Outcome) (e : Decision) (advisor available : Bool)
    → r ≢ Outcome.throttle
    → s ≢ Outcome.throttle
    → order_index r ≤ order_index s
    → settle r e advisor available ≤ settle s e advisor available
settle_mono r s e advisor available tr ts h = ground arith

risk_outcome_mono :
    (d : ActionDescriptor) (cfg : RiskConfig) (b c : Band)
    → band_rank b ≤ band_rank c
    → order_index (risk_outcome b d cfg).outcome ≤ order_index (risk_outcome c d cfg).outcome
unfolding risk_outcome
risk_outcome_mono d cfg b c h = ground arith

risk_outcome-ne-throttle :
    (b : Band) (d : ActionDescriptor) (cfg : RiskConfig)
    → (risk_outcome b d cfg).outcome ≢ Outcome.throttle
unfolding risk_outcome
risk_outcome-ne-throttle b d cfg = ground arith

with_obligations-accepted : (r : TableResult) → with_obligations true r ≡ r
with_obligations-accepted r = ground arith

settle_lem :
    (r : TableResult) (e : Decision) (advisor available : Bool)
    → order_index (with_verification available (with_advisor advisor (combined r e))).outcome
      ≡ settle r.outcome e advisor available
settle_lem r e advisor available = ground arith

-- with obligations accepted, `decide` is the policy, the quarantine and `settle`
decide-settle :
    (f : Facts)
    → f.accepts_obligations ≡ true
    → f.policy_allow ≡ true
    → f.quarantined ≡ false
    → order_index (decide f).outcome
      ≡ settle
          (risk_outcome f.band f.descriptor f.cfg).outcome
          f.engine_decision
          f.advisor_verify
          f.verification_available
unfolding decide
decide-settle f h p q =
    rw (p, q, h, with_obligations-accepted)
      (settle_lem (risk_outcome f.band f.descriptor f.cfg) f.engine_decision f.advisor_verify
        f.verification_available)

-- Where the caller accepts obligations, a higher risk band never gives a weaker outcome.
pub banded_mono :
    (f : Facts) (b c : Band)
    → f.accepts_obligations ≡ true
    → band_rank b ≤ band_rank c
    → order_index (decide (banded f b)).outcome ≤ order_index (decide (banded f c)).outcome
banded_mono f b c h k = elim (Bool-cases f.policy_allow) [
  | inr denied ↦ unfold decide in rw (denied) (omega arith)
  | inl p ↦ elim (Bool-cases f.quarantined) [
    | inl q ↦ unfold decide in rw (p, q) (omega arith)
    | inr q ↦
        rw (decide-settle (banded f b) h p q, decide-settle (banded f c) h p q)
          (settle_mono _ _ f.engine_decision f.advisor_verify f.verification_available
            (risk_outcome-ne-throttle b f.descriptor f.cfg)
            (risk_outcome-ne-throttle c f.descriptor f.cfg)
            (risk_outcome_mono f.descriptor f.cfg b c k))
  ]
]

abbrev pub verifiable : Facts → Bool → Facts
verifiable f b = record f { verification_available = b }

-- Without a verification engine no outcome is `verify`, and the outcome is the one that the engine
-- would have been asked about, or a `hold` in the place of `verify`.
pub verifiable-hold :
    (f : Facts)
    → ((decide (verifiable f false)).outcome ≢ Outcome.verify)
      × (((decide (verifiable f false)).outcome ≡ (decide (verifiable f true)).outcome)
          ⊎ (((decide (verifiable f true)).outcome ≡ Outcome.verify)
              × ((decide (verifiable f false)).outcome ≡ Outcome.hold)))
unfolding decide
verifiable-hold f = ground arith
