-- ===== src/Gateway/Flow/Released.antt =====
-- What the gateway lets out, against the decision table.
use policy_guardrails_agent.Prelude.{
  Bool-cases, ℕ, String, ◌≡◌, refl, ap, subst, ◌⊎◌, inl, inr, true, false, not, ◌&&◌, Option, none,
  some, arith,
}
use policy_guardrails_agent.Sdk.Models.{Decision, Payload, same_decision}
use policy_guardrails_agent.Risk.Decision.{TableResult, is_allowing}
use policy_guardrails_agent.Guardrails.Pipeline.{StageOutcome}
use policy_guardrails_agent.Guardrails.Escalation.{Review, hold_for_review_safe}
use policy_guardrails_agent.Gateway.Contextual.{is_released}
use policy_guardrails_agent.Gateway.Flow.{
  Verdict, apply_table, queued, conclude, enforced, released,
}

apply_table-allowing :
    (t : TableResult) (score : ℕ) (out : StageOutcome) (status : ℕ)
    → is_released (apply_table t score out status).0.decision ≡ true
    → is_allowing t.outcome ≡ true
unfolding apply_table
apply_table-allowing t score out status h = ground arith

queued_released :
    (control_plane : Option (Review → Option String)) (v : Verdict) (out : StageOutcome)
    (status : ℕ)
    → is_released (queued control_plane v (out, status)).0.0.decision ≡ true
    → is_released out.decision ≡ true
unfolding queued
queued_released cp v out status h =
    elim (Bool-cases (same_decision out.decision Decision.escalate && not v.verification)) [
      | inr e ↦ rw e at h
      | inl e ↦ filed (hold_for_review_safe cp out _) (rw e at h)
    ]
  where
    filed :
        {o : StageOutcome}
        → (o ≡ out) ⊎ ((o.decision ≡ Decision.block) × (o.payload ≡ none))
        → is_released o.decision ≡ true
        → is_released out.decision ≡ true
    filed (inl same) k = subst (λ x. is_released x.decision ≡ true) same k
    filed (inr (b, n)) k = absurd (blocked (rw b at k))
      where
        blocked : is_released Decision.block ≡ true → ⊥
        blocked e = cc

released_decision :
    (o : StageOutcome) (p : Payload) → released o ≡ some p → is_released o.decision ≡ true
released_decision o p h = elim (Bool-cases (is_released o.decision)) [
  | inl e ↦ e
  | inr e ↦ absurd (none_some (rw e at h))
]
  where
    none_some : {x : Payload} → none ≡ some x → ⊥
    none_some e = cc

-- When the decision table is enforced, a payload leaves the gateway only under an allowing outcome
-- of the table: allow, allow_restricted or modify.
pub conclude-allowing :
    (control_plane : Option (Review → Option String)) (v : Verdict) (t : TableResult)
    (out : StageOutcome) (status : ℕ) (p : Payload)
    → v.table ≡ some t
    → (conclude control_plane v out status).payload ≡ some p
    → is_allowing t.outcome ≡ true
unfolding conclude
conclude-allowing cp v t out status p e h = apply_table-allowing t v.score out status (
    by_table (
      queued_released cp v (enforced v out status).0 (enforced v out status).1
        (released_decision (queued cp v (enforced v out status)).0.0 p h)))
  where
    by_table :
        is_released (enforced v out status).0.decision ≡ true
        → is_released (apply_table t v.score out status).0.decision ≡ true
    by_table k = rw e at k

-- With neither an enforced table nor an open verification, the gateway's decision is the stage's
-- own, or a block in the place of an escalation that no review was filed for.
pub conclude-shadow :
    (control_plane : Option (Review → Option String)) (v : Verdict) (out : StageOutcome)
    (status : ℕ)
    → v.table ≡ none
    → v.verification ≡ false
    → ((conclude control_plane v out status).decision ≡ out.decision)
      ⊎ ((out.decision ≡ Decision.escalate)
          × ((conclude control_plane v out status).decision ≡ Decision.block))
unfolding conclude queued
conclude-shadow cp v out status e f =
    elim (Bool-cases (same_decision out.decision Decision.escalate)) [
      | inr other ↦ rw (e, f, other) (inl refl)
      | inl held ↦
          rw (e, f, held) (filed (escalates out.decision held) (hold_for_review_safe cp out none))
    ]
  where
    escalates : (d : Decision) → same_decision d Decision.escalate ≡ true → d ≡ Decision.escalate
    escalates d h = ground arith

    filed :
        {o : StageOutcome}
        → out.decision ≡ Decision.escalate
        → (o ≡ out) ⊎ ((o.decision ≡ Decision.block) × (o.payload ≡ none))
        → (o.decision ≡ out.decision)
          ⊎ ((out.decision ≡ Decision.escalate) × (o.decision ≡ Decision.block))
    filed d (inl same) = inl (ap (λ x. x.decision) same)
    filed d (inr (b, n)) = inr (d, b)
