-- ===== src/Guardrails/Pipeline/Trusted.antt =====
-- What a call to a plugin can bring into the pipeline.
use policy_guardrails_agent.Prelude.{
  if◌then◌else◌, Bool-cases, Option-cases, ◌≡◌, refl, ◌⊎◌, inl, inr, Bool, true, false, Option,
  none, some, arith, elem,
}
use policy_guardrails_agent.Sdk.Models.{Decision, Payload, same_decision, same_shape_as}
use policy_guardrails_agent.Guardrails.Assignment.{
  BoundGuardrail, is_closed, failure_mode, Answer, answer, raised, timed_out,
}
use policy_guardrails_agent.Guardrails.Pipeline.{
  Result, call, outcome_of, error_of, is_modify, result_of, Error,
}

-- the modified payload, where there is one, has the shape of the payload
abbrev pub KeepsShape : Payload → Option Payload → Type 0
KeepsShape p none = ⊥
KeepsShape p (some q) = same_shape_as p q ≡ true

-- the answer was accepted
pub record IsAccepted (b : BoundGuardrail) (p : Payload) (r : Result) : Type 0 where
  pub declared : elem same_decision r.decision b.manifest.decisions_emitted ≡ true
  pub shape : (is_modify r.decision ≡ false) ⊎ KeepsShape p r.modified_payload

error_none :
    (b : BoundGuardrail) (p : Payload) (a : Answer)
    → error_of b p a ≡ none
    → IsAccepted b p (result_of b a none)
unfolding error_of
error_none b p timed_out h = cc
error_none b p (raised n) h = cc
error_none b p (answer r) h =
    elim (Bool-cases (elem same_decision r.decision b.manifest.decisions_emitted)) [
      | inr undeclared ↦ absurd (none-ne-some (rw undeclared at h))
      | inl declared ↦ record {
        declared = declared;
        shape = elim (Bool-cases (is_modify r.decision)) [
          | inr other ↦ inl other
          | inl m ↦ inr (kept r.modified_payload (rw (declared, m) at h))
        ];
      }
    ]
  where
    none-ne-some : {A : Type 0} {x : A} → some x ≡ none → ⊥
    none-ne-some e = cc

    kept :
        (o : Option Payload)
        → policy_guardrails_agent.Guardrails.Pipeline.shape_error p o ≡ none
        → KeepsShape p o
    kept none e = cc
    kept (some q) e = ground arith

-- A call ends in one of two ways. Without an error, the decision is one that the manifest declares,
-- and a modified payload has the shape of the payload that the plugin was given. With an error (a
-- timeout, an exception, an undeclared decision, a changed shape) nothing of the answer is used:
-- the decision is block with risk 100 where the guardrail fails closed, and else allow with risk 0.
pub call_lem :
    (b : BoundGuardrail) (p : Payload)
    → (((outcome_of b p).error ≡ none) × IsAccepted b p (call b p))
      ⊎ ((e : Error) × ((outcome_of b p).error ≡ some e)
          × ((call b p).decision
              ≡ (if is_closed (failure_mode b) then Decision.block else Decision.allow))
          × ((call b p).risk_score ≡ (if is_closed (failure_mode b) then 100 else 0))
          × ((call b p).modified_payload ≡ none))
unfolding call outcome_of
call_lem b p = elim (Option-cases (error_of b p (b.evaluate p))) [
  | inl e ↦ inl (e, rw e (error_none b p (b.evaluate p) e))
  | inr (err, e) ↦ inr (err, e, rw e refl, rw e refl, rw e refl)
]

-- a call that modifies brings a payload of the same shape
pub call-modify :
    (b : BoundGuardrail) (p : Payload)
    → is_modify (call b p).decision ≡ true
    → KeepsShape p (call b p).modified_payload
call-modify b p h = elim (call_lem b p) [
  | inl (e, ok) ↦ elim ok.shape [ inl other ↦ absurd (clash other) | inr kept ↦ kept ]
  | inr (err, e, d, risk, m) ↦ absurd (modifies (is_closed (failure_mode b)) (rw d at h))
]
  where
    clash : is_modify (call b p).decision ≡ false → ⊥
    clash other = cc

    modifies : (c : Bool) → is_modify (if c then Decision.block else Decision.allow) ≡ true → ⊥
    modifies c h = ground arith
