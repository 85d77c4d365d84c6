-- ===== src/Guardrails/Escalation.antt =====
-- hold_for_review of services/guardrail-gateway/app/engine/escalation.py. The control plane's client
-- is a parameter: `create` is the id of the review that it files, or none where the call fails.
use policy_guardrails_agent.Prelude.{
  if◌then◌else◌, is_some, str_eq, ℕ, String, ◌≡◌, refl, ◌↔◌, ◌⊎◌, inl, inr, true, not, ◌&&◌, Option,
  none, some, List, [], ◌∷◌,
}
use policy_guardrails_agent.Sdk.Models.{Decision, Payload, same_decision}
use policy_guardrails_agent.Guardrails.Assignment.{is_shadow}
use policy_guardrails_agent.Guardrails.Pipeline.{StageOutcome, GuardrailOutcome}

-- what is filed, beside the request's own fields
pub record Review : Type 0 where
  pub guardrail_id : String
  pub risk_score : ℕ
  pub payload : Payload

-- next((r for r in outcome.results if …), None), its guardrail's id
abbrev pub deciding : List GuardrailOutcome → Option String
deciding [] = none
deciding (r ∷ rs) =
    if same_decision r.decision Decision.escalate && not (is_shadow r.mode)
    then some r.guardrail_id
    else deciding rs

abbrev pub source_of : Option String → Option String → String
source_of (some g) source = g
source_of none (some s) = if str_eq s "" then "unknown" else s
source_of none none = "unknown"

-- StageOutcome(Decision.BLOCK, …)
abbrev pub blocked : StageOutcome → StageOutcome
blocked o = record o { decision = Decision.block; payload = none }

abbrev pub filed : StageOutcome → Option String → StageOutcome × Option String
filed o none = (blocked o, none)
filed o (some id) = (o, some id)

abbrev pub submit :
    (Review → Option String)
    → StageOutcome
    → Option String
    → Option Payload
    → StageOutcome × Option String
submit create o source none = (blocked o, none)
submit create o source (some p) = filed o (
    create (record {
      guardrail_id = source_of (deciding o.results) source;
      risk_score = o.risk_score;
      payload = p;
    }))

-- hold_for_review
unfoldable pub hold_for_review :
    Option (Review → Option String) → StageOutcome → Option String → StageOutcome × Option String
hold_for_review none o source = (blocked o, none)
hold_for_review (some create) o source = submit create o source o.payload

submit_held :
    (create : Review → Option String) (o : StageOutcome) (source : Option String)
    (p : Option Payload)
    → o.payload ≡ p
    → o.decision ≡ Decision.escalate
    → ((submit create o source p).0.decision ≡ Decision.escalate)
      ↔ (is_some (submit create o source p).1 ≡ true)
submit_held create o source none h e = (λ k. cc, λ k. cc)
submit_held create o source (some p) h e = held (
    create (record {
      guardrail_id = source_of (deciding o.results) source;
      risk_score = o.risk_score;
      payload = p;
    }))
  where
    held :
        (id : Option String)
        → ((filed o id).0.decision ≡ Decision.escalate) ↔ (is_some (filed o id).1 ≡ true)
    held none = (λ k. cc, λ k. cc)
    held (some id) = (λ k. refl, λ k. e)

-- An escalated outcome stays escalated exactly when a review was filed for it.
pub hold_for_review_held :
    (control_plane : Option (Review → Option String)) (o : StageOutcome) (source : Option String)
    → o.decision ≡ Decision.escalate
    → ((hold_for_review control_plane o source).0.decision ≡ Decision.escalate)
      ↔ (is_some (hold_for_review control_plane o source).1 ≡ true)
unfolding hold_for_review
hold_for_review_held none o source e = (λ k. cc, λ k. cc)
hold_for_review_held (some create) o source e = submit_held create o source o.payload refl e

-- What is not escalated any more was blocked, and a block holds no payload.
pub hold_for_review_safe :
    (control_plane : Option (Review → Option String)) (o : StageOutcome) (source : Option String)
    → ((hold_for_review control_plane o source).0 ≡ o)
      ⊎ (((hold_for_review control_plane o source).0.decision ≡ Decision.block)
          × ((hold_for_review control_plane o source).0.payload ≡ none))
unfolding hold_for_review
hold_for_review_safe none o source = inr (refl, refl)
hold_for_review_safe (some create) o source = safe o.payload
  where
    safe_id :
        (id : Option String)
        → ((filed o id).0 ≡ o)
          ⊎ (((filed o id).0.decision ≡ Decision.block) × ((filed o id).0.payload ≡ none))
    safe_id none = inr (refl, refl)
    safe_id (some id) = inl refl

    safe :
        (p : Option Payload)
        → ((submit create o source p).0 ≡ o)
          ⊎ (((submit create o source p).0.decision ≡ Decision.block)
              × ((submit create o source p).0.payload ≡ none))
    safe none = inr (refl, refl)
    safe (some p) = safe_id (create _)
