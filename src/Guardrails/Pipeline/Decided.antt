-- ===== src/Guardrails/Pipeline/Decided.antt =====
-- The stage's decision, from the outcomes that the audit log shows.
use mathlib.Core.List.{foldl}
use policy_guardrails_agent.Prelude.{
  if◌then◌else◌, Bool-cases, All, mem, String, ◌≡◌, refl, ap, ◌≢◌, inl, inr, Bool, true, List, [],
  ◌∷◌, ◌++◌, arith,
}
use policy_guardrails_agent.Sdk.Models.{Decision, Payload, strongest}
use policy_guardrails_agent.Guardrails.Assignment.{BoundGuardrail, is_shadow}
use policy_guardrails_agent.Guardrails.Pipeline.{
  GuardrailOutcome, RunState, StageOutcome, note, run_group, run_groups, run, settled, missing,
  groups, start, finish, outcome_of, count, enforced_ids, call, unless_missing,
}

-- the decisions of the outcomes that were enforced
abbrev pub enforced_decisions : List GuardrailOutcome → List Decision
enforced_decisions [] = []
enforced_decisions (o ∷ os) =
    let rest = enforced_decisions os in if is_shadow o.mode then rest else o.decision ∷ rest

enforced_decisions-append :
    (os : List GuardrailOutcome) (o : GuardrailOutcome)
    → enforced_decisions (os ++ o ∷ []) ≡ (
        if is_shadow o.mode
        then enforced_decisions os
        else enforced_decisions os ++ o.decision ∷ [])
enforced_decisions-append [] o = ground arith
enforced_decisions-append (x ∷ os) o = ground (arith, enforced_decisions-append os o)

abbrev Agrees : RunState → Type 0
Agrees s = s.decisions ≡ enforced_decisions s.outcomes

note-Agrees : (p : Payload) (s : RunState) (b : BoundGuardrail) → Agrees s → Agrees (note p s b)
unfolding note count outcome_of
note-Agrees p s b h = elim (Bool-cases (is_shadow b.assignment.mode)) [
  | inl e ↦ rw (e, enforced_decisions-append s.outcomes (outcome_of b p)) (rw e h)
  | inr e ↦
      rw (e, enforced_decisions-append s.outcomes (outcome_of b p))
        (rw e (ap (λ ds. ds ++ (call b p).decision ∷ []) h))
]

run_group-Agrees :
    (p : Payload) (g : List BoundGuardrail) (s : RunState) → Agrees s → Agrees (foldl (note p) s g)
run_group-Agrees p [] s h = h
run_group-Agrees p (b ∷ bs) s h = run_group-Agrees p bs (note p s b) (note-Agrees p s b h)

run_groups-Agrees :
    (gs : List (List BoundGuardrail)) (s : RunState) → Agrees s → Agrees (run_groups gs s)
unfolding run_groups run_group
run_groups-Agrees [] s h = h
run_groups-Agrees (g ∷ gs) s h = elim (Bool-cases (run_group g s).stop) [
  | inl e ↦ rw e (run_group-Agrees s.current g s h)
  | inr e ↦ rw e (run_groups-Agrees gs (run_group g s) (run_group-Agrees s.current g s h))
]

-- Where every obligation is enforced, the stage's decision is the strongest of the decisions of
-- the enforced outcomes in its results, an escalation becoming a block on a gateway without a
-- review queue. Outcomes of shadow guardrails do not count.
pub run_decision :
    (escalate_as_block : Bool) (bound : List BoundGuardrail) (p : Payload)
    (obligations : List String)
    → missing bound obligations ≡ []
    → (run escalate_as_block bound p obligations).decision
      ≡ settled escalate_as_block
          (strongest (enforced_decisions (run escalate_as_block bound p obligations).results))
unfolding run finish
run_decision esc bound p obligations h =
    rw h (ap (λ ds. settled esc (strongest ds)) (run_groups-Agrees (groups bound) (start p) refl))

pub All-enforced :
    (bound : List BoundGuardrail) (obligations : List String)
    → missing bound obligations ≡ []
    → All (λ o. mem o (enforced_ids bound) ≡ true) obligations
All-enforced bound [] h = tt
All-enforced bound (o ∷ os) h = elim (Bool-cases (mem o (enforced_ids bound))) [
  | inl e ↦ (e, All-enforced bound os (rw e at h))
  | inr e ↦ absurd (cons-ne-nil (rw e at h))
]
  where
    cons-ne-nil : {x : String} {xs : List String} → x ∷ xs ≡ [] → ⊥
    cons-ne-nil e = cc

pub passes :
    (m : List String) (out : StageOutcome)
    → (unless_missing m out).decision ≢ Decision.block
    → m ≡ []
passes [] out h = refl
passes (o ∷ os) out h = absurd (h refl)
