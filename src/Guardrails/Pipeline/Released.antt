-- ===== src/Guardrails/Pipeline/Released.antt =====
-- What leaves the pipeline has the shape of what went in.
use mathlib.Core.List.{foldl}
use policy_guardrails_agent.Prelude.{
  if◌then◌else◌, Bool-cases, String, ◌≡◌, refl, ◌≢◌, ◌⊎◌, inl, inr, Bool, true, Option, none, some,
  List, [], ◌∷◌,
}
use policy_guardrails_agent.Sdk.Models.{Decision, Payload, same_decision, same_shape_as}
use policy_guardrails_agent.Sdk.Models.Shape.{same_shape_as_refl, same_shape_as_trans}
use policy_guardrails_agent.Guardrails.Assignment.{BoundGuardrail, is_shadow}
use policy_guardrails_agent.Guardrails.Pipeline.{
  RunState, Result, note, run_group, run_groups, run, count, call, next_payload, is_modify, missing,
  unless_missing, groups, start, finish, StageOutcome,
}
use policy_guardrails_agent.Guardrails.Pipeline.Trusted.{KeepsShape, call-modify}

next_payload-shape :
    (o p q : Payload) (r : Result)
    → same_shape_as o p ≡ true
    → same_shape_as o q ≡ true
    → (is_modify r.decision ≡ true → KeepsShape p r.modified_payload)
    → same_shape_as o (next_payload q r) ≡ true
next_payload-shape o p q r hp hq h = elim (Bool-cases (is_modify r.decision)) [
  | inr e ↦ rw e hq
  | inl e ↦ rw e (changed r.modified_payload (h e))
]
  where
    changed :
        (m : Option Payload)
        → KeepsShape p m
        → same_shape_as o (elim m [ none ↦ q | some x ↦ x ]) ≡ true
    changed none k = absurd k
    changed (some x) k = same_shape_as_trans o p x hp k

note-shape :
    (o p : Payload) (s : RunState) (b : BoundGuardrail)
    → same_shape_as o p ≡ true
    → same_shape_as o s.current ≡ true
    → same_shape_as o (note p s b).current ≡ true
unfolding note count
note-shape o p s b hp hs = elim (Bool-cases (is_shadow b.assignment.mode)) [
  | inl e ↦ rw e hs
  | inr e ↦ rw e (next_payload-shape o p s.current (call b p) hp hs (call-modify b p))
]

group-shape :
    (o p : Payload) (g : List BoundGuardrail) (s : RunState)
    → same_shape_as o p ≡ true
    → same_shape_as o s.current ≡ true
    → same_shape_as o (foldl (note p) s g).current ≡ true
group-shape o p [] s hp hs = hs
group-shape o p (b ∷ bs) s hp hs = group-shape o p bs (note p s b) hp (note-shape o p s b hp hs)

run_groups-shape :
    (o : Payload) (gs : List (List BoundGuardrail)) (s : RunState)
    → same_shape_as o s.current ≡ true
    → same_shape_as o (run_groups gs s).current ≡ true
unfolding run_groups run_group
run_groups-shape o [] s h = h
run_groups-shape o (g ∷ gs) s h = elim (Bool-cases (run_group g s).stop) [
  | inl e ↦ rw e (group-shape o s.current g s h h)
  | inr e ↦ rw e (run_groups-shape o gs (run_group g s) (group-shape o s.current g s h h))
]

-- a stage outcome that releases nothing on a block, and else something of the shape of `p`
abbrev pub IsSafe : Payload → StageOutcome → Type 0
IsSafe p out =
    ((out.decision ≡ Decision.block) × (out.payload ≡ none))
    ⊎ ((out.decision ≢ Decision.block)
        × ((q : Payload) × (out.payload ≡ some q) × (same_shape_as p q ≡ true)))

release :
    (p q : Payload) (d : Decision) (out : StageOutcome)
    → same_shape_as p q ≡ true
    → out.decision ≡ d
    → out.payload ≡ (if same_decision d Decision.block then none else some q)
    → IsSafe p out
release p q Decision.block out h e f = inl (e, f)
release p q Decision.allow out h e f = inr ((λ b. cc), (q, f, h))
release p q Decision.modify out h e f = inr ((λ b. cc), (q, f, h))
release p q Decision.escalate out h e f = inr ((λ b. cc), (q, f, h))

unless_missing-IsSafe :
    (p : Payload) (m : List String) (out : StageOutcome)
    → IsSafe p out
    → IsSafe p (unless_missing m out)
unless_missing-IsSafe p [] out h = h
unless_missing-IsSafe p (o ∷ os) out h = inl (refl, refl)

-- A stage that blocks releases no payload; a stage that does not block has a payload, and it has
-- the shape of the one that came in: the same stage and fields, the same roles of messages, no
-- invented chunks, the same tool.
pub run-IsSafe :
    (escalate_as_block : Bool) (bound : List BoundGuardrail) (p : Payload)
    (obligations : List String)
    → IsSafe p (run escalate_as_block bound p obligations)
unfolding run finish
run-IsSafe esc bound p obligations = unless_missing-IsSafe p (missing bound obligations) _ (
    release p (run_groups (groups bound) (start p)).current _
      (finish esc bound (run_groups (groups bound) (start p)))
      (run_groups-shape p (groups bound) (start p) (same_shape_as_refl p)) refl refl)
