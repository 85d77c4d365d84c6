-- ===== src/Guardrails/Pipeline/Shadows.antt =====
-- A guardrail in shadow mode is recorded and changes nothing else.
use mathlib.Core.List.{foldl}
use policy_guardrails_agent.Prelude.{
  if◌then◌else◌, Bool-cases, keep, mem, ℕ, String, ◌≡◌, refl, sym, ap, ◌∙◌, inl, inr, Bool, not,
  Option, List, [], ◌∷◌, ◌++◌, map,
}
use policy_guardrails_agent.Sdk.Models.{Decision, Payload}
use policy_guardrails_agent.Guardrails.Assignment.{BoundGuardrail, is_shadow, Answer}
use policy_guardrails_agent.Guardrails.Pipeline.{
  RunState, StageOutcome, Reason, note, run_group, run_groups, run, count, call, missing, groups,
  start, finish, add_to_groups, joins, enforced_ids, unless_missing, final_reason,
}

-- the plugins behind the shadow guardrails exchanged for others
abbrev pub swap : (BoundGuardrail → Payload → Answer) → BoundGuardrail → BoundGuardrail
swap f b = record b { evaluate = if is_shadow b.assignment.mode then f b else b.evaluate }

-- what the caller of the stage acts on
pub record Effect : Type 0 where
  pub decision : Decision
  pub reason : Reason
  pub risk_score : ℕ
  pub payload : Option Payload

abbrev pub effect : StageOutcome → Effect
effect o = record {
  decision = o.decision;
  reason = o.reason;
  risk_score = o.risk_score;
  payload = o.payload;
}

abbrev core : RunState → RunState
core s = record s { outcomes = [] }

abbrev enforce_one : Payload → BoundGuardrail → RunState → RunState
enforce_one p b s = if is_shadow b.assignment.mode then s else count b (call b p) s

core-note :
    (p : Payload) (s : RunState) (b : BoundGuardrail) → core (note p s b) ≡ enforce_one p b (core s)
unfolding note count
core-note p s b = elim (Bool-cases (is_shadow b.assignment.mode)) [
  | inl e ↦ rw e refl
  | inr e ↦ rw e refl
]

module _ (f : BoundGuardrail → Payload → Answer) where
  enforce_one-swap :
      (p : Payload) (b : BoundGuardrail) (s : RunState)
      → enforce_one p (swap f b) s ≡ enforce_one p b s
  enforce_one-swap p b s = elim (Bool-cases (is_shadow b.assignment.mode)) [
    | inl e ↦ rw e refl
    | inr e ↦ rw e refl
  ]

  note-swap :
      (p : Payload) (s t : RunState) (b : BoundGuardrail)
      → core s ≡ core t
      → core (note p s (swap f b)) ≡ core (note p t b)
  note-swap p s t b h =
      core-note p s (swap f b)
      ∙ (enforce_one-swap p b (core s) ∙ (ap (enforce_one p b) h ∙ sym (core-note p t b)))

  group-swap :
      (p : Payload) (g : List BoundGuardrail) (s t : RunState)
      → core s ≡ core t
      → core (foldl (note p) s (map (swap f) g)) ≡ core (foldl (note p) t g)
  group-swap p [] s t h = h
  group-swap p (b ∷ bs) s t h =
      group-swap p bs (note p s (swap f b)) (note p t b) (note-swap p s t b h)

  run_group-swap :
      (g : List BoundGuardrail) (s t : RunState)
      → core s ≡ core t
      → core (run_group (map (swap f) g) s) ≡ core (run_group g t)
  unfolding run_group
  run_group-swap g s t h =
      ap (λ p. core (foldl (note p) s (map (swap f) g))) (ap (λ x. x.current) h)
      ∙ group-swap t.current g s t h

  run_groups-swap :
      (gs : List (List BoundGuardrail)) (s t : RunState)
      → core s ≡ core t
      → core (run_groups (map (map (swap f)) gs) s) ≡ core (run_groups gs t)
  unfolding run_groups
  run_groups-swap [] s t h = h
  run_groups-swap (g ∷ gs) s t h =
      let k : core (run_group (map (swap f) g) s) ≡ core (run_group g t) = run_group-swap g s t h in
      elim (Bool-cases (run_group g t).stop) [
        | inl e ↦ rw (ap (λ x. x.stop) k, e) k
        | inr e ↦ rw (ap (λ x. x.stop) k, e) (run_groups-swap gs _ _ k)
      ]

  add_to_groups-swap :
      (gs : List (List BoundGuardrail)) (b : BoundGuardrail)
      → add_to_groups (map (map (swap f)) gs) (swap f b) ≡ map (map (swap f)) (add_to_groups gs b)
  unfolding add_to_groups
  add_to_groups-swap [] b = refl
  add_to_groups-swap ([] ∷ []) b = refl
  add_to_groups-swap ((c ∷ cs) ∷ []) b = elim (Bool-cases (joins b (c ∷ cs))) [
    | inl e ↦ rw e (ap (λ g. (swap f c ∷ g) ∷ []) (append-map cs))
    | inr e ↦ rw e refl
  ]
    where
      append-map :
          (xs : List BoundGuardrail)
          → map (swap f) xs ++ swap f b ∷ [] ≡ map (swap f) (xs ++ b ∷ [])
      append-map [] = refl
      append-map (x ∷ xs) = ap (λ ys. swap f x ∷ ys) (append-map xs)
  add_to_groups-swap (g ∷ h ∷ gs) b = ap (λ ys. map (swap f) g ∷ ys) (add_to_groups-swap (h ∷ gs) b)

  fold-swap :
      (bs : List BoundGuardrail) (gs : List (List BoundGuardrail))
      → foldl add_to_groups (map (map (swap f)) gs) (map (swap f) bs)
        ≡ map (map (swap f)) (foldl add_to_groups gs bs)
  fold-swap [] gs = refl
  fold-swap (b ∷ bs) gs =
      ap (λ x. foldl add_to_groups x (map (swap f) bs)) (add_to_groups-swap gs b)
      ∙ fold-swap bs (add_to_groups gs b)

  enforced_ids-swap :
      (bound : List BoundGuardrail) → enforced_ids (map (swap f) bound) ≡ enforced_ids bound
  enforced_ids-swap [] = refl
  enforced_ids-swap (b ∷ bs) = elim (Bool-cases (is_shadow b.assignment.mode)) [
    | inl e ↦ rw e (enforced_ids-swap bs)
    | inr e ↦ rw e (ap (λ ids. b.manifest.id ∷ ids) (enforced_ids-swap bs))
  ]

  final_reason-swap :
      (bound : List BoundGuardrail) (s t : RunState) (d : Decision)
      → core s ≡ core t
      → final_reason (map (swap f) bound) s d ≡ final_reason bound t d
  final_reason-swap [] s t d h = refl
  final_reason-swap (b ∷ bs) s t d h = ap (λ x. final_reason (b ∷ bs) x d) h

  finish-swap :
      (esc : Bool) (bound : List BoundGuardrail) (s t : RunState)
      → core s ≡ core t
      → effect (finish esc (map (swap f) bound) s) ≡ effect (finish esc bound t)
  unfolding finish
  finish-swap esc [] s t h = ap (λ x. effect (finish esc [] x)) h
  finish-swap esc (b ∷ bs) s t h = ap (λ x. effect (finish esc (b ∷ bs) x)) h

  unless_missing-effect :
      (m : List String) (o u : StageOutcome)
      → effect o ≡ effect u
      → effect (unless_missing m o) ≡ effect (unless_missing m u)
  unless_missing-effect [] o u h = h
  unless_missing-effect (x ∷ xs) o u h = refl

  -- Whatever the plugins of shadow guardrails answer, and however they fail, the stage's decision,
  -- reason, risk score and payload stay the same.
  pub shadow_changes_nothing :
      (escalate_as_block : Bool) (bound : List BoundGuardrail) (p : Payload)
      (obligations : List String)
      → effect (run escalate_as_block (map (swap f) bound) p obligations)
        ≡ effect (run escalate_as_block bound p obligations)
  unfolding run groups
  shadow_changes_nothing esc bound p obligations =
      ap
        (λ ids. effect (
          unless_missing (keep (λ o. not (mem o ids)) obligations) (
            finish esc (map (swap f) bound)
              (run_groups (foldl add_to_groups [] (map (swap f) bound)) (start p)))))
        (enforced_ids-swap bound)
      ∙ unless_missing-effect (missing bound obligations) _ _ (
          ap (λ gs. effect (finish esc (map (swap f) bound) (run_groups gs (start p))))
            (fold-swap bound [])
          ∙ finish-swap esc bound _ _ (run_groups-swap (groups bound) (start p) (start p) refl))
