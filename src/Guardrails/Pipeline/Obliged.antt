-- ===== src/Guardrails/Pipeline/Obliged.antt =====
-- The guardrails that a policy obliges a stage to run, among the outcomes of the stage.
use mathlib.Core.List.{foldl, count}
use policy_guardrails_agent.Prelude.{
  if◌then◌else◌, Bool-cases, any, All, mem, ℕ, ◌≤◌, String, ◌≡◌, refl, ◌∙◌, ◌≢◌, inl, inr, Bool,
  true, false, ◌||◌, List, [], ◌∷◌, ◌++◌, arith, clash,
}
use policy_guardrails_agent.Sdk.Models.{Decision, precedence, Payload}
use policy_guardrails_agent.Guardrails.Assignment.{BoundGuardrail, is_shadow}
use policy_guardrails_agent.Guardrails.Pipeline.{
  RunState, run, note, GuardrailOutcome, add_to_groups, stops, enforced_ids, run_groups, finish,
  joins, run_group, settled, strongest, outcome_of, call, groups, start, missing,
}
use policy_guardrails_agent.Guardrails.Pipeline.Decided.{passes, All-enforced}
use policy_guardrails_agent.Sdk.Models.Strongest.{strongest-upper}

-- the guardrails of the outcomes that were enforced
abbrev pub enforced_names : List GuardrailOutcome → List String
enforced_names [] = []
enforced_names (o ∷ os) =
    let rest = enforced_names os in if is_shadow o.mode then rest else o.guardrail_id ∷ rest

enforced_names-append :
    (id : String) (os : List GuardrailOutcome) (o : GuardrailOutcome)
    → mem id (enforced_names (os ++ o ∷ []))
      ≡ (mem id (enforced_names os) || mem id (enforced_names (o ∷ [])))
enforced_names-append id [] o = refl
enforced_names-append id (x ∷ os) o = ground (arith, enforced_names-append id os o)

-- whether a group enforces this guardrail
abbrev in_groups : String → List (List BoundGuardrail) → Bool
in_groups id [] = false
in_groups id (g ∷ gs) = mem id (enforced_ids g) || in_groups id gs

module _ (id : String) where
  enforced_ids-append :
      (bs : List BoundGuardrail) (b : BoundGuardrail)
      → mem id (enforced_ids (bs ++ b ∷ []))
        ≡ (mem id (enforced_ids bs) || mem id (enforced_ids (b ∷ [])))
  enforced_ids-append [] b = refl
  enforced_ids-append (x ∷ bs) b = ground (arith, enforced_ids-append bs b)

  added :
      (gs : List (List BoundGuardrail)) (b : BoundGuardrail)
      → in_groups id (add_to_groups gs b) ≡ (in_groups id gs || mem id (enforced_ids (b ∷ [])))
  unfolding add_to_groups
  added [] b = ground arith
  added (g ∷ []) b = elim (Bool-cases (joins b g)) [
    | inl y ↦ rw y (ground (arith, enforced_ids-append g b))
    | inr n ↦ rw n (ground arith)
  ]
  added (g ∷ h ∷ gs) b = ground (arith, added (h ∷ gs) b)

  grouped :
      (gs : List (List BoundGuardrail)) (bs : List BoundGuardrail)
      → in_groups id (foldl add_to_groups gs bs) ≡ (in_groups id gs || mem id (enforced_ids bs))
  grouped gs [] = ground arith
  grouped gs (b ∷ bs) = ground (arith, grouped (add_to_groups gs b) bs, added gs b)

  note-names :
      (p : Payload) (s : RunState) (b : BoundGuardrail)
      → mem id (enforced_names (note p s b).outcomes)
        ≡ (mem id (enforced_names s.outcomes) || mem id (enforced_ids (b ∷ [])))
  unfolding note count outcome_of
  note-names p s b = elim (Bool-cases (is_shadow b.assignment.mode)) [
    | inl e ↦ rw e (enforced_names-append id s.outcomes (outcome_of b p) ∙ rw e refl)
    | inr e ↦ rw e (enforced_names-append id s.outcomes (outcome_of b p) ∙ rw e refl)
  ]

  run_group-names :
      (p : Payload) (g : List BoundGuardrail) (s : RunState)
      → mem id (enforced_names (foldl (note p) s g).outcomes)
        ≡ (mem id (enforced_names s.outcomes) || mem id (enforced_ids g))
  run_group-names p [] s = ground arith
  run_group-names p (b ∷ bs) s = ground (arith, run_group-names p bs (note p s b), note-names p s b)

  -- a run that was not stopped went through every group
  run_groups-names :
      (gs : List (List BoundGuardrail)) (s : RunState)
      → (run_groups gs s).stop ≡ false
      → mem id (enforced_names (run_groups gs s).outcomes)
        ≡ (mem id (enforced_names s.outcomes) || in_groups id gs)
  unfolding run_groups run_group
  run_groups-names [] s h = ground arith
  run_groups-names (g ∷ gs) s h = elim (Bool-cases (run_group g s).stop) [
    | inl e ↦ absurd (clash e (rw e at h))
    | inr e ↦ rw e (
        ground
          (arith, run_groups-names gs (run_group g s) (rw e at h), run_group-names s.current g s))
  ]

-- the loop is stopped by the decisions that are counted
abbrev IsStopped : RunState → Type 0
IsStopped s = s.stop ≡ any stops s.decisions

any-append :
    (ds : List Decision) (d : Decision) → any stops (ds ++ d ∷ []) ≡ (any stops ds || stops d)
any-append [] d = ground arith
any-append (e ∷ ds) d = ground (arith, any-append ds d)

note-IsStopped :
    (p : Payload) (s : RunState) (b : BoundGuardrail) → IsStopped s → IsStopped (note p s b)
unfolding note count
note-IsStopped p s b h = elim (Bool-cases (is_shadow b.assignment.mode)) [
  | inl e ↦ rw e h
  | inr e ↦ rw (e, any-append s.decisions (call b p).decision, h) refl
]

group-IsStopped :
    (p : Payload) (g : List BoundGuardrail) (s : RunState)
    → IsStopped s
    → IsStopped (foldl (note p) s g)
group-IsStopped p [] s h = h
group-IsStopped p (b ∷ bs) s h = group-IsStopped p bs (note p s b) (note-IsStopped p s b h)

groups-IsStopped :
    (gs : List (List BoundGuardrail)) (s : RunState) → IsStopped s → IsStopped (run_groups gs s)
unfolding run_groups run_group
groups-IsStopped [] s h = h
groups-IsStopped (g ∷ gs) s h = elim (Bool-cases (run_group g s).stop) [
  | inl e ↦ rw e (group-IsStopped s.current g s h)
  | inr e ↦ rw e (groups-IsStopped gs (run_group g s) (group-IsStopped s.current g s h))
]

stopping :
    (m : ℕ) (ds : List Decision) → All (λ e. precedence e ≤ m) ds → any stops ds ≡ true → 2 ≤ m
stopping m [] a h = absurd (clash h refl)
stopping m (d ∷ ds) a h = elim (Bool-cases (stops d)) [
  | inl y ↦ omega (arith, strong d y, a.0)
  | inr n ↦ stopping m ds a.1 (rw n at h)
]
  where
    strong : (d : Decision) → stops d ≡ true → 2 ≤ precedence d
    strong Decision.allow y = cc
    strong Decision.modify y = cc
    strong Decision.escalate y = omega arith
    strong Decision.block y = omega arith

settled_stop :
    (esc : Bool) (d : Decision)
    → 2 ≤ precedence d
    → settled esc d ≢ Decision.block
    → settled esc d ≡ Decision.escalate
settled_stop esc Decision.allow h n = absurd (omega arith)
settled_stop esc Decision.modify h n = absurd (omega arith)
settled_stop true Decision.escalate h n = absurd (n refl)
settled_stop false Decision.escalate h n = refl
settled_stop esc Decision.block h n = absurd (n refl)

ran_through :
    (esc : Bool) (bound : List BoundGuardrail) (p : Payload)
    → settled esc (strongest (run_groups (groups bound) (start p)).decisions) ≢ Decision.block
    → settled esc (strongest (run_groups (groups bound) (start p)).decisions) ≢ Decision.escalate
    → (run_groups (groups bound) (start p)).stop ≡ false
ran_through esc bound p nb ne =
    let ds = (run_groups (groups bound) (start p)).decisions in
    elim (Bool-cases (any stops ds)) [
      | inr n ↦ groups-IsStopped (groups bound) (start p) refl ∙ n
      | inl y ↦ absurd (
          ne (
            settled_stop esc (strongest ds)
              (stopping (precedence (strongest ds)) ds (strongest-upper ds) y) nb))
    ]

-- A stage that neither blocks nor escalates has run every guardrail that the policy obliges it to
-- run: its results hold an outcome of each of them, that was not in shadow mode. One that escalates
-- may have stopped before it ran them.
pub run-obligations :
    (escalate_as_block : Bool) (bound : List BoundGuardrail) (p : Payload)
    (obligations : List String)
    → (run escalate_as_block bound p obligations).decision ≢ Decision.block
    → (run escalate_as_block bound p obligations).decision ≢ Decision.escalate
    → All
        (λ o. mem o (enforced_names (run escalate_as_block bound p obligations).results) ≡ true)
        obligations
unfolding run finish groups
run-obligations esc bound p obligations nb ne =
    let none_missing : missing bound obligations ≡ [] = passes (missing bound obligations) _ nb in
    let ran : (run_groups (groups bound) (start p)).stop ≡ false =
      ran_through esc bound p (rw none_missing at nb) (rw none_missing at ne) in
    rw none_missing (each obligations (All-enforced bound obligations none_missing) ran)
  where
    each :
        (os : List String)
        → All (λ o. mem o (enforced_ids bound) ≡ true) os
        → (run_groups (groups bound) (start p)).stop ≡ false
        → All (λ o. mem o (enforced_names (run_groups (groups bound) (start p)).outcomes) ≡ true) os
    each [] a ran = tt
    each (o ∷ os) a ran = (
      run_groups-names o (groups bound) (start p) ran ∙ (grouped o [] bound ∙ a.0),
      each os a.1 ran,
    )
