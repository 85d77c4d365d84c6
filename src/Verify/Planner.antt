-- ===== src/Verify/Planner.antt =====
-- services/guardrail-gateway/app/verify/planner.py: the cheapest set of verifiers that closes a gap.
use policy_guardrails_agent.Prelude.{
  if◌then◌else◌, ltb, leb, ◌==◌, length, any, keep, sum_of, ℕ, zero, suc, Bool, true, false, not,
  ◌&&◌, ◌||◌, Option, none, some, List, [], ◌∷◌, ◌++◌, map,
}
use policy_guardrails_agent.Risk.Codes.{EvidenceKind, dry_run, user_confirmation, human_approval}
use policy_guardrails_agent.Verify.Model.{Levels, is_none}

pub record VerifierSpec : Type 0 where
  pub kind : EvidenceKind
  pub closes : Levels
  pub cost : ℕ
  pub inline : Bool
  pub human : Bool

-- DRY_RUN
abbrev pub dry_run_spec : VerifierSpec
dry_run_spec = record {
  kind = dry_run;
  closes = record { identity = 0; authorization = 0; resource = 2; behaviour = 0; effect = 1 };
  cost = 5;
  inline = true;
  human = false;
}

-- USER_CONFIRMATION
abbrev pub user_confirmation_spec : VerifierSpec
user_confirmation_spec = record {
  kind = user_confirmation;
  closes = record { identity = 0; authorization = 2; resource = 0; behaviour = 1; effect = 0 };
  cost = 500;
  inline = false;
  human = false;
}

-- HUMAN_APPROVAL
abbrev pub human_approval_spec : VerifierSpec
human_approval_spec = record {
  kind = human_approval;
  closes = record { identity = 1; authorization = 2; resource = 2; behaviour = 1; effect = 1 };
  cost = 10000;
  inline = false;
  human = true;
}

-- the property `needs_human_review`: some step is for a person
abbrev pub needs_human_review : List VerifierSpec → Bool
needs_human_review = any (λ s. s.human)

-- the property `inline`
abbrev pub inline_steps : List VerifierSpec → List VerifierSpec
inline_steps = keep (λ s. s.inline)

-- the property `pending`
abbrev pub pending_steps : List VerifierSpec → List VerifierSpec
pending_steps = keep (λ s. not s.inline && not s.human)

-- the property `kinds`
abbrev pub kinds : List VerifierSpec → List EvidenceKind
kinds [] = []
kinds (s ∷ ss) = s.kind ∷ kinds ss

-- itertools.combinations
unfoldable pub combinations {ℓ} : {A : Type ℓ} → ℕ → List A → List (List A)
combinations zero xs = [] ∷ []
combinations (suc r) [] = []
combinations (suc r) (x ∷ xs) = map (λ c. x ∷ c) (combinations r xs) ++ combinations (suc r) xs

-- any(v.closes.get(dim, 0) >= lvl for v in combo), at a dimension of the gap
abbrev pub reaches : (Levels → ℕ) → ℕ → List VerifierSpec → Bool
reaches dim lvl combo = lvl == 0 || any (λ v. leb lvl (dim v.closes)) combo

-- all(… for dim, lvl in gap.items())
unfoldable pub covers : Levels → List VerifierSpec → Bool
covers gap combo =
    reaches (λ l. l.identity) gap.identity combo
    && (reaches (λ l. l.authorization) gap.authorization combo
        && (reaches (λ l. l.resource) gap.resource combo
            && (reaches (λ l. l.behaviour) gap.behaviour combo
                && reaches (λ l. l.effect) gap.effect combo)))

-- key[:2]
abbrev pub cost_of : List VerifierSpec → ℕ
cost_of = sum_of (λ v. v.cost)

abbrev pub waits_of : List VerifierSpec → ℕ
waits_of = sum_of (λ v. if v.inline then 0 else 1)

-- the order of two keys
abbrev pub cheaper : List VerifierSpec → List VerifierSpec → Bool
cheaper a b =
    ltb (cost_of a) (cost_of b) || (cost_of a == cost_of b && ltb (waits_of a) (waits_of b))

-- best is None or key[:2] < best[:2]
abbrev pub better : List VerifierSpec → Option (List VerifierSpec) → Bool
better combo none = true
better combo (some best) = cheaper combo best

-- the body of the inner loop
abbrev pub consider :
    Levels → Option (List VerifierSpec) → List VerifierSpec → Option (List VerifierSpec)
consider gap best combo = if covers gap combo && better combo best then some combo else best

-- the inner loop, over the combinations of one length
unfoldable pub search_combos :
    Levels → Option (List VerifierSpec) → List (List VerifierSpec) → Option (List VerifierSpec)
search_combos gap best [] = best
search_combos gap best (c ∷ cs) = search_combos gap (consider gap best c) cs

-- the outer loop, for r = start, start + 1, …, with `left` rounds left
unfoldable pub search_sizes :
    Levels → List VerifierSpec → ℕ → ℕ → Option (List VerifierSpec) → Option (List VerifierSpec)
search_sizes gap machine start zero best = best
search_sizes gap machine start (suc left) best =
    search_sizes gap machine (suc start) left (search_combos gap best (combinations start machine))

abbrev pub or_human : Option (List VerifierSpec) → List VerifierSpec
or_human none = human_approval_spec ∷ []
or_human (some best) = best

abbrev pub machines : List VerifierSpec → List VerifierSpec
machines = keep (λ v. not v.human)

-- plan
unfoldable pub plan : Levels → List VerifierSpec → Option (List VerifierSpec)
unfolding search_combos search_sizes combinations covers
plan gap available =
    if is_none gap
    then none
    else some
        (or_human (search_sizes gap (machines available) 1 (length (machines available)) none))
