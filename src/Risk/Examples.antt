-- ===== src/Risk/Examples.antt =====
-- The decision table and the risk engine at concrete requests.
use policy_guardrails_agent.Prelude.{
  mem, ℕ, ◌+◌, ◌-◌, ◌*◌, ◌/◌, ◌≤◌, ◌<◌, min, String, ◌≡◌, refl, ◌↔◌, ◌⊎◌, inl, true, false, none,
  some, [], ◌∷◌, arith,
}
use policy_guardrails_agent.Prelude.Int.{sub_ℕ}
use policy_guardrails_agent.Sdk.Models.{Decision, Stage, precedence}
use policy_guardrails_agent.Context.Descriptors.{Kind, Verb, ActionDescriptor}
use policy_guardrails_agent.Session.View.{unavailable_view}
use policy_guardrails_agent.Risk.Config.{Band, band_rank, default_config}
use policy_guardrails_agent.Risk.Codes.{
  risk_elevated, row_limit, unbounded_read, no_session, low_confidence,
}
use policy_guardrails_agent.Risk.Decision.{Outcome, Facts, decide, is_allowing, order_index, legacy}
use policy_guardrails_agent.Risk.Decision.Permissive.{
  MayPass, decide_allows_iff, engine-le-decide, decide-obligations,
}
use policy_guardrails_agent.Risk.Decision.Tightening.{
  advised, advised-ge, advised_weakens, banded, banded_mono,
}
use policy_guardrails_agent.Risk.Numerics.{Numerics}
use policy_guardrails_agent.Risk.Engine.{Request, assess, band_for, codes, lost}
use policy_guardrails_agent.Risk.Engine.Bounds.{assess_bounds}
use policy_guardrails_agent.Risk.Engine.Monotone.{seeing, grown, assess_mono}

abbrev pub big_read : ActionDescriptor
big_read = record {
  kind = Kind.sql;
  verb = Verb.read;
  target = some "customers";
  tables = "customers" ∷ [];
  columns = [];
  rows_requested = none;
  has_limit = some false;
  has_filter = some false;
  destination = none;
  destination_host = none;
  statements = 1;
  notes = [];
}

abbrev facts : Facts
facts = record {
  policy_allow = true;
  engine_decision = Decision.allow;
  band = Band.elevated;
  descriptor = big_read;
  quarantined = false;
  accepts_obligations = true;
  cfg = default_config;
  verification_available = true;
  advisor_verify = false;
}

decide_runs : decide facts ≡ record {
  outcome = Outcome.allow_restricted;
  reason_codes = risk_elevated ∷ row_limit ∷ [];
  obligations = ("row_limit", 1000) ∷ [];
}
unfolding decide
decide_runs = refl

decide_allows_iff_example : (is_allowing (decide facts).outcome ≡ true) ↔ MayPass facts
decide_allows_iff_example = decide_allows_iff facts

engine-le-decide_example : precedence facts.engine_decision ≤ precedence (legacy (decide facts))
engine-le-decide_example = engine-le-decide facts

decide-obligations_example :
    ((decide facts).obligations ≡ [])
    ⊎ ((is_allowing (decide facts).outcome ≡ true)
        × (facts.accepts_obligations ≡ true)
        × ((decide facts).obligations ≡ ("row_limit", facts.cfg.elevated_row_limit) ∷ []))
decide-obligations_example = decide-obligations facts

advised-ge_example :
    order_index (decide (advised facts false)).outcome
    ≤ order_index (decide (advised facts true)).outcome
advised-ge_example = advised-ge facts (inl refl)

abbrev deaf : Facts
deaf = record facts { accepts_obligations = false }

advised_weakens_example :
    ((decide (advised deaf false)).outcome ≡ Outcome.hold)
    × ((decide (advised deaf true)).outcome ≡ Outcome.verify)
    × (order_index (decide (advised deaf true)).outcome
        < order_index (decide (advised deaf false)).outcome)
advised_weakens_example = advised_weakens deaf (record {
  allowed = refl;
  calm = refl;
  elevated = refl;
  sql = refl;
  read = refl;
  big = refl;
  passed = refl;
  deaf = refl;
  verifier = refl;
})

banded-mono_example :
    order_index (decide (banded facts Band.low)).outcome
    ≤ order_index (decide (banded facts Band.high)).outcome
banded-mono_example = banded_mono facts Band.low Band.high refl (omega arith)

-- arithmetic on whole numbers in the place of floating point: a penalty fades by its points for
-- each half-life, and the logarithm counts doublings
abbrev whole : Numerics
whole = record {
  Float = ℕ;
  nought = 0;
  plus = λ a b. a + b;
  decayed = λ points half_life age. points - points * age / (half_life * 86 + 1);
  round_less = sub_ℕ;
  log_points = λ rows p. min 25 (8 * (rows / (p + p)));
  share = λ penalty confidence. penalty * (100 - confidence) / 100;
}

abbrev request : Request
request = record {
  inherent = 30;
  base_trust = 60;
  descriptor = big_read;
  view = unavailable_view;
  stage = Stage.tool;
  production = true;
  claimed_only = false;
  sensitive_data = false;
  has_session_id = false;
  cfg = default_config;
  now = 1000;
  has_findings = false;
  tool_flagged = false;
}

assess_runs :
    ((assess whole request).score ≡ 60)
    × ((assess whole request).band ≡ Band.elevated)
    × (codes (assess whole request).signals ≡ unbounded_read ∷ no_session ∷ low_confidence ∷ [])
unfolding assess lost
assess_runs = (refl, refl, refl)

assess_bounds_example :
    (request.inherent ≤ (assess whole request).score)
    × ((assess whole request).score ≤ 100)
    × ((assess whole request).trust ≤ request.base_trust)
    × ((assess whole request).band
        ≡ band_for (assess whole request).score (assess whole request).trust)
assess_bounds_example = assess_bounds whole request (omega arith)

nothing_to_nothing : (l : String) → mem l [] ≡ true → mem l ("untrusted_input" ∷ []) ≡ true
nothing_to_nothing l h = cc

assess-mono_example :
    ((assess whole request).score
      ≤ (assess whole (seeing request (grown request.view ("untrusted_input" ∷ []) 2 3))).score)
    × (band_rank (assess whole request).band
        ≤ band_rank
            (assess whole (seeing request (grown request.view ("untrusted_input" ∷ []) 2 3))).band)
assess-mono_example =
    assess_mono whole request ("untrusted_input" ∷ []) 2 3 nothing_to_nothing (omega arith)
      (omega arith)
