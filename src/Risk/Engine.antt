-- ===== src/Risk/Engine.antt =====
-- services/guardrail-gateway/app/risk/engine.py: the additive, capped score with its reason codes,
-- the band and the dynamic trust. The fractions of the source are scaled to whole numbers: a band's
-- threshold 30 + 0.2 * trust is compared as 5 * score < 150 + trust, and a confidence is in
-- hundredths.
pub mod Bounds
pub mod Monotone
use policy_guardrails_agent.Prelude.{
  if◌then◌else◌, ltb, leb, ◌==◌, is_some, sum_of, mem, ℕ, ◌+◌, ◌-◌, ◌*◌, ◌/◌, min, max, Bool, true,
  false, not, ◌&&◌, ◌||◌, Option, none, some, List, [], ◌∷◌, ◌++◌,
}
use policy_guardrails_agent.Prelude.Int.{clamp}
use policy_guardrails_agent.Sdk.Models.{Stage, same_stage}
use policy_guardrails_agent.Context.Descriptors.{
  Kind, Verb, ActionDescriptor, is_kind, is_verb, is_external, is_given, parsed,
}
use policy_guardrails_agent.Session.View.{Penalty, SessionView}
use policy_guardrails_agent.Risk.Config.{RiskConfig, Band}
use policy_guardrails_agent.Risk.Numerics.{Numerics}
use policy_guardrails_agent.Risk.Codes.{
  ReasonCode, new_resource, volume_no_baseline, unbounded_read, sensitive_then_external,
  tainted_session, low_assurance, no_session, new_session, repeated_denials, destructive_verb,
  unknown_tool, multiple_statements, agent_finding, tool_definition_changed, low_confidence,
  volume_x,
}

-- a signal's detail is text for the operator and is not modelled
pub record Signal : Type 0 where
  pub code : ReasonCode
  pub points : ℕ

pub record Assessment : Type 0 where
  pub score : ℕ
  pub band : Band
  pub trust : ℕ
  pub confidence : ℕ
  pub inherent : ℕ
  pub signals : List Signal

-- Assessment.codes
abbrev pub codes : List Signal → List ReasonCode
codes [] = []
codes (s ∷ ss) = s.code ∷ codes ss

abbrev pub total : List Signal → ℕ
total = sum_of (λ s. s.points)

-- band_for
unfoldable pub band_for : ℕ → ℕ → Band
band_for score trust =
    if leb 80 score
    then Band.critical
    else if ltb (5 * score) (150 + trust)
    then Band.low
    else if ltb (5 * score) (min 400 (275 + trust))
    then Band.elevated
    else Band.high

-- the arguments of `assess`: `production` is environment == "production", `claimed_only` is
-- assurance == "A0", `sensitive_data` is data_classification in ("PII", "CONFIDENTIAL"), and
-- `has_findings` says that agent_findings is not empty
pub record Request : Type 0 where
  pub inherent : ℕ
  pub base_trust : ℕ
  pub descriptor : ActionDescriptor
  pub view : SessionView
  pub stage : Stage
  pub production : Bool
  pub claimed_only : Bool
  pub sensitive_data : Bool
  pub has_session_id : Bool
  pub cfg : RiskConfig
  pub now : ℕ
  pub has_findings : Bool
  pub tool_flagged : Bool

-- sig.append(Signal(code, points)) under a test
abbrev pub when : Bool → ReasonCode → ℕ → List Signal
when b code points = if b then record { code = code; points = points } ∷ [] else []

-- `view.first_seen_target`, where None is false
abbrev pub is_true : Option Bool → Bool
is_true none = false
is_true (some b) = b

abbrev pub is_false : Option Bool → Bool
is_false none = false
is_false (some b) = not b

-- d.kind not in ("model",)
abbrev pub tool_like : ActionDescriptor → Bool
tool_like d = not (is_kind d.kind Kind.model)

-- any(lbl in view.labels for lbl in SENSITIVE_LABELS) or data_classification in (…)
abbrev pub holds_sensitive : Request → Bool
holds_sensitive r =
    mem "holds:PII" r.view.labels || (mem "holds:CONFIDENTIAL" r.view.labels || r.sensitive_data)

-- if not has_session_id … elif not view.has_session or …
abbrev pub session_signals : Request → List Signal
session_signals r =
    if not r.has_session_id
    then when true no_session r.cfg.new_session
    else when (not r.view.has_session || ltb r.view.age_seconds r.cfg.new_session_seconds)
        new_session r.cfg.new_session

-- denials = max(view.denials, view.agent_recent_denials)
abbrev pub denial_signals : Request → List Signal
denial_signals r =
    let denials = max r.view.denials r.view.agent_recent_denials in
    when (leb 1 denials) repeated_denials (min r.cfg.repeated_denials_cap (10 * denials))

-- stage == "tool" and "untrusted_input" in view.labels
abbrev pub is_tainted : Request → Bool
is_tainted r = same_stage r.stage Stage.tool && mem "untrusted_input" r.view.labels

-- the signals that depend on the session and on who asks
unfoldable pub context_signals : Request → List Signal
context_signals r =
    when (is_tainted r) tainted_session r.cfg.tainted_session
    ++ (when (r.claimed_only && r.production) low_assurance r.cfg.low_assurance_production
        ++ (session_signals r ++ denial_signals r))

-- the signals that depend on how well the action is understood
unfoldable pub tool_signals : Request → List Signal
tool_signals r =
    let d = r.descriptor in
    let tool = same_stage r.stage Stage.tool in
    when (tool && (is_verb d.verb Verb.delete || is_verb d.verb Verb.admin)) destructive_verb
      r.cfg.destructive_verb
    ++ (when (tool && not (parsed d)) unknown_tool r.cfg.unknown_tool
        ++ (when (ltb 1 d.statements) multiple_statements r.cfg.multiple_statements
            ++ (when r.has_findings agent_finding r.cfg.agent_finding
                ++ when (tool && r.tool_flagged) tool_definition_changed
                    r.cfg.tool_definition_changed)))

-- view.volume_p95 is not None and view.volume_samples >= cfg.volume_min_samples
abbrev pub has_baseline : Request → Bool
has_baseline r = is_some r.view.volume_p95 && leb r.cfg.volume_min_samples r.view.volume_samples

-- round(sum(w for w, ok in parts if ok), 2), in hundredths
abbrev pub confidence_of : Request → ℕ
confidence_of r =
    (if r.view.available then 30 else 0)
    + ((if r.has_session_id then 20 else 0)
        + ((if parsed r.descriptor || not (same_stage r.stage Stage.tool) then 30 else 0)
            + (if not (is_some r.descriptor.rows_requested) || has_baseline r then 20 else 0)))

module _ (num : Numerics) where
  lost_from : num.Float → List Penalty → ℕ → num.Float
  lost_from acc [] now = acc
  lost_from acc (p ∷ ps) now =
      lost_from (num.plus acc (num.decayed p.points p.half_life (now - p.at))) ps now

  -- sum(p.remaining(now) for p in view.penalties)
  unfoldable pub lost : List Penalty → ℕ → num.Float
  unfolding lost_from
  lost ps now = lost_from num.nought ps now

  -- current_trust
  unfoldable pub current_trust : ℕ → SessionView → ℕ → ℕ
  current_trust base view now = clamp base (num.round_less base (lost view.penalties now))

  -- the volume signal, at a request for `rows` rows: a ratio against a trusted baseline, or a cold
  -- start. `max(view.volume_p95, 1.0)` is `p`.
  abbrev pub volume_ratio : RiskConfig → ℕ → ℕ → List Signal
  volume_ratio cfg rows p =
      when (leb (2 * p) rows) (volume_x (rows / p)) (min cfg.volume_cap (num.log_points rows p))

  abbrev pub volume_signal : RiskConfig → ℕ → Option ℕ → ℕ → List Signal
  volume_signal cfg rows none samples =
      when (leb cfg.cold_start_rows rows) volume_no_baseline cfg.volume_no_baseline
  volume_signal cfg rows (some p) samples =
      if leb cfg.volume_min_samples samples
      then volume_ratio cfg rows (max p 1)
      else when (leb cfg.cold_start_rows rows) volume_no_baseline cfg.volume_no_baseline

  -- if tool_like and rows is not None and rows >= cfg.volume_min_rows
  abbrev pub volume_signals : RiskConfig → Bool → Option ℕ → SessionView → List Signal
  volume_signals cfg tool none view = []
  volume_signals cfg tool (some rows) view =
      if tool && leb cfg.volume_min_rows rows
      then volume_signal cfg rows view.volume_p95 view.volume_samples
      else []

  -- the signals that depend on what the request does
  unfoldable pub action_signals : Request → List Signal
  action_signals r =
      let d = r.descriptor in
      when
        (tool_like d
          && (is_given d.target
              && (is_true r.view.first_seen_target && same_stage r.stage Stage.tool)))
        new_resource r.cfg.new_resource
      ++ (volume_signals r.cfg (tool_like d) d.rows_requested r.view
          ++ (when
                (is_kind d.kind Kind.sql
                  && (is_verb d.verb Verb.read
                      && (not (is_some d.rows_requested) && is_false d.has_filter)))
                unbounded_read r.cfg.unbounded_read
              ++ when
                  (is_external d.destination
                    && ((is_verb d.verb Verb.send || is_verb d.verb Verb.write)
                        && holds_sensitive r))
                  sensitive_then_external r.cfg.sensitive_then_external))

  -- if penalty: sig.append(…)
  unfoldable pub confidence_signals : Request → List Signal
  confidence_signals r =
      let penalty = num.share r.cfg.confidence_penalty (confidence_of r) in
      when (not (penalty == 0)) low_confidence penalty

  unfoldable pub signals_of : Request → List Signal
  unfolding action_signals context_signals tool_signals confidence_signals
  signals_of r = action_signals r ++ (context_signals r ++ (tool_signals r ++ confidence_signals r))

  -- assess; the score's lower clamp at 0 is idle on natural numbers
  unfoldable pub assess : Request → Assessment
  unfolding current_trust band_for signals_of
  assess r =
      let score = min 100 (r.inherent + total (signals_of r)) in
      let trust = current_trust r.base_trust r.view r.now in
      record {
        score = score;
        band = band_for score trust;
        trust = trust;
        confidence = confidence_of r;
        inherent = r.inherent;
        signals = signals_of r;
      }
