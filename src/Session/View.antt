-- ===== src/Session/View.antt =====
-- Penalty, SessionView and SessionUpdate of services/guardrail-gateway/app/session/store.py. Times
-- are whole seconds; a half-life is in thousandths of a day. A set of labels is a list.
use policy_guardrails_agent.Prelude.{ltb, ℕ, ◌*◌, String, Bool, false, ◌||◌, Option, none, List, []}
use policy_guardrails_agent.Risk.Codes.{ReasonCode}

abbrev pub session_ttl_seconds : ℕ
session_ttl_seconds = 8 * 3600

abbrev pub seen_ttl_seconds : ℕ
seen_ttl_seconds = 90 * 86400

abbrev pub denial_window_seconds : ℕ
denial_window_seconds = 15 * 60

abbrev pub volume_window : ℕ
volume_window = 200

abbrev pub max_penalties : ℕ
max_penalties = 50

abbrev pub max_recent_denials : ℕ
max_recent_denials = 100

pub record Penalty : Type 0 where
  pub code : ReasonCode
  pub points : ℕ
  pub half_life : ℕ
  pub at : ℕ

pub record SessionView : Type 0 where
  pub available : Bool
  pub has_session : Bool
  pub age_seconds : ℕ
  pub steps : ℕ
  pub denials : ℕ
  pub labels : List String
  pub quarantined_until : ℕ
  pub first_seen_target : Option Bool
  pub volume_p95 : Option ℕ
  pub volume_samples : ℕ
  pub penalties : List Penalty
  pub penalised : Bool
  pub agent_recent_denials : ℕ
  pub agent_quarantined_until : ℕ

-- SessionView.quarantined
abbrev pub quarantined : SessionView → ℕ → Bool
quarantined v now = ltb now v.quarantined_until || ltb now v.agent_quarantined_until

-- SessionView(available=False), with the class's defaults
abbrev pub unavailable_view : SessionView
unavailable_view = record {
  available = false;
  has_session = false;
  age_seconds = 0;
  steps = 0;
  denials = 0;
  labels = [];
  quarantined_until = 0;
  first_seen_target = none;
  volume_p95 = none;
  volume_samples = 0;
  penalties = [];
  penalised = false;
  agent_recent_denials = 0;
  agent_quarantined_until = 0;
}

pub record SessionUpdate : Type 0 where
  pub denied : Bool
  pub allowed : Bool
  pub labels : List String
  pub target : Option String
  pub volume_key : Option String
  pub rows : Option ℕ
  pub quarantine_seconds : ℕ
  pub agent_quarantine_seconds : ℕ
  pub penalty : Option Penalty
