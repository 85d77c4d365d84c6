-- ===== src/Risk/Config.antt =====
-- RiskConfig of services/guardrail-gateway/app/risk/engine.py. The settings are the non-negative
-- numbers that the program is deployed with; the half-life is in thousandths of a day.
use policy_guardrails_agent.Prelude.{ℕ}

pub record RiskConfig : Type 0 where
  pub new_resource : ℕ
  pub volume_cap : ℕ
  pub volume_no_baseline : ℕ
  pub volume_min_rows : ℕ
  pub volume_min_samples : ℕ
  pub cold_start_rows : ℕ
  pub unbounded_read : ℕ
  pub sensitive_then_external : ℕ
  pub tainted_session : ℕ
  pub low_assurance_production : ℕ
  pub new_session : ℕ
  pub new_session_seconds : ℕ
  pub repeated_denials_cap : ℕ
  pub destructive_verb : ℕ
  pub unknown_tool : ℕ
  pub multiple_statements : ℕ
  pub confidence_penalty : ℕ
  pub agent_finding : ℕ
  pub tool_definition_changed : ℕ
  pub elevated_row_limit : ℕ
  pub penalty_after_denials : ℕ
  pub denial_penalty_points : ℕ
  pub denial_penalty_half_life : ℕ
  pub quarantine_after_denials : ℕ
  pub quarantine_seconds : ℕ
  pub agent_quarantine_after_denials : ℕ

-- the class's defaults
abbrev pub default_config : RiskConfig
default_config = record {
  new_resource = 15;
  volume_cap = 25;
  volume_no_baseline = 10;
  volume_min_rows = 100;
  volume_min_samples = 20;
  cold_start_rows = 1000;
  unbounded_read = 15;
  sensitive_then_external = 30;
  tainted_session = 15;
  low_assurance_production = 20;
  new_session = 5;
  new_session_seconds = 300;
  repeated_denials_cap = 20;
  destructive_verb = 10;
  unknown_tool = 15;
  multiple_statements = 10;
  confidence_penalty = 20;
  agent_finding = 20;
  tool_definition_changed = 25;
  elevated_row_limit = 1000;
  penalty_after_denials = 3;
  denial_penalty_points = 10;
  denial_penalty_half_life = 7000;
  quarantine_after_denials = 5;
  quarantine_seconds = 900;
  agent_quarantine_after_denials = 10;
}

-- Band
pub data Band : Type 0 where
  low elevated high critical : Band

-- the order of the bands, from the least risk to the most
abbrev pub band_rank : Band → ℕ
band_rank Band.low = 0
band_rank Band.elevated = 1
band_rank Band.high = 2
band_rank Band.critical = 3
