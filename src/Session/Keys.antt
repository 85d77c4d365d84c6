-- ===== src/Session/Keys.antt =====
-- The keys of the session store's dictionaries: tuples of tenant, agent and session id.
use policy_guardrails_agent.Prelude.{str_eq, eq_iff, Eq, String, ◌≡◌, ◌↔◌, Bool, true, ◌&&◌, arith}

instance abbrev pub string_eq : Eq String
string_eq = record { beq = str_eq; beq_iff = eq_iff }

pub record AgentKey : Type 0 where
  pub tenant : String
  pub agent : String

pub record SessionKey : Type 0 where
  pub tenant : String
  pub agent : String
  pub session : String

abbrev pub same_agent : AgentKey → AgentKey → Bool
same_agent a b = str_eq a.tenant b.tenant && str_eq a.agent b.agent

abbrev pub same_session : SessionKey → SessionKey → Bool
same_session a b =
    str_eq a.tenant b.tenant && (str_eq a.agent b.agent && str_eq a.session b.session)

pub same_agent_iff : (a b : AgentKey) → (same_agent a b ≡ true) ↔ (a ≡ b)
same_agent_iff a b = (
  λ h. ground (arith, eq_iff a.tenant b.tenant, eq_iff a.agent b.agent),
  λ h. ground (arith, eq_iff a.tenant b.tenant, eq_iff a.agent b.agent),
)

pub same_session_iff : (a b : SessionKey) → (same_session a b ≡ true) ↔ (a ≡ b)
same_session_iff a b = (
  λ h. ground (arith, eq_iff a.tenant b.tenant, eq_iff a.agent b.agent, eq_iff a.session b.session),
  λ h. ground (arith, eq_iff a.tenant b.tenant, eq_iff a.agent b.agent, eq_iff a.session b.session),
)

instance abbrev pub agent_key_eq : Eq AgentKey
agent_key_eq = record { beq = same_agent; beq_iff = same_agent_iff }

instance abbrev pub session_key_eq : Eq SessionKey
session_key_eq = record { beq = same_session; beq_iff = same_session_iff }
