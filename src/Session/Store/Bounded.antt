-- ===== src/Session/Store/Bounded.antt =====
-- The memory of the session store is bounded, whatever the requests are.
use policy_guardrails_agent.Prelude.{length, ℕ, ◌≤◌, String, Option, none, some}
use policy_guardrails_agent.Session.View.{SessionUpdate}
use policy_guardrails_agent.Session.Keys.{
  string_eq, SessionKey, AgentKey, agent_key_eq, session_key_eq,
}
use policy_guardrails_agent.Session.Ordered.{length-touched}
use policy_guardrails_agent.Session.Store.{
  MemoryStore, record_agent, record_session, record_update, session_key, agent_key,
}

pub record IsBounded (st : MemoryStore) : Type 0 where
  pub sessions : length st.sessions ≤ st.max_entries
  pub agents : length st.agents ≤ st.max_entries

record_agent-IsBounded :
    (u : SessionUpdate) (now : ℕ) (k : AgentKey) (st : MemoryStore)
    → IsBounded st
    → IsBounded (record_agent u now k st)
unfolding record_agent
record_agent-IsBounded u now k st h = record {
  sessions = h.sessions;
  agents = length-touched st.max_entries k _ _ st.agents;
}

record_session-IsBounded :
    (u : SessionUpdate) (now : ℕ) (k : Option SessionKey) (st : MemoryStore)
    → IsBounded st
    → IsBounded (record_session u now k st)
unfolding record_session
record_session-IsBounded u now none st h = h
record_session-IsBounded u now (some k) st h = record {
  sessions = length-touched st.max_entries k _ _ st.sessions;
  agents = h.agents;
}

-- Recording any update keeps both dictionaries within the configured number of entries.
pub record_update-IsBounded :
    (st : MemoryStore) (now : ℕ) (tenant agent : String) (session_id : Option String)
    (u : SessionUpdate)
    → IsBounded st
    → IsBounded (record_update st now tenant agent session_id u)
unfolding record_update
record_update-IsBounded st now tenant agent session_id u h =
    record_session-IsBounded u now (session_key tenant agent session_id)
      (record_agent u now (agent_key tenant agent) st)
      (record_agent-IsBounded u now (agent_key tenant agent) st h)
