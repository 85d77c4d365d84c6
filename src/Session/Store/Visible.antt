-- ===== src/Session/Store/Visible.antt =====
-- What a recorded update shows to the next view, of the same agent and of others.
use policy_guardrails_agent.Prelude.{
  lookup, ℕ, ◌+◌, ◌≤◌, ◌<◌, String, ◌≡◌, refl, ◌∙◌, Bool, false, Option, none, some, arith,
}
use policy_guardrails_agent.Session.View.{SessionView, SessionUpdate, seen_ttl_seconds}
use policy_guardrails_agent.Session.Keys.{
  string_eq, SessionKey, AgentKey, agent_key_eq, session_key_eq,
}
use policy_guardrails_agent.Session.Ordered.{lookup-touched}
use policy_guardrails_agent.Session.Store.{
  MemoryStore, AgentEntry, SessionEntry, record_agent, record_session, record_update, session_key,
  agent_key, view, or_new, live_agent, new_agent, update_agent, agent_view, session_view,
}

pub agents-record_session :
    (u : SessionUpdate) (now : ℕ) (k : Option SessionKey) (st : MemoryStore)
    → (record_session u now k st).agents ≡ st.agents
unfolding record_session
agents-record_session u now none st = refl
agents-record_session u now (some k) st = refl

-- the agent's entry that a touch hands out
abbrev pub touched : MemoryStore → ℕ → AgentKey → AgentEntry
touched st now k = or_new (live_agent now (lookup k st.agents)) (new_agent (now + seen_ttl_seconds))

pub exp-update_agent :
    (u : SessionUpdate) (now : ℕ) (a : AgentEntry)
    → (update_agent u now a).exp ≡ now + seen_ttl_seconds
unfolding update_agent
exp-update_agent u now a = ground arith

aq-session_view :
    (now : ℕ) (part : SessionView) (s : Option SessionEntry)
    → (session_view now part s).agent_quarantined_until ≡ part.agent_quarantined_until
aq-session_view now part none = refl
aq-session_view now part (some s) = refl

pub live_agent_lem : (now : ℕ) (a : AgentEntry) → now < a.exp → live_agent now (some a) ≡ some a
live_agent_lem now a h = ground arith

-- a view of an agent whose entry is live shows the entry's quarantine
pub aq-view :
    (st : MemoryStore) (now : ℕ) (tenant agent : String)
    (session_id target volume_key : Option String) (a : AgentEntry)
    → lookup (agent_key tenant agent) st.agents ≡ some a
    → now < a.exp
    → (view st now tenant agent session_id target volume_key).agent_quarantined_until ≡ a.aq
unfolding view
aq-view st now tenant agent session_id target volume_key a e h =
    rw (aq-session_view, e, live_agent_lem now a h)

-- what the risk engine compares a request with
abbrev pub Baseline : Type 0
Baseline = record { p95 : Option ℕ; samples : ℕ; first_seen : Option Bool }

abbrev pub baseline : SessionView → Baseline
baseline v = record {
  p95 = v.volume_p95;
  samples = v.volume_samples;
  first_seen = v.first_seen_target;
}

baseline-session_view :
    (now : ℕ) (part : SessionView) (s : Option SessionEntry)
    → baseline (session_view now part s) ≡ baseline part
baseline-session_view now part none = refl
baseline-session_view now part (some s) = refl

baseline-view :
    (st : MemoryStore) (now : ℕ) (tenant agent : String)
    (session_id target volume_key : Option String)
    → baseline (view st now tenant agent session_id target volume_key)
      ≡ baseline (
          agent_view now target volume_key
            (or_new (live_agent now (lookup (agent_key tenant agent) st.agents)) (new_agent 0)))
unfolding view
baseline-view st now tenant agent session_id target volume_key = rw baseline-session_view

baseline-agent_view :
    (now : ℕ) (target volume_key : Option String) (a b : AgentEntry)
    → a.seen ≡ b.seen
    → a.vol ≡ b.vol
    → baseline (agent_view now target volume_key a) ≡ baseline (agent_view now target volume_key b)
unfolding agent_view
baseline-agent_view now none none a b p q = refl
baseline-agent_view now (some t) none a b p q = simp (p, q)
baseline-agent_view now none (some k) a b p q = simp (p, q)
baseline-agent_view now (some t) (some k) a b p q = simp (p, q)

seen-update_agent :
    (u : SessionUpdate) (now : ℕ) (a : AgentEntry)
    → u.allowed ≡ false
    → ((update_agent u now a).seen ≡ a.seen) × ((update_agent u now a).vol ≡ a.vol)
unfolding update_agent
seen-update_agent u now a refused = ground arith

seen-or_new :
    (now exp : ℕ) (o : Option AgentEntry)
    → ((or_new (live_agent now o) (new_agent exp)).seen
        ≡ (or_new (live_agent now o) (new_agent 0)).seen)
      × ((or_new (live_agent now o) (new_agent exp)).vol
          ≡ (or_new (live_agent now o) (new_agent 0)).vol)
seen-or_new now exp o = ground arith

module _ (st : MemoryStore) (now : ℕ) (tenant agent : String) (session_id : Option String)
    (u : SessionUpdate) (room : 1 ≤ st.max_entries) where
  pub agent_after :
      lookup (agent_key tenant agent) (record_update st now tenant agent session_id u).agents
      ≡ some (update_agent u now (touched st now (agent_key tenant agent)))
  unfolding record_update record_agent
  agent_after =
      rw
        (agents-record_session u now (session_key tenant agent session_id)
          (record_agent u now (agent_key tenant agent) st))
        (lookup-touched st.max_entries (agent_key tenant agent) _ _ st.agents room)

  -- A request that was not allowed teaches the baselines nothing: the next view of the agent has
  -- the volumes, their percentile and the known targets of a view taken before it.
  pub refusal_teaches_nothing :
      (other target volume_key : Option String)
      → u.allowed ≡ false
      → baseline (
          view
            (record_update st now tenant agent session_id u)
            now
            tenant
            agent
            other
            target
            volume_key)
        ≡ baseline (view st now tenant agent other target volume_key)
  refusal_teaches_nothing other target volume_key refused =
      let k : AgentKey = agent_key tenant agent in
      let a : AgentEntry = update_agent u now (touched st now k) in
      let live : now < a.exp = omega (arith, exp-update_agent u now (touched st now k)) in
      rw (baseline-view, baseline-view, agent_after, live_agent_lem now a live)
        (baseline-agent_view now target volume_key a
          (or_new (live_agent now (lookup k st.agents)) (new_agent 0))
          ((seen-update_agent u now (touched st now k) refused).0
            ∙ (seen-or_new now (now + seen_ttl_seconds) (lookup k st.agents)).0)
          ((seen-update_agent u now (touched st now k) refused).1
            ∙ (seen-or_new now (now + seen_ttl_seconds) (lookup k st.agents)).1))
