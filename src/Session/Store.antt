-- ===== src/Session/Store.antt =====
-- MemorySessionStore of services/guardrail-gateway/app/session/store.py. The clock's reading is an
-- argument of each operation. `_touch` hands out a reference to an entry, which `record` then
-- changes: the model writes the changed entry back where the dictionary still holds the key.
pub mod Bounded
pub mod Visible
pub mod Quarantine
use policy_guardrails_agent.Prelude.{
  if◌then◌else◌, ltb, leb, ◌==◌, is_some, length, take, drop, sum_of, str_eq, mem, lookup, put, ℕ,
  ◌+◌, ◌-◌, max, String, Bool, true, false, not, ◌&&◌, ◌||◌, Option, none, some, List, [], ◌∷◌,
  ◌++◌,
}
use policy_guardrails_agent.Session.View.{
  Penalty, SessionView, SessionUpdate, session_ttl_seconds, seen_ttl_seconds, denial_window_seconds,
  volume_window, max_penalties, max_recent_denials,
}
use policy_guardrails_agent.Session.Percentile.{p95}
use policy_guardrails_agent.Session.Keys.{
  string_eq, AgentKey, SessionKey, agent_key_eq, session_key_eq,
}
use policy_guardrails_agent.Session.Ordered.{move_to_end, trim, write_back}

-- an entry of `_agents`; a key that the program has not set yet reads as its default
pub record AgentEntry : Type 0 where
  pub exp : ℕ
  pub seen : List (String × ℕ)
  pub vol : List (String × List ℕ)
  pub pen : List Penalty
  pub den : List ℕ
  pub aq : ℕ

-- an entry of `_sessions`, with the fields that `record` puts into a new one
pub record SessionEntry : Type 0 where
  pub exp : ℕ
  pub started : ℕ
  pub steps : ℕ
  pub denials : ℕ
  pub labels : List String
  pub quarantined_until : ℕ
  pub penalised : Bool

pub record MemoryStore : Type 0 where
  pub max_entries : ℕ
  pub sessions : List (SessionKey × SessionEntry)
  pub agents : List (AgentKey × AgentEntry)

abbrev pub new_agent : ℕ → AgentEntry
new_agent exp = record { exp = exp; seen = []; vol = []; pen = []; den = []; aq = 0 }

-- s.update(started=now, steps=0, …)
abbrev pub new_session : ℕ → ℕ → SessionEntry
new_session now exp = record {
  exp = exp;
  started = now;
  steps = 0;
  denials = 0;
  labels = [];
  quarantined_until = 0;
  penalised = false;
}

-- the entry of a lookup, unless it has expired
abbrev pub live_agent : ℕ → Option AgentEntry → Option AgentEntry
live_agent now none = none
live_agent now (some a) = if leb a.exp now then none else some a

abbrev pub live_session : ℕ → Option SessionEntry → Option SessionEntry
live_session now none = none
live_session now (some s) = if leb s.exp now then none else some s

abbrev pub or_new {ℓ} : {A : Type ℓ} → Option A → A → A
or_new none fresh = fresh
or_new (some a) fresh = a

-- d[-n:] after an append, for `del d[:-n]`
abbrev pub last {ℓ} : {A : Type ℓ} → ℕ → List A → List A
last n xs = drop (length xs - n) xs

-- _touch on `_agents`: the entry, and the dictionary with the entry moved to its end
unfoldable pub touch_agent :
    ℕ → ℕ → AgentKey → List (AgentKey × AgentEntry) → AgentEntry × List (AgentKey × AgentEntry)
unfolding move_to_end trim
touch_agent bound now key d =
    let entry = or_new (live_agent now (lookup key d)) (new_agent (now + seen_ttl_seconds)) in
    (entry, trim bound (move_to_end key entry d))

-- _touch on `_sessions`
unfoldable pub touch_session :
    ℕ
    → ℕ
    → SessionKey
    → List (SessionKey × SessionEntry)
    → SessionEntry × List (SessionKey × SessionEntry)
unfolding move_to_end trim
touch_session bound now key d =
    let entry =
      or_new (live_session now (lookup key d)) (new_session now (now + session_ttl_seconds)) in
    (entry, trim bound (move_to_end key entry d))

-- a.get("vol", {}).get(volume_key, []) if volume_key else []
abbrev pub volumes : Option String → AgentEntry → List ℕ
volumes none a = []
volumes (some k) a = if str_eq k "" then [] else or_new (lookup k a.vol) []

-- None if not target else (seen.get(target, 0) <= now - SEEN_TTL_SECONDS)
abbrev pub first_seen : Option String → ℕ → AgentEntry → Option Bool
first_seen none now a = none
first_seen (some t) now a =
    if str_eq t "" then none else some (leb (or_new (lookup t a.seen) 0 + seen_ttl_seconds) now)

-- sum(1 for t in den if t > now - DENIAL_WINDOW_SECONDS)
abbrev pub recent_denials : ℕ → List ℕ → ℕ
recent_denials now = sum_of (λ t. if ltb now (t + denial_window_seconds) then 1 else 0)

-- SessionView(has_session=False, **agent_part)
unfoldable pub agent_view : ℕ → Option String → Option String → AgentEntry → SessionView
agent_view now target volume_key a = record {
  available = true;
  has_session = false;
  age_seconds = 0;
  steps = 0;
  denials = 0;
  labels = [];
  quarantined_until = 0;
  first_seen_target = first_seen target now a;
  volume_p95 = p95 (volumes volume_key a);
  volume_samples = length (volumes volume_key a);
  penalties = a.pen;
  penalised = false;
  agent_recent_denials = recent_denials now a.den;
  agent_quarantined_until = a.aq;
}

-- SessionView(has_session=True, …, **agent_part)
abbrev pub session_view : ℕ → SessionView → Option SessionEntry → SessionView
session_view now part none = part
session_view now part (some s) = record part {
  has_session = true;
  age_seconds = now - s.started;
  steps = s.steps;
  denials = s.denials;
  labels = s.labels;
  quarantined_until = s.quarantined_until;
  penalised = s.penalised;
}

-- `session_id` when it is neither None nor empty
abbrev pub session_key : String → String → Option String → Option SessionKey
session_key tenant agent none = none
session_key tenant agent (some s) =
    if str_eq s "" then none else some (record { tenant = tenant; agent = agent; session = s })

abbrev pub agent_key : String → String → AgentKey
agent_key tenant agent = record { tenant = tenant; agent = agent }

abbrev pub find_session : Option SessionKey → List (SessionKey × SessionEntry) → Option SessionEntry
find_session none d = none
find_session (some k) d = lookup k d

-- MemorySessionStore.view
unfoldable pub view :
    MemoryStore → ℕ → String → String → Option String → Option String → Option String → SessionView
unfolding agent_view
view st now tenant agent session_id target volume_key =
    let a = or_new (live_agent now (lookup (agent_key tenant agent) st.agents)) (new_agent 0) in
    session_view now (agent_view now target volume_key a)
      (live_session now (find_session (session_key tenant agent session_id) st.sessions))

-- a.setdefault("seen", {})[target] = now
abbrev pub see : Bool → Option String → ℕ → AgentEntry → AgentEntry
see allowed none now a = a
see allowed (some t) now a =
    if allowed && not (str_eq t "") then record a { seen = put t now a.seen } else a

-- window.append(rows); del window[:-VOLUME_WINDOW]
abbrev pub learn : Bool → Option String → Option ℕ → AgentEntry → AgentEntry
learn allowed (some k) (some rows) a =
    if allowed && not (str_eq k "")
    then record a {
      vol = put k (last volume_window (or_new (lookup k a.vol) [] ++ rows ∷ [])) a.vol;
    }
    else a
learn allowed none rows a = a
learn allowed (some k) none a = a

-- pens.insert(0, penalty); del pens[MAX_PENALTIES:]
abbrev pub punish : Option Penalty → AgentEntry → AgentEntry
punish none a = a
punish (some p) a = record a { pen = take max_penalties (p ∷ a.pen) }

-- den.append(now); del den[:-MAX_RECENT_DENIALS]
abbrev pub count_denial : Bool → ℕ → AgentEntry → AgentEntry
count_denial denied now a =
    if denied then record a { den = last max_recent_denials (a.den ++ now ∷ []) } else a

-- a["aq"] = max(a.get("aq", 0.0), now + seconds)
abbrev pub quarantine_agent : ℕ → ℕ → AgentEntry → AgentEntry
quarantine_agent seconds now a =
    if seconds == 0 then a else record a { aq = max a.aq (now + seconds) }

-- the part of `record` that changes the agent's entry
unfoldable pub update_agent : SessionUpdate → ℕ → AgentEntry → AgentEntry
update_agent u now a = quarantine_agent u.agent_quarantine_seconds now (
    count_denial u.denied now (
      punish u.penalty (
        learn u.allowed u.volume_key u.rows
          (see u.allowed u.target now (record a { exp = now + seen_ttl_seconds })))))

-- s["labels"] |= update.labels
abbrev pub union : List String → List String → List String
union xs [] = xs
union xs (y ∷ ys) = let more = union xs ys in if mem y more then more else more ++ y ∷ []

-- the part of `record` that changes the session's entry
unfoldable pub update_session : SessionUpdate → ℕ → SessionEntry → SessionEntry
update_session u now s = record {
  exp = now + session_ttl_seconds;
  started = s.started;
  steps = s.steps + 1;
  denials = s.denials + (if u.denied then 1 else 0);
  labels = union s.labels u.labels;
  quarantined_until =
      (if u.quarantine_seconds == 0
        then s.quarantined_until
        else max s.quarantined_until (now + u.quarantine_seconds));
  penalised = s.penalised || is_some u.penalty;
}

unfoldable pub record_session : SessionUpdate → ℕ → Option SessionKey → MemoryStore → MemoryStore
unfolding touch_session update_session write_back
record_session u now none st = st
record_session u now (some k) st =
    let (s, d) = touch_session st.max_entries now k st.sessions in
    record st { sessions = write_back k (update_session u now s) d }

unfoldable pub record_agent : SessionUpdate → ℕ → AgentKey → MemoryStore → MemoryStore
unfolding touch_agent update_agent write_back
record_agent u now k st =
    let (a, d) = touch_agent st.max_entries now k st.agents in
    record st { agents = write_back k (update_agent u now a) d }

-- MemorySessionStore.record
unfoldable pub record_update :
    MemoryStore → ℕ → String → String → Option String → SessionUpdate → MemoryStore
unfolding record_agent record_session
record_update st now tenant agent session_id u =
    record_session u now (session_key tenant agent session_id)
      (record_agent u now (agent_key tenant agent) st)

-- a call of `record`
pub record Update : Type 0 where
  pub now : ℕ
  pub tenant : String
  pub agent : String
  pub session_id : Option String
  pub update : SessionUpdate

-- the store behind a sequence of calls
unfoldable pub record_all : List Update → MemoryStore → MemoryStore
unfolding record_update
record_all [] st = st
record_all (x ∷ xs) st =
    record_all xs (record_update st x.now x.tenant x.agent x.session_id x.update)

-- MemorySessionStore after a start
abbrev pub new_store : ℕ → MemoryStore
new_store max_entries = record { max_entries = max_entries; sessions = []; agents = [] }
