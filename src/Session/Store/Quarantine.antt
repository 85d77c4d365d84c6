-- ===== src/Session/Store/Quarantine.antt =====
-- An agent's quarantine, through the updates that follow it.
use policy_guardrails_agent.Prelude.{
  Bool-cases, length, All, lookup, ℕ, ◌+◌, ◌≤◌, ◌<◌, String, ◌≡◌, refl, sym, ap, ◌∙◌, subst, inl,
  inr, true, false, Option, none, some, List, [], ◌∷◌, ◌++◌, arith,
}
use policy_guardrails_agent.Session.View.{SessionView, quarantined, SessionUpdate, seen_ttl_seconds}
use policy_guardrails_agent.Session.Keys.{
  string_eq, agent_key_eq, session_key_eq, AgentKey, SessionKey,
}
use policy_guardrails_agent.Session.Roomy.{IsRoomy, is_key, touched-IsRoomy, lookup-other}
use policy_guardrails_agent.Session.Store.Visible.{
  aq-view, agents-record_session, touched, live_agent_lem, agent_after, exp-update_agent,
}
use policy_guardrails_agent.Session.Store.{
  MemoryStore, update_agent, record_session, Update, record_update, agent_key, AgentEntry,
  record_agent, record_all, session_key, view, new_store,
}

record_all-append :
    (xs ys : List Update) (st : MemoryStore)
    → record_all (xs ++ ys) st ≡ record_all ys (record_all xs st)
unfolding record_all
record_all-append [] ys st = refl
record_all-append (x ∷ xs) ys st =
    record_all-append xs ys (record_update st x.now x.tenant x.agent x.session_id x.update)

nothing_yet : (keys : List AgentKey) → IsRoomy keys (new_store 0).agents
nothing_yet keys = omega arith

quarantined_by_agent :
    (v : SessionView) (now : ℕ) → now < v.agent_quarantined_until → quarantined v now ≡ true
quarantined_by_agent v now h = ground arith

aq-update_agent :
    (u : SessionUpdate) (now : ℕ) (a : AgentEntry)
    → 0 < u.agent_quarantine_seconds
    → now + u.agent_quarantine_seconds ≤ (update_agent u now a).aq
unfolding update_agent
aq-update_agent u now a h = ground arith

-- no update cuts a quarantine short
aq-kept : (u : SessionUpdate) (now : ℕ) (a : AgentEntry) → a.aq ≤ (update_agent u now a).aq
unfolding update_agent
aq-kept u now a = ground arith

agents-record_update :
    (st : MemoryStore) (x : Update)
    → (record_update st x.now x.tenant x.agent x.session_id x.update).agents
      ≡ (record_agent x.update x.now (agent_key x.tenant x.agent) st).agents
unfolding record_update
agents-record_update st x =
    agents-record_session x.update x.now (session_key x.tenant x.agent x.session_id)
      (record_agent x.update x.now (agent_key x.tenant x.agent) st)

bound-record_session :
    (u : SessionUpdate) (now : ℕ) (k : Option SessionKey) (st : MemoryStore)
    → (record_session u now k st).max_entries ≡ st.max_entries
unfolding record_session
bound-record_session u now none st = refl
bound-record_session u now (some k) st = refl

bound-record_update :
    (st : MemoryStore) (x : Update)
    → (record_update st x.now x.tenant x.agent x.session_id x.update).max_entries ≡ st.max_entries
unfolding record_update record_agent
bound-record_update st x =
    bound-record_session x.update x.now (session_key x.tenant x.agent x.session_id)
      (record_agent x.update x.now (agent_key x.tenant x.agent) st)

abbrev pub Known : List AgentKey → List Update → Type 0
Known keys = All (λ x. is_key (agent_key x.tenant x.agent) keys ≡ true)

-- the calls were made in this span of time
abbrev pub Between : ℕ → ℕ → List Update → Type 0
Between from until = All (λ x. (from ≤ x.now) × (x.now ≤ until))

module _ (keys : List AgentKey) where
  record Fits (st : MemoryStore) : Type 0 where
    bound : length keys ≤ st.max_entries
    roomy : IsRoomy keys st.agents

  update-Fits :
      (st : MemoryStore) (x : Update)
      → is_key (agent_key x.tenant x.agent) keys ≡ true
      → Fits st
      → Fits (record_update st x.now x.tenant x.agent x.session_id x.update)
  unfolding record_agent
  update-Fits st x member f = record {
    bound = rw (bound-record_update st x) f.bound;
    roomy = rw (agents-record_update st x) (
        touched-IsRoomy st.max_entries (agent_key x.tenant x.agent) _ _ st.agents keys f.bound
          member f.roomy);
  }

  all-Fits :
      (xs : List Update) (st : MemoryStore) → Known keys xs → Fits st → Fits (record_all xs st)
  unfolding record_all
  all-Fits [] st k f = f
  all-Fits (x ∷ xs) st k f =
      all-Fits xs (record_update st x.now x.tenant x.agent x.session_id x.update) k.1
        (update-Fits st x k.0 f)

  room_of : (st : MemoryStore) (k : AgentKey) → is_key k keys ≡ true → Fits st → 1 ≤ st.max_entries
  room_of st k member f = omega (arith, f.bound, some_keys keys member)
    where
      some_keys : (ks : List AgentKey) → is_key k ks ≡ true → 1 ≤ length ks
      some_keys [] h = cc
      some_keys (j ∷ ks) h = omega arith

  -- the agent's entry holds a quarantine, and lives as long
  record Holds (k : AgentKey) (until : ℕ) (st : MemoryStore) : Type 0 where
    entry : AgentEntry
    stands : lookup k st.agents ≡ some entry
    lasts : until ≤ entry.aq
    lives : until ≤ entry.exp

  same_agent_update :
      (tenant agent : String) (until : ℕ) (st : MemoryStore) (now : ℕ) (session_id : Option String)
      (u : SessionUpdate)
      → 1 ≤ st.max_entries
      → now < until
      → until ≤ now + seen_ttl_seconds
      → Holds (agent_key tenant agent) until st
      → Holds (agent_key tenant agent) until (record_update st now tenant agent session_id u)
  same_agent_update tenant agent until st now session_id u room early short h =
      let a : AgentEntry = touched st now (agent_key tenant agent) in
      let same : a ≡ h.entry =
        rw (h.stands, live_agent_lem now h.entry (omega (arith, h.lives))) refl in
      record {
        entry = update_agent u now a;
        stands = agent_after st now tenant agent session_id u room;
        lasts = omega (arith, aq-kept u now a, h.lasts, ap (λ (e : AgentEntry). e.aq) same);
        lives = omega (arith, exp-update_agent u now a);
      }

  other_agent_update :
      (k : AgentKey) (until : ℕ) (st : MemoryStore) (x : Update)
      → is_key (agent_key x.tenant x.agent) keys ≡ true
      → Fits st
      → agent_key_eq.beq (agent_key x.tenant x.agent) k ≡ false
      → Holds k until st
      → Holds k until (record_update st x.now x.tenant x.agent x.session_id x.update)
  unfolding record_agent
  other_agent_update k until st x member f apart h = record {
    entry = h.entry;
    stands = rw (agents-record_update st x) (
        lookup-other st.max_entries (agent_key x.tenant x.agent) k _ _ st.agents keys f.bound member
          f.roomy apart
        ∙ h.stands);
    lasts = h.lasts;
    lives = h.lives;
  }

  update-Holds :
      (k : AgentKey) (until : ℕ) (st : MemoryStore) (x : Update)
      → is_key (agent_key x.tenant x.agent) keys ≡ true
      → Fits st
      → x.now < until
      → until ≤ x.now + seen_ttl_seconds
      → Holds k until st
      → Holds k until (record_update st x.now x.tenant x.agent x.session_id x.update)
  update-Holds k until st x member f early short h =
      elim (Bool-cases (agent_key_eq.beq (agent_key x.tenant x.agent) k)) [
        | inl y ↦
            let same = (agent_key_eq.beq_iff (agent_key x.tenant x.agent) k).0 y in
            subst
              (λ j. Holds j until (record_update st x.now x.tenant x.agent x.session_id x.update))
              same
              (same_agent_update x.tenant x.agent until st x.now x.session_id x.update
                (room_of st (agent_key x.tenant x.agent) member f) early short
                (subst (λ j. Holds j until st) (sym same) h))
        | inr n ↦ other_agent_update k until st x member f n h
      ]

  all-Holds :
      (k : AgentKey) (from until later : ℕ) (xs : List Update) (st : MemoryStore)
      → Known keys xs
      → Between from later xs
      → later < until
      → until ≤ from + seen_ttl_seconds
      → Fits st
      → Holds k until st
      → Holds k until (record_all xs st)
  unfolding record_all
  all-Holds k from until later [] st known between early short f h = h
  all-Holds k from until later (x ∷ xs) st known between early short f h =
      all-Holds k from until later xs
        (record_update st x.now x.tenant x.agent x.session_id x.update) known.1 between.1 early
        short (update-Fits st x known.0 f)
        (update-Holds k until st x known.0 f (omega (arith, between.0.0, between.0.1))
          (omega (arith, between.0.0)) h)

-- An update that quarantines an agent holds in every session, and no other update ends it sooner:
-- each view of the agent before the time is over is quarantined, whatever session id it names, a new
-- one or none, and whatever updates came after the one that quarantined it, of this agent or of
-- others, with shorter quarantines or with none. The updates before it are any; those after it come
-- between it and the view. There are no more agents than the store has room for, and the quarantine
-- is no longer than what an agent's entry lives.
pub agent_quarantine_holds :
    (max_entries : ℕ) (keys : List AgentKey) (before after : List Update) (x : Update) (later : ℕ)
    (session_id target volume_key : Option String)
    → length keys ≤ max_entries
    → Known keys (x ∷ before)
    → Known keys after
    → 0 < x.update.agent_quarantine_seconds
    → x.update.agent_quarantine_seconds ≤ seen_ttl_seconds
    → later < x.now + x.update.agent_quarantine_seconds
    → Between x.now later after
    → quarantined
        (view
          (record_all (before ++ x ∷ after) (new_store max_entries))
          later
          x.tenant
          x.agent
          session_id
          target
          volume_key)
        later
      ≡ true
unfolding record_all lookup
agent_quarantine_holds max_entries keys before after x later session_id target volume_key bound
      known known' quarantining short early between =
    let st = record_all before (new_store max_entries) in
    let k : AgentKey = agent_key x.tenant x.agent in
    let fits : Fits keys st =
      all-Fits keys before (new_store max_entries) known.1
        (record { bound = bound; roomy = nothing_yet keys }) in
    let until = x.now + x.update.agent_quarantine_seconds in
    let a : AgentEntry = touched st x.now k in
    let set : Holds keys k until (record_update st x.now x.tenant x.agent x.session_id x.update) =
      record {
        entry = update_agent x.update x.now a;
        stands =
            agent_after st x.now x.tenant x.agent x.session_id x.update
              (room_of keys st k known.0 fits);
        lasts = aq-update_agent x.update x.now a quarantining;
        lives = omega (arith, exp-update_agent x.update x.now a);
      } in
    let h : Holds keys k until
        (record_all after (record_update st x.now x.tenant x.agent x.session_id x.update)) =
      all-Holds keys k x.now until later after
        (record_update st x.now x.tenant x.agent x.session_id x.update) known' between early
        (omega arith) (update-Fits keys st x known.0 fits) set in
    rw (record_all-append before (x ∷ after) (new_store max_entries)) (
      quarantined_by_agent
        (view (record_all (x ∷ after) st) later x.tenant x.agent session_id target volume_key) later
        (rw
          (aq-view (record_all (x ∷ after) st) later x.tenant x.agent session_id target volume_key
            h.entry h.stands (omega (arith, h.lives)))
          (omega (arith, h.lasts))))
