-- ===== src/Session/Examples.antt =====
-- The session store at concrete requests.
use policy_guardrails_agent.Prelude.{
  lookup, put, remove, ℕ, ◌*◌, ◌≤◌, String, ◌≡◌, refl, true, false, none, some, [], ◌∷◌, arith,
}
use policy_guardrails_agent.Session.View.{SessionUpdate, quarantined}
use policy_guardrails_agent.Session.Percentile.{p95, p95-above, count_above}
use policy_guardrails_agent.Session.Store.{
  MemoryStore, view, record_update, Update, record_all, new_store, agent_key,
}
use policy_guardrails_agent.Session.Store.Bounded.{IsBounded, record_update-IsBounded}
use policy_guardrails_agent.Session.Store.Visible.{baseline, refusal_teaches_nothing}
use policy_guardrails_agent.Session.Store.Quarantine.{agent_quarantine_holds}

abbrev empty_store : MemoryStore
empty_store = record { max_entries = 2; sessions = []; agents = [] }

abbrev allowed_read : SessionUpdate
allowed_read = record {
  denied = false;
  allowed = true;
  labels = "untrusted_input" ∷ [];
  target = some "customers";
  volume_key = some "sql.read";
  rows = some 40;
  quarantine_seconds = 0;
  agent_quarantine_seconds = 0;
  penalty = none;
}

abbrev refused_write : SessionUpdate
refused_write = record allowed_read {
  denied = true;
  allowed = false;
  target = some "payroll";
  agent_quarantine_seconds = 600;
}

abbrev used_store : MemoryStore
used_store = record_update empty_store 100 "acme" "bot" (some "s1") allowed_read

sees_known_target :
    ((view used_store 150 "acme" "bot"
        (some "s1")
        (some "customers")
        (some "sql.read")).first_seen_target
      ≡ some false)
    × ((view used_store 150 "acme" "bot"
          (some "s1")
          (some "customers")
          (some "sql.read")).volume_p95
        ≡ some 40)
unfolding view lookup record_update remove put p95
sees_known_target = (refl, refl)

small_p95 : p95 (3 ∷ 1 ∷ 2 ∷ []) ≡ some 3
unfolding p95
small_p95 = refl

p95-above_example : 20 * count_above 3 (3 ∷ 1 ∷ 2 ∷ []) ≤ 3
p95-above_example = p95-above (3 ∷ 1 ∷ 2 ∷ []) small_p95

record_update-IsBounded_example :
    IsBounded (record_update empty_store 100 "acme" "bot" (some "s1") allowed_read)
record_update-IsBounded_example =
    record_update-IsBounded empty_store 100 "acme" "bot" (some "s1") allowed_read
      (record { sessions = omega arith; agents = omega arith })

abbrev update_of : ℕ → String → SessionUpdate → Update
update_of now agent u = record {
  now = now;
  tenant = "acme";
  agent = agent;
  session_id = some "s1";
  update = u;
}

-- a shorter quarantine, and another agent's read, after the one that counts
agent_quarantine_holds_example :
    quarantined
      (view
        (record_all
          (update_of 100 "bot" allowed_read
            ∷ update_of 200 "bot" refused_write
            ∷ update_of 250 "bot" (record refused_write { agent_quarantine_seconds = 10 })
            ∷ update_of 300 "other" allowed_read
            ∷ [])
          (new_store 2))
        500
        "acme"
        "bot"
        (some "s2")
        none
        none)
      500
    ≡ true
agent_quarantine_holds_example =
    agent_quarantine_holds 2 (agent_key "acme" "bot" ∷ agent_key "acme" "other" ∷ [])
      (update_of 100 "bot" allowed_read ∷ [])
      (update_of 250 "bot" (record refused_write { agent_quarantine_seconds = 10 })
        ∷ update_of 300 "other" allowed_read
        ∷ [])
      (update_of 200 "bot" refused_write) 500 (some "s2") none none (omega arith) (refl, (refl, tt))
      (refl, (refl, tt)) (omega arith) (omega arith) (omega arith)
      ((omega arith, omega arith), ((omega arith, omega arith), tt))

refusal_teaches_nothing_example :
    baseline (
      view
        (record_update used_store 200 "acme" "bot" (some "s1") refused_write)
        200
        "acme"
        "bot"
        (some "s1")
        (some "payroll")
        (some "sql.read"))
    ≡ baseline (view used_store 200 "acme" "bot" (some "s1") (some "payroll") (some "sql.read"))
unfolding record_update
refusal_teaches_nothing_example =
    refusal_teaches_nothing used_store 200 "acme" "bot" (some "s1") refused_write (omega arith)
      (some "s1") (some "payroll") (some "sql.read") refl
