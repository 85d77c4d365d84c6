-- ===== src/ControlPlane/Publishing/Steps.antt =====
-- Runs of PublishService: requests are served one after another, but for `approve`, whose checks and
-- whose transaction are two steps with any number of others between them.
use policy_guardrails_agent.Prelude.{ℕ, String, ◌≡◌, Bool, List, [], ◌∷◌}
use policy_guardrails_agent.ControlPlane.Publishing.Log.{Log, In, with_ask, with_commit}
use policy_guardrails_agent.ControlPlane.Publishing.{Ctx}
use policy_guardrails_agent.ControlPlane.Service.{Service, ok}
use policy_guardrails_agent.ControlPlane.Store.{MemoryStore}
use policy_guardrails_agent.ControlPlane.Rbac.{Principal}
use policy_guardrails_agent.ControlPlane.Publishing.Requests.{
  publish_working, roll_back, import_snapshot, reject, check_approval, commit_approval,
}
use policy_guardrails_agent.ControlPlane.Records.{PublishRequestRecord}
use policy_guardrails_agent.Guardrails.Registry.{SnapshotDoc}

-- an approval whose transaction has not run
pub record Approval : Type 0 where
  pub approver : Principal
  pub request : PublishRequestRecord

pub record State : Type 0 where
  pub store : MemoryStore
  pub in_flight : List Approval
  pub log : Log

-- the store behind a method, with the approvals as they were
abbrev pub after : {A : Type 0} → Service A → State → State
after m st = record st { store = (m st.store).1 }

abbrev pub remember_ask : Principal → String → State → State
remember_ask p id st = record st { log = with_ask (record { asker = p; request_id = id }) st.log }

abbrev pub remember_commit : Approval → String → State → State
remember_commit a id st = record st {
  log =
      with_commit (record { approver = a.approver; request = a.request; snapshot_id = id }) st.log;
}

-- `elsewhere` is a step of another service: it writes neither snapshots nor requests
pub data Step (c : Ctx) : State → State → Type 0 where
  publish_step :
      (now : ℕ) (id : String) (p : Principal) (environment note : String) (force : Bool)
      (st : State)
      → Step c st (after (publish_working c now id p environment note force) (remember_ask p id st))
  rollback_step :
      (now : ℕ) (id : String) (p : Principal) (environment target_version note : String)
      (st : State)
      → Step c st
          (after (roll_back c now id p environment target_version note) (remember_ask p id st))
  import_step :
      (now : ℕ) (id : String) (p : Principal) (doc : SnapshotDoc) (force : Bool) (st : State)
      → Step c st (after (import_snapshot c now id p doc force) st)
  reject_step :
      (now : ℕ) (p : Principal) (request_id note : String) (st : State)
      → Step c st (after (reject c now p request_id note) st)
  refused_step :
      (now : ℕ) (p : Principal) (request_id : String) (st : State)
      → Step c st (after (check_approval c now p request_id) st)
  checked_step :
      (now : ℕ) (p : Principal) (request_id : String) (req : PublishRequestRecord) (st : State)
      → (check_approval c now p request_id st.store).0 ≡ ok req
      → Step c st (record {
        store = (check_approval c now p request_id st.store).1;
        in_flight = (record { approver = p; request = req }) ∷ st.in_flight;
        log = st.log;
      })
  commit_step :
      (now : ℕ) (id note : String) (a : Approval) (st : State)
      → In a st.in_flight
      → Step c st
          (after (commit_approval c now id a.approver note a.request) (remember_commit a id st))
  elsewhere :
      (store' : MemoryStore) (st : State)
      → store'.snapshots ≡ st.store.snapshots
      → store'.publish_requests ≡ st.store.publish_requests
      → Step c st (record st { store = store' })

pub data Reach (c : Ctx) (st : State) : State → Type 0 where
  begin : Reach c st st
  next : {t u : State} → Reach c st t → Step c t u → Reach c st u

abbrev pub empty_store : MemoryStore
empty_store = record {
  tenants = [];
  api_keys = [];
  agents = [];
  actions = [];
  modifiers = [];
  versions = [];
  assignments = [];
  snapshots = [];
  current = [];
  catalogs = [];
  publish_requests = [];
  reviews = [];
  admin_keys = [];
  gateways = [];
  changes = [];
}

abbrev pub empty_state : State
empty_state = record {
  store = empty_store;
  in_flight = [];
  log = record { asks = []; commits = [] };
}
