-- ===== src/Lib.antt =====
-- A gateway between AI agents and the tools, models and data that they use decides, for every
-- request, whether it passes. This library models the decision path of that gateway.
--
-- How a request goes through it:
--   - services/guardrail-gateway/app/gateway/flow.py takes the request: an API key that is bound to
--     an agent must match the agent that the request claims, a policy engine is asked, the
--     guardrails of the stage run, the decision table combines all answers, a `verify` is resolved,
--     an escalation is filed for review, and the session's state is updated;
--   - app/engine/registry.py holds the compiled snapshot and says which guardrails run, and
--     app/engine/pipeline.py runs them and combines their decisions;
--   - app/risk/contextual.py joins app/session/store.py (what an agent did before),
--     app/risk/engine.py (score, trust and band), app/advise/panel.py (advisors),
--     app/risk/decision.py (the table) and app/verify (evidence in the place of a human).
--
-- Which file models which part (paths under services/guardrail-gateway, unless they name another):
--   Sdk          packages/guardrail-sdk/guardrail_sdk/models.py: stages, decisions, payloads
--   Context      app/context/descriptors.py: the descriptor of an action, as data
--   Session      app/session/store.py: MemorySessionStore.view is `view`, `record` is
--                `record_update`, `p95` keeps its name
--   Risk         app/risk/engine.py: `assess`; app/risk/decision.py: `decide`
--   Guardrails   app/engine: CompiledSnapshot.resolve is `resolve`, PluginRegistry.compile is
--                `compile`, SnapshotHolder.apply is `apply`, GuardrailEngine.run is `run`,
--                `hold_for_review` keeps its name
--   Advise       app/advise/panel.py: AdvisorPanel.advise is `advise`, `combine` keeps its name
--   Verify       app/verify: `required`, `current`, `gap`, `plan`, and VerificationEngine's
--                `resolve`, `follow_up`, `describe` and `confirm`
--   Gateway      app/gateway/auth.py: `authenticate`; app/gateway/ratelimit.py: `check`; app/risk/contextual.py and
--                app/gateway/flow.py, with `conclude` for the end of run_stage
--   Audit        app/audit/chain.py: AuditChain.stamp is `stamp`, ChainVerifier.add is `add`;
--                app/audit/writer.py and spool.py: AuditWriter.submit is `submit_event`, `_run` is
--                `run_batch`, `_drain` is `drain`, `replay_spool` keeps its name
--   ControlPlane services/guardrail-control-plane/app: domain/rbac.py is Rbac, domain/records.py
--                Records, store/memory.py Store, domain/compiler.py Compiler and Catalog, and
--                services/ is Publishing, Assignments, Reviews, Catalog/Service, AdminKeys,
--                Versions (registry.py) and Fleet (gateways.py)
--
-- How state and effects are modelled: a store is a record and its operations take and return it;
-- the clock's reading and random ids are arguments; the verification engine runs over any store
-- whose operations may raise, in a state monad with failure, and the in-memory store fills that
-- interface. Plugins, advisors, the database's planner, the identity provider's tokens and the
-- control plane's client are functions that the definitions take, since they are other programs or
-- plugin code; they may fail wherever the code expects it.
--
-- The control plane decides what the gateways run: a working set of assignments is compiled into a
-- snapshot, which a protected environment takes only when a second admin key approves it; gateways
-- load the snapshot and the catalog of keys, agents and scores. A service's method is an action on
-- the store that returns or raises (ControlPlane/Service); what it changed before it raised stays
-- changed, as in the in-memory store, where a transaction is only a lock. ControlPlane/Publishing/
-- Steps lets requests interleave between the checks and the transaction of an approval, and
-- Audit/Writer/Runs lets the writer's tasks take turns in any order, whatever the disk and the
-- database answer; the overflow task's turn is split at its wait for the disk, in which a shutdown may
-- cancel it. ControlPlane/Publishing/Log remembers which admin key's calls made a run. `confirm` takes
-- what other tasks do to the store while the person's token is checked. The properties of a rate limit
-- and of an agent's quarantine are about stores whose keys fit (RateLimit/Roomy, Session/Roomy), since
-- both stores forget keys when they are full.
--
-- Numbers are natural numbers: times in seconds, a half-life in thousandths of a day, a confidence
-- in hundredths. Where the program computes in floating point and the result is rounded, the
-- arithmetic is a record of operations (Risk/Numerics) or a parameter. The percentile's index and
-- the band's thresholds are exact in whole numbers. Every loop is structural recursion, so no fuel
-- is needed: the search for a verification's steps runs through the combinations of each size. Only
-- the slices of a list of events run on fuel, the list's length, and `union-slices` shows that they
-- miss nothing.
--
-- Not modelled: the Redis stores, HTTP routes, the database, metrics and log texts; the tokenizer
-- that describes SQL and HTTP calls; the outbox; the control plane's discovery, its Postgres store
-- and its analytics; plugins, connectors and the console; the AI gateway's services, which are another product.
pub mod Prelude
pub mod Sdk
pub mod Context
pub mod Session
pub mod Risk
pub mod Guardrails
pub mod Advise
pub mod Verify
pub mod Gateway
pub mod Audit
pub mod ControlPlane
