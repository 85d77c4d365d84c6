-- ===== src/ControlPlane/Service.antt =====
-- What a service's method comes to: a state of the store behind it, and a value or the exception it
-- raises (services/guardrail-control-plane/app/errors.py, store/base.py, domain/rbac.py, pydantic).
-- What a method changed before it raised stays changed. The texts of the messages are left out, but
-- for the errors and the warnings of a snapshot.
pub mod Sound
use policy_guardrails_agent.Prelude.{ℕ, String, Bool, true, false, not, Option, none, some, List}
use policy_guardrails_agent.Sdk.Models.{Stage}
use policy_guardrails_agent.ControlPlane.Store.{MemoryStore}
use policy_guardrails_agent.ControlPlane.Rbac.{can, Principal, Permission}

-- a line of CompileResult.errors or .warnings, by what its text names
pub data Problem : Type 0 where
  not_registered : String → String → Problem
  deprecated : String → String → Problem
  unsupported : String → String → List Stage → Problem
  not_parallel_safe : String → String → Problem
  invalid_config : String → String → Problem
  not_installed : String → String → List String → Problem
  no_live_gateways : String → Problem

-- `invalid_value` is pydantic's ValidationError
pub data Error : Type 0 where
  forbidden not_found state_conflict conflict invalid_value : Error
  validation_failed : List Problem → List Problem → Error

pub data Result (A : Type 0) : Type 0 where
  ok : A → Result A
  raised : Error → Result A

abbrev pub Service : Type 0 → Type 0
Service A = MemoryStore → Result A × MemoryStore

infixl 5 ◌>>=◌ ◌>>◌
unfoldable pub ◌>>=◌ : {A B : Type 0} → Service A → (A → Service B) → Service B
◌>>=◌ m f s = let (r, s') = m s in elim r [ ok a ↦ f a s' | raised e ↦ (raised e, s') ]

abbrev pub ◌>>◌ : {A B : Type 0} → Service A → Service B → Service B
m >> k = m >>= λ _. k

unfoldable pub pure : {A : Type 0} → A → Service A
pure a s = (ok a, s)

unfoldable pub raise : {A : Type 0} → Error → Service A
raise e s = (raised e, s)

-- a read of the store
unfoldable pub get : {A : Type 0} → (MemoryStore → A) → Service A
get f s = (ok (f s), s)

-- a write
unfoldable pub modify : (MemoryStore → MemoryStore) → Service (Unit {0})
modify f s = (ok tt, f s)

-- a write that may raise Conflict
abbrev pub or_conflict : Option MemoryStore → MemoryStore → Result (Unit {0}) × MemoryStore
or_conflict none s = (raised conflict, s)
or_conflict (some s') s = (ok tt, s')

unfoldable pub guarded : (MemoryStore → Option MemoryStore) → Service (Unit {0})
guarded f s = or_conflict (f s) s

-- `if test: raise e`
unfoldable pub raise_if : Bool → Error → Service (Unit {0})
raise_if true e s = (raised e, s)
raise_if false e s = (ok tt, s)

-- Principal.require
unfoldable pub require : Principal → Permission → Option String → Service (Unit {0})
unfolding can raise_if
require p permission tenant = raise_if (not (can p permission tenant)) forbidden

-- `if x is None: raise e`
unfoldable pub given_or : {A : Type 0} → Option A → Error → Service A
given_or none e s = (raised e, s)
given_or (some a) e s = (ok a, s)

-- class Policy, of services/context.py; the time to live of requests in seconds
pub record Policy : Type 0 where
  pub two_person_environments : List String
  pub publish_request_ttl : ℕ
  pub review_ttl_minutes : ℕ
  pub gateway_stale_seconds : ℕ
