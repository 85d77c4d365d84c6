-- ===== src/Gateway/Auth.antt =====
-- services/guardrail-gateway/app/gateway/auth.py: API keys, with a cache of the lookups. The hash (a
-- library's SHA-256) and the key store are parameters; the clock's reading is an argument.
pub mod Cached
use Prim.Native.String.{len}
use policy_guardrails_agent.Prelude.{
  if◌then◌else◌, ltb, length, keep, str_eq, mem, lookup, put, ℕ, ◌+◌, String, ◌||◌, Option, none,
  some, List, [],
}
use policy_guardrails_agent.Session.Keys.{string_eq}

-- class Principal; the key's name is not read
pub record Principal : Type 0 where
  pub key_id : String
  pub tenant_id : String
  pub scopes : List String
  pub rate_limit_per_minute : Option ℕ
  pub agent_id : Option String

-- an entry of `_cache`
pub record Entry : Type 0 where
  pub until : ℕ
  pub principal : Option Principal

-- class Authenticator
pub record Authenticator : Type 0 where
  pub ttl : ℕ
  pub neg_ttl : ℕ
  pub cache : List (String × Entry)

-- Authenticator.__init__
abbrev pub restarted : ℕ → ℕ → Authenticator
restarted ttl neg_ttl = record { ttl = ttl; neg_ttl = neg_ttl; cache = [] }

-- cached and cached[0] > now
abbrev pub live : ℕ → Option Entry → Option Entry
live now none = none
live now (some e) = if ltb now e.until then some e else none

abbrev pub ttl_for : Authenticator → Option Principal → ℕ
ttl_for a none = a.neg_ttl
ttl_for a (some p) = a.ttl

-- {k: v for k, v in self._cache.items() if v[0] > now}, where the cache has grown too large
abbrev pub swept : ℕ → List (String × Entry) → List (String × Entry)
swept now cache = if ltb 10000 (length cache) then keep (λ e. ltb now e.1.until) cache else cache

-- principal is None or required_scope not in principal.scopes
abbrev pub in_scope : String → Option Principal → Option Principal
in_scope scope none = none
in_scope scope (some p) = if mem scope p.scopes then some p else none

-- not raw_key or len(raw_key) > 256
abbrev pub usable : Option String → Option String
usable none = none
usable (some k) = if str_eq k "" || ltb 256 (len k) then none else some k

-- the lookup in the store, remembered
unfoldable pub ask_store :
    (String → Option Principal) → ℕ → String → Authenticator → Option Principal × Authenticator
ask_store store now h a = (
  store h,
  record a {
    cache =
        swept now
          (put h (record { until = now + ttl_for a (store h); principal = store h }) a.cache);
  },
)

abbrev pub from_cache :
    (String → Option Principal)
    → ℕ
    → String
    → Authenticator
    → Option Entry
    → Option Principal × Authenticator
from_cache store now h a (some e) = (e.principal, a)
from_cache store now h a none = ask_store store now h a

abbrev pub with_key :
    (String → String)
    → (String → Option Principal)
    → ℕ
    → String
    → Authenticator
    → Option String
    → Option Principal × Authenticator
with_key hash store now scope a none = (none, a)
with_key hash store now scope a (some k) =
    let found = from_cache store now (hash k) a (live now (lookup (hash k) a.cache)) in
    (in_scope scope found.0, found.1)

-- Authenticator.authenticate
unfoldable pub authenticate :
    (String → String)
    → (String → Option Principal)
    → ℕ
    → Option String
    → String
    → Authenticator
    → Option Principal × Authenticator
unfolding ask_store
authenticate hash store now raw_key scope a = with_key hash store now scope a (usable raw_key)
