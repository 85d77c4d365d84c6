-- ===== src/ControlPlane/Fleet.antt =====
-- services/guardrail-control-plane/app/services/gateways.py: GatewayService.heartbeat. The texts of
-- the problems are a parameter. A publication of the catalog that raises is only logged.
use Prim.Native.String.{◌++◌ as concat}
use policy_guardrails_agent.Prelude.{
  if◌then◌else◌, ltb, keep, str_eq, ℕ, ◌+◌, String, Bool, true, false, not, ◌&&◌, ◌||◌, Option,
  none, some, List, [], ◌∷◌, ◌++◌, sorted_by,
}
use policy_guardrails_agent.Session.Keys.{string_eq}
use policy_guardrails_agent.ControlPlane.Records.{GatewayRecord, GuardrailVersionRecord}
use policy_guardrails_agent.Sdk.Json.{Fields}
use policy_guardrails_agent.ControlPlane.Versions.{register, Manifests}
use policy_guardrails_agent.ControlPlane.Store.{MemoryStore, text_after, find_value}
use policy_guardrails_agent.ControlPlane.Catalog.Service.{
  CatalogCtx, publish_catalog, gateway_window,
}
use policy_guardrails_agent.ControlPlane.Service.{Error, Result, ok, raised}
use policy_guardrails_agent.ControlPlane.Catalog.{sorted_set}
use policy_guardrails_agent.ControlPlane.Store.Publication.{put_gateway}

-- what a gateway reports
pub record Report : Type 0 where
  pub gateway_id : String
  pub environment : String
  pub manifests : List Fields
  pub snapshot_version : Option String
  pub catalog_version : Option String
  pub last_error : Option String
  pub capabilities : List String

-- the lists `installed` and `problems`, with the store
pub record Registered : Type 0 where
  pub installed : List String
  pub problems : List String
  pub store : MemoryStore

abbrev pub note_result :
    (Fields → Error → String)
    → Fields
    → Registered
    → Result GuardrailVersionRecord × MemoryStore
    → Registered
note_result text raw acc (ok rec, st) = record {
  installed = acc.installed ++ concat rec.guardrail_id (concat "@" rec.version) ∷ [];
  problems = acc.problems;
  store = st;
}
note_result text raw acc (raised e, st) = record {
  installed = acc.installed;
  problems = acc.problems ++ text raw e ∷ [];
  store = st;
}

-- the loop over the manifests
unfoldable pub register_all :
    Manifests → (Fields → Error → String) → ℕ → List Fields → Registered → Registered
unfolding register
register_all x text now [] acc = acc
register_all x text now (raw ∷ rest) acc =
    register_all x text now rest
      (note_result text raw acc (register x now none raw "gateway" none acc.store))

abbrev pub non_empty : Option String → List String
non_empty none = []
non_empty (some s) = if str_eq s "" then [] else s ∷ []

abbrev pub joined : List String → String
joined [] = ""
joined (s ∷ []) = s
joined (s ∷ t ∷ rest) = concat s (concat "; " (joined (t ∷ rest)))

-- "; ".join(filter(None, …)) or None
abbrev pub error_text : Option String → List String → Option String
error_text last_error problems =
    elim (non_empty last_error ++ keep (λ s. not (str_eq s "")) problems) [
      | [] ↦ none
      | s ∷ rest ↦ some (joined (s ∷ rest))
    ]

abbrev pub gateway_record : ℕ → Report → Registered → GatewayRecord
gateway_record now r acc = record {
  gateway_id = r.gateway_id;
  environment = r.environment;
  snapshot_version = r.snapshot_version;
  catalog_version = r.catalog_version;
  last_error = error_text r.last_error acc.problems;
  installed = sorted_by text_after acc.installed;
  last_seen = now;
  capabilities = sorted_set r.capabilities;
}

abbrev pub same_texts : List String → List String → Bool
same_texts [] [] = true
same_texts [] (y ∷ ys) = false
same_texts (x ∷ xs) [] = false
same_texts (x ∷ xs) (y ∷ ys) = str_eq x y && same_texts xs ys

-- _changes_catalog_audience
unfoldable pub changes_audience : Option GatewayRecord → GatewayRecord → Bool
changes_audience none current = true
changes_audience (some previous) current =
    not (same_texts previous.capabilities current.capabilities)
    || ltb (previous.last_seen + gateway_window) current.last_seen

abbrev pub heard : CatalogCtx → ℕ → String → GatewayRecord → MemoryStore → MemoryStore
heard c now catalog_id g st =
    let previous = find_value (λ h. str_eq h.gateway_id g.gateway_id) st.gateways in
    if changes_audience previous g
    then publish_catalog c now catalog_id (put_gateway g st)
    else put_gateway g st

-- GatewayService.heartbeat
unfoldable pub heartbeat :
    Manifests
    → CatalogCtx
    → (Fields → Error → String)
    → ℕ
    → String
    → Report
    → MemoryStore
    → GatewayRecord × MemoryStore
unfolding register_all changes_audience publish_catalog
heartbeat x c text now catalog_id r st =
    let acc =
      register_all x text now r.manifests (record { installed = []; problems = []; store = st }) in
    let g = gateway_record now r acc in (g, heard c now catalog_id g acc.store)
