-- ===== src/ControlPlane/Compiler.antt =====
-- services/guardrail-control-plane/app/domain/compiler.py: `compile_snapshot` and the version of a
-- snapshot. The JSON Schema validator is a parameter: none where the schema is invalid. So is the
-- hash of a document's content. A sequence number is padded to five digits.
pub mod Loads
use policy_guardrails_agent.Sdk.Models.{Stage, same_stage}
use policy_guardrails_agent.Session.Keys.{string_eq}
use Prim.Native.String.{◌++◌ as concat}
use policy_guardrails_agent.Prelude.{
  if◌then◌else◌, ltb, leb, ◌==◌, is_some, any, keep, str_eq, mem, lookup, ℕ, ◌+◌, String, Bool,
  true, false, not, ◌&&◌, ◌||◌, Option, none, some, List, [], ◌∷◌, ◌++◌, map, elem, sorted_by,
  is_empty, first_chars,
}
use policy_guardrails_agent.ControlPlane.Service.{
  Problem, invalid_config, unsupported, not_registered, Result, ok, no_live_gateways, raised,
  not_parallel_safe, not_installed, invalid_value,
}
use policy_guardrails_agent.Sdk.Json.{Fields}
use policy_guardrails_agent.ControlPlane.Records.{
  Document, GatewayRecord, GuardrailVersionRecord, is_deprecated,
}
use policy_guardrails_agent.Guardrails.Assignment.{Assignment, Manifest, is_named}
use policy_guardrails_agent.Guardrails.Registry.{SnapshotDoc, key_of}
use policy_guardrails_agent.ControlPlane.Store.{text_after}

-- `iter_errors` of a schema and a config
abbrev pub Validator : Type 0
Validator = Fields → Fields → Option (List String)

-- class CompileResult
pub record CompileResult : Type 0 where
  pub document : Option Document
  pub errors : List Problem
  pub warnings : List Problem

abbrev pub no_problems : List Problem → Bool
no_problems [] = true
no_problems (e ∷ es) = false

-- CompileResult.ok
abbrev pub is_ok : CompileResult → Bool
is_ok r = is_some r.document && no_problems r.errors

abbrev pub config_problems : String → Option (List String) → List Problem
config_problems id none = invalid_config id "invalid config_schema" ∷ []
config_problems id (some []) = []
config_problems id (some (m ∷ ms)) = invalid_config id m ∷ config_problems id (some ms)

-- validate_config
abbrev pub validate_config : Validator → Manifest → Assignment → List Problem
validate_config valid m a = config_problems a.id (valid m.config_schema a.config)

abbrev pub when : Bool → Problem → List Problem
when true p = p ∷ []
when false p = []

-- [s for s in a.stages if s not in manifest.stages]
abbrev pub unsupported_stages : Manifest → Assignment → List Stage
unsupported_stages m a = keep (λ s. not (elem same_stage s m.stages)) a.stages

-- sorted(g.gateway_id for g in live if key not in g.installed)
abbrev pub missing_on : List GatewayRecord → String → List String
missing_on live k =
    sorted_by text_after
      (map (λ (g : GatewayRecord). g.gateway_id) (keep (λ g. not (mem k g.installed)) live))

-- what `force` turns into a warning
abbrev pub relaxed : GuardrailVersionRecord → List GatewayRecord → Assignment → List Problem
relaxed rec live a =
    when (is_deprecated rec.status) (Problem.deprecated a.id (key_of a))
    ++ when (not (is_empty (missing_on live (key_of a))))
        (not_installed a.id (key_of a) (missing_on live (key_of a)))

-- what stays an error
unfoldable pub strict : Validator → Manifest → Assignment → List Problem
strict valid m a =
    when (not (is_empty (unsupported_stages m a)))
      (unsupported a.id (key_of a) (unsupported_stages m a))
    ++ (when (is_named a.parallel_group && not m.parallel_safe) (not_parallel_safe a.id (key_of a))
        ++ validate_config valid m a)

-- the errors of one assignment, in the order of the loop's body
unfoldable pub errors_found :
    Validator
    → Bool
    → List GatewayRecord
    → Assignment
    → Option GuardrailVersionRecord
    → List Problem
unfolding strict
errors_found valid force live a none = not_registered a.id (key_of a) ∷ []
errors_found valid force live a (some rec) =
    when (not force && is_deprecated rec.status) (Problem.deprecated a.id (key_of a))
    ++ (strict valid rec.manifest a
        ++ when (not force && not (is_empty (missing_on live (key_of a))))
            (not_installed a.id (key_of a) (missing_on live (key_of a))))

abbrev pub warnings_found :
    Bool → List GatewayRecord → Assignment → Option GuardrailVersionRecord → List Problem
warnings_found force live a none = []
warnings_found force live a (some rec) = if force then relaxed rec live a else []

abbrev pub Versions : Type 0
Versions = List (String × GuardrailVersionRecord)

unfoldable pub errors_of :
    Validator → Bool → Versions → List GatewayRecord → List Assignment → List Problem
unfolding errors_found
errors_of valid force versions live [] = []
errors_of valid force versions live (a ∷ rest) =
    errors_found valid force live a (lookup (key_of a) versions)
    ++ errors_of valid force versions live rest

abbrev pub warnings_of : Bool → Versions → List GatewayRecord → List Assignment → List Problem
warnings_of force versions live [] = []
warnings_of force versions live (a ∷ rest) =
    warnings_found force live a (lookup (key_of a) versions) ++ warnings_of force versions live rest

-- (utcnow() - g.last_seen).total_seconds() <= stale_after_seconds
abbrev pub live_gateways : ℕ → ℕ → List GatewayRecord → List GatewayRecord
live_gateways now stale_after = keep (λ g. leb now (g.last_seen + stale_after))

-- (order, id)
abbrev pub goes_behind : Assignment → Assignment → Bool
goes_behind a b = ltb b.order a.order || (a.order == b.order && text_after a.id b.id)

-- SnapshotDoc._unique_ids
abbrev pub unique_ids : List Assignment → Bool
unique_ids [] = true
unique_ids (a ∷ rest) = not (any (λ b. str_eq b.id a.id) rest) && unique_ids rest

abbrev pub draft : String → List Assignment → Document
draft environment assignments = record {
  doc = record { version = "draft"; environment = environment; assignments = assignments };
  published_at = none;
  published_by = none;
  approved_by = none;
}

-- `raised` where the document's validator does
abbrev pub concluded : String → List Assignment → List Problem → List Problem → Result CompileResult
concluded environment ordered (e ∷ errors) warnings =
    ok (record { document = none; errors = e ∷ errors; warnings = warnings })
concluded environment ordered [] warnings =
    if unique_ids ordered
    then ok
        (record { document = some (draft environment ordered); errors = []; warnings = warnings })
    else raised invalid_value

-- compile_snapshot
unfoldable pub compile_snapshot :
    Validator
    → ℕ
    → ℕ
    → String
    → List Assignment
    → Versions
    → List GatewayRecord
    → Bool
    → Result CompileResult
unfolding errors_of
compile_snapshot valid now stale_after environment assignments versions gateways force =
    let live = live_gateways now stale_after gateways in
    let ordered = sorted_by goes_behind assignments in
    concluded environment ordered (errors_of valid force versions live ordered) (
      warnings_of force versions live ordered
      ++ when (is_empty live) (no_live_gateways environment))

-- `hash` of a document leaves out its version and who published it when
abbrev pub Hash : Type 0
Hash = SnapshotDoc → String

-- f"{environment}-{sequence:05d}-{digest}"
abbrev pub snapshot_version : Hash → (ℕ → String) → String → SnapshotDoc → ℕ → String
snapshot_version hash five_digits environment doc sequence =
    concat environment
      (concat "-" (concat (five_digits sequence) (concat "-" (first_chars 8 (hash doc)))))

-- etag
abbrev pub etag : String → String
etag hash = concat "\"" (concat (first_chars 32 hash) "\"")
