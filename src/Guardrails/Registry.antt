-- ===== src/Guardrails/Registry.antt =====
-- services/guardrail-gateway/app/engine/registry.py: which assignments apply to a request, how a
-- snapshot's document is compiled, and the holder of the live snapshot. Plugin classes are behind a
-- parameter: `load` instantiates one and sets it up, or raises. A snapshot's file and the closing
-- of a replaced snapshot are input and output.
pub mod Narrowest
pub mod Compiled
use mathlib.Core.List.{foldl}
use Prim.Native.Nat.{Ordering}
use Prim.Native.String.{◌++◌ as concat, compare as compare_text}
use policy_guardrails_agent.Prelude.{
  if◌then◌else◌, ltb, ◌==◌, all, str_eq, lookup, put, ℕ, String, Bool, true, false, not, ◌&&◌, ◌||◌,
  Option, none, some, List, [], ◌∷◌, elem,
}
use policy_guardrails_agent.Sdk.Models.{Stage, Payload, same_stage}
use policy_guardrails_agent.Session.Keys.{string_eq}
use policy_guardrails_agent.Guardrails.Assignment.{
  Scope, scope_priority, Assignment, Manifest, BoundGuardrail, Answer, is_named, same_text,
}

-- class CompiledSnapshot
pub record CompiledSnapshot : Type 0 where
  pub version : String
  pub environment : String
  pub bound : List BoundGuardrail

abbrev pub in_scope : Scope → Option String → String → String → Bool
in_scope Scope.global scope_id tenant agent = true
in_scope Scope.tenant scope_id tenant agent = same_text scope_id (some tenant)
in_scope Scope.agent scope_id tenant agent =
    same_text scope_id (some (concat tenant (concat "/" agent)))

-- the three `continue` tests of `resolve`, negated
unfoldable pub applies : String → String → Stage → BoundGuardrail → Bool
applies tenant agent stage b =
    elem same_stage stage b.assignment.stages
    && (elem same_stage stage b.manifest.stages
        && in_scope b.assignment.scope_type b.assignment.scope_id tenant agent)

abbrev pub priority : BoundGuardrail → ℕ
priority b = scope_priority b.assignment.scope_type

-- current is None or SCOPE_PRIORITY[…] > SCOPE_PRIORITY[…]
abbrev pub wins : BoundGuardrail → Option BoundGuardrail → Bool
wins b none = true
wins b (some current) = ltb (priority current) (priority b)

-- the body of the loop in `resolve`
unfoldable pub choose :
    (BoundGuardrail → Bool)
    → List (String × BoundGuardrail)
    → BoundGuardrail
    → List (String × BoundGuardrail)
choose ok chosen b =
    if ok b && wins b (lookup b.assignment.guardrail_id chosen)
    then put b.assignment.guardrail_id b chosen
    else chosen

-- [b for b in chosen.values() if b.assignment.enabled]
abbrev pub active : List (String × BoundGuardrail) → List BoundGuardrail
active [] = []
active ((k, b) ∷ rest) =
    let others = active rest in if b.assignment.enabled then b ∷ others else others

-- key=lambda b: (b.assignment.order, b.assignment.guardrail_id)
abbrev pub goes_after : BoundGuardrail → BoundGuardrail → Bool
goes_after a b =
    ltb b.assignment.order a.assignment.order
    || (a.assignment.order == b.assignment.order
        && elim (compare_text a.assignment.guardrail_id b.assignment.guardrail_id) [
          | Ordering.gt ↦ true
          | _ ↦ false
        ])

unfoldable pub insert : BoundGuardrail → List BoundGuardrail → List BoundGuardrail
insert b [] = b ∷ []
insert b (c ∷ cs) = let rest = insert b cs in if goes_after b c then c ∷ rest else b ∷ c ∷ cs

-- sorted
unfoldable pub in_order : List BoundGuardrail → List BoundGuardrail
unfolding insert
in_order [] = []
in_order (b ∷ bs) = insert b (in_order bs)

-- CompiledSnapshot.resolve
unfoldable pub resolve : CompiledSnapshot → String → String → Stage → List BoundGuardrail
unfolding choose in_order
resolve s tenant agent stage =
    in_order (active (foldl (choose (applies tenant agent stage)) [] s.bound))

-- class SnapshotDoc
pub record SnapshotDoc : Type 0 where
  pub version : String
  pub environment : String
  pub assignments : List Assignment

-- PluginRegistry: the installed manifests by key, and what instantiates a plugin
pub record PluginRegistry : Type 0 where
  pub manifests : List (String × Manifest)
  pub load : Manifest → Assignment → Option (Payload → Answer)

-- f"{a.guardrail_id}@{a.guardrail_version}"
abbrev pub key_of : Assignment → String
key_of a = concat a.guardrail_id (concat "@" a.guardrail_version)

abbrev pub bind : Manifest → Assignment → Option (Payload → Answer) → Option BoundGuardrail
bind m a none = none
bind m a (some evaluate) = some (record { assignment = a; manifest = m; evaluate = evaluate })

-- a parallel group wants a guardrail that is parallel_safe
abbrev pub may_group : Manifest → Assignment → Bool
may_group m a = not (is_named a.parallel_group) || m.parallel_safe

abbrev pub bind_found : PluginRegistry → Assignment → Option Manifest → Option BoundGuardrail
bind_found r a none = none
bind_found r a (some m) =
    if all (λ s. elem same_stage s m.stages) a.stages && may_group m a
    then bind m a (r.load m a)
    else none

-- the body of the loop in `compile`; none where it raises
unfoldable pub compile_one : PluginRegistry → Assignment → Option BoundGuardrail
compile_one r a = bind_found r a (lookup (key_of a) r.manifests)

abbrev pub both :
    Option BoundGuardrail → Option (List BoundGuardrail) → Option (List BoundGuardrail)
both none rest = none
both (some b) none = none
both (some b) (some bs) = some (b ∷ bs)

unfoldable pub compile_all : PluginRegistry → List Assignment → Option (List BoundGuardrail)
unfolding compile_one
compile_all r [] = some []
compile_all r (a ∷ rest) = both (compile_one r a) (compile_all r rest)

abbrev pub compiled : SnapshotDoc → Option (List BoundGuardrail) → Option CompiledSnapshot
compiled doc none = none
compiled doc (some bs) =
    some (record { version = doc.version; environment = doc.environment; bound = bs })

-- PluginRegistry.compile
unfoldable pub compile : PluginRegistry → SnapshotDoc → String → Option CompiledSnapshot
unfolding compile_all
compile r doc environment =
    if str_eq doc.environment environment
    then compiled doc (compile_all r doc.assignments)
    else none

-- SnapshotHolder; `last_error` is the version that was rejected
pub record SnapshotHolder : Type 0 where
  pub environment : String
  pub current : Option CompiledSnapshot
  pub last_error : Option String

abbrev pub is_current : Option CompiledSnapshot → SnapshotDoc → Bool
is_current none doc = false
is_current (some s) doc = str_eq s.version doc.version

abbrev pub swap_in : SnapshotHolder → SnapshotDoc → Option CompiledSnapshot → Bool × SnapshotHolder
swap_in h doc none = (false, record h { last_error = some doc.version })
swap_in h doc (some new) = (true, record h { current = some new; last_error = none })

-- SnapshotHolder.apply
unfoldable pub apply : PluginRegistry → SnapshotHolder → SnapshotDoc → Bool × SnapshotHolder
unfolding compile
apply r h doc =
    if is_current h.current doc then (true, h) else swap_in h doc (compile r doc h.environment)
