-- ===== src/ControlPlane/Compiler/Loads.antt =====
-- A document that `compile_snapshot` accepts is one that a gateway with the same manifests loads.
use policy_guardrails_agent.Prelude.{
  if◌then◌else◌, Bool-cases, is_some, all, keep, str_eq, eq_iff, lookup, ℕ, String, ◌≡◌, refl, sym,
  ap, ◌∙◌, subst, inl, inr, Bool, true, false, not, ◌&&◌, ◌||◌, Option, none, some, List, [], ◌∷◌,
  ◌++◌, arith, elem, sorted_by, clash, is_empty, some_inj, none-some,
}
use policy_guardrails_agent.Session.Keys.{string_eq}
use policy_guardrails_agent.ControlPlane.Compiler.{
  errors_found, strict, errors_of, Versions, CompileResult, when, Validator, concluded, draft,
  compile_snapshot, unique_ids, goes_behind, live_gateways,
}
use policy_guardrails_agent.Guardrails.Assignment.{
  BoundGuardrail, Manifest, Assignment, Answer, is_named,
}
use policy_guardrails_agent.ControlPlane.Service.{Problem, ok}
use policy_guardrails_agent.Guardrails.Registry.{
  compile_all, compile_one, both, PluginRegistry, may_group, bind, key_of, compile, compiled,
}
use policy_guardrails_agent.Sdk.Models.{Stage, Payload, same_stage}
use policy_guardrails_agent.ControlPlane.Records.{GuardrailVersionRecord, GatewayRecord, Document}
use policy_guardrails_agent.ControlPlane.Service.Sound.{ok_inj, raised_ok}

cons_nil : {A : Type 0} {x : A} {xs : List A} → (x ∷ xs) ≡ [] → ⊥
cons_nil e = cc

append-nil : {A : Type 0} (xs ys : List A) → (xs ++ ys) ≡ [] → (xs ≡ []) × (ys ≡ [])
append-nil [] ys e = (refl, e)
append-nil (x ∷ xs) ys e = absurd (cons_nil e)

when-nil : (b : Bool) (p : Problem) → when b p ≡ [] → b ≡ false
when-nil true p e = absurd (cons_nil e)
when-nil false p e = refl

all_supported :
    (m : Manifest) (ss : List Stage)
    → is_empty (keep (λ s. not (elem same_stage s m.stages)) ss) ≡ true
    → all (λ s. elem same_stage s m.stages) ss ≡ true
all_supported m [] e = refl
all_supported m (s ∷ ss) e = elim (Bool-cases (elem same_stage s m.stages)) [
  | inl q ↦ rw q (all_supported m ss (rw q at e))
  | inr q ↦ absurd (clash (rw q at e) refl)
]

-- the two tests that the gateway's loader makes of an assignment
strict-nil :
    (valid : Validator) (m : Manifest) (a : Assignment)
    → strict valid m a ≡ []
    → (all (λ s. elem same_stage s m.stages) a.stages && may_group m a) ≡ true
unfolding strict
strict-nil valid m a e =
    let (e1, rest) = append-nil _ _ e in
    let (e2, e3) = append-nil _ _ rest in
    both_tests (all_supported m a.stages (not_false (when-nil _ _ e1)))
      (grouped (is_named a.parallel_group) m.parallel_safe (when-nil _ _ e2))
  where
    both_tests : {x y : Bool} → x ≡ true → y ≡ true → (x && y) ≡ true
    both_tests {x} {y} = ground arith

    not_false : {x : Bool} → not x ≡ false → x ≡ true
    not_false {x} = ground arith

    grouped : (x y : Bool) → (x && not y) ≡ false → (not x || y) ≡ true
    grouped x y = ground arith

-- the gateway has what the registry has, and every plugin can be set up
pub record HasAll (versions : Versions) (r : PluginRegistry) : Type 0 where
  pub installed :
      (k : String) (rec : GuardrailVersionRecord)
      → lookup k versions ≡ some rec
      → lookup k r.manifests ≡ some rec.manifest
  pub loads : (m : Manifest) (a : Assignment) → is_some (r.load m a) ≡ true

bind-some :
    (m : Manifest) (a : Assignment) (o : Option (Payload → Answer))
    → is_some o ≡ true
    → is_some (bind m a o) ≡ true
bind-some m a none e = e
bind-some m a (some f) e = refl

found-loads :
    (valid : Validator) (force : Bool) (versions : Versions) (live : List GatewayRecord)
    (r : PluginRegistry) (a : Assignment) (o : Option GuardrailVersionRecord)
    → HasAll versions r
    → lookup (key_of a) versions ≡ o
    → errors_found valid force live a o ≡ []
    → is_some (compile_one r a) ≡ true
unfolding errors_found compile_one
found-loads valid force versions live r a none h q e = absurd (cons_nil e)
found-loads valid force versions live r a (some rec) h q e =
    let (_, rest) = append-nil _ _ e in
    let (s, _) = append-nil _ _ rest in
    let tests = strict-nil valid rec.manifest a s in
    rw (h.installed (key_of a) rec q, tests)
      (bind-some rec.manifest a (r.load rec.manifest a) (h.loads rec.manifest a))

both-some :
    (o : Option BoundGuardrail) (p : Option (List BoundGuardrail))
    → is_some o ≡ true
    → is_some p ≡ true
    → is_some (both o p) ≡ true
both-some none p h k = h
both-some (some b) none h k = k
both-some (some b) (some bs) h k = refl

all-loads :
    (valid : Validator) (force : Bool) (versions : Versions) (live : List GatewayRecord)
    (r : PluginRegistry) (xs : List Assignment)
    → HasAll versions r
    → errors_of valid force versions live xs ≡ []
    → is_some (compile_all r xs) ≡ true
unfolding errors_of compile_all
all-loads valid force versions live r [] h e = refl
all-loads valid force versions live r (a ∷ xs) h e =
    let (e1, e2) = append-nil _ _ e in
    both-some (compile_one r a) (compile_all r xs)
      (found-loads valid force versions live r a (lookup (key_of a) versions) h refl e1)
      (all-loads valid force versions live r xs h e2)

concluded-document :
    (environment : String) (ordered : List Assignment) (errors warnings : List Problem)
    (c : CompileResult) (d : Document)
    → concluded environment ordered errors warnings ≡ ok c
    → c.document ≡ some d
    → (errors ≡ []) × (d ≡ draft environment ordered)
concluded-document environment ordered (x ∷ errors) warnings c d e q =
    absurd (none-some (ap (λ (r : CompileResult). r.document) (ok_inj e) ∙ q))
concluded-document environment ordered [] warnings c d e q =
    elim (Bool-cases (unique_ids ordered)) [
      | inl u ↦
          (refl, sym (some_inj (ap (λ (r : CompileResult). r.document) (ok_inj (rw u at e)) ∙ q)))
      | inr u ↦ absurd (raised_ok (rw u at e))
    ]

-- A document that the control plane compiles for an environment is one that a gateway of that
-- environment loads, where the gateway has every registered manifest as it is registered and can set
-- up every plugin.
pub compile-loads :
    (valid : Validator) (now stale_after : ℕ) (environment : String) (xs : List Assignment)
    (versions : Versions) (gateways : List GatewayRecord) (force : Bool) (c : CompileResult)
    (d : Document) (r : PluginRegistry)
    → compile_snapshot valid now stale_after environment xs versions gateways force ≡ ok c
    → c.document ≡ some d
    → HasAll versions r
    → is_some (compile r d.doc environment) ≡ true
unfolding compile_snapshot compile
compile-loads valid now stale_after environment xs versions gateways force c d r e q h =
    let (none_left, made) = concluded-document environment (sorted_by goes_behind xs) _ _ c d e q in
    subst (λ d. is_some (compile r d.doc environment) ≡ true) (sym made)
      (drafted (compile_all r (sorted_by goes_behind xs))
        (all-loads valid force versions (live_gateways now stale_after gateways) r
          (sorted_by goes_behind xs) h none_left)
        ((eq_iff environment environment).1 refl))
  where
    drafted :
        (o : Option (List BoundGuardrail))
        → is_some o ≡ true
        → str_eq environment environment ≡ true
        → is_some (
            if str_eq environment environment
            then compiled (draft environment (sorted_by goes_behind xs)).doc o
            else none)
          ≡ true
    drafted none h e = ground arith
    drafted (some bs) h e = rw e refl
