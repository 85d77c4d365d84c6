-- ===== src/Guardrails/Registry/Compiled.antt =====
-- What a compiled snapshot may hold, and what a rejected one leaves.
use policy_guardrails_agent.Prelude.{
  Bool-cases, all, All, str_eq, lookup, String, ◌≡◌, refl, subst, ◌⊎◌, inl, inr, true, Option, none,
  some, List, [], ◌∷◌, elem, some_inj,
}
use policy_guardrails_agent.Sdk.Models.{same_stage}
use policy_guardrails_agent.Session.Keys.{string_eq}
use policy_guardrails_agent.Guardrails.Assignment.{Assignment, Manifest, BoundGuardrail}
use policy_guardrails_agent.Guardrails.Registry.{
  PluginRegistry, SnapshotDoc, SnapshotHolder, CompiledSnapshot, compile_one, compile_all, compile,
  apply, may_group, key_of, bind_found, bind, both, compiled, swap_in, is_current,
}

-- a compiled assignment
pub record IsBound (r : PluginRegistry) (b : BoundGuardrail) : Type 0 where
  pub installed : lookup (key_of b.assignment) r.manifests ≡ some b.manifest
  pub stages : all (λ s. elem same_stage s b.manifest.stages) b.assignment.stages ≡ true
  pub groups : may_group b.manifest b.assignment ≡ true

compile_one-IsBound :
    (r : PluginRegistry) (a : Assignment) (b : BoundGuardrail)
    → compile_one r a ≡ some b
    → IsBound r b
unfolding compile_one
compile_one-IsBound r a b h = found (lookup (key_of a) r.manifests) refl h
  where
    loaded :
        (m : Manifest) (o : _)
        → lookup (key_of a) r.manifests ≡ some m
        → all (λ s. elem same_stage s m.stages) a.stages ≡ true
        → may_group m a ≡ true
        → bind m a o ≡ some b
        → IsBound r b
    loaded m none i s g e = cc
    loaded m (some f) i s g e =
        subst (IsBound r) (some_inj e) (record { installed = i; stages = s; groups = g })

    found :
        (o : Option Manifest)
        → lookup (key_of a) r.manifests ≡ o
        → bind_found r a o ≡ some b
        → IsBound r b
    found none i e = cc
    found (some m) i e = elim (Bool-cases (all (λ s. elem same_stage s m.stages) a.stages)) [
      | inr s ↦ absurd (none_some (rw s at e))
      | inl s ↦ elim (Bool-cases (may_group m a)) [
        | inr g ↦ absurd (none_some (rw (s, g) at e))
        | inl g ↦ loaded m (r.load m a) i s g (rw (s, g) at e)
      ]
    ]
      where
        none_some : {x : BoundGuardrail} → none ≡ some x → ⊥
        none_some e = cc

compile_all-IsBound :
    (r : PluginRegistry) (xs : List Assignment) (bs : List BoundGuardrail)
    → compile_all r xs ≡ some bs
    → All (IsBound r) bs
unfolding compile_all
compile_all-IsBound r [] [] h = tt
compile_all-IsBound r [] (b ∷ bs) h = cc
compile_all-IsBound r (a ∷ xs) bs h =
    joined (compile_one r a) (compile_all r xs) refl (compile_all-IsBound r xs) h
  where
    joined :
        (o : Option BoundGuardrail) (rest : Option (List BoundGuardrail))
        → compile_one r a ≡ o
        → ((cs : List BoundGuardrail) → rest ≡ some cs → All (IsBound r) cs)
        → both o rest ≡ some bs
        → All (IsBound r) bs
    joined none rest i j e = cc
    joined (some b) none i j e = cc
    joined (some b) (some cs) i j e =
        subst (All (IsBound r)) (some_inj e) (compile_one-IsBound r a b i, j cs refl)
      where
        some_inj : {x y : List BoundGuardrail} → some x ≡ some y → x ≡ y
        some_inj e = cc

-- the snapshot that a holder may serve
pub record IsCompiled (r : PluginRegistry) (environment : String) (s : CompiledSnapshot)
    : Type 0 where
  pub home : str_eq s.environment environment ≡ true
  pub bound : All (IsBound r) s.bound

compile-IsCompiled :
    (r : PluginRegistry) (doc : SnapshotDoc) (environment : String) (s : CompiledSnapshot)
    → compile r doc environment ≡ some s
    → IsCompiled r environment s
unfolding compile
compile-IsCompiled r doc environment s h = elim (Bool-cases (str_eq doc.environment environment)) [
  | inr e ↦ absurd (none_some (rw e at h))
  | inl e ↦ made e (compile_all r doc.assignments) refl (rw e at h)
]
  where
    none_some : {x : CompiledSnapshot} → none ≡ some x → ⊥
    none_some e = cc

    made :
        str_eq doc.environment environment ≡ true
        → (o : Option (List BoundGuardrail)) → compile_all r doc.assignments ≡ o
        → compiled doc o ≡ some s
        → IsCompiled r environment s
    made e none i k = cc
    made e (some bs) i k =
        subst (IsCompiled r environment) (some_inj k)
          (record { home = e; bound = compile_all-IsBound r doc.assignments bs i })
      where
        some_inj : {x y : CompiledSnapshot} → some x ≡ some y → x ≡ y
        some_inj e = cc

abbrev Served : PluginRegistry → String → Option CompiledSnapshot → Type 0
Served r environment none = Unit
Served r environment (some s) = IsCompiled r environment s

abbrev pub Serves : PluginRegistry → SnapshotHolder → Type 0
Serves r h = Served r h.environment h.current

-- The holder only ever serves snapshots that were compiled for its environment from installed
-- guardrails, each at stages that its manifest supports and in a parallel group only where it is
-- parallel safe. A document that is rejected leaves the snapshot that was being served.
pub apply-Serves :
    (r : PluginRegistry) (h : SnapshotHolder) (doc : SnapshotDoc)
    → Serves r h
    → Serves r (apply r h doc).1
      × (((apply r h doc).0 ≡ true) ⊎ ((apply r h doc).1.current ≡ h.current))
unfolding apply
apply-Serves r h doc k = elim (Bool-cases (is_current h.current doc)) [
  | inl e ↦ rw e (k, inl refl)
  | inr e ↦ rw e (swapped (compile r doc h.environment) refl)
]
  where
    swapped :
        (o : Option CompiledSnapshot)
        → compile r doc h.environment ≡ o
        → Serves r (swap_in h doc o).1
          × (((swap_in h doc o).0 ≡ true) ⊎ ((swap_in h doc o).1.current ≡ h.current))
    swapped none i = (k, inr refl)
    swapped (some new) i = (compile-IsCompiled r doc h.environment new i, inl refl)
