-- ===== src/ControlPlane/Assignments/Owned.antt =====
-- A tenant's key leaves the assignments of everybody else as they are.
use policy_guardrails_agent.Prelude.{
  Bool-cases, is_some, mem, lookup, put, remove, lookup-put, lookup-remove, ℕ, String, ◌≡◌, sym,
  ◌∙◌, subst, ◌≢◌, ◌⊎◌, inl, inr, true, false, not, Option, none, some, [], some_inj, none-some,
}
use policy_guardrails_agent.Guardrails.Assignment.{tenant_id, Assignment}
use policy_guardrails_agent.Verify.Store.{TenantKey, key, same_key, same_key_iff, tenant_key_eq}
use policy_guardrails_agent.Session.Keys.{string_eq}
use policy_guardrails_agent.Verify.Store.{TenantKey}
use policy_guardrails_agent.ControlPlane.Records.{AssignmentRecord, environments}
use policy_guardrails_agent.ControlPlane.Rbac.{Principal, can, assignments_write}
use policy_guardrails_agent.ControlPlane.Assignments.{
  delete, put_raw, patch, put_valid, Pydantic, require_before, saved_record, all_patchable,
  validated_assignment, merge,
}
use policy_guardrails_agent.ControlPlane.Store.{MemoryStore}
use policy_guardrails_agent.ControlPlane.Service.Sound.{
  Keeps, Any, Keeps-read, Keeps-pure, Keeps-bind, Keeps-weaken, Keeps-raise_if, Keeps-require,
  Keeps-modify, Keeps-get, Keeps-given_or, Keeps-after, Keeps-some, Keeps-store, OnSome,
}
use policy_guardrails_agent.Sdk.Json.{Fields}
use policy_guardrails_agent.ControlPlane.Rbac.Isolated.{tenant_isolated}
use policy_guardrails_agent.ControlPlane.Service.{get, modify, not_found, validation_failed}
use policy_guardrails_agent.ControlPlane.Store.Publication.{
  log, get_version, get_assignment, put_assignment, delete_assignment,
}

-- one stored assignment, and a key of a tenant that the assignment does not belong to
module _ (k : TenantKey) (r : AssignmentRecord) (p : Principal) (mine : String)
    (own : p.tenant_id ≡ some mine) (foreign : tenant_id r.assignment ≢ some mine) where
  abbrev I : MemoryStore → Type 0
  I s = lookup k s.assignments ≡ some r

  -- a write elsewhere, or what is there now
  abbrev Apart : TenantKey → Option AssignmentRecord → Type 0
  Apart j o = (same_key j k ≡ false) ⊎ (o ≡ some r)

  read-Apart : (j : TenantKey) → Keeps I (Apart j) (get (λ s. lookup j s.assignments))
  read-Apart j =
      Keeps-read I (Apart j) (λ s. lookup j s.assignments)
        (λ s i. elim (Bool-cases (same_key j k)) [
          | inl e ↦
              inr (subst (λ x. lookup x s.assignments ≡ some r) (sym ((same_key_iff j k).0 e)) i)
          | inr e ↦ inl e
        ])

  not_allowed : can p assignments_write (tenant_id r.assignment) ≡ true → ⊥
  not_allowed may =
      foreign (tenant_isolated p assignments_write (tenant_id r.assignment) mine own may).0

  before-Apart :
      (j : TenantKey) (o : Option AssignmentRecord)
      → Apart j o
      → Keeps I (λ _. same_key j k ≡ false) (require_before p o)
  before-Apart j none (inl e) = Keeps-pure I _ tt e
  before-Apart j none (inr e) = absurd (none-some e)
  before-Apart j (some b) (inl e) =
      Keeps-weaken I _ _ _ (λ _ _. e) (Keeps-require I p assignments_write (tenant_id b.assignment))
  before-Apart j (some b) (inr e) =
      Keeps-weaken I _ _ _
        (λ _ may. absurd (
          not_allowed (
            subst
              (λ (x : AssignmentRecord). can p assignments_write (tenant_id x.assignment) ≡ true)
              (some_inj e) may)))
        (Keeps-require I p assignments_write (tenant_id b.assignment))

  put-keeps :
      (j : TenantKey) (saved : AssignmentRecord) (s : MemoryStore)
      → same_key j k ≡ false
      → I s
      → lookup k (put j saved s.assignments) ≡ some r
  put-keeps j saved s e i = lookup-put j k saved s.assignments ∙ rw e i

  remove-keeps :
      (j : TenantKey) (s : MemoryStore)
      → same_key j k ≡ false
      → I s
      → lookup k (remove j s.assignments) ≡ some r
  remove-keeps j s e i = lookup-remove j k s.assignments ∙ rw e i

  log-Keeps :
      (entity id action by : String) (now : ℕ) → Keeps I Any (modify (log entity id action by now))
  log-Keeps entity id action by now = Keeps-modify I (log entity id action by now) (λ s i. i)

  put_valid-Keeps :
      (now : ℕ) (environment : String) (a : Assignment)
      → Keeps I Any (put_valid now p environment a)
  unfolding put_valid
  put_valid-Keeps now environment a =
      let j = key environment a.id in
      let saved = saved_record now p environment a in
      Keeps-bind I _ Any _ _ (Keeps-require I p assignments_write (tenant_id a)) (λ _ _.
        Keeps-bind I Any Any _ _ (Keeps-get I (get_version a.guardrail_id a.guardrail_version))
          (λ version _.
            Keeps-bind I _ Any _ _
              (Keeps-raise_if I (not (is_some version)) (validation_failed [] []))
              (λ _ _. Keeps-bind I (Apart j) Any _ _ (read-Apart j) (λ before apart.
                Keeps-bind I _ Any _ _ (before-Apart j before apart) (λ _ e.
                  Keeps-after I Any _ _
                    (Keeps-modify I (put_assignment saved) (λ s. put-keeps j saved s e))
                    (Keeps-after I Any _ _ (log-Keeps _ _ _ _ now) (Keeps-pure I Any saved tt)))))))

  put_raw-Keeps :
      (y : Pydantic) (now : ℕ) (environment : String) (raw : Fields)
      → Keeps I Any (put_raw y now p environment raw)
  unfolding put_raw
  put_raw-Keeps y now environment raw =
      Keeps-bind I _ Any _ _ (Keeps-raise_if I (not (mem environment environments)) not_found)
        (λ _ _.
          Keeps-bind I Any Any _ _
            (Keeps-given_or I (validated_assignment y raw) (validation_failed [] []))
            (λ a _. put_valid-Keeps now environment a))

  patch-Keeps :
      (y : Pydantic) (now : ℕ) (environment id : String) (changes : Fields)
      → Keeps I Any (patch y now p environment id changes)
  unfolding patch
  patch-Keeps y now environment id changes =
      Keeps-bind I _ Any _ _ (Keeps-raise_if I (not (mem environment environments)) not_found)
        (λ _ _.
          Keeps-bind I _ Any _ _
            (Keeps-raise_if I (not (all_patchable changes)) (validation_failed [] []))
            (λ _ _.
              Keeps-bind I Any Any _ _ (Keeps-get I (get_assignment environment id)) (λ found _.
                Keeps-bind I Any Any _ _ (Keeps-given_or I found not_found) (λ current _.
                  put_raw-Keeps y now environment (merge (y.dump current.assignment) changes)))))

  some-Apart :
      (j : TenantKey) (o : Option AssignmentRecord) → Apart j o → OnSome (λ b. Apart j (some b)) o
  some-Apart j none h = tt
  some-Apart j (some b) h = h

  delete-Keeps : (now : ℕ) (environment id : String) → Keeps I Any (delete now p environment id)
  unfolding delete
  delete-Keeps now environment id =
      let j = key environment id in
      Keeps-bind I _ Any _ _ (Keeps-raise_if I (not (mem environment environments)) not_found)
        (λ _ _. Keeps-bind I (Apart j) Any _ _ (read-Apart j) (λ found apart.
          Keeps-bind I (λ b. Apart j (some b)) Any _ _
            (Keeps-some I (λ b. Apart j (some b)) found not_found (some-Apart j found apart))
            (λ current h. Keeps-bind I _ Any _ _ (before-Apart j (some current) h) (λ _ e.
              Keeps-after I Any _ _
                (Keeps-modify I (delete_assignment environment id) (λ s. remove-keeps j s e))
                (log-Keeps _ _ _ _ now)))))

-- An assignment that does not belong to the tenant of a tenant's key is still stored, unchanged, when
-- the key's put, patch or delete is over, whether that returns or raises.
pub foreign_untouched :
    (y : Pydantic) (now : ℕ) (p : Principal) (mine environment id : String) (raw : Fields)
    (k : TenantKey) (r : AssignmentRecord) (st : MemoryStore)
    → p.tenant_id ≡ some mine
    → lookup k st.assignments ≡ some r
    → tenant_id r.assignment ≢ some mine
    → (lookup k (put_raw y now p environment raw st).1.assignments ≡ some r)
      × (lookup k (patch y now p environment id raw st).1.assignments ≡ some r)
      × (lookup k (delete now p environment id st).1.assignments ≡ some r)
foreign_untouched y now p mine environment id raw k r st own i foreign =
    let I = λ (s : MemoryStore). lookup k s.assignments ≡ some r in
    (
      Keeps-store I Any _ st (put_raw-Keeps k r p mine own foreign y now environment raw) i,
      Keeps-store I Any _ st (patch-Keeps k r p mine own foreign y now environment id raw) i,
      Keeps-store I Any _ st (delete-Keeps k r p mine own foreign now environment id) i,
    )
