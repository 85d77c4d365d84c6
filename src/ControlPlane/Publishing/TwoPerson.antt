-- ===== src/ControlPlane/Publishing/TwoPerson.antt =====
-- The two-person rule through the methods of PublishService.
use policy_guardrails_agent.Prelude.{
  ℕ, String, ◌≡◌, refl, inl, inr, Bool, true, false, Option, none, some, List,
}
use policy_guardrails_agent.ControlPlane.Publishing.Log.{Log, In}
use policy_guardrails_agent.Session.Keys.{string_eq}
use policy_guardrails_agent.ControlPlane.Publishing.{
  Ctx, ask_approval, Submission, compile_now, submit, publish_at_once, requires_approval,
  submit_new, document_of, versions_by_key, order_of, is_unchanged, request_of,
}
use policy_guardrails_agent.ControlPlane.Store.{MemoryStore}
use policy_guardrails_agent.ControlPlane.Publishing.Requests.{
  publish_working, import_snapshot, roll_back, import_new, import_order, assignments_of_record,
  restoration, publication,
}
use policy_guardrails_agent.ControlPlane.Rbac.{Principal, can, publish_request, publish_approve}
use policy_guardrails_agent.ControlPlane.Compiler.{CompileResult, compile_snapshot, is_ok}
use policy_guardrails_agent.ControlPlane.Service.Sound.{
  Keeps, Any, Keeps-bind, Keeps-require, Keeps-if, Keeps-get, Keeps-pure, Keeps-given_or,
  Keeps-after, Keeps-modify, Keeps-raise, Sound-result,
}
use policy_guardrails_agent.ControlPlane.Records.{SnapshotRecord, Document}
use policy_guardrails_agent.Guardrails.Assignment.{Assignment}
use policy_guardrails_agent.ControlPlane.Publishing.Vouched.{
  IsVouched, commit-Keeps, put_request-IsVouched, log-Keeps,
}
use policy_guardrails_agent.Guardrails.Registry.{SnapshotDoc}
use policy_guardrails_agent.ControlPlane.Store.Publication.{
  list_assignments, get_snapshot, current_snapshot, list_gateways,
}
use policy_guardrails_agent.ControlPlane.Service.{not_found, invalid_value, validation_failed}

module _ (c : Ctx) (l : Log) where
  abbrev I : MemoryStore → Type 0
  I = IsVouched c l

  pub compile-Keeps :
      (now : ℕ) (environment : String) (xs : List Assignment) (force : Bool)
      → Keeps I Any (compile_now c now environment xs force)
  unfolding compile_now
  compile-Keeps now environment xs force st i =
      Sound-result I
        (compile_snapshot c.valid now c.policy.gateway_stale_seconds environment xs
          (versions_by_key st) (list_gateways (some environment) st) force)
        st i

  document_of-Keeps : (r : CompileResult) → Keeps I Any (document_of r)
  document_of-Keeps r =
      Keeps-if I Any (is_ok r) _ _ (λ _. Keeps-given_or I r.document invalid_value)
        (λ _. Keeps-raise I Any (validation_failed r.errors r.warnings))

  abbrev Made : Principal → String → Type 0
  Made p id = In (record { asker = p; request_id = id }) l.asks

  ask-Keeps :
      (now : ℕ) (id : String) (sub : Submission)
      → Made sub.principal id
      → can sub.principal publish_request none ≡ true
      → Keeps I Any (ask_approval now id sub)
  unfolding ask_approval
  ask-Keeps now id sub made may =
      Keeps-bind I Any Any _ _ (Keeps-get I (current_snapshot sub.environment)) (λ current _.
        Keeps-after I Any _ _
          (Keeps-modify I _ (λ st i.
            put_request-IsVouched c l (request_of now id sub current) st
              (record {
                asking = record { asker = sub.principal; request_id = id };
                is_asking = made;
                of_request = refl;
                may_ask = may;
                asked = refl;
                same_key = refl;
              })
              i))
          (Keeps-after I Any _ _ (log-Keeps c l _ _ _ _ now) (Keeps-pure I Any _ tt)))

  at_once-Keeps :
      (now : ℕ) (id : String) (sub : Submission)
      → requires_approval c sub.environment ≡ false
      → Keeps I Any (publish_at_once c now id sub)
  unfolding publish_at_once
  at_once-Keeps now id sub free =
      Keeps-bind I Any Any _ _ (commit-Keeps c l now id (order_of sub) (inl free))
        (λ snap _. Keeps-pure I Any _ tt)

  submit_new-Keeps :
      (now : ℕ) (id : String) (sub : Submission) (same : Option SnapshotRecord)
      → Made sub.principal id
      → can sub.principal publish_request none ≡ true
      → Keeps I Any (submit_new c now id sub same)
  submit_new-Keeps now id sub (some s) made may = Keeps-pure I Any _ tt
  submit_new-Keeps now id sub none made may =
      Keeps-if I Any (requires_approval c sub.environment) _ _ (λ _. ask-Keeps now id sub made may)
        (at_once-Keeps now id sub)

  submit-Keeps :
      (now : ℕ) (id : String) (sub : Submission)
      → Made sub.principal id
      → can sub.principal publish_request none ≡ true
      → Keeps I Any (submit c now id sub)
  unfolding submit
  submit-Keeps now id sub made may =
      Keeps-bind I Any Any _ _ (Keeps-get I (is_unchanged c sub.environment sub.document))
        (λ same _. submit_new-Keeps now id sub same made may)

  import_new-Keeps :
      (now : ℕ) (id : String) (p : Principal) (d : Document) (same : Option SnapshotRecord)
      → Keeps I Any (import_new c now id p d same)
  import_new-Keeps now id p d (some s) = Keeps-pure I Any s tt
  import_new-Keeps now id p d none = commit-Keeps c l now id (import_order p d) (inr (inl refl))

  pub publish-Keeps :
      (now : ℕ) (id : String) (p : Principal) (environment note : String) (force : Bool)
      → Made p id
      → Keeps I Any (publish_working c now id p environment note force)
  unfolding publish_working
  publish-Keeps now id p environment note force made =
      Keeps-bind I _ Any _ _ (Keeps-require I p publish_request none) (λ _ may.
        Keeps-bind I Any Any _ _ (Keeps-get I (list_assignments environment)) (λ working _.
          Keeps-bind I Any Any _ _
            (compile-Keeps now environment (assignments_of_record working) force)
            (λ result _. Keeps-bind I Any Any _ _ (document_of-Keeps result) (λ document _.
              submit-Keeps now id (publication p environment note result.warnings document) made
                may))))

  pub roll_back-Keeps :
      (now : ℕ) (id : String) (p : Principal) (environment target_version note : String)
      → Made p id
      → Keeps I Any (roll_back c now id p environment target_version note)
  unfolding roll_back
  roll_back-Keeps now id p environment target_version note made =
      Keeps-bind I _ Any _ _ (Keeps-require I p publish_request none) (λ _ may.
        Keeps-bind I Any Any _ _ (Keeps-get I (get_snapshot environment target_version)) (λ found _.
          Keeps-bind I Any Any _ _ (Keeps-given_or I found not_found) (λ target _.
            Keeps-bind I Any Any _ _
              (compile-Keeps now environment target.document.doc.assignments true)
              (λ result _. Keeps-bind I Any Any _ _ (document_of-Keeps result) (λ document _.
                submit-Keeps now id
                  (restoration p environment target_version note result.warnings document) made
                  may)))))

  pub import-Keeps :
      (now : ℕ) (id : String) (p : Principal) (doc : SnapshotDoc) (force : Bool)
      → Keeps I Any (import_snapshot c now id p doc force)
  unfolding import_snapshot
  import-Keeps now id p doc force =
      Keeps-bind I _ Any _ _ (Keeps-require I p publish_approve none) (λ _ _.
        Keeps-bind I Any Any _ _ (compile-Keeps now doc.environment doc.assignments force)
          (λ result _. Keeps-bind I Any Any _ _ (document_of-Keeps result) (λ document _.
            Keeps-bind I Any Any _ _ (Keeps-get I (is_unchanged c doc.environment document))
              (λ same _. import_new-Keeps now id p document same))))
