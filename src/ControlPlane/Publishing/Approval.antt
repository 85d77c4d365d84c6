-- ===== src/ControlPlane/Publishing/Approval.antt =====
-- The two-person rule through `approve` and `reject`.
use policy_guardrails_agent.Prelude.{
  ltb, str_eq, eq_iff, lookup, ℕ, ◌+◌, String, ◌≡◌, refl, ◌∙◌, ◌≢◌, inr, Bool, true, false, not,
  Option, none, some, clash,
}
use policy_guardrails_agent.ControlPlane.Publishing.Log.{Log, In, Grows}
use policy_guardrails_agent.Session.Keys.{string_eq}
use policy_guardrails_agent.ControlPlane.Publishing.{Ctx}
use policy_guardrails_agent.ControlPlane.Rbac.{Principal, can, publish_approve}
use policy_guardrails_agent.ControlPlane.Service.Sound.{
  Keeps, Keeps-bind, OnSome, Any, Keeps-require, Keeps-get, Keeps-some, Keeps-raise_if, Keeps-pure,
  Keeps-read, Keeps-after, Keeps-modify, Keeps-if, Keeps-raise,
}
use policy_guardrails_agent.ControlPlane.Store.{MemoryStore}
use policy_guardrails_agent.ControlPlane.Publishing.Requests.{
  pending_request, check_approval, commit_approval, stale_unless, base_matches, approval_order,
  approved_request, reject, rejected_request,
}
use policy_guardrails_agent.ControlPlane.Records.{
  PublishRequestRecord, RequestStatus, is_open, is_rollback,
}
use policy_guardrails_agent.ControlPlane.Publishing.Vouched.{
  IsVouched, Asked, Asked-grow, VouchedOrder, commit-Keeps, put_request-IsVouched, log-Keeps,
}
use policy_guardrails_agent.ControlPlane.Service.{
  get, modify, not_found, state_conflict, validation_failed,
}
use policy_guardrails_agent.ControlPlane.Store.Publication.{
  get_publish_request, put_publish_request,
}
use policy_guardrails_agent.ControlPlane.Store.Kept.{All-lookup}
use policy_guardrails_agent.ControlPlane.Publishing.TwoPerson.{compile-Keeps}
use policy_guardrails_agent.ControlPlane.Compiler.{is_ok}

-- what `approve` has checked when its transaction begins
pub record Checked (l : Log) (p : Principal) (req : PublishRequestRecord) : Type 0 where
  pub asked : Asked l req
  pub distinct : req.requested_by_key ≢ p.key_id
  pub may_approve : can p publish_approve none ≡ true

pub Checked-grow :
    (l l' : Log) (p : Principal) (req : PublishRequestRecord)
    → Grows l l'
    → Checked l p req
    → Checked l' p req
Checked-grow l l' p req g k = record {
  asked = Asked-grow l l' req g k.asked;
  distinct = k.distinct;
  may_approve = k.may_approve;
}

module _ (c : Ctx) (l : Log) where
  abbrev I : MemoryStore → Type 0
  I = IsVouched c l

  found_request : (id : String) → Keeps I (OnSome (Asked l)) (get (get_publish_request id))
  found_request id = Keeps-read I (OnSome (Asked l)) (get_publish_request id) (λ st i.
      each (lookup id st.publish_requests)
        (λ r e. All-lookup (Asked l) id r st.publish_requests i.requests e))
    where
      each :
          (o : Option PublishRequestRecord)
          → ((r : PublishRequestRecord) → o ≡ some r → Asked l r)
          → OnSome (Asked l) o
      each none h = tt
      each (some r) h = h r refl

  marked-Keeps :
      (req : PublishRequestRecord) (s : RequestStatus)
      → Asked l req
      → Keeps I Any (modify (put_publish_request (record req { status = s })))
  marked-Keeps req s a = Keeps-modify I _ (λ st i.
      put_request-IsVouched c l (record req { status = s }) st
        (record {
          asking = a.asking;
          is_asking = a.is_asking;
          of_request = a.of_request;
          may_ask = a.may_ask;
          asked = a.asked;
          same_key = a.same_key;
        })
        i)

  pending-Keeps : (now : ℕ) (id : String) → Keeps I (Asked l) (pending_request c now id)
  unfolding pending_request
  pending-Keeps now id =
      Keeps-bind I (OnSome (Asked l)) (Asked l) _ _ (found_request id) (λ found h.
        Keeps-bind I (Asked l) (Asked l) _ _ (Keeps-some I (Asked l) found not_found h) (λ req a.
          Keeps-bind I _ (Asked l) _ _ (Keeps-raise_if I (not (is_open req.status)) state_conflict)
            (λ _ _.
              Keeps-if I (Asked l) (ltb (req.requested_at + c.policy.publish_request_ttl) now) _ _
                (λ _.
                  Keeps-after I (Asked l) _ _ (marked-Keeps req RequestStatus.expired a)
                    (Keeps-raise I (Asked l) state_conflict))
                (λ _. Keeps-pure I (Asked l) req a))))

  stale-Keeps :
      (fresh : Bool) (req : PublishRequestRecord)
      → Asked l req
      → Keeps I Any (stale_unless fresh req)
  stale-Keeps true req a = Keeps-pure I Any tt tt
  stale-Keeps false req a =
      Keeps-after I Any _ _ (marked-Keeps req RequestStatus.stale a)
        (Keeps-raise I Any state_conflict)

  pub check-Keeps :
      (now : ℕ) (p : Principal) (id : String) → Keeps I (Checked l p) (check_approval c now p id)
  unfolding check_approval
  check-Keeps now p id =
      Keeps-bind I _ (Checked l p) _ _ (Keeps-require I p publish_approve none) (λ _ may.
        Keeps-bind I (Asked l) (Checked l p) _ _ (pending-Keeps now id) (λ req a.
          Keeps-bind I _ (Checked l p) _ _
            (Keeps-raise_if I (str_eq req.requested_by_key p.key_id) state_conflict)
            (λ _ other.
              Keeps-bind I Any (Checked l p) _ _ (Keeps-get I (base_matches req)) (λ fresh _.
                Keeps-after I (Checked l p) _ _ (stale-Keeps fresh req a) (
                  Keeps-bind I Any (Checked l p) _ _
                    (compile-Keeps c l now req.environment req.document.doc.assignments
                      (is_rollback req.kind))
                    (λ result _.
                      Keeps-bind I _ (Checked l p) _ _
                        (Keeps-raise_if I (not (is_ok result))
                          (validation_failed result.errors result.warnings))
                        (λ _ _. Keeps-pure I (Checked l p) req (record {
                          asked = a;
                          distinct = λ e. clash ((eq_iff req.requested_by_key p.key_id).1 e) other;
                          may_approve = may;
                        }))))))))

  vouched_order :
      (id : String) (p : Principal) (req : PublishRequestRecord)
      → Checked l p req
      → In (record { approver = p; request = req; snapshot_id = id }) l.commits
      → VouchedOrder c l id (approval_order p req)
  vouched_order id p req k i = inr (
      inr (record {
        asking = k.asked.asking;
        commitment = record { approver = p; request = req; snapshot_id = id };
        is_asking = k.asked.is_asking;
        is_commitment = i;
        of_snapshot = refl;
        of_environment = refl;
        of_request = k.asked.of_request;
        distinct = λ e. k.distinct (k.asked.same_key ∙ e);
        may_ask = k.asked.may_ask;
        may_approve = k.may_approve;
        asked = k.asked.asked;
        approved = refl;
      }))

  pub commit_approval-Keeps :
      (now : ℕ) (id : String) (p : Principal) (note : String) (req : PublishRequestRecord)
      → Checked l p req
      → In (record { approver = p; request = req; snapshot_id = id }) l.commits
      → Keeps I Any (commit_approval c now id p note req)
  unfolding commit_approval
  commit_approval-Keeps now id p note req k made =
      Keeps-bind I Any Any _ _ (Keeps-get I (base_matches req)) (λ fresh _.
        Keeps-bind I _ Any _ _ (Keeps-raise_if I (not fresh) state_conflict) (λ _ _.
          Keeps-bind I Any Any _ _
            (commit-Keeps c l now id (approval_order p req) (vouched_order id p req k made))
            (λ snap _.
              Keeps-after I Any _ _
                (Keeps-modify I _ (λ st i.
                  put_request-IsVouched c l (approved_request now p note snap req) st
                    (record {
                      asking = k.asked.asking;
                      is_asking = k.asked.is_asking;
                      of_request = k.asked.of_request;
                      may_ask = k.asked.may_ask;
                      asked = k.asked.asked;
                      same_key = k.asked.same_key;
                    })
                    i))
                (Keeps-after I Any _ _ (log-Keeps c l _ _ _ _ now) (Keeps-pure I Any snap tt)))))

  pub reject-Keeps :
      (now : ℕ) (p : Principal) (id note : String) → Keeps I Any (reject c now p id note)
  unfolding reject
  reject-Keeps now p id note =
      Keeps-bind I _ Any _ _ (Keeps-require I p publish_approve none) (λ _ _.
        Keeps-bind I (Asked l) Any _ _ (pending-Keeps now id) (λ req a.
          Keeps-after I Any _ _
            (Keeps-modify I _ (λ st i.
              put_request-IsVouched c l (rejected_request now p note req) st
                (record {
                  asking = a.asking;
                  is_asking = a.is_asking;
                  of_request = a.of_request;
                  may_ask = a.may_ask;
                  asked = a.asked;
                  same_key = a.same_key;
                })
                i))
            (Keeps-after I Any _ _ (log-Keeps c l _ _ _ _ now)
              (Keeps-pure I Any (rejected_request now p note req) tt))))
