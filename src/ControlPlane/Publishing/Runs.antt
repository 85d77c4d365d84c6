-- ===== src/ControlPlane/Publishing/Runs.antt =====
-- The two-person rule in every state that the publishing service can reach.
use policy_guardrails_agent.Prelude.{
  Bool-cases, All, str_eq, lookup, String, ◌≡◌, subst, inl, inr, true, false, Option, none, some,
  List, clash, none-some,
}
use policy_guardrails_agent.Session.Keys.{string_eq}
use policy_guardrails_agent.ControlPlane.Publishing.{Ctx, requires_approval}
use policy_guardrails_agent.ControlPlane.Publishing.Log.{
  here, there, In, Log, All-weaken, with_ask-Grows, with_commit-Grows, Grows,
}
use policy_guardrails_agent.ControlPlane.Publishing.Steps.{
  begin, next, Approval, State, Step, Reach, remember_ask, remember_commit, publish_step,
  empty_state, after, rollback_step, import_step, reject_step, refused_step, checked_step,
  commit_step, elsewhere,
}
use policy_guardrails_agent.ControlPlane.Service.{Service, Result, ok, raised}
use policy_guardrails_agent.ControlPlane.Store.Publication.{current_snapshot, at_id}
use policy_guardrails_agent.ControlPlane.Publishing.Vouched.{
  IsVouched, VouchedSnapshot, TwoKeys, same-IsVouched, IsVouched-grow,
}
use policy_guardrails_agent.ControlPlane.Store.{MemoryStore}
use policy_guardrails_agent.ControlPlane.Records.{SnapshotRecord, is_import}
use policy_guardrails_agent.ControlPlane.Service.Sound.{Sound, ok_inj, Any, Keeps, raised_ok}
use policy_guardrails_agent.ControlPlane.Store.Kept.{All-lookup}
use policy_guardrails_agent.ControlPlane.Publishing.TwoPerson.{
  publish-Keeps, roll_back-Keeps, import-Keeps,
}
use policy_guardrails_agent.ControlPlane.Publishing.Approval.{
  reject-Keeps, Checked, Checked-grow, check-Keeps, commit_approval-Keeps,
}
use policy_guardrails_agent.ControlPlane.Rbac.{Principal}

abbrev IsChecked : Log → Approval → Type 0
IsChecked l a = Checked l a.approver a.request

record IsSafe (c : Ctx) (st : State) : Type 0 where
  store : IsVouched c st.log st.store
  in_flight : All (IsChecked st.log) st.in_flight

find-IsChecked :
    (l : Log) {a : Approval} {xs : List Approval} → In a xs → All (IsChecked l) xs → IsChecked l a
find-IsChecked l here h = h.0
find-IsChecked l (there i) h = find-IsChecked l i h.1

module _ (c : Ctx) where
  store_behind :
      (l : Log) {A : Type 0} (Q : A → Type 0) (r : Result A × MemoryStore)
      → Sound (IsVouched c l) Q r
      → IsVouched c l r.1
  store_behind l Q (ok a, s) h = h.0
  store_behind l Q (raised e, s) h = h

  value_behind :
      (l : Log) {A : Type 0} (Q : A → Type 0) (a : A) (r : Result A × MemoryStore)
      → r.0 ≡ ok a
      → Sound (IsVouched c l) Q r
      → Q a
  value_behind l Q a (ok b, s) e h = subst Q (ok_inj e) h.1
  value_behind l Q a (raised x, s) e h = absurd (raised_ok e)

  after-IsSafe :
      {A : Type 0} (Q : A → Type 0) (m : Service A) (st : State)
      → Keeps (IsVouched c st.log) Q m
      → IsSafe c st
      → IsSafe c (after m st)
  after-IsSafe Q m st k h = record {
    store = store_behind st.log Q (m st.store) (k st.store h.store);
    in_flight = h.in_flight;
  }

  logged-IsSafe :
      (l' : Log) (st : State) → Grows st.log l' → IsSafe c st → IsSafe c (record st { log = l' })
  logged-IsSafe l' st g h = record {
    store = IsVouched-grow c st.log l' st.store g h.store;
    in_flight =
        All-weaken st.in_flight (λ a. Checked-grow st.log l' a.approver a.request g) h.in_flight;
  }

  asked-IsSafe :
      (p : Principal) (id : String) (st : State) → IsSafe c st → IsSafe c (remember_ask p id st)
  asked-IsSafe p id st h = logged-IsSafe (remember_ask p id st).log st (with_ask-Grows _ st.log) h

  committed-IsSafe :
      (a : Approval) (id : String) (st : State) → IsSafe c st → IsSafe c (remember_commit a id st)
  committed-IsSafe a id st h =
      logged-IsSafe (remember_commit a id st).log st (with_commit-Grows _ st.log) h

  Step-IsSafe : {t u : State} → Step c t u → IsSafe c t → IsSafe c u
  Step-IsSafe (publish_step now id p environment note force st) h =
      let st' = remember_ask p id st in
      after-IsSafe Any _ st' (publish-Keeps c st'.log now id p environment note force here)
        (asked-IsSafe p id st h)
  Step-IsSafe (rollback_step now id p environment target_version note st) h =
      let st' = remember_ask p id st in
      after-IsSafe Any _ st'
        (roll_back-Keeps c st'.log now id p environment target_version note here)
        (asked-IsSafe p id st h)
  Step-IsSafe (import_step now id p doc force st) h =
      after-IsSafe Any _ st (import-Keeps c st.log now id p doc force) h
  Step-IsSafe (reject_step now p request_id note st) h =
      after-IsSafe Any _ st (reject-Keeps c st.log now p request_id note) h
  Step-IsSafe (refused_step now p request_id st) h =
      after-IsSafe (Checked st.log p) _ st (check-Keeps c st.log now p request_id) h
  Step-IsSafe (checked_step now p request_id req st e) h =
      let k = check-Keeps c st.log now p request_id st.store h.store in
      record {
        store = store_behind st.log (Checked st.log p) _ k;
        in_flight = (value_behind st.log (Checked st.log p) req _ e k, h.in_flight);
      }
  Step-IsSafe (commit_step now id note a st i) h =
      let st' = remember_commit a id st in
      let h' = committed-IsSafe a id st h in
      after-IsSafe Any _ st'
        (commit_approval-Keeps c st'.log now id a.approver note a.request
          (find-IsChecked st'.log i h'.in_flight) here)
        h'
  Step-IsSafe (elsewhere store' st e f) h = record {
    store = same-IsVouched c st.log st.store store' e f h.store;
    in_flight = h.in_flight;
  }

  Reach-IsSafe : {t u : State} → Reach c t u → IsSafe c t → IsSafe c u
  Reach-IsSafe begin h = h
  Reach-IsSafe (next r s) h = Step-IsSafe s (Reach-IsSafe r h)

  vouched_current :
      (l : Log) (environment : String) (s : SnapshotRecord) (st : MemoryStore)
      → IsVouched c l st
      → current_snapshot environment st ≡ some s
      → VouchedSnapshot c l s
  unfolding current_snapshot
  vouched_current l environment s st i e = at (lookup environment st.current) e
    where
      at : (o : Option String) → at_id o st.snapshots ≡ some s → VouchedSnapshot c l s
      at none e = absurd (none-some e)
      at (some sid) e = elim (Bool-cases (str_eq sid "")) [
        | inl q ↦ absurd (none-some (rw q at e))
        | inr q ↦ All-lookup (VouchedSnapshot c l) sid s st.snapshots i.snapshots (rw q at e)
      ]

  -- In every state that the service reaches from an empty store, whatever requests interleave, a
  -- snapshot that is current, that was not imported and whose environment needs approval is the work
  -- of two admin keys: in the run, one key called `publish` or `rollback` and another, with a
  -- different key id, committed the request of that call as this snapshot, for this environment.
  -- Each had the permission for it, and the snapshot names both.
  pub two_person_rule :
      (st : State) (environment : String) (s : SnapshotRecord)
      → Reach c empty_state st
      → current_snapshot environment st.store ≡ some s
      → requires_approval c s.environment ≡ true
      → is_import s.kind ≡ false
      → TwoKeys st.log s.id s.environment s.published_by s.approved_by
  two_person_rule st environment s r e needed own =
      elim (vouched_current st.log environment s st.store (Reach-IsSafe r start).store e) [
        | inl free ↦ absurd (clash needed free)
        | inr (inl imported) ↦ absurd (clash imported own)
        | inr (inr two) ↦ two
      ]
    where
      start : IsSafe c empty_state
      start = record { store = record { snapshots = tt; requests = tt }; in_flight = tt }
