-- ===== src/ControlPlane/Publishing/Vouched.antt =====
-- What the store of PublishService keeps: who asked for every publication and who approved it.
use policy_guardrails_agent.Prelude.{
  Bool-cases, any, All, ℕ, ◌+◌, String, ◌≡◌, refl, sym, subst, ◌≢◌, ◌⊎◌, inl, inr, true, false,
  ◌||◌, Option, none, some, List, [], ◌∷◌, map,
}
use policy_guardrails_agent.Session.Keys.{string_eq}
use policy_guardrails_agent.ControlPlane.Publishing.Log.{
  Log, Asking, Commitment, In, Grows, All-weaken,
}
use policy_guardrails_agent.ControlPlane.Records.{
  AssignmentRecord, PublishRequestRecord, SnapshotRecord, Kind, is_import, is_rollback,
}
use policy_guardrails_agent.ControlPlane.Rbac.{can, publish_request, publish_approve}
use policy_guardrails_agent.ControlPlane.Store.Publication.{
  replace_assignments, add_snapshot, set_current_snapshot, put_all, put_publish_request,
  put_assignment, others, is_version, count_snapshots, log,
}
use policy_guardrails_agent.ControlPlane.Publishing.{
  Ctx, store_snapshot, Order, requires_approval, actor, restore, working_record, commit,
  snapshot_of, final_document,
}
use policy_guardrails_agent.ControlPlane.Store.{MemoryStore, values}
use policy_guardrails_agent.Guardrails.Assignment.{Assignment}
use policy_guardrails_agent.ControlPlane.Store.Kept.{All-put}
use policy_guardrails_agent.ControlPlane.Service.Sound.{
  Keeps, Any, Keeps-after, Keeps-modify, Keeps-pure,
}
use policy_guardrails_agent.ControlPlane.Service.{guarded, modify}

-- the snapshot with this id was committed for a request that another admin key had asked for, and
-- both had the permissions for it
pub record TwoKeys (l : Log) (id environment published_by : String) (approved_by : Option String)
    : Type 0 where
  pub asking : Asking
  pub commitment : Commitment
  pub is_asking : In asking l.asks
  pub is_commitment : In commitment l.commits
  pub of_snapshot : commitment.snapshot_id ≡ id
  pub of_environment : commitment.request.environment ≡ environment
  pub of_request : commitment.request.id ≡ asking.request_id
  pub distinct : asking.asker.key_id ≢ commitment.approver.key_id
  pub may_ask : can asking.asker publish_request none ≡ true
  pub may_approve : can commitment.approver publish_approve none ≡ true
  pub asked : published_by ≡ actor asking.asker
  pub approved : approved_by ≡ some (actor commitment.approver)

-- a publication without two keys is an import, or its environment needs no approval
abbrev pub Vouched : Ctx → Log → String → String → Kind → String → Option String → Type 0
Vouched c l id environment kind published_by approved_by =
    (requires_approval c environment ≡ false)
    ⊎ ((is_import kind ≡ true) ⊎ TwoKeys l id environment published_by approved_by)

abbrev pub VouchedSnapshot : Ctx → Log → SnapshotRecord → Type 0
VouchedSnapshot c l s = Vouched c l s.id s.environment s.kind s.published_by s.approved_by

abbrev pub VouchedOrder : Ctx → Log → String → Order → Type 0
VouchedOrder c l id o = Vouched c l id o.environment o.kind o.published_by o.approved_by

-- the key that a stored request names asked for it, and may ask for a publication
pub record Asked (l : Log) (r : PublishRequestRecord) : Type 0 where
  pub asking : Asking
  pub is_asking : In asking l.asks
  pub of_request : r.id ≡ asking.request_id
  pub may_ask : can asking.asker publish_request none ≡ true
  pub asked : r.requested_by ≡ actor asking.asker
  pub same_key : r.requested_by_key ≡ asking.asker.key_id

pub record IsVouched (c : Ctx) (l : Log) (st : MemoryStore) : Type 0 where
  pub snapshots : All (VouchedSnapshot c l) (values st.snapshots)
  pub requests : All (Asked l) (values st.publish_requests)

pub Asked-grow : (l l' : Log) (r : PublishRequestRecord) → Grows l l' → Asked l r → Asked l' r
Asked-grow l l' r g a = record {
  asking = a.asking;
  is_asking = g.asks a.asking a.is_asking;
  of_request = a.of_request;
  may_ask = a.may_ask;
  asked = a.asked;
  same_key = a.same_key;
}

Vouched-grow :
    (c : Ctx) (l l' : Log) (s : SnapshotRecord)
    → Grows l l'
    → VouchedSnapshot c l s
    → VouchedSnapshot c l' s
Vouched-grow c l l' s g (inl free) = inl free
Vouched-grow c l l' s g (inr (inl imported)) = inr (inl imported)
Vouched-grow c l l' s g (inr (inr two)) = inr (
    inr (record {
      asking = two.asking;
      commitment = two.commitment;
      is_asking = g.asks two.asking two.is_asking;
      is_commitment = g.commits two.commitment two.is_commitment;
      of_snapshot = two.of_snapshot;
      of_environment = two.of_environment;
      of_request = two.of_request;
      distinct = two.distinct;
      may_ask = two.may_ask;
      may_approve = two.may_approve;
      asked = two.asked;
      approved = two.approved;
    }))

-- A longer log vouches for all that a shorter one did.
pub IsVouched-grow :
    (c : Ctx) (l l' : Log) (st : MemoryStore) → Grows l l' → IsVouched c l st → IsVouched c l' st
IsVouched-grow c l l' st g i = record {
  snapshots = All-weaken (values st.snapshots) (λ s. Vouched-grow c l l' s g) i.snapshots;
  requests = All-weaken (values st.publish_requests) (λ r. Asked-grow l l' r g) i.requests;
}

-- a store with the same snapshots and requests
pub same-IsVouched :
    (c : Ctx) (l : Log) (st st' : MemoryStore)
    → st'.snapshots ≡ st.snapshots
    → st'.publish_requests ≡ st.publish_requests
    → IsVouched c l st
    → IsVouched c l st'
same-IsVouched c l st st' e f i = record {
  snapshots = subst (λ d. All (VouchedSnapshot c l) (values d)) (sym e) i.snapshots;
  requests = subst (λ d. All (Asked l) (values d)) (sym f) i.requests;
}

pub put_request-IsVouched :
    (c : Ctx) (l : Log) (r : PublishRequestRecord) (st : MemoryStore)
    → Asked l r
    → IsVouched c l st
    → IsVouched c l (put_publish_request r st)
put_request-IsVouched c l r st a i = record {
  snapshots = i.snapshots;
  requests = All-put (Asked l) r.id r st.publish_requests a i.requests;
}

put_all-same :
    (rs : List AssignmentRecord) (st : MemoryStore)
    → ((put_all rs st).snapshots ≡ st.snapshots)
      × ((put_all rs st).publish_requests ≡ st.publish_requests)
put_all-same [] st = (refl, refl)
put_all-same (r ∷ rs) st = put_all-same rs (put_assignment r st)

restore-IsVouched :
    (c : Ctx) (l : Log) (now : ℕ) (o : Order) (xs : List Assignment) (st : MemoryStore)
    → IsVouched c l st
    → IsVouched c l (restore now o xs st)
unfolding replace_assignments
restore-IsVouched c l now o xs st i = elim (Bool-cases (is_rollback o.kind || is_import o.kind)) [
  | inl e ↦ rw e (
      let same =
        put_all-same (map (working_record now o) xs)
          (record st { assignments = others o.environment st.assignments }) in
      same-IsVouched c l st _ same.0 same.1 i)
  | inr e ↦ rw e i
]

add_snapshot-Keeps :
    (c : Ctx) (l : Log) (s : SnapshotRecord)
    → VouchedSnapshot c l s
    → Keeps (IsVouched c l) Any (guarded (add_snapshot s))
unfolding guarded add_snapshot
add_snapshot-Keeps c l s v st i =
    elim (Bool-cases (any (is_version s.environment s.version) (values st.snapshots))) [
      | inl e ↦ rw e i
      | inr e ↦ rw e (
        record {
          snapshots = All-put (VouchedSnapshot c l) s.id s st.snapshots v i.snapshots;
          requests = i.requests;
        },
        tt,
      )
    ]

pub log-Keeps :
    (c : Ctx) (l : Log) (entity id action actor : String) (now : ℕ)
    → Keeps (IsVouched c l) Any (modify (log entity id action actor now))
unfolding modify
log-Keeps c l entity id action actor now st i =
    (same-IsVouched c l st (log entity id action actor now st) refl refl i, tt)

set_current-Keeps :
    (c : Ctx) (l : Log) (environment id : String)
    → Keeps (IsVouched c l) Any (modify (set_current_snapshot environment id))
unfolding modify set_current_snapshot
set_current-Keeps c l environment id st i =
    (same-IsVouched c l st (set_current_snapshot environment id st) refl refl i, tt)

store_snapshot-Keeps :
    (c : Ctx) (l : Log) (now : ℕ) (o : Order) (s : SnapshotRecord)
    → VouchedSnapshot c l s
    → Keeps (IsVouched c l) Any (store_snapshot now o s)
unfolding store_snapshot
store_snapshot-Keeps c l now o s v =
    let I = IsVouched c l in
    Keeps-after I Any _ _ (add_snapshot-Keeps c l s v) (
      Keeps-after I Any _ _ (set_current-Keeps c l o.environment s.id) (
        Keeps-after I Any _ _
          (Keeps-modify I _ (restore-IsVouched c l now o s.document.doc.assignments))
          (Keeps-after I Any _ _ (log-Keeps c l _ _ _ _ now) (Keeps-pure I Any s tt))))

pub commit-Keeps :
    (c : Ctx) (l : Log) (now : ℕ) (id : String) (o : Order)
    → VouchedOrder c l id o
    → Keeps (IsVouched c l) Any (commit c now id o)
unfolding commit
commit-Keeps c l now id o v st i =
    store_snapshot-Keeps c l now o
      (snapshot_of c now id o (final_document c now (count_snapshots o.environment st + 1) o)) v st
      i
