-- ===== src/ControlPlane/Reviews.antt =====
-- services/guardrail-control-plane/app/services/reviews.py: ReviewService. PayloadCipher of
-- domain/crypto.py stands for a library's encryption of a payload of type P: a text that was
-- encrypted under another key does not decrypt.
pub mod Once
use Prim.Native.String.{◌++◌ as concat}
use policy_guardrails_agent.Prelude.{
  if◌then◌else◌, keep, str_eq, ℕ, zero, suc, ◌+◌, ◌*◌, String, Bool, true, false, not, ◌&&◌, Option,
  none, some, List, [], ◌∷◌, ◌++◌, map, first_chars,
}
use policy_guardrails_agent.Session.Keys.{string_eq}
use policy_guardrails_agent.ControlPlane.Service.{
  Policy, Service, require, ◌>>◌, ◌>>=◌, ok, modify, raise_if, get, pure, not_found, given_or,
  state_conflict, forbidden,
}
use policy_guardrails_agent.ControlPlane.Records.{
  ReviewStatus, ReviewRecord, same_status, effective_status, is_waiting,
}
use policy_guardrails_agent.ControlPlane.Store.Publication.{
  decide_review, add_review_raw_viewer, list_reviews, add_review, get_review, log, matches_status,
}
use policy_guardrails_agent.ControlPlane.Rbac.{
  Principal, actor, reviews_decide, Permission, can, reviews_raw,
}
use policy_guardrails_agent.Sdk.Models.{Decision}

pub record Cipher (P : Type 0) : Type 0 where
  pub encrypt : P → String
  pub decrypt : String → Option P

-- the arguments of `create`
pub record Held (P : Type 0) : Type 0 where
  pub tenant_id : String
  pub environment : String
  pub request_id : String
  pub stage : String
  pub agent_id : String
  pub guardrail_id : String
  pub reason : String
  pub risk_score : ℕ
  pub payload : P
  pub preview : String
  pub ttl_minutes : Option ℕ

-- ttl_minutes or policy.review_ttl_minutes
abbrev pub minutes : Option ℕ → ℕ → ℕ
minutes none default = default
minutes (some zero) default = default
minutes (some (suc n)) default = suc n

module _ {P : Type 0} (policy : Policy) (cipher : Cipher P) where
  abbrev pub review_of : ℕ → String → Held P → ReviewRecord
  review_of now id h = record {
    id = id;
    tenant_id = h.tenant_id;
    environment = h.environment;
    request_id = h.request_id;
    stage = h.stage;
    agent_id = h.agent_id;
    guardrail_id = h.guardrail_id;
    reason = first_chars 1000 h.reason;
    risk_score = h.risk_score;
    preview = first_chars 500 h.preview;
    payload_enc = cipher.encrypt h.payload;
    status = ReviewStatus.pending;
    reviewer = none;
    decision_note = "";
    raw_viewed_by = [];
    created_at = now;
    decided_at = none;
    expires_at = now + minutes h.ttl_minutes policy.review_ttl_minutes * 60;
  }

  -- ReviewService.create
  unfoldable pub create : ℕ → String → Held P → Service ReviewRecord
  create now id h = do
    let review = review_of now id h
    modify (add_review review)
    modify (log "review" id "create" (concat "gateway (" (concat h.environment ")")) now)
    pure review

-- ReviewService._get
unfoldable pub found_review : String → Service ReviewRecord
found_review id = do found ← get (get_review id); given_or found not_found

abbrev pub stored_status : Option ReviewStatus → Option ReviewStatus
stored_status none = none
stored_status (some s) =
    if same_status s ReviewStatus.expired then some ReviewStatus.pending else some s

abbrev pub with_status : ℕ → List ReviewRecord → List (ReviewRecord × ReviewStatus)
with_status now = map (λ (r : ReviewRecord). (r, effective_status r now))

abbrev pub listed_tenant : Principal → Option String → Option String
listed_tenant p none = p.tenant_id
listed_tenant p (some t) = some t

-- ReviewService.list
unfoldable pub list_queue :
    ℕ
    → Principal
    → Option String
    → Option ReviewStatus
    → Service (List (ReviewRecord × ReviewStatus))
unfolding require list_reviews
list_queue now p tenant status = do
  require p Permission.read (listed_tenant p tenant)
  rows ← get (list_reviews (listed_tenant p tenant) (stored_status status) 100)
  pure (keep (λ (r, s). matches_status status s) (with_status now rows))

-- what ReviewService.status_for_gateway returns, without its texts
pub record GatewayStatus (P : Type 0) : Type 0 where
  pub escalation_id : String
  pub status : ReviewStatus
  pub decision : Decision
  pub reviewer : Option String
  pub payload : Option P

abbrev pub decision_for : ReviewStatus → Decision
decision_for ReviewStatus.pending = Decision.escalate
decision_for ReviewStatus.approved = Decision.allow
decision_for ReviewStatus.rejected = Decision.block
decision_for ReviewStatus.expired = Decision.block

abbrev pub is_approved : ReviewStatus → Bool
is_approved ReviewStatus.pending = false
is_approved ReviewStatus.approved = true
is_approved ReviewStatus.rejected = false
is_approved ReviewStatus.expired = false

module _ {P : Type 0} (cipher : Cipher P) where
  -- the branch of `get` for the raw payload
  unfoldable pub reveal : ℕ → Principal → ReviewRecord → Service (ReviewRecord × Option P)
  unfolding add_review_raw_viewer
  reveal now p r = do
    modify (add_review_raw_viewer r.id (actor p))
    modify (log "review" r.id "view_raw" (actor p) now)
    pure
        (record r { raw_viewed_by = r.raw_viewed_by ++ actor p ∷ [] }, cipher.decrypt r.payload_enc)

  -- ReviewService.get
  unfoldable pub open_review : ℕ → Principal → String → Bool → Service (ReviewRecord × Option P)
  unfolding found_review require reveal
  open_review now p id include_raw = do
    r ← found_review id
    require p Permission.read (some r.tenant_id)
    raise_if (include_raw && not (can p reviews_raw (some r.tenant_id))) forbidden
    modify (log "review" id "view" (actor p) now)
    if include_raw then reveal now p r else pure (r, none)

  abbrev pub reported : ReviewRecord → ReviewStatus → GatewayStatus P
  reported r s = record {
    escalation_id = r.id;
    status = s;
    decision = decision_for s;
    reviewer = r.reviewer;
    payload = if is_approved s then cipher.decrypt r.payload_enc else none;
  }

  -- ReviewService.status_for_gateway
  unfoldable pub status_for_gateway : ℕ → String → String → Service (GatewayStatus P)
  unfolding found_review
  status_for_gateway now id tenant = do
    r ← found_review id
    raise_if (not (str_eq r.tenant_id tenant)) not_found
    pure (reported r (effective_status r now))

abbrev pub answer_status : Bool → ReviewStatus
answer_status true = ReviewStatus.approved
answer_status false = ReviewStatus.rejected

abbrev pub answered_review : ℕ → Principal → Bool → String → ReviewRecord → ReviewRecord
answered_review now p approved note r = record r {
  status = answer_status approved;
  reviewer = some (actor p);
  decided_at = some now;
  decision_note = first_chars 1000 note;
}

-- the compare-and-set, as a service
unfoldable pub try_decide : ℕ → Principal → String → Bool → String → Service Bool
unfolding decide_review
try_decide now p id approved note st =
    let (won, st') =
      decide_review id (answer_status approved) (actor p) now (first_chars 1000 note) st in
    (ok won, st')

-- ReviewService.decide
unfoldable pub decide : ℕ → Principal → String → Bool → String → Service ReviewRecord
unfolding found_review require try_decide
decide now p id approved note = do
  r ← found_review id
  require p reviews_decide (some r.tenant_id)
  raise_if (not (is_waiting (effective_status r now))) state_conflict
  won ← try_decide now p id approved note
  raise_if (not won) state_conflict
  modify (log "review" id (if approved then "approve" else "reject") (actor p) now)
  pure (answered_review now p approved note r)
