-- ===== src/Verify/Confirm/Refusal.antt =====
-- A person's "no" decides the next attempt of the same request.
use policy_guardrails_agent.Prelude.{
  lookup, ℕ, ◌+◌, ◌≤◌, ◌<◌, String, ◌≡◌, Bool, true, false, Option, some, List, [], ◌∷◌, ◌++◌,
  arith,
}
use policy_guardrails_agent.Session.Ordered.{lookup-trim_touched}
use policy_guardrails_agent.Risk.Codes.{user_rejected}
use policy_guardrails_agent.Risk.Decision.{Outcome}
use policy_guardrails_agent.Verify.Model.{Evidence, Verification, evidence_ttl_seconds, Status}
use policy_guardrails_agent.Verify.Store.{
  MemoryStore, memory, key, tenant_key_eq, evidence, unexpired, or_empty, put_verification,
  add_evidence, consume_evidence, get_verification,
}
use policy_guardrails_agent.Verify.Engine.{
  VerifyContext, VerificationEngine, Resolution, resolution, is_refused, turn_down, attempt,
  resolve, look_back, follow_up, UserTokens,
}
use policy_guardrails_agent.Verify.Confirm.{answer_evidence, confirm, done, settle, if_open}

refused_last :
    (es : List Evidence) (v : Verification) (now later : ℕ)
    → later < now + evidence_ttl_seconds
    → is_refused (unexpired later (es ++ answer_evidence v now false ∷ [])) ≡ true
refused_last [] v now later h = ground arith
refused_last (e ∷ es) v now later h = ground (arith, refused_last es v now later h)

ev-put_verification : (v : Verification) (st : MemoryStore) → (put_verification v st).ev ≡ st.ev
unfolding put_verification
ev-put_verification v st = ground arith

-- the evidence that a person's refusal leaves in the store
refused_after :
    (tenant : String) (v w : Verification) (now later : ℕ) (st : MemoryStore)
    → 1 ≤ st.max_entries
    → later < now + evidence_ttl_seconds
    → is_refused (
        evidence later tenant v.request_hash
          (put_verification w (add_evidence tenant (answer_evidence v now false) st)))
      ≡ true
unfolding evidence add_evidence
refused_after tenant v w now later st room h =
    let k = key tenant v.request_hash in
    let es = or_empty (lookup k st.ev) in
    rw
      (
        ev-put_verification w (add_evidence tenant (answer_evidence v now false) st),
        lookup-trim_touched st.max_entries k (es ++ answer_evidence v now false ∷ []) st.ev room,
      )
      (refused_last es v now later h)

module _ (e : VerificationEngine) (c : VerifyContext) (now : ℕ) (id : String) (st : MemoryStore)
    (refused : is_refused (evidence now c.tenant_id c.request_hash st) ≡ true) where
  abbrev turned_down : Resolution × MemoryStore
  turned_down =
      (resolution Outcome.deny (user_rejected ∷ []), consume_evidence c.tenant_id c.request_hash st)

  pub resolve_of_refused : resolve (memory now) e c now id st ≡ turned_down
  unfolding resolve attempt turn_down memory
  resolve_of_refused = rw refused

  pub follow_up_of_refused :
      follow_up (memory now) e c now id st ≡ (some turned_down.0, turned_down.1)
  unfolding follow_up look_back turn_down memory
  follow_up_of_refused = rw refused

if_open-done :
    (tokens : Option UserTokens) (tenant : String) (token : String) (approve : Bool)
    (caller : Option String) (settled : ℕ) (meanwhile : MemoryStore → MemoryStore)
    (st : MemoryStore) (v w : Verification)
    → (if_open tokens tenant token approve caller settled meanwhile (some v) st).0 ≡ done w
    → if_open tokens tenant token approve caller settled meanwhile (some v) st
      ≡ settle tenant settled approve v (meanwhile st)
if_open-done tokens tenant token approve caller settled meanwhile st v w h = ground arith

-- An answer that is accepted was to a verification on record, and did what `settle` says.
pub confirm_done :
    (tokens : Option UserTokens) (tenant vid : String) (now : ℕ) (token : String) (approve : Bool)
    (caller : Option String) (settled : ℕ) (meanwhile : MemoryStore → MemoryStore)
    (st : MemoryStore) (v w : Verification)
    → get_verification now tenant vid st ≡ some v
    → (confirm tokens tenant vid now token approve caller settled meanwhile st).0 ≡ done w
    → confirm tokens tenant vid now token approve caller settled meanwhile st
      ≡ settle tenant settled approve v (meanwhile st)
unfolding confirm
confirm_done tokens tenant vid now token approve caller settled meanwhile st v w found accepted =
    rw found (
      if_open-done tokens tenant token approve caller settled meanwhile st v w
        (rw found at accepted))

module _ (tokens : Option UserTokens) (vid : String) (now : ℕ) (token : String)
    (caller : Option String) (settled : ℕ) (meanwhile : MemoryStore → MemoryStore)
    (st : MemoryStore) (v w : Verification) (e : VerificationEngine) (c : VerifyContext)
    (id : String) (found : get_verification now c.tenant_id vid st ≡ some v)
    (same_request : v.request_hash ≡ c.request_hash) (room : 1 ≤ (meanwhile st).max_entries) where
  -- Once a person's refusal of a request's verification was accepted, the next attempt of the same
  -- request, while the refusal lasts, is denied as rejected by the user: whether the decision table
  -- asks for verification again or would allow the request, and whatever other tasks did to the
  -- store while the person's token was checked. The verification on record is for that request, and
  -- the store has room for an entry.
  pub refusal_decides :
      (later : ℕ)
      → (confirm tokens c.tenant_id vid now token false caller settled meanwhile st).0 ≡ done w
      → later < settled + evidence_ttl_seconds
      → let after =
          (confirm tokens c.tenant_id vid now token false caller settled meanwhile st).1 in
        ((resolve (memory later) e c later id after).0
          ≡ resolution Outcome.deny (user_rejected ∷ []))
        × ((follow_up (memory later) e c later id after).0
            ≡ some (resolution Outcome.deny (user_rejected ∷ [])))
  refusal_decides later accepted h =
      let after = (settle c.tenant_id settled false v (meanwhile st)).1 in
      let refused : is_refused (evidence later c.tenant_id c.request_hash after) ≡ true =
        rw (← same_request) (
          refused_after c.tenant_id v (record v { status = Status.rejected }) settled later
            (meanwhile st) room h) in
      rw
        (confirm_done tokens c.tenant_id vid now token false caller settled meanwhile st v w found
          accepted)
        (
          rw (resolve_of_refused e c later id after refused),
          rw (follow_up_of_refused e c later id after refused),
        )
