-- ===== src/Verify/Confirm.antt =====
-- VerificationEngine.confirm of services/guardrail-gateway/app/verify/engine.py: the person's answer.
pub mod Refusal
pub mod Answers
use policy_guardrails_agent.Prelude.{
  if◌then◌else◌, str_eq, ℕ, ◌+◌, String, Bool, false, not, ◌&&◌, Option, none, some,
}
use policy_guardrails_agent.Risk.Codes.{user_confirmation}
use policy_guardrails_agent.Verify.Model.{
  Evidence, Verification, Status, is_pending, no_levels, evidence_ttl_seconds,
}
use policy_guardrails_agent.Verify.Planner.{user_confirmation_spec}
use policy_guardrails_agent.Verify.Store.{
  MemoryStore, get_verification, put_verification, add_evidence,
}
use policy_guardrails_agent.Verify.Engine.{UserTokens}

-- what `confirm` returns or raises
pub data Answer : Type 0 where
  done : Verification → Answer
  not_found closed token_rejected : Answer

abbrev pub answered : Bool → Status
answered approve = if approve then Status.confirmed else Status.rejected

-- the evidence that an answer leaves
abbrev pub answer_evidence : Verification → ℕ → Bool → Evidence
answer_evidence v now approve = record {
  kind = user_confirmation;
  request_hash = v.request_hash;
  passed = approve;
  strength = if approve then user_confirmation_spec.closes else no_levels;
  issued_at = now;
  expires_at = now + evidence_ttl_seconds;
}

-- caller_agent_id is not None and caller_agent_id == v.agent_id
abbrev pub is_own_key : Option String → Verification → Bool
is_own_key none v = false
is_own_key (some a) v = str_eq a v.agent_id

abbrev pub user_of : Option String → String
user_of none = ""
user_of (some u) = u

-- the part behind the token's check
abbrev pub settle : String → ℕ → Bool → Verification → MemoryStore → Answer × MemoryStore
settle tenant now approve v st =
    let after = record v { status = answered approve } in
    (done after, put_verification after (add_evidence tenant (answer_evidence v now approve) st))

-- the check of the token. It waits for the keys of the token's issuer: other tasks run, which leave
-- the store as `meanwhile` says, and the clock reads `settled` behind it. What was read of the
-- verification before is not read again.
abbrev pub checked :
    Option UserTokens
    → String
    → String
    → Bool
    → Option String
    → ℕ
    → (MemoryStore → MemoryStore)
    → Verification
    → MemoryStore
    → Answer × MemoryStore
checked none tenant token approve caller settled meanwhile v st = (token_rejected, st)
checked (some t) tenant token approve caller settled meanwhile v st =
    if not t.require_nonce && is_own_key caller v
    then (token_rejected, st)
    else if t.accepts token (user_of v.user_id) v.id
    then settle tenant settled approve v (meanwhile st)
    else (token_rejected, meanwhile st)

abbrev pub if_open :
    Option UserTokens
    → String
    → String
    → Bool
    → Option String
    → ℕ
    → (MemoryStore → MemoryStore)
    → Option Verification
    → MemoryStore
    → Answer × MemoryStore
if_open tokens tenant token approve caller settled meanwhile none st = (not_found, st)
if_open tokens tenant token approve caller settled meanwhile (some v) st =
    if is_pending v.status
    then checked tokens tenant token approve caller settled meanwhile v st
    else (closed, st)

-- VerificationEngine.confirm, called at `now`
unfoldable pub confirm :
    Option UserTokens
    → String
    → String
    → ℕ
    → String
    → Bool
    → Option String
    → ℕ
    → (MemoryStore → MemoryStore)
    → MemoryStore
    → Answer × MemoryStore
unfolding get_verification put_verification add_evidence
confirm tokens tenant vid now token approve caller settled meanwhile st =
    if_open tokens tenant token approve caller settled meanwhile
      (get_verification now tenant vid st) st
