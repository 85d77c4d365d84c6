-- ===== src/Verify/Confirm/Answers.antt =====
-- Two answers to one verification: one after the other, and one while the other's token is checked.
use policy_guardrails_agent.Prelude.{
  lookup, ℕ, ◌≤◌, String, ◌≡◌, refl, subst, Bool, true, false, not, ◌&&◌, Option, some, arith,
}
use policy_guardrails_agent.Session.Ordered.{lookup-trim_touched, trim, move_to_end}
use policy_guardrails_agent.Verify.Model.{Evidence, Verification, is_pending}
use policy_guardrails_agent.Verify.Store.{
  MemoryStore, key, tenant_key_eq, put_verification, add_evidence, at_time, get_verification,
}
use policy_guardrails_agent.Verify.Engine.{UserTokens}
use policy_guardrails_agent.Verify.Confirm.{
  confirm, done, settle, closed, if_open, answered, is_own_key, answer_evidence, user_of,
}
use policy_guardrails_agent.Verify.Confirm.Refusal.{confirm_done}

ver-put_verification :
    (v : Verification) (st : MemoryStore)
    → (put_verification v st).ver
      ≡ trim st.max_entries (move_to_end (key v.tenant_id v.id) v st.ver)
unfolding put_verification
ver-put_verification v st = ground arith

max_entries-add_evidence :
    (tenant : String) (e : Evidence) (st : MemoryStore)
    → (add_evidence tenant e st).max_entries ≡ st.max_entries
unfolding add_evidence
max_entries-add_evidence tenant e st = refl

at_time-answered :
    (later : ℕ) (approve : Bool) (v : Verification)
    → is_pending (at_time later (record v { status = answered approve })).status ≡ false
at_time-answered later true v = refl
at_time-answered later false v = refl

if_open-closed :
    (tokens : Option UserTokens) (tenant : String) (token : String) (approve : Bool)
    (caller : Option String) (settled : ℕ) (meanwhile : MemoryStore → MemoryStore)
    (st : MemoryStore) (v : Verification)
    → is_pending v.status ≡ false
    → (if_open tokens tenant token approve caller settled meanwhile (some v) st).0 ≡ closed
if_open-closed tokens tenant token approve caller settled meanwhile st v h = rw h

get_verification_of :
    (now : ℕ) (tenant vid : String) (s : MemoryStore) (w : Verification)
    → lookup (key tenant vid) s.ver ≡ some w
    → get_verification now tenant vid s ≡ some (at_time now w)
unfolding get_verification
get_verification_of now tenant vid s w h = rw (h, get_verification)

get-put :
    (later : ℕ) (w : Verification) (s : MemoryStore)
    → 1 ≤ s.max_entries
    → get_verification later w.tenant_id w.id (put_verification w s) ≡ some (at_time later w)
get-put later w s room = get_verification_of later w.tenant_id w.id (put_verification w s) w (
    rw (ver-put_verification w s)
      (lookup-trim_touched s.max_entries (key w.tenant_id w.id) w s.ver room))

-- what a later lookup finds behind an accepted answer
get-settled :
    (tenant vid : String) (now later : ℕ) (approve : Bool) (v : Verification) (st : MemoryStore)
    → 1 ≤ st.max_entries
    → v.tenant_id ≡ tenant
    → v.id ≡ vid
    → get_verification later tenant vid (settle tenant now approve v st).1
      ≡ some (at_time later (record v { status = answered approve }))
get-settled tenant vid now later approve v st room own named =
    let w : Verification = record v { status = answered approve } in
    let saved : MemoryStore = add_evidence tenant (answer_evidence v now approve) st in
    let room' : 1 ≤ saved.max_entries =
      rw (max_entries-add_evidence tenant (answer_evidence v now approve) st) room in
    subst (λ t. get_verification later t vid (put_verification w saved) ≡ some (at_time later w))
      own
      (subst
        (λ i.
          get_verification later v.tenant_id i (put_verification w saved) ≡ some (at_time later w))
        named (get-put later w saved room'))

-- An answer that was accepted closes its verification to the answers that come behind it: the call
-- of `confirm` that reads the store as the accepted one left it is turned away as closed, whatever
-- other tasks did to the store while the accepted answer's token was checked. That store has room
-- for an entry, and the verification stands under its own tenant and id.
pub settled_closes :
    (tokens : Option UserTokens) (tenant vid : String) (now settled later at_last : ℕ)
    (token token' : String) (approve again : Bool) (caller caller' : Option String)
    (meanwhile meanwhile' : MemoryStore → MemoryStore) (st : MemoryStore) (v w : Verification)
    → get_verification now tenant vid st ≡ some v
    → 1 ≤ (meanwhile st).max_entries
    → v.tenant_id ≡ tenant
    → v.id ≡ vid
    → (confirm tokens tenant vid now token approve caller settled meanwhile st).0 ≡ done w
    → (confirm tokens tenant vid later token' again caller' at_last meanwhile'
        (confirm tokens tenant vid now token approve caller settled meanwhile st).1).0
      ≡ closed
settled_closes tokens tenant vid now settled later at_last token token' approve again caller caller'
      meanwhile meanwhile' st v w found room own named accepted =
    rw
      (confirm_done tokens tenant vid now token approve caller settled meanwhile st v w found
        accepted)
      (unfold confirm in
        rw (get-settled tenant vid settled later approve v (meanwhile st) room own named) (
          if_open-closed tokens tenant token' again caller' at_last meanwhile' _
            (at_time later (record v { status = answered approve }))
            (at_time-answered later approve v)))

-- A token that passes, for an answer by somebody else than the agent's own key.
abbrev pub Passes : UserTokens → String → Option String → Verification → Type 0
Passes t token caller v =
    ((not t.require_nonce && is_own_key caller v) ≡ false)
    × (t.accepts token (user_of v.user_id) v.id ≡ true)

answer_lem :
    (t : UserTokens) (tenant vid : String) (now : ℕ) (token : String) (approve : Bool)
    (caller : Option String) (settled : ℕ) (meanwhile : MemoryStore → MemoryStore)
    (st : MemoryStore) (v : Verification)
    → get_verification now tenant vid st ≡ some v
    → is_pending v.status ≡ true
    → Passes t token caller v
    → confirm (some t) tenant vid now token approve caller settled meanwhile st
      ≡ settle tenant settled approve v (meanwhile st)
unfolding confirm
answer_lem t tenant vid now token approve caller settled meanwhile st v found waits p =
    rw (found, waits, p.0, p.1) refl

max_entries-settle :
    (tenant : String) (now : ℕ) (approve : Bool) (v : Verification) (st : MemoryStore)
    → (settle tenant now approve v st).1.max_entries ≡ st.max_entries
unfolding put_verification add_evidence
max_entries-settle tenant now approve v st = ground arith

-- A verification may be answered twice: where a second answer is settled while the token of the first
-- is being checked, and both tokens pass, both are accepted, and the first answer, which settles last,
-- is what the record then says. Both find the verification pending, under its own tenant and id, and
-- the store has room for an entry.
pub answers_race :
    (t : UserTokens) (tenant vid : String) (now settled settled' later : ℕ) (token token' : String)
    (approve other : Bool) (caller caller' : Option String) (st : MemoryStore) (v : Verification)
    → get_verification now tenant vid st ≡ some v
    → is_pending v.status ≡ true
    → Passes t token caller v
    → Passes t token' caller' v
    → 1 ≤ st.max_entries
    → v.tenant_id ≡ tenant
    → v.id ≡ vid
    → let second = confirm (some t) tenant vid now token' other caller' settled' (λ s. s) st in
      let first =
        confirm
          (some t)
          tenant
          vid
          now
          token
          approve
          caller
          settled
          (λ s. (confirm (some t) tenant vid now token' other caller' settled' (λ r. r) s).1)
          st in
      (second.0 ≡ done (record v { status = answered other }))
      × ((first.0 ≡ done (record v { status = answered approve }))
          × (get_verification later tenant vid first.1
              ≡ some (at_time later (record v { status = answered approve }))))
answers_race t tenant vid now settled settled' later token token' approve other caller caller' st v
      found waits p p' room own named =
    let meanwhile : MemoryStore → MemoryStore =
      λ s. (confirm (some t) tenant vid now token' other caller' settled' (λ r. r) s).1 in
    let second =
      answer_lem t tenant vid now token' other caller' settled' (λ r. r) st v found waits p' in
    let first =
      answer_lem t tenant vid now token approve caller settled meanwhile st v found waits p in
    rw (first, second)
      (
        refl,
        (
          refl,
          get-settled tenant vid settled later approve v (settle tenant settled' other v st).1
              (rw (max_entries-settle tenant settled' other v st) room) own named,
        ),
      )
