-- ===== src/Audit/Chain/Verified.antt =====
-- The verifier accepts what the chain stamps.
use policy_guardrails_agent.Prelude.{
  if◌then◌else◌, ◌==◌, ==_iff, str_eq, eq_iff, lookup, lookup-put, ◌+◌, String, ◌≡◌, refl, sym,
  Bool, true, false, ◌&&◌, Option, none, some, List, [], ◌∷◌,
}
use policy_guardrails_agent.Session.Keys.{string_eq}
use policy_guardrails_agent.Audit.Chain.{
  Chained, Row, AuditChain, ChainVerifier, Head, genesis, or_start, stamp, stamp_all, add, add_all,
  fresh_verifier, same_chain, link_problems, hash_problems, prev_of,
}

str_eq_refl : (s : String) → str_eq s s ≡ true
str_eq_refl s = (eq_iff s s).1 refl

module _ {B : Type 0} (digest : Chained B → String) (tenant : String) where
  -- the verifier has found nothing and remembers the chain's head
  record Agrees (v : ChainVerifier) (c : AuditChain) : Type 0 where
    clean : v.problems ≡ []
    head : (if same_chain v.key c.chain_id tenant then v.prev else none) ≡ lookup tenant c.heads

  link_stamped :
      (o : Option Head) (f : Chained B)
      → f.chain_seq ≡ (or_start o).seq + 1
      → str_eq f.prev_hash (or_start o).hash ≡ true
      → link_problems digest o f ≡ []
  link_stamped none f e h = rw h (no_problem (f.chain_seq == 1))
    where
      no_problem :
          (b : Bool)
          → (if b && false then policy_guardrails_agent.Audit.Chain.no_start ∷ [] else []) ≡ []
      no_problem true = refl
      no_problem false = refl
  link_stamped (some k) f e h = rw (h, (==_iff f.chain_seq (k.seq + 1)).1 e) refl

  add-Agrees :
      (v : ChainVerifier) (c : AuditChain) (b : B)
      → str_eq c.chain_id "" ≡ false
      → Agrees v c
      → Agrees (add digest v (stamp digest c tenant b).0) (stamp digest c tenant b).1
  unfolding add stamp
  add-Agrees v c b named h = record {
    clean =
        rw (named, h.clean, h.head, str_eq_refl)
          (link_stamped (lookup tenant c.heads) (stamp digest c tenant b).0.fields refl
            (str_eq_refl (or_start (lookup tenant c.heads)).hash));
    head = rw (named, str_eq_refl c.chain_id, lookup-put, str_eq_refl tenant) refl;
  }

  stamp_all-Agrees :
      (bs : List B) (v : ChainVerifier) (c : AuditChain)
      → str_eq c.chain_id "" ≡ false
      → Agrees v c
      → (add_all digest v (stamp_all digest c tenant bs).0).problems ≡ []
  unfolding add_all stamp_all
  stamp_all-Agrees [] v c named h = h.clean
  stamp_all-Agrees (b ∷ bs) v c named h =
      stamp_all-Agrees bs (add digest v (stamp digest c tenant b).0) (stamp digest c tenant b).1
        (named_after named) (add-Agrees v c b named h)
    where
      named_after :
          str_eq c.chain_id "" ≡ false → str_eq (stamp digest c tenant b).1.chain_id "" ≡ false
      named_after n = unfold stamp in n

-- What a chain stamps for a tenant, from its first event on, passes the verifier without a problem,
-- whatever the digest is.
pub verify-stamp :
    {B : Type 0} (digest : Chained B → String) (tenant : String) (c : AuditChain) (events : List B)
    → str_eq c.chain_id "" ≡ false
    → lookup tenant c.heads ≡ none
    → (add_all digest fresh_verifier (stamp_all digest c tenant events).0).problems ≡ []
verify-stamp digest tenant c events named fresh =
    stamp_all-Agrees digest tenant events fresh_verifier c named
      (record { clean = refl; head = sym fresh })
