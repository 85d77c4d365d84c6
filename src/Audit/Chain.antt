-- ===== src/Audit/Chain.antt =====
-- services/guardrail-gateway/app/audit/chain.py. The digest (a library's SHA-256 of the canonical
-- JSON of the chained fields) is a parameter: a function of those fields. An event's other chained
-- fields are one value of any type `B`.
pub mod Verified
use policy_guardrails_agent.Prelude.{
  if◌then◌else◌, ◌==◌, str_eq, lookup, put, ℕ, ◌+◌, String, Bool, false, not, ◌&&◌, Option, none,
  some, List, [], ◌∷◌, ◌++◌,
}
use policy_guardrails_agent.Session.Keys.{string_eq}

-- the fields that a record is stamped with, beside its own; `record_hash` is not among them
pub record Chained (B : Type 0) : Type 0 where
  pub tenant_id : String
  pub body : B
  pub chain_id : String
  pub chain_seq : ℕ
  pub prev_hash : String

-- an audit row
pub record Row (B : Type 0) : Type 0 where
  pub fields : Chained B
  pub record_hash : String

-- "0" * 64
abbrev pub genesis : String
genesis = "0000000000000000000000000000000000000000000000000000000000000000"

-- a chain's last sequence number and hash
pub record Head : Type 0 where
  pub seq : ℕ
  pub hash : String

-- class AuditChain
pub record AuditChain : Type 0 where
  pub chain_id : String
  pub heads : List (String × Head)

abbrev pub or_start : Option Head → Head
or_start none = record { seq = 0; hash = genesis }
or_start (some h) = h

-- what ChainVerifier reports of a row; a gap is between two sequence numbers
pub data Problem : Type 0 where
  changed no_start : Problem
  missing : ℕ → ℕ → Problem
  broken_link : Problem

-- class ChainVerifier
pub record ChainVerifier : Type 0 where
  pub problems : List Problem
  pub chains : ℕ
  pub records : ℕ
  pub key : Option (String × String)
  pub prev : Option Head

abbrev pub fresh_verifier : ChainVerifier
fresh_verifier = record { problems = []; chains = 0; records = 0; key = none; prev = none }

abbrev pub same_chain : Option (String × String) → String → String → Bool
same_chain none chain tenant = false
same_chain (some (c, t)) chain tenant = str_eq c chain && str_eq t tenant

module _ {B : Type 0} (digest : Chained B → String) where
  -- AuditChain.stamp: the row, and the chain behind it
  unfoldable pub stamp : AuditChain → String → B → Row B × AuditChain
  stamp c tenant body =
      let last = or_start (lookup tenant c.heads) in
      let fields : Chained B = record {
        tenant_id = tenant;
        body = body;
        chain_id = c.chain_id;
        chain_seq = last.seq + 1;
        prev_hash = last.hash;
      } in
      (
        record { fields = fields; record_hash = digest fields },
        record c {
          heads = put tenant (record { seq = last.seq + 1; hash = digest fields }) c.heads;
        },
      )

  -- the checks against the row before
  abbrev pub link_problems : Option Head → Chained B → List Problem
  link_problems none f =
      if f.chain_seq == 1 && not (str_eq f.prev_hash genesis) then no_start ∷ [] else []
  link_problems (some h) f =
      if not (f.chain_seq == h.seq + 1)
      then missing h.seq f.chain_seq ∷ []
      else if not (str_eq f.prev_hash h.hash)
      then broken_link ∷ []
      else []

  abbrev pub hash_problems : Row B → List Problem
  hash_problems r = if str_eq (digest r.fields) r.record_hash then [] else changed ∷ []

  -- the row before, where it is of the same chain
  abbrev pub prev_of : ChainVerifier → Chained B → Option Head
  prev_of v f = if same_chain v.key f.chain_id f.tenant_id then v.prev else none

  -- ChainVerifier.add
  unfoldable pub add : ChainVerifier → Row B → ChainVerifier
  add v r = if str_eq r.fields.chain_id "" then v else record {
    problems = v.problems ++ (hash_problems r ++ link_problems (prev_of v r.fields) r.fields);
    chains = v.chains + (if same_chain v.key r.fields.chain_id r.fields.tenant_id then 0 else 1);
    records = v.records + 1;
    key = some (r.fields.chain_id, r.fields.tenant_id);
    prev = some (record { seq = r.fields.chain_seq; hash = r.record_hash });
  }

  -- the loop of `verify`, over rows that are sorted already
  unfoldable pub add_all : ChainVerifier → List (Row B) → ChainVerifier
  unfolding add
  add_all v [] = v
  add_all v (r ∷ rs) = add_all (add v r) rs

  -- one tenant's events, stamped one after the other
  unfoldable pub stamp_all : AuditChain → String → List B → List (Row B) × AuditChain
  unfolding stamp
  stamp_all c tenant [] = ([], c)
  stamp_all c tenant (b ∷ bs) =
      let rest = stamp_all (stamp c tenant b).1 tenant bs in ((stamp c tenant b).0 ∷ rest.0, rest.1)
