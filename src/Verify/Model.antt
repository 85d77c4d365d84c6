-- ===== src/Verify/Model.antt =====
-- services/guardrail-gateway/app/verify/model.py: assurance levels, evidence and verifications. A
-- dictionary from dimensions to levels is a record; level 0 stands for a missing key, which is how
-- the program reads one (`have.get(dim, 0)`), and no table of the program holds a level 0.
use policy_guardrails_agent.Prelude.{
  if◌then◌else◌, ltb, ◌==◌, ℕ, ◌*◌, ◌≤◌, max, String, ◌≡◌, ◌↔◌, Bool, true, false, not, ◌&&◌, ◌||◌,
  Option, List, [], ◌∷◌, arith,
}
use policy_guardrails_agent.Context.Descriptors.{
  Kind, Verb, ActionDescriptor, is_kind, is_verb, is_external, is_given, parsed, writes,
}
use policy_guardrails_agent.Risk.Codes.{
  ReasonCode, EvidenceKind, has_code, tainted_session, repeated_denials,
}

pub record Levels : Type 0 where
  pub identity : ℕ
  pub authorization : ℕ
  pub resource : ℕ
  pub behaviour : ℕ
  pub effect : ℕ

abbrev pub no_levels : Levels
no_levels = record { identity = 0; authorization = 0; resource = 0; behaviour = 0; effect = 0 }

-- not need
abbrev pub is_none : Levels → Bool
is_none l =
    l.identity == 0
    && (l.authorization == 0 && (l.resource == 0 && (l.behaviour == 0 && l.effect == 0)))

abbrev pub evidence_ttl_seconds : ℕ
evidence_ttl_seconds = 10 * 60

abbrev pub verification_ttl_seconds : ℕ
verification_ttl_seconds = 10 * 60

-- class Evidence; its detail and its random id are not read by any decision
pub record Evidence : Type 0 where
  pub kind : EvidenceKind
  pub request_hash : String
  pub passed : Bool
  pub strength : Levels
  pub issued_at : ℕ
  pub expires_at : ℕ

pub data Status : Type 0 where
  pending confirmed rejected expired : Status

abbrev pub is_pending : Status → Bool
is_pending pending = true
is_pending confirmed = false
is_pending rejected = false
is_pending expired = false

-- class Verification; the summary is text for the person and is not modelled
pub record Verification : Type 0 where
  pub id : String
  pub tenant_id : String
  pub request_hash : String
  pub kind : EvidenceKind
  pub agent_id : String
  pub user_id : Option String
  pub status : Status
  pub created_at : ℕ
  pub expires_at : ℕ

abbrev pub reads_sql : ActionDescriptor → Bool
reads_sql d = is_kind d.kind Kind.sql && is_verb d.verb Verb.read

-- d.verb in ("delete", "admin", "execute")
abbrev pub is_drastic : ActionDescriptor → Bool
is_drastic d =
    is_verb d.verb Verb.delete || (is_verb d.verb Verb.admin || is_verb d.verb Verb.execute)

-- the assignments of `required`, one after the other
abbrev pub need_sql : ActionDescriptor → Levels → Levels
need_sql d n = if reads_sql d then record n { resource = 2; effect = 1 } else n

abbrev pub need_external : ActionDescriptor → Levels → Levels
need_external d n =
    if writes d && is_external d.destination then record n { authorization = 2 } else n

abbrev pub need_drastic : ActionDescriptor → Levels → Levels
need_drastic d n = if is_drastic d then record n { authorization = 2; effect = 1 } else n

abbrev pub need_parsed : ActionDescriptor → Levels → Levels
need_parsed d n = if not (parsed d) then record n { authorization = 2 } else n

abbrev pub need_untainted : List ReasonCode → Levels → Levels
need_untainted codes n = if has_code tainted_session codes then record n { behaviour = 1 } else n

abbrev pub need_production : Bool → Levels → Levels
need_production production n = if production then record n { identity = 1 } else n

-- if not need: need["authorization"] = 2
abbrev pub need_someone : Levels → Levels
need_someone n = if is_none n then record n { authorization = 2 } else n

-- required; `production` is environment == "production"
unfoldable pub required : ActionDescriptor → List ReasonCode → Bool → Levels
required d codes production = need_someone (
    need_production production (
      need_untainted codes
        (need_parsed d (need_drastic d (need_external d (need_sql d no_levels))))))

-- have[dim] = max(have[dim], lvl), for each dimension of one piece of evidence
abbrev pub raise : Levels → Evidence → Levels
raise h e = record {
  identity = max h.identity e.strength.identity;
  authorization = max h.authorization e.strength.authorization;
  resource = max h.resource e.strength.resource;
  behaviour = max h.behaviour e.strength.behaviour;
  effect = max h.effect e.strength.effect;
}

-- for ev in evidence: if ev.passed
unfoldable pub raise_all : Levels → List Evidence → Levels
raise_all h [] = h
raise_all h (e ∷ es) = raise_all (if e.passed then raise h e else h) es

-- current; `bound_key` is assurance in ("A1", "A2", "A3", "A4")
unfoldable pub current : Bool → ActionDescriptor → List ReasonCode → List Evidence → Levels
unfolding raise_all
current bound_key d codes evidence =
    raise_all
      (record {
        identity = if bound_key then 1 else 0;
        authorization = 0;
        resource = if parsed d && is_given d.target then 1 else 0;
        behaviour =
            if has_code tainted_session codes || has_code repeated_denials codes then 0 else 1;
        effect = 0;
      })
      evidence

-- gap, at one dimension
abbrev pub short : ℕ → ℕ → ℕ
short need have = if ltb have need then need else 0

-- gap
unfoldable pub gap : Levels → Levels → Levels
gap need have = record {
  identity = short need.identity have.identity;
  authorization = short need.authorization have.authorization;
  resource = short need.resource have.resource;
  behaviour = short need.behaviour have.behaviour;
  effect = short need.effect have.effect;
}

-- every level is at least as high
pub record IsBelow (m n : Levels) : Type 0 where
  pub identity : m.identity ≤ n.identity
  pub authorization : m.authorization ≤ n.authorization
  pub resource : m.resource ≤ n.resource
  pub behaviour : m.behaviour ≤ n.behaviour
  pub effect : m.effect ≤ n.effect

-- A gap is closed exactly when every level that is needed is reached.
pub gap-none : (need have : Levels) → (is_none (gap need have) ≡ true) ↔ IsBelow need have
unfolding gap
gap-none need have = (λ h. ground arith, λ h. ground arith)

-- what a human approval establishes
abbrev pub human_levels : Levels
human_levels = record { identity = 1; authorization = 2; resource = 2; behaviour = 1; effect = 1 }

abbrev Fits : Levels → Type 0
Fits n = IsBelow n human_levels

need_sql-Fits : (d : ActionDescriptor) (n : Levels) → Fits n → Fits (need_sql d n)
need_sql-Fits d n h = ground arith

need_external-Fits : (d : ActionDescriptor) (n : Levels) → Fits n → Fits (need_external d n)
need_external-Fits d n h = ground arith

need_drastic-Fits : (d : ActionDescriptor) (n : Levels) → Fits n → Fits (need_drastic d n)
need_drastic-Fits d n h = ground arith

need_parsed-Fits : (d : ActionDescriptor) (n : Levels) → Fits n → Fits (need_parsed d n)
need_parsed-Fits d n h = ground arith

need_untainted-Fits :
    (codes : List ReasonCode) (n : Levels) → Fits n → Fits (need_untainted codes n)
need_untainted-Fits codes n h = ground arith

need_production-Fits : (p : Bool) (n : Levels) → Fits n → Fits (need_production p n)
need_production-Fits p n h = ground arith

need_someone-Fits : (n : Levels) → Fits n → Fits (need_someone n)
need_someone-Fits n h = ground arith

is_none-need_someone : (n : Levels) → is_none (need_someone n) ≡ false
is_none-need_someone n = ground arith

-- No action that comes to verification needs nothing, and none needs more than a human approval
-- establishes.
pub required_bounds :
    (d : ActionDescriptor) (codes : List ReasonCode) (production : Bool)
    → (is_none (required d codes production) ≡ false)
      × IsBelow (required d codes production) human_levels
unfolding required
required_bounds d codes production = (
  is_none-need_someone (
      need_production production (
        need_untainted codes
          (need_parsed d (need_drastic d (need_external d (need_sql d no_levels)))))),
  need_someone-Fits _ (
      need_production-Fits production _ (
        need_untainted-Fits codes _ (
          need_parsed-Fits d _ (
            need_drastic-Fits d _
              (need_external-Fits d _ (need_sql-Fits d no_levels (omega arith))))))),
)
