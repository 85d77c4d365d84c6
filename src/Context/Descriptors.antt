-- ===== src/Context/Descriptors.antt =====
-- services/guardrail-gateway/app/context/descriptors.py: the action descriptor, the facts that the
-- parsers hand to the policy and the risk engine.
use policy_guardrails_agent.Prelude.{
  ◌==◌, str_eq, ℕ, String, Bool, true, false, not, ◌&&◌, Option, none, some, List,
}

pub data Kind : Type 0 where
  sql http file message model unknown : Kind

pub data Verb : Type 0 where
  read write delete send execute admin unknown : Verb

pub data Destination : Type 0 where
  internal external : Destination

abbrev pub kind_code : Kind → ℕ
kind_code Kind.sql = 0
kind_code Kind.http = 1
kind_code Kind.file = 2
kind_code Kind.message = 3
kind_code Kind.model = 4
kind_code Kind.unknown = 5

abbrev pub is_kind : Kind → Kind → Bool
is_kind a b = kind_code a == kind_code b

abbrev pub verb_code : Verb → ℕ
verb_code Verb.read = 0
verb_code Verb.write = 1
verb_code Verb.delete = 2
verb_code Verb.send = 3
verb_code Verb.execute = 4
verb_code Verb.admin = 5
verb_code Verb.unknown = 6

abbrev pub is_verb : Verb → Verb → Bool
is_verb a b = verb_code a == verb_code b

-- destination == "external"
abbrev pub is_external : Option Destination → Bool
is_external none = false
is_external (some Destination.internal) = false
is_external (some Destination.external) = true

-- class ActionDescriptor
pub record ActionDescriptor : Type 0 where
  pub kind : Kind
  pub verb : Verb
  pub target : Option String
  pub tables : List String
  pub columns : List String
  pub rows_requested : Option ℕ
  pub has_limit : Option Bool
  pub has_filter : Option Bool
  pub destination : Option Destination
  pub destination_host : Option String
  pub statements : ℕ
  pub notes : List String

-- ActionDescriptor.parsed
abbrev pub parsed : ActionDescriptor → Bool
parsed d = not (is_kind d.kind Kind.unknown) && not (is_verb d.verb Verb.unknown)

-- `d.verb in ("write", "delete", "send", "execute", "admin")`
abbrev pub is_writing : Verb → Bool
is_writing Verb.write = true
is_writing Verb.delete = true
is_writing Verb.send = true
is_writing Verb.execute = true
is_writing Verb.admin = true
is_writing Verb.read = false
is_writing Verb.unknown = false

-- ActionDescriptor.writes
abbrev pub writes : ActionDescriptor → Bool
writes d = is_writing d.verb

-- `bool(d.target)`: neither None nor the empty string
abbrev pub is_given : Option String → Bool
is_given none = false
is_given (some s) = not (str_eq s "")
