-- ===== src/Sdk/Models.antt =====
-- packages/guardrail-sdk/guardrail_sdk/models.py: stages, decisions, payloads and results.
-- A pydantic model is a record; a validator is a Boolean test of the record it accepts. The proofs
-- are in the modules below.
pub mod Strongest
pub mod Shape
use mathlib.Core.List.{foldl}
use policy_guardrails_agent.Prelude.{
  if◌then◌else◌, ltb, ◌==◌, is_some, str_eq, mem, ℕ, String, Bool, true, false, not, ◌&&◌, ◌||◌,
  Option, none, some, List, [], ◌∷◌,
}
use policy_guardrails_agent.Sdk.Json.{Json, Fields}

-- class Stage
pub data Stage : Type 0 where
  input retrieval tool output agent : Stage

abbrev pub stage_code : Stage → ℕ
stage_code Stage.input = 0
stage_code Stage.retrieval = 1
stage_code Stage.tool = 2
stage_code Stage.output = 3
stage_code Stage.agent = 4

-- `a == b` on stages
abbrev pub same_stage : Stage → Stage → Bool
same_stage a b = stage_code a == stage_code b

-- class Decision
pub data Decision : Type 0 where
  allow modify escalate block : Decision

-- DECISION_PRECEDENCE
abbrev pub precedence : Decision → ℕ
precedence Decision.allow = 0
precedence Decision.modify = 1
precedence Decision.escalate = 2
precedence Decision.block = 3

-- `a == b` on decisions
abbrev pub same_decision : Decision → Decision → Bool
same_decision a b = precedence a == precedence b

-- one step of `max(…, key=…)`: the earlier value stays unless the later one is strictly above
abbrev pub stronger : Decision → Decision → Decision
stronger a b = if ltb (precedence a) (precedence b) then b else a

-- strongest
unfoldable pub strongest : List Decision → Decision
strongest [] = Decision.allow
strongest (d ∷ ds) = foldl stronger d ds

pub data Role : Type 0 where
  system user assistant tool_role : Role

abbrev pub role_code : Role → ℕ
role_code system = 0
role_code user = 1
role_code assistant = 2
role_code tool_role = 3

pub record Chunk : Type 0 where
  pub id : String
  pub text : String
  pub source : Option String
  pub metadata : Fields

pub record ToolCall : Type 0 where
  pub name : String
  pub arguments : Fields
  pub result : Option Json

pub record Message : Type 0 where
  pub role : Role
  pub content : String

pub record Payload : Type 0 where
  pub stage : Stage
  pub text : Option String
  pub messages : Option (List Message)
  pub chunks : Option (List Chunk)
  pub tool_call : Option ToolCall
  pub extensions : Fields

-- `not self.messages`: None or empty
abbrev is_empty : Option (List Message) → Bool
is_empty none = true
is_empty (some []) = true
is_empty (some (m ∷ ms)) = false

abbrev content_for : Stage → Payload → Bool
content_for Stage.input p = is_some p.text || not (is_empty p.messages)
content_for Stage.output p = is_some p.text || not (is_empty p.messages)
content_for Stage.retrieval p = is_some p.chunks
content_for Stage.tool p = is_some p.tool_call
content_for Stage.agent p = true

-- Payload._has_content_for_stage: whether the validator accepts the payload
unfoldable pub has_content_for_stage : Payload → Bool
has_content_for_stage p = content_for p.stage p

-- [m.role for m in a] != [m.role for m in b], negated
abbrev pub same_roles : List Message → List Message → Bool
same_roles [] [] = true
same_roles [] (n ∷ ns) = false
same_roles (m ∷ ms) [] = false
same_roles (m ∷ ms) (n ∷ ns) = role_code m.role == role_code n.role && same_roles ms ns

abbrev pub ids : List Chunk → List String
ids [] = []
ids (c ∷ cs) = c.id ∷ ids cs

-- {c.id for c in other} <= {c.id for c in self}
abbrev pub subset : List String → List String → Bool
subset [] ys = true
subset (x ∷ xs) ys = mem x ys && subset xs ys

abbrev pub messages_match : Option (List Message) → Option (List Message) → Bool
messages_match none none = true
messages_match (some a) (some b) = same_roles a b
messages_match none (some b) = false
messages_match (some a) none = false

-- Chunks may be dropped, never invented.
abbrev pub chunks_match : Option (List Chunk) → Option (List Chunk) → Bool
chunks_match none none = true
chunks_match (some a) (some b) = subset (ids b) (ids a)
chunks_match none (some b) = false
chunks_match (some a) none = false

abbrev pub calls_match : Option ToolCall → Option ToolCall → Bool
calls_match none none = true
calls_match (some a) (some b) = str_eq a.name b.name
calls_match none (some b) = false
calls_match (some a) none = false

abbrev pub texts_match : Option String → Option String → Bool
texts_match a b = if is_some a then is_some b else not (is_some b)

-- Payload.same_shape_as: each early `return False` is a conjunct
unfoldable pub same_shape_as : Payload → Payload → Bool
same_shape_as p q =
    same_stage p.stage q.stage
    && (texts_match p.text q.text
        && (messages_match p.messages q.messages
            && (chunks_match p.chunks q.chunks && calls_match p.tool_call q.tool_call)))

-- class Finding; the score is in thousandths
pub record Finding : Type 0 where
  pub type : String
  pub score : ℕ
  pub start : Option ℕ
  pub stop : Option ℕ
  pub location : Option String

-- class GuardrailResult: what the engine reads of it
pub record GuardrailResult : Type 0 where
  pub decision : Decision
  pub reason : String
  pub risk_score : ℕ
  pub modified_payload : Option Payload
  pub findings : List Finding
