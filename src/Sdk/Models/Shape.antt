-- ===== src/Sdk/Models/Shape.antt =====
-- `Payload.same_shape_as` is reflexive and transitive, so a chain of modifications keeps the shape
-- of the payload that the chain began with.
use policy_guardrails_agent.Prelude.{
  eq_iff, mem, String, ◌≡◌, refl, true, Option, none, some, List, [], ◌∷◌, arith,
}
use policy_guardrails_agent.Sdk.Models.{
  Chunk, ToolCall, Message, Payload, same_roles, ids, subset, messages_match, chunks_match,
  calls_match, same_shape_as,
}

same_roles_refl : (ms : List Message) → same_roles ms ms ≡ true
same_roles_refl [] = refl
same_roles_refl (m ∷ ms) = ground (arith, same_roles_refl ms)

same_roles_trans :
    (a b c : List Message) → same_roles a b ≡ true → same_roles b c ≡ true → same_roles a c ≡ true
same_roles_trans [] [] [] p q = refl
same_roles_trans [] [] (z ∷ c) p q = q
same_roles_trans [] (y ∷ b) c p q = cc
same_roles_trans (x ∷ a) [] c p q = cc
same_roles_trans (x ∷ a) (y ∷ b) [] p q = q
same_roles_trans (x ∷ a) (y ∷ b) (z ∷ c) p q = ground (arith, same_roles_trans a b c)

subset-weaken : (y : String) (xs ys : List String) → subset xs ys ≡ true → subset xs (y ∷ ys) ≡ true
subset-weaken y [] ys h = refl
subset-weaken y (x ∷ xs) ys h = ground (arith, subset-weaken y xs ys)

subset_refl : (xs : List String) → subset xs xs ≡ true
subset_refl [] = refl
subset_refl (x ∷ xs) = ground (arith, eq_iff x x, subset-weaken x xs xs, subset_refl xs)

mem-subset :
    (x : String) (xs ys : List String) → mem x xs ≡ true → subset xs ys ≡ true → mem x ys ≡ true
mem-subset x [] ys p q = cc
mem-subset x (z ∷ xs) ys p q = ground (arith, eq_iff z x, mem-subset x xs ys)

subset_trans : (a b c : List String) → subset a b ≡ true → subset b c ≡ true → subset a c ≡ true
subset_trans [] b c p q = refl
subset_trans (x ∷ a) b c p q = ground (arith, mem-subset x b c, subset_trans a b c)

messages_match_refl : (a : Option (List Message)) → messages_match a a ≡ true
messages_match_refl none = refl
messages_match_refl (some a) = same_roles_refl a

messages_match_trans :
    (a b c : Option (List Message))
    → messages_match a b ≡ true
    → messages_match b c ≡ true
    → messages_match a c ≡ true
messages_match_trans none none c p q = q
messages_match_trans none (some b) c p q = cc
messages_match_trans (some a) none c p q = cc
messages_match_trans (some a) (some b) none p q = q
messages_match_trans (some a) (some b) (some c) p q = same_roles_trans a b c p q

chunks_match_refl : (a : Option (List Chunk)) → chunks_match a a ≡ true
chunks_match_refl none = refl
chunks_match_refl (some a) = subset_refl (ids a)

chunks_match_trans :
    (a b c : Option (List Chunk))
    → chunks_match a b ≡ true
    → chunks_match b c ≡ true
    → chunks_match a c ≡ true
chunks_match_trans none none c p q = q
chunks_match_trans none (some b) c p q = cc
chunks_match_trans (some a) none c p q = cc
chunks_match_trans (some a) (some b) none p q = q
chunks_match_trans (some a) (some b) (some c) p q = subset_trans (ids c) (ids b) (ids a) q p

calls_match_refl : (a : Option ToolCall) → calls_match a a ≡ true
calls_match_refl none = refl
calls_match_refl (some a) = (eq_iff a.name a.name).1 refl

calls_match_trans :
    (a b c : Option ToolCall)
    → calls_match a b ≡ true
    → calls_match b c ≡ true
    → calls_match a c ≡ true
calls_match_trans none none c p q = q
calls_match_trans none (some b) c p q = cc
calls_match_trans (some a) none c p q = cc
calls_match_trans (some a) (some b) none p q = q
calls_match_trans (some a) (some b) (some c) p q =
    ground (arith, eq_iff a.name b.name, eq_iff b.name c.name, eq_iff a.name c.name)

pub same_shape_as_refl : (p : Payload) → same_shape_as p p ≡ true
unfolding same_shape_as
same_shape_as_refl p = ground (
  arith,
  messages_match_refl p.messages,
  chunks_match_refl p.chunks,
  calls_match_refl p.tool_call,
)

-- A shape that is kept twice is kept.
pub same_shape_as_trans :
    (p q r : Payload)
    → same_shape_as p q ≡ true
    → same_shape_as q r ≡ true
    → same_shape_as p r ≡ true
unfolding same_shape_as
same_shape_as_trans p q r h k = ground (
  arith,
  messages_match_trans p.messages q.messages r.messages,
  chunks_match_trans p.chunks q.chunks r.chunks,
  calls_match_trans p.tool_call q.tool_call r.tool_call,
)
