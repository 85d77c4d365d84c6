-- ===== src/Sdk/Examples.antt =====
-- The SDK's models at concrete values.
use policy_guardrails_agent.Prelude.{String, ◌≡◌, refl, true, false, none, some, List, [], ◌∷◌}
use policy_guardrails_agent.Sdk.Json.{end}
use policy_guardrails_agent.Sdk.Models.{
  Decision, Stage, Payload, Chunk, strongest, same_shape_as, has_content_for_stage,
}

abbrev decisions : List Decision
decisions = Decision.modify ∷ Decision.block ∷ Decision.allow ∷ []

strongest_runs : strongest decisions ≡ Decision.block
unfolding strongest
strongest_runs = refl

abbrev chunk : String → Chunk
chunk id = record { id = id; text = "…"; source = none; metadata = end }

abbrev retrieved : List Chunk → Payload
retrieved cs = record {
  stage = Stage.retrieval;
  text = none;
  messages = none;
  chunks = some cs;
  tool_call = none;
  extensions = end;
}

retrieved_is_content : has_content_for_stage (retrieved []) ≡ true
unfolding has_content_for_stage
retrieved_is_content = refl

dropped : same_shape_as (retrieved (chunk "a" ∷ chunk "b" ∷ [])) (retrieved (chunk "b" ∷ [])) ≡ true
unfolding same_shape_as
dropped = refl

emptied : same_shape_as (retrieved (chunk "b" ∷ [])) (retrieved []) ≡ true
unfolding same_shape_as
emptied = refl

invented : same_shape_as (retrieved []) (retrieved (chunk "c" ∷ [])) ≡ false
unfolding same_shape_as
invented = refl
