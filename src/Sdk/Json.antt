-- ===== src/Sdk/Json.antt =====
-- The dynamic values of `dict[str, Any]` fields (tool arguments, extensions, metadata), as pydantic
-- reads them from JSON.
use Prim.Native.String.{String}
use mathlib.Core.Bool.{Bool}
use policy_guardrails_agent.Prelude.Int.{ℤ}

mutual
  pub data Json : Type 0 where
    null : Json
    bool : Bool → Json
    num : ℤ → Json
    str : String → Json
    arr : Items → Json
    obj : Fields → Json

  pub data Items : Type 0 where
    nil : Items
    cons : Json → Items → Items

  pub data Fields : Type 0 where
    end : Fields
    field : String → Json → Fields → Fields
