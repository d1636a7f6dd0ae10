-- ===== src/Json.antt =====
-- The values that `encoding/json` decodes into `interface{}`, a `map[string]interface{}` as a list of
-- its fields in the order in which a loop ranges over them.
use ff_indexer.Prelude.{String, Bool}

mutual
  -- A number is kept as its text.
  pub data Json : Type 0 where
    null : Json
    truth : Bool → Json
    number text_value : String → Json
    array : Items → Json
    object : Fields → Json

  pub data Items : Type 0 where
    nil : Items
    item : Json → Items → Items

  pub data Fields : Type 0 where
    end : Fields
    field : String → Json → Fields → Fields
