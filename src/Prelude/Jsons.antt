-- ===== src/Prelude/Jsons.antt =====
-- JSON values; numbers are the text that prints them.
use mathlib.Core.Bool.{Bool}
use learning_system.Prelude.Texts.{Text}

mutual
  pub data Json : Type 0 where
    null : Json
    boolean : Bool → Json
    number : Text → Json
    string : Text → Json
    array : Items → Json
    object : Fields → Json

  pub data Items : Type 0 where
    no_items : Items
    item : Json → Items → Items

  pub data Fields : Type 0 where
    no_fields : Fields
    field : Text → Json → Fields → Fields
