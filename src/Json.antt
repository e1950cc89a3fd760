-- ===== src/Json.antt =====
-- The JSON values that the loop carries without looking into them, and `dict.get`.
use text.Mathlib.Text.{◌==◌}
use strategy_gpt.Prelude.{ℕ, suc, String, Bool, Option, none, some, if◌then◌else◌}

mutual
  pub data Json : Type 0 where
    null : Json
    boolean : Bool → Json
    number : String → Json
    string : String → Json
    array : Items → Json
    object : Fields → Json

  pub data Items : Type 0 where
    nil : Items
    cons : Json → Items → Items

  pub data Fields : Type 0 where
    end : Fields
    field : String → Json → Fields → Fields

unfoldable pub length_items : Items → ℕ
length_items nil = 0
length_items (cons j items) = suc (length_items items)

unfoldable pub length_fields : Fields → ℕ
length_fields end = 0
length_fields (field k v fields) = suc (length_fields fields)

-- `fields.get(key)`
unfoldable pub get : String → Fields → Option Json
get key end = none
get key (field k v fields) = let rest = get key fields in if k == key then some v else rest
