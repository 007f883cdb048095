-- ===== src/Runtime/Json.antt =====
-- The values that encoding/json decodes into an `any`, and the int64 that a program puts beside them.
use osscdp.Prelude.{ℕ, String, ◌==◌, Bool, true, false, Option, none, some, if◌then◌else◌}
use osscdp.Runtime.Float.{Float64}

mutual
  pub data Value : Type 0 where
    null : Value
    boolean : Bool → Value
    number : Float64 → Value
    -- an int64, as its 64-bit pattern; no text decodes to it
    integer : ℕ → Value
    text : String → Value
    array : Items → Value
    object : Fields → Value

  pub data Items : Type 0 where
    nil : Items
    cons : Value → Items → Items

  -- A map[string]any: its keys are distinct.
  pub data Fields : Type 0 where
    end : Fields
    field : String → Value → Fields → Fields

-- m[key], with the `ok` of Go's two-valued index.
unfoldable pub get_field : String → Fields → Option Value
get_field key end = none
get_field key (field k v m) = if k == key then some v else get_field key m

abbrev pub is_null : Value → Bool
is_null null = true
is_null _ = false

abbrev pub is_array : Value → Bool
is_array (array xs) = true
is_array _ = false
