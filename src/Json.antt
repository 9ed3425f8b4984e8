-- ===== src/Json.antt =====
-- `serde_json::Value`. An object is a `Map`: its entries in the order in which the map walks them.
-- A number is kept as its literal, since no code reads one.
use vocdoni_passport_prover.Prelude.{Bool, false, ◌||◌, Option, none, some, if◌then◌else◌}
use vocdoni_passport_prover.Prelude.Text.{Text, text_eq}

mutual
  pub data Value : Type 0 where
    null : Value
    bool : Bool → Value
    number : Text → Value
    string : Text → Value
    array : Values → Value
    object : Fields → Value

  pub data Values : Type 0 where
    nil : Values
    cons : Value → Values → Values

  pub data Fields : Type 0 where
    end : Fields
    field : Text → Value → Fields → Fields

-- `Map::get`.
unfoldable pub get : Text → Fields → Option Value
get k end = none
get k (field j v m) = if text_eq j k then some v else get k m

-- `Map::contains_key`.
unfoldable pub contains_key : Text → Fields → Bool
contains_key k end = false
contains_key k (field j v m) = text_eq j k || contains_key k m

unfoldable pub as_object : Value → Option Fields
as_object (object m) = some m
as_object null = none
as_object _ = none

unfoldable pub as_bool : Value → Option Bool
as_bool (bool b) = some b
as_bool null = none
as_bool _ = none

unfoldable pub as_str : Value → Option Text
as_str (string s) = some s
as_str null = none
as_str _ = none

-- `Value::get` with a key: nothing, if the value is no object.
unfoldable pub get_key : Text → Value → Option Value
unfolding get
get_key k (object m) = get k m
get_key k null = none
get_key k _ = none
