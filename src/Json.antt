-- ===== src/Json.antt =====
-- `serde_json` as the program uses it: values, and objects as maps from names. A parameter, with the
-- documented behaviour of `Map::insert`, `Map::get`, `as_object`, `as_str` and `as_bool`.
use hidden_steps.Prelude.{Bool, List, Option, Text, if◌then◌else◌, none, some, text_eq, ℕ, ◌≡◌}

pub record Json : Type 1 where
  pub Value : Type 0
  pub Map : Type 0
  pub string : Text → Value
  pub number : ℕ → Value
  pub boolean : Bool → Value
  pub array : List Value → Value
  pub object : Map → Value
  pub empty : Map
  pub insert : Text → Value → Map → Map
  pub get : Text → Map → Option Value
  pub as_object : Value → Option Map
  pub as_str : Value → Option Text
  pub as_bool : Value → Option Bool
  pub as_object-object : (m : Map) → as_object (object m) ≡ some m
  pub as_str-string : (t : Text) → as_str (string t) ≡ some t
  pub as_bool-boolean : (b : Bool) → as_bool (boolean b) ≡ some b
  pub get-empty : (k : Text) → get k empty ≡ none
  pub get-insert :
      (k j : Text) (v : Value) (m : Map)
      → get j (insert k v m) ≡ (if text_eq k j then some v else get j m)
