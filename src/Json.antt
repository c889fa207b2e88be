-- ===== src/Json.antt =====
-- `serde_json::Value`, a library's type: a parameter, with what its documentation says of the
-- accessors and of the `json!` macro.
pub mod Tree
use memguard_agent.Base.{
  ℕ, ◌^◌, ◌<◌, Bool, true, false, List, Option, none, some, ◌≡◌, if◌then◌else◌,
}
use memguard_agent.Text.{Text, text_eq}

pub record Json : Type 1 where
  pub Value : Type 0
  -- `Value::get` of a key
  pub get : Text → Value → Option Value
  pub as_str : Value → Option Text
  pub as_u64 : Value → Option ℕ
  pub as_array : Value → Option (List Value)
  pub is_object : Value → Bool
  -- `json!` of a text, a number, a list, and `json!({})`
  pub str : Text → Value
  pub number : ℕ → Value
  pub array : List Value → Value
  pub empty : Value
  -- `Map::insert` into an object. `json!({"a": x, "b": y})` inserts its entries in order.
  pub insert : Text → Value → Value → Value
  pub is_object-empty : is_object empty ≡ true
  pub is_object-insert : (k : Text) (x v : Value) → is_object (insert k x v) ≡ is_object v
  pub get-empty : (k : Text) → get k empty ≡ none
  pub get-insert :
      (j k : Text) (x v : Value)
      → is_object v ≡ true
      → get j (insert k x v) ≡ (if text_eq k j then some x else get j v)
  pub get_not_object : (k : Text) (v : Value) → is_object v ≡ false → get k v ≡ none
  pub as_str-str : (s : Text) → as_str (str s) ≡ some s
  pub as_str-number : (n : ℕ) → as_str (number n) ≡ none
  pub as_u64-number : (n : ℕ) → n < 2 ^ 64 → as_u64 (number n) ≡ some n
  pub as_array-array : (vs : List Value) → as_array (array vs) ≡ some vs
