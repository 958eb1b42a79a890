-- ===== src/Issues/Json.antt =====
-- What recompile/rerun/src/issue_groups.rs uses of the JSON values of the package serde_json.
use recompile.Base.{ℕ, ℤ, ◌≡◌, ◌≢◌, Bool, true, Option, some, List, Text}

pub record Json (V : Type 0) : Type 0 where
  pub get : V → Text → Option V
  pub as_str : V → Option Text
  pub as_u64 : V → Option ℕ
  pub as_i64 : V → Option ℤ
  pub as_array : V → Option (List V)
  -- as_object_mut().is_some(), and insert on that object
  pub is_object : V → Bool
  pub insert : V → Text → V → V
  -- Value::String
  pub string : Text → V

-- An inserted field is found under its key, and all others are as before.
pub record Laws {V : Type 0} (json : Json V) : Type 0 where
  pub get-insert_same :
      (v x : V) (key : Text) → json.is_object v ≡ true → json.get (json.insert v key x) key ≡ some x
  pub get-insert_other :
      (v x : V) (key other : Text)
      → json.is_object v ≡ true
      → other ≢ key
      → json.get (json.insert v key x) other ≡ json.get v other
  pub is_object-insert :
      (v x : V) (key : Text) → json.is_object v ≡ true → json.is_object (json.insert v key x) ≡ true
  pub as_str-string : (s : Text) → json.as_str (json.string s) ≡ some s
