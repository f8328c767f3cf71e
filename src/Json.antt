-- ===== src/Json.antt =====
-- JSON documents, as `serde_json::Value` holds them, and the accessors that the crates use.
pub mod Serde
use Prim.Native.Nat.{ℕ, ◌^◌}
use telegram_mcpvscode.Prelude.{
  String, Bool, true, false, Option, none, some, List, [], ◌∷◌, ℤ, pos, negsuc, if◌then◌else◌,
  str_eq, ltb,
}
use telegram_mcpvscode.Prelude.Int.{in_i64}

-- A number is an integer, or a float that is kept as its text.
mutual
  pub data Value : Type 0 where
    null : Value
    obj : Fields → Value
    arr : Items → Value
    str : String → Value
    bool : Bool → Value
    num : ℤ → Value
    real : String → Value

  pub data Fields : Type 0 where
    field : String → Value → Fields → Fields
    end : Fields

  pub data Items : Type 0 where
    cons : Value → Items → Items
    nil : Items

unfoldable pub lookup : String → Fields → Option Value
lookup key end = none
lookup key (field k v rest) = if str_eq k key then some v else lookup key rest

abbrev pub to_list : Items → List Value
to_list nil = []
to_list (cons v vs) = v ∷ to_list vs

unfoldable pub get : Value → String → Option Value
unfolding lookup
get (obj fields) key = lookup key fields
get _ key = none

abbrev pub as_str : Value → Option String
as_str (str s) = some s
as_str _ = none

abbrev pub as_bool : Value → Option Bool
as_bool (bool b) = some b
as_bool _ = none

unfoldable pub as_i64 : Value → Option ℤ
as_i64 (num n) = if in_i64 n then some n else none
as_i64 _ = none

unfoldable pub as_u64 : Value → Option ℕ
as_u64 (num (pos n)) = if ltb n (2 ^ 64) then some n else none
as_u64 _ = none

abbrev pub as_array : Value → Option (List Value)
as_array (arr vs) = some (to_list vs)
as_array _ = none
