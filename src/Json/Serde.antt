-- ===== src/Json/Serde.antt =====
-- `serde_json::to_string` and `from_str`, which are not code of the repository.
use Prim.Native.Nat.{ℕ, zero, suc, ◌^◌}
use telegram_mcpvscode.Prelude.{
  String, Bool, true, false, ◌&&◌, Option, some, ◌≡◌, ℤ, pos, negsuc, ltb,
}
use telegram_mcpvscode.Json.{
  Value, Fields, Items, null, obj, arr, str, bool, num, real, field, end, cons, nil,
}

-- An integer that a `serde_json::Number` holds as an `i64` or a `u64`.
abbrev is_whole : ℤ → Bool
is_whole (pos n) = ltb n (2 ^ 64)
is_whole (negsuc n) = ltb n (2 ^ 63)

-- Whether a document holds no float, and its arrays and objects are nested at most as deep as the
-- number says. Without the feature `float_roundtrip` a float need not read back as it was.
unfoldable mutual
  pub is_exact : ℕ → Value → Bool
  is_exact n null = true
  is_exact n (str s) = true
  is_exact n (bool b) = true
  is_exact n (num z) = is_whole z
  is_exact n (real s) = false
  is_exact zero (obj fields) = false
  is_exact (suc n) (obj fields) = exact_fields n fields
  is_exact zero (arr items) = false
  is_exact (suc n) (arr items) = exact_items n items

  pub exact_fields : ℕ → Fields → Bool
  exact_fields n end = true
  exact_fields n (field k v rest) = is_exact n v && exact_fields n rest

  pub exact_items : ℕ → Items → Bool
  exact_items n nil = true
  exact_items n (cons v rest) = is_exact n v && exact_items n rest

-- `from_str` refuses a document that is nested deeper.
abbrev pub recursion_limit : ℕ
recursion_limit = 127

abbrev pub IsExact : Value → Type 0
IsExact v = is_exact recursion_limit v ≡ true

-- What is written of a document with no float reads back as the document that was written.
pub record Serde : Type 0 where
  pub to_string : Value → Option String
  pub from_str : String → Option Value
  pub from_str-to_string :
      (v : Value) (s : String) → IsExact v → to_string v ≡ some s → from_str s ≡ some v
