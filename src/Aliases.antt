-- ===== src/Aliases.antt =====
-- crates/aliases/src/lib.rs: references to chats by number or by a configured name.
use telegram_mcpvscode.Prelude.{
  String, ℤ, Option, none, some, List, [], ◌∷◌, map, str_eq, if◌then◌else◌,
}

pub data ChatRef : Type 0 where
  id : ℤ → ChatRef
  name : String → ChatRef

-- The `BTreeMap`, its entries in the order of the names.
pub record Aliases : Type 0 where
  pub entries : List (String × ℤ)

pub data UnknownAlias : Type 0 where
  unknown : String → UnknownAlias

pub data Resolved : Type 0 where
  ok : ℤ → Resolved
  err : UnknownAlias → Resolved

unfoldable pub lookup : String → List (String × ℤ) → Option ℤ
lookup n [] = none
lookup n ((k, v) ∷ rest) = if str_eq k n then some v else lookup n rest

abbrev found_or : String → Option ℤ → Resolved
found_or n none = err (unknown n)
found_or n (some chat_id) = ok chat_id

unfoldable pub resolve : Aliases → ChatRef → Resolved
unfolding lookup
resolve aliases (id chat_id) = ok chat_id
resolve aliases (name n) = found_or n (lookup n aliases.entries)

unfoldable pub names : Aliases → List String
names aliases = map (λ (k, v). k) aliases.entries

abbrev pub as_map : Aliases → List (String × ℤ)
as_map aliases = aliases.entries
