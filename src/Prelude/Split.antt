-- ===== src/Prelude/Split.antt =====
-- `str::split` at the characters of a test, `join`, and the length in bytes.
use Prim.Native.Char.{Char, code}
use Prim.Native.Nat.{ℕ, ◌+◌}
use Prim.Native.String.{String, ◌++◌ as ◌<>◌}
use mathlib.Core.Bool.{Bool}
use mathlib.Core.List.{List, [], ◌∷◌}
use telegram_mcpvscode.Prelude.Tests.{ltb, if◌then◌else◌}

abbrev prepend : Char → List String → List String
prepend c [] = String.◌∷◌ c String.[] ∷ []
prepend c (s ∷ ss) = String.◌∷◌ c s ∷ ss

unfoldable pub split_on : (Char → Bool) → String → List String
split_on p String.[] = "" ∷ []
split_on p (String.◌∷◌ c s) = let rest = split_on p s in if p c then "" ∷ rest else prepend c rest

unfoldable pub join : String → List String → String
join separator [] = ""
join separator (s ∷ []) = s
join separator (s ∷ t ∷ ts) = s <> separator <> join separator (t ∷ ts)

-- The bytes of a character in UTF-8.
unfoldable pub width : Char → ℕ
width c =
    let n = code c in
    if ltb n 0x80 then 1 else if ltb n 0x800 then 2 else if ltb n 0x10000 then 3 else 4

unfoldable pub bytes : String → ℕ
unfolding width
bytes String.[] = 0
bytes (String.◌∷◌ c s) = width c + bytes s
