-- ===== src/TgHook/Question/Picked.antt =====
-- The option that a number stands for.
use telegram_mcpvscode.Prelude.{
  String, ◌<>◌, ℕ, Bool, if◌then◌else◌, ◌+◌, List, [], ◌∷◌, ◌≡◌, length,
}
use telegram_mcpvscode.TgHook.Question.{QOption, Question}

-- How many options the questions have.
abbrev pub offered : List Question → ℕ
offered [] = 0
offered (q ∷ qs) = length q.options + offered qs

-- The number that `render` shows for the option.
abbrev pub number_of : List Question → List QOption → ℕ
number_of front before = offered front + length before + 1

abbrev pub Contains : String → String → Type 0
Contains text part = (left : String) × (right : String) × (text ≡ left <> part <> right)

multi_line : Bool → String
multi_line multi = if multi then "   (multi-select — list every number that applies)\n" else ""
