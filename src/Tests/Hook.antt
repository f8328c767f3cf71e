-- ===== src/Tests/Hook.antt =====
-- The theorem on the replies at a concrete result.
use telegram_mcpvscode.Prelude.{String, ℤ, pos, Option, none, some, List, [], ◌∷◌, ◌≡◌}
use telegram_mcpvscode.Json.{Value, obj, arr, str, num, field, end, cons, nil}
use telegram_mcpvscode.Json.Serde.{Serde}
use telegram_mcpvscode.TgHook.Poll.{Reply}

abbrev row : ℤ → String → Value
row message_id direction =
    obj (field "message_id" (num message_id) (field "direction" (str direction) end))

abbrev pub history_rows : Value
history_rows =
    arr (cons (row (pos 13) "in") (cons (row (pos 12) "out") (cons (row (pos 11) "in") nil)))

abbrev pub nothing : Option String
nothing = none

pub never : (v : Value) (s : String) → nothing ≡ some s → some history_rows ≡ some v
never v s h = cc

-- Reads every text as the rows.
abbrev pub rows_only : Serde
rows_only = record {
  to_string = λ v. none;
  from_str = λ s. some history_rows;
  from_str-to_string = λ v s _ h. never v s h;
}

abbrev pub envelope : Value
envelope = obj (field "content" (arr (cons (obj (field "text" (str "rows") end)) nil)) end)

abbrev two_replies : List Reply
two_replies =
    record { message_id = pos 11; text = none } ∷ record { message_id = pos 13; text = none } ∷ []
