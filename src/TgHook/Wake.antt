-- ===== src/TgHook/Wake.antt =====
-- The senders of crates/tg-hook/src/wake.rs: how a response is split into messages, and the baseline
-- that the answer to the wakeup carries.
pub mod Chunks
use telegram_mcpvscode.Prelude.{
  String, ◌<>◌, ℕ, zero, suc, ◌-◌, ℤ, Bool, Option, none, some, List, [], ◌∷◌, if◌then◌else◌, ltb,
  leb, ◌==◌,
}
use Prim.Native.Char.{Char, code}
use telegram_mcpvscode.Prelude.Options.{◌>>=◌}
use telegram_mcpvscode.Prelude.Split.{width, bytes}
use telegram_mcpvscode.Prelude.Trim.{is_empty, trim_start, trim_end}
use telegram_mcpvscode.Json.{Value, get, as_i64}
use telegram_mcpvscode.Json.Serde.{Serde}
use telegram_mcpvscode.TgHook.Poll.{tool_result_text}

abbrev pub telegram_max_message_bytes : ℕ
telegram_max_message_bytes = 4096

abbrev pub after_char : Char → String × String → String × String
after_char c (s, t) = (String.◌∷◌ c s, t)

-- The text up to the last character boundary at or before the given byte, and the rest.
unfoldable pub split_at_boundary : ℕ → String → String × String
unfolding width
split_at_boundary n String.[] = ("", "")
split_at_boundary n (String.◌∷◌ c s) =
    let rest = split_at_boundary (n - width c) s in
    if leb (width c) n then after_char c rest else ("", String.◌∷◌ c s)

-- `rfind('\n')`: the text before the last newline, and the text from it on.
unfoldable pub rfind_newline : String → Option (String × String)
rfind_newline String.[] = none
rfind_newline (String.◌∷◌ c s) = elim (rfind_newline s) [
  | some st ↦ some (after_char c st)
  | none ↦ if code c == 10 then some ("", String.◌∷◌ c s) else none
]

-- The cut is at the last newline of the slice; at its end where there is none, or where it is first.
abbrev pub cut_at : Option (String × String) → String → String → String × String
cut_at none slice after = (slice, after)
cut_at (some (before, from)) slice after =
    if is_empty before then (slice, after) else (before, from <> after)

unfoldable pub cut : ℕ → String → String × String
unfolding split_at_boundary rfind_newline
cut max_len remaining =
    let (slice, after) = split_at_boundary max_len remaining in
    cut_at (rfind_newline slice) slice after

abbrev pub last_chunk : String → List String
last_chunk remaining = if is_empty remaining then [] else remaining ∷ []

-- The loop, with fuel for its rounds.
unfoldable pub split_rounds : ℕ → ℕ → String → List String
unfolding cut bytes trim_start trim_end
split_rounds zero max_len remaining = last_chunk remaining
split_rounds (suc fuel) max_len remaining =
    let (front, back) = cut max_len remaining in
    let rest = split_rounds fuel max_len (trim_start back) in
    if ltb max_len (bytes remaining) then trim_end front ∷ rest else last_chunk remaining

-- Each round takes a byte at least.
unfoldable pub split_message : String → ℕ → List String
unfolding split_rounds
split_message text max_len =
    if leb (bytes text) max_len then text ∷ [] else split_rounds (bytes text) max_len text

module _ (serde : Serde) where
  unfoldable pub extract_baseline : Value → Option ℤ
  unfolding tool_result_text
  extract_baseline result = do
    text ← tool_result_text result
    parsed ← serde.from_str text
    message_id ← get parsed "message_id"
    as_i64 message_id
