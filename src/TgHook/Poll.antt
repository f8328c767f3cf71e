-- ===== src/TgHook/Poll.antt =====
-- `parse_replies` of crates/tg-hook/src/poll.rs and `tool_result_text` of
-- crates/tg-hook/src/mcp_client.rs. The texts of the errors are left out.
use telegram_mcpvscode.Prelude.{
  String, ℤ, Bool, false, ◌&&◌, Option, none, some, List, [], ◌∷◌, leb_ℤ, str_eq,
}
use telegram_mcpvscode.Prelude.Options.{◌>>=◌}
use telegram_mcpvscode.Prelude.Lists.{filter_by, filter_map}
use telegram_mcpvscode.Prelude.Order.{sort}
use telegram_mcpvscode.Json.{Value, get, as_str, as_i64, as_array}
use telegram_mcpvscode.Json.Serde.{Serde}

pub record Reply : Type 0 where
  pub message_id : ℤ
  pub text : Option String

abbrev first : List Value → Option Value
first [] = none
first (v ∷ vs) = some v

-- `get(0)`
abbrev first_item : Value → Option Value
first_item v = as_array v >>= first

unfoldable pub tool_result_text : Value → Option String
tool_result_text result = do
  content ← get result "content"
  c0 ← first_item content
  text ← get c0 "text"
  as_str text

abbrev is_in : Option String → Bool
is_in none = false
is_in (some s) = str_eq s "in"

abbrev pub is_inbound : Value → Bool
is_inbound m = is_in (get m "direction" >>= as_str)

abbrev pub reply_of : Value → Option Reply
reply_of m = do
  message_id ← get m "message_id" >>= as_i64
  some (record { message_id = message_id; text = get m "text" >>= as_str })

abbrev pub oldest_first : Reply → Reply → Bool
oldest_first r s = leb_ℤ r.message_id s.message_id

unfoldable pub replies_of : List Value → List Reply
unfolding filter_by filter_map sort
replies_of rows = sort oldest_first (filter_map reply_of (filter_by is_inbound rows))

module _ (serde : Serde) where
  unfoldable pub parse_replies : Value → Option (List Reply)
  unfolding tool_result_text
  parse_replies result = do
    text ← tool_result_text result
    parsed ← serde.from_str text
    rows ← as_array parsed
    some (replies_of rows)

abbrev passes : (Reply → Bool) → Option Reply → Bool
passes p none = false
passes p (some r) = p r

-- The row is inbound, and decodes to a reply that passes the test.
abbrev pub gives : (Reply → Bool) → Value → Bool
gives p m = is_inbound m && passes p (reply_of m)
