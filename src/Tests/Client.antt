-- ===== src/Tests/Client.antt =====
-- The theorems on the client of the Bot API at concrete inputs.
use telegram_mcpvscode.Prelude.{◌+◌, ◌^◌, ℤ, pos, true, none, some, ◌≡◌, arith}
use telegram_mcpvscode.Prelude.Int.{◌+ℤ◌}
use telegram_mcpvscode.Json.{Value, obj, arr, bool, num, field, end, cons, nil}
use telegram_mcpvscode.TgClient.Methods
use telegram_mcpvscode.McpServer.Wire.{delete_message, edit_message_text, forward_message}
use telegram_mcpvscode.McpServer.Outbound.{call_of, message_id_wraps}

abbrev fine : Value
fine = obj (field "ok" (bool true) (field "result" (arr (cons (num (pos 7)) nil)) end))

abbrev large_id : ℤ
large_id = pos (2 ^ 32 + 8)

message_id_wraps_example :
    (call_of (delete_message (pos 5) (pos 8)) ≡ some (Methods.delete_message (pos 5) (pos 8)))
    × (call_of (delete_message (pos 5) large_id) ≡ call_of (delete_message (pos 5) (pos 8)))
    × (call_of (edit_message_text (pos 5) large_id "new" none)
        ≡ call_of (edit_message_text (pos 5) (pos 8) "new" none))
    × (call_of (forward_message (pos 5) large_id (pos 6))
        ≡ call_of (forward_message (pos 5) (pos 8) (pos 6)))
unfolding call_of ◌+ℤ◌
message_id_wraps_example =
    message_id_wraps (pos 5) (pos 6) (pos 8) "new" none (omega arith, omega arith)
