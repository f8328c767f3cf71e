-- ===== src/McpServer/Outbound.antt =====
-- The client behind the tools: the call of `teloxide` that a request of a tool becomes, and the `Bot`
-- that the tools see.
use telegram_mcpvscode.Prelude.{String, ◌^◌, ℤ, pos, Option, none, some, ◌≡◌}
use telegram_mcpvscode.Prelude.Int.{◌+ℤ◌}
use telegram_mcpvscode.Prelude.Word.{InI32, as_i32_self, as_i32_wraps}
use telegram_mcpvscode.TgClient.Types.{ParseMode}
use telegram_mcpvscode.TgClient.Methods
use telegram_mcpvscode.TgClient.Methods.{
  Call, Teloxide, send_message_call, edit_message_call, delete_message_call, forward_message_call,
  send_photo_call, send_document_call, sent_by, done_by, me_by,
}
use telegram_mcpvscode.McpServer.Wire.{
  Request, get_me, send_message, send_photo_path, send_document_path, edit_message_text,
  delete_message, forward_message, send_chat_action, download_file,
}

-- A download is no call of `teloxide`.
unfoldable pub call_of : Request → Option Call
unfolding send_message_call edit_message_call delete_message_call forward_message_call
    send_photo_call send_document_call
call_of get_me = some Methods.get_me
call_of (send_message chat_id text pm reply silent preview) =
    some (send_message_call chat_id text pm reply silent preview)
call_of (send_photo_path chat_id path caption pm) = some (send_photo_call chat_id path caption pm)
call_of (send_document_path chat_id path caption filename) =
    some (send_document_call chat_id path caption filename)
call_of (edit_message_text chat_id message_id text pm) =
    some (edit_message_call chat_id message_id text pm)
call_of (delete_message chat_id message_id) = some (delete_message_call chat_id message_id)
call_of (forward_message from_chat message_id to_chat) =
    some (forward_message_call from_chat message_id to_chat)
call_of (send_chat_action chat_id action) = some (Methods.send_chat_action chat_id action)
call_of (download_file file_id dest) = none

-- A message id that fits in an i32 is the one that the API is asked to delete; one that is 2 ^ 32
-- larger makes the same call, when it is deleted, edited or forwarded.
pub message_id_wraps :
    (chat_id to_chat n : ℤ) (text : String) (pm : Option ParseMode)
    → InI32 n
    → (call_of (delete_message chat_id n) ≡ some (Methods.delete_message chat_id n))
      × (call_of (delete_message chat_id (n +ℤ pos (2 ^ 32))) ≡ call_of (delete_message chat_id n))
      × (call_of (edit_message_text chat_id (n +ℤ pos (2 ^ 32)) text pm)
          ≡ call_of (edit_message_text chat_id n text pm))
      × (call_of (forward_message chat_id (n +ℤ pos (2 ^ 32)) to_chat)
          ≡ call_of (forward_message chat_id n to_chat))
unfolding call_of
message_id_wraps chat_id to_chat n text pm small =
    let exact = as_i32_self n small in
    let wraps = as_i32_wraps n in (cc exact, cc wraps, cc wraps, cc wraps)
