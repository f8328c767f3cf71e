-- ===== src/McpServer/Access.antt =====
-- What the allow-list `allowed_send_targets` confines.
use telegram_mcpvscode.Prelude.{Bool, Option, none, some, List, ℤ, ◌≡◌, sym, subst, All}
use telegram_mcpvscode.Json.Serde.{Serde}
use telegram_mcpvscode.Aliases.{ChatRef}
use telegram_mcpvscode.History.Listing.{Fts, list_chats, search}
use telegram_mcpvscode.History.Store.{get_chat, get_message, messages, mark_read}
use telegram_mcpvscode.McpServer.Inputs.{
  SendMessageInput, SendPhotoInput, SendDocumentInput, EditMessageInput, DeleteMessageInput,
  ForwardMessageInput, ChatActionInput, HistorySearchInput, DownloadInput,
}
use telegram_mcpvscode.McpServer.Wire.{World, require, store, ask, get_me, download_file}
use telegram_mcpvscode.McpServer.Tools.{
  State, chat_action_from_str, identity, chats, chat, page, hits, message, baseline, downloaded,
  clamp_limit,
}
use telegram_mcpvscode.McpServer.Calls.{
  ToolCall, call_tool, bot_whoami, bot_list_aliases, call_delete_message, call_send_chat_action,
  call_send_message, call_send_photo, call_send_document, call_edit_message, call_forward_message,
  history_list_chats, history_get_chat, history_messages, history_search, history_get_message,
  history_mark_read, history_download, resolve_optional, tg_bot_whoami, tg_bot_list_aliases,
  tg_history_list_chats, tg_send_message, tg_send_photo, tg_send_document, tg_edit_message,
  tg_delete_message, tg_forward_message, tg_send_chat_action, tg_history_get_chat,
  tg_history_messages, tg_history_search, tg_history_get_message, tg_history_mark_read,
  tg_history_download, unknown,
}
use telegram_mcpvscode.McpServer.Confined.{
  IsAllowed, Confined, pure-Confined, require-Confined, store-Confined, ask-Confined, bind-Confined,
  resolve-Confined, store_call-Confined, send-Confined, checked-Confined, acted-Confined, path_then,
  mode_then,
}

module _ (list : List ℤ) where
  -- The state of a server that is limited to the list.
  abbrev limited : State → State
  limited state = record state { allowed_send_targets = some list }

  module _ (serde : Serde) (windows : Bool) (state : State) where
    send_message-Confined :
        (i : SendMessageInput) → Confined list (call_send_message serde windows (limited state) i)
    unfolding call_send_message IsAllowed
    send_message-Confined i =
        checked-Confined list serde windows (limited state) i.chat _ (λ c good.
          mode_then list serde windows (limited state) i.parse_mode _ (λ pm.
            send-Confined list serde windows (limited state) _ (some i.text) none i.reply_to good))

    send_photo-Confined :
        (i : SendPhotoInput) → Confined list (call_send_photo serde windows (limited state) i)
    unfolding call_send_photo IsAllowed
    send_photo-Confined i = checked-Confined list serde windows (limited state) i.chat _ (λ c good.
        path_then list serde windows (limited state) i.path _ (λ path.
          mode_then list serde windows (limited state) i.parse_mode _ (λ pm.
            send-Confined list serde windows (limited state) _ i.caption (some "photo") none good)))

    send_document-Confined :
        (i : SendDocumentInput) → Confined list (call_send_document serde windows (limited state) i)
    unfolding call_send_document IsAllowed
    send_document-Confined i =
        checked-Confined list serde windows (limited state) i.chat _ (λ c good.
          path_then list serde windows (limited state) i.path _ (λ path.
            send-Confined list serde windows (limited state) _ i.caption (some "document") none
              good))

    edit_message-Confined :
        (i : EditMessageInput) → Confined list (call_edit_message serde windows (limited state) i)
    unfolding call_edit_message IsAllowed
    edit_message-Confined i =
        checked-Confined list serde windows (limited state) i.chat _ (λ c good.
          mode_then list serde windows (limited state) i.parse_mode _
            (λ pm. send-Confined list serde windows (limited state) _ (some i.text) none none good))

    forward_message-Confined :
        (i : ForwardMessageInput)
        → Confined list (call_forward_message serde windows (limited state) i)
    unfolding call_forward_message IsAllowed
    forward_message-Confined i = resolve-Confined list (limited state) i.from_chat _ (λ f.
        checked-Confined list serde windows (limited state) i.to_chat _
          (λ c good. send-Confined list serde windows (limited state) _ none none none good))

    delete_message-Confined :
        (i : DeleteMessageInput) → Confined list (call_delete_message (limited state) i)
    unfolding call_delete_message IsAllowed
    delete_message-Confined i =
        checked-Confined list serde windows (limited state) i.chat _
          (λ c good. acted-Confined list serde windows (limited state) _ _ good)

    send_chat_action-Confined :
        (i : ChatActionInput) → Confined list (call_send_chat_action (limited state) i)
    unfolding call_send_chat_action IsAllowed
    send_chat_action-Confined i =
        checked-Confined list serde windows (limited state) i.chat _ (λ c good.
          bind-Confined list _ _ (require-Confined list (chat_action_from_str i.action))
            (λ action. acted-Confined list serde windows (limited state) _ _ good))

    download-Confined :
        (i : DownloadInput) → Confined list (history_download serde (limited state) windows i)
    unfolding history_download IsAllowed
    download-Confined i = resolve-Confined list (limited state) i.chat _ (λ c.
        path_then list serde windows (limited state) i.dest_path _ (λ dest.
          bind-Confined list (store (get_message serde c i.message_id)) _
            (store-Confined list (get_message serde c i.message_id))
            (λ m.
              bind-Confined list (require m.media_file_id) _ (require-Confined list m.media_file_id)
                (λ file_id.
                  bind-Confined list
                    (ask (λ log. state.bot.bytes log (download_file file_id dest))
                      (download_file file_id dest))
                    _
                    (ask-Confined list (λ log. state.bot.bytes log (download_file file_id dest)) _
                      tt)
                    (λ n. pure-Confined list (downloaded dest n))))))

    search_call-Confined :
        (fts : Fts) (i : HistorySearchInput) → Confined list (history_search fts (limited state) i)
    unfolding history_search
    search_call-Confined fts i =
        bind-Confined list (resolve_optional (limited state) i.chat) _ (optional i.chat) (λ c.
          bind-Confined list (store (search fts i.query c i.since i.until)) _
            (store-Confined list (search fts i.query c i.since i.until))
            (λ found. pure-Confined list (hits found)))
      where
        optional : (r : Option ChatRef) → Confined list (resolve_optional (limited state) r)
        optional none = pure-Confined list none
        optional (some r) =
            resolve-Confined list (limited state) r _ (λ c. pure-Confined list (some c))

    call-Confined :
        (fts : Fts) (call : ToolCall)
        → Confined list (call_tool serde fts windows (limited state) call)
    unfolding call_tool bot_whoami bot_list_aliases history_list_chats history_get_chat
        history_mark_read history_messages history_get_message IsAllowed
    call-Confined fts tg_bot_whoami =
        bind-Confined list (ask state.bot.identity get_me) _
          (ask-Confined list state.bot.identity get_me tt) (λ me. pure-Confined list (identity me))
    call-Confined fts tg_bot_list_aliases = pure-Confined list _
    call-Confined fts tg_history_list_chats =
        bind-Confined list (store list_chats) _ (store-Confined list list_chats)
          (λ l. pure-Confined list (chats l))
    call-Confined fts (tg_send_message i) = send_message-Confined i
    call-Confined fts (tg_send_photo i) = send_photo-Confined i
    call-Confined fts (tg_send_document i) = send_document-Confined i
    call-Confined fts (tg_edit_message i) = edit_message-Confined i
    call-Confined fts (tg_delete_message i) = delete_message-Confined i
    call-Confined fts (tg_forward_message i) = forward_message-Confined i
    call-Confined fts (tg_send_chat_action i) = send_chat_action-Confined i
    call-Confined fts (tg_history_get_chat i) =
        store_call-Confined list (limited state) i.chat get_chat (λ c r. chat r)
    call-Confined fts (tg_history_messages i) =
        store_call-Confined list (limited state) i.chat
          (λ c. messages serde c i.before_message_id i.after_message_id (clamp_limit i.limit))
          (λ c ms. page ms)
    call-Confined fts (tg_history_search i) = search_call-Confined fts i
    call-Confined fts (tg_history_get_message i) =
        store_call-Confined list (limited state) i.chat (λ c. get_message serde c i.message_id)
          (λ c m. message m)
    call-Confined fts (tg_history_mark_read i) =
        store_call-Confined list (limited state) i.chat (λ c. mark_read c i.up_to_message_id)
          (λ c _. baseline c i.up_to_message_id)
    call-Confined fts (tg_history_download i) = download-Confined i
    call-Confined fts (unknown name) = require-Confined list none

-- When the server has an allow-list and every request so far that acts on a chat was for a chat of
-- the list, so is every request after any call of any tool, whatever its arguments, the answers of
-- the Bot API and the faults of the store.
pub call_tool_confined :
    (serde : Serde) (fts : Fts) (windows : Bool) (state : State) (list : List ℤ) (call : ToolCall)
    (w : World)
    → state.allowed_send_targets ≡ some list
    → All (IsAllowed list) w.requests
    → All (IsAllowed list) (call_tool serde fts windows state call w).1.requests
call_tool_confined serde fts windows state list call w h =
    (subst
        (λ a.
          Confined list
            (call_tool serde fts windows (record state { allowed_send_targets = a }) call))
        (sym h) (call-Confined list serde windows state fts call)).at
      w
