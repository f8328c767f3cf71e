-- ===== src/McpServer/Calls.antt =====
-- `call_tool` of crates/mcp-server/src/main.rs: one function per arm, on decoded arguments.
use telegram_mcpvscode.Prelude.{String, Bool, true, false, Option, none, some, ℤ}
use telegram_mcpvscode.Prelude.Options.{unwrap_or}
use telegram_mcpvscode.Json.Serde.{Serde}
use telegram_mcpvscode.Aliases.{ChatRef, as_map}
use telegram_mcpvscode.History.Store.{get_chat, get_message, messages, mark_read}
use telegram_mcpvscode.History.Listing.{Fts, list_chats, search}
use telegram_mcpvscode.McpServer.Inputs.{
  SendMessageInput, SendPhotoInput, SendDocumentInput, EditMessageInput, DeleteMessageInput,
  ForwardMessageInput, ChatActionInput, GetChatInput, HistoryMessagesInput, HistorySearchInput,
  GetMessageInput, MarkReadInput, DownloadInput,
}
use telegram_mcpvscode.McpServer.Wire.{
  Request, Tool, pure, require, ◌>>=◌, ◌>>◌, store, ask, get_me, send_message, send_photo_path,
  send_document_path, edit_message_text, delete_message, forward_message, send_chat_action,
  download_file,
}
use telegram_mcpvscode.McpServer.Tools.{
  State, Answer, identity, aliases, deleted, acted, chats, chat, page, hits, message, baseline,
  downloaded, output_of, resolve_chat, check_send_allowed, resolve_path, decode_parse_mode,
  chat_action_from_str, clamp_limit, mirror_outbound,
}

abbrev pub resolve_optional : State → Option ChatRef → Tool (Option ℤ)
resolve_optional state none = pure none
resolve_optional state (some r) = do chat_id ← resolve_chat state.aliases r; pure (some chat_id)

module _ (state : State) where
  unfoldable pub bot_whoami : Tool Answer
  bot_whoami = do me ← ask state.bot.identity get_me; pure (identity me)

  unfoldable pub bot_list_aliases : Tool Answer
  bot_list_aliases = pure (aliases (as_map state.aliases))

  unfoldable pub call_delete_message : DeleteMessageInput → Tool Answer
  unfolding check_send_allowed
  call_delete_message input = do
    chat_id ← resolve_chat state.aliases input.chat
    check_send_allowed state.allowed_send_targets chat_id
    let r = delete_message chat_id input.message_id
    ask (λ log. state.bot.done log r) r
    pure (deleted chat_id input.message_id)

  unfoldable pub call_send_chat_action : ChatActionInput → Tool Answer
  call_send_chat_action input = do
    chat_id ← resolve_chat state.aliases input.chat
    check_send_allowed state.allowed_send_targets chat_id
    action ← require (chat_action_from_str input.action)
    let r = send_chat_action chat_id action
    ask (λ log. state.bot.done log r) r
    pure acted

module _ (serde : Serde) (windows : Bool) (state : State) where
  -- The arms that send end alike: the request, the mirror, and the answer.
  abbrev pub send : Request → Option String → Option String → Option ℤ → Tool Answer
  send r text media_kind reply_to = do
    sent ← ask (λ log. state.bot.sent log r) r
    mirror_outbound serde sent text media_kind reply_to
    pure (output_of sent)

  unfoldable pub call_send_message : SendMessageInput → Tool Answer
  call_send_message input = do
    chat_id ← resolve_chat state.aliases input.chat
    check_send_allowed state.allowed_send_targets chat_id
    parse_mode ← decode_parse_mode input.parse_mode
    send
        (send_message chat_id input.text parse_mode input.reply_to (unwrap_or false input.silent)
          (unwrap_or true input.link_preview))
        (some input.text) none input.reply_to

  unfoldable pub call_send_photo : SendPhotoInput → Tool Answer
  call_send_photo input = do
    chat_id ← resolve_chat state.aliases input.chat
    check_send_allowed state.allowed_send_targets chat_id
    path ← resolve_path windows input.path state.file_root
    pm ← decode_parse_mode input.parse_mode
    send (send_photo_path chat_id path input.caption pm) input.caption (some "photo") none

  unfoldable pub call_send_document : SendDocumentInput → Tool Answer
  call_send_document input = do
    chat_id ← resolve_chat state.aliases input.chat
    check_send_allowed state.allowed_send_targets chat_id
    path ← resolve_path windows input.path state.file_root
    send (send_document_path chat_id path input.caption input.filename) input.caption
        (some "document") none

  unfoldable pub call_edit_message : EditMessageInput → Tool Answer
  call_edit_message input = do
    chat_id ← resolve_chat state.aliases input.chat
    check_send_allowed state.allowed_send_targets chat_id
    pm ← decode_parse_mode input.parse_mode
    send (edit_message_text chat_id input.message_id input.text pm) (some input.text) none none

  unfoldable pub call_forward_message : ForwardMessageInput → Tool Answer
  call_forward_message input = do
    from_chat ← resolve_chat state.aliases input.from_chat
    to_chat ← resolve_chat state.aliases input.to_chat
    check_send_allowed state.allowed_send_targets to_chat
    send (forward_message from_chat input.message_id to_chat) none none none

unfoldable pub history_list_chats : Tool Answer
history_list_chats = do l ← store list_chats; pure (chats l)

unfoldable pub history_get_chat : State → GetChatInput → Tool Answer
history_get_chat state input = do
  chat_id ← resolve_chat state.aliases input.chat
  c ← store (get_chat chat_id)
  pure (chat c)

unfoldable pub history_mark_read : State → MarkReadInput → Tool Answer
history_mark_read state input = do
  chat_id ← resolve_chat state.aliases input.chat
  store (mark_read chat_id input.up_to_message_id)
  pure (baseline chat_id input.up_to_message_id)

unfoldable pub history_search : Fts → State → HistorySearchInput → Tool Answer
history_search fts state input = do
  chat_id ← resolve_optional state input.chat
  found ← store (search fts input.query chat_id input.since input.until)
  pure (hits found)

module _ (serde : Serde) (state : State) where
  unfoldable pub history_messages : HistoryMessagesInput → Tool Answer
  history_messages input = do
    chat_id ← resolve_chat state.aliases input.chat
    msgs ← store (
        messages serde chat_id input.before_message_id input.after_message_id
          (clamp_limit input.limit))
    pure (page msgs)

  unfoldable pub history_get_message : GetMessageInput → Tool Answer
  history_get_message input = do
    chat_id ← resolve_chat state.aliases input.chat
    m ← store (get_message serde chat_id input.message_id)
    pure (message m)

  unfoldable pub history_download : Bool → DownloadInput → Tool Answer
  history_download windows input = do
    chat_id ← resolve_chat state.aliases input.chat
    dest ← resolve_path windows input.dest_path state.file_root
    m ← store (get_message serde chat_id input.message_id)
    file_id ← require m.media_file_id
    let r = download_file file_id dest
    n ← ask (λ log. state.bot.bytes log r) r
    pure (downloaded dest n)

-- The tool's name and its decoded arguments; `unknown` is a name that no tool has.
pub data ToolCall : Type 0 where
  tg_bot_whoami tg_bot_list_aliases tg_history_list_chats : ToolCall
  tg_send_message : SendMessageInput → ToolCall
  tg_send_photo : SendPhotoInput → ToolCall
  tg_send_document : SendDocumentInput → ToolCall
  tg_edit_message : EditMessageInput → ToolCall
  tg_delete_message : DeleteMessageInput → ToolCall
  tg_forward_message : ForwardMessageInput → ToolCall
  tg_send_chat_action : ChatActionInput → ToolCall
  tg_history_get_chat : GetChatInput → ToolCall
  tg_history_messages : HistoryMessagesInput → ToolCall
  tg_history_search : HistorySearchInput → ToolCall
  tg_history_get_message : GetMessageInput → ToolCall
  tg_history_mark_read : MarkReadInput → ToolCall
  tg_history_download : DownloadInput → ToolCall
  unknown : String → ToolCall

module _ (serde : Serde) (fts : Fts) (windows : Bool) (state : State) where
  unfoldable pub call_tool : ToolCall → Tool Answer
  call_tool tg_bot_whoami = bot_whoami state
  call_tool tg_bot_list_aliases = bot_list_aliases state
  call_tool tg_history_list_chats = history_list_chats
  call_tool (tg_send_message input) = call_send_message serde windows state input
  call_tool (tg_send_photo input) = call_send_photo serde windows state input
  call_tool (tg_send_document input) = call_send_document serde windows state input
  call_tool (tg_edit_message input) = call_edit_message serde windows state input
  call_tool (tg_delete_message input) = call_delete_message state input
  call_tool (tg_forward_message input) = call_forward_message serde windows state input
  call_tool (tg_send_chat_action input) = call_send_chat_action state input
  call_tool (tg_history_get_chat input) = history_get_chat state input
  call_tool (tg_history_messages input) = history_messages serde state input
  call_tool (tg_history_search input) = history_search fts state input
  call_tool (tg_history_get_message input) = history_get_message serde state input
  call_tool (tg_history_mark_read input) = history_mark_read state input
  call_tool (tg_history_download input) = history_download serde state windows input
  call_tool (unknown name) = require none
