-- ===== src/McpServer/Registry.antt =====
-- `list_tools` and the dispatch of `call_tool` in crates/mcp-server/src/main.rs: the table of the
-- tools, by name and by the type whose schema it shows, and the decoding of a request's arguments.
-- How serde decodes a document as one of these types is a parameter.
pub mod Served
use telegram_mcpvscode.Prelude.{
  String, Bool, Option, none, some, List, [], ◌∷◌, str_eq, if◌then◌else◌,
}
use telegram_mcpvscode.Prelude.Options.{unwrap_or}
use telegram_mcpvscode.Json.{Value, obj, end}
use telegram_mcpvscode.Json.Serde.{Serde}
use telegram_mcpvscode.History.Listing.{Fts}
use telegram_mcpvscode.McpServer.Inputs.{
  SendMessageInput, SendPhotoInput, SendDocumentInput, EditMessageInput, DeleteMessageInput,
  ForwardMessageInput, ChatActionInput, GetChatInput, HistoryMessagesInput, HistorySearchInput,
  GetMessageInput, MarkReadInput, DownloadInput,
}
use telegram_mcpvscode.McpServer.Wire.{Tool, require}
use telegram_mcpvscode.McpServer.Tools.{State, Answer}
use telegram_mcpvscode.McpServer.Calls.{
  ToolCall, call_tool, tg_bot_whoami, tg_bot_list_aliases, tg_send_message, tg_send_photo,
  tg_send_document, tg_edit_message, tg_delete_message, tg_forward_message, tg_send_chat_action,
  tg_history_list_chats, tg_history_get_chat, tg_history_messages, tg_history_search,
  tg_history_get_message, tg_history_mark_read, tg_history_download, unknown,
}

-- The types of tools_io.rs that a tool takes.
pub data InputType : Type 0 where
  bot_whoami_input list_aliases_input send_message_input send_photo_input send_document_input
        edit_message_input delete_message_input forward_message_input chat_action_input
        list_chats_input get_chat_input history_messages_input history_search_input
        get_message_input mark_read_input download_input :
      InputType

-- Those with no field have one value.
abbrev pub Input : InputType → Type 0
Input bot_whoami_input = Unit {0}
Input list_aliases_input = Unit {0}
Input send_message_input = SendMessageInput
Input send_photo_input = SendPhotoInput
Input send_document_input = SendDocumentInput
Input edit_message_input = EditMessageInput
Input delete_message_input = DeleteMessageInput
Input forward_message_input = ForwardMessageInput
Input chat_action_input = ChatActionInput
Input list_chats_input = Unit {0}
Input get_chat_input = GetChatInput
Input history_messages_input = HistoryMessagesInput
Input history_search_input = HistorySearchInput
Input get_message_input = GetMessageInput
Input mark_read_input = MarkReadInput
Input download_input = DownloadInput

-- The entries of `list_tools`, less the descriptions.
unfoldable pub list_tools : List (String × InputType)
list_tools =
    ("tg_bot_whoami", bot_whoami_input)
    ∷ ("tg_bot_list_aliases", list_aliases_input)
    ∷ ("tg_send_message", send_message_input)
    ∷ ("tg_send_photo", send_photo_input)
    ∷ ("tg_send_document", send_document_input)
    ∷ ("tg_edit_message", edit_message_input)
    ∷ ("tg_delete_message", delete_message_input)
    ∷ ("tg_forward_message", forward_message_input)
    ∷ ("tg_send_chat_action", chat_action_input)
    ∷ ("tg_history_list_chats", list_chats_input)
    ∷ ("tg_history_get_chat", get_chat_input)
    ∷ ("tg_history_messages", history_messages_input)
    ∷ ("tg_history_search", history_search_input)
    ∷ ("tg_history_get_message", get_message_input)
    ∷ ("tg_history_mark_read", mark_read_input)
    ∷ ("tg_history_download", download_input)
    ∷ []

-- A request that is decoded, or refused as invalid.
pub data Decoded : Type 0 where
  call : ToolCall → Decoded
  invalid_arguments : Decoded

module _ (from_value : (t : InputType) → Value → Option (Input t)) where
  abbrev pub decoded : (t : InputType) → (Input t → ToolCall) → Option (Input t) → Decoded
  decoded t made none = invalid_arguments
  decoded t made (some input) = call (made input)

  -- `parse_args`: no arguments are those of the empty object.
  abbrev pub parse_args : (t : InputType) → (Input t → ToolCall) → Option Value → Decoded
  parse_args t made args = decoded t made (from_value t (unwrap_or (obj end) args))

  unfoldable pub dispatch : String → Option Value → Decoded
  dispatch name args =
      if str_eq name "tg_bot_whoami"
      then parse_args bot_whoami_input (λ _. tg_bot_whoami) args
      else if str_eq name "tg_bot_list_aliases"
      then parse_args list_aliases_input (λ _. tg_bot_list_aliases) args
      else if str_eq name "tg_send_message"
      then parse_args send_message_input tg_send_message args
      else if str_eq name "tg_send_photo"
      then parse_args send_photo_input tg_send_photo args
      else if str_eq name "tg_send_document"
      then parse_args send_document_input tg_send_document args
      else if str_eq name "tg_edit_message"
      then parse_args edit_message_input tg_edit_message args
      else if str_eq name "tg_delete_message"
      then parse_args delete_message_input tg_delete_message args
      else if str_eq name "tg_forward_message"
      then parse_args forward_message_input tg_forward_message args
      else if str_eq name "tg_send_chat_action"
      then parse_args chat_action_input tg_send_chat_action args
      else if str_eq name "tg_history_list_chats"
      then parse_args list_chats_input (λ _. tg_history_list_chats) args
      else if str_eq name "tg_history_get_chat"
      then parse_args get_chat_input tg_history_get_chat args
      else if str_eq name "tg_history_messages"
      then parse_args history_messages_input tg_history_messages args
      else if str_eq name "tg_history_search"
      then parse_args history_search_input tg_history_search args
      else if str_eq name "tg_history_get_message"
      then parse_args get_message_input tg_history_get_message args
      else if str_eq name "tg_history_mark_read"
      then parse_args mark_read_input tg_history_mark_read args
      else if str_eq name "tg_history_download"
      then parse_args download_input tg_history_download args
      else call (unknown name)

  abbrev pub answered : Serde → Fts → Bool → State → Decoded → Tool Answer
  answered serde fts windows state (call c) = call_tool serde fts windows state c
  answered serde fts windows state invalid_arguments = require none

  -- A request by name, from its arguments on.
  unfoldable pub handle : Serde → Fts → Bool → State → String → Option Value → Tool Answer
  unfolding dispatch
  handle serde fts windows state name args = answered serde fts windows state (dispatch name args)
