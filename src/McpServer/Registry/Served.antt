-- ===== src/McpServer/Registry/Served.antt =====
-- That the table of the tools and the dispatch of their calls agree.
use telegram_mcpvscode.Prelude.{
  String, Bool, ◌⊎◌, true, Option, none, some, List, [], ◌∷◌, ◌≡◌, refl, sym, ◌∙◌, inl, inr, str_eq,
  eq_iff, Bool-cases, if◌then◌else◌,
}
use telegram_mcpvscode.Prelude.Options.{unwrap_or}
use telegram_mcpvscode.Json.{Value, obj, end}
use telegram_mcpvscode.Json.Serde.{Serde}
use telegram_mcpvscode.History.Listing.{Fts}
use telegram_mcpvscode.McpServer.Wire.{Tool, require}
use telegram_mcpvscode.McpServer.Tools.{State, Answer}
use telegram_mcpvscode.McpServer.Calls.{
  ToolCall, call_tool, tg_bot_whoami, tg_bot_list_aliases, tg_send_message, tg_send_photo,
  tg_send_document, tg_edit_message, tg_delete_message, tg_forward_message, tg_send_chat_action,
  tg_history_list_chats, tg_history_get_chat, tg_history_messages, tg_history_search,
  tg_history_get_message, tg_history_mark_read, tg_history_download, unknown,
}
use telegram_mcpvscode.McpServer.Registry.{
  InputType, bot_whoami_input, list_aliases_input, send_message_input, send_photo_input,
  send_document_input, edit_message_input, delete_message_input, forward_message_input,
  chat_action_input, list_chats_input, get_chat_input, history_messages_input, history_search_input,
  get_message_input, mark_read_input, download_input, Input, list_tools, Decoded, call,
  invalid_arguments, decoded, parse_args, dispatch, answered, handle,
}

-- The name of the tool that a call is of, if it is of one.
abbrev pub tool_name : ToolCall → String
tool_name tg_bot_whoami = "tg_bot_whoami"
tool_name tg_bot_list_aliases = "tg_bot_list_aliases"
tool_name (tg_send_message input) = "tg_send_message"
tool_name (tg_send_photo input) = "tg_send_photo"
tool_name (tg_send_document input) = "tg_send_document"
tool_name (tg_edit_message input) = "tg_edit_message"
tool_name (tg_delete_message input) = "tg_delete_message"
tool_name (tg_forward_message input) = "tg_forward_message"
tool_name (tg_send_chat_action input) = "tg_send_chat_action"
tool_name tg_history_list_chats = "tg_history_list_chats"
tool_name (tg_history_get_chat input) = "tg_history_get_chat"
tool_name (tg_history_messages input) = "tg_history_messages"
tool_name (tg_history_search input) = "tg_history_search"
tool_name (tg_history_get_message input) = "tg_history_get_message"
tool_name (tg_history_mark_read input) = "tg_history_mark_read"
tool_name (tg_history_download input) = "tg_history_download"
tool_name (unknown name) = ""

-- The call of the tool that takes a type, with the whole of its input.
abbrev pub call_of : (t : InputType) → Input t → ToolCall
call_of bot_whoami_input input = tg_bot_whoami
call_of list_aliases_input input = tg_bot_list_aliases
call_of send_message_input input = tg_send_message input
call_of send_photo_input input = tg_send_photo input
call_of send_document_input input = tg_send_document input
call_of edit_message_input input = tg_edit_message input
call_of delete_message_input input = tg_delete_message input
call_of forward_message_input input = tg_forward_message input
call_of chat_action_input input = tg_send_chat_action input
call_of list_chats_input input = tg_history_list_chats
call_of get_chat_input input = tg_history_get_chat input
call_of history_messages_input input = tg_history_messages input
call_of history_search_input input = tg_history_search input
call_of get_message_input input = tg_history_get_message input
call_of mark_read_input input = tg_history_mark_read input
call_of download_input input = tg_history_download input

-- The type that the table shows for a name.
unfoldable pub shown_type : String → List (String × InputType) → Option InputType
shown_type name [] = none
shown_type name ((n, t) ∷ rest) =
    let later = shown_type name rest in if str_eq name n then some t else later

module _ (from_value : (t : InputType) → Value → Option (Input t)) (args : Option Value) where
  abbrev pub Serves : String → Option InputType → Decoded → Type 0
  Serves name none r = r ≡ call (unknown name)
  Serves name (some t) invalid_arguments = from_value t (unwrap_or (obj end) args) ≡ none
  Serves name (some t) (call c) =
      (tool_name c ≡ name)
      × ((input : Input t) × (from_value t (unwrap_or (obj end) args) ≡ some input)
          × (c ≡ call_of t input))

  decoded-Serves :
      (name shown : String) (t : InputType) (made : Input t → ToolCall)
      → ((input : Input t) → (tool_name (made input) ≡ shown) × (made input ≡ call_of t input))
      → str_eq name shown ≡ true
      → Serves name (some t) (parse_args from_value t made args)
  decoded-Serves name shown t made named e = go (from_value t (unwrap_or (obj end) args)) refl
    where
      go :
          (o : Option (Input t))
          → from_value t (unwrap_or (obj end) args) ≡ o
          → Serves name (some t) (decoded from_value t made o)
      go none h = h
      go (some input) h =
          ((named input).0 ∙ sym ((eq_iff name shown).0 e), (input, h, (named input).1))

  -- One arm of the dispatch, over the arms below it.
  arm :
      (name shown : String) (t : InputType) (made : Input t → ToolCall) (later : Option InputType)
      (rest : Decoded)
      → ((input : Input t) → (tool_name (made input) ≡ shown) × (made input ≡ call_of t input))
      → Serves name later rest
      → Serves name
          (if str_eq name shown then some t else later)
          (if str_eq name shown then parse_args from_value t made args else rest)
  arm name shown t made later rest named others = elim (Bool-cases (str_eq name shown)) [
    | inl same ↦ rw same (decoded-Serves name shown t made named same)
    | inr other ↦ rw other others
  ]

  dispatch-Serves :
      (name : String) → Serves name (shown_type name list_tools) (dispatch from_value name args)
  unfolding dispatch list_tools shown_type
  dispatch-Serves name =
      arm name _ _ _ _ _ (λ _. (refl, refl))
        (arm name _ _ _ _ _ (λ _. (refl, refl))
          (arm name _ _ _ _ _ (λ _. (refl, refl))
            (arm name _ _ _ _ _ (λ _. (refl, refl))
              (arm name _ _ _ _ _ (λ _. (refl, refl))
                (arm name _ _ _ _ _ (λ _. (refl, refl))
                  (arm name _ _ _ _ _ (λ _. (refl, refl))
                    (arm name _ _ _ _ _ (λ _. (refl, refl))
                      (arm name _ _ _ _ _ (λ _. (refl, refl))
                        (arm name _ _ _ _ _ (λ _. (refl, refl))
                          (arm name _ _ _ _ _ (λ _. (refl, refl))
                            (arm name _ _ _ _ _ (λ _. (refl, refl))
                              (arm name _ _ _ _ _ (λ _. (refl, refl))
                                (arm name _ _ _ _ _ (λ _. (refl, refl))
                                  (arm name _ _ _ _ _ (λ _. (refl, refl))
                                    (arm name _ _ _ _ _ (λ _. (refl, refl)) (refl))))))))))))))))

  module _ (serde : Serde) (fts : Fts) (windows : Bool) (state : State) where
    -- What the handler does for a name, by the type that the table shows.
    abbrev pub IsHandled : String → Option InputType → Tool Answer → Type 0
    IsHandled name none m = m ≡ require none
    IsHandled name (some t) m =
        ((from_value t (unwrap_or (obj end) args) ≡ none) × (m ≡ require none))
        ⊎ ((c : ToolCall) × (tool_name c ≡ name)
            × (m ≡ call_tool serde fts windows state c)
            × ((input : Input t) × (from_value t (unwrap_or (obj end) args) ≡ some input)
                × (c ≡ call_of t input)))

    answered-IsHandled :
        (name : String) (o : Option InputType) (r : Decoded)
        → Serves name o r
        → IsHandled name o (answered from_value serde fts windows state r)
    unfolding call_tool
    answered-IsHandled name none r e = rw e refl
    answered-IsHandled name (some t) invalid_arguments e = inl (e, refl)
    answered-IsHandled name (some t) (call c) (named, decodes) = inr (c, named, refl, decodes)

    -- A request by a name of the table that `list_tools` gives runs the tool of that name, on the
    -- input that its arguments decode to as the type whose schema the table shows, or they do not
    -- decode, and it is refused with no effect. A request by any other name is refused with no
    -- effect.
    pub handle-IsHandled :
        (name : String)
        → IsHandled name
            (shown_type name list_tools)
            (handle from_value serde fts windows state name args)
    unfolding handle
    handle-IsHandled name =
        answered-IsHandled name (shown_type name list_tools) (dispatch from_value name args)
          (dispatch-Serves name)
