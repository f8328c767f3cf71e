-- ===== src/TgClient/Methods.antt =====
-- The methods of `TgClient` that go through `teloxide`, in crates/tg-client/src/client.rs: the request
-- that each builds, and what it makes of the answer. What `teloxide` does with a request is a
-- parameter.
use telegram_mcpvscode.Prelude.{
  String, ℕ, ℤ, negsuc, Bool, true, not, Option, none, some, if◌then◌else◌,
}
use telegram_mcpvscode.Prelude.Word.{as_i32, as_i64}
use telegram_mcpvscode.TgClient.Types.{
  TgClientError, rate_limited, teloxide, SentMessage, BotIdentity, ParseMode, ChatAction, Reply,
  answered, refused,
}
use telegram_mcpvscode.McpServer.FilePaths.{FilePath}

-- `sendMessage`; a field that is not set is left to the API.
pub record SendMessage : Type 0 where
  pub chat_id : ℤ
  pub text : String
  pub parse_mode : Option ParseMode
  pub reply_parameters : Option ℤ
  pub disable_notification : Option Bool
  pub link_preview_disabled : Option Bool

pub record EditMessageText : Type 0 where
  pub chat_id : ℤ
  pub message_id : ℤ
  pub text : String
  pub parse_mode : Option ParseMode

pub record SendPhoto : Type 0 where
  pub chat_id : ℤ
  pub photo : FilePath
  pub caption : Option String
  pub parse_mode : Option ParseMode

pub record InputFile : Type 0 where
  pub path : FilePath
  pub file_name : Option String

pub record SendDocument : Type 0 where
  pub chat_id : ℤ
  pub document : InputFile
  pub caption : Option String

pub data Call : Type 0 where
  get_me : Call
  send_message : SendMessage → Call
  edit_message_text : EditMessageText → Call
  delete_message : ℤ → ℤ → Call
  forward_message : ℤ → ℤ → ℤ → Call
  send_chat_action : ℤ → ChatAction → Call
  send_photo : SendPhoto → Call
  send_document : SendDocument → Call

-- `teloxide::RequestError`; all but two of its variants are one here.
pub data RequestError : Type 0 where
  retry_after : ℕ → RequestError
  api : String → RequestError
  other : RequestError

pub data Response (A : Type 0) : Type 0 where
  received : A → Response A
  failed : RequestError → Response A

-- The fields of a message, and of a user, that the methods read; the id of a message is an `i32`.
pub record Message : Type 0 where
  pub chat_id : ℤ
  pub id : ℤ
  pub date : ℤ

-- The id of a user is a `u64`.
pub record Me : Type 0 where
  pub id : ℕ
  pub username : Option String
  pub first_name : String

pub record Teloxide : Type 0 where
  pub message : Call → Response Message
  pub done : Call → Response (Unit {0})
  pub me : Call → Response Me

unfoldable pub map_teloxide_err : RequestError → TgClientError
map_teloxide_err (retry_after seconds) = rate_limited seconds
map_teloxide_err (RequestError.api description) = TgClientError.api (negsuc 0) description
map_teloxide_err other = teloxide

abbrev pub reply_of : {A B : Type 0} → (A → B) → Response A → Reply B
reply_of f (received a) = answered (f a)
reply_of f (failed e) = refused (map_teloxide_err e)

unfoldable pub sent_message : Message → SentMessage
sent_message m = record { chat_id = m.chat_id; message_id = m.id; date = m.date }

-- The steps that build a `sendMessage`.
abbrev with_reply : Option ℤ → SendMessage → SendMessage
with_reply none req = req
with_reply (some rid) req = record req { reply_parameters = some (as_i32 rid) }

abbrev with_silent : Bool → SendMessage → SendMessage
with_silent silent req = if silent then record req { disable_notification = some true } else req

abbrev with_preview : Bool → SendMessage → SendMessage
with_preview enabled req =
    if not enabled then record req { link_preview_disabled = some true } else req

abbrev new_message : ℤ → String → Option ParseMode → SendMessage
new_message chat_id text parse_mode = record {
  chat_id = chat_id;
  text = text;
  parse_mode = parse_mode;
  reply_parameters = none;
  disable_notification = none;
  link_preview_disabled = none;
}

unfoldable pub send_message_call : ℤ → String → Option ParseMode → Option ℤ → Bool → Bool → Call
send_message_call chat_id text parse_mode reply_to silent link_preview_enabled = send_message (
    with_preview link_preview_enabled
      (with_silent silent (with_reply reply_to (new_message chat_id text parse_mode))))

unfoldable pub edit_message_call : ℤ → ℤ → String → Option ParseMode → Call
edit_message_call chat_id message_id text parse_mode = edit_message_text (record {
  chat_id = chat_id;
  message_id = as_i32 message_id;
  text = text;
  parse_mode = parse_mode;
})

unfoldable pub delete_message_call : ℤ → ℤ → Call
delete_message_call chat_id message_id = delete_message chat_id (as_i32 message_id)

unfoldable pub forward_message_call : ℤ → ℤ → ℤ → Call
forward_message_call from_chat message_id to_chat =
    forward_message to_chat from_chat (as_i32 message_id)

unfoldable pub send_photo_call : ℤ → FilePath → Option String → Option ParseMode → Call
send_photo_call chat_id path caption parse_mode =
    send_photo
      (record { chat_id = chat_id; photo = path; caption = caption; parse_mode = parse_mode })

unfoldable pub send_document_call : ℤ → FilePath → Option String → Option String → Call
send_document_call chat_id path caption filename = send_document (record {
  chat_id = chat_id;
  document = record { path = path; file_name = filename };
  caption = caption;
})

abbrev identity_of : Me → BotIdentity
identity_of me = record { id = as_i64 me.id; username = me.username; first_name = me.first_name }

module _ (bot : Teloxide) where
  abbrev pub sent_by : Call → Reply SentMessage
  sent_by call = reply_of sent_message (bot.message call)

  abbrev pub done_by : Call → Reply (Unit {0})
  done_by call = reply_of (λ u. u) (bot.done call)

  unfoldable pub me_by : Reply BotIdentity
  me_by = reply_of identity_of (bot.me get_me)
