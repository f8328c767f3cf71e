-- ===== src/TgClient/Types.antt =====
-- crates/tg-client/src/error.rs, and the result types of crates/tg-client/src/client.rs.
use telegram_mcpvscode.Prelude.{String, ℕ, ℤ, Option}

-- The payloads of other crates' errors are left out.
pub data TgClientError : Type 0 where
  http : TgClientError
  api : ℤ → String → TgClientError
  rate_limited : ℕ → TgClientError
  unknown_alias : String → TgClientError
  invalid_chat : String → TgClientError
  invalid_url : TgClientError
  teloxide : TgClientError
  download : String → TgClientError

pub record SentMessage : Type 0 where
  pub chat_id : ℤ
  pub message_id : ℤ
  pub date : ℤ

pub record BotIdentity : Type 0 where
  pub id : ℤ
  pub username : Option String
  pub first_name : String

-- What a call of the client gives.
pub data Reply (A : Type 0) : Type 0 where
  answered : A → Reply A
  refused : TgClientError → Reply A

-- The values of `teloxide` that the tools pass on.
pub data ParseMode : Type 0 where
  markdown_v2 html : ParseMode

pub data ChatAction : Type 0 where
  typing upload_photo record_video upload_video record_voice upload_voice : ChatAction
  upload_document find_location record_video_note upload_video_note : ChatAction
