-- ===== src/McpServer/Inputs.antt =====
-- crates/mcp-server/src/tools_io.rs: the inputs of the tools, as `parse_args` decodes them, and the
-- output of the tools that send.
use telegram_mcpvscode.Prelude.{String, ℤ, Bool, Option}
use telegram_mcpvscode.Aliases.{ChatRef}
use telegram_mcpvscode.McpServer.FilePaths.{FilePath}

pub record SendMessageInput : Type 0 where
  pub chat : ChatRef
  pub text : String
  pub parse_mode : Option String
  pub reply_to : Option ℤ
  pub silent : Option Bool
  pub link_preview : Option Bool

pub record SendPhotoInput : Type 0 where
  pub chat : ChatRef
  pub path : FilePath
  pub caption : Option String
  pub parse_mode : Option String

pub record SendDocumentInput : Type 0 where
  pub chat : ChatRef
  pub path : FilePath
  pub caption : Option String
  pub filename : Option String

pub record EditMessageInput : Type 0 where
  pub chat : ChatRef
  pub message_id : ℤ
  pub text : String
  pub parse_mode : Option String

pub record DeleteMessageInput : Type 0 where
  pub chat : ChatRef
  pub message_id : ℤ

pub record ForwardMessageInput : Type 0 where
  pub from_chat : ChatRef
  pub message_id : ℤ
  pub to_chat : ChatRef

pub record ChatActionInput : Type 0 where
  pub chat : ChatRef
  pub action : String

pub record SendMessageOutput : Type 0 where
  pub chat_id : ℤ
  pub message_id : ℤ
  pub date : ℤ

pub record GetChatInput : Type 0 where
  pub chat : ChatRef

pub record HistoryMessagesInput : Type 0 where
  pub chat : ChatRef
  pub before_message_id : Option ℤ
  pub after_message_id : Option ℤ
  pub limit : ℤ

pub record HistorySearchInput : Type 0 where
  pub query : String
  pub chat : Option ChatRef
  pub since : Option ℤ
  pub until : Option ℤ

pub record GetMessageInput : Type 0 where
  pub chat : ChatRef
  pub message_id : ℤ

pub record MarkReadInput : Type 0 where
  pub chat : ChatRef
  pub up_to_message_id : ℤ

pub record DownloadInput : Type 0 where
  pub chat : ChatRef
  pub message_id : ℤ
  pub dest_path : FilePath
