-- ===== src/McpServer/Wire.antt =====
-- What a tool of crates/mcp-server/src/main.rs runs in: the Bot API client, whose answers are a
-- parameter and whose requests are logged, the history, and the errors of
-- crates/mcp-server/src/error.rs.
use telegram_mcpvscode.Prelude.{String, ℕ, ℤ, Bool, Option, none, some, List, ◌∷◌}
use telegram_mcpvscode.TgClient.Types.{
  TgClientError, http, api, rate_limited, unknown_alias, invalid_chat, invalid_url, teloxide,
  download, SentMessage, BotIdentity, ParseMode, ChatAction, Reply, answered, refused,
}
use telegram_mcpvscode.History.Types.{HistoryError, not_found, corruption}
use telegram_mcpvscode.History.Conn.{Conn, Action}
use telegram_mcpvscode.History.Conn
use telegram_mcpvscode.McpServer.FilePaths.{FilePath}

-- The texts of the errors are left out.
pub data McpError : Type 0 where
  invalid_params internal_error : McpError

unfoldable pub client_err_to_mcp : TgClientError → McpError
client_err_to_mcp http = internal_error
client_err_to_mcp teloxide = internal_error
client_err_to_mcp (download reason) = internal_error
client_err_to_mcp (api code description) = invalid_params
client_err_to_mcp (rate_limited secs) = invalid_params
client_err_to_mcp (unknown_alias name) = invalid_params
client_err_to_mcp (invalid_chat reason) = invalid_params
client_err_to_mcp invalid_url = invalid_params

unfoldable pub history_err_to_mcp : HistoryError → McpError
history_err_to_mcp (not_found chat_id message_id) = invalid_params
history_err_to_mcp (corruption reason) = invalid_params
history_err_to_mcp _ = internal_error

-- A call of the client, with its arguments.
pub data Request : Type 0 where
  get_me : Request
  send_message : ℤ → String → Option ParseMode → Option ℤ → Bool → Bool → Request
  send_photo_path : ℤ → FilePath → Option String → Option ParseMode → Request
  send_document_path : ℤ → FilePath → Option String → Option String → Request
  edit_message_text : ℤ → ℤ → String → Option ParseMode → Request
  delete_message : ℤ → ℤ → Request
  forward_message : ℤ → ℤ → ℤ → Request
  send_chat_action : ℤ → ChatAction → Request
  download_file : String → FilePath → Request

-- What the client answers to a request, given the requests before it.
pub record Bot : Type 0 where
  pub identity : List Request → Reply BotIdentity
  pub sent : List Request → Request → Reply SentMessage
  pub done : List Request → Request → Reply (Unit {0})
  pub bytes : List Request → Request → Reply ℕ

-- The history, and the requests so far, the last one first.
pub record World : Type 0 where
  pub conn : Conn
  pub requests : List Request

pub data Result (A : Type 0) : Type 0 where
  ok : A → Result A
  err : McpError → Result A

abbrev pub Tool : Type 0 → Type 0
Tool A = World → Result A × World

module _ {A : Type 0} where
  abbrev pub pure : A → Tool A
  pure a w = (ok a, w)

  abbrev pub require : Option A → Tool A
  require none w = (err invalid_params, w)
  require (some a) w = (ok a, w)

  abbrev of_reply : Reply A → Result A
  of_reply (answered a) = ok a
  of_reply (refused e) = err (client_err_to_mcp e)

  abbrev pub ask : (List Request → Reply A) → Request → Tool A
  ask reply r w = (of_reply (reply w.requests), record w { requests = r ∷ w.requests })

  abbrev pub of_result : Conn.Result A → Result A
  of_result (Conn.ok a) = ok a
  of_result (Conn.err e) = err (history_err_to_mcp e)

  abbrev pub store : Action A → Tool A
  store m w = (of_result (m w.conn).0, record w { conn = (m w.conn).1 })

module _ {A B : Type 0} where
  abbrev pub proceed : (A → Tool B) → Result A → Tool B
  proceed f (ok a) w = f a w
  proceed f (err e) w = (err e, w)

  infixl 5 ◌>>=◌
  abbrev pub ◌>>=◌ : Tool A → (A → Tool B) → Tool B
  ◌>>=◌ m f w = proceed f (m w).0 (m w).1

infixl 5 ◌>>◌
abbrev pub ◌>>◌ : {B : Type 0} → Tool (Unit {0}) → Tool B → Tool B
m >> k = m >>= λ _. k
