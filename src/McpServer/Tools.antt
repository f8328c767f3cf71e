-- ===== src/McpServer/Tools.antt =====
-- The helpers that the tools of crates/mcp-server/src/main.rs share, and what the tools answer.
use Prim.Native.Char.{code}
use telegram_mcpvscode.Prelude.{
  String, ℕ, ◌+◌, ℤ, pos, Bool, true, false, ◌&&◌, Option, none, some, List, leb, ◌==◌, str_eq,
  eqb_ℤ, ltb_ℤ, if◌then◌else◌,
}
use telegram_mcpvscode.Prelude.Lists.{any_by}
use telegram_mcpvscode.Json.{obj, field, end, bool}
use telegram_mcpvscode.Json.Serde.{Serde}
use telegram_mcpvscode.Aliases.{ChatRef, Aliases, Resolved, resolve, as_map}
use telegram_mcpvscode.Aliases
use telegram_mcpvscode.TgClient.Types.{
  SentMessage, BotIdentity, ParseMode, markdown_v2, html, ChatAction, typing, upload_photo,
  record_video, upload_video, record_voice, upload_voice, upload_document, find_location,
  record_video_note, upload_video_note,
}
use telegram_mcpvscode.History.Types.{ChatInfo, ChatSummary, StoredMessage, SearchHit, outgoing}
use telegram_mcpvscode.History.Conn.{Action}
use telegram_mcpvscode.History.Conn
use telegram_mcpvscode.History.Store.{touch_chat_last_seen, insert_message}
use telegram_mcpvscode.McpServer.FilePaths.{FilePath, Resolution, resolve_file_path}
use telegram_mcpvscode.McpServer.FilePaths
use telegram_mcpvscode.McpServer.Inputs.{SendMessageOutput}
use telegram_mcpvscode.McpServer.Wire.{Bot, Tool, pure, require, ◌>>=◌, store}

pub record State : Type 0 where
  pub bot : Bot
  pub aliases : Aliases
  pub allowed_send_targets : Option (List ℤ)
  pub file_root : Option FilePath

abbrev pub resolved : Resolved → Tool ℤ
resolved (Aliases.ok chat_id) = pure chat_id
resolved (Aliases.err e) = require none

abbrev pub resolve_chat : Aliases → ChatRef → Tool ℤ
resolve_chat aliases r = resolved (resolve aliases r)

abbrev pub is_target : List ℤ → ℤ → Bool
is_target list chat_id = any_by (λ c. eqb_ℤ c chat_id) list

unfoldable pub check_send_allowed : Option (List ℤ) → ℤ → Tool (Unit {0})
unfolding any_by
check_send_allowed none chat_id = pure tt
check_send_allowed (some list) chat_id = if is_target list chat_id then pure tt else require none

abbrev pub path_of : Resolution → Tool FilePath
path_of (FilePaths.ok q) = pure q
path_of (FilePaths.err e) = require none

-- `resolve_file_path`, with its error reported to the caller.
abbrev pub resolve_path : Bool → FilePath → Option FilePath → Tool FilePath
resolve_path windows p root = path_of (resolve_file_path windows p root)

-- `to_ascii_lowercase` gives the text on the right.
unfoldable pub lowers_to : String → String → Bool
lowers_to String.[] String.[] = true
lowers_to (String.◌∷◌ c s) (String.◌∷◌ d t) =
    let n = code c in ((if leb 65 n && leb n 90 then n + 32 else n) == code d) && lowers_to s t
lowers_to _ _ = false

unfoldable pub parse_parse_mode : String → Option ParseMode
unfolding lowers_to
parse_parse_mode s =
    if lowers_to s "markdown"
    then some markdown_v2
    else if lowers_to s "markdownv2"
    then some markdown_v2
    else if lowers_to s "html"
    then some html
    else none

abbrev pub decode_parse_mode : Option String → Tool (Option ParseMode)
decode_parse_mode none = pure none
decode_parse_mode (some v) = do m ← require (parse_parse_mode v); pure (some m)

unfoldable pub chat_action_from_str : String → Option ChatAction
chat_action_from_str s =
    if str_eq s "typing"
    then some typing
    else if str_eq s "upload_photo"
    then some upload_photo
    else if str_eq s "record_video"
    then some record_video
    else if str_eq s "upload_video"
    then some upload_video
    else if str_eq s "record_voice"
    then some record_voice
    else if str_eq s "upload_voice"
    then some upload_voice
    else if str_eq s "upload_document"
    then some upload_document
    else if str_eq s "find_location"
    then some find_location
    else if str_eq s "record_video_note"
    then some record_video_note
    else if str_eq s "upload_video_note"
    then some upload_video_note
    else none

-- `clamp(1, 500)`
abbrev pub clamp_limit : ℤ → ℤ
clamp_limit limit =
    if ltb_ℤ limit (pos 1) then pos 1 else if ltb_ℤ (pos 500) limit then pos 500 else limit

-- The payload that `ok_json` prints.
pub data Answer : Type 0 where
  identity : BotIdentity → Answer
  aliases : List (String × ℤ) → Answer
  sent : SendMessageOutput → Answer
  deleted : ℤ → ℤ → Answer
  acted : Answer
  chats : List ChatSummary → Answer
  chat : Option ChatInfo → Answer
  page : List StoredMessage → Answer
  hits : List SearchHit → Answer
  message : StoredMessage → Answer
  baseline : ℤ → ℤ → Answer
  downloaded : FilePath → ℕ → Answer

abbrev pub output_of : SentMessage → Answer
output_of m = sent (record { chat_id = m.chat_id; message_id = m.message_id; date = m.date })

-- The row that history keeps of a message that was sent.
abbrev pub outbound : SentMessage → Option String → Option String → Option ℤ → StoredMessage
outbound m text media_kind reply_to = record {
  chat_id = m.chat_id;
  message_id = m.message_id;
  date = m.date;
  from_id = none;
  from_name = none;
  reply_to = reply_to;
  text = text;
  media_kind = media_kind;
  media_file_id = none;
  media_meta = none;
  direction = outgoing;
  raw = obj (field "outbound" (bool true) end);
}

module _ (serde : Serde) where
  abbrev pub mirror_action :
      SentMessage → Option String → Option String → Option ℤ → Action (Unit {0})
  mirror_action m text media_kind reply_to =
      Conn.◌>>◌ (touch_chat_last_seen m.chat_id m.date)
        (insert_message serde (outbound m text media_kind reply_to))

  abbrev pub mirror_outbound :
      SentMessage → Option String → Option String → Option ℤ → Tool (Unit {0})
  mirror_outbound m text media_kind reply_to = store (mirror_action m text media_kind reply_to)
