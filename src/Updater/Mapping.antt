-- ===== src/Updater/Mapping.antt =====
-- crates/tg-updater/src/mapping.rs: a Telegram update as a chat and a message to store.
pub mod Consistent
use telegram_mcpvscode.Prelude.{
  String, ◌<>◌, ℤ, pos, Bool, true, false, Option, none, some, List, [], ◌∷◌, str_eq, leb_ℤ,
  if◌then◌else◌, ◌≡◌, refl, arith,
}
use telegram_mcpvscode.Prelude.Options.{◌>>=◌, or_else, unwrap_or}
use telegram_mcpvscode.Prelude.Trim.{trim, is_empty}
use telegram_mcpvscode.Json.{Value, get, as_str, as_i64, as_array}
use telegram_mcpvscode.History.Types.{
  ChatInfo, ChatKind, StoredMessage, Direction, incoming, kind_from_sql,
}

-- `(!trimmed.is_empty()).then(…)`
abbrev unless_empty : String → Option String
unless_empty s = if is_empty s then none else some s

unfoldable pub full_name : Value → Option String
unfolding trim get
full_name v =
    let first = unwrap_or "" (get v "first_name" >>= as_str) in
    let last = unwrap_or "" (get v "last_name" >>= as_str) in
    unless_empty (trim (first <> (" " <> last)))

unfoldable pub file_size : Value → ℤ
unfolding get as_i64
file_size p = unwrap_or (pos 0) (get p "file_size" >>= as_i64)

-- `max_by_key`: the last of the largest.
unfoldable pub largest_of : Value → List Value → Value
unfolding file_size
largest_of best [] = best
largest_of best (p ∷ ps) = largest_of (if leb_ℤ (file_size best) (file_size p) then p else best) ps

unfoldable pub largest : List Value → Option Value
unfolding largest_of
largest [] = none
largest (p ∷ ps) = some (largest_of p ps)

abbrev file_id : Value → Option String
file_id v = get v "file_id" >>= as_str

abbrev photo_media : Option Value → Option String × Option Value
photo_media none = (none, none)
photo_media (some p) = (file_id p, some p)

abbrev pub Media : Type 0
Media = Option String × Option String × Option Value

unfoldable pub media_of : String → Value → Media
unfolding largest get
media_of key v =
    let (id, meta) = photo_media (as_array v >>= largest) in
    if str_eq key "photo" then (some key, id, meta) else (some key, file_id v, some v)

-- The kind of a medium is spelled like its key.
abbrev media_keys : List String
media_keys = "photo" ∷ "document" ∷ "voice" ∷ "video" ∷ "animation" ∷ "audio" ∷ "sticker" ∷ []

unfoldable pub first_media : Value → List String → Media
unfolding media_of get
first_media msg [] = (none, none, none)
first_media msg (key ∷ keys) =
    let rest = first_media msg keys in elim (get msg key) [ none ↦ rest | some v ↦ media_of key v ]

unfoldable pub extract_media : Value → Media
unfolding first_media
extract_media msg = first_media msg media_keys

unfoldable pub message_in : Value → Option Value
unfolding get
message_in update = or_else (get update "message") (
    or_else (get update "edited_message")
      (or_else (get update "channel_post") (get update "edited_channel_post")))

unfoldable pub chat_in : Value → ℤ → Option ChatInfo
unfolding full_name get as_i64
chat_in chat date = do
  chat_id ← get chat "id" >>= as_i64
  type ← get chat "type" >>= as_str
  kind ← kind_from_sql type
  some (record {
    chat_id = chat_id;
    kind = kind;
    title = or_else (get chat "title" >>= as_str) (full_name chat);
    username = get chat "username" >>= as_str;
    first_seen = date;
    last_seen = date;
  })

unfoldable pub map_update : Value → Option (ChatInfo × StoredMessage)
unfolding message_in chat_in full_name extract_media get as_i64
map_update update = do
  msg ← message_in update
  chat ← get msg "chat"
  message_id ← get msg "message_id" >>= as_i64
  date ← get msg "date" >>= as_i64
  chat_info ← chat_in chat date
  let from = get msg "from"
  let media = extract_media msg
  some (
    chat_info,
    record {
      chat_id = chat_info.chat_id;
      message_id = message_id;
      date = date;
      from_id = (from >>= λ f. get f "id") >>= as_i64;
      from_name = from >>= full_name;
      reply_to = (get msg "reply_to_message" >>= λ r. get r "message_id") >>= as_i64;
      text = or_else (get msg "text") (get msg "caption") >>= as_str;
      media_kind = media.0;
      media_file_id = media.1;
      media_meta = media.2;
      direction = incoming;
      raw = update;
    },
  )
