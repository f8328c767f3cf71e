-- ===== src/History/Store.antt =====
-- The operations of `History` in crates/history/src/store.rs, as sequences of statements.
pub mod Inbound
pub mod Written
pub mod Keys
pub mod Index
pub mod Synced
pub mod Retention
pub mod Newest
pub mod Limits
pub mod Reading
pub mod Paging
pub mod Rows
use telegram_mcpvscode.Prelude.{
  String, ◌<>◌, ℕ, ◌+◌, ℤ, Bool, Option, none, some, List, [], ◌∷◌, ltb, if◌then◌else◌, not,
}
use telegram_mcpvscode.Prelude.Text.{show_ℤ}
use telegram_mcpvscode.Json.{Value}
use telegram_mcpvscode.Json.Serde.{Serde}
use telegram_mcpvscode.History.Types.{
  ChatInfo, StoredMessage, json, not_found, corruption, sqlite, direction_as_sql,
  direction_from_sql, kind_from_sql,
}
use telegram_mcpvscode.History.Conn.{
  ChatRow, MessageRow, Db, Result, ok, err, Action, pure, fail, require, ◌>>=◌, ◌>>◌, query,
  execute, statement, transaction,
}
use telegram_mcpvscode.History.Sql.{
  upsert_chat_row, update_last_seen, find_chat, find_message, upsert_message, fts_delete,
  fts_insert, fts_rebuild, delete_where, older_than, overflows, upsert_kv, select_kv, select_page,
}

-- writes

unfoldable pub upsert_chat : ChatInfo → Action (Unit {0})
upsert_chat c = execute (upsert_chat_row c)

unfoldable pub touch_chat_last_seen : ℤ → ℤ → Action (Unit {0})
touch_chat_last_seen chat_id last_seen = execute (update_last_seen chat_id last_seen)

-- The old row leaves the index, with the text that it had.
unfoldable pub unindex : Option MessageRow → Action (Unit {0})
unindex none = pure tt
unindex (some r) = execute (fts_delete r.rowid r.text)

-- The rowid is the table's business.
abbrev pub row_of : StoredMessage → Option String → String → MessageRow
row_of m media_meta raw = record {
  rowid = 0;
  chat_id = m.chat_id;
  message_id = m.message_id;
  date = m.date;
  from_id = m.from_id;
  from_name = m.from_name;
  reply_to = m.reply_to;
  text = m.text;
  media_kind = m.media_kind;
  media_file_id = m.media_file_id;
  media_meta = media_meta;
  direction = direction_as_sql m.direction;
  raw = raw;
}

unfoldable pub write_row : MessageRow → Action (Unit {0})
unfolding unindex
write_row row = do
  existing ← query (find_message row.chat_id row.message_id)
  unindex existing
  execute (upsert_message row)
  execute (fts_insert row.chat_id row.message_id)

module _ (serde : Serde) where
  unfoldable pub encode_meta : Option Value → Option (Option String)
  encode_meta none = some none
  encode_meta (some v) = elim (serde.to_string v) [ none ↦ none | some s ↦ some (some s) ]

  unfoldable pub insert_message_sync : StoredMessage → Action (Unit {0})
  unfolding encode_meta
  insert_message_sync m = do
    media_meta_s ← require json (encode_meta m.media_meta)
    raw_s ← require json (serde.to_string m.raw)
    write_row (row_of m media_meta_s raw_s)

  unfoldable pub insert_message : StoredMessage → Action (Unit {0})
  insert_message m = transaction (insert_message_sync m)

  unfoldable pub record_inbound : ChatInfo → StoredMessage → Action (Unit {0})
  record_inbound chat msg = transaction (do upsert_chat chat; insert_message_sync msg)

unfoldable pub kv_put : String → String → Action (Unit {0})
kv_put key value = execute (upsert_kv key value)

abbrev pub baseline_key : ℤ → String
baseline_key chat_id = "last_unread_baseline:" <> show_ℤ chat_id

unfoldable pub mark_read : ℤ → ℤ → Action (Unit {0})
unfolding kv_put
mark_read chat_id up_to_message_id = kv_put (baseline_key chat_id) (show_ℤ up_to_message_id)

-- retention

unfoldable pub delete_messages_before : ℤ → Action ℕ
delete_messages_before cutoff = statement (delete_where (older_than cutoff))

unfoldable pub delete_per_chat_overflow : ℤ → Action ℕ
delete_per_chat_overflow keep_newest =
    statement (λ db. delete_where (overflows keep_newest db.messages) db)

unfoldable pub rebuild_fts : Action (Unit {0})
rebuild_fts = execute fts_rebuild

unfoldable pub trim_older_than : ℤ → Action ℕ
unfolding delete_messages_before rebuild_fts
trim_older_than cutoff = do removed ← delete_messages_before cutoff; rebuild_fts; pure removed

unfoldable pub trim_per_chat_to : ℤ → Action ℕ
unfolding delete_per_chat_overflow rebuild_fts
trim_per_chat_to keep_newest = do
  removed ← delete_per_chat_overflow keep_newest
  rebuild_fts
  pure removed

-- A limit that is not set deletes nothing.
unfoldable pub when_set : (ℤ → Action ℕ) → Option ℤ → Action ℕ
when_set trim none = pure 0
when_set trim (some limit) = trim limit

unfoldable pub enforce_retention : Option ℤ → Option ℤ → Action (ℕ × ℕ)
unfolding when_set delete_messages_before delete_per_chat_overflow rebuild_fts
enforce_retention max_age_cutoff keep_per_chat = transaction (do
  aged_out ← when_set delete_messages_before max_age_cutoff
  overflowed ← when_set delete_per_chat_overflow keep_per_chat
  if ltb 0 (aged_out + overflowed) then rebuild_fts else pure tt
  pure (aged_out, overflowed))

-- reads

unfoldable pub kv_get : String → Action (Option String)
kv_get key = query (select_kv key)

-- A kind that `from_sql` does not know is reported as an SQLite error.
unfoldable pub chat_of_row : ChatRow → Action ChatInfo
chat_of_row r = do
  kind ← require sqlite (kind_from_sql r.kind)
  pure (record {
    chat_id = r.chat_id;
    kind = kind;
    title = r.title;
    username = r.username;
    first_seen = r.first_seen;
    last_seen = r.last_seen;
  })

unfoldable pub chat_of_found : Option ChatRow → Action (Option ChatInfo)
unfolding chat_of_row
chat_of_found none = pure none
chat_of_found (some r) = do c ← chat_of_row r; pure (some c)

unfoldable pub get_chat : ℤ → Action (Option ChatInfo)
unfolding chat_of_found
get_chat chat_id = do row ← query (find_chat chat_id); chat_of_found row

module _ (serde : Serde) where
  unfoldable pub decode_meta : Option String → Action (Option Value)
  decode_meta none = pure none
  decode_meta (some s) = do v ← require json (serde.from_str s); pure (some v)

  unfoldable pub message_of_row : MessageRow → Action StoredMessage
  unfolding decode_meta
  message_of_row r = do
    direction ←
        require (corruption ("bad direction: " <> r.direction)) (direction_from_sql r.direction)
    media_meta ← decode_meta r.media_meta
    raw ← require json (serde.from_str r.raw)
    pure (record {
      chat_id = r.chat_id;
      message_id = r.message_id;
      date = r.date;
      from_id = r.from_id;
      from_name = r.from_name;
      reply_to = r.reply_to;
      text = r.text;
      media_kind = r.media_kind;
      media_file_id = r.media_file_id;
      media_meta = media_meta;
      direction = direction;
      raw = raw;
    })

  unfoldable pub get_message : ℤ → ℤ → Action StoredMessage
  unfolding message_of_row
  get_message chat_id message_id = do
    found ← query (find_message chat_id message_id)
    row ← require (not_found chat_id message_id) found
    message_of_row row

  unfoldable pub messages_of_rows : List MessageRow → Action (List StoredMessage)
  unfolding message_of_row
  messages_of_rows [] = pure []
  messages_of_rows (r ∷ rs) = do m ← message_of_row r; ms ← messages_of_rows rs; pure (m ∷ ms)

  unfoldable pub messages : ℤ → Option ℤ → Option ℤ → ℤ → Action (List StoredMessage)
  unfolding messages_of_rows
  messages chat_id before_message_id after_message_id limit = do
    rows ← query (select_page chat_id before_message_id after_message_id limit)
    messages_of_rows rows
