-- ===== src/History/Sql.antt =====
-- The SQL statements of crates/history/src/store.rs, as functions on the tables.
use telegram_mcpvscode.Prelude.{
  String, ℕ, suc, max, ℤ, pos, negsuc, Bool, true, false, not, ◌&&◌, Option, none, some, List, [],
  ◌∷◌, ◌++◌, map, take, ltb_ℤ, leb_ℤ, eqb_ℤ, ◌==◌, str_eq, if◌then◌else◌,
}
use telegram_mcpvscode.Prelude.Lists.{
  filter_by, find_by, count_by, any_by, update_first, remove_first,
}
use telegram_mcpvscode.Prelude.Order.{sort, max_ℤ}
use telegram_mcpvscode.History.Types.{ChatInfo, kind_as_sql}
use telegram_mcpvscode.History.Conn.{ChatRow, MessageRow, FtsEntry, Db}

-- chats

abbrev pub chat_is : ℤ → ChatRow → Bool
chat_is chat_id r = eqb_ℤ r.chat_id chat_id

abbrev pub new_chat : ChatInfo → ChatRow
new_chat c = record {
  chat_id = c.chat_id;
  kind = kind_as_sql c.kind;
  title = c.title;
  username = c.username;
  first_seen = c.first_seen;
  last_seen = c.last_seen;
}

abbrev pub updated_chat : ChatInfo → ChatRow → ChatRow
updated_chat c r = record r {
  kind = kind_as_sql c.kind;
  title = c.title;
  username = c.username;
  last_seen = c.last_seen;
}

-- `INSERT INTO chats … ON CONFLICT(chat_id) DO UPDATE`
unfoldable pub upsert_chat_row : ChatInfo → Db → Db
unfolding any_by update_first
upsert_chat_row c db = record db {
  chats =
      if any_by (chat_is c.chat_id) db.chats
      then update_first (chat_is c.chat_id) (updated_chat c) db.chats
      else db.chats ++ (new_chat c ∷ []);
}

-- `UPDATE chats SET last_seen = ?2 WHERE chat_id = ?1`
unfoldable pub update_last_seen : ℤ → ℤ → Db → Db
update_last_seen chat_id last_seen db = record db {
  chats = map (λ r. if chat_is chat_id r then record r { last_seen = last_seen } else r) db.chats;
}

unfoldable pub find_chat : ℤ → Db → Option ChatRow
unfolding find_by
find_chat chat_id db = find_by (chat_is chat_id) db.chats

-- messages

abbrev pub message_is : ℤ → ℤ → MessageRow → Bool
message_is chat_id message_id r = eqb_ℤ r.chat_id chat_id && eqb_ℤ r.message_id message_id

unfoldable pub find_message : ℤ → ℤ → Db → Option MessageRow
unfolding find_by
find_message chat_id message_id db = find_by (message_is chat_id message_id) db.messages

-- The largest rowid in use, 0 in an empty table.
unfoldable pub max_rowid : List MessageRow → ℕ
max_rowid [] = 0
max_rowid (r ∷ rs) = max r.rowid (max_rowid rs)

-- `INSERT INTO messages … ON CONFLICT(chat_id, message_id) DO UPDATE`: the row keeps its rowid, and
-- a new row takes the next one.
unfoldable pub upsert_message : MessageRow → Db → Db
unfolding any_by update_first max_rowid
upsert_message m db = record db {
  messages =
      if any_by (message_is m.chat_id m.message_id) db.messages
      then update_first (message_is m.chat_id m.message_id) (λ r. record m { rowid = r.rowid })
          db.messages
      else db.messages ++ (record m { rowid = suc (max_rowid db.messages) } ∷ []);
}

-- messages_fts

abbrev pub text_eq : Option String → Option String → Bool
text_eq none none = true
text_eq none (some t) = false
text_eq (some s) none = false
text_eq (some s) (some t) = str_eq s t

abbrev pub entry_is : ℕ → Option String → FtsEntry → Bool
entry_is rowid text e = e.rowid == rowid && text_eq e.text text

-- `INSERT INTO messages_fts(messages_fts, rowid, text) VALUES('delete', …)`
unfoldable pub fts_delete : ℕ → Option String → Db → Db
unfolding remove_first
fts_delete rowid text db = record db { fts = remove_first (entry_is rowid text) db.fts }

abbrev pub entry_of : MessageRow → FtsEntry
entry_of r = record { rowid = r.rowid; text = r.text }

abbrev pub indexed : Option MessageRow → List FtsEntry
indexed none = []
indexed (some r) = entry_of r ∷ []

-- `INSERT INTO messages_fts(rowid, text) SELECT rowid, text FROM messages WHERE …`; the primary key
-- leaves at most one row.
unfoldable pub fts_insert : ℤ → ℤ → Db → Db
unfolding find_message
fts_insert chat_id message_id db = record db {
  fts = db.fts ++ indexed (find_message chat_id message_id db);
}

-- `INSERT INTO messages_fts(messages_fts) VALUES('rebuild')`
unfoldable pub fts_rebuild : Db → Db
fts_rebuild db = record db { fts = map entry_of db.messages }

-- retention

-- `DELETE FROM messages WHERE …`, with the count of the rows that it removes.
unfoldable pub delete_where : (MessageRow → Bool) → Db → ℕ × Db
unfolding count_by filter_by
delete_where p db =
    (count_by p db.messages, record db { messages = filter_by (λ r. not (p r)) db.messages })

abbrev pub older_than : ℤ → MessageRow → Bool
older_than cutoff r = ltb_ℤ r.date cutoff

abbrev pub is_newer : MessageRow → MessageRow → Bool
is_newer r s = eqb_ℤ s.chat_id r.chat_id && ltb_ℤ r.message_id s.message_id

-- `ROW_NUMBER() OVER (PARTITION BY chat_id ORDER BY message_id DESC)`: one more than the number of
-- rows of the chat that come first, as the message ids of a chat differ.
unfoldable pub row_number : List MessageRow → MessageRow → ℕ
unfolding count_by
row_number rows r = suc (count_by (is_newer r) rows)

unfoldable pub overflows : ℤ → List MessageRow → MessageRow → Bool
unfolding row_number
overflows keep_newest rows r = ltb_ℤ keep_newest (pos (row_number rows r))

-- kv

abbrev pub key_is : String → String × String → Bool
key_is key (k, v) = str_eq k key

abbrev pub value_of : Option (String × String) → Option String
value_of none = none
value_of (some (k, v)) = some v

-- `INSERT INTO kv … ON CONFLICT(key) DO UPDATE SET value=excluded.value`
unfoldable pub upsert_kv : String → String → Db → Db
unfolding any_by update_first
upsert_kv key value db = record db {
  kv =
      if any_by (key_is key) db.kv
      then update_first (key_is key) (λ (k, v). (k, value)) db.kv
      else db.kv ++ ((key, value) ∷ []);
}

unfoldable pub select_kv : String → Db → Option String
unfolding find_by
select_kv key db = value_of (find_by (key_is key) db.kv)

-- reads

-- `LIMIT n`: a negative limit is none.
unfoldable pub limit_rows {ℓ} : {A : Type ℓ} → ℤ → List A → List A
limit_rows (pos n) rows = take n rows
limit_rows (negsuc n) rows = rows

abbrev pub below : Option ℤ → ℤ → Bool
below none n = true
below (some before) n = ltb_ℤ n before

abbrev pub above : Option ℤ → ℤ → Bool
above none n = true
above (some after) n = ltb_ℤ after n

abbrev pub in_page : ℤ → Option ℤ → Option ℤ → MessageRow → Bool
in_page chat_id before after r =
    eqb_ℤ r.chat_id chat_id && (below before r.message_id && above after r.message_id)

abbrev pub newer_first : MessageRow → MessageRow → Bool
newer_first r s = leb_ℤ s.message_id r.message_id

-- `SELECT … FROM messages WHERE … ORDER BY message_id DESC LIMIT …`
unfoldable pub select_page : ℤ → Option ℤ → Option ℤ → ℤ → Db → List MessageRow
unfolding limit_rows sort filter_by
select_page chat_id before after limit db =
    limit_rows limit (sort newer_first (filter_by (in_page chat_id before after) db.messages))

abbrev pub larger : ℤ → Option ℤ → Option ℤ
larger n none = some n
larger n (some m) = some (max_ℤ n m)

-- `SELECT MAX(message_id) FROM messages m WHERE m.chat_id=c.chat_id`
unfoldable pub max_message_id : ℤ → List MessageRow → Option ℤ
unfolding max_ℤ
max_message_id chat_id [] = none
max_message_id chat_id (r ∷ rs) =
    let rest = max_message_id chat_id rs in
    if eqb_ℤ r.chat_id chat_id then larger r.message_id rest else rest

abbrev pub is_unread : ℤ → ℤ → MessageRow → Bool
is_unread chat_id baseline r =
    eqb_ℤ r.chat_id chat_id && (str_eq r.direction "in" && ltb_ℤ baseline r.message_id)

-- `SELECT COUNT(*) FROM messages WHERE chat_id=?1 AND direction='in' AND message_id > ?2`
unfoldable pub count_unread : ℤ → ℤ → Db → ℕ
unfolding count_by
count_unread chat_id baseline db = count_by (is_unread chat_id baseline) db.messages
