-- ===== src/History/Store/Reading.antt =====
-- Reading back what was written: messages, chats and values of the key-value table.
use telegram_mcpvscode.Prelude.{
  String, ℕ, suc, Option, none, some, [], ◌≡◌, refl, ap, inl, inr, arith, Option-cases,
}
use telegram_mcpvscode.Json.{Value}
use telegram_mcpvscode.Json.Serde.{Serde, IsExact}
use telegram_mcpvscode.History.Types.{ChatInfo, StoredMessage, direction_from_sql-direction_as_sql}
use telegram_mcpvscode.History.Conn.{
  MessageRow, Db, Conn, ok, statement, transaction, execute, ◌>>◌,
}
use telegram_mcpvscode.History.Sql.{
  upsert_chat_row, find_message, max_rowid, upsert_message, fts_insert,
}
use telegram_mcpvscode.History.Store.{
  upsert_chat, unindex, write_row, row_of, encode_meta, insert_message_sync, insert_message,
  record_inbound, decode_meta, message_of_row, get_message,
}
use telegram_mcpvscode.History.Store.Inbound.{unindexed, written}
use telegram_mcpvscode.History.Store.Written.{
  written_new, written_old, find-appended, find-replaced,
}

abbrev pub no_faults : Db → Conn
no_faults db = record { db = db; faults = [] }

unindex_then :
    (row : MessageRow) (o : Option MessageRow) (db : Db)
    → (do unindex o; execute (upsert_message row); execute (fts_insert row.chat_id row.message_id))
        (no_faults db)
      ≡ (
        ok tt,
        no_faults (fts_insert row.chat_id row.message_id (upsert_message row (unindexed o db))),
      )
unfolding unindex statement
unindex_then row none db = refl
unindex_then row (some r) db = refl

-- With no fault the statements that write a row all take effect.
pub write_row_returns :
    (row : MessageRow) (db : Db)
    → write_row row (no_faults db) ≡ (ok tt, no_faults (written row db))
unfolding write_row statement
write_row_returns row db = unindex_then row (find_message row.chat_id row.message_id db) db

abbrev pub HasExact : Option Value → Type 0
HasExact none = Unit
HasExact (some v) = IsExact v

module _ (serde : Serde) (m : StoredMessage) (media_meta : Option String) (raw : String)
    (meta_ok : encode_meta serde m.media_meta ≡ some media_meta)
    (raw_ok : serde.to_string m.raw ≡ some raw) where
  decode_meta-encode_meta :
      (v : Option Value) (c : Conn)
      → HasExact v
      → encode_meta serde v ≡ some media_meta
      → decode_meta serde media_meta c ≡ (ok v, c)
  unfolding encode_meta decode_meta
  decode_meta-encode_meta none c exact h = ground arith
  decode_meta-encode_meta (some v) c exact h = elim (Option-cases (serde.to_string v)) [
    | inl bad ↦ absurd (cc (bad, h))
    | inr (s, good) ↦
        let e : media_meta ≡ some s = ground arith in
        rw (e, serde.from_str-to_string v s exact good)
  ]

  find_message-written :
      (db : Db)
      → (n : ℕ) × (find_message m.chat_id m.message_id (written (row_of m media_meta raw) db)
          ≡ some (record (row_of m media_meta raw) { rowid = n }))
  unfolding find_message
  find_message-written db =
      let row = row_of m media_meta raw in
      elim (Option-cases (find_message row.chat_id row.message_id db)) [
        | inl fresh ↦ (
          suc (max_rowid db.messages),
          rw (written_new row db fresh) (find-appended row db fresh),
        )
        | inr (r, found) ↦ (r.rowid, rw (written_old row db r found) (find-replaced row db r found))
      ]

  pub insert_message_returns :
      (db : Db)
      → insert_message serde m (no_faults db)
        ≡ (ok tt, no_faults (written (row_of m media_meta raw) db))
  unfolding insert_message insert_message_sync transaction
  insert_message_returns db = rw (meta_ok, raw_ok, write_row_returns (row_of m media_meta raw) db)

  module _ (meta_exact : HasExact m.media_meta) (raw_exact : IsExact m.raw) where
    -- A row decodes to the message that it was made of.
    message_of_row-row_of :
        (n : ℕ) (c : Conn)
        → message_of_row serde (record (row_of m media_meta raw) { rowid = n }) c ≡ (ok m, c)
    unfolding message_of_row
    message_of_row-row_of n c = rw (
      direction_from_sql-direction_as_sql m.direction,
      decode_meta-encode_meta m.media_meta c meta_exact meta_ok,
      serde.from_str-to_string m.raw raw raw_exact raw_ok,
    )

    pub get_message-written :
        (db : Db)
        → get_message serde m.chat_id m.message_id
            (no_faults (written (row_of m media_meta raw) db))
          ≡ (ok m, no_faults (written (row_of m media_meta raw) db))
    unfolding get_message statement
    get_message-written db =
        let (n, found) = find_message-written db in rw found (message_of_row-row_of n _)

    -- A message that is inserted reads back as it was, new or not.
    pub get_message-insert_message :
        (db : Db)
        → ((insert_message serde m (no_faults db)).0 ≡ ok tt)
          × ((get_message serde m.chat_id m.message_id (insert_message serde m (no_faults db)).1).0
              ≡ ok m)
    get_message-insert_message db =
        rw (insert_message_returns db) (refl, ap (λ x. x.0) (get_message-written db))

    -- When the two documents of a message, its media data and its raw form, hold no float and are
    -- nested at most 127 deep, they can be encoded, and no statement fails, `record_inbound` returns,
    -- and `get_message` then gives the message as it was, new or not.
    pub get_message-record_inbound :
        (chat : ChatInfo) (db : Db)
        → ((record_inbound serde chat m (no_faults db)).0 ≡ ok tt)
          × ((get_message serde m.chat_id m.message_id
                (record_inbound serde chat m (no_faults db)).1).0
              ≡ ok m)
    unfolding record_inbound insert_message_sync transaction upsert_chat
    get_message-record_inbound chat db =
        rw (meta_ok, raw_ok, write_row_returns (row_of m media_meta raw) (upsert_chat_row chat db))
          (refl, ap (λ x. x.0) (get_message-written (upsert_chat_row chat db)))
