-- ===== src/History/Store/Inbound.antt =====
-- What `insert_message` and `record_inbound` do to the tables, whichever statement fails.
use telegram_mcpvscode.Prelude.{String, Option, none, some, ◌≡◌, ◌⊎◌}
use telegram_mcpvscode.Json.Serde.{Serde}
use telegram_mcpvscode.History.Types.{ChatInfo, StoredMessage, HistoryError}
use telegram_mcpvscode.History.Conn.{MessageRow, Db, Conn, ok, err, ◌>>◌}
use telegram_mcpvscode.History.Conn.Effect.{
  Does, Does-pure, Does-statement, Does-bind, transaction_atomic,
}
use telegram_mcpvscode.History.Sql.{
  upsert_chat_row, find_message, upsert_message, fts_delete, fts_insert,
}
use telegram_mcpvscode.History.Store.{
  upsert_chat, unindex, write_row, row_of, encode_meta, insert_message_sync, insert_message,
  record_inbound,
}

abbrev pub unindexed : Option MessageRow → Db → Db
unindexed none db = db
unindexed (some r) db = fts_delete r.rowid r.text db

-- The tables after the statements that write a row.
abbrev pub written : MessageRow → Db → Db
written row db =
    fts_insert row.chat_id row.message_id
      (upsert_message row (unindexed (find_message row.chat_id row.message_id db) db))

Does-unindex : (o : Option MessageRow) → Does (unindex o) (λ db. (tt, unindexed o db))
unfolding unindex
Does-unindex none = Does-pure tt
Does-unindex (some r) = Does-statement (λ db. (tt, fts_delete r.rowid r.text db))

pub Does-write_row : (row : MessageRow) → Does (write_row row) (λ db. (tt, written row db))
unfolding write_row
Does-write_row row =
    Does-bind _
      (λ found db.
        (tt, fts_insert row.chat_id row.message_id (upsert_message row (unindexed found db))))
      (Does-statement (λ db. (find_message row.chat_id row.message_id db, db)))
      (λ found.
        Does-bind _ (λ _ db. (tt, fts_insert row.chat_id row.message_id (upsert_message row db)))
          (Does-unindex found)
          (λ _.
            Does-bind _ (λ _ db. (tt, fts_insert row.chat_id row.message_id db))
              (Does-statement (λ db. (tt, upsert_message row db)))
              (λ _. Does-statement (λ db. (tt, fts_insert row.chat_id row.message_id db)))))

module _ (serde : Serde) (m : StoredMessage) (media_meta : Option String) (raw : String)
    (meta_ok : encode_meta serde m.media_meta ≡ some media_meta)
    (raw_ok : serde.to_string m.raw ≡ some raw) where
  pub Does-insert_message_sync :
      Does (insert_message_sync serde m) (λ db. (tt, written (row_of m media_meta raw) db))
  unfolding insert_message_sync
  Does-insert_message_sync = rw (meta_ok, raw_ok) (Does-write_row (row_of m media_meta raw))

  -- Either all statements took effect, or the call failed and no table changed.
  pub insert_message_atomic :
      (c : Conn)
      → (((insert_message serde m c).0 ≡ ok tt)
          × ((insert_message serde m c).1.db ≡ written (row_of m media_meta raw) c.db))
        ⊎ ((e : HistoryError) × ((insert_message serde m c).0 ≡ err e)
            × ((insert_message serde m c).1.db ≡ c.db))
  unfolding insert_message
  insert_message_atomic c = transaction_atomic _ Does-insert_message_sync c

  Does-record_inbound :
      (chat : ChatInfo)
      → Does
          (do upsert_chat chat; insert_message_sync serde m)
          (λ db. (tt, written (row_of m media_meta raw) (upsert_chat_row chat db)))
  unfolding upsert_chat
  Does-record_inbound chat =
      Does-bind _ (λ _ db. (tt, written (row_of m media_meta raw) db))
        (Does-statement (λ db. (tt, upsert_chat_row chat db))) (λ _. Does-insert_message_sync)

  -- When the documents of the message can be encoded, then either the call returns and the chat
  -- row, the message row and the index entry are all written, or it fails and no table changed,
  -- whichever statements fail.
  pub record_inbound_atomic :
      (chat : ChatInfo) (c : Conn)
      → (((record_inbound serde chat m c).0 ≡ ok tt)
          × ((record_inbound serde chat m c).1.db
              ≡ written (row_of m media_meta raw) (upsert_chat_row chat c.db)))
        ⊎ ((e : HistoryError) × ((record_inbound serde chat m c).0 ≡ err e)
            × ((record_inbound serde chat m c).1.db ≡ c.db))
  unfolding record_inbound
  record_inbound_atomic chat c = transaction_atomic _ (Does-record_inbound chat) c
