-- ===== src/History/Store/Synced.antt =====
-- Every writing operation keeps the full-text index in step with the messages.
use telegram_mcpvscode.Prelude.{
  String, ℤ, false, Option, ◌≡◌, refl, ◌∙◌, eqb_ℤ, inl, inr, Option-cases,
}
use telegram_mcpvscode.Json.Serde.{Serde}
use telegram_mcpvscode.History.Types.{ChatInfo, StoredMessage}
use telegram_mcpvscode.History.Conn.{Db, Conn}
use telegram_mcpvscode.History.Conn.Effect.{
  Does-statement, Preserves, Preserves-Does, Preserves-bind, transaction-Preserves,
}
use telegram_mcpvscode.History.Sql.{upsert_chat_row, find_message}
use telegram_mcpvscode.History.Store.{
  upsert_chat, row_of, encode_meta, insert_message_sync, insert_message, record_inbound,
}
use telegram_mcpvscode.History.Store.Inbound.{written, Does-insert_message_sync}
use telegram_mcpvscode.History.Store.Written.{kv-written, find_message-written_ne}
use telegram_mcpvscode.History.Store.Keys.{IsKeyed, written-IsKeyed}
use telegram_mcpvscode.History.Store.Index.{IsSynced, written-IsSynced, upsert_chat_row-IsSynced}

module _ (serde : Serde) (m : StoredMessage) (P : Db → Type 0)
    (row_kept : (meta : Option String) (raw : String) (db : Db)
      → P db
      → P (written (row_of m meta raw) db)) where
  insert_message_sync-Preserves : Preserves P (insert_message_sync serde m)
  insert_message_sync-Preserves = elim (Option-cases (encode_meta serde m.media_meta)) [
    | inl bad ↦ record { at = λ c a p h. absurd (unfold insert_message_sync in cc (bad, h)) }
    | inr (meta, meta_ok) ↦ elim (Option-cases (serde.to_string m.raw)) [
      | inl bad ↦ record {
        at = λ c a p h. absurd (unfold insert_message_sync in cc (meta_ok, bad, h));
      }
      | inr (raw, raw_ok) ↦
          Preserves-Does P _ (Does-insert_message_sync serde m meta raw meta_ok raw_ok)
            (row_kept meta raw)
    ]
  ]

  -- What the two writes keep, `insert_message` and `record_inbound` keep, faults or not.
  pub insert_message-Preserves : (c : Conn) → P c.db → P (insert_message serde m c).1.db
  unfolding insert_message
  insert_message-Preserves = transaction-Preserves P insert_message_sync-Preserves

  pub record_inbound-Preserves :
      (chat : ChatInfo)
      → ((db : Db) → P db → P (upsert_chat_row chat db))
      → (c : Conn) → P c.db
      → P (record_inbound serde chat m c).1.db
  unfolding record_inbound upsert_chat
  record_inbound-Preserves chat chat_kept = transaction-Preserves P (
      Preserves-bind P _
        (Preserves-Does P _ (Does-statement (λ db. (tt, upsert_chat_row chat db))) chat_kept)
        (λ _. insert_message_sync-Preserves))

module _ (serde : Serde) (m : StoredMessage) where
  pub insert_message-IsSynced :
      (c : Conn) → IsSynced c.db → IsSynced (insert_message serde m c).1.db
  insert_message-IsSynced =
      insert_message-Preserves serde m IsSynced (λ meta raw. written-IsSynced (row_of m meta raw))

  -- If the index is in step with the messages, it is in step after `record_inbound`, whichever
  -- statement fails.
  pub record_inbound-IsSynced :
      (chat : ChatInfo) (c : Conn) → IsSynced c.db → IsSynced (record_inbound serde chat m c).1.db
  record_inbound-IsSynced chat =
      record_inbound-Preserves serde m IsSynced (λ meta raw. written-IsSynced (row_of m meta raw))
        chat (upsert_chat_row-IsSynced chat)

  -- Recording an update writes no value of the key-value table.
  pub kv-record_inbound :
      (chat : ChatInfo) (c : Conn) → (record_inbound serde chat m c).1.db.kv ≡ c.db.kv
  kv-record_inbound chat c =
      record_inbound-Preserves serde m (λ db. db.kv ≡ c.db.kv)
        (λ meta raw db h. kv-written (row_of m meta raw) db ∙ h) chat
        (λ db h. unfold upsert_chat_row in h) c refl

  pub record_inbound-IsKeyed :
      (chat : ChatInfo) (c : Conn)
      → IsKeyed c.db.messages
      → IsKeyed (record_inbound serde chat m c).1.db.messages
  record_inbound-IsKeyed chat =
      record_inbound-Preserves serde m (λ db. IsKeyed db.messages)
        (λ meta raw. written-IsKeyed (row_of m meta raw)) chat (λ db h. unfold upsert_chat_row in h)

  -- The messages of a chat are not touched by a message of another chat.
  pub find_message-record_inbound_ne :
      (chat : ChatInfo) (c : Conn) (chat_id message_id : ℤ)
      → eqb_ℤ m.chat_id chat_id ≡ false
      → find_message chat_id message_id (record_inbound serde chat m c).1.db
        ≡ find_message chat_id message_id c.db
  find_message-record_inbound_ne chat c chat_id message_id other =
      record_inbound-Preserves serde m
        (λ db. find_message chat_id message_id db ≡ find_message chat_id message_id c.db)
        (λ meta raw db h.
          find_message-written_ne (row_of m meta raw) db chat_id message_id other ∙ h)
        chat (λ db h. unfold upsert_chat_row find_message in h) c refl
