-- ===== src/Updater/Polling/Access.antt =====
-- What the loop writes for chats, and what it keeps of the store.
use telegram_mcpvscode.Prelude.{
  String, ℤ, Bool, true, false, Option, none, some, List, [], ◌∷◌, ◌≡◌, refl, ◌∙◌, inl, inr, eqb_ℤ,
  eqb_ℤ_iff, Bool-cases, Option-cases,
}
use telegram_mcpvscode.Json.{Value}
use telegram_mcpvscode.Json.Serde.{Serde}
use telegram_mcpvscode.TgClient.Types.{rate_limited, Reply, answered, refused}
use telegram_mcpvscode.History.Types.{ChatInfo, StoredMessage}
use telegram_mcpvscode.History.Conn.{Db, Conn, statement}
use telegram_mcpvscode.History.Sql.{find_message, upsert_kv}
use telegram_mcpvscode.History.Store.{record_inbound, kv_put}
use telegram_mcpvscode.History.Store.Index.{IsSynced}
use telegram_mcpvscode.History.Store.Keys.{IsKeyed}
use telegram_mcpvscode.History.Store.Synced.{
  record_inbound-IsSynced, record_inbound-IsKeyed, find_message-record_inbound_ne,
}
use telegram_mcpvscode.Updater.Mapping.{map_update}
use telegram_mcpvscode.Updater.Mapping.Consistent.{map_update_lem}
use telegram_mcpvscode.Updater.Polling.{
  Poller, is_allowed, record_update, record_updates, max_update_id, advance, round, rounds,
}

-- A property of the tables that an allowed update keeps, and a new offset too.
module _ (serde : Serde) (allowed : Option (List ℤ)) (P : Db → Type 0)
    (update_kept : (u : Value) (chat : ChatInfo) (msg : StoredMessage) (c : Conn)
      → map_update u ≡ some (chat, msg)
      → is_allowed allowed chat.chat_id ≡ true
      → P c.db
      → P (record_inbound serde chat msg c).1.db)
    (offset_kept : (key value : String) (db : Db) → P db → P (upsert_kv key value db)) where
  record_update-keeps : (u : Value) (c : Conn) → P c.db → P (record_update serde allowed u c).db
  unfolding record_update
  record_update-keeps u c h = elim (Option-cases (map_update u)) [
    | inl e ↦ rw e h
    | inr ((chat, msg), e) ↦ elim (Bool-cases (is_allowed allowed chat.chat_id)) [
      | inl ok_chat ↦ rw (e, ok_chat) (update_kept u chat msg c e ok_chat h)
      | inr bad_chat ↦ rw (e, bad_chat) h
    ]
  ]

  record_updates-keeps :
      (us : List Value) (c : Conn) → P c.db → P (record_updates serde allowed us c).db
  unfolding record_updates
  record_updates-keeps [] c h = h
  record_updates-keeps (u ∷ us) c h =
      record_updates-keeps us (record_update serde allowed u c) (record_update-keeps u c h)

  advance-keeps : (m : Option ℤ) (p : Poller) → P p.conn.db → P (advance serde allowed m p).conn.db
  unfolding kv_put statement
  advance-keeps none p h = h
  advance-keeps (some m) p h = go p.conn.faults
    where
      go :
          (faults : List Bool)
          → P
              (advance serde allowed
                (some m)
                (record p { conn = record { db = p.conn.db; faults = faults } })).conn.db
      go [] = offset_kept _ _ p.conn.db h
      go (true ∷ later) = h
      go (false ∷ later) = offset_kept _ _ p.conn.db h

  round-keeps :
      (reply : Reply (List Value)) (p : Poller)
      → P p.conn.db
      → P (round serde allowed reply p).0.conn.db
  unfolding round
  round-keeps (answered us) p h =
      advance-keeps (max_update_id none us) _ (record_updates-keeps us p.conn h)
  round-keeps (refused (rate_limited n)) p h = h
  round-keeps (refused _) p h = h

  pub rounds-keeps :
      (replies : List (Reply (List Value))) (p : Poller)
      → P p.conn.db
      → P (rounds serde allowed replies p).conn.db
  unfolding rounds
  rounds-keeps [] p h = h
  rounds-keeps (reply ∷ replies) p h =
      rounds-keeps replies (round serde allowed reply p).0 (round-keeps reply p h)

module _ (serde : Serde) where
  -- With an allow-list, whatever the Bot API answers and whatever fails, the updater adds, changes
  -- and removes no message of a chat outside of the list.
  pub disallowed_untouched :
      (chats : List ℤ) (replies : List (Reply (List Value))) (p : Poller) (chat_id message_id : ℤ)
      → is_allowed (some chats) chat_id ≡ false
      → find_message chat_id message_id (rounds serde (some chats) replies p).conn.db
        ≡ find_message chat_id message_id p.conn.db
  disallowed_untouched chats replies p chat_id message_id denied =
      rounds-keeps serde (some chats)
        (λ db. find_message chat_id message_id db ≡ find_message chat_id message_id p.conn.db)
        (λ u chat msg c e allowed h.
          find_message-record_inbound_ne serde msg chat c chat_id message_id (
            other_chat (some chats) chat.chat_id msg.chat_id chat_id ((map_update_lem u e).0)
              allowed denied)
          ∙ h)
        (λ key value db h. unfold find_message upsert_kv in h) replies p refl
    where
      other_chat :
          (allowed : Option (List ℤ)) (a b c : ℤ)
          → b ≡ a
          → is_allowed allowed a ≡ true
          → is_allowed allowed c ≡ false
          → eqb_ℤ b c ≡ false
      other_chat allowed a b c e yes_a no_c = elim (Bool-cases (eqb_ℤ b c)) [
        | inl same ↦ absurd (let f : b ≡ c = (eqb_ℤ_iff b c).0 same in cc (e, f, yes_a, no_c))
        | inr differ ↦ differ
      ]

  -- If the index is in step and the message keys are unique, both hold after any rounds of the
  -- loop, whatever the Bot API answers and whichever statement fails.
  pub rounds-IsSynced :
      (allowed : Option (List ℤ)) (replies : List (Reply (List Value))) (p : Poller)
      → IsSynced p.conn.db
      → IsKeyed p.conn.db.messages
      → IsSynced (rounds serde allowed replies p).conn.db
        × IsKeyed (rounds serde allowed replies p).conn.db.messages
  rounds-IsSynced allowed replies p synced keyed = (
    rounds-keeps serde allowed IsSynced
        (λ u chat msg c e a. record_inbound-IsSynced serde msg chat c)
        (λ key value db h. unfold upsert_kv in h) replies p synced,
    rounds-keeps serde allowed (λ db. IsKeyed db.messages)
        (λ u chat msg c e a. record_inbound-IsKeyed serde msg chat c)
        (λ key value db h. unfold upsert_kv in h) replies p keyed,
  )
