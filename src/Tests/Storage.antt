-- ===== src/Tests/Storage.antt =====
-- The theorems on the history at concrete tables.
use telegram_mcpvscode.Prelude.{
  ◌≤◌, ℤ, pos, true, false, none, some, [], ◌∷◌, ◌≡◌, refl, ◌⊎◌, arith, length, All, leb_ℤ, Bool,
  List, inl,
}
use telegram_mcpvscode.Prelude.Lists.{count_by, find_by, filter_by}
use telegram_mcpvscode.Prelude.Text.{show_ℤ}
use telegram_mcpvscode.Prelude.Sorting.{IsOrdered}
use telegram_mcpvscode.Json.Serde.{is_exact}
use telegram_mcpvscode.History.Types.{HistoryError, sqlite, ChatSummary, group}
use telegram_mcpvscode.History.Conn.{ChatRow, MessageRow, Conn, Db, ok, err}
use telegram_mcpvscode.History.Sql.{upsert_chat_row, new_chat, older_than, select_page}
use telegram_mcpvscode.History.Store.{
  encode_meta, row_of, record_inbound, get_message, enforce_retention, trim_older_than, mark_read,
}
use telegram_mcpvscode.History.Store.Inbound.{written, record_inbound_atomic}
use telegram_mcpvscode.History.Store.Index.{IsSynced}
use telegram_mcpvscode.History.Store.Keys.{IsKeyed}
use telegram_mcpvscode.History.Store.Synced.{record_inbound-IsSynced}
use telegram_mcpvscode.History.Store.Retention.{retained, enforce_retention_atomic}
use telegram_mcpvscode.History.Store.Newest.{in_chat}
use telegram_mcpvscode.History.Store.Limits.{
  enforce_retention-IsSynced, enforce_retention_limits, trim_older_than_desync,
}
use telegram_mcpvscode.History.Store.Reading.{no_faults, get_message-record_inbound}
use telegram_mcpvscode.History.Store.Paging.{IsPage, select_page_lem}
use telegram_mcpvscode.History.Listing.{list_chats}
use telegram_mcpvscode.History.Listing.Unread.{Summarises, mark_read-list_chats}
use telegram_mcpvscode.History.Listing.Made.{Pairwise}
use telegram_mcpvscode.Tests.Data.{few_documents, team, hello, old_row, two_messages}

two_messages-IsSynced : IsSynced two_messages
unfolding count_by
two_messages-IsSynced rowid text = refl

two_messages-IsKeyed : IsKeyed two_messages.messages
unfolding count_by
two_messages-IsKeyed c n = ground arith

-- The second statement fails.
abbrev shaky : Conn
shaky = record { db = two_messages; faults = false ∷ true ∷ [] }

abbrev hello_row : Db → Db
hello_row db = written (row_of hello none "traw") (upsert_chat_row team db)

record_inbound_atomic_example :
    (((record_inbound few_documents team hello shaky).0 ≡ ok tt)
      × ((record_inbound few_documents team hello shaky).1.db ≡ hello_row two_messages))
    ⊎ ((e : HistoryError) × ((record_inbound few_documents team hello shaky).0 ≡ err e)
        × ((record_inbound few_documents team hello shaky).1.db ≡ two_messages))
unfolding encode_meta
record_inbound_atomic_example =
    record_inbound_atomic few_documents hello none "traw" refl refl team shaky

enforce_retention_limits_example :
    let rows =
      (enforce_retention (some (pos 50)) (some (pos 1)) (no_faults two_messages)).1.db.messages in
    All (λ r. older_than (pos 50) r ≡ false) rows
    × ((chat_id : ℤ) → length (filter_by (in_chat chat_id) rows) ≤ 1)
enforce_retention_limits_example =
    enforce_retention_limits (pos 50) 1 two_messages two_messages-IsKeyed

record_inbound-IsSynced_example : IsSynced (record_inbound few_documents team hello shaky).1.db
record_inbound-IsSynced_example =
    record_inbound-IsSynced few_documents hello team shaky two_messages-IsSynced

get_message-record_inbound_example :
    ((record_inbound few_documents team hello (no_faults two_messages)).0 ≡ ok tt)
    × ((get_message few_documents
          (pos 5)
          (pos 2)
          (record_inbound few_documents team hello (no_faults two_messages)).1).0
        ≡ ok hello)
unfolding encode_meta is_exact
get_message-record_inbound_example =
    get_message-record_inbound few_documents hello none "traw" refl refl tt refl team two_messages

select_page_lem_example :
    (older others : List MessageRow) × IsPage
      (pos 5)
      none
      (some (pos 1))
      10
      two_messages
      (select_page (pos 5) none (some (pos 1)) (pos 10) two_messages)
      older
      others
select_page_lem_example = select_page_lem (pos 5) none (some (pos 1)) 10 two_messages

enforce_retention_atomic_example :
    (((enforce_retention (some (pos 50)) none shaky).0
        ≡ ok (retained (some (pos 50)) none two_messages).0)
      × ((enforce_retention (some (pos 50)) none shaky).1.db
          ≡ (retained (some (pos 50)) none two_messages).1))
    ⊎ ((e : HistoryError) × ((enforce_retention (some (pos 50)) none shaky).0 ≡ err e)
        × ((enforce_retention (some (pos 50)) none shaky).1.db ≡ two_messages))
enforce_retention_atomic_example = enforce_retention_atomic (some (pos 50)) none shaky

enforce_retention-IsSynced_example : IsSynced (enforce_retention (some (pos 50)) none shaky).1.db
enforce_retention-IsSynced_example =
    enforce_retention-IsSynced (some (pos 50)) none shaky two_messages-IsSynced

-- Two messages of a chat whose baseline is 0.
abbrev listed_chat : Db
listed_chat = record two_messages {
  chats = new_chat team ∷ [];
  kv = ("last_unread_baseline:5", "0") ∷ [];
}

mark_read-list_chats_example :
    (rows : List ChatRow) × (list : List ChatSummary) × ((list_chats
        (mark_read (pos 5) (pos 2) (no_faults listed_chat)).1).0
      ≡ ok list)
    × ((p : ChatRow → Bool) → count_by p rows ≡ count_by p (new_chat team ∷ []))
    × IsOrdered (λ r s. leb_ℤ s.last_seen r.last_seen) rows
    × Pairwise (Summarises (pos 5) (pos 2) listed_chat) rows list
unfolding show_ℤ
mark_read-list_chats_example =
    mark_read-list_chats (pos 5) (pos 2) (omega arith, omega arith) (omega arith, omega arith)
      listed_chat (inl (refl, tt)) ((group, refl), tt)

trim_older_than_desync_example :
    let after =
      trim_older_than (pos 50) (record { db = two_messages; faults = false ∷ true ∷ [] }) in
    (after.0 ≡ err sqlite) × ¬ IsSynced after.1.db
unfolding find_by
trim_older_than_desync_example =
    trim_older_than_desync (pos 50) two_messages [] {r = old_row} two_messages-IsSynced refl
