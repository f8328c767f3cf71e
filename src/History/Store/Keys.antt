-- ===== src/History/Store/Keys.antt =====
-- The primary key of `messages`: no two rows have the same chat and message id.
use telegram_mcpvscode.Prelude.{
  suc, ◌≤◌, ℤ, Bool, true, ◌&&◌, none, some, List, [], ◌∷◌, ◌≡◌, refl, arith, inl, inr, eqb_ℤ_iff,
  Option-cases, Bool-cases,
}
use telegram_mcpvscode.Prelude.Lists.{count_by, find_by, filter_by}
use telegram_mcpvscode.Prelude.Selection.{
  count_by-append, count_by-update_first, find_by-true, count_by-filter_by, count_by_mono,
}
use telegram_mcpvscode.History.Conn.{MessageRow, Db}
use telegram_mcpvscode.History.Sql.{message_is, find_message, max_rowid}
use telegram_mcpvscode.History.Store.Inbound.{written}
use telegram_mcpvscode.History.Store.Written.{
  is_row, numbered, appended, replaced, written_new, written_old,
}

abbrev pub IsKeyed : List MessageRow → Type 0
IsKeyed rows = (chat_id message_id : ℤ) → count_by (message_is chat_id message_id) rows ≤ 1

-- A row that has the key that is looked for is counted as the row that is written.
same_key :
    (row r : MessageRow) (chat_id message_id : ℤ)
    → message_is row.chat_id row.message_id r ≡ true
    → message_is chat_id message_id r ≡ message_is chat_id message_id row
same_key row r chat_id message_id h =
    let a : r.chat_id ≡ row.chat_id = (eqb_ℤ_iff r.chat_id row.chat_id).0 (ground arith) in
    let b : r.message_id ≡ row.message_id =
      (eqb_ℤ_iff r.message_id row.message_id).0 (ground arith) in
    rw (a, b)

none_counted :
    (rows : List MessageRow) (chat_id message_id : ℤ)
    → find_by (message_is chat_id message_id) rows ≡ none
    → count_by (message_is chat_id message_id) rows ≡ 0
unfolding find_by count_by
none_counted [] chat_id message_id h = refl
none_counted (r ∷ rs) chat_id message_id h = ground (arith, none_counted rs chat_id message_id)

module _ (row : MessageRow) (db : Db) (keyed : IsKeyed db.messages) (chat_id message_id : ℤ) where
  appended_keyed :
      find_by (is_row row db) db.messages ≡ none
      → count_by (message_is chat_id message_id) (appended row db).messages ≤ 1
  unfolding count_by
  appended_keyed fresh =
      let new = numbered row db (suc (max_rowid db.messages)) in
      let split = count_by-append (message_is chat_id message_id) db.messages (new ∷ []) in
      elim (Bool-cases (message_is chat_id message_id row)) [
        | inl e ↦
            let a : row.chat_id ≡ chat_id = (eqb_ℤ_iff row.chat_id chat_id).0 (ground arith) in
            let b : row.message_id ≡ message_id =
              (eqb_ℤ_iff row.message_id message_id).0 (ground arith) in
            let empty = rw (a, b) at (none_counted db.messages row.chat_id row.message_id fresh) in
            ground (arith, empty, split)
        | inr e ↦ ground (arith, keyed chat_id message_id, split)
      ]

  replaced_keyed :
      (r : MessageRow)
      → find_by (is_row row db) db.messages ≡ some r
      → count_by (message_is chat_id message_id) (replaced row db r).messages ≤ 1
  replaced_keyed r found =
      let same =
        same_key row r chat_id message_id (find_by-true (is_row row db) db.messages found) in
      let counts =
        count_by-update_first (message_is chat_id message_id) (is_row row db)
          (λ s. numbered row db s.rowid) db.messages found in
      ground (arith, same, counts, keyed chat_id message_id)

-- Writing a row keeps the primary key.
pub written-IsKeyed :
    (row : MessageRow) (db : Db) → IsKeyed db.messages → IsKeyed (written row db).messages
unfolding find_message
written-IsKeyed row db keyed c n =
    elim (Option-cases (find_message row.chat_id row.message_id db)) [
      | inl fresh ↦ rw (written_new row db fresh) (appended_keyed row db keyed c n fresh)
      | inr (r, found) ↦ rw (written_old row db r found) (replaced_keyed row db keyed c n r found)
    ]

pub filter_by-IsKeyed :
    (p : MessageRow → Bool) (rows : List MessageRow) → IsKeyed rows → IsKeyed (filter_by p rows)
filter_by-IsKeyed p rows keyed c n =
    let both = count_by-filter_by (message_is c n) p rows in
    let fewer =
      count_by_mono (λ r. p r && message_is c n r) (message_is c n) rows (λ r h. ground arith) in
    omega (arith, both, fewer, keyed c n)
