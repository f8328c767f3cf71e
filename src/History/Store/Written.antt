-- ===== src/History/Store/Written.antt =====
-- The tables after a row is written, when its key is new and when it is there.
use telegram_mcpvscode.Prelude.{
  ℕ, suc, ℤ, Bool, true, false, none, some, [], ◌∷◌, ◌++◌, ◌≡◌, refl, arith, ◌∙◌, eqb_ℤ, eqb_ℤ_iff,
  Option-cases, inl, inr,
}
use telegram_mcpvscode.Prelude.Int.{eqb_ℤ_refl}
use telegram_mcpvscode.Prelude.Lists.{find_by, remove_first, update_first}
use telegram_mcpvscode.Prelude.Selection.{
  find_by-update_first, find_by-append_none, find_by-append_ne, find_by-update_first_ne,
  any_by-find_by, any_by-find_by-none,
}
use telegram_mcpvscode.History.Conn.{MessageRow, Db}
use telegram_mcpvscode.History.Sql.{
  entry_is, entry_of, message_is, find_message, upsert_message, fts_delete, fts_insert, max_rowid,
}
use telegram_mcpvscode.History.Store.Inbound.{written}

module _ (row : MessageRow) (db : Db) where
  abbrev pub is_row : MessageRow → Bool
  is_row = message_is row.chat_id row.message_id

  abbrev pub numbered : ℕ → MessageRow
  numbered n = record row { rowid = n }

  abbrev pub appended : Db
  appended = record db {
    messages = db.messages ++ (numbered (suc (max_rowid db.messages)) ∷ []);
    fts = db.fts ++ (entry_of (numbered (suc (max_rowid db.messages))) ∷ []);
  }

  abbrev pub replaced : MessageRow → Db
  replaced r = record db {
    messages = update_first is_row (λ s. numbered s.rowid) db.messages;
    fts = remove_first (entry_is r.rowid r.text) db.fts ++ (entry_of (numbered r.rowid) ∷ []);
  }

  is_row_refl : (n : ℕ) → is_row (numbered n) ≡ true
  is_row_refl n = rw (eqb_ℤ_refl row.chat_id, eqb_ℤ_refl row.message_id) refl

  pub find-appended :
      find_by is_row db.messages ≡ none
      → find_by is_row appended.messages ≡ some (numbered (suc (max_rowid db.messages)))
  find-appended fresh =
      find_by-append_none is_row db.messages _ fresh
      ∙ unfold find_by in rw (is_row_refl (suc (max_rowid db.messages)))

  pub find-replaced :
      (r : MessageRow)
      → find_by is_row db.messages ≡ some r
      → find_by is_row (replaced r).messages ≡ some (numbered r.rowid)
  find-replaced r found =
      find_by-update_first is_row (λ s. numbered s.rowid) db.messages found
        (λ y. is_row_refl y.rowid)

  pub written_new : find_message row.chat_id row.message_id db ≡ none → written row db ≡ appended
  unfolding fts_insert upsert_message
  written_new fresh =
      let f : find_by is_row db.messages ≡ none = fresh in
      rw (f, any_by-find_by-none is_row db.messages f, find-appended f)

  pub written_old :
      (r : MessageRow)
      → find_message row.chat_id row.message_id db ≡ some r
      → written row db ≡ replaced r
  unfolding fts_insert upsert_message fts_delete
  written_old r found =
      let f : find_by is_row db.messages ≡ some r = found in
      rw (f, any_by-find_by is_row db.messages f, find-replaced r f)

  by_find :
      (P : Db → Type 0)
      → (find_message row.chat_id row.message_id db ≡ none → P appended)
      → ((r : MessageRow) → find_by is_row db.messages ≡ some r → P (replaced r))
      → P (written row db)
  unfolding find_message
  by_find P new old = elim (Option-cases (find_message row.chat_id row.message_id db)) [
    | inl fresh ↦ rw (written_new fresh) (new fresh)
    | inr (r, found) ↦ rw (written_old r found) (old r found)
  ]

  pub kv-written : (written row db).kv ≡ db.kv
  kv-written = by_find (λ d. d.kv ≡ db.kv) (λ _. refl) (λ _ _. refl)

  -- A row of another chat is found as before.
  pub find_message-written_ne :
      (chat_id message_id : ℤ)
      → eqb_ℤ row.chat_id chat_id ≡ false
      → find_message chat_id message_id (written row db) ≡ find_message chat_id message_id db
  unfolding find_message
  find_message-written_ne chat_id message_id other =
      by_find (λ d. find_message chat_id message_id d ≡ find_message chat_id message_id db)
        (λ _. find_by-append_ne (message_is chat_id message_id) db.messages _ (rw other))
        (λ r found.
          find_by-update_first_ne (message_is chat_id message_id) is_row _ db.messages
            (λ s h.
              let same : s.chat_id ≡ row.chat_id =
                (eqb_ℤ_iff s.chat_id row.chat_id).0 (ground arith) in
              rw (same, other))
            (λ s. rw other))
