-- ===== src/History/Store/Index.antt =====
-- The full-text index holds exactly the texts of the messages, as often.
use text.Mathlib.TextPositions.{eq_refl}
use telegram_mcpvscode.Prelude.{
  String, ℕ, suc, ◌<◌, Bool, true, Option, none, some, [], ◌∷◌, ◌≡◌, refl, inl, inr, arith, ap,
  eq_iff, Option-cases,
}
use telegram_mcpvscode.Prelude.Lists.{count_by, find_by, remove_first}
use telegram_mcpvscode.Prelude.Selection.{
  count_by-append, count_by-remove_first, count_by-update_first, count_by-find_by, count_by-map,
}
use telegram_mcpvscode.History.Types.{ChatInfo}
use telegram_mcpvscode.History.Conn.{MessageRow, FtsEntry, Db}
use telegram_mcpvscode.History.Sql.{
  text_eq, entry_is, entry_of, find_message, fts_rebuild, upsert_chat_row, max_rowid,
}
use telegram_mcpvscode.History.Store.Inbound.{written}
use telegram_mcpvscode.History.Store.Written.{
  is_row, numbered, appended, replaced, written_new, written_old,
}

-- Each pair of a rowid and a text is indexed as often as the messages have it.
abbrev pub IsSynced : Db → Type 0
IsSynced db =
    (rowid : ℕ) (text : Option String)
    → count_by (entry_is rowid text) db.fts
      ≡ count_by (λ m. entry_is rowid text (entry_of m)) db.messages

text_eq_refl : (t : Option String) → text_eq t t ≡ true
text_eq_refl none = refl
text_eq_refl (some s) = eq_refl s

text_eq→≡ : (s t : Option String) → text_eq s t ≡ true → s ≡ t
text_eq→≡ none none h = refl
text_eq→≡ none (some t) h = cc
text_eq→≡ (some s) none h = cc
text_eq→≡ (some s) (some t) h = ap some ((eq_iff s t).0 h)

pub entry_is_refl : (e : FtsEntry) → entry_is e.rowid e.text e ≡ true
entry_is_refl e = ground (arith, text_eq_refl e.text)

entry_is_same :
    (e x : FtsEntry) (rowid : ℕ) (text : Option String)
    → entry_is e.rowid e.text x ≡ true
    → entry_is rowid text x ≡ entry_is rowid text e
entry_is_same e x rowid text h =
    let same_id : x.rowid ≡ e.rowid = ground arith in
    let same_text : x.text ≡ e.text = text_eq→≡ x.text e.text (ground arith) in
    rw (same_id, same_text)

module _ (row : MessageRow) (db : Db) (synced : IsSynced db) (rowid : ℕ)
    (text : Option String) where
  abbrev wanted : FtsEntry → Bool
  wanted = entry_is rowid text

  abbrev wanted_row : MessageRow → Bool
  wanted_row m = wanted (entry_of m)

  appended_count :
      count_by wanted (appended row db).fts ≡ count_by wanted_row (appended row db).messages
  unfolding count_by
  appended_count =
      let r = numbered row db (suc (max_rowid db.messages)) in
      omega (
        arith,
        count_by-append wanted db.fts (entry_of r ∷ []),
        count_by-append wanted_row db.messages (r ∷ []),
        synced rowid text,
      )

  replaced_count :
      (r : MessageRow)
      → find_by (is_row row db) db.messages ≡ some r
      → count_by wanted (replaced row db r).fts ≡ count_by wanted_row (replaced row db r).messages
  unfolding count_by
  replaced_count r found =
      let old = entry_of r in
      let kept = remove_first (entry_is r.rowid r.text) db.fts in
      let there : 0 < count_by (entry_is r.rowid r.text) db.fts = rw (synced r.rowid r.text) (
        count_by-find_by (λ m. entry_is r.rowid r.text (entry_of m)) (is_row row db) db.messages
          found (entry_is_refl old)) in
      omega (
        arith,
        count_by-append wanted kept (entry_of (numbered row db r.rowid) ∷ []),
        count_by-remove_first wanted (entry_is r.rowid r.text) (wanted old) db.fts
            (λ x. entry_is_same old x rowid text) there,
        count_by-update_first wanted_row (is_row row db) (λ s. numbered row db s.rowid) db.messages
            found,
        synced rowid text,
      )

pub written-IsSynced : (row : MessageRow) (db : Db) → IsSynced db → IsSynced (written row db)
unfolding find_message
written-IsSynced row db synced rowid text =
    elim (Option-cases (find_message row.chat_id row.message_id db)) [
      | inl fresh ↦ rw (written_new row db fresh) (appended_count row db synced rowid text)
      | inr (r, found) ↦
          rw (written_old row db r found) (replaced_count row db synced rowid text r found)
    ]

pub upsert_chat_row-IsSynced :
    (c : ChatInfo) (db : Db) → IsSynced db → IsSynced (upsert_chat_row c db)
unfolding upsert_chat_row
upsert_chat_row-IsSynced c db synced = synced

pub fts_rebuild-IsSynced : (db : Db) → IsSynced (fts_rebuild db)
unfolding fts_rebuild
fts_rebuild-IsSynced db rowid text = count_by-map (entry_is rowid text) entry_of db.messages
