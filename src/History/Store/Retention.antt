-- ===== src/History/Store/Retention.antt =====
-- What `enforce_retention` leaves in the store, and when the index follows.
use telegram_mcpvscode.Prelude.{
  ℕ, ◌+◌, ℤ, Bool, true, false, not, Option, none, some, List, ◌≡◌, refl, sym, subst, ◌∙◌, inl, inr,
  ◌⊎◌, arith, ltb, if◌then◌else◌, Bool-cases,
}
use telegram_mcpvscode.Prelude.Lists.{filter_by}
use telegram_mcpvscode.Prelude.Selection.{filter_by_none}
use telegram_mcpvscode.History.Types.{HistoryError}
use telegram_mcpvscode.History.Conn.{MessageRow, Db, Conn, ok, err, pure}
use telegram_mcpvscode.History.Conn.Effect.{
  Does, Does-pure, Does-statement, Does-bind, transaction_atomic,
}
use telegram_mcpvscode.History.Sql.{delete_where, older_than, overflows, fts_rebuild}
use telegram_mcpvscode.History.Store.{
  delete_messages_before, delete_per_chat_overflow, rebuild_fts, when_set, enforce_retention,
}
use telegram_mcpvscode.History.Store.Index.{IsSynced, fts_rebuild-IsSynced}

-- The rows that the two limits leave.
abbrev pub young : Option ℤ → List MessageRow → List MessageRow
young none rows = rows
young (some cutoff) rows = filter_by (λ r. not (older_than cutoff r)) rows

abbrev pub newest : Option ℤ → List MessageRow → List MessageRow
newest none rows = rows
newest (some keep) rows = filter_by (λ r. not (overflows keep rows r)) rows

abbrev aged : Option ℤ → Db → ℕ × Db
aged none db = (0, db)
aged (some cutoff) db = delete_where (older_than cutoff) db

abbrev overflowed : Option ℤ → Db → ℕ × Db
overflowed none db = (0, db)
overflowed (some keep) db = delete_where (overflows keep db.messages) db

abbrev rebuilt : ℕ → Db → Db
rebuilt removed db = if ltb 0 removed then fts_rebuild db else db

abbrev pub retained : Option ℤ → Option ℤ → Db → (ℕ × ℕ) × Db
retained cutoff keep db =
    let (a, db1) = aged cutoff db in
    let (o, db2) = overflowed keep db1 in ((a, o), rebuilt (a + o) db2)

Does-aged : (cutoff : Option ℤ) → Does (when_set delete_messages_before cutoff) (aged cutoff)
unfolding when_set delete_messages_before
Does-aged none = Does-pure 0
Does-aged (some cutoff) = Does-statement (delete_where (older_than cutoff))

Does-overflowed :
    (keep : Option ℤ) → Does (when_set delete_per_chat_overflow keep) (overflowed keep)
unfolding when_set delete_per_chat_overflow
Does-overflowed none = Does-pure 0
Does-overflowed (some keep) = Does-statement (λ db. delete_where (overflows keep db.messages) db)

Does-rebuilt :
    (b : Bool)
    → Does (if b then rebuild_fts else pure tt) (λ db. (tt, if b then fts_rebuild db else db))
unfolding rebuild_fts
Does-rebuilt true = Does-statement (λ db. (tt, fts_rebuild db))
Does-rebuilt false = Does-pure tt

-- Whichever statements fail, a run either has both limits applied and returns the two counts, or
-- fails and changes nothing.
pub enforce_retention_atomic :
    (cutoff keep : Option ℤ) (c : Conn)
    → (((enforce_retention cutoff keep c).0 ≡ ok (retained cutoff keep c.db).0)
        × ((enforce_retention cutoff keep c).1.db ≡ (retained cutoff keep c.db).1))
      ⊎ ((e : HistoryError) × ((enforce_retention cutoff keep c).0 ≡ err e)
          × ((enforce_retention cutoff keep c).1.db ≡ c.db))
unfolding enforce_retention
enforce_retention_atomic cutoff keep c =
    transaction_atomic (retained cutoff keep)
      (Does-bind _ (λ a db. let (o, db2) = overflowed keep db in ((a, o), rebuilt (a + o) db2))
        (Does-aged cutoff)
        (λ a.
          Does-bind _ (λ o db. ((a, o), rebuilt (a + o) db)) (Does-overflowed keep)
            (λ o.
              Does-bind _ (λ _ db. ((a, o), db)) (Does-rebuilt (ltb 0 (a + o)))
                (λ _. Does-pure (a, o)))))
      c

module _ (cutoff keep : Option ℤ) (db : Db) where
  pub messages-retained :
      (retained cutoff keep db).1.messages ≡ newest keep (young cutoff db.messages)
  unfolding delete_where fts_rebuild
  messages-retained =
      go cutoff keep (ltb 0 ((aged cutoff db).0 + (overflowed keep (aged cutoff db).1).0))
    where
      go :
          (cutoff keep : Option ℤ) (b : Bool)
          → (let db2 = (overflowed keep (aged cutoff db).1).1 in
              (if b then fts_rebuild db2 else db2).messages)
            ≡ newest keep (young cutoff db.messages)
      go none none true = refl
      go none none false = refl
      go none (some k) true = refl
      go none (some k) false = refl
      go (some c) none true = refl
      go (some c) none false = refl
      go (some c) (some k) true = refl
      go (some c) (some k) false = refl

-- Deleting no row changes nothing.
delete_nothing :
    (p : MessageRow → Bool) (db : Db) → (delete_where p db).0 ≡ 0 → (delete_where p db).1 ≡ db
unfolding delete_where
delete_nothing p db h = rw (filter_by_none p db.messages h)

aged_nothing : (cutoff : Option ℤ) (db : Db) → (aged cutoff db).0 ≡ 0 → (aged cutoff db).1 ≡ db
aged_nothing none db h = refl
aged_nothing (some c) db h = delete_nothing (older_than c) db h

overflowed_nothing :
    (keep : Option ℤ) (db : Db) → (overflowed keep db).0 ≡ 0 → (overflowed keep db).1 ≡ db
overflowed_nothing none db h = refl
overflowed_nothing (some k) db h = delete_nothing (overflows k db.messages) db h

pub retained-IsSynced :
    (cutoff keep : Option ℤ) (db : Db) → IsSynced db → IsSynced (retained cutoff keep db).1
retained-IsSynced cutoff keep db synced =
    let a = (aged cutoff db).0 in
    let db1 = (aged cutoff db).1 in
    let o = (overflowed keep db1).0 in
    elim (Bool-cases (ltb 0 (a + o))) [
      | inl e ↦ rw e (fts_rebuild-IsSynced (overflowed keep db1).1)
      | inr e ↦
          let same : (overflowed keep db1).1 ≡ db =
            overflowed_nothing keep db1 (ground arith) ∙ aged_nothing cutoff db (ground arith) in
          rw e (subst IsSynced (sym same) synced)
    ]
