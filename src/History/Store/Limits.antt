-- ===== src/History/Store/Limits.antt =====
-- What the retention task may rely on: the limits hold, the newest rows stay, and the index follows.
use telegram_mcpvscode.Prelude.{
  ℕ, ◌≤◌, ℤ, pos, Bool, true, false, not, Option, none, some, List, [], ◌∷◌, ◌≡◌, refl, sym, subst,
  inl, inr, arith, length, All,
}
use telegram_mcpvscode.Prelude.Lists.{find_by, filter_by, All-mono}
use telegram_mcpvscode.Prelude.Selection.{
  All-filter_by, All-filter_by_sub, filter_by-filter_by, count_by-filter_by-lt,
}
use telegram_mcpvscode.History.Types.{sqlite}
use telegram_mcpvscode.History.Conn.{MessageRow, Db, Conn, ok, err, statement, transaction}
use telegram_mcpvscode.History.Sql.{delete_where, older_than, overflows, entry_is, entry_of}
use telegram_mcpvscode.History.Store.{when_set, enforce_retention, trim_older_than}
use telegram_mcpvscode.History.Store.Index.{IsSynced, entry_is_refl}
use telegram_mcpvscode.History.Store.Keys.{IsKeyed, filter_by-IsKeyed}
use telegram_mcpvscode.History.Store.Newest.{in_chat, kept_bound}
use telegram_mcpvscode.History.Store.Retention.{
  young, retained, retained-IsSynced, messages-retained, enforce_retention_atomic,
}

-- With no fault a run returns the two counts, and has applied both limits.
pub enforce_retention_returns :
    (cutoff keep : Option ℤ) (db : Db)
    → enforce_retention cutoff keep (record { db = db; faults = [] })
      ≡ (ok (retained cutoff keep db).0, record { db = (retained cutoff keep db).1; faults = [] })
unfolding enforce_retention transaction delete_where when_set
enforce_retention_returns none none db = refl
enforce_retention_returns none (some k) db = ground arith
enforce_retention_returns (some c) none db = ground arith
enforce_retention_returns (some c) (some k) db = ground arith

-- If the index is in step with the messages, it is in step after a run, whichever statement fails.
pub enforce_retention-IsSynced :
    (cutoff keep : Option ℤ) (c : Conn)
    → IsSynced c.db
    → IsSynced (enforce_retention cutoff keep c).1.db
enforce_retention-IsSynced cutoff keep c synced = elim (enforce_retention_atomic cutoff keep c) [
  | inl (_, e) ↦ subst IsSynced (sym e) (retained-IsSynced cutoff keep c.db synced)
  | inr (_, _, e) ↦ subst IsSynced (sym e) synced
]

young_rows :
    (cutoff : ℤ) (rows : List MessageRow)
    → All (λ r. older_than cutoff r ≡ false) (young (some cutoff) rows)
young_rows cutoff rows =
    All-mono _ _ (young (some cutoff) rows) (λ r h. ground arith)
      (All-filter_by (λ r. not (older_than cutoff r)) rows)

-- When the message keys are unique and no statement fails, then after a run with both limits no
-- message is older than the cutoff, and no chat has more messages than the limit.
pub enforce_retention_limits :
    (cutoff : ℤ) (keep : ℕ) (db : Db)
    → IsKeyed db.messages
    → let rows =
        (enforce_retention
          (some cutoff)
          (some (pos keep))
          (record { db = db; faults = [] })).1.db.messages in
      All (λ r. older_than cutoff r ≡ false) rows
      × ((chat_id : ℤ) → length (filter_by (in_chat chat_id) rows) ≤ keep)
enforce_retention_limits cutoff keep db keyed =
    let kept = young (some cutoff) db.messages in
    rw
      (
        enforce_retention_returns (some cutoff) (some (pos keep)) db,
        messages-retained (some cutoff) (some (pos keep)) db,
      )
      (
        All-filter_by_sub _ (λ r. not (overflows (pos keep) kept r)) kept
            (young_rows cutoff db.messages),
        λ chat_id.
            rw (filter_by-filter_by (in_chat chat_id) (λ r. not (overflows (pos keep) kept r)) kept)
              (kept_bound keep kept chat_id (filter_by-IsKeyed _ db.messages keyed)),
      )

-- `trim_older_than` runs no transaction: where the index is in step and a message is older than the
-- cutoff, and the delete takes effect but the rebuild after it fails, it returns an error and
-- leaves an index that is out of step.
pub trim_older_than_desync :
    (cutoff : ℤ) (db : Db) (later : List Bool) {r : MessageRow}
    → IsSynced db
    → find_by (older_than cutoff) db.messages ≡ some r
    → let after = trim_older_than cutoff (record { db = db; faults = false ∷ true ∷ later }) in
      (after.0 ≡ err sqlite) × ¬ IsSynced after.1.db
unfolding trim_older_than statement delete_where
trim_older_than_desync cutoff db later {r} synced found = (
  refl,
  λ still.
      let before = synced r.rowid r.text in
      let after = still r.rowid r.text in
      let lost =
        count_by-filter_by-lt (λ m. entry_is r.rowid r.text (entry_of m)) (older_than cutoff)
          db.messages found (entry_is_refl (entry_of r)) in
      omega (arith, before, after, lost),
)
