-- ===== src/History/Listing/Unread.antt =====
-- What `list_chats` lists after `mark_read`.
use telegram_mcpvscode.Prelude.{
  ℤ, pos, ℕ, arith, Bool, true, false, Option, List, [], ◌≡◌, ◌≢◌, refl, sym, subst, ap, ◌∙◌, ◌⊎◌,
  inl, inr, All, eqb_ℤ, eqb_ℤ_iff, leb_ℤ, Bool-cases, if◌then◌else◌,
}
use telegram_mcpvscode.Prelude.Int.{InI64, eqb_ℤ_refl}
use telegram_mcpvscode.Prelude.Lists.{count_by}
use telegram_mcpvscode.Prelude.Order.{sort}
use telegram_mcpvscode.Prelude.Sorting.{IsOrdered, count_by-sort, sort-IsOrdered}
use telegram_mcpvscode.Prelude.Text.{show_ℤ}
use telegram_mcpvscode.History.Types.{ChatSummary}
use telegram_mcpvscode.History.Conn.{ChatRow, Db, ok, statement}
use telegram_mcpvscode.History.Sql.{upsert_kv, max_message_id, count_unread, is_unread}
use telegram_mcpvscode.History.Store.{kv_put, baseline_key, mark_read}
use telegram_mcpvscode.History.Store.Reading.{no_faults}
use telegram_mcpvscode.History.Listing.{seen_later, baseline_of, list_chats}
use telegram_mcpvscode.History.Listing.Baselines.{
  HasOneKey, baseline_of-collect_baselines, read_upsert_kv,
}
use telegram_mcpvscode.History.Listing.Summarised.{
  Counts, Counts-count_by, IsUnread, is_unread_lem, IsNewest, max_message_id-IsNewest, IsBaseline,
  read_baseline_lem,
}
use telegram_mcpvscode.History.Listing.Made.{
  baseline_in, HasKnownKind, IsInfo, Pairwise, Pairwise-mono, Made, list_chats_lem,
}

baseline_in-IsBaseline : (db : Db) (j : ℤ) → IsBaseline j db.kv (baseline_in db j)
unfolding baseline_of
baseline_in-IsBaseline db j =
    subst (IsBaseline j db.kv) (sym (baseline_of-collect_baselines j db.kv []))
      (read_baseline_lem j db.kv (pos 0))

seen_later_total : (r s : ChatRow) → seen_later r s ≡ false → seen_later s r ≡ true
seen_later_total r s h = ground arith

seen_later_trans :
    (r s t : ChatRow) → seen_later r s ≡ true → seen_later s t ≡ true → seen_later r t ≡ true
seen_later_trans r s t h k = ground arith

module _ (chat_id up_to : ℤ) where
  -- The baseline of a chat once `up_to` is marked as read in `chat_id`.
  abbrev pub IsMarked : Db → ℤ → ℤ → Type 0
  IsMarked db j b = ((j ≡ chat_id) × (b ≡ up_to)) ⊎ ((j ≢ chat_id) × IsBaseline j db.kv b)

  -- A summary, against the rows of the tables before the mark.
  abbrev pub Summarises : Db → ChatRow → ChatSummary → Type 0
  Summarises db r s =
      (baseline : ℤ) × (unread : ℕ) × IsInfo r s.info
      × IsNewest r.chat_id db.messages s.last_message_id
      × IsMarked db r.chat_id baseline
      × (s.unread_count ≡ pos unread)
      × Counts (IsUnread r.chat_id baseline) db.messages unread

  abbrev marked_baseline : Db → ℤ → ℤ
  marked_baseline db j = if eqb_ℤ chat_id j then up_to else baseline_in db j

  marked_baseline-IsMarked : (db : Db) (j : ℤ) → IsMarked db j (marked_baseline db j)
  marked_baseline-IsMarked db j = elim (Bool-cases (eqb_ℤ chat_id j)) [
    | inl same ↦ rw same (inl (sym ((eqb_ℤ_iff chat_id j).0 same), refl))
    | inr differ ↦ rw differ (inr (λ e. cc (e, differ, eqb_ℤ_refl j), baseline_in-IsBaseline db j))
  ]

  Made-Summarises :
      (db : Db) (r : ChatRow) (s : ChatSummary)
      → Made (marked_baseline db) db (λ j. max_message_id j db.messages) r s
      → Summarises db r s
  unfolding count_unread
  Made-Summarises db r s (info, counted, newest) =
      let b = marked_baseline db r.chat_id in
      (
        b,
        count_unread r.chat_id b db,
        info,
        subst (IsNewest r.chat_id db.messages) (sym newest)
            (max_message_id-IsNewest r.chat_id db.messages),
        marked_baseline-IsMarked db r.chat_id,
        counted,
        Counts-count_by (IsUnread r.chat_id b) (is_unread r.chat_id b) db.messages
            (is_unread_lem r.chat_id b),
      )

  module _ (chat_in_range : InI64 chat_id) (up_to_in_range : InI64 up_to) where
    baseline_in-upsert_kv :
        (db : Db) (j : ℤ)
        → HasOneKey chat_id db.kv
        → baseline_in (upsert_kv (baseline_key chat_id) (show_ℤ up_to) db) j ≡ marked_baseline db j
    unfolding baseline_of
    baseline_in-upsert_kv db j one =
        rw (baseline_of-collect_baselines, baseline_of-collect_baselines)
          (read_upsert_kv chat_id up_to chat_in_range up_to_in_range j db one)

    -- When the two numbers are in the range of an i64, the tables hold at most one baseline of the
    -- chat, under its key, every chat row has a known kind, and no statement fails, then after
    -- `mark_read` the call `list_chats` succeeds, and its list has a summary of each chat row, the
    -- one seen last first. A summary has the fields of the row, the largest id of a message of the
    -- chat, or none if it has none, and the number of the chat's rows that are incoming and have an
    -- id above its baseline. The baseline is the marked id for the chat that was marked, and for
    -- any other chat what the last row of `kv` that has one for it says, or 0.
    pub mark_read-list_chats :
        (db : Db)
        → HasOneKey chat_id db.kv
        → All HasKnownKind db.chats
        → (rows : List ChatRow) × (list : List ChatSummary) × ((list_chats
              (mark_read chat_id up_to (no_faults db)).1).0
            ≡ ok list)
          × ((p : ChatRow → Bool) → count_by p rows ≡ count_by p db.chats)
          × IsOrdered (λ r s. leb_ℤ s.last_seen r.last_seen) rows
          × Pairwise (Summarises db) rows list
    unfolding mark_read kv_put statement upsert_kv count_unread
    mark_read-list_chats db one known =
        let last : ℤ → Option ℤ = λ j. max_message_id j db.messages in
        let rows = sort seen_later db.chats in
        let (list, e, made) =
          list_chats_lem (upsert_kv (baseline_key chat_id) (show_ℤ up_to) db) known in
        (
          rows,
          list,
          e,
          λ p. count_by-sort seen_later p db.chats,
          sort-IsOrdered seen_later seen_later_total seen_later_trans db.chats,
          Pairwise-mono _ (Summarises db) rows list
              (λ r s m. Made-Summarises db r s (
                m.0,
                m.1
                    ∙ ap (λ b. pos (count_unread r.chat_id b db))
                        (baseline_in-upsert_kv db r.chat_id one),
                m.2,
              ))
              made,
        )
