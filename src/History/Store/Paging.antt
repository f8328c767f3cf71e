-- ===== src/History/Store/Paging.antt =====
-- What a page of `messages` holds.
use telegram_mcpvscode.Prelude.{
  ℕ, min, ℤ, pos, Bool, true, false, not, Option, none, some, List, ◌++◌, ◌≡◌, ◌↔◌, refl, ap, arith,
  ltb_ℤ, leb_ℤ, eqb_ℤ_iff, length, take, All,
}
use telegram_mcpvscode.Prelude.Lists.{
  count_by, filter_by, skip, take-append-skip, All-mono, length-take,
}
use telegram_mcpvscode.Prelude.Selection.{All-filter_by, count_by-append, count_by-partition}
use telegram_mcpvscode.Prelude.Order.{sort}
use telegram_mcpvscode.Prelude.Sorting.{IsOrdered, count_by-sort, All-sort, sort-IsOrdered}
use telegram_mcpvscode.History.Conn.{MessageRow, Db}
use telegram_mcpvscode.History.Sql.{below, above, in_page, newer_first, limit_rows, select_page}

newer_first_total : (r s : MessageRow) → newer_first r s ≡ false → newer_first s r ≡ true
newer_first_total r s h = ground arith

newer_first_trans :
    (r s t : MessageRow) → newer_first r s ≡ true → newer_first s t ≡ true → newer_first r t ≡ true
newer_first_trans r s t h k = ground arith

-- The cursors of a page.
abbrev pub IsBefore : Option ℤ → ℤ → Type 0
IsBefore none n = Unit
IsBefore (some b) n = ltb_ℤ n b ≡ true

abbrev pub IsAfter : Option ℤ → ℤ → Type 0
IsAfter none n = Unit
IsAfter (some a) n = ltb_ℤ a n ≡ true

abbrev pub IsWanted : ℤ → Option ℤ → Option ℤ → MessageRow → Type 0
IsWanted chat_id before after r =
    (r.chat_id ≡ chat_id) × IsBefore before r.message_id × IsAfter after r.message_id

below_lem : (before : Option ℤ) (n : ℤ) → (below before n ≡ true) ↔ IsBefore before n
below_lem none n = (λ h. tt, λ h. refl)
below_lem (some b) n = (λ h. h, λ h. h)

above_lem : (after : Option ℤ) (n : ℤ) → (above after n ≡ true) ↔ IsAfter after n
above_lem none n = (λ h. tt, λ h. refl)
above_lem (some a) n = (λ h. h, λ h. h)

in_page_lem :
    (chat_id : ℤ) (before after : Option ℤ) (r : MessageRow)
    → (in_page chat_id before after r ≡ true) ↔ IsWanted chat_id before after r
in_page_lem chat_id before after r = (
  λ h. (
    (eqb_ℤ_iff r.chat_id chat_id).0 (ground arith),
    (below_lem before r.message_id).0 (ground arith),
    (above_lem after r.message_id).0 (ground arith),
  ),
  λ (same, b, a).
      rw
        (
          (eqb_ℤ_iff r.chat_id chat_id).1 same,
          (below_lem before r.message_id).1 b,
          (above_lem after r.message_id).1 a,
        )
        refl,
)

-- The rows of a page: `older` matches too, but did not fit, and `others` do not match.
abbrev pub IsPage :
    ℤ → Option ℤ → Option ℤ → ℕ → Db → List MessageRow → List MessageRow → List MessageRow → Type 0
IsPage chat_id before after limit db page older others =
    ((p : MessageRow → Bool) → count_by p db.messages ≡ count_by p (page ++ (older ++ others)))
    × All (IsWanted chat_id before after) (page ++ older)
    × All (λ r. ¬ IsWanted chat_id before after r) others
    × IsOrdered (λ r s. leb_ℤ s.message_id r.message_id) (page ++ older)
    × (length page ≡ min limit (length (page ++ older)))

module _ (chat_id : ℤ) (before after : Option ℤ) (limit : ℕ) (db : Db) where
  abbrev matching_sorted : List MessageRow
  matching_sorted = sort newer_first (filter_by (in_page chat_id before after) db.messages)

  abbrev others_of : List MessageRow
  others_of = filter_by (λ r. not (in_page chat_id before after r)) db.messages

  same_rows :
      (p : MessageRow → Bool)
      → count_by p db.messages
        ≡ count_by p (take limit matching_sorted ++ (skip limit matching_sorted ++ others_of))
  same_rows p =
      let split = count_by-partition p (in_page chat_id before after) db.messages in
      let sorted =
        count_by-sort newer_first p (filter_by (in_page chat_id before after) db.messages) in
      let whole = ap (count_by p) (take-append-skip limit matching_sorted) in
      omega (
        arith,
        split,
        sorted,
        whole,
        count_by-append p (take limit matching_sorted) (skip limit matching_sorted ++ others_of),
        count_by-append p (skip limit matching_sorted) others_of,
        count_by-append p (take limit matching_sorted) (skip limit matching_sorted),
      )

  -- The rows of the table are those of a page of at most `limit` rows, `older` ones, and `others`,
  -- each as often as it is in the table. Those of the page and the older ones are the rows of the
  -- chat between the two cursors, in descending order of message id, the page ahead of the older
  -- ones, and the page is full, or there are no older ones.
  pub select_page_lem :
      (older others : List MessageRow) × IsPage chat_id before after limit db
        (select_page chat_id before after (pos limit) db)
        older
        others
  unfolding select_page limit_rows
  select_page_lem =
      let whole = take-append-skip limit matching_sorted in
      (
        skip limit matching_sorted,
        others_of,
        (
          same_rows,
          rw whole (
              All-mono _ _ matching_sorted (λ r. (in_page_lem chat_id before after r).0)
                (All-sort newer_first _ _
                  (All-filter_by (in_page chat_id before after) db.messages))),
          All-mono _ _ others_of
              (λ r out wanted.
                let inside = (in_page_lem chat_id before after r).1 wanted in cc (inside, out))
              (All-filter_by (λ r. not (in_page chat_id before after r)) db.messages),
          rw whole (
              sort-IsOrdered newer_first newer_first_total newer_first_trans
                (filter_by (in_page chat_id before after) db.messages)),
          rw whole (length-take limit matching_sorted),
        ),
      )
