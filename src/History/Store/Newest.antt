-- ===== src/History/Store/Newest.antt =====
-- The rows that `ROW_NUMBER() … rn > keep` leaves: the newest of each chat.
use telegram_mcpvscode.Prelude.{
  ℕ, ◌+◌, ◌≤◌, ◌<◌, ℤ, pos, Bool, true, false, ◌&&◌, List, [], ◌∷◌, ◌≡◌, refl, subst, arith, inl,
  inr, eqb_ℤ, eqb_ℤ_iff, leb_ℤ, Bool-cases, not, length, All,
}
use telegram_mcpvscode.Prelude.Lists.{All-mono, count_by, filter_by}
use telegram_mcpvscode.Prelude.Selection.{count_by-filter_by, count_by_mono, All-filter_by}
use telegram_mcpvscode.History.Conn.{MessageRow}
use telegram_mcpvscode.History.Sql.{message_is, is_newer, row_number, overflows}
use telegram_mcpvscode.History.Store.Keys.{IsKeyed, filter_by-IsKeyed}

abbrev pub in_chat : ℤ → MessageRow → Bool
in_chat chat_id r = eqb_ℤ r.chat_id chat_id

abbrev NoOlder : MessageRow → MessageRow → Type 0
NoOlder m r = leb_ℤ m.message_id r.message_id ≡ true

-- A member of a list that is not empty has the smallest message id.
oldest :
    (P : MessageRow → Type 0) (x : MessageRow) (xs : List MessageRow)
    → All P (x ∷ xs)
    → (m : MessageRow) × P m × All (NoOlder m) (x ∷ xs)
oldest P x [] h = (x, h.0, (ground arith, tt))
oldest P x (y ∷ ys) h =
    let (m, pm, all) = oldest P y ys h.1 in
    elim (Bool-cases (leb_ℤ m.message_id x.message_id)) [
      | inl e ↦ (m, pm, (e, all))
      | inr e ↦ (
        x,
        h.0,
        (ground arith, All-mono (NoOlder m) (NoOlder x) (y ∷ ys) (λ r k. ground arith) all),
      )
    ]

-- Apart from the oldest, the rows of a chat are newer than it.
length-le-newer :
    (chat_id : ℤ) (m : MessageRow) (rows : List MessageRow)
    → in_chat chat_id m ≡ true
    → All (λ r. in_chat chat_id r ≡ true) rows
    → All (NoOlder m) rows
    → length rows ≤ count_by (is_newer m) rows + count_by (message_is chat_id m.message_id) rows
unfolding count_by
length-le-newer c m [] hm all least = omega arith
length-le-newer c m (r ∷ rs) hm (hr, all) (lr, least) =
    let same : m.chat_id ≡ c = (eqb_ℤ_iff m.chat_id c).0 hm in
    ground (arith, same, length-le-newer c m rs hm all least)

module _ (keep : ℕ) (rows : List MessageRow) (chat_id : ℤ) where
  abbrev kept : MessageRow → Bool
  kept r = in_chat chat_id r && not (overflows (pos keep) rows r)

  few_newer : (r : MessageRow) → kept r ≡ true → count_by (is_newer r) rows < keep
  unfolding overflows row_number
  few_newer r h = ground arith

  inside_chat : (r : MessageRow) → kept r ≡ true → in_chat chat_id r ≡ true
  inside_chat r h = ground arith

  -- At most `keep` rows of the chat are left.
  pub kept_bound : IsKeyed rows → length (filter_by kept rows) ≤ keep
  kept_bound keyed = go (filter_by kept rows) refl
    where
      go : (ys : List MessageRow) → filter_by kept rows ≡ ys → length ys ≤ keep
      go [] e = omega arith
      go (x ∷ xs) e =
          let all : All (λ r. kept r ≡ true) (x ∷ xs) =
            subst (All (λ r. kept r ≡ true)) e (All-filter_by kept rows) in
          let (m, km, least) = oldest (λ r. kept r ≡ true) x xs all in
          let inside =
            All-mono (λ r. kept r ≡ true) (λ r. in_chat chat_id r ≡ true) (x ∷ xs) inside_chat
              all in
          let most = length-le-newer chat_id m (x ∷ xs) (inside_chat m km) inside least in
          let unique = subst IsKeyed e (filter_by-IsKeyed kept rows keyed) chat_id m.message_id in
          let newer : count_by (is_newer m) (x ∷ xs) ≤ count_by (is_newer m) rows =
            subst (λ ys. count_by (is_newer m) ys ≤ count_by (is_newer m) rows) e
              (rw (count_by-filter_by (is_newer m) kept rows)
                (count_by_mono _ (is_newer m) rows (λ r h. ground arith))) in
          omega (arith, most, unique, newer, few_newer m km)

is_newer_trans :
    (r s t : MessageRow) → is_newer r s ≡ true → is_newer s t ≡ true → is_newer r t ≡ true
is_newer_trans r s t h k =
    let a : s.chat_id ≡ r.chat_id = (eqb_ℤ_iff s.chat_id r.chat_id).0 (ground arith) in
    let b : t.chat_id ≡ s.chat_id = (eqb_ℤ_iff t.chat_id s.chat_id).0 (ground arith) in ground arith

-- If the limit of messages in a chat keeps a row, it keeps every row of the chat that is newer.
newer_kept :
    (keep : ℕ) (rows : List MessageRow) (r s : MessageRow)
    → overflows (pos keep) rows r ≡ false
    → is_newer r s ≡ true
    → overflows (pos keep) rows s ≡ false
unfolding overflows row_number
newer_kept keep rows r s h newer =
    let fewer = count_by_mono (is_newer s) (is_newer r) rows (λ t. is_newer_trans r s t newer) in
    ground (arith, fewer)
