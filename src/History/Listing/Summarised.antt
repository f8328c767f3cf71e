-- ===== src/History/Listing/Summarised.antt =====
-- What a summary of `list_chats` says of a chat, stated on the rows of the tables, and that the
-- queries and the loop over `kv` give it.
use mathlib.Core.Option.{some-injective}
use telegram_mcpvscode.Prelude.{
  String, ℤ, pos, ℕ, ◌+◌, Bool, true, Option, none, some, List, [], ◌∷◌, ◌++◌, ◌≡◌, ◌≢◌, ◌↔◌, refl,
  ap, sym, ◌∙◌, subst, ◌⊎◌, inl, inr, arith, All, eqb_ℤ, eqb_ℤ_iff, ltb_ℤ, leb_ℤ, eq_iff,
  Bool-cases,
}
use telegram_mcpvscode.Prelude.Lists.{count_by, All-mono}
use telegram_mcpvscode.Prelude.Order.{max_ℤ}
use telegram_mcpvscode.Prelude.Text.{parse_i64}
use telegram_mcpvscode.History.Conn.{MessageRow}
use telegram_mcpvscode.History.Sql.{max_message_id, larger, is_unread}
use telegram_mcpvscode.History.Listing.Baselines.{
  IsKeyOf, chat_of_key, chat_of_key_iff, read_baseline, baseline_step,
}

module _ {A : Type 0} where
  abbrev pub Any : (A → Type 0) → List A → Type 0
  Any P [] = ⊥
  Any P (x ∷ xs) = P x ⊎ Any P xs

  -- The predicate holds of just `n` members.
  abbrev pub Counts : (A → Type 0) → List A → ℕ → Type 0
  Counts P [] n = n ≡ 0
  Counts P (x ∷ xs) n = (P x × ((m : ℕ) × (n ≡ 1 + m) × Counts P xs m)) ⊎ ((¬ P x) × Counts P xs n)

  pub Counts-count_by :
      (P : A → Type 0) (p : A → Bool) (xs : List A)
      → ((x : A) → (p x ≡ true) ↔ P x)
      → Counts P xs (count_by p xs)
  unfolding count_by
  Counts-count_by P p [] iff = refl
  Counts-count_by P p (x ∷ xs) iff =
      let rest = Counts-count_by P p xs iff in
      let no_more : count_by p xs ≡ 0 + count_by p xs = omega arith in
      elim (Bool-cases (p x)) [
        | inl e ↦ rw e (inl ((iff x).0 e, (count_by p xs, refl, rest)))
        | inr e ↦ rw e (inr (λ holds. cc ((iff x).1 holds, e), subst (Counts P xs) no_more rest))
      ]

-- An incoming message of the chat, after the baseline.
abbrev pub IsUnread : ℤ → ℤ → MessageRow → Type 0
IsUnread chat_id baseline r =
    (r.chat_id ≡ chat_id) × (r.direction ≡ "in") × (ltb_ℤ baseline r.message_id ≡ true)

pub is_unread_lem :
    (chat_id baseline : ℤ) (r : MessageRow)
    → (is_unread chat_id baseline r ≡ true) ↔ IsUnread chat_id baseline r
is_unread_lem chat_id baseline r = (
  λ h. (
    (eqb_ℤ_iff r.chat_id chat_id).0 (ground arith),
    (eq_iff r.direction "in").0 (ground arith),
    ground arith,
  ),
  λ (same, incoming, later).
      rw ((eqb_ℤ_iff r.chat_id chat_id).1 same, (eq_iff r.direction "in").1 incoming, later) refl,
)

-- The newest message of the chat, if it has one.
abbrev pub IsNewest : ℤ → List MessageRow → Option ℤ → Type 0
IsNewest chat_id rows none = All (λ r. r.chat_id ≢ chat_id) rows
IsNewest chat_id rows (some n) =
    Any (λ r. (r.chat_id ≡ chat_id) × (r.message_id ≡ n)) rows
    × All (λ r. (r.chat_id ≢ chat_id) ⊎ (leb_ℤ r.message_id n ≡ true)) rows

max_ℤ-cases :
    (a b : ℤ) → ((max_ℤ a b ≡ a) × (leb_ℤ b a ≡ true)) ⊎ ((max_ℤ a b ≡ b) × (leb_ℤ a b ≡ true))
unfolding max_ℤ
max_ℤ-cases a b = elim (Bool-cases (ltb_ℤ b a)) [
  | inl e ↦ rw e (inl (refl, ground arith))
  | inr e ↦ rw e (inr (refl, ground arith))
]

IsNewest-own :
    (chat_id : ℤ) (r : MessageRow) (rows : List MessageRow) (rest : Option ℤ)
    → r.chat_id ≡ chat_id
    → IsNewest chat_id rows rest
    → IsNewest chat_id (r ∷ rows) (larger r.message_id rest)
IsNewest-own chat_id r rows none own none_there =
    (inl (own, refl), (inr (ground arith), All-mono _ _ rows (λ s other. inl other) none_there))
IsNewest-own chat_id r rows (some n) own (there, least) =
    let is_newest : ℤ → Type 0 = λ m. IsNewest chat_id (r ∷ rows) (some m) in
    elim (max_ℤ-cases r.message_id n) [
      | inl (e, newer) ↦ subst is_newest (sym e) (
        inl (own, refl),
        (
          inr (ground arith),
          All-mono _ _ rows
              (λ s h. elim h [ inl other ↦ inl other | inr below ↦ inr (ground arith) ]) least,
        ),
      )
      | inr (e, older) ↦ subst is_newest (sym e) (inr there, (inr older, least))
    ]

IsNewest-other :
    (chat_id : ℤ) (r : MessageRow) (rows : List MessageRow) (rest : Option ℤ)
    → r.chat_id ≢ chat_id
    → IsNewest chat_id rows rest
    → IsNewest chat_id (r ∷ rows) rest
IsNewest-other chat_id r rows none other h = (other, h)
IsNewest-other chat_id r rows (some n) other (there, least) = (inr there, (inl other, least))

pub max_message_id-IsNewest :
    (chat_id : ℤ) (rows : List MessageRow) → IsNewest chat_id rows (max_message_id chat_id rows)
unfolding max_message_id
max_message_id-IsNewest chat_id [] = tt
max_message_id-IsNewest chat_id (r ∷ rows) = elim (Bool-cases (eqb_ℤ r.chat_id chat_id)) [
  | inl own ↦ rw own (
      IsNewest-own chat_id r rows (max_message_id chat_id rows)
        ((eqb_ℤ_iff r.chat_id chat_id).0 own) (max_message_id-IsNewest chat_id rows))
  | inr other ↦ rw other (
      IsNewest-other chat_id r rows (max_message_id chat_id rows)
        (λ same. cc ((eqb_ℤ_iff r.chat_id chat_id).1 same, other))
        (max_message_id-IsNewest chat_id rows))
]

-- A row of `kv` that gives the chat no baseline: its key is not one of the chat, or its value is no
-- number.
abbrev pub IsIgnored : ℤ → String × String → Type 0
IsIgnored j (k, v) = (¬ IsKeyOf j k) ⊎ (parse_i64 v ≡ none)

-- The last row of `kv` that gives the chat a baseline, gives it this one.
abbrev pub IsLastSet : ℤ → List (String × String) → ℤ → Type 0
IsLastSet j kv b =
    (front : List (String × String)) × (back : List (String × String)) × (k : String) × (v : String)
    × (kv ≡ front ++ ((k, v) ∷ back))
    × IsKeyOf j k
    × (parse_i64 v ≡ some b)
    × All (IsIgnored j) back

-- The baseline of a chat is 0 if no row gives it one.
abbrev pub IsBaseline : ℤ → List (String × String) → ℤ → Type 0
IsBaseline j kv b = (All (IsIgnored j) kv × (b ≡ pos 0)) ⊎ IsLastSet j kv b

step_lem :
    (j : ℤ) (o v : Option ℤ) (b : ℤ)
    → (((o ≢ some j) ⊎ (v ≡ none)) × (baseline_step j o v b ≡ b))
      ⊎ ((o ≡ some j) × (v ≡ some (baseline_step j o v b)))
step_lem j none v b = inl (inl (λ e. cc e), refl)
step_lem j (some c) none b = inl (inr refl, refl)
step_lem j (some c) (some base) b = elim (Bool-cases (eqb_ℤ c j)) [
  | inl same ↦ rw same (inr (ap some ((eqb_ℤ_iff c j).0 same), refl))
  | inr differ ↦
      rw differ (inl (inl (λ e. cc ((eqb_ℤ_iff c j).1 (some-injective _ _ e), differ)), refl))
]

pub read_baseline_lem :
    (j : ℤ) (kv : List (String × String)) (b : ℤ)
    → (All (IsIgnored j) kv × (read_baseline j kv b ≡ b)) ⊎ IsLastSet j kv (read_baseline j kv b)
unfolding read_baseline
read_baseline_lem j [] b = inl (tt, refl)
read_baseline_lem j ((k, v) ∷ kv) b =
    let next = baseline_step j (chat_of_key k) (parse_i64 v) b in
    elim (read_baseline_lem j kv next) [
      | inr (front, back, k', v', e, own, value, ignored) ↦
          inr ((k, v) ∷ front, back, k', v', ap (◌∷◌ (k, v)) e, own, value, ignored)
      | inl (ignored, same) ↦ elim (step_lem j (chat_of_key k) (parse_i64 v) b) [
        | inl (inl other, kept) ↦
            inl ((inl (λ own. other ((chat_of_key_iff j k).1 own)), ignored), same ∙ kept)
        | inl (inr bad, kept) ↦ inl ((inr bad, ignored), same ∙ kept)
        | inr (own, value) ↦
            inr
              ([], kv, k, v, refl, (chat_of_key_iff j k).0 own, value ∙ ap some (sym same), ignored)
      ]
    ]
