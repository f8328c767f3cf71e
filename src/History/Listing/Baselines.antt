-- ===== src/History/Listing/Baselines.antt =====
-- How the rows of `kv` give the baseline of a chat, before and after `mark_read` writes one.
use mathlib.Core.Option.{some-injective}
use text.Mathlib.TextEquality.{Char-path}
use text.Mathlib.TextLemmas.{nil-append, cons-append}
use Prim.Native.Char.{code}
use telegram_mcpvscode.Prelude.{
  String, ◌<>◌, ℤ, pos, true, Option, none, some, List, [], ◌∷◌, ◌++◌, ◌≡◌, ◌≢◌, ◌↔◌, refl, ap, sym,
  subst, ◌∙◌, ◌⊎◌, inl, inr, All, eqb_ℤ, eqb_ℤ_iff, str_eq, eq_iff, ==_iff, ◌==◌, Bool-cases,
  if◌then◌else◌,
}
use telegram_mcpvscode.Prelude.Int.{eqb_ℤ_refl, InI64}
use telegram_mcpvscode.Prelude.Lists.{find_by, any_by, update_first}
use telegram_mcpvscode.Prelude.Text.{show_ℤ, parse_i64, parse_i64-show_ℤ}
use telegram_mcpvscode.History.Conn.{Db}
use telegram_mcpvscode.History.Sql.{upsert_kv, key_is}
use telegram_mcpvscode.History.Store.{baseline_key}
use telegram_mcpvscode.History.Listing.{
  strip_prefix, Baselines, add_parsed, add_baseline, collect_baselines, baseline_of,
}

-- The chat whose baseline a key holds.
abbrev pub chat_of_id : Option String → Option ℤ
chat_of_id none = none
chat_of_id (some id_str) = parse_i64 id_str

abbrev pub chat_of_key : String → Option ℤ
chat_of_key key = chat_of_id (strip_prefix "last_unread_baseline:" key)

-- A key is one of the chat: the prefix, and then a number that is the chat's id.
abbrev pub IsKeyOf : ℤ → String → Type 0
IsKeyOf j key =
    (id_str : String) × (key ≡ "last_unread_baseline:" <> id_str) × (parse_i64 id_str ≡ some j)

-- At most one row holds the baseline of the chat, and that under the key that `mark_read` writes.
abbrev pub HasOneKey : ℤ → List (String × String) → Type 0
HasOneKey chat_id [] = Unit
HasOneKey chat_id ((key, value) ∷ rows) =
    ((key ≡ baseline_key chat_id) × All (λ (k, v). ¬ IsKeyOf chat_id k) rows)
    ⊎ ((¬ IsKeyOf chat_id key) × HasOneKey chat_id rows)

strip_prefix-append : (p s : String) → strip_prefix p (p <> s) ≡ some s
unfolding strip_prefix
strip_prefix-append String.[] s = rw (nil-append s) refl
strip_prefix-append (String.◌∷◌ c p) s =
    rw (cons-append c p s) (rw ((==_iff (code c) (code c)).1 refl) (strip_prefix-append p s))

strip_prefix_sound : (p s r : String) → strip_prefix p s ≡ some r → s ≡ p <> r
unfolding strip_prefix
strip_prefix_sound String.[] s r h = some-injective _ _ h ∙ sym (nil-append r)
strip_prefix_sound (String.◌∷◌ c p) String.[] r h = cc h
strip_prefix_sound (String.◌∷◌ c p) (String.◌∷◌ d s) r h = elim (Bool-cases (code c == code d)) [
  | inl same ↦
      let e : c ≡ d = Char-path c d ((==_iff (code c) (code d)).0 same) in
      ap (String.◌∷◌ d) (strip_prefix_sound p s r (rw same at h))
      ∙ ap (λ x. String.◌∷◌ x (p <> r)) (sym e)
      ∙ sym (cons-append c p r)
  | inr differ ↦ cc (rw differ at h)
]

pub chat_of_key_iff : (j : ℤ) (key : String) → (chat_of_key key ≡ some j) ↔ IsKeyOf j key
chat_of_key_iff j key = (
  λ h. parsed (strip_prefix "last_unread_baseline:" key) refl h,
  λ (id_str, e, is). rw (e, strip_prefix-append "last_unread_baseline:" id_str) is,
)
  where
    parsed :
        (o : Option String)
        → strip_prefix "last_unread_baseline:" key ≡ o
        → chat_of_id o ≡ some j
        → IsKeyOf j key
    parsed none e h = cc h
    parsed (some id_str) e h = (id_str, strip_prefix_sound "last_unread_baseline:" key id_str e, h)

-- The baseline of a chat after a row, and after all rows.
abbrev pub baseline_step : ℤ → Option ℤ → Option ℤ → ℤ → ℤ
baseline_step j none value b = b
baseline_step j (some c) none b = b
baseline_step j (some c) (some base) b = if eqb_ℤ c j then base else b

unfoldable pub read_baseline : ℤ → List (String × String) → ℤ → ℤ
read_baseline j [] b = b
read_baseline j ((key, value) ∷ rows) b =
    read_baseline j rows (baseline_step j (chat_of_key key) (parse_i64 value) b)

baseline_of-add_parsed :
    (j : ℤ) (o v : Option ℤ) (bs : Baselines)
    → baseline_of j (add_parsed o v bs) ≡ baseline_step j o v (baseline_of j bs)
unfolding baseline_of find_by
baseline_of-add_parsed j none v bs = refl
baseline_of-add_parsed j (some c) none bs = refl
baseline_of-add_parsed j (some c) (some b) bs = elim (Bool-cases (eqb_ℤ c j)) [
  | inl same ↦ rw same refl
  | inr differ ↦ rw differ refl
]

baseline_of-add_baseline :
    (j : ℤ) (id_str : Option String) (value : String) (bs : Baselines)
    → baseline_of j (add_baseline id_str value bs)
      ≡ baseline_step j (chat_of_id id_str) (parse_i64 value) (baseline_of j bs)
baseline_of-add_baseline j none value bs = refl
baseline_of-add_baseline j (some id_str) value bs =
    baseline_of-add_parsed j (parse_i64 id_str) (parse_i64 value) bs

pub baseline_of-collect_baselines :
    (j : ℤ) (rows : List (String × String)) (bs : Baselines)
    → baseline_of j (collect_baselines rows bs) ≡ read_baseline j rows (baseline_of j bs)
unfolding collect_baselines read_baseline
baseline_of-collect_baselines j [] bs = refl
baseline_of-collect_baselines j ((key, value) ∷ rows) bs =
    baseline_of-collect_baselines j rows _
    ∙ ap (read_baseline j rows)
        (baseline_of-add_baseline j (strip_prefix "last_unread_baseline:" key) value bs)

-- Rows that are not of the chat.
baseline_step_other : (j : ℤ) (o v : Option ℤ) (b : ℤ) → o ≢ some j → baseline_step j o v b ≡ b
baseline_step_other j none v b other = refl
baseline_step_other j (some c) none b other = refl
baseline_step_other j (some c) (some base) b other = elim (Bool-cases (eqb_ℤ c j)) [
  | inl same ↦ let e : c ≡ j = (eqb_ℤ_iff c j).0 same in absurd (other (cc e))
  | inr differ ↦ rw differ refl
]

read_baseline_other :
    (j : ℤ) (rows : List (String × String)) (b : ℤ)
    → All (λ (k, v). ¬ IsKeyOf j k) rows
    → read_baseline j rows b ≡ b
unfolding read_baseline
read_baseline_other j [] b others = refl
read_baseline_other j ((key, value) ∷ rows) b (other, others) =
    read_baseline_other j rows _ others
    ∙ baseline_step_other j (chat_of_key key) (parse_i64 value) b
        (λ h. other ((chat_of_key_iff j key).0 h))

read_baseline-append :
    (j : ℤ) (rows more : List (String × String)) (b : ℤ)
    → read_baseline j (rows ++ more) b ≡ read_baseline j more (read_baseline j rows b)
unfolding read_baseline
read_baseline-append j [] more b = refl
read_baseline-append j ((key, value) ∷ rows) more b = read_baseline-append j rows more _

module _ (chat_id up_to : ℤ) (chat_in_range : InI64 chat_id) (up_to_in_range : InI64 up_to) where
  chat_of_key-baseline_key : chat_of_key (baseline_key chat_id) ≡ some chat_id
  chat_of_key-baseline_key =
      rw (strip_prefix-append "last_unread_baseline:" (show_ℤ chat_id))
        (parse_i64-show_ℤ chat_id chat_in_range)

  -- The row that `mark_read` writes.
  written_step :
      (j b : ℤ)
      → baseline_step j (chat_of_key (baseline_key chat_id)) (parse_i64 (show_ℤ up_to)) b
        ≡ (if eqb_ℤ chat_id j then up_to else b)
  written_step j b = rw (chat_of_key-baseline_key, parse_i64-show_ℤ up_to up_to_in_range) refl

  abbrev marked_row : String × String → String × String
  marked_row (k, v) = (k, show_ℤ up_to)

  -- The rows below the one for the chat do not change its baseline.
  read_marked :
      (j b : ℤ) (value : Option ℤ) (rows : List (String × String))
      → All (λ (k, v). ¬ IsKeyOf chat_id k) rows
      → read_baseline j rows (if eqb_ℤ chat_id j then up_to else b) ≡ (
          if eqb_ℤ chat_id j
          then up_to
          else read_baseline j rows (baseline_step j (some chat_id) value b))
  read_marked j b value rows others = elim (Bool-cases (eqb_ℤ chat_id j)) [
    | inl same ↦
        let e : chat_id ≡ j = (eqb_ℤ_iff chat_id j).0 same in
        rw same (
          read_baseline_other j rows up_to
            (subst (λ c. All (λ (k, v). ¬ IsKeyOf c k) rows) e others))
    | inr differ ↦ rw differ (
        ap (read_baseline j rows)
          (sym (baseline_step_other j (some chat_id) value b (λ e. cc (e, differ, eqb_ℤ_refl j)))))
  ]

  read_updated :
      (j b : ℤ) (rows : List (String × String))
      → HasOneKey chat_id rows
      → any_by (key_is (baseline_key chat_id)) rows ≡ true
      → read_baseline j (update_first (key_is (baseline_key chat_id)) marked_row rows) b
        ≡ (if eqb_ℤ chat_id j then up_to else read_baseline j rows b)
  unfolding any_by update_first read_baseline
  read_updated j b [] one there = cc there
  read_updated j b ((key, value) ∷ rows) (inl (own, others)) there =
      rw
        ((eq_iff key (baseline_key chat_id)).1 own, own, written_step j b, chat_of_key-baseline_key)
        (read_marked j b (parse_i64 value) rows others)
  read_updated j b ((key, value) ∷ rows) (inr (other, one)) there =
      elim (Bool-cases (str_eq key (baseline_key chat_id))) [
        | inl same ↦
            let e : key ≡ baseline_key chat_id = (eq_iff key (baseline_key chat_id)).0 same in
            absurd (
              other ((chat_of_key_iff chat_id key).0 (ap chat_of_key e ∙ chat_of_key-baseline_key)))
        | inr differ ↦ rw differ (
            read_updated j (baseline_step j (chat_of_key key) (parse_i64 value) b) rows one
              (rw differ at there))
      ]

  pub read_upsert_kv :
      (j : ℤ) (db : Db)
      → HasOneKey chat_id db.kv
      → read_baseline j (upsert_kv (baseline_key chat_id) (show_ℤ up_to) db).kv (pos 0)
        ≡ (if eqb_ℤ chat_id j then up_to else read_baseline j db.kv (pos 0))
  unfolding upsert_kv
  read_upsert_kv j db one = elim (Bool-cases (any_by (key_is (baseline_key chat_id)) db.kv)) [
    | inl there ↦ rw there (read_updated j (pos 0) db.kv one there)
    | inr new ↦ rw new (
        read_baseline-append j db.kv _ (pos 0)
        ∙ unfold read_baseline in written_step j (read_baseline j db.kv (pos 0)))
  ]
