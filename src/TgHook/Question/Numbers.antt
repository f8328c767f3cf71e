-- ===== src/TgHook/Question/Numbers.antt =====
-- The numbers that are read from a reply.
use Prim.Native.Char.{Char}
use telegram_mcpvscode.Prelude.{
  String, ◌<>◌, ℕ, ◌<◌, ◌^◌, Bool, false, not, List, [], ◌∷◌, ◌≡◌, refl, ap, ◌∙◌, All, length, map,
}
use text.Mathlib.TextLemmas.{nil-append, cons-append}
use telegram_mcpvscode.Prelude.Lists.{filter_by, filter_map}
use telegram_mcpvscode.Prelude.Text.{
  show_ℕ, is_digit, parse_u64, parse_u64-show_ℕ, AllDigits, show_ℕ-AllDigits,
}
use telegram_mcpvscode.Prelude.Split.{split_on, join}
use telegram_mcpvscode.TgHook.Question.{Question, flat_options, in_range, picks_of}

abbrev pub not_digit : Char → Bool
not_digit c = not (is_digit c)

split_on-AllDigits : (s : String) → AllDigits s → split_on not_digit s ≡ s ∷ []
unfolding split_on
split_on-AllDigits String.[] h = refl
split_on-AllDigits (String.◌∷◌ c s) (d, h) = rw (d, split_on-AllDigits s h) refl

-- A run of digits, up to a character that is none.
split_on-run :
    (s : String) (c : Char) (rest : String)
    → AllDigits s
    → is_digit c ≡ false
    → split_on not_digit (s <> String.◌∷◌ c rest) ≡ s ∷ split_on not_digit rest
unfolding split_on
split_on-run String.[] c rest h e = rw (nil-append, split_on, e) refl
split_on-run (String.◌∷◌ d s) c rest (h, hs) e =
    rw (cons-append, split_on, h, split_on-run s c rest hs e) refl

comma-append : (rest : String) → ", " <> rest ≡ String.◌∷◌ "," (String.◌∷◌ " " rest)
comma-append rest =
    cons-append "," " " rest
    ∙ ap (λ t. String.◌∷◌ "," t)
        (cons-append " " "" rest ∙ ap (λ t. String.◌∷◌ " " t) (nil-append rest))

split_on-comma :
    (s rest : String)
    → AllDigits s
    → split_on not_digit (s <> ", " <> rest) ≡ s ∷ "" ∷ split_on not_digit rest
unfolding split_on is_digit
split_on-comma s rest h = rw comma-append (split_on-run s "," (String.◌∷◌ " " rest) h refl)

abbrev pub numbers_in : String → List ℕ
numbers_in reply = filter_map parse_u64 (split_on not_digit reply)

-- Numbers that a user lists are read back.
pub numbers_in-join :
    (ns : List ℕ) → All (λ n. n < 2 ^ 64) ns → numbers_in (join ", " (map show_ℕ ns)) ≡ ns
unfolding join filter_map split_on parse_u64
numbers_in-join [] h = refl
numbers_in-join (n ∷ []) (h, _) =
    rw (split_on-AllDigits (show_ℕ n) (show_ℕ-AllDigits n), filter_map, parse_u64-show_ℕ n h) refl
numbers_in-join (n ∷ m ∷ ns) (h, hs) =
    rw
      (
        split_on-comma (show_ℕ n) (join ", " (map show_ℕ (m ∷ ns))) (show_ℕ-AllDigits n),
        filter_map,
        parse_u64-show_ℕ n h,
      )
      (ap (◌∷◌ n) (numbers_in-join (m ∷ ns) hs))

-- The numbers that the user lists, less those that no option has.
pub picks_of-join :
    (questions : List Question) (ns : List ℕ)
    → All (λ n. n < 2 ^ 64) ns
    → picks_of questions (join ", " (map show_ℕ ns))
      ≡ filter_by (in_range (length (flat_options questions))) ns
unfolding picks_of
picks_of-join questions ns h =
    ap (filter_by (in_range (length (flat_options questions)))) (numbers_in-join ns h)
