-- ===== src/TgHook/Wake/Chunks.antt =====
-- The chunks fit, and nothing but white space is lost.
use Prim.Native.Char.{Char, code}
use telegram_mcpvscode.Prelude.{
  String, ◌<>◌, ℕ, zero, suc, ◌+◌, ◌-◌, ◌≤◌, true, false, Option, none, some, List, [], ◌∷◌, ◌≡◌,
  refl, sym, ap, subst, ◌∙◌, inl, inr, arith, All, Bool-cases, if-cases, if◌then◌else◌, ltb, ltb→lt,
  leb, leb→le, ◌==◌,
}
use text.Mathlib.TextLemmas.{nil-append, cons-append, append-nil, append_assoc}
use telegram_mcpvscode.Prelude.Split.{width, bytes}
use telegram_mcpvscode.Prelude.Trim.{is_whitespace, is_empty, trim_start, trim_end}
use telegram_mcpvscode.TgHook.Wake.{
  split_at_boundary, rfind_newline, cut_at, cut, last_chunk, after_char, split_rounds,
  split_message,
}

-- The characters that are no white space.
unfoldable pub visible : String → String
visible String.[] = ""
visible (String.◌∷◌ c s) =
    let rest = visible s in if is_whitespace c then rest else String.◌∷◌ c rest

abbrev pub concat : List String → String
concat [] = ""
concat (s ∷ ss) = s <> concat ss

visible-append : (a b : String) → visible (a <> b) ≡ visible a <> visible b
unfolding visible
visible-append String.[] b = rw nil-append (sym (nil-append (visible b)))
visible-append (String.◌∷◌ c a) b = elim (Bool-cases (is_whitespace c)) [
  | inl w ↦ rw (cons-append, visible, w) (visible-append a b)
  | inr w ↦
      rw (cons-append, visible, w, cons-append) (ap (λ t. String.◌∷◌ c t) (visible-append a b))
]

visible-trim_start : (s : String) → visible (trim_start s) ≡ visible s
unfolding visible trim_start
visible-trim_start String.[] = refl
visible-trim_start (String.◌∷◌ c s) = elim (Bool-cases (is_whitespace c)) [
  | inl w ↦ rw (w, visible-trim_start s) refl
  | inr w ↦ rw (w, visible, w) refl
]

is_empty-visible : (s : String) → is_empty s ≡ true → visible s ≡ ""
unfolding visible
is_empty-visible String.[] h = refl
is_empty-visible (String.◌∷◌ c s) h = cc

visible-trim_end : (s : String) → visible (trim_end s) ≡ visible s
unfolding visible trim_end
visible-trim_end String.[] = refl
visible-trim_end (String.◌∷◌ c s) = elim (Bool-cases (is_empty (trim_end s))) [
  | inl e ↦ elim (Bool-cases (is_whitespace c)) [
    | inl w ↦ rw (e, w) (sym (is_empty-visible (trim_end s) e) ∙ visible-trim_end s)
    | inr w ↦ rw (e, w, visible, w) (ap (λ t. String.◌∷◌ c t) (visible-trim_end s))
  ]
  | inr e ↦ rw (e, visible, visible-trim_end s) refl
]

bytes-trim_start : (s : String) → bytes (trim_start s) ≤ bytes s
unfolding bytes trim_start
bytes-trim_start String.[] = omega arith
bytes-trim_start (String.◌∷◌ c s) = ground (arith, bytes-trim_start s)

bytes-trim_end : (s : String) → bytes (trim_end s) ≤ bytes s
unfolding bytes trim_end
bytes-trim_end String.[] = omega arith
bytes-trim_end (String.◌∷◌ c s) = ground (arith, bytes-trim_end s)

bytes-append : (a b : String) → bytes (a <> b) ≡ bytes a + bytes b
unfolding bytes
bytes-append String.[] b = rw nil-append (omega arith)
bytes-append (String.◌∷◌ c a) b = rw (cons-append, bytes) (omega (arith, bytes-append a b))

width_bounds : (c : Char) → (1 ≤ width c) × (width c ≤ 4)
unfolding width
width_bounds c = ground arith

split_at_boundary-append : (n : ℕ) (s : String) → let (a, b) = split_at_boundary n s in a <> b ≡ s
unfolding split_at_boundary
split_at_boundary-append n String.[] = nil-append ""
split_at_boundary-append n (String.◌∷◌ c s) = elim (Bool-cases (leb (width c) n)) [
  | inl fits ↦
      rw fits
        (cons-append c _ _ ∙ ap (λ t. String.◌∷◌ c t) (split_at_boundary-append (n - width c) s))
  | inr long ↦ rw long (nil-append _)
]

bytes-split_at_boundary : (n : ℕ) (s : String) → bytes ((split_at_boundary n s).0) ≤ n
unfolding split_at_boundary bytes
bytes-split_at_boundary n String.[] = omega arith
bytes-split_at_boundary n (String.◌∷◌ c s) = elim (Bool-cases (leb (width c) n)) [
  | inl fits ↦
      rw (fits, bytes)
        (let h = leb→le (width c) n fits in omega (arith, bytes-split_at_boundary (n - width c) s))
  | inr long ↦ rw long (omega arith)
]

leb_le : (a b : ℕ) → a ≤ b → leb a b ≡ true
leb_le a b h = ground arith

-- A slice of four bytes has room for a character.
split_at_boundary-pos :
    (n : ℕ) (s : String) → 4 ≤ n → 1 ≤ bytes s → 1 ≤ bytes ((split_at_boundary n s).0)
unfolding split_at_boundary bytes
split_at_boundary-pos n String.[] room h = absurd (omega arith)
split_at_boundary-pos n (String.◌∷◌ c s) room h =
    let (small, large) = width_bounds c in
    let fits : leb (width c) n ≡ true = leb_le (width c) n (omega arith) in
    rw (fits, bytes) (omega arith)

-- The parts make up the text.
abbrev IsSplit : String → Option (String × String) → Type 0
IsSplit s none = Unit
IsSplit s (some (before, from)) = before <> from ≡ s

rfind_newline-IsSplit : (s : String) → IsSplit s (rfind_newline s)
unfolding rfind_newline
rfind_newline-IsSplit String.[] = tt
rfind_newline-IsSplit (String.◌∷◌ c s) = go (rfind_newline s) (rfind_newline-IsSplit s)
  where
    go :
        (o : Option (String × String))
        → IsSplit s o
        → IsSplit (String.◌∷◌ c s) (elim o [
          | some st ↦ some (after_char c st)
          | none ↦ if code c == 10 then some ("", String.◌∷◌ c s) else none
        ])
    go (some (before, from)) h = cons-append c before from ∙ ap (λ t. String.◌∷◌ c t) h
    go none h = if-cases (IsSplit (String.◌∷◌ c s)) (code c == 10) (λ e. nil-append _) (λ e. tt)

not_empty : (s : String) → is_empty s ≡ false → 1 ≤ bytes s
unfolding bytes
not_empty String.[] h = cc
not_empty (String.◌∷◌ c s) h = let (small, large) = width_bounds c in omega arith

-- The parts at the cut make up the text, and the first has a byte and no more than the slice.
abbrev IsCut : String → String → String × String → Type 0
IsCut slice after (front, back) =
    (front <> back ≡ slice <> after) × (1 ≤ bytes front) × (bytes front ≤ bytes slice)

cut_at-IsCut :
    (found : Option (String × String)) (slice after : String)
    → IsSplit slice found
    → 1 ≤ bytes slice
    → IsCut slice after (cut_at found slice after)
cut_at-IsCut none slice after h p = (refl, p, omega arith)
cut_at-IsCut (some (before, from)) slice after h p =
    if-cases (IsCut slice after) (is_empty before) (λ e. (refl, p, omega arith))
      (λ e. (
        sym (append_assoc before from after) ∙ ap (λ t. t <> after) h,
        not_empty before e,
        omega (arith, bytes-append before from, ap bytes h),
      ))

abbrev Fits : ℕ → String → Type 0
Fits max_len s = bytes s ≤ max_len

-- What the loop needs of a round.
cut_lem :
    (max_len : ℕ) (s : String)
    → 4 ≤ max_len
    → 1 ≤ bytes s
    → let (front, back) = cut max_len s in
      (front <> back ≡ s) × (1 ≤ bytes front) × (bytes front ≤ max_len)
unfolding cut
cut_lem max_len s room h =
    let whole = split_at_boundary-append max_len s in
    let (joined, pos, less) =
      cut_at-IsCut (rfind_newline ((split_at_boundary max_len s).0))
        ((split_at_boundary max_len s).0) ((split_at_boundary max_len s).1)
        (rfind_newline-IsSplit ((split_at_boundary max_len s).0))
        (split_at_boundary-pos max_len s room h) in
    (joined ∙ whole, pos, omega (arith, bytes-split_at_boundary max_len s))

-- Every chunk fits, and together they show what the text shows.
abbrev pub Shows : ℕ → String → List String → Type 0
Shows max_len text chunks = All (Fits max_len) chunks × (visible (concat chunks) ≡ visible text)

last_chunk-Shows : (max_len : ℕ) (s : String) → bytes s ≤ max_len → Shows max_len s (last_chunk s)
last_chunk-Shows max_len String.[] h = (tt, refl)
last_chunk-Shows max_len (String.◌∷◌ c s) h = ((h, tt), ap visible (append-nil _))

trimmed-Shows :
    (max_len : ℕ) (front back : String) (rest : List String)
    → bytes front ≤ max_len
    → Shows max_len (trim_start back) rest
    → Shows max_len (front <> back) (trim_end front ∷ rest)
trimmed-Shows max_len front back rest fits (all_fit, shown) = (
  (omega (arith, bytes-trim_end front), all_fit),
  visible-append (trim_end front) (concat rest)
      ∙ ap (λ t. t <> visible (concat rest)) (visible-trim_end front)
      ∙ ap (λ t. visible front <> t) (shown ∙ visible-trim_start back)
      ∙ sym (visible-append front back),
)

split_rounds-Shows :
    (fuel max_len : ℕ) (s : String)
    → 4 ≤ max_len
    → bytes s ≤ fuel + max_len
    → Shows max_len s (split_rounds fuel max_len s)
unfolding split_rounds
split_rounds-Shows zero max_len s room enough = last_chunk-Shows max_len s (omega arith)
split_rounds-Shows (suc fuel) max_len s room enough =
    let (front, back) = cut max_len s in
    let further : bytes (trim_start back) ≤ fuel + max_len
        → Shows max_len (trim_start back) (split_rounds fuel max_len (trim_start back)) =
      split_rounds-Shows fuel max_len (trim_start back) room in
    if-cases (Shows max_len s) (ltb max_len (bytes s))
      (λ long.
        let (whole, pos, fits) =
          cut_lem max_len s room (omega (arith, ltb→lt max_len (bytes s) long)) in
        subst (λ t. Shows max_len t (trim_end front ∷ split_rounds fuel max_len (trim_start back)))
          whole
          (trimmed-Shows max_len front back _ fits (
            further
              (omega (arith, bytes-trim_start back, bytes-append front back, ap bytes whole)))))
      (λ short. last_chunk-Shows max_len s (ground (arith, short)))

-- For a limit of four bytes or more, every chunk of the text has at most that many bytes in UTF-8,
-- and the chunks after one another have the same characters as the text in the same order, white
-- space left out.
pub split_message-Shows :
    (text : String) (max_len : ℕ) → 4 ≤ max_len → Shows max_len text (split_message text max_len)
unfolding split_message
split_message-Shows text max_len room =
    if-cases (Shows max_len text) (leb (bytes text) max_len)
      (λ short. ((leb→le (bytes text) max_len short, tt), ap visible (append-nil text)))
      (λ long. split_rounds-Shows (bytes text) max_len text room (omega arith))
