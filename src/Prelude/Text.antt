-- ===== src/Prelude/Text.antt =====
-- Decimal text of integers, as `to_string` writes it and `parse` reads it.
use Prim.Native.Nat.{ℕ, zero, suc, ◌+◌, ◌-◌, ◌*◌, ◌/◌, ◌%◌, ◌^◌, ◌<◌}
use Prim.Native.Char.{Char, code}
use Prim.Native.String.{String}
use mathlib.Core.Path.{◌≡◌, refl, subst, ◌∙◌}
use mathlib.Core.Logic.{inl, inr}
use mathlib.Core.Bool.{Bool, true, ◌&&◌}
use mathlib.Core.Option.{Option, none, some}
use native.Mathlib.Omega.{arith}
use telegram_mcpvscode.Prelude.Tests.{ltb, leb, ◌==◌, if◌then◌else◌, Bool-cases}
use telegram_mcpvscode.Prelude.Int.{ℤ, pos, negsuc, in_i64, InI64}

digit : ℕ → Char
digit zero = "0"
digit (suc zero) = "1"
digit (suc (suc zero)) = "2"
digit (suc (suc (suc zero))) = "3"
digit (suc (suc (suc (suc zero)))) = "4"
digit (suc (suc (suc (suc (suc zero))))) = "5"
digit (suc (suc (suc (suc (suc (suc zero)))))) = "6"
digit (suc (suc (suc (suc (suc (suc (suc zero))))))) = "7"
digit (suc (suc (suc (suc (suc (suc (suc (suc zero)))))))) = "8"
digit (suc (suc (suc (suc (suc (suc (suc (suc (suc n))))))))) = "9"

code-digit : (d : ℕ) → d < 10 → code (digit d) ≡ 48 + d
unfolding digit
code-digit zero h = refl
code-digit (suc zero) h = refl
code-digit (suc (suc zero)) h = refl
code-digit (suc (suc (suc zero))) h = refl
code-digit (suc (suc (suc (suc zero)))) h = refl
code-digit (suc (suc (suc (suc (suc zero))))) h = refl
code-digit (suc (suc (suc (suc (suc (suc zero)))))) h = refl
code-digit (suc (suc (suc (suc (suc (suc (suc zero))))))) h = refl
code-digit (suc (suc (suc (suc (suc (suc (suc (suc zero)))))))) h = refl
code-digit (suc (suc (suc (suc (suc (suc (suc (suc (suc zero))))))))) h = refl
code-digit (suc (suc (suc (suc (suc (suc (suc (suc (suc (suc n)))))))))) h = absurd (omega arith)

unfoldable pub is_digit : Char → Bool
is_digit c = leb 48 (code c) && leb (code c) 57

digits : ℕ → ℕ → String → String
digits zero n rest = rest
digits (suc f) n rest =
    let more = digits f (n / 10) (String.◌∷◌ (digit (n % 10)) rest) in
    if ltb n 10 then String.◌∷◌ (digit n) rest else more

-- `to_string` on an unsigned number. The fuel is never used up.
unfoldable pub show_ℕ : ℕ → String
unfolding digits digit
show_ℕ n = digits (suc n) n String.[]

unfoldable pub show_ℤ : ℤ → String
unfolding show_ℕ
show_ℤ (pos n) = show_ℕ n
show_ℤ (negsuc n) = String.◌∷◌ "-" (show_ℕ (suc n))

read : ℕ → String → Option ℕ
read acc String.[] = some acc
read acc (String.◌∷◌ c s) =
    let more = read (acc * 10 + (code c - 48)) s in if is_digit c then more else none

read_digits : String → Option ℕ
read_digits String.[] = none
read_digits (String.◌∷◌ c s) = read 0 (String.◌∷◌ c s)

signed : Char → String → Option ℤ
signed c s =
    if code c == 45
    then elim (read_digits s) [
      | none ↦ none
      | some zero ↦ some (pos 0)
      | some (suc n) ↦ some (negsuc n)
    ]
    else if code c == 43
    then elim (read_digits s) [ none ↦ none | some n ↦ some (pos n) ]
    else elim (read_digits (String.◌∷◌ c s)) [ none ↦ none | some n ↦ some (pos n) ]

-- `str::parse::<i64>`
unfoldable pub parse_i64 : String → Option ℤ
unfolding signed read_digits read is_digit
parse_i64 String.[] = none
parse_i64 (String.◌∷◌ c s) = elim (signed c s) [
  | none ↦ none
  | some n ↦ if in_i64 n then some n else none
]

-- Reading back what `digits` wrote goes on with the number itself.
read-digits : (f n : ℕ) (rest : String) → n < f → read 0 (digits f n rest) ≡ read n rest
unfolding read digits is_digit
read-digits zero n rest h = absurd (omega arith)
read-digits (suc f) n rest h = elim (Bool-cases (ltb n 10)) [
  | inl small ↦ rw small (ground (arith, code-digit n))
  | inr big ↦ rw big (read-digits f (n / 10) _ (ground arith) ∙ ground (arith, code-digit (n % 10)))
]

-- A text whose first character is a decimal digit.
abbrev StartsDigit : String → Type 0
StartsDigit t = (c : Char) × (s : String) × (t ≡ String.◌∷◌ c s) × (is_digit c ≡ true)

is_digit-digit : (d : ℕ) → d < 10 → is_digit (digit d) ≡ true
unfolding is_digit
is_digit-digit d h = ground (arith, code-digit d)

digits-StartsDigit :
    (f n : ℕ) (c : Char) (s : String)
    → is_digit c ≡ true
    → StartsDigit (digits f n (String.◌∷◌ c s))
unfolding digits
digits-StartsDigit zero n c s h = (c, s, refl, h)
digits-StartsDigit (suc f) n c s h = elim (Bool-cases (ltb n 10)) [
  | inl small ↦ rw small (digit n, String.◌∷◌ c s, refl, is_digit-digit n (ground arith))
  | inr big ↦
      rw big
        (digits-StartsDigit f (n / 10) (digit (n % 10)) _ (is_digit-digit (n % 10) (omega arith)))
]

show_ℕ-StartsDigit : (n : ℕ) → StartsDigit (show_ℕ n)
unfolding digits show_ℕ
show_ℕ-StartsDigit n = elim (Bool-cases (ltb n 10)) [
  | inl small ↦ rw small (digit n, String.[], refl, is_digit-digit n (ground arith))
  | inr big ↦
      rw big
        (digits-StartsDigit n (n / 10) (digit (n % 10)) _ (is_digit-digit (n % 10) (omega arith)))
]

read-show_ℕ : (n : ℕ) → read 0 (show_ℕ n) ≡ some n
unfolding show_ℕ read
read-show_ℕ n = read-digits (suc n) n String.[] (omega arith)

read_digits-show_ℕ : (n : ℕ) → read_digits (show_ℕ n) ≡ some n
unfolding read_digits
read_digits-show_ℕ n =
    let (c, s, e, h) = show_ℕ-StartsDigit n in rw (e, read_digits) (rw (← e) (read-show_ℕ n))

parse_i64-pos : (n : ℕ) → InI64 (pos n) → parse_i64 (show_ℕ n) ≡ some (pos n)
unfolding parse_i64 is_digit
parse_i64-pos n h =
    let (c, s, e, d) = show_ℕ-StartsDigit n in
    let r : read_digits (String.◌∷◌ c s) ≡ some n =
      subst (λ x. read_digits x ≡ some n) e (read_digits-show_ℕ n) in
    rw (e, parse_i64) (ground (arith, r))

-- What `to_string` writes for an `i64`, `parse` reads back.
pub parse_i64-show_ℤ : (n : ℤ) → InI64 n → parse_i64 (show_ℤ n) ≡ some n
unfolding show_ℤ
parse_i64-show_ℤ (pos n) h = parse_i64-pos n h
parse_i64-show_ℤ (negsuc n) h = unfold parse_i64 in ground (arith, read_digits-show_ℕ (suc n))

unsigned : Char → String → Option ℕ
unsigned c s = if code c == 43 then read_digits s else read_digits (String.◌∷◌ c s)

-- `str::parse::<u64>`
unfoldable pub parse_u64 : String → Option ℕ
unfolding unsigned read_digits read is_digit
parse_u64 String.[] = none
parse_u64 (String.◌∷◌ c s) = elim (unsigned c s) [
  | none ↦ none
  | some n ↦ if ltb n (2 ^ 64) then some n else none
]

pub parse_u64-show_ℕ : (n : ℕ) → n < 2 ^ 64 → parse_u64 (show_ℕ n) ≡ some n
unfolding parse_u64 is_digit
parse_u64-show_ℕ n h =
    let (c, s, e, d) = show_ℕ-StartsDigit n in
    let r : read_digits (String.◌∷◌ c s) ≡ some n =
      subst (λ x. read_digits x ≡ some n) e (read_digits-show_ℕ n) in
    rw (e, parse_u64) (ground (arith, r))

-- A text of decimal digits.
abbrev pub AllDigits : String → Type 0
AllDigits String.[] = Unit
AllDigits (String.◌∷◌ c s) = (is_digit c ≡ true) × AllDigits s

digits-AllDigits : (f n : ℕ) (rest : String) → AllDigits rest → AllDigits (digits f n rest)
unfolding digits
digits-AllDigits zero n rest h = h
digits-AllDigits (suc f) n rest h = elim (Bool-cases (ltb n 10)) [
  | inl small ↦ rw small (is_digit-digit n (ground arith), h)
  | inr big ↦ rw big (digits-AllDigits f (n / 10) _ (is_digit-digit (n % 10) (omega arith), h))
]

pub show_ℕ-AllDigits : (n : ℕ) → AllDigits (show_ℕ n)
unfolding show_ℕ
show_ℕ-AllDigits n = digits-AllDigits (suc n) n String.[] tt
