-- ===== src/LocalPipe/Civil/Calendar.antt =====
-- The algorithm of `epoch_to_civil` against a calendar that counts days year by year and month by
-- month.
use native.Mathlib.Numerals.{add-one}
use telegram_mcpvscode.Prelude.{
  ℕ, zero, suc, ◌+◌, ◌-◌, ◌*◌, ◌/◌, ◌%◌, ◌≤◌, ◌<◌, Bool, true, false, not, ◌&&◌, ◌||◌, List, [],
  ◌∷◌, ◌≡◌, ◌≢◌, refl, ap, arith, ◌==◌, ==_iff, if-cases, if◌then◌else◌,
}
use telegram_mcpvscode.LocalPipe.Civil.{year_of_era, day_of_year}

-- The leap rule of the Gregorian calendar, and the lengths of months and years.
abbrev pub is_leap : ℕ → Bool
is_leap y = (y % 400 == 0) || ((y % 4 == 0) && not (y % 100 == 0))

-- From January on, behind an entry for no month.
abbrev pub month_lengths : Bool → List ℕ
month_lengths leap =
    0 ∷ 31 ∷ (if leap then 29 else 28) ∷ 31 ∷ 30 ∷ 31 ∷ 30 ∷ 31 ∷ 31 ∷ 30 ∷ 31 ∷ 30 ∷ 31 ∷ []

abbrev pub entry : List ℕ → ℕ → ℕ
entry [] i = 0
entry (n ∷ ns) zero = n
entry (n ∷ ns) (suc i) = entry ns i

abbrev pub total_before : List ℕ → ℕ → ℕ
total_before [] i = 0
total_before (n ∷ ns) zero = 0
total_before (n ∷ ns) (suc i) = n + total_before ns i

abbrev pub days_in_month : ℕ → ℕ → ℕ
days_in_month y m = entry (month_lengths (is_leap y)) m

abbrev pub days_in_year : ℕ → ℕ
days_in_year y = if is_leap y then 366 else 365

-- The days from 1 January of the year 0 to that of the year, and within the year to the first of the month.
unfoldable pub days_before_year : ℕ → ℕ
days_before_year zero = 0
days_before_year (suc y) = days_before_year y + days_in_year y

unfoldable pub days_before_month : ℕ → ℕ → ℕ
days_before_month y m = total_before (month_lengths (is_leap y)) m

abbrev pub day_number : ℕ → ℕ → ℕ → ℕ
day_number y m d = days_before_year y + days_before_month y m + d

ne_of_false : (a b : ℕ) → (a == b) ≡ false → a ≢ b
ne_of_false a b h = ground arith

-- The closed formula, for years that begin on 1 March.
pub days_before_march : ℕ → ℕ
days_before_march y = 365 * y + y / 4 - y / 100 + y / 400

-- A quotient grows exactly at the multiples.
quotient_4 : (y : ℕ) → (suc y / 4) ≡ y / 4 + (if suc y % 4 == 0 then 1 else 0)
quotient_4 y =
    if-cases (λ n. (suc y / 4) ≡ y / 4 + n) (suc y % 4 == 0)
      (λ e. let e' = (==_iff _ _).0 e in omega arith)
      (λ e. let e' = ne_of_false _ _ e in omega arith)

quotient_100 : (y : ℕ) → (suc y / 100) ≡ y / 100 + (if suc y % 100 == 0 then 1 else 0)
quotient_100 y =
    if-cases (λ n. (suc y / 100) ≡ y / 100 + n) (suc y % 100 == 0)
      (λ e. let e' = (==_iff _ _).0 e in omega arith)
      (λ e. let e' = ne_of_false _ _ e in omega arith)

quotient_400 : (y : ℕ) → (suc y / 400) ≡ y / 400 + (if suc y % 400 == 0 then 1 else 0)
quotient_400 y =
    if-cases (λ n. (suc y / 400) ≡ y / 400 + n) (suc y % 400 == 0)
      (λ e. let e' = (==_iff _ _).0 e in omega arith)
      (λ e. let e' = ne_of_false _ _ e in omega arith)

pub year_of_era_bounds :
    (doe : ℕ)
    → doe < 146097
    → (days_before_march (year_of_era doe) ≤ doe)
      × (doe < days_before_march (suc (year_of_era doe)))
unfolding days_before_march year_of_era
year_of_era_bounds doe h = omega arith

abbrev one_if : Bool → ℕ
one_if b = if b then 1 else 0

abbrev year_length : Bool → Bool → Bool → ℕ
year_length a b c = if c || (a && not b) then 366 else 365

-- The leap rule as a count, for tests that imply one another.
year_length_count :
    (a b c : Bool)
    → (b ≡ true → a ≡ true)
    → (c ≡ true → b ≡ true)
    → year_length a b c + one_if b ≡ 365 + one_if a + one_if c
year_length_count true true true ab bc = refl
year_length_count true true false ab bc = refl
year_length_count true false false ab bc = refl
year_length_count false false false ab bc = refl
year_length_count true false true ab bc = cc (bc refl)
year_length_count false true c ab bc = cc (ab refl)
year_length_count false false true ab bc = refl

multiples_100 : (y : ℕ) → (y % 100 == 0) ≡ true → (y % 4 == 0) ≡ true
multiples_100 y h = let e = (==_iff _ _).0 h in (==_iff _ _).1 (omega arith)

multiples_400 : (y : ℕ) → (y % 400 == 0) ≡ true → (y % 100 == 0) ≡ true
multiples_400 y h = let e = (==_iff _ _).0 h in (==_iff _ _).1 (omega arith)

pub days_in_year_count :
    (y : ℕ) → days_before_march y + days_in_year (suc y) ≡ days_before_march (suc y)
unfolding days_before_march
days_in_year_count y = omega (
  arith,
  year_length_count (suc y % 4 == 0) (suc y % 100 == 0) (suc y % 400 == 0) (multiples_100 (suc y))
      (multiples_400 (suc y)),
  quotient_4 y,
  quotient_100 y,
  quotient_400 y,
)

pub days_before_year_closed : (y : ℕ) → days_before_year (suc y) ≡ 366 + days_before_march y
unfolding days_before_year days_before_march
days_before_year_closed zero = refl
days_before_year_closed (suc y) = omega (arith, days_before_year_closed y, days_in_year_count y)

pub march_range : (doe : ℕ) → doe < 146097 → year_of_era doe < 400
unfolding year_of_era
march_range doe h = omega arith

-- Eras of 400 years have 146097 days.
pub days_before_march_era :
    (era y : ℕ) → days_before_march (y + era * 400) ≡ days_before_march y + era * 146097
unfolding days_before_march
days_before_march_era era y = omega arith

pub day_of_year_lem :
    (doe : ℕ) → doe < 146097 → days_before_march (year_of_era doe) + day_of_year doe ≡ doe
unfolding day_of_year days_before_march
day_of_year_lem doe h = omega (arith, march_range doe h, year_of_era_bounds doe h)

-- The lengths of the months from March on, by the days before them.
march_length :
    (y mp : ℕ) → mp ≤ 9 → (153 * mp + 2) / 5 + days_in_month y (mp + 3) ≡ (153 * (mp + 1) + 2) / 5
march_length y zero h = refl
march_length y (suc zero) h = refl
march_length y (suc (suc zero)) h = refl
march_length y (suc (suc (suc zero))) h = refl
march_length y (suc (suc (suc (suc zero)))) h = refl
march_length y (suc (suc (suc (suc (suc zero))))) h = refl
march_length y (suc (suc (suc (suc (suc (suc zero)))))) h = refl
march_length y (suc (suc (suc (suc (suc (suc (suc zero))))))) h = refl
march_length y (suc (suc (suc (suc (suc (suc (suc (suc zero)))))))) h = refl
march_length y (suc (suc (suc (suc (suc (suc (suc (suc (suc zero))))))))) h = refl
march_length y (suc (suc (suc (suc (suc (suc (suc (suc (suc (suc mp)))))))))) h =
    absurd (omega arith)

total_before-suc : (ns : List ℕ) (i : ℕ) → total_before ns (suc i) ≡ total_before ns i + entry ns i
total_before-suc [] i = refl
total_before-suc (n ∷ []) zero = omega arith
total_before-suc (n ∷ m ∷ ns) zero = omega arith
total_before-suc (n ∷ ns) (suc i) = omega (arith, total_before-suc ns i)

pub days_before_month-suc :
    (y m : ℕ) → days_before_month y (m + 1) ≡ days_before_month y m + days_in_month y m
unfolding days_before_month
days_before_month-suc y m = rw (add-one m) (total_before-suc (month_lengths (is_leap y)) m)

pub days_before_month_march :
    (y mp : ℕ) → mp ≤ 10 → days_before_month y (mp + 3) + 306 ≡ days_in_year y + (153 * mp + 2) / 5
days_before_month_march y zero h =
    if-cases (λ n. days_before_month y 3 + 306 ≡ n + 0) (is_leap y)
      (λ e. unfold days_before_month in rw e) (λ e. unfold days_before_month in rw e)
days_before_month_march y (suc mp) h = omega (
  arith,
  days_before_month_march y mp (omega arith),
  march_length y mp (omega arith),
  days_before_month-suc y (mp + 3),
  ap (days_before_month y) (next_month mp),
)
  where
    next_month : (mp : ℕ) → suc mp + 3 ≡ mp + 3 + 1
    next_month mp = omega arith
