-- ===== src/LocalPipe/Civil/Dated.antt =====
-- `epoch_to_civil` gives the date of the calendar.
use telegram_mcpvscode.Prelude.{
  ℕ, suc, ◌+◌, ◌-◌, ◌*◌, ◌/◌, ◌%◌, ◌^◌, ◌≤◌, ◌<◌, pos, ◌≡◌, refl, ap, subst, ◌∙◌, arith, leb,
  if◌then◌else◌, if-cases, Bool, true, false, List, [], ◌∷◌, All, zero,
}
use telegram_mcpvscode.Prelude.Int.{◌+ℤ◌, ◌-ℤ◌, ◌*ℤ◌, pos_part}
use telegram_mcpvscode.Prelude.Word.{low_64, as_u32, as_i32_self, InI32}
use telegram_mcpvscode.LocalPipe.Civil.{
  Civil, era_of, year_of_era, day_of_year, month_index, day_of_month, month_of, epoch_to_civil,
  date_of,
}
use telegram_mcpvscode.LocalPipe.Civil.Calendar.{
  is_leap, entry, month_lengths, days_in_month, days_in_year, days_before_year, days_before_month,
  day_number, days_before_march, days_in_year_count, days_before_march_era, day_of_year_lem,
  march_range, year_of_era_bounds,
}
use telegram_mcpvscode.LocalPipe.Civil.Marched.{IsDate, IsPlace-IsMarched, day_of_month-IsPlace}

+ℤ_pos : (a b : ℕ) → pos a +ℤ pos b ≡ pos (a + b)
unfolding ◌+ℤ◌
+ℤ_pos a b = ground arith

*ℤ_pos : (a b : ℕ) → pos a *ℤ pos b ≡ pos (a * b)
unfolding ◌*ℤ◌
*ℤ_pos a b = ground arith

era_of_pos : (z : ℕ) → era_of (pos z) ≡ pos (z / 146097)
unfolding era_of
era_of_pos z = ground arith

day_of_era : (z : ℕ) → z < 2 ^ 64 → low_64 (pos z -ℤ pos (z / 146097 * 146097)) ≡ z % 146097
unfolding ◌-ℤ◌
day_of_era z h = ground arith

-- The year in which the date lies, from the day of the era.
abbrev year_at : ℕ → ℕ
year_at z = year_of_era (z % 146097) + z / 146097 * 400

year_at-lt : (z : ℕ) → z < 2 ^ 39 → year_at z < 2 ^ 31 - 1
year_at-lt z h = omega (arith, march_range (z % 146097) (omega arith))

as_u32_self : (n : ℕ) → n < 2 ^ 32 → as_u32 n ≡ n
unfolding as_u32
as_u32_self n h = omega arith

-- The date on day `z` from 1 March of the year 0 on, with no casts.
abbrev civil_at : ℕ → ℕ → Civil
civil_at z time =
    let doy = day_of_year (z % 146097) in
    let m = month_of (month_index doy) in
    record {
      year = pos (year_at z + (if leb m 2 then 1 else 0));
      month = m;
      day = day_of_month doy;
      hour = time / 3600;
      minute = time % 3600 / 60;
      second = time % 60;
    }

entry_le : (most : ℕ) (ns : List ℕ) → All (λ n. n ≤ most) ns → (i : ℕ) → entry ns i ≤ most
entry_le most [] h i = omega arith
entry_le most (n ∷ ns) (first, others) zero = first
entry_le most (n ∷ ns) (first, others) (suc i) = entry_le most ns others i

month_lengths_le : (leap : Bool) → All (λ n. n ≤ 31) (month_lengths leap)
month_lengths_le true = omega arith
month_lengths_le false = omega arith

days_in_month_le : (y m : ℕ) → days_in_month y m ≤ 31
days_in_month_le y = entry_le 31 (month_lengths (is_leap y)) (month_lengths_le (is_leap y))

module _ (z : ℕ) (z_small : z < 2 ^ 39) where
  era_parts : days_before_march (year_at z) + day_of_year (z % 146097) ≡ z
  era_parts = omega (
    arith,
    days_before_march_era (z / 146097) (year_of_era (z % 146097)),
    day_of_year_lem (z % 146097) (omega arith),
  )

  in_year : day_of_year (z % 146097) < days_in_year (suc (year_at z))
  in_year = omega (
    arith,
    era_parts,
    days_in_year_count (year_at z),
    ap days_before_march shifted ∙ days_before_march_era (z / 146097) (suc (year_of_era doe)),
    year_of_era_bounds doe (omega arith),
  )
    where
      doe : ℕ
      doe = z % 146097

      shifted : suc (year_at z) ≡ suc (year_of_era doe) + z / 146097 * 400
      shifted = omega arith

  IsDate-civil_at :
      (time : ℕ)
      → IsDate
          (pos_part (civil_at z time).year)
          (civil_at z time).month
          (civil_at z time).day
          (z + 61)
  IsDate-civil_at time =
      subst
        (λ n.
          IsDate (pos_part (civil_at z time).year) (civil_at z time).month (civil_at z time).day
            (n + 61))
        era_parts
        (IsPlace-IsMarched (year_at z) (day_of_year (z % 146097)) in_year
          (month_index (day_of_year (z % 146097))) (day_of_month (day_of_year (z % 146097)))
          (day_of_month-IsPlace (day_of_year (z % 146097))))

  civil_at_lem :
      (time : ℕ) → time < 86400 → date_of (pos (z / 146097)) (z % 146097) time ≡ civil_at z time
  civil_at_lem time h = rw (
    as_u32_self (month_of (month_index doy)) (omega (arith, (date.month_in).1)),
    as_u32_self (day_of_month doy)
        (omega (arith, (date.day_in).1, days_in_month_le (pos_part t.year) t.month)),
    as_u32_self (time / 3600) (omega arith),
    as_u32_self (time % 3600 / 60) (omega arith),
    as_u32_self (time % 60) (omega arith),
    *ℤ_pos (z / 146097) 400,
    +ℤ_pos (year_of_era (z % 146097)) (z / 146097 * 400),
    +ℤ_pos (year_at z) (if leb t.month 2 then 1 else 0),
    as_i32_self t.year in_range,
  )
    where
      doy : ℕ
      doy = day_of_year (z % 146097)

      t : Civil
      t = civil_at z time

      date : IsDate (pos_part t.year) t.month t.day (z + 61)
      date = IsDate-civil_at time

      in_range : InI32 t.year
      in_range =
          if-cases (λ n. InI32 (pos (year_at z + n))) (leb t.month 2)
            (λ _. omega (arith, year_at-lt z z_small)) (λ _. omega (arith, year_at-lt z z_small))

-- What a date and a time say of the seconds since the start of 1970.
pub record IsTime (secs : ℕ) (t : Civil) : Type 0 where
  pub year_is : t.year ≡ pos (pos_part t.year)
  pub date_is : IsDate (pos_part t.year) t.month t.day (day_number 1970 1 1 + secs / 86400)
  pub clock_in : (t.hour < 24) × (t.minute < 60) × (t.second < 60)
  pub clock_is : t.hour * 3600 + t.minute * 60 + t.second ≡ secs % 86400

epoch_number : day_number 1970 1 1 ≡ 719529
unfolding days_before_year days_before_month
epoch_number = refl

module _ (secs : ℕ) (in_time : secs < 2 ^ 55) where
  epoch_to_civil_pos : epoch_to_civil (pos secs) ≡ civil_at (secs / 86400 + 719468) (secs % 86400)
  unfolding epoch_to_civil
  epoch_to_civil_pos =
      rw
        (
          +ℤ_pos (secs / 86400) 719468,
          era_of_pos z,
          *ℤ_pos (z / 146097) 146097,
          day_of_era z (omega arith),
        )
        (civil_at_lem z (omega arith) (secs % 86400) (omega arith))
    where
      z : ℕ
      z = secs / 86400 + 719468

  -- For a time of less than 2 ^ 55 seconds since the start of 1970, the month and the day are on the
  -- Gregorian calendar of the year; the number of the date, which counts the days year by year and
  -- month by month, is that of 1 January 1970 plus the whole days of the time; and hours, minutes and
  -- seconds are in range and make up the rest.
  pub epoch_to_civil-IsTime : IsTime secs (epoch_to_civil (pos secs))
  epoch_to_civil-IsTime =
      let date = IsDate-civil_at (secs / 86400 + 719468) (omega arith) (secs % 86400) in
      rw epoch_to_civil_pos (record {
        year_is = refl;
        date_is = record {
          month_in = date.month_in;
          day_in = date.day_in;
          number_is = omega (arith, date.number_is, epoch_number);
        };
        clock_in = (omega arith, omega arith, omega arith);
        clock_is = omega arith;
      })
