-- ===== src/LocalPipe/Civil.antt =====
-- The time stamp of the discovery record, crates/local-pipe/src/server.rs: `epoch_to_civil` and
-- `now_iso8601`. Values of type i64 are integers, the casts are written out, and the clock's
-- reading is an argument.
pub mod Calendar
pub mod Marched
pub mod Dated
use telegram_mcpvscode.Prelude.{
  String, ◌<>◌, ℕ, suc, ◌+◌, ◌-◌, ◌*◌, ◌/◌, ◌%◌, ℤ, pos, negsuc, Option, none, some, ltb, leb,
  if◌then◌else◌,
}
use telegram_mcpvscode.Prelude.Int.{◌+ℤ◌, ◌-ℤ◌, ◌*ℤ◌, leb_ℤ}
use telegram_mcpvscode.Prelude.Text.{show_ℕ, show_ℤ}
use telegram_mcpvscode.Prelude.Word.{low_64, as_i32, as_u32, wrap_i64}

-- `div_euclid` and `rem_euclid` by a positive number
abbrev pub div_euclid : ℤ → ℕ → ℤ
div_euclid (pos n) k = pos (n / k)
div_euclid (negsuc n) k = negsuc (n / k)

abbrev pub rem_euclid : ℤ → ℕ → ℕ
rem_euclid (pos n) k = n % k
rem_euclid (negsuc n) k = k - 1 - n % k

-- `/` on an i64, which rounds towards 0.
abbrev pub quotient : ℤ → ℕ → ℤ
quotient (pos n) k = pos (n / k)
quotient (negsuc n) k = pos 0 -ℤ pos (suc n / k)

pub record Civil : Type 0 where
  pub year : ℤ
  pub month : ℕ
  pub day : ℕ
  pub hour : ℕ
  pub minute : ℕ
  pub second : ℕ

unfoldable pub era_of : ℤ → ℤ
unfolding ◌-ℤ◌
era_of z = quotient (if leb_ℤ (pos 0) z then z else z -ℤ pos 146096) 146097

-- From the day of the era: the year of the era, the day of that year from 1 March on, and of it the
-- number of the month and the day.
unfoldable pub year_of_era : ℕ → ℕ
year_of_era doe = (doe - doe / 1460 + doe / 36524 - doe / 146096) / 365

unfoldable pub day_of_year : ℕ → ℕ
unfolding year_of_era
day_of_year doe = let yoe = year_of_era doe in doe - (365 * yoe + yoe / 4 - yoe / 100)

abbrev pub month_index : ℕ → ℕ
month_index doy = (5 * doy + 2) / 153

abbrev pub day_of_month : ℕ → ℕ
day_of_month doy = doy - (153 * month_index doy + 2) / 5 + 1

abbrev pub month_of : ℕ → ℕ
month_of mp = if ltb mp 10 then mp + 3 else mp - 9

-- The date on day `doe` of the era.
abbrev pub date_of : ℤ → ℕ → ℕ → Civil
date_of era doe secs_of_day =
    let doy = day_of_year doe in
    let m = as_u32 (month_of (month_index doy)) in
    let y = pos (year_of_era doe) +ℤ (era *ℤ pos 400) in
    record {
      year = as_i32 (y +ℤ pos (if leb m 2 then 1 else 0));
      month = m;
      day = as_u32 (day_of_month doy);
      hour = as_u32 (secs_of_day / 3600);
      minute = as_u32 (secs_of_day % 3600 / 60);
      second = as_u32 (secs_of_day % 60);
    }

unfoldable pub epoch_to_civil : ℤ → Civil
unfolding era_of year_of_era day_of_year as_i32 as_u32 ◌+ℤ◌ ◌-ℤ◌ ◌*ℤ◌
epoch_to_civil secs =
    let z = div_euclid secs 86400 +ℤ pos 719468 in
    let era = era_of z in date_of era (low_64 (z -ℤ (era *ℤ pos 146097))) (rem_euclid secs 86400)

-- `{:02}` and `{:04}` on an unsigned number
abbrev pub padded_2 : ℕ → String
padded_2 n = if ltb n 10 then "0" <> show_ℕ n else show_ℕ n

abbrev pub padded_4 : ℕ → String
padded_4 n =
    if ltb n 10
    then "000" <> show_ℕ n
    else if ltb n 100
    then "00" <> show_ℕ n
    else if ltb n 1000
    then "0" <> show_ℕ n
    else show_ℕ n

-- `{:04}` on a signed number counts the sign.
abbrev pub padded_year : ℤ → String
padded_year (pos n) = padded_4 n
padded_year (negsuc n) =
    if ltb (suc n) 10
    then "-00" <> show_ℕ (suc n)
    else if ltb (suc n) 100
    then "-0" <> show_ℕ (suc n)
    else show_ℤ (negsuc n)

abbrev pub printed : Civil → String
printed t =
    padded_year t.year
    <> "-"
    <> padded_2 t.month
    <> "-"
    <> padded_2 t.day
    <> "T"
    <> padded_2 t.hour
    <> ":"
    <> padded_2 t.minute
    <> ":"
    <> padded_2 t.second
    <> "Z"

-- The seconds since the epoch; `none` is a clock before it.
abbrev pub seconds_of : Option ℕ → ℕ
seconds_of none = 0
seconds_of (some secs) = secs

unfoldable pub now_iso8601 : Option ℕ → String
unfolding epoch_to_civil wrap_i64 show_ℕ show_ℤ
now_iso8601 now = printed (epoch_to_civil (wrap_i64 (pos (seconds_of now))))
