-- ===== src/LocalPipe/Civil/Marched.antt =====
-- The month and the day that `epoch_to_civil` makes of a day of the year that begins on 1 March.
use telegram_mcpvscode.Prelude.{
  ℕ, suc, ◌+◌, ◌*◌, ◌/◌, ◌≤◌, ◌<◌, ◌≡◌, ap, subst, ◌∙◌, ◌⊎◌, inl, inr, arith, leb, if◌then◌else◌,
}
use telegram_mcpvscode.LocalPipe.Civil.{month_index, day_of_month, month_of}
use telegram_mcpvscode.LocalPipe.Civil.Calendar.{
  days_in_month, days_in_year, days_before_year, days_before_month, day_number, days_before_march,
  days_before_year_closed, days_before_month_march, days_before_month-suc,
}

-- The month and the day are on the calendar of the year, and the date has that number.
pub record IsDate (y m d number : ℕ) : Type 0 where
  pub month_in : (1 ≤ m) × (m ≤ 12)
  pub day_in : (1 ≤ d) × (d ≤ days_in_month y m)
  pub number_is : day_number y m d ≡ number

-- Where in its month a day is, counted from 1 March.
pub record IsPlace (doy mp d : ℕ) : Type 0 where
  pub from_start : (153 * mp + 2) / 5 + d ≡ doy + 1
  pub day_pos : 1 ≤ d
  pub day_fits : doy < (153 * (mp + 1) + 2) / 5

pub day_of_month-IsPlace : (doy : ℕ) → IsPlace doy (month_index doy) (day_of_month doy)
day_of_month-IsPlace doy = record {
  from_start = omega arith;
  day_pos = omega arith;
  day_fits = omega arith;
}

module _ (y doy d : ℕ) where
  -- From March to December.
  late-IsDate :
      (mp : ℕ) → mp ≤ 9 → IsPlace doy mp d → IsDate y (mp + 3) d (days_before_march y + doy + 61)
  unfolding days_before_year
  late-IsDate mp h p = record {
    month_in = (omega arith, omega arith);
    day_in = (
      p.day_pos,
      omega (
        arith,
        p.from_start,
        p.day_fits,
        days_before_month-suc y (mp + 3),
        days_before_month_march y mp (omega arith),
        next,
      ),
    );
    number_is = omega (
      arith,
      p.from_start,
      days_before_month_march y mp (omega arith),
      days_before_year_closed y,
    );
  }
    where
      next : days_before_month y (mp + 3 + 1) + 306 ≡ days_in_year y + (153 * (mp + 1) + 2) / 5
      next =
          ap (λ (m : ℕ). days_before_month y m + 306) (omega arith)
          ∙ days_before_month_march y (mp + 1) (omega arith)

  -- January and February are of the next year.
  january-IsDate : IsPlace doy 10 d → IsDate (suc y) 1 d (days_before_march y + doy + 61)
  unfolding days_before_month
  january-IsDate p = record {
    month_in = (omega arith, omega arith);
    day_in = (p.day_pos, omega (arith, p.from_start, p.day_fits));
    number_is = omega (arith, p.from_start, days_before_year_closed y);
  }

  february-IsDate :
      IsPlace doy 11 d
      → doy < days_in_year (suc y)
      → IsDate (suc y) 2 d (days_before_march y + doy + 61)
  unfolding days_before_month
  february-IsDate p h = record {
    month_in = (omega arith, omega arith);
    day_in = (p.day_pos, omega (arith, p.from_start, february (suc y)));
    number_is = omega (arith, p.from_start, days_before_year_closed y);
  }
    where
      february : (y : ℕ) → days_in_year y ≡ days_in_month y 2 + 337
      february y = ground arith

IsDate-move :
    {y y' m m' d number : ℕ} → y ≡ y' → m ≡ m' → IsDate y m d number → IsDate y' m' d number
IsDate-move {y = y} {m' = m'} {d = d} {number = k} e f h =
    subst (λ x. IsDate x m' d k) e (subst (λ x. IsDate y x d k) f h)

module _ (y doy : ℕ) (h : doy < days_in_year (suc y)) where
  -- The date that the algorithm makes of a day of the year that begins on 1 March.
  abbrev pub IsMarched : ℕ → ℕ → Type 0
  IsMarched mp d =
      IsDate (y + (if leb (month_of mp) 2 then 1 else 0)) (month_of mp) d
        (days_before_march y + doy + 61)

  pub IsPlace-IsMarched : (mp d : ℕ) → IsPlace doy mp d → IsMarched mp d
  IsPlace-IsMarched mp d p = elim (below mp p.from_start p.day_pos) [
    | inl early ↦ IsDate-move (ground arith) (ground arith) (late-IsDate y doy d mp early p)
    | inr (inl e) ↦
        IsDate-move (ground arith) (ground arith)
          (january-IsDate y doy d (subst (λ x. IsPlace doy x d) e p))
    | inr (inr e) ↦
        IsDate-move (ground arith) (ground arith)
          (february-IsDate y doy d (subst (λ x. IsPlace doy x d) e p) h)
  ]
    where
      below :
          (mp : ℕ) → (153 * mp + 2) / 5 + d ≡ doy + 1 → 1 ≤ d → (mp ≤ 9) ⊎ ((mp ≡ 10) ⊎ (mp ≡ 11))
      below mp e g = ground arith
