-- ===== src/Storage/Memory/Dates/Spoken.antt =====
-- The dates of `civil` and `spoken_date` of src/storage/memory.rs.
use riddle.Prelude.{
  ℕ, ◌+◌, ◌-◌, ◌*◌, ◌/◌, ◌%◌, ◌≤◌, ◌<◌, ◌≡◌, ap, ◌∙◌, Bool, true, false, some, if◌then◌else◌, arith,
  suc, ℤ, pos, negsuc, ◌+ℤ◌, pos_add, pos_mul,
}
use riddle.Text.{Text}
use riddle.Storage.Index.Changes.{get_elem?-lt}
use riddle.Storage.Memory.Dates.{
  CivilDate, civil, div_euclid, rem_euclid, year_of_era, day_of_year, march_month, month_day,
  calendar_month, months, spoken_with, spoken_civil, spoken_date, local_secs,
}
use riddle.Storage.Memory.Dates.Civil.{Day, next_day, date_of, day_of_year-le}
use riddle.Storage.Memory.Dates.Succession.{date_of-suc}

-- A date with its hour.
abbrev pub at_hour : Day → ℕ → CivilDate
at_hour (y, m, d) hour = record { year = pos y; month = m; day = d; hour = hour }

late_year :
    (y : ℕ) (b : Bool) → (if b then pos y +ℤ pos 1 else pos y) ≡ pos (y + (if b then 1 else 0))
late_year y true = pos_add y 1
late_year y false = ap pos (omega arith)

abbrev in_year : ℕ → ℕ → ℕ → ℤ → CivilDate
in_year m d h y = record { year = y; month = m; day = d; hour = h }

civil-date_of : (n : ℕ) → civil (pos n) ≡ at_hour (date_of (n / 86400 + 719468)) (n % 86400 / 3600)
unfolding civil
civil-date_of n = rw (pos_add (n / 86400) 719468) (
    rw (pos_mul ((n / 86400 + 719468) / 146097) 400) (
      rw
        (pos_add (year_of_era ((n / 86400 + 719468) % 146097))
          ((n / 86400 + 719468) / 146097 * 400))
        (ap
          (in_year (calendar_month (march_month (day_of_year ((n / 86400 + 719468) % 146097))))
            (month_day (day_of_year ((n / 86400 + 719468) % 146097))) (n % 86400 / 3600))
          (late_year _ _))))

-- From 1970 on, `civil` moves from a date to the next one of the Gregorian calendar when a day's seconds
-- are added, at the same hour.
pub civil-next_day :
    (n : ℕ)
    → (date : Day) × (civil (pos n) ≡ at_hour date (n % 86400 / 3600))
      × (civil (pos (n + 86400)) ≡ at_hour (next_day date) (n % 86400 / 3600))
civil-next_day n =
    let day : (n + 86400) / 86400 + 719468 ≡ suc (n / 86400 + 719468) = omega arith in
    let hour : (n + 86400) % 86400 / 3600 ≡ n % 86400 / 3600 = omega arith in
    (
      date_of (n / 86400 + 719468),
      civil-date_of n,
      civil-date_of (n + 86400)
          ∙ ap (λ z. at_hour (date_of z) ((n + 86400) % 86400 / 3600)) day
          ∙ ap (at_hour (date_of (suc (n / 86400 + 719468)))) hour
          ∙ ap (λ date. at_hour date (n % 86400 / 3600)) (date_of-suc (n / 86400 + 719468)),
    )

-- The parts of a date are in range.
pub record InRange (c : CivilDate) : Type 0 where
  pub month_from : 1 ≤ c.month
  pub month_to : c.month ≤ 12
  pub day_from : 1 ≤ c.day
  pub day_to : c.day ≤ 31
  pub hour_to : c.hour ≤ 23

rem_euclid-lt : (a : ℤ) (d : ℕ) → 1 ≤ d → rem_euclid a d < d
rem_euclid-lt (pos n) d h = grind arith
rem_euclid-lt (negsuc n) d h = omega (arith, h)

month_range :
    (doy : ℕ)
    → doy ≤ 365
    → (1 ≤ calendar_month (march_month doy)) × (calendar_month (march_month doy) ≤ 12)
month_range doy h = (ground arith, ground arith)

day_range : (doy : ℕ) → doy ≤ 365 → (1 ≤ month_day doy) × (month_day doy ≤ 31)
day_range doy h = (omega arith, omega arith)

civil-InRange : (secs : ℤ) → InRange (civil secs)
unfolding civil
civil-InRange secs =
    let z = div_euclid secs 86400 +ℤ pos 719468 in
    let doy = day_of_year-le (rem_euclid z 146097) (rem_euclid-lt z 146097 (omega arith)) in
    let (m1, m12) = month_range (day_of_year (rem_euclid z 146097)) doy in
    let (d1, d31) = day_range (day_of_year (rem_euclid z 146097)) doy in
    let within = rem_euclid-lt secs 86400 (omega arith) in
    record {
      month_from = m1;
      month_to = m12;
      day_from = d1;
      day_to = d31;
      hour_to = omega (arith, within);
    }

spoken_civil-some : (c : CivilDate) → InRange c → (t : Text) × (spoken_civil c ≡ some t)
spoken_civil-some c h =
    let (month, found) =
      get_elem?-lt (c.month - 1) months (omega (arith, h.month_from, h.month_to)) in
    (_, ap (spoken_with c.day c.hour) found)

-- Every page has a spoken date: the index into the months is never out of bounds.
pub spoken_date-some : (offset : ℤ) (id : ℕ) → (t : Text) × (spoken_date offset id ≡ some t)
unfolding spoken_date
spoken_date-some offset id =
    spoken_civil-some (civil (local_secs offset id)) (civil-InRange (local_secs offset id))
