-- ===== src/Storage/Memory/Dates.antt =====
-- src/storage/memory.rs: `civil` and `spoken_date`. The offset from the environment is an argument.
pub mod Civil
pub mod Succession
pub mod Spoken
use riddle.Prelude.{
  ℕ, ◌+◌, ◌-◌, ◌*◌, ◌/◌, ◌%◌, ◌≡◌, refl, Bool, ◌||◌, ◌&&◌, Option, none, some, List, [], ◌∷◌, ◌++◌,
  ltb, leb, ◌==◌, if◌then◌else◌, get_elem?, ℤ, pos, negsuc, ◌+ℤ◌, ◌*ℤ◌, as_i64, wrap_i64,
}
use riddle.Text.{Text, lit}
use riddle.Text.Decimal.{print}

-- `div_euclid` and `rem_euclid`, by a positive number.
abbrev pub div_euclid : ℤ → ℕ → ℤ
div_euclid (pos n) d = pos (n / d)
div_euclid (negsuc n) d = negsuc (n / d)

abbrev pub rem_euclid : ℤ → ℕ → ℕ
rem_euclid (pos n) d = n % d
rem_euclid (negsuc n) d = d - 1 - n % d

-- Year, month, day and hour.
pub record CivilDate : Type 0 where
  pub year : ℤ
  pub month : ℕ
  pub day : ℕ
  pub hour : ℕ

abbrev pub year_of_era : ℕ → ℕ
year_of_era doe = (doe - doe / 1460 + doe / 36524 - doe / 146096) / 365

-- The day on which a year of the era begins.
abbrev pub year_start : ℕ → ℕ
year_start yoe = 365 * yoe + yoe / 4 - yoe / 100

abbrev pub day_of_year : ℕ → ℕ
day_of_year doe = doe - year_start (year_of_era doe)

-- The month, counted from March.
abbrev pub march_month : ℕ → ℕ
march_month doy = (5 * doy + 2) / 153

abbrev pub month_day : ℕ → ℕ
month_day doy = doy - (153 * march_month doy + 2) / 5 + 1

abbrev pub calendar_month : ℕ → ℕ
calendar_month mp = if ltb mp 10 then mp + 3 else mp - 9

-- No subtraction of the source is negative here, see `year_start-le` in Dates/Civil.
unfoldable pub civil : ℤ → CivilDate
civil secs =
    let z = div_euclid secs 86400 +ℤ pos 719468 in
    let doe = rem_euclid z 146097 in
    let y = pos (year_of_era doe) +ℤ (div_euclid z 146097 *ℤ pos 400) in
    let doy = day_of_year doe in
    let m = calendar_month (march_month doy) in
    record {
      year = if leb m 2 then y +ℤ pos 1 else y;
      month = m;
      day = month_day doy;
      hour = rem_euclid secs 86400 / 3600;
    }

civil_runs : civil (pos 951782400) ≡ record { year = pos 2000; month = 2; day = 29; hour = 0 }
unfolding civil ◌+ℤ◌ ◌*ℤ◌
civil_runs = refl

civil_before : civil (negsuc 0) ≡ record { year = pos 1969; month = 12; day = 31; hour = 23 }
unfolding civil ◌+ℤ◌ ◌*ℤ◌
civil_before = refl

abbrev pub months : List Text
months =
    lit "January"
    ∷ lit "February"
    ∷ lit "March"
    ∷ lit "April"
    ∷ lit "May"
    ∷ lit "June"
    ∷ lit "July"
    ∷ lit "August"
    ∷ lit "September"
    ∷ lit "October"
    ∷ lit "November"
    ∷ lit "December"
    ∷ []

unfoldable pub suffix : ℕ → Text
suffix d =
    if leb 11 d && leb d 13
    then lit "th"
    else if d % 10 == 1
    then lit "st"
    else if d % 10 == 2
    then lit "nd"
    else if d % 10 == 3
    then lit "rd"
    else lit "th"

unfoldable pub time_of_day : ℕ → Text
time_of_day h =
    if leb h 4
    then lit "in the small hours"
    else if leb h 11
    then lit "in the morning"
    else if leb h 17
    then lit "in the afternoon"
    else if leb h 21
    then lit "in the evening"
    else lit "late at night"

abbrev pub spoken_with : ℕ → ℕ → Option Text → Option Text
spoken_with d h none = none
spoken_with d h (some month) =
    some (lit "the " ++ print d ++ suffix d ++ lit " of " ++ month ++ lit ", " ++ time_of_day h)

abbrev pub spoken_civil : CivilDate → Option Text
spoken_civil c = spoken_with c.day c.hour (get_elem? months (c.month - 1))

-- `id as i64 + offset`
abbrev pub local_secs : ℤ → ℕ → ℤ
local_secs offset id = wrap_i64 (as_i64 id +ℤ offset)

-- `offset` is the `i64` of MAGICPAPER_TZ_OFFSET; `none` is an index past the end of the months.
unfoldable pub spoken_date : ℤ → ℕ → Option Text
unfolding civil suffix time_of_day
spoken_date offset id = spoken_civil (civil (local_secs offset id))
