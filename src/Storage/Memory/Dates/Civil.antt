-- ===== src/Storage/Memory/Dates/Civil.antt =====
-- The calendar that `civil` of src/storage/memory.rs computes, against the Gregorian one.
use riddle.Prelude.{
  ℕ, ◌+◌, ◌*◌, ◌/◌, ◌%◌, ◌≤◌, ◌<◌, ◌≡◌, Bool, true, false, ◌||◌, ◌&&◌, not, ltb, leb, ◌==◌,
  if◌then◌else◌, arith, suc,
}
use riddle.Storage.Memory.Dates.{
  year_of_era, year_start, day_of_year, march_month, month_day, calendar_month,
}

-- The Gregorian rule.
abbrev pub is_leap : ℕ → Bool
is_leap y = (y % 4 == 0) && (not (y % 100 == 0) || y % 400 == 0)

abbrev pub month_length : Bool → ℕ → ℕ
month_length leap m =
    if m == 2
    then (if leap then 29 else 28)
    else if m == 4 || m == 6 || m == 9 || m == 11
    then 30
    else 31

-- Year, month and day.
abbrev pub Day : Type 0
Day = ℕ × ℕ × ℕ

-- The day after.
abbrev pub next_day : Day → Day
next_day (y, m, d) =
    if ltb d (month_length (is_leap y) m)
    then (y, m, d + 1)
    else if ltb m 12
    then (y, m + 1, 1)
    else (y + 1, 1, 1)

-- The date of a day of a year that began in March.
abbrev pub dated : ℕ → ℕ → Day
dated march_year doy = (
  march_year + (if leb (calendar_month (march_month doy)) 2 then 1 else 0),
  calendar_month (march_month doy),
  month_day doy,
)

-- The date of a day since the first of March of the year 0.
abbrev pub date_of : ℕ → Day
date_of z = dated (year_of_era (z % 146097) + z / 146097 * 400) (day_of_year (z % 146097))

-- The subtractions of `civil` stay above 0, and the parts of a day of the era are in range.
pub year_start-le : (doe : ℕ) → doe < 146097 → year_start (year_of_era doe) ≤ doe
year_start-le doe h = omega arith

pub day_of_year-le : (doe : ℕ) → doe < 146097 → day_of_year doe ≤ 365
day_of_year-le doe h = omega arith

pub day_of_year_common :
    (doe : ℕ) → doe < 146097 → is_leap (year_of_era doe + 1) ≡ false → day_of_year doe ≤ 364
day_of_year_common doe h k = ground arith

pub same_year :
    (doe : ℕ) → suc doe < 146097 → day_of_year doe < 364 → year_of_era (suc doe) ≡ year_of_era doe
same_year doe h k = omega arith

pub same_leap_year :
    (doe : ℕ)
    → suc doe < 146097
    → is_leap (year_of_era doe + 1) ≡ true
    → day_of_year doe < 365
    → year_of_era (suc doe) ≡ year_of_era doe
same_leap_year doe h l k = ground arith

pub day_of_year-suc :
    (doe : ℕ)
    → suc doe < 146097
    → year_of_era (suc doe) ≡ year_of_era doe
    → day_of_year (suc doe) ≡ day_of_year doe + 1
day_of_year-suc doe h e = rw e (omega (arith, year_start-le doe (omega arith)))

pub new_year :
    (doe : ℕ)
    → suc doe < 146097
    → is_leap (year_of_era doe + 1) ≡ false
    → day_of_year doe ≡ 364
    → (year_of_era (suc doe) ≡ year_of_era doe + 1) × (day_of_year (suc doe) ≡ 0)
new_year doe h l k = (ground arith, ground arith)

pub new_year_after_leap :
    (doe : ℕ)
    → suc doe < 146097
    → day_of_year doe ≡ 365
    → (year_of_era (suc doe) ≡ year_of_era doe + 1) × (day_of_year (suc doe) ≡ 0)
new_year_after_leap doe h k = (omega arith, omega arith)

-- A day within a month, and the last one.
pub month_step :
    (doy : ℕ) (leap : Bool)
    → doy < 364
    → ltb (month_day doy) (month_length leap (calendar_month (march_month doy))) ≡ true
    → (march_month (doy + 1) ≡ march_month doy) × (month_day (doy + 1) ≡ month_day doy + 1)
month_step doy leap h k = (ground arith, ground arith)

pub month_turn :
    (doy : ℕ) (leap : Bool)
    → doy < 364
    → ltb (month_day doy) (month_length leap (calendar_month (march_month doy))) ≡ false
    → (calendar_month (march_month (doy + 1)) ≡ (
        if ltb (calendar_month (march_month doy)) 12
        then calendar_month (march_month doy) + 1
        else 1))
      × (month_day (doy + 1) ≡ 1)
month_turn doy leap h k = (ground arith, ground arith)

pub no_february :
    (doy : ℕ) (leap : Bool)
    → doy < 364
    → ltb (month_day doy) (month_length leap (calendar_month (march_month doy))) ≡ false
    → (calendar_month (march_month doy) == 2) ≡ false
no_february doy leap h k = ground arith
