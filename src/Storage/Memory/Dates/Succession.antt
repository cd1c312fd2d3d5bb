-- ===== src/Storage/Memory/Dates/Succession.antt =====
-- The next day of `civil` of src/storage/memory.rs is the next day of the calendar.
use riddle.Prelude.{
  ℕ, ◌+◌, ◌*◌, ◌/◌, ◌%◌, ◌<◌, ◌≡◌, refl, ap, sym, ◌∙◌, true, false, ltb, leb, ◌==◌, if◌then◌else◌,
  arith, suc, Bool-cases, inl, inr,
}
use riddle.Storage.Memory.Dates.{year_of_era, day_of_year, march_month, month_day, calendar_month}
use riddle.Storage.Memory.Dates.Civil.{
  Day, next_day, dated, date_of, is_leap, month_length, day_of_year-le, day_of_year_common,
  same_year, same_leap_year, day_of_year-suc, new_year, new_year_after_leap, month_step, month_turn,
  no_february,
}

triple : {y y' m m' d d' : ℕ} → y ≡ y' → m ≡ m' → d ≡ d' → ◌≡◌ {A = Day} (y, m, d) (y', m', d')
triple h k l = cc

next_within :
    (y m d : ℕ) → ltb d (month_length (is_leap y) m) ≡ true → next_day (y, m, d) ≡ (y, m, d + 1)
next_within y m d h = rw h refl

next_month :
    (y m d : ℕ)
    → ltb d (month_length (is_leap y) m) ≡ false
    → ltb m 12 ≡ true
    → next_day (y, m, d) ≡ (y, m + 1, 1)
next_month y m d h k = rw (h, k) refl

next_year :
    (y m d : ℕ)
    → ltb d (month_length (is_leap y) m) ≡ false
    → ltb m 12 ≡ false
    → next_day (y, m, d) ≡ (y + 1, 1, 1)
next_year y m d h k = rw (h, k) refl

abbrev late : ℕ → ℕ
late m = if leb m 2 then 1 else 0

-- Within a year that began in March.
dated-suc : (y doy : ℕ) → doy < 364 → dated y (doy + 1) ≡ next_day (dated y doy)
dated-suc y doy h =
    let m = calendar_month (march_month doy) in
    let leap = is_leap (y + late m) in
    elim (Bool-cases (ltb (month_day doy) (month_length leap m))) [
      | inl within ↦
          let (same, later) = month_step doy leap h within in
          triple (ap (λ mp. y + late (calendar_month mp)) same) (ap calendar_month same) later
          ∙ sym (next_within (y + late m) m (month_day doy) within)
      | inr last ↦
          let (turned, first) = month_turn doy leap h last in
          let march : (m == 2) ≡ false = no_february doy leap h last in
          elim (Bool-cases (ltb m 12)) [
            | inl sooner ↦
                let up : calendar_month (march_month (doy + 1)) ≡ m + 1 =
                  turned ∙ ap (λ b. if b then m + 1 else 1) sooner in
                triple (ap (λ k. y + late k) up ∙ late_same y m march sooner) up first
                ∙ sym (next_month (y + late m) m (month_day doy) last sooner)
            | inr december ↦
                let up : calendar_month (march_month (doy + 1)) ≡ 1 =
                  turned ∙ ap (λ b. if b then m + 1 else 1) december in
                triple (ap (λ k. y + late k) up ∙ late_turn y m december) up first
                ∙ sym (next_year (y + late m) m (month_day doy) last december)
          ]
    ]
  where
    late_same : (y m : ℕ) → (m == 2) ≡ false → ltb m 12 ≡ true → y + late (m + 1) ≡ y + late m
    late_same y m h k = ground arith

    late_turn : (y m : ℕ) → ltb m 12 ≡ false → y + late 1 ≡ y + late m + 1
    late_turn y m h = ground arith

-- The leap day, and the last day of February.
leap_day : (y : ℕ) → is_leap (y + 1) ≡ true → dated y 365 ≡ next_day (dated y 364)
leap_day y h = sym (next_within (y + 1) 2 28 (rw h refl))

year_end : (y : ℕ) → is_leap (y + 1) ≡ false → dated (y + 1) 0 ≡ next_day (dated y 364)
year_end y h = triple (omega arith) refl refl ∙ sym (next_month (y + 1) 2 28 (rw h refl) refl)

leap_year_end : (y : ℕ) → is_leap (y + 1) ≡ true → dated (y + 1) 0 ≡ next_day (dated y 365)
leap_year_end y h = triple (omega arith) refl refl ∙ sym (next_month (y + 1) 2 29 (rw h refl) refl)

is_leap-era : (yoe era : ℕ) → is_leap (yoe + era * 400 + 1) ≡ is_leap (yoe + 1)
is_leap-era yoe era = ground arith

module _ (era doe : ℕ) (inside : suc doe < 146097) where
  abbrev year : ℕ
  year = year_of_era doe + era * 400

  at_364 :
      day_of_year doe ≡ 364
      → dated (year_of_era (suc doe) + era * 400) (day_of_year (suc doe))
        ≡ next_day (dated year (day_of_year doe))
  at_364 h = elim (Bool-cases (is_leap (year_of_era doe + 1))) [
    | inl leap ↦
        let same = same_leap_year doe inside leap (omega arith) in
        let later : day_of_year (suc doe) ≡ 365 =
          day_of_year-suc doe inside same ∙ ap (λ d. d + 1) h in
        ap (λ y. dated (y + era * 400) (day_of_year (suc doe))) same
        ∙ ap (dated year) later
        ∙ leap_day year (is_leap-era (year_of_era doe) era ∙ leap)
        ∙ sym (ap (λ d. next_day (dated year d)) h)
    | inr common ↦
        let (up, first) = new_year doe inside common h in
        let next : year_of_era (suc doe) + era * 400 ≡ year + 1 = omega arith in
        ap (λ y. dated y (day_of_year (suc doe))) next
        ∙ ap (dated (year + 1)) first
        ∙ year_end year (is_leap-era (year_of_era doe) era ∙ common)
        ∙ sym (ap (λ d. next_day (dated year d)) h)
  ]

  at_365 :
      day_of_year doe ≡ 365
      → dated (year_of_era (suc doe) + era * 400) (day_of_year (suc doe))
        ≡ next_day (dated year (day_of_year doe))
  at_365 h = elim (Bool-cases (is_leap (year_of_era doe + 1))) [
    | inl leap ↦
        let (up, first) = new_year_after_leap doe inside h in
        let next : year_of_era (suc doe) + era * 400 ≡ year + 1 = omega arith in
        ap (λ y. dated y (day_of_year (suc doe))) next
        ∙ ap (dated (year + 1)) first
        ∙ leap_year_end year (is_leap-era (year_of_era doe) era ∙ leap)
        ∙ sym (ap (λ d. next_day (dated year d)) h)
    | inr common ↦ absurd (omega (arith, day_of_year_common doe (omega arith) common))
  ]

  inside_year :
      day_of_year doe < 364
      → dated (year_of_era (suc doe) + era * 400) (day_of_year (suc doe))
        ≡ next_day (dated year (day_of_year doe))
  inside_year h =
      let same = same_year doe inside h in
      ap (λ y. dated (y + era * 400) (day_of_year (suc doe))) same
      ∙ ap (dated year) (day_of_year-suc doe inside same)
      ∙ dated-suc year (day_of_year doe) h

  inside_era :
      dated (year_of_era (suc doe) + era * 400) (day_of_year (suc doe))
      ≡ next_day (dated year (day_of_year doe))
  inside_era = elim (Bool-cases (ltb (day_of_year doe) 364)) [
    | inl early ↦ inside_year (ground arith)
    | inr late_day ↦ elim (Bool-cases (day_of_year doe == 364)) [
      | inl there ↦ at_364 (ground arith)
      | inr beyond ↦ at_365 (let top = day_of_year-le doe (omega arith) in ground arith)
    ]
  ]

era_end : (era : ℕ) → dated (0 + (era + 1) * 400) 0 ≡ next_day (dated (399 + era * 400) 365)
era_end era =
    let next : 0 + (era + 1) * 400 ≡ 399 + era * 400 + 1 = omega arith in
    ap (λ y. dated y 0) next ∙ leap_year_end (399 + era * 400) (is_leap-era 399 era ∙ refl)

-- The date of the next day is the day after the date.
pub date_of-suc : (z : ℕ) → date_of (suc z) ≡ next_day (date_of z)
date_of-suc z = elim (Bool-cases (z % 146097 == 146096)) [
  | inl last ↦
      let rest : z % 146097 ≡ 146096 = ground arith in
      let day : suc z % 146097 ≡ 0 = omega arith in
      let era : suc z / 146097 ≡ z / 146097 + 1 = omega arith in
      ap (λ doe. dated (year_of_era doe + suc z / 146097 * 400) (day_of_year doe)) day
      ∙ ap (λ e. dated (0 + e * 400) 0) era
      ∙ era_end (z / 146097)
      ∙ sym
          (ap (λ doe. next_day (dated (year_of_era doe + z / 146097 * 400) (day_of_year doe))) rest)
  | inr within ↦
      let small : suc (z % 146097) < 146097 = ground arith in
      let day : suc z % 146097 ≡ suc (z % 146097) = omega arith in
      let era : suc z / 146097 ≡ z / 146097 = omega arith in
      ap (λ doe. dated (year_of_era doe + suc z / 146097 * 400) (day_of_year doe)) day
      ∙ ap (λ e. dated (year_of_era (suc (z % 146097)) + e * 400) (day_of_year (suc (z % 146097))))
          era
      ∙ inside_era (z / 146097) (z % 146097) small
]
