-- ===== src/Ui/Sliders.antt =====
-- The sliders of src/ui/settings.rs. The screen's width is an argument; the coordinate of a contact is
-- any `i32`.
use native.Mathlib.Nat.{div-lt_iff_lt-mul, mul-le-mul_right, mul_comm, suc-mul}
use mathlib.Core.Option
use riddle.Prelude.{
  ℕ, suc, ◌+◌, ◌-◌, ◌*◌, ◌/◌, ◌%◌, ◌^◌, ◌≤◌, ◌<◌, ◌≡◌, refl, ap, false, Option, none, some, ltb,
  max, if◌then◌else◌, ℤ, pos, negsuc, pos_part, wrap_i32, wrap_i32-id, ◌∙◌, arith,
}
use riddle.Preferences.{PreferenceValues, clamp}
use riddle.Preferences.Normal.{IsNormal}

pub data Setting : Type 0 where
  cleanup_strength cleanup_padding full_refresh_interval answer_dwell pi_agent fonts : Setting
  refresh_now : Setting

abbrev pub slider_x0 : ℕ
slider_x0 = 170

abbrev pub slider_side : ℕ
slider_side = 170

-- How far along the slider a coordinate is. A negative one is clamped like 0.
abbrev pub offset : ℤ → ℕ → ℕ → ℕ
offset x x0 x1 = clamp x0 x1 (pos_part x) - x0

-- The number of steps that a coordinate selects.
abbrev pub selected : ℕ → ℕ → ℕ → ℕ
selected along span steps = (along * steps + span / 2) / span

-- `none` where `i32::clamp` panics, since the right end is before the left one.
unfoldable pub slider_value : ℤ → ℕ → ℤ → ℕ → ℕ → ℕ → Option ℕ
slider_value x x0 (negsuc x1) low high step = none
slider_value x x0 (pos x1) low high step =
    if ltb x1 x0
    then none
    else some (
        (low + selected (offset x x0 x1) (max (x1 - x0) 1) ((high - low) / step) % 2 ^ 16 * step)
        % 2 ^ 16)

-- `screen_w().saturating_sub(SLIDER_SIDE) as i32`
abbrev pub slider_x1 : ℕ → ℤ
slider_x1 screen_w = wrap_i32 (pos (screen_w - slider_side))

unfoldable pub apply_slider : Setting → PreferenceValues → ℤ → ℕ → Option PreferenceValues
unfolding slider_value wrap_i32
apply_slider cleanup_padding values x screen_w =
    Option.map (λ value. record values { cleanup_padding_px = value % 2 ^ 8 })
      (slider_value x slider_x0 (slider_x1 screen_w) 0 32 4)
apply_slider full_refresh_interval values x screen_w =
    Option.map (λ value. record values { full_refresh_every_replies = value % 2 ^ 8 })
      (slider_value x slider_x0 (slider_x1 screen_w) 0 10 1)
apply_slider answer_dwell values x screen_w =
    Option.map (λ value. record values { answer_dwell_percent = value })
      (slider_value x slider_x0 (slider_x1 screen_w) 50 200 10)
apply_slider setting values x screen_w = some values

-- A coordinate along the slider selects at most all steps.
selected-le : (along span steps : ℕ) → along ≤ span → 0 < span → selected along span steps ≤ steps
selected-le along span steps h k =
    let within = mul-le-mul_right steps h in
    let below : selected along span steps < suc steps =
      (div-lt_iff_lt-mul k).1 (rw (suc-mul, mul_comm steps span) (omega arith)) in
    omega arith

offset-le : (x : ℤ) (x0 x1 : ℕ) → x0 ≤ x1 → offset x x0 x1 ≤ max (x1 - x0) 1
offset-le x x0 x1 h = omega arith

slider_value-some :
    (x : ℤ) (x0 x1 low high step : ℕ)
    → x0 ≤ x1
    → (k : ℕ) × (k ≤ (high - low) / step)
      × (slider_value x x0 (pos x1) low high step ≡ some ((low + k % 2 ^ 16 * step) % 2 ^ 16))
unfolding slider_value
slider_value-some x x0 x1 low high step h =
    let ordered : ltb x1 x0 ≡ false = ground arith in
    (
      selected (offset x x0 x1) (max (x1 - x0) 1) ((high - low) / step),
      selected-le _ (max (x1 - x0) 1) ((high - low) / step) (offset-le x x0 x1 h) (omega arith),
      rw ordered refl,
    )

slider_x1-eq :
    (screen_w : ℕ)
    → slider_x0 + slider_side ≤ screen_w
    → screen_w < 2 ^ 31
    → slider_x1 screen_w ≡ pos (screen_w - slider_side)
slider_x1-eq screen_w room narrow = wrap_i32-id _ (omega arith) (omega arith)

set_value :
    (x : ℤ) (screen_w low high step : ℕ)
    → slider_x0 + slider_side ≤ screen_w
    → screen_w < 2 ^ 31
    → (k : ℕ) × (k ≤ (high - low) / step)
      × (slider_value x slider_x0 (slider_x1 screen_w) low high step
          ≡ some ((low + k % 2 ^ 16 * step) % 2 ^ 16))
set_value x screen_w low high step room narrow =
    let (k, within, e) =
      slider_value-some x slider_x0 (screen_w - slider_side) low high step (omega arith) in
    (
      k,
      within,
      ap (λ x1. slider_value x slider_x0 x1 low high step) (slider_x1-eq screen_w room narrow) ∙ e,
    )

-- On a screen that has room for a slider and whose width is an i32, from values in range: a contact
-- anywhere, with any setting, sets values without a panic, and they are in range again.
pub apply_slider-IsNormal :
    (setting : Setting) (values : PreferenceValues) (x : ℤ) (screen_w : ℕ)
    → IsNormal values
    → slider_x0 + slider_side ≤ screen_w
    → screen_w < 2 ^ 31
    → (new : PreferenceValues) × (apply_slider setting values x screen_w ≡ some new) × IsNormal new
unfolding apply_slider
apply_slider-IsNormal cleanup_padding values x screen_w n room narrow =
    let (k, within, e) = set_value x screen_w 0 32 4 room narrow in
    (
      _,
      ap (Option.map (λ value. record values { cleanup_padding_px = value % 2 ^ 8 })) e,
      record {
        padding = omega arith;
        padding_step = omega arith;
        interval = n.interval;
        dwell_low = n.dwell_low;
        dwell = n.dwell;
        dwell_step = n.dwell_step;
      },
    )
apply_slider-IsNormal full_refresh_interval values x screen_w n room narrow =
    let (k, within, e) = set_value x screen_w 0 10 1 room narrow in
    (
      _,
      ap (Option.map (λ value. record values { full_refresh_every_replies = value % 2 ^ 8 })) e,
      record {
        padding = n.padding;
        padding_step = n.padding_step;
        interval = omega arith;
        dwell_low = n.dwell_low;
        dwell = n.dwell;
        dwell_step = n.dwell_step;
      },
    )
apply_slider-IsNormal answer_dwell values x screen_w n room narrow =
    let (k, within, e) = set_value x screen_w 50 200 10 room narrow in
    (
      _,
      ap (Option.map (λ value. record values { answer_dwell_percent = value })) e,
      record {
        padding = n.padding;
        padding_step = n.padding_step;
        interval = n.interval;
        dwell_low = omega arith;
        dwell = omega arith;
        dwell_step = omega arith;
      },
    )
apply_slider-IsNormal cleanup_strength values x screen_w n room narrow = (values, refl, n)
apply_slider-IsNormal pi_agent values x screen_w n room narrow = (values, refl, n)
apply_slider-IsNormal fonts values x screen_w n room narrow = (values, refl, n)
apply_slider-IsNormal refresh_now values x screen_w n room narrow = (values, refl, n)
