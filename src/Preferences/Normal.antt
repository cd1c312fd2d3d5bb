-- ===== src/Preferences/Normal.antt =====
-- The range that `normalized` of src/preferences.rs brings the values to.
use riddle.Prelude.{ℕ, ◌%◌, ◌≤◌, ◌≡◌, refl, arith}
use riddle.Preferences.{
  PreferenceValues, clamp, quantize_u8, quantize_u16, default_values, normalized,
  migrate_legacy_values,
}

-- The values that the settings panel can show.
pub record IsNormal (values : PreferenceValues) : Type 0 where
  pub padding : values.cleanup_padding_px ≤ 32
  pub padding_step : values.cleanup_padding_px % 4 ≡ 0
  pub interval : values.full_refresh_every_replies ≤ 10
  pub dwell_low : 50 ≤ values.answer_dwell_percent
  pub dwell : values.answer_dwell_percent ≤ 200
  pub dwell_step : values.answer_dwell_percent % 10 ≡ 0

-- Whatever the values are, they are in range afterwards.
pub normalized-IsNormal : (values : PreferenceValues) → IsNormal (normalized values)
unfolding normalized
normalized-IsNormal values = record {
  padding = omega arith;
  padding_step = omega arith;
  interval = omega arith;
  dwell_low = omega arith;
  dwell = omega arith;
  dwell_step = omega arith;
}

same_padding : (v : ℕ) → v ≤ 32 → v % 4 ≡ 0 → quantize_u8 (clamp 0 32 v) 4 ≡ v
same_padding v h k = omega arith

same_dwell : (v : ℕ) → 50 ≤ v → v ≤ 200 → v % 10 ≡ 0 → quantize_u16 (clamp 50 200 v) 10 ≡ v
same_dwell v h k e = omega arith

same_interval : (v : ℕ) → v ≤ 10 → clamp 0 10 v ≡ v
same_interval v h = omega arith

-- Values in range stay as they are.
pub normalized-eq : (values : PreferenceValues) → IsNormal values → normalized values ≡ values
unfolding normalized
normalized-eq values n = λ i. record {
  cleanup_strength = values.cleanup_strength;
  cleanup_padding_px = same_padding values.cleanup_padding_px n.padding n.padding_step i;
  full_refresh_every_replies = same_interval values.full_refresh_every_replies n.interval i;
  answer_dwell_percent = same_dwell values.answer_dwell_percent n.dwell_low n.dwell n.dwell_step i;
}

pub migrate_legacy_values-IsNormal :
    (values : PreferenceValues) → IsNormal (migrate_legacy_values values)
unfolding migrate_legacy_values
migrate_legacy_values-IsNormal values = normalized-IsNormal _

pub default_values-IsNormal : IsNormal default_values
default_values-IsNormal = record {
  padding = omega arith;
  padding_step = refl;
  interval = omega arith;
  dwell_low = omega arith;
  dwell = omega arith;
  dwell_step = refl;
}
