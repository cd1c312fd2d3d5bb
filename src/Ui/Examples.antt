-- ===== src/Ui/Examples.antt =====
-- src/ui: the theorems of gestures and lists at a small screen.
use riddle.Prelude.{
  ℕ, ◌≡◌, refl, true, false, some, none, List, [], ◌∷◌, ◌&&◌, if◌then◌else◌, arith, pos, negsuc,
  wrap_i32, clamp_i32, ◌+ℤ◌, ◌-ℤ◌, ◌*ℤ◌,
}
use riddle.Preferences.{PreferenceValues, default_values}
use riddle.Preferences.Normal.{IsNormal, default_values-IsNormal}
use riddle.Ui.Sliders.{slider_value, answer_dwell, apply_slider, apply_slider-IsNormal}
use riddle.Ui.Pointer.{
  Point, HitRect, contains, clipped_to, finger, pen, Gesture, tap, swipe, strike, classify,
  default_policy,
}
use riddle.Ui.Pointer.Rectangles.{contained_in, on_screen, clipped_to-contains}
use riddle.Ui.PaperList.{
  PaperList, Content, delete, redraw_only, on_toggle, interact, show_with_mode, redraw,
}
use riddle.Ui.PaperList.Paging.{row_numbers}
use riddle.Ui.PaperList.Acting.{Justified, interact-Justified}
use riddle.Ui.PaperList.Reaching.{run_gestures, listed_among, redraw-reaches}
use riddle.Ui.PaperList.Previews.{press, release_gesture, run_updates, run_updates-interact}

abbrev at : ℕ → ℕ → Point
at x y = record { x = pos x; y = pos y }

abbrev text_at : ℕ → HitRect
text_at index = record { x0 = pos 92; y0 = pos 300; x1 = pos 400; y1 = pos 360 }

-- Twenty entries with switches, on a screen of 954 by 1696 pixels.
abbrev twenty : Content
twenty = record {
  screen_w = 954;
  screen_h = 1696;
  entry_count = 20;
  enabled = some (true ∷ false ∷ []);
  text_rect = text_at;
}

abbrev listed : PaperList
listed = show_with_mode twenty false

abbrev struck_gesture : Gesture
struck_gesture =
    strike pen (at 90 330) (at 500 332)
      (record { x0 = pos 90; y0 = pos 330; x1 = pos 501; y1 = pos 333 })

interact-Justified_example : Justified listed struck_gesture (interact listed struck_gesture).0
interact-Justified_example = interact-Justified listed struck_gesture

struck_runs : (interact listed struck_gesture).0 ≡ delete 1
unfolding interact show_with_mode wrap_i32 clamp_i32 ◌+ℤ◌ ◌-ℤ◌ ◌*ℤ◌
struck_runs = refl

redraw-reaches_example :
    (gestures : List Gesture) × (listed_among 19
        (row_numbers (run_gestures twenty gestures (redraw twenty listed)).rows)
      ≡ true)
redraw-reaches_example = redraw-reaches twenty listed 19 (omega arith) (omega arith)

abbrev dragged : List Point
dragged = at 90 330 ∷ at 300 331 ∷ at 500 332 ∷ []

abbrev dragged_gesture : Gesture
dragged_gesture =
    swipe finger (at 90 330) (at 500 332)
      (record { x0 = pos 90; y0 = pos 330; x1 = pos 501; y1 = pos 333 })

dragged_runs : classify default_policy finger dragged 400000000 ≡ some dragged_gesture
unfolding classify wrap_i32 clamp_i32 ◌+ℤ◌ ◌-ℤ◌ ◌*ℤ◌
dragged_runs = refl

clipped_to-contains_example :
    contained_in
      (clipped_to (record { x0 = negsuc 4; y0 = pos 10; x1 = pos 20; y1 = pos 30 }) 16 24)
      (at 15 23)
    ≡ (contains (record { x0 = negsuc 4; y0 = pos 10; x1 = pos 20; y1 = pos 30 }) (at 15 23)
        && on_screen 16 24 (at 15 23))
clipped_to-contains_example =
    clipped_to-contains (record { x0 = negsuc 4; y0 = pos 10; x1 = pos 20; y1 = pos 30 }) 16 24
      (at 15 23) (omega arith) (omega arith)

run_updates-interact_example :
    interact listed (
      release_gesture
        (run_updates (at 600 400 ∷ []) (press finger (on_toggle 1) (text_at 0) (at 100 310) true))
        (at 600 400)
        none)
    ≡ (if contains (text_at 0) (at 600 400)
        then interact listed (tap finger (at 600 400))
        else (redraw_only, listed))
run_updates-interact_example =
    run_updates-interact listed finger (on_toggle 1) (text_at 0) (at 100 310) true [] (at 600 400)
      none

-- A contact right of the middle of a screen of 954 pixels.
slider_runs :
    apply_slider answer_dwell default_values (pos 600) 954
    ≡ some (record default_values { answer_dwell_percent = 160 })
unfolding apply_slider slider_value wrap_i32
slider_runs = refl

apply_slider-IsNormal_example :
    (new : PreferenceValues) × (apply_slider answer_dwell default_values (pos 600) 954 ≡ some new)
    × IsNormal new
apply_slider-IsNormal_example =
    apply_slider-IsNormal answer_dwell default_values (pos 600) 954 default_values-IsNormal
      (omega arith) (omega arith)
