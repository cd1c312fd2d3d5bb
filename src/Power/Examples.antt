-- ===== src/Power/Examples.antt =====
-- src/power.rs: the theorems of the click tracker at presses half a second apart.
use riddle.Prelude.{◌+◌, ◌≡◌, leb, if◌then◌else◌, some, [], ◌∷◌, arith}
use riddle.Power.{no_action, triple, cleared, multi_click_gap, push_clicks, run_clicks}
use riddle.Power.Clicks.{IsWaiting, run_clicks-IsWaiting, push_clicks-triple}

run_clicks-IsWaiting_example :
    IsWaiting (run_clicks cleared ((1, 100) ∷ (0, 500) ∷ (1, 600) ∷ (0, 2000) ∷ []))
run_clicks-IsWaiting_example =
    run_clicks-IsWaiting ((1, 100) ∷ (0, 500) ∷ (1, 600) ∷ (0, 2000) ∷ [])

push_clicks-triple_example :
    push_clicks (push_clicks (push_clicks cleared 1 100).1 1 600).1 1 1100 ≡ (
      if leb 1100 (600 + multi_click_gap)
      then (triple, cleared)
      else (no_action, record { clicks = 1; deadline = some (1100 + multi_click_gap) }))
push_clicks-triple_example = push_clicks-triple 100 600 1100 (omega arith)
