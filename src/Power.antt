-- ===== src/Power.antt =====
-- src/power.rs: `ClickTracker`, which turns presses of the power key into clicks. An instant is a
-- number of milliseconds.
pub mod Clicks
pub mod Examples
use riddle.Prelude.{
  ℕ, ◌+◌, Bool, true, false, ◌&&◌, Option, none, some, List, [], ◌∷◌, ltb, leb, ◌==◌, if◌then◌else◌,
}

abbrev pub multi_click_gap : ℕ
multi_click_gap = 800

pub data ClickAction : Type 0 where
  no_action single triple : ClickAction

pub record ClickTracker : Type 0 where
  pub clicks : ℕ
  pub deadline : Option ℕ

-- `ClickTracker::new`, and what `clear` leaves.
abbrev pub cleared : ClickTracker
cleared = record { clicks = 0; deadline = none }

-- `deadline.is_some_and(|deadline| now > deadline)` and `now >= deadline`
unfoldable pub is_past : Option ℕ → ℕ → Bool
is_past none now = false
is_past (some deadline) now = ltb deadline now

unfoldable pub is_over : Option ℕ → ℕ → Bool
is_over none now = false
is_over (some deadline) now = leb deadline now

unfoldable pub poll_clicks : ClickTracker → ℕ → ClickAction × ClickTracker
unfolding is_over
poll_clicks tracker now =
    if ltb 0 tracker.clicks && is_over tracker.deadline now
    then (single, cleared)
    else (no_action, tracker)

unfoldable pub count_clicks : ClickTracker → ℕ → ℕ → ClickAction × ClickTracker
count_clicks tracker presses now = if leb 3 (tracker.clicks + presses) then (triple, cleared) else (
  no_action,
  record { clicks = tracker.clicks + presses; deadline = some (now + multi_click_gap) },
)

unfoldable pub push_clicks : ClickTracker → ℕ → ℕ → ClickAction × ClickTracker
unfolding is_past poll_clicks count_clicks
push_clicks tracker presses now =
    if presses == 0
    then poll_clicks tracker now
    else count_clicks (if is_past tracker.deadline now then cleared else tracker) presses now

-- A session: the presses that each wake-up of the loop finds, with its instant.
unfoldable pub run_clicks : ClickTracker → List (ℕ × ℕ) → ClickTracker
unfolding push_clicks
run_clicks tracker [] = tracker
run_clicks tracker (wake ∷ wakes) = run_clicks (push_clicks tracker wake.0 wake.1).1 wakes
