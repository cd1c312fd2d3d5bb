-- ===== src/Power/Clicks.antt =====
-- src/power.rs: what the presses of the power key amount to.
use riddle.Prelude.{
  ℕ, ◌+◌, ◌<◌, ◌≤◌, ◌≡◌, ◌≢◌, refl, Bool, true, false, ◌&&◌, none, some, List, [], ◌∷◌, ltb, leb,
  ◌==◌, if◌then◌else◌, arith, Bool-cases, inl, inr,
}
use riddle.Power.{
  no_action, single, triple, ClickTracker, cleared, multi_click_gap, is_past, is_over, poll_clicks,
  count_clicks, push_clicks, run_clicks,
}

-- At most two clicks wait, and they wait for a deadline exactly when there are some.
pub record IsWaiting (tracker : ClickTracker) : Type 0 where
  pub few : tracker.clicks < 3
  pub resting : tracker.clicks ≡ 0 → tracker.deadline ≡ none
  pub timed : tracker.clicks ≢ 0 → tracker.deadline ≢ none

cleared-IsWaiting : IsWaiting cleared
cleared-IsWaiting = record { few = omega arith; resting = λ h. refl; timed = λ h. absurd (h refl) }

count_clicks-IsWaiting :
    (tracker : ClickTracker) (presses now : ℕ)
    → presses ≢ 0
    → IsWaiting (count_clicks tracker presses now).1
unfolding count_clicks
count_clicks-IsWaiting tracker presses now n =
    elim (Bool-cases (leb 3 (tracker.clicks + presses))) [
      | inl three ↦ rw three cleared-IsWaiting
      | inr fewer ↦ rw fewer (record {
        few = ground arith;
        resting = λ h. absurd (n (omega arith));
        timed = λ h k. cc;
      })
    ]

poll_clicks-IsWaiting :
    (tracker : ClickTracker) (now : ℕ) → IsWaiting tracker → IsWaiting (poll_clicks tracker now).1
unfolding poll_clicks
poll_clicks-IsWaiting tracker now w =
    elim (Bool-cases (ltb 0 tracker.clicks && is_over tracker.deadline now)) [
      | inl over ↦ rw over cleared-IsWaiting
      | inr early ↦ rw early w
    ]

push_clicks-IsWaiting :
    (tracker : ClickTracker) (presses now : ℕ)
    → IsWaiting tracker
    → IsWaiting (push_clicks tracker presses now).1
unfolding push_clicks
push_clicks-IsWaiting tracker presses now w = elim (Bool-cases (presses == 0)) [
  | inl idle ↦ rw idle (poll_clicks-IsWaiting tracker now w)
  | inr pressed ↦ rw pressed (
      count_clicks-IsWaiting (if is_past tracker.deadline now then cleared else tracker) presses now
        (λ h. ground arith))
]

run-keeps :
    (tracker : ClickTracker) (wakes : List (ℕ × ℕ))
    → IsWaiting tracker
    → IsWaiting (run_clicks tracker wakes)
unfolding run_clicks
run-keeps tracker [] w = w
run-keeps tracker (wake ∷ wakes) w =
    run-keeps (push_clicks tracker wake.0 wake.1).1 wakes
      (push_clicks-IsWaiting tracker wake.0 wake.1 w)

-- After any sequence of wake-ups, whatever presses they find: at most two clicks wait, and a deadline
-- is set exactly when some do.
pub run_clicks-IsWaiting : (wakes : List (ℕ × ℕ)) → IsWaiting (run_clicks cleared wakes)
run_clicks-IsWaiting wakes = run-keeps cleared wakes cleared-IsWaiting

-- One or two presses that a resting tracker finds at once are one normal click when the gap is over,
-- and wait until then.
pub push_clicks-single :
    (presses now later : ℕ)
    → presses ≢ 0
    → presses < 3
    → let waiting = (push_clicks cleared presses now).1 in
      poll_clicks waiting later
      ≡ (if leb (now + multi_click_gap) later then (single, cleared) else (no_action, waiting))
unfolding push_clicks count_clicks poll_clicks is_past is_over
push_clicks-single presses now later n f =
    let pressed : (presses == 0) ≡ false = ground arith in
    let fewer : leb 3 (0 + presses) ≡ false = ground arith in
    let waits : ltb 0 (0 + presses) ≡ true = ground arith in rw pressed (rw fewer (rw waits refl))

third_click :
    (second third : ℕ) (in_time : Bool)
    → leb third (second + multi_click_gap) ≡ in_time
    → count_clicks
        (if ltb (second + multi_click_gap) third
          then cleared
          else record { clicks = 2; deadline = some (second + multi_click_gap) })
        1
        third
      ≡ (if in_time
          then (triple, cleared)
          else (no_action, record { clicks = 1; deadline = some (third + multi_click_gap) }))
unfolding count_clicks
third_click second third true e =
    let still : ltb (second + multi_click_gap) third ≡ false = ground arith in rw still refl
third_click second third false e =
    let past : ltb (second + multi_click_gap) third ≡ true = ground arith in rw past refl

-- Three presses, each no later than the gap after the one before it, are a triple click at the third
-- and leave the tracker at rest; when the third comes later, it begins anew.
pub push_clicks-triple :
    (first second third : ℕ)
    → second ≤ first + multi_click_gap
    → let two = (push_clicks (push_clicks cleared 1 first).1 1 second).1 in
      push_clicks two 1 third ≡ (
        if leb third (second + multi_click_gap)
        then (triple, cleared)
        else (no_action, record { clicks = 1; deadline = some (third + multi_click_gap) }))
unfolding push_clicks count_clicks is_past
push_clicks-triple first second third h =
    let second_in_time : ltb (first + multi_click_gap) second ≡ false = ground arith in
    rw second_in_time (third_click second third (leb third (second + multi_click_gap)) refl)
