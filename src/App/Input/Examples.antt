-- ===== src/App/Input/Examples.antt =====
-- src/app/input.rs: the theorems of the pen's gate and stream at small inputs.
use riddle.Prelude.{ℕ, ◌≡◌, refl, false, map, List, [], ◌∷◌}
use riddle.App.Input.{
  State, listening, awaiting_pen_up, orphan_recovery_may_release, PenPhase, answer_visible, user,
  pen, down, moved, up, gate_of, input_mode_for_state, fade_answer, reset_pen, transition,
  input_pen_press, input_pen_update,
}
use riddle.App.Input.Gates.{Allowed, gate_of-Allowed}
use riddle.App.Input.Streams.{
  HostEvent, Emitted, Contacts, phases_of, run_events, run_events-Contacts,
}

abbrev at_state : State → ℕ → ℕ → ℕ → HostEvent
at_state state input_type pressure now = record {
  input_type = input_type;
  pressure = pressure;
  now = now;
  state = state;
}

-- A press, a lost release, a press a second later, and an update without pressure.
abbrev lost_release : State → List HostEvent
lost_release state =
    at_state state input_pen_press 40 1000
    ∷ at_state state input_pen_update 50 2000
    ∷ at_state state input_pen_update 60 1000002000
    ∷ at_state state input_pen_update 0 1000003000
    ∷ []

abbrev phases_in : State → List PenPhase
phases_in state = map (λ (e : Emitted). e.phase) (run_events (lost_release state) reset_pen).0

lost_release_runs : phases_in listening ≡ down ∷ moved ∷ up ∷ down ∷ up ∷ []
unfolding run_events phases_of transition orphan_recovery_may_release
lost_release_runs = refl

-- The contact that dismissed an answer is not ended by the gap.
barrier_runs : phases_in awaiting_pen_up ≡ down ∷ moved ∷ down ∷ up ∷ []
unfolding run_events phases_of transition orphan_recovery_may_release
barrier_runs = refl

run_events-Contacts_example :
    Contacts false
      (run_events (lost_release awaiting_pen_up) reset_pen).0
      (run_events (lost_release awaiting_pen_up) reset_pen).1.is_down
run_events-Contacts_example = run_events-Contacts (lost_release awaiting_pen_up) reset_pen

gate_of-Allowed_example :
    Allowed
      (gate_of (input_mode_for_state answer_visible) answer_visible user pen down)
      answer_visible
      user
      pen
      down
gate_of-Allowed_example = gate_of-Allowed answer_visible user pen down

gate_of_runs :
    gate_of (input_mode_for_state answer_visible) answer_visible user pen down ≡ fade_answer
unfolding gate_of input_mode_for_state
gate_of_runs = refl
