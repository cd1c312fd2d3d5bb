-- ===== src/App/Input.antt =====
-- src/app/input.rs, with the modes of src/app/state.rs: what a pen contact may do before it can reach the
-- page. An instant is a number of nanoseconds.
pub mod Gates
pub mod Streams
pub mod Examples
use riddle.Prelude.{
  ℕ, ◌+◌, ◌-◌, ◌*◌, ◌%◌, ◌^◌, ◌≡◌, refl, Bool, true, false, not, ◌&&◌, ◌||◌, Option, none, some,
  List, [], ◌∷◌, ◌++◌, ltb, leb, ◌==◌, if◌then◌else◌, max,
}
use riddle.Domain.{
  Model, foreground, reduce, user_input_started, user_input_finished, enter_foreground,
  enter_background,
}

-- src/platform.rs
pub data PenPhase : Type 0 where
  down moved up cancel : PenPhase

pub data PenTool : Type 0 where
  pen eraser : PenTool

pub data InputMode : Type 0 where
  writing animation_locked modal : InputMode

-- `State` of src/app/state.rs, without what its variants carry.
pub data State : Type 0 where
  listening drinking thinking replying answer_visible fading_reply awaiting_pen_up : State
  help conjuring memory_shown task_list todo_list font_list settings pi_settings : State
  history_list reader_list awaiting_handoff_ack handoff_pending : State

unfoldable pub input_mode_for_state : State → InputMode
input_mode_for_state listening = writing
input_mode_for_state help = modal
input_mode_for_state conjuring = modal
input_mode_for_state memory_shown = modal
input_mode_for_state task_list = modal
input_mode_for_state todo_list = modal
input_mode_for_state font_list = modal
input_mode_for_state settings = modal
input_mode_for_state pi_settings = modal
input_mode_for_state history_list = modal
input_mode_for_state reader_list = modal
input_mode_for_state drinking = animation_locked
input_mode_for_state thinking = animation_locked
input_mode_for_state replying = animation_locked
input_mode_for_state answer_visible = animation_locked
input_mode_for_state fading_reply = animation_locked
input_mode_for_state awaiting_pen_up = animation_locked
input_mode_for_state awaiting_handoff_ack = animation_locked
input_mode_for_state handoff_pending = animation_locked

pub data PenGate : Type 0 where
  apply ignore fade_answer cancel_heartbeat : PenGate

abbrev pub is_locked : InputMode → Bool
is_locked writing = false
is_locked animation_locked = true
is_locked modal = false

-- `frame.tool == PenTool::Pen && frame.phase == PenPhase::Down`
abbrev pub fresh_pen_down : PenTool → PenPhase → Bool
fresh_pen_down pen down = true
fresh_pen_down _ _ = false

unfoldable pub gate_pen_frame : InputMode → PenTool → PenPhase → Bool → Bool → PenGate
gate_pen_frame mode tool phase answer_visible' heartbeat_in_flight =
    if not (is_locked mode)
    then apply
    else if answer_visible' && fresh_pen_down tool phase
    then fade_answer
    else if heartbeat_in_flight && fresh_pen_down tool phase
    then cancel_heartbeat
    else ignore

pub data TurnKind : Type 0 where
  user heartbeat : TurnKind

abbrev pub is_answer : State → Bool
is_answer answer_visible = true
is_answer _ = false

abbrev pub is_in_flight : State → Bool
is_in_flight thinking = true
is_in_flight replying = true
is_in_flight _ = false

abbrev is_heartbeat : TurnKind → Bool
is_heartbeat user = false
is_heartbeat heartbeat = true

-- The call in `prepare_pen_frame` of src/app/runtime/input_loop.rs.
unfoldable pub gate_of : InputMode → State → TurnKind → PenTool → PenPhase → PenGate
unfolding gate_pen_frame
gate_of mode state turn tool phase =
    gate_pen_frame mode tool phase (is_answer state) (is_heartbeat turn && is_in_flight state)

-- The codes of src/qtfb.rs.
abbrev pub input_pen_press : ℕ
input_pen_press = 0x20

abbrev pub input_pen_release : ℕ
input_pen_release = 0x21

abbrev pub input_pen_update : ℕ
input_pen_update = 0x22

abbrev pub qtfb_orphan_gap : ℕ
qtfb_orphan_gap = 900 * 1000000

pub data QtfbPenTransition : Type 0 where
  hover : QtfbPenTransition
  release draw : Bool → Bool → QtfbPenTransition

pub record QtfbPenState : Type 0 where
  pub is_down : Bool
  pub last_pressure_event : Option ℕ

-- `QtfbPenState::reset`
abbrev pub reset_pen : QtfbPenState
reset_pen = record { is_down = false; last_pressure_event = none }

abbrev pub silent_since : Option ℕ → ℕ → Bool
silent_since none now = false
silent_since (some last) now = leb qtfb_orphan_gap (now - last)

unfoldable pub transition : ℕ → ℕ → ℕ → QtfbPenState → QtfbPenTransition × QtfbPenState
transition input_type pressure now s =
    let close_orphan = s.is_down && silent_since s.last_pressure_event now in
    if input_type == input_pen_release
      || (input_type == input_pen_update && pressure == 0 && s.is_down)
    then (
      release s.is_down (input_type == input_pen_update),
      record { is_down = false; last_pressure_event = none },
    )
    else if input_type == input_pen_update && pressure == 0
    then (hover, s)
    else (
      draw close_orphan (not s.is_down || close_orphan),
      record { is_down = true; last_pressure_event = some now },
    )

-- A gap in time is no proof that the contact which dismissed an answer has ended
-- (src/app/runtime/input_loop.rs).
unfoldable pub orphan_recovery_may_release : State → Bool
orphan_recovery_may_release awaiting_pen_up = false
orphan_recovery_may_release state = true

-- `PenSequence::next`, the new sequence as the answer.
unfoldable pub next_sequence : ℕ → ℕ
next_sequence s = max ((s + 1) % 2 ^ 64) 1

-- `InputPriority`
unfoldable pub begin_pen : Model → Model
begin_pen model = (reduce model user_input_started).0

unfoldable pub end_pen : Model → Model
end_pen model = (reduce model user_input_finished).0
