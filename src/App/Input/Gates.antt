-- ===== src/App/Input/Gates.antt =====
-- What a contact may start in each state of the application (src/app/input.rs, src/app/state.rs).
use riddle.Prelude.{◌≡◌, refl, Bool, false, Option, none, some, if◌then◌else◌, ◌⊎◌, inl, inr}
use riddle.Domain.{
  Lifecycle, Priority, maintenance, automatic_output, user_input, requested_output, lifecycle_work,
  is_automatic, reduce, preempt,
}
use riddle.App.Input.{
  PenPhase, down, moved, up, cancel, PenTool, pen, eraser, writing, animation_locked, modal, State,
  listening, drinking, thinking, replying, answer_visible, fading_reply, awaiting_pen_up, help,
  conjuring, memory_shown, task_list, todo_list, font_list, settings, pi_settings, history_list,
  reader_list, awaiting_handoff_ack, handoff_pending, input_mode_for_state, TurnKind, user,
  heartbeat, PenGate, apply, ignore, fade_answer, cancel_heartbeat, gate_of, begin_pen, end_pen,
}

-- What a gate promises of the state.
abbrev pub Allowed : PenGate → State → TurnKind → PenTool → PenPhase → Type 0
Allowed apply state turn tool phase =
    (input_mode_for_state state ≡ writing) ⊎ (input_mode_for_state state ≡ modal)
Allowed fade_answer state turn tool phase = (state ≡ answer_visible) × (tool ≡ pen) × (phase ≡ down)
Allowed cancel_heartbeat state turn tool phase =
    (turn ≡ heartbeat) × ((state ≡ thinking) ⊎ (state ≡ replying)) × (tool ≡ pen) × (phase ≡ down)
Allowed ignore state turn tool phase = input_mode_for_state state ≡ animation_locked

abbrev Gated : State → TurnKind → PenTool → PenPhase → Type 0
Gated state turn tool phase =
    Allowed (gate_of (input_mode_for_state state) state turn tool phase) state turn tool phase

-- A visible answer.
answer_Gated :
    (turn : TurnKind) (tool : PenTool) (phase : PenPhase) → Gated answer_visible turn tool phase
unfolding gate_of input_mode_for_state
answer_Gated turn pen down = (refl, refl, refl)
answer_Gated user pen moved = refl
answer_Gated user pen up = refl
answer_Gated user pen cancel = refl
answer_Gated user eraser phase = refl
answer_Gated heartbeat pen moved = refl
answer_Gated heartbeat pen up = refl
answer_Gated heartbeat pen cancel = refl
answer_Gated heartbeat eraser phase = refl

-- A request that is under way.
thinking_Gated :
    (turn : TurnKind) (tool : PenTool) (phase : PenPhase) → Gated thinking turn tool phase
unfolding gate_of input_mode_for_state
thinking_Gated user tool phase = refl
thinking_Gated heartbeat pen down = (refl, inl refl, refl, refl)
thinking_Gated heartbeat pen moved = refl
thinking_Gated heartbeat pen up = refl
thinking_Gated heartbeat pen cancel = refl
thinking_Gated heartbeat eraser phase = refl

-- A request that is under way.
replying_Gated :
    (turn : TurnKind) (tool : PenTool) (phase : PenPhase) → Gated replying turn tool phase
unfolding gate_of input_mode_for_state
replying_Gated user tool phase = refl
replying_Gated heartbeat pen down = (refl, inr refl, refl, refl)
replying_Gated heartbeat pen moved = refl
replying_Gated heartbeat pen up = refl
replying_Gated heartbeat pen cancel = refl
replying_Gated heartbeat eraser phase = refl

-- In every state, with the mode of that state: only a writing or a modal state lets a contact through
-- to the page or the panel, only a fresh down of the pen's tip fades a visible answer, only such a one
-- cancels a heartbeat's request, and only while it thinks or replies; everything else is ignored.
pub gate_of-Allowed :
    (state : State) (turn : TurnKind) (tool : PenTool) (phase : PenPhase)
    → Allowed (gate_of (input_mode_for_state state) state turn tool phase) state turn tool phase
unfolding gate_of input_mode_for_state
gate_of-Allowed listening turn tool phase = inl refl
gate_of-Allowed help turn tool phase = inr refl
gate_of-Allowed conjuring turn tool phase = inr refl
gate_of-Allowed memory_shown turn tool phase = inr refl
gate_of-Allowed task_list turn tool phase = inr refl
gate_of-Allowed todo_list turn tool phase = inr refl
gate_of-Allowed font_list turn tool phase = inr refl
gate_of-Allowed settings turn tool phase = inr refl
gate_of-Allowed pi_settings turn tool phase = inr refl
gate_of-Allowed history_list turn tool phase = inr refl
gate_of-Allowed reader_list turn tool phase = inr refl
gate_of-Allowed drinking user tool phase = refl
gate_of-Allowed drinking heartbeat tool phase = refl
gate_of-Allowed fading_reply user tool phase = refl
gate_of-Allowed fading_reply heartbeat tool phase = refl
gate_of-Allowed awaiting_pen_up user tool phase = refl
gate_of-Allowed awaiting_pen_up heartbeat tool phase = refl
gate_of-Allowed awaiting_handoff_ack user tool phase = refl
gate_of-Allowed awaiting_handoff_ack heartbeat tool phase = refl
gate_of-Allowed handoff_pending user tool phase = refl
gate_of-Allowed handoff_pending heartbeat tool phase = refl
gate_of-Allowed answer_visible turn tool phase = answer_Gated turn tool phase
gate_of-Allowed thinking turn tool phase = thinking_Gated turn tool phase
gate_of-Allowed replying turn tool phase = replying_Gated turn tool phase

-- What a contact leaves of the output on the page.
abbrev pub surviving : Option Priority → Option Priority
surviving none = none
surviving (some priority) = if is_automatic priority then none else some priority

-- A contact that begins and ends takes automatic output from the page, keeps any other output and the
-- lifecycle, and leaves no input active.
end_pen-begin_pen :
    (l : Lifecycle) (output : Option Priority) (active : Bool)
    → end_pen
        (begin_pen (record { lifecycle = l; active_output = output; user_input_active = active }))
      ≡ record { lifecycle = l; active_output = surviving output; user_input_active = false }
unfolding begin_pen end_pen reduce preempt is_automatic
end_pen-begin_pen l none active = refl
end_pen-begin_pen l (some maintenance) active = refl
end_pen-begin_pen l (some automatic_output) active = refl
end_pen-begin_pen l (some user_input) active = refl
end_pen-begin_pen l (some requested_output) active = refl
end_pen-begin_pen l (some lifecycle_work) active = refl
