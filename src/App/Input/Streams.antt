-- ===== src/App/Input/Streams.antt =====
-- The stream of pen phases that the repaired qtfb stream becomes (src/app/input.rs: `transition`;
-- src/app/runtime/input_loop.rs: `handle_host_pen`).
use riddle.Prelude.{
  ℕ, ◌+◌, ◌-◌, ◌^◌, ◌≤◌, ◌<◌, ◌≡◌, ◌≢◌, refl, Bool, true, false, not, ◌&&◌, ◌||◌, Option, none,
  some, List, [], ◌∷◌, ◌++◌, ltb, ◌==◌, if◌then◌else◌, arith, Bool-cases, inl, inr, ◌⊎◌,
}
use riddle.App.Input.{
  State, awaiting_pen_up, orphan_recovery_may_release, PenPhase, down, moved, up, QtfbPenTransition,
  hover, release, draw, QtfbPenState, transition, silent_since, input_pen_release, input_pen_update,
  next_sequence,
}

-- An event of the host: its type, its pressure, the instant, and the state of the application in which
-- it is handled.
pub record HostEvent : Type 0 where
  pub input_type : ℕ
  pub pressure : ℕ
  pub now : ℕ
  pub state : State

-- The contacts that a transition ends and begins.
unfoldable pub phases_of : State → QtfbPenTransition → List PenPhase
unfolding orphan_recovery_may_release
phases_of state hover = []
phases_of state (release was_down recovered) = if was_down then up ∷ [] else []
phases_of state (draw close_orphan recovered_press) =
    (if close_orphan && orphan_recovery_may_release state then up ∷ [] else [])
    ++ (if recovered_press then down ∷ [] else moved ∷ [])

-- A phase with the event that it comes of.
pub record Emitted : Type 0 where
  pub event : HostEvent
  pub phase : PenPhase

abbrev pub emitted : HostEvent → List PenPhase → List Emitted
emitted e [] = []
emitted e (phase ∷ phases) = record { event = e; phase = phase } ∷ emitted e phases

-- The events one after another, while the application goes on.
unfoldable pub run_events : List HostEvent → QtfbPenState → List Emitted × QtfbPenState
unfolding phases_of
run_events [] s = ([], s)
run_events (e ∷ events) s =
    let step = transition e.input_type e.pressure e.now s in
    let rest = run_events events step.1 in (emitted e (phases_of e.state step.0) ++ rest.0, rest.1)

-- The host says that the pen is up: a release, or an update without pressure.
abbrev pub IsRelease : HostEvent → Type 0
IsRelease e =
    (e.input_type ≡ input_pen_release) ⊎ (e.input_type ≡ input_pen_update) × (e.pressure ≡ 0)

-- From a contact that is held or not to one that is held or not: a contact begins with a down, moves,
-- and ends with an up, and the next one begins after it. While the application waits for the pen to
-- rise, only the host's word ends the contact, and a down goes on with it.
pub data Contacts : Bool → List Emitted → Bool → Type 0 where
  still : {b : Bool} → Contacts b [] b
  begins :
      {e : HostEvent} {ps : List Emitted} {b : Bool}
      → Contacts true ps b
      → Contacts false (record { event = e; phase = down } ∷ ps) b
  moves :
      {e : HostEvent} {ps : List Emitted} {b : Bool}
      → Contacts true ps b
      → Contacts true (record { event = e; phase = moved } ∷ ps) b
  ends :
      {e : HostEvent} {ps : List Emitted} {b : Bool}
      → (e.state ≡ awaiting_pen_up → IsRelease e)
      → Contacts false ps b
      → Contacts true (record { event = e; phase = up } ∷ ps) b
  goes_on :
      {e : HostEvent} {ps : List Emitted} {b : Bool}
      → e.state ≡ awaiting_pen_up
      → Contacts true ps b
      → Contacts true (record { event = e; phase = down } ∷ ps) b

Contacts-append :
    {a b c : Bool} {ps qs : List Emitted}
    → Contacts a ps b
    → Contacts b qs c
    → Contacts a (ps ++ qs) c
Contacts-append still k = k
Contacts-append (begins h) k = begins (Contacts-append h k)
Contacts-append (moves h) k = moves (Contacts-append h k)
Contacts-append (ends w h) k = ends w (Contacts-append h k)
Contacts-append (goes_on w h) k = goes_on w (Contacts-append h k)

abbrev StepOf : HostEvent → Bool → QtfbPenTransition × QtfbPenState → Type 0
StepOf e b x = Contacts b (emitted e (phases_of e.state x.0)) x.1.is_down

release_step :
    (e : HostEvent) (b r : Bool)
    → IsRelease e
    → Contacts b (emitted e (phases_of e.state (release b r))) false
unfolding phases_of
release_step e true r h = ends (λ w. h) still
release_step e false r h = still

awaiting_or_released :
    (state : State)
    → (state ≡ awaiting_pen_up) × (orphan_recovery_may_release state ≡ false)
      ⊎ (state ≢ awaiting_pen_up) × (orphan_recovery_may_release state ≡ true)
unfolding orphan_recovery_may_release
awaiting_or_released awaiting_pen_up = inl (refl, refl)
awaiting_or_released state = inr (λ h. cc, refl)

orphan_step : (e : HostEvent) → Contacts true (emitted e (phases_of e.state (draw true true))) true
unfolding phases_of
orphan_step e = elim (awaiting_or_released e.state) [
  | inl (waits, kept) ↦ rw kept (goes_on waits still)
  | inr (free, closed) ↦ rw closed (ends (λ w. absurd (free w)) (begins still))
]

draw_step :
    (e : HostEvent) (b c : Bool)
    → Contacts b (emitted e (phases_of e.state (draw (b && c) (not b || (b && c))))) true
unfolding phases_of
draw_step e true true = orphan_step e
draw_step e true false = moves still
draw_step e false c = begins still

hover_step : (e : HostEvent) (b : Bool) → Contacts b (emitted e (phases_of e.state hover)) b
unfolding phases_of
hover_step e b = still

branch_step :
    (e : HostEvent) (ended idle r c : Bool) (last : Option ℕ) (s : QtfbPenState)
    → (ended ≡ true → IsRelease e)
    → StepOf e s.is_down (
        if ended
        then (release s.is_down r, record { is_down = false; last_pressure_event = none })
        else if idle
        then (hover, s)
        else (
          draw (s.is_down && c) (not s.is_down || s.is_down && c),
          record { is_down = true; last_pressure_event = last },
        ))
branch_step e true idle r c last s h = release_step e s.is_down r (h refl)
branch_step e false true r c last s h = hover_step e s.is_down
branch_step e false false r c last s h = draw_step e s.is_down c

ended-IsRelease :
    (e : HostEvent) (held : Bool)
    → ((e.input_type == input_pen_release)
        || (e.input_type == input_pen_update && e.pressure == 0 && held))
      ≡ true
    → IsRelease e
ended-IsRelease e held h = ground arith

transition-Contacts :
    (e : HostEvent) (s : QtfbPenState)
    → Contacts s.is_down
        (emitted e (phases_of e.state (transition e.input_type e.pressure e.now s).0))
        (transition e.input_type e.pressure e.now s).1.is_down
unfolding transition
transition-Contacts e s =
    branch_step e
      (e.input_type == input_pen_release
        || (e.input_type == input_pen_update && e.pressure == 0 && s.is_down))
      (e.input_type == input_pen_update && e.pressure == 0) (e.input_type == input_pen_update)
      (silent_since s.last_pressure_event e.now) (some e.now) s (ended-IsRelease e s.is_down)

-- Whatever the host sends, in whatever state of the application each event is handled, and in whatever
-- state the pen is: outside AwaitingPenUp the phases are those of whole contacts, each begins with a
-- down, no move or up stands outside a contact, and no contact begins in another one. In AwaitingPenUp
-- a contact ends only with a release of the host or an update without pressure, and a down in a contact
-- goes on with it. The state of the pen knows whether a contact is held.
pub run_events-Contacts :
    (events : List HostEvent) (s : QtfbPenState)
    → Contacts s.is_down (run_events events s).0 (run_events events s).1.is_down
unfolding run_events
run_events-Contacts [] s = still
run_events-Contacts (e ∷ events) s =
    Contacts-append (transition-Contacts e s)
      (run_events-Contacts events (transition e.input_type e.pressure e.now s).1)

-- The sequence number of a frame is never 0 and is a u64, and it is the next one unless that is out of range.
pub next_sequence-range :
    (s : ℕ)
    → s < 2 ^ 64
    → (1 ≤ next_sequence s)
      × (next_sequence s < 2 ^ 64)
      × ((next_sequence s ≡ s + 1) ⊎ (s ≡ 2 ^ 64 - 1))
unfolding next_sequence
next_sequence-range s h = elim (Bool-cases (ltb s (2 ^ 64 - 1))) [
  | inl small ↦ (omega arith, omega arith, inl (ground arith))
  | inr large ↦ (omega arith, omega arith, inr (ground arith))
]
