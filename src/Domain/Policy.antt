-- ===== src/Domain/Policy.antt =====
-- src/domain.rs: what holds of `reduce` over every sequence of events.
use riddle.Prelude.{◌≡◌, ◌≢◌, refl, true, Option, none, some, List, [], ◌∷◌, arith}
use riddle.Domain.{
  Priority, automatic_output, in_background, Model, AppEvent, enter_foreground, enter_background,
  output_started, output_finished, user_input_started, user_input_finished, automatic_output_ready,
  foreground, is_foreground, is_automatic, preempt, reduce, run,
}

-- In the background nothing runs, and automatic output never runs under the user's pen.
pub record IsCoherent (model : Model) : Type 0 where
  pub background_idle : model.lifecycle ≡ in_background → model.active_output ≡ none
  pub input_first : model.user_input_active ≡ true → model.active_output ≢ some automatic_output

foreground-IsCoherent : IsCoherent foreground
foreground-IsCoherent = record { background_idle = λ h. refl; input_first = λ h. cc }

preempt-IsCoherent :
    (model : Model) (o : Option Priority)
    → model.active_output ≡ o
    → IsCoherent model
    → IsCoherent (preempt model o).0
unfolding preempt is_automatic
preempt-IsCoherent model none e c = record {
  background_idle = λ h. c.background_idle h;
  input_first = λ h k. grind arith;
}
preempt-IsCoherent model (some p) e c = record {
  background_idle = λ h. grind arith;
  input_first = λ h k. grind arith;
}

reduce-IsCoherent :
    (model : Model) (event : AppEvent) → IsCoherent model → IsCoherent (reduce model event).0
unfolding reduce is_foreground
reduce-IsCoherent model enter_foreground c = record {
  background_idle = λ h. grind arith;
  input_first = λ h k. grind arith;
}
reduce-IsCoherent model enter_background c = record {
  background_idle = λ h. grind arith;
  input_first = λ h k. grind arith;
}
reduce-IsCoherent model (output_started p) c = record {
  background_idle = λ h. grind arith;
  input_first = λ h k. grind arith;
}
reduce-IsCoherent model output_finished c = record {
  background_idle = λ h. grind arith;
  input_first = λ h k. grind arith;
}
reduce-IsCoherent model user_input_started c = preempt-IsCoherent model _ refl c
reduce-IsCoherent model user_input_finished c = record {
  background_idle = λ h. grind arith;
  input_first = λ h k. grind arith;
}
reduce-IsCoherent model automatic_output_ready c = record {
  background_idle = λ h. grind arith;
  input_first = λ h k. grind arith;
}

run-keeps :
    (model : Model) (events : List AppEvent) → IsCoherent model → IsCoherent (run model events).0
unfolding run
run-keeps model [] c = c
run-keeps model (event ∷ events) c =
    run-keeps (reduce model event).0 events (reduce-IsCoherent model event c)

-- From the model of a foreground start, after any sequence of events: a model in the background
-- has no output on the page, and while the user writes no automatic output is on it.
pub run-IsCoherent : (events : List AppEvent) → IsCoherent (run foreground events).0
run-IsCoherent events = run-keeps foreground events foreground-IsCoherent
