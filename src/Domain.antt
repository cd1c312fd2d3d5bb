-- ===== src/Domain.antt =====
-- src/domain.rs: the policy that decides what may reach the page, as one function of the model and
-- an event. `reduce` returns the new model with the effects that the runtime carries out.
pub mod Policy
pub mod Effects
pub mod Examples
use riddle.Prelude.{
  ℕ, Bool, true, false, not, ◌&&◌, Option, none, some, List, [], ◌∷◌, ◌++◌, if◌then◌else◌,
}

pub data Priority : Type 0 where
  maintenance : Priority
  automatic_output : Priority
  user_input : Priority
  requested_output : Priority
  lifecycle_work : Priority

pub data Lifecycle : Type 0 where
  in_foreground : Lifecycle
  in_background : Lifecycle

pub record Model : Type 0 where
  pub lifecycle : Lifecycle
  pub active_output : Option Priority
  pub user_input_active : Bool

pub data AppEvent : Type 0 where
  enter_foreground : AppEvent
  enter_background : AppEvent
  output_started : Priority → AppEvent
  output_finished : AppEvent
  user_input_started : AppEvent
  user_input_finished : AppEvent
  automatic_output_ready : AppEvent

pub data Effect : Type 0 where
  acquire_foreground : Effect
  release_foreground : Effect
  cancel_output : Priority → Effect
  clear_transient_output : Effect
  start_automatic_output : Effect
  defer_automatic_output : Effect

-- `Model::foreground`
abbrev pub foreground : Model
foreground = record { lifecycle = in_foreground; active_output = none; user_input_active = false }

unfoldable pub is_foreground : Lifecycle → Bool
is_foreground in_foreground = true
is_foreground in_background = false

unfoldable pub is_automatic : Priority → Bool
is_automatic maintenance = false
is_automatic automatic_output = true
is_automatic user_input = false
is_automatic requested_output = false
is_automatic lifecycle_work = false

-- Two effects for the output that was on the page, none when there was none.
unfoldable pub cancelled : Option Priority → List Effect
cancelled none = []
cancelled (some priority) = cancel_output priority ∷ clear_transient_output ∷ []

-- The arm `UserInputStarted`, by the output on the page.
unfoldable pub preempt : Model → Option Priority → Model × List Effect
unfolding is_automatic
preempt model none = (record model { user_input_active = true }, [])
preempt model (some priority) =
    if not (is_automatic priority) then (record model { user_input_active = true }, []) else (
      record model { active_output = none; user_input_active = true },
      cancelled (some priority),
    )

unfoldable pub reduce : Model → AppEvent → Model × List Effect
unfolding is_foreground
reduce model enter_foreground =
    if is_foreground model.lifecycle
    then (model, [])
    else (record model { lifecycle = in_foreground }, acquire_foreground ∷ [])
reduce model enter_background = if not (is_foreground model.lifecycle) then (model, []) else (
  record { lifecycle = in_background; active_output = none; user_input_active = false },
  cancelled model.active_output ++ release_foreground ∷ [],
)
reduce model (output_started priority) =
    if is_foreground model.lifecycle && not model.user_input_active
    then (record model { active_output = some priority }, [])
    else (model, [])
reduce model output_finished = (record model { active_output = none }, [])
reduce model user_input_started = preempt model model.active_output
reduce model user_input_finished = (record model { user_input_active = false }, [])
reduce model automatic_output_ready =
    if is_foreground model.lifecycle && not model.user_input_active
    then (record model { active_output = some automatic_output }, start_automatic_output ∷ [])
    else (model, defer_automatic_output ∷ [])

-- A session: the events one after another, with all effects in order.
unfoldable pub run : Model → List AppEvent → Model × List Effect
run model [] = (model, [])
run model (event ∷ events) =
    let step = reduce model event in let rest = run step.0 events in (rest.0, step.1 ++ rest.1)
