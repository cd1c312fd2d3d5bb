-- ===== src/Domain/Examples.antt =====
-- src/domain.rs: the policy's theorems at a session that a heartbeat opens and the pen interrupts.
use riddle.Prelude.{◌≡◌, refl, true, false, some, List, [], ◌∷◌}
use riddle.Domain.{
  AppEvent, output_started, requested_output, start_automatic_output, is_foreground,
  automatic_output_ready, user_input_started, enter_background, enter_foreground, foreground,
  reduce, run, Model, in_foreground, automatic_output,
}
use riddle.Domain.Policy.{IsCoherent, run-IsCoherent}
use riddle.Domain.Effects.{
  Page, Session, opened, decides, carry_out_all, carry_out_next, carry_out, is_report, yields,
  page_of, reduce-carry_out,
}

abbrev interrupted : List AppEvent
interrupted =
    automatic_output_ready ∷ user_input_started ∷ enter_background ∷ user_input_started
    ∷ enter_foreground ∷ []

abbrev speaking : Model
speaking = record {
  lifecycle = in_foreground;
  active_output = some automatic_output;
  user_input_active = false;
}

run-IsCoherent_example : IsCoherent (run foreground interrupted).0
run-IsCoherent_example = run-IsCoherent interrupted

-- A heartbeat's output.
abbrev spoken_page : Page
spoken_page = record { owned = true; running = some automatic_output }

spoken_session : Session speaking spoken_page
unfolding reduce is_foreground yields is_report carry_out_all carry_out_next carry_out
spoken_session = decides automatic_output_ready opened refl (λ h. refl) refl

reduce-carry_out_example :
    (spoken_page ≡ page_of speaking)
    × (carry_out_all (some spoken_page) (reduce speaking enter_background).1
        ≡ some (page_of (reduce speaking enter_background).0))
unfolding is_report
reduce-carry_out_example = reduce-carry_out spoken_session enter_background refl (λ h. cc)

-- Automatic output that becomes ready while a requested answer runs takes its place uncancelled.
displaced_runs :
    reduce (reduce foreground (output_started requested_output)).0 automatic_output_ready
    ≡ (record foreground { active_output = some automatic_output }, start_automatic_output ∷ [])
unfolding reduce is_foreground
displaced_runs = refl
