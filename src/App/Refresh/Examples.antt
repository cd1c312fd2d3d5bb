-- ===== src/App/Refresh/Examples.antt =====
-- A run of src/app/refresh_controller.rs, and its theorem at an interval of three replies.
use riddle.Prelude.{◌≡◌, refl, false, Option, none, List, [], ◌∷◌}
use riddle.Preferences.{enhanced, PreferenceValues, StoredPreferences, replace, open_in, normalized}
use riddle.Preferences.Examples.{plain_json, legacy_folder}
use riddle.App.Refresh.{full, next_reply_cleanup_intent, open_controller, replace_values}
use riddle.App.Refresh.Periodic.{Event, reply_cleaned, replaced, after_replies, run_events}

abbrev every_third : PreferenceValues
every_third = record {
  cleanup_strength = enhanced;
  cleanup_padding_px = 16;
  full_refresh_every_replies = 3;
  answer_dwell_percent = 100;
}

-- The interval is set, and one reply is cleaned up.
abbrev set_interval : List (Event (Option StoredPreferences))
set_interval = replaced none every_third ∷ reply_cleaned ∷ []

third_runs :
    (next_reply_cleanup_intent (
      after_replies 1
        (run_events plain_json set_interval
          (open_controller plain_json false none legacy_folder)).0)).0
    ≡ full
unfolding next_reply_cleanup_intent open_controller replace_values replace open_in normalized
third_runs = refl
