-- ===== src/Preferences/Examples.antt =====
-- Runs of src/preferences.rs, and its theorems at a file of the old schema.
use riddle.Prelude.{◌≡◌, refl, false, Option, none, some, ok}
use riddle.Preferences.{
  standard, PreferenceValues, normalized, StoredPreferences, Folder, Json, rename, open_in, replace,
}
use riddle.Preferences.Normal.{IsNormal}
use riddle.Preferences.Reopening.{ReadsBack, Replaced, open_in-open_in, replace-Replaced}

-- A file is the preferences that it holds, if it holds any.
abbrev pub plain_json : Json (Option StoredPreferences)
plain_json = record { from_slice = λ body. body; to_vec_pretty = λ stored. some (some stored) }

plain_json-ReadsBack : ReadsBack plain_json
plain_json-ReadsBack stored body h = unsome body h
  where
    unsome : (body : Option StoredPreferences) → some (some stored) ≡ some body → body ≡ some stored
    unsome body h = cc

abbrev pub legacy_folder : Folder (Option StoredPreferences)
legacy_folder = record {
  settings = some (
      some (record {
        schema = 1;
        values = record {
          cleanup_strength = standard;
          cleanup_padding_px = 31;
          full_refresh_every_replies = 3;
          answer_dwell_percent = 146;
        };
      }));
  temporary = none;
}

abbrev migrated_values : PreferenceValues
migrated_values = record {
  cleanup_strength = standard;
  cleanup_padding_px = 32;
  full_refresh_every_replies = 0;
  answer_dwell_percent = 150;
}

open_in_runs : (open_in plain_json false none legacy_folder).0 ≡ migrated_values
unfolding open_in normalized
open_in_runs = refl

replace_runs : (replace plain_json none migrated_values legacy_folder).0 ≡ ok tt
unfolding replace
replace_runs = refl

open_in-open_in_example :
    IsNormal (open_in plain_json false (some rename) legacy_folder).0
    × ((open_in plain_json false none (open_in plain_json false (some rename) legacy_folder).1).0
        ≡ (open_in plain_json false (some rename) legacy_folder).0)
open_in-open_in_example =
    open_in-open_in plain_json plain_json-ReadsBack (some rename) none legacy_folder

replace-Replaced_example : Replaced plain_json none none migrated_values legacy_folder
replace-Replaced_example =
    replace-Replaced plain_json plain_json-ReadsBack none none migrated_values legacy_folder
