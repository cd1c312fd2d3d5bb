-- ===== src/Preferences.antt =====
-- src/preferences.rs: the user's settings, how they are kept in range, and the file that they are
-- written to. The JSON library is two functions: `from_slice`, and `to_vec_pretty`, which may fail.
pub mod Normal
pub mod Reopening
pub mod Examples
use riddle.Prelude.{
  ℕ, ◌+◌, ◌*◌, ◌/◌, ◌%◌, ◌^◌, Bool, true, false, Option, none, some, ◌==◌, min, max, if◌then◌else◌,
  Result, ok, err,
}

pub data CleanupStrength : Type 0 where
  standard enhanced : CleanupStrength

-- `u8`, `u8` and `u16`.
pub record PreferenceValues : Type 0 where
  pub cleanup_strength : CleanupStrength
  pub cleanup_padding_px : ℕ
  pub full_refresh_every_replies : ℕ
  pub answer_dwell_percent : ℕ

abbrev pub default_values : PreferenceValues
default_values = record {
  cleanup_strength = enhanced;
  cleanup_padding_px = 16;
  full_refresh_every_replies = 0;
  answer_dwell_percent = 100;
}

abbrev pub settings_schema : ℕ
settings_schema = 2

abbrev pub legacy_settings_schema : ℕ
legacy_settings_schema = 1

-- `Ord::clamp`, with the bounds first.
abbrev pub clamp : ℕ → ℕ → ℕ → ℕ
clamp low high value = min (max value low) high

abbrev pub quantize_u8 : ℕ → ℕ → ℕ
quantize_u8 value step = (value + step / 2) % 2 ^ 16 / step * step % 2 ^ 16 % 2 ^ 8

abbrev pub quantize_u16 : ℕ → ℕ → ℕ
quantize_u16 value step = (value + step / 2) % 2 ^ 16 / step * step % 2 ^ 16

unfoldable pub normalized : PreferenceValues → PreferenceValues
normalized values = record {
  cleanup_strength = values.cleanup_strength;
  cleanup_padding_px = quantize_u8 (clamp 0 32 values.cleanup_padding_px) 4;
  full_refresh_every_replies = clamp 0 10 values.full_refresh_every_replies;
  answer_dwell_percent = quantize_u16 (clamp 50 200 values.answer_dwell_percent) 10;
}

unfoldable pub migrate_legacy_values : PreferenceValues → PreferenceValues
unfolding normalized
migrate_legacy_values values = normalized (
    if values.full_refresh_every_replies == 3
    then record values { full_refresh_every_replies = 0 }
    else values)

pub record StoredPreferences : Type 0 where
  pub schema : ℕ
  pub values : PreferenceValues

-- The preferences directory: `settings.json` and `settings.json.new`, where they exist.
pub record Folder (Bytes : Type 0) : Type 0 where
  pub settings : Option Bytes
  pub temporary : Option Bytes

-- The step that the operating system refuses. A failed write leaves some temporary file or none.
pub data PersistFault (Bytes : Type 0) : Type 0 where
  create_dir rename : PersistFault Bytes
  write : Option Bytes → PersistFault Bytes

pub data PersistError : Type 0 where
  dir_not_created not_encoded not_written not_renamed : PersistError

-- `serde_json::from_slice` and `serde_json::to_vec_pretty`.
pub record Json (Bytes : Type 0) : Type 0 where
  pub from_slice : Bytes → Option StoredPreferences
  pub to_vec_pretty : StoredPreferences → Option Bytes

module _ {Bytes : Type 0} (json : Json Bytes) where
  publish :
      Option (PersistFault Bytes)
      → Bytes
      → Folder Bytes
      → Result PersistError (Unit {0}) × Folder Bytes
  publish (some create_dir) body folder = (err dir_not_created, folder)
  publish (some (write left)) body folder = (err not_written, record folder { temporary = left })
  publish (some rename) body folder = (err not_renamed, record folder { temporary = some body })
  publish none body folder = (ok tt, record { settings = some body; temporary = none })

  -- The directory is made before the values are encoded; neither changes the files.
  unfoldable pub persist :
      Option (PersistFault Bytes)
      → PreferenceValues
      → Folder Bytes
      → Result PersistError (Unit {0}) × Folder Bytes
  unfolding publish
  persist (some create_dir) values folder = (err dir_not_created, folder)
  persist fault values folder =
      elim (json.to_vec_pretty (record { schema = settings_schema; values = values })) [
        | none ↦ (err not_encoded, folder)
        | some body ↦ publish fault body folder
      ]

  -- The values, and whether they come from the old schema.
  unfoldable pub stored_values : Option StoredPreferences → PreferenceValues × Bool
  unfolding normalized migrate_legacy_values
  stored_values none = (default_values, false)
  stored_values (some stored) =
      if stored.schema == settings_schema
      then (normalized stored.values, false)
      else if stored.schema == legacy_settings_schema
      then (migrate_legacy_values stored.values, true)
      else (default_values, false)

  unfoldable pub read_values : Bool → Option Bytes → PreferenceValues × Bool
  unfolding stored_values
  read_values true settings = (default_values, false)
  read_values false none = (default_values, false)
  read_values false (some body) = stored_values (json.from_slice body)

  -- A failure to persist migrated values is only logged.
  unfoldable pub open_in :
      Bool → Option (PersistFault Bytes) → Folder Bytes → PreferenceValues × Folder Bytes
  unfolding read_values persist
  open_in read_fails fault folder =
      let (values, migrated) = read_values read_fails folder.settings in
      if migrated then (values, (persist fault values folder).1) else (values, folder)

  -- The answer, the values in memory and the files.
  unfoldable pub replace :
      Option (PersistFault Bytes)
      → PreferenceValues
      → Folder Bytes
      → Result PersistError (Unit {0}) × PreferenceValues × Folder Bytes
  unfolding normalized persist
  replace fault values folder =
      let (answer, folder') = persist fault (normalized values) folder in
      (answer, normalized values, folder')
