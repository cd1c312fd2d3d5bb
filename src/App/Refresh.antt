-- ===== src/App/Refresh.antt =====
-- src/app/refresh_controller.rs: which update of the panel follows a reply that has dissolved, and
-- the count of replies since the last full one. The display itself is left out.
pub mod Periodic
pub mod Examples
use riddle.Prelude.{
  ℕ, ◌+◌, ◌≡◌, Bool, true, false, not, Option, List, [], ◌∷◌, leb, ◌==◌, min, if◌then◌else◌, Result,
}
use riddle.Preferences.{
  CleanupStrength, standard, enhanced, PreferenceValues, Folder, PersistFault, PersistError, Json,
  open_in, replace,
}

pub data RefreshIntent : Type 0 where
  ink mono_quality clean_partial ui content full : RefreshIntent

-- The preferences are their values, the file is beside them. `replies_since_full` is a `u8`.
pub record RefreshController : Type 0 where
  pub preferences : PreferenceValues
  pub replies_since_full : ℕ

-- `request_full`, less the call to the display.
abbrev pub reset_debt : RefreshController → RefreshController
reset_debt c = record c { replies_since_full = 0 }

abbrev pub cleanup_intent : RefreshController → RefreshIntent
cleanup_intent c = elim c.preferences.cleanup_strength [
  | standard ↦ mono_quality
  | enhanced ↦ clean_partial
]

-- `saturating_add` on a `u8`.
abbrev one_more : RefreshController → RefreshController
one_more c = record c { replies_since_full = min (c.replies_since_full + 1) 255 }

unfoldable pub reply_cleanup_is_full : RefreshController → Bool × RefreshController
reply_cleanup_is_full c =
    if c.preferences.full_refresh_every_replies == 0
    then (false, c)
    else (leb c.preferences.full_refresh_every_replies (one_more c).replies_since_full, one_more c)

unfoldable pub next_reply_cleanup_intent : RefreshController → RefreshIntent × RefreshController
unfolding reply_cleanup_is_full
next_reply_cleanup_intent c =
    let (is_full, c') = reply_cleanup_is_full c in
    if is_full then (full, reset_debt c') else (mono_quality, c')

module _ {Bytes : Type 0} (json : Json Bytes) where
  unfoldable pub open_controller :
      Bool → Option (PersistFault Bytes) → Folder Bytes → RefreshController × Folder Bytes
  open_controller read_fails fault folder =
      let (values, folder') = open_in json read_fails fault folder in
      (record { preferences = values; replies_since_full = 0 }, folder')

  -- The comparison is with the new values as they are given. The count starts again also where they
  -- cannot be written.
  unfoldable pub replace_values :
      Option (PersistFault Bytes)
      → PreferenceValues
      → RefreshController
      → Folder Bytes
      → Result PersistError (Unit {0}) × RefreshController × Folder Bytes
  replace_values fault values c folder =
      let interval_changed =
        not (c.preferences.full_refresh_every_replies == values.full_refresh_every_replies) in
      let (answer, values', folder') = replace json fault values folder in
      let c' = record c { preferences = values' } in
      (answer, if interval_changed then reset_debt c' else c', folder')
