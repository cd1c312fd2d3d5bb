-- ===== src/App/Refresh/Periodic.antt =====
-- When the panel is refreshed in full, against the count that src/app/refresh_controller.rs keeps.
use riddle.Prelude.{
  ℕ, zero, suc, ◌+◌, ◌%◌, ◌<◌, ◌≡◌, ◌⊎◌, Option, List, [], ◌∷◌, ◌==◌, max, if◌then◌else◌,
}
use riddle.Preferences.{PreferenceValues, Folder, PersistFault, Json}
use riddle.Preferences.Normal.{IsNormal}
use riddle.App.Refresh.{
  RefreshIntent, mono_quality, full, RefreshController, reset_debt, next_reply_cleanup_intent,
  replace_values,
}

-- The values are in range, and the replies counted are below the interval; none are without one.
pub record IsSound (c : RefreshController) : Type 0 where
  pub normal : IsNormal c.preferences
  pub debt : c.replies_since_full < max 1 c.preferences.full_refresh_every_replies

abbrev pub interval : RefreshController → ℕ
interval c = c.preferences.full_refresh_every_replies

abbrev counted : RefreshController → ℕ → RefreshController
counted c n = record c { replies_since_full = n }

abbrev Step : RefreshController → Type 0
Step c =
    ((interval c ≡ 0) × (next_reply_cleanup_intent c ≡ (mono_quality, c)))
    ⊎ ((c.replies_since_full + 1 < interval c)
        × (next_reply_cleanup_intent c ≡ (mono_quality, counted c (c.replies_since_full + 1))))
    ⊎ ((c.replies_since_full + 1 ≡ interval c)
        × (next_reply_cleanup_intent c ≡ (full, counted c 0)))

-- What happens to the controller.
pub data Event (Bytes : Type 0) : Type 0 where
  reply_cleaned full_requested : Event Bytes
  replaced : Option (PersistFault Bytes) → PreferenceValues → Event Bytes

-- The cleanups of this many replies.
abbrev pub after_replies : ℕ → RefreshController → RefreshController
after_replies zero c = c
after_replies (suc n) c = after_replies n (next_reply_cleanup_intent c).1

-- The update at a remainder of the count by the interval.
abbrev pub intent_at : ℕ → ℕ → RefreshIntent
intent_at k r = if k == 0 then mono_quality else if r == 0 then full else mono_quality

-- The update after that many more replies, by the interval.
abbrev pub by_interval : RefreshController → ℕ → RefreshIntent
by_interval c n = intent_at (interval c) ((c.replies_since_full + n + 1) % interval c)

module _ {Bytes : Type 0} (json : Json Bytes) where
  abbrev pub apply_event :
      Event Bytes → RefreshController × Folder Bytes → RefreshController × Folder Bytes
  apply_event reply_cleaned (c, folder) = ((next_reply_cleanup_intent c).1, folder)
  apply_event full_requested (c, folder) = (reset_debt c, folder)
  apply_event (replaced fault values) (c, folder) =
      let (answer, c', folder') = replace_values json fault values c folder in (c', folder')

  abbrev pub run_events :
      List (Event Bytes) → RefreshController × Folder Bytes → RefreshController × Folder Bytes
  run_events [] s = s
  run_events (event ∷ events) s = run_events events (apply_event event s)
