-- ===== src/Preferences/Reopening.antt =====
-- What is found when the settings of src/preferences.rs are opened again.
use riddle.Prelude.{
  ◌≡◌, refl, sym, ◌∙◌, ap, ◌⊎◌, inl, inr, Bool, true, false, Option, none, some, ◌==◌, Bool-cases,
  Option-cases, ok, err,
}
use riddle.Preferences.{
  PreferenceValues, StoredPreferences, Folder, PersistFault, PersistError, dir_not_created,
  not_encoded, not_written, not_renamed, create_dir, rename, write, Json, normalized,
  settings_schema, persist, stored_values, read_values, open_in, replace,
}
use riddle.Preferences.Normal.{
  IsNormal, normalized-IsNormal, normalized-eq, migrate_legacy_values-IsNormal,
  default_values-IsNormal,
}

-- The JSON library reads what it has written.
abbrev pub ReadsBack : {Bytes : Type 0} → Json Bytes → Type 0
ReadsBack {Bytes} json =
    (stored : StoredPreferences) (body : Bytes)
    → json.to_vec_pretty stored ≡ some body
    → json.from_slice body ≡ some stored

module _ {Bytes : Type 0} (json : Json Bytes) where
  -- A fault leaves the settings as they were; without one they are the encoded values.
  abbrev Persisted : Option (PersistFault Bytes) → PreferenceValues → Folder Bytes → Type 0
  Persisted fault values folder =
      ((body : Bytes) × (json.to_vec_pretty (record { schema = settings_schema; values = values })
          ≡ some body)
        × ((persist json fault values folder).0 ≡ ok tt)
        × ((persist json fault values folder).1
            ≡ record { settings = some body; temporary = none }))
      ⊎ ((e : PersistError) × ((persist json fault values folder).0 ≡ err e)
          × ((persist json fault values folder).1.settings ≡ folder.settings))

  -- The result of `replace`, and what is opened afterwards.
  abbrev pub Replaced :
      Option (PersistFault Bytes)
      → Option (PersistFault Bytes)
      → PreferenceValues
      → Folder Bytes
      → Type 0
  Replaced fault later values folder =
      ((replace json fault values folder).1 ≡ normalized values)
      × ((((replace json fault values folder).0 ≡ ok tt)
            × ((open_in json false later (replace json fault values folder).2).0
                ≡ normalized values))
          ⊎ ((e : PersistError) × ((replace json fault values folder).0 ≡ err e)
              × ((open_in json false later (replace json fault values folder).2).0
                  ≡ (open_in json false later folder).0)))

  persist-cases :
      (fault : Option (PersistFault Bytes)) (values : PreferenceValues) (folder : Folder Bytes)
      → Persisted fault values folder
  unfolding persist
  persist-cases (some create_dir) values folder = inr (dir_not_created, refl, refl)
  persist-cases none values folder =
      elim (Option-cases (json.to_vec_pretty (record { schema = 2; values = values }))) [
        | inl h ↦ inr (not_encoded, rw (h, persist) refl, rw (h, persist) refl)
        | inr (body, h) ↦ inl (body, h, rw (h, persist) refl, rw (h, persist) refl)
      ]
  persist-cases (some (write left)) values folder =
      elim (Option-cases (json.to_vec_pretty (record { schema = 2; values = values }))) [
        | inl h ↦ inr (not_encoded, rw (h, persist) refl, rw (h, persist) refl)
        | inr (body, h) ↦ inr (not_written, rw (h, persist) refl, rw (h, persist) refl)
      ]
  persist-cases (some rename) values folder =
      elim (Option-cases (json.to_vec_pretty (record { schema = 2; values = values }))) [
        | inl h ↦ inr (not_encoded, rw (h, persist) refl, rw (h, persist) refl)
        | inr (body, h) ↦ inr (not_renamed, rw (h, persist) refl, rw (h, persist) refl)
      ]

  stored_values-IsNormal :
      (stored : Option StoredPreferences) → IsNormal (stored_values json stored).0
  unfolding stored_values
  stored_values-IsNormal none = default_values-IsNormal
  stored_values-IsNormal (some stored) = elim (Bool-cases (stored.schema == 2)) [
    | inl h ↦ rw h (normalized-IsNormal stored.values)
    | inr h ↦ elim (Bool-cases (stored.schema == 1)) [
      | inl k ↦ rw h (rw k (migrate_legacy_values-IsNormal stored.values))
      | inr k ↦ rw h (rw k default_values-IsNormal)
    ]
  ]

  -- What is read from the file is in range.
  read_values-IsNormal :
      (fails : Bool) (settings : Option Bytes) → IsNormal (read_values json fails settings).0
  unfolding read_values
  read_values-IsNormal true settings = default_values-IsNormal
  read_values-IsNormal false none = default_values-IsNormal
  read_values-IsNormal false (some body) = stored_values-IsNormal (json.from_slice body)

  -- Values in range are read back from their encoding.
  read_values-eq :
      ReadsBack json
      → (values : PreferenceValues) (body : Bytes) → IsNormal values
      → json.to_vec_pretty (record { schema = 2; values = values }) ≡ some body
      → (read_values json false (some body)).0 ≡ values
  unfolding read_values stored_values
  read_values-eq back values body n h = rw (back _ body h) (normalized-eq values n)

  open_in-values :
      (fails : Bool) (fault : Option (PersistFault Bytes)) (folder : Folder Bytes)
      → (open_in json fails fault folder).0 ≡ (read_values json fails folder.settings).0
  unfolding open_in
  open_in-values fails fault folder = elim (Bool-cases (read_values json fails folder.settings).1) [
    | inl h ↦ rw h refl
    | inr h ↦ rw h refl
  ]

  -- The values of settings that a successful `persist` has written, or the old settings.
  abbrev Left : PreferenceValues → Option Bytes → Option Bytes → Type 0
  Left values old settings =
      (settings ≡ old)
      ⊎ ((body : Bytes) × (json.to_vec_pretty (record { schema = 2; values = values }) ≡ some body)
          × (settings ≡ some body))

  persist-Left :
      (fault : Option (PersistFault Bytes)) (values : PreferenceValues) (folder : Folder Bytes)
      → Left values folder.settings (persist json fault values folder).1.settings
  persist-Left fault values folder = elim (persist-cases fault values folder) [
    | inl (body, h, done, files) ↦ inr (body, h, ap (λ f. f.settings) files)
    | inr (e, failed, same) ↦ inl same
  ]

  open_in-Left :
      (fault : Option (PersistFault Bytes)) (folder : Folder Bytes)
      → Left
          (read_values json false folder.settings).0
          folder.settings
          (open_in json false fault folder).1.settings
  unfolding open_in
  open_in-Left fault folder = elim (Bool-cases (read_values json false folder.settings).1) [
    | inl h ↦ rw h (persist-Left fault _ folder)
    | inr h ↦ rw h (inl refl)
  ]

  reread :
      ReadsBack json
      → (fault : Option (PersistFault Bytes)) (folder : Folder Bytes)
      → (read_values json false (open_in json false fault folder).1.settings).0
        ≡ (read_values json false folder.settings).0
  reread back fault folder = elim (open_in-Left fault folder) [
    | inl same ↦ ap (λ s. (read_values json false s).0) same
    | inr (body, h, written) ↦
        ap (λ s. (read_values json false s).0) written
        ∙ read_values-eq back _ body (read_values-IsNormal false folder.settings) h
  ]

  pub open_in-IsNormal :
      (fails : Bool) (fault : Option (PersistFault Bytes)) (folder : Folder Bytes)
      → IsNormal (open_in json fails fault folder).0
  open_in-IsNormal fails fault folder =
      rw (open_in-values fails fault folder) (read_values-IsNormal fails folder.settings)

  -- With a JSON library that reads what it has written: whether the settings were there, of an old
  -- schema or damaged, and whatever step of a migration fails, the values that opening answers are
  -- in range, and opening the settings again gives the same values, if the file can be read both
  -- times.
  pub open_in-open_in :
      ReadsBack json
      → (fault later : Option (PersistFault Bytes)) (folder : Folder Bytes)
      → IsNormal (open_in json false fault folder).0
        × ((open_in json false later (open_in json false fault folder).1).0
            ≡ (open_in json false fault folder).0)
  open_in-open_in back fault later folder = (
    open_in-IsNormal false fault folder,
    open_in-values false later _
        ∙ reread back fault folder
        ∙ sym (open_in-values false fault folder),
  )

  -- With a JSON library that reads what it has written, and settings that can be read: after a
  -- successful replace, they are opened with the new values brought in range; after a failed one,
  -- with what they were opened with before. The values in memory are the new ones in range in both
  -- cases.
  pub replace-Replaced :
      ReadsBack json
      → (fault later : Option (PersistFault Bytes)) (values : PreferenceValues)
        (folder : Folder Bytes)
      → Replaced fault later values folder
  unfolding replace
  replace-Replaced back fault later values folder = (
    refl,
    elim (persist-cases fault (normalized values) folder) [
      | inl (body, h, done, files) ↦ inl (
        done,
        open_in-values false later _
            ∙ ap (λ f. (read_values json false f.settings).0) files
            ∙ read_values-eq back _ body (normalized-IsNormal values) h,
      )
      | inr (e, failed, same) ↦ inr (
        e,
        failed,
        open_in-values false later _
            ∙ ap (λ s. (read_values json false s).0) same
            ∙ sym (open_in-values false later folder),
      )
    ],
  )
