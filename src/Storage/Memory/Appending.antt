-- ===== src/Storage/Memory/Appending.antt =====
-- src/storage/memory.rs: `try_append` and `delete_number`, with the stroke files that they write and
-- remove.
pub mod Newest
pub mod Pages
pub mod Settling
pub mod Reporting
pub mod Deleting
use riddle.Prelude.{
  ℕ, ◌-◌, ◌||◌, ◌==◌, Bool, true, false, Option, none, some, List, [], ◌∷◌, ◌++◌, ltb, leb,
  if◌then◌else◌, Result, ok, err, length, get_elem?, remove_at, take, drop, min,
}
use riddle.Text.{Text}
use riddle.Text.Decimal.{checked_add}
use riddle.Storage.Persistence.{Dir, missing, WriteStage, WriteFault, atomic_write}
use riddle.Storage.Index.{
  Store, Env, StoreError, LoadError, Outcome, refuse, write, contains, lock_failed, load_failed,
  refused, save_failed, load_unlocked, render, transact,
}
use riddle.Storage.Index.Ids.{max_id}
use riddle.Storage.Memory.{Entry, MemoryStore, memory_format, max_memories, oversized, ids}
use riddle.Storage.Memory.Strokes.{Stroke, decimate, print_strokes}

-- What the operating system does: to the index, to the new stroke file, and to the removal of a
-- stroke file (`kept id`: the file of `id` stays).
pub record MemoryEnv : Type 0 where
  pub system : Env
  pub stroke_fault : Option WriteFault
  pub kept : ℕ → Bool

pub data MemoryError : Type 0 where
  field_too_long id_space_exhausted index_panic : MemoryError
  strokes_failed : WriteStage → MemoryError
  no_such_history : ℕ → ℕ → MemoryError

-- The stroke files after a change of one of them.
abbrev pub put : ℕ → Dir → (ℕ → Dir) → ℕ → Dir
put id d files i = if i == id then d else files i

-- `std::fs::remove_file(self.strokes_path(id))`
unfoldable pub remove_strokes : (ℕ → Bool) → ℕ → (ℕ → Dir) → ℕ → Dir
remove_strokes kept id files =
    if kept id then files else put id (record (files id) { index = missing }) files

-- The loop over the ids that were dropped.
unfoldable pub remove_dropped : (ℕ → Bool) → List ℕ → (ℕ → Dir) → ℕ → Dir
unfolding remove_strokes
remove_dropped kept [] files = files
remove_dropped kept (id ∷ dropped) files =
    remove_dropped kept dropped (remove_strokes kept id files)

-- The id of a new page, from the highest one in use.
abbrev pub allocate : ℕ → Option ℕ → Option ℕ
allocate requested none = some requested
allocate requested (some previous) =
    if leb requested previous then checked_add previous 1 else some requested

-- `updated.len().saturating_sub(MAX_MEMORIES)`
abbrev pub drop_count : List Entry → ℕ
drop_count updated = length updated - max_memories

-- `updated.split_off(drop_count)`
abbrev pub newest : List Entry → List Entry
newest updated = drop (drop_count updated) updated

module _ (env : MemoryEnv) where
  -- The `committed` of a failed `persist_index`, and the removal of an orphan.
  abbrev pub recovered :
      MemoryStore → List Entry → ℕ → Dir → Result LoadError (List Entry) → MemoryStore
  recovered s loaded id d (err e) = record s {
    entries = loaded;
    index = d;
    strokes = remove_strokes env.kept id s.strokes;
  }
  recovered s loaded id d (ok found) = record s {
    entries = found;
    index = d;
    strokes = if contains (ids found) id then s.strokes else remove_strokes env.kept id s.strokes;
  }

  -- The end of `try_append`, after `persist_index`.
  abbrev pub settle :
      MemoryStore
      → List Entry
      → List Entry
      → ℕ
      → Result WriteStage (Unit {0}) × Dir
      → Result (StoreError MemoryError) ℕ × MemoryStore
  settle s loaded updated id (ok _, d) = (
    ok id,
    record s {
      entries = newest updated;
      index = d;
      strokes = remove_dropped env.kept (ids (take (drop_count updated) updated)) s.strokes;
    },
  )
  settle s loaded updated id (err stage, d) = (
    err (save_failed stage),
    recovered s loaded id d (load_unlocked memory_format env.system.reread_fails d),
  )

  -- After the stroke file: `s` holds it.
  abbrev pub persist_updated :
      MemoryStore → List Entry → List Entry → ℕ → Result (StoreError MemoryError) ℕ × MemoryStore
  persist_updated s loaded updated id =
      settle s loaded updated id
        (atomic_write env.system.write_fault (render memory_format (newest updated)) s.index)

  abbrev pub save_page :
      Text
      → Text
      → MemoryStore
      → List Entry
      → ℕ
      → Result WriteStage (Unit {0}) × Dir
      → Result (StoreError MemoryError) ℕ × MemoryStore
  save_page transcript reply s loaded id (err stage, d) = (
    err (refused (strokes_failed stage)),
    record s { entries = loaded; strokes = remove_strokes env.kept id (put id d s.strokes) },
  )
  save_page transcript reply s loaded id (ok _, d) =
      persist_updated (record s { strokes = put id d s.strokes }) loaded
        (loaded ++ record { id = id; transcript = transcript; reply = reply } ∷ []) id

  module _ (requested : ℕ) (transcript reply : Text) (strokes : List Stroke) where
    abbrev pub with_id :
        MemoryStore → List Entry → Option ℕ → Result (StoreError MemoryError) ℕ × MemoryStore
    with_id s loaded none = (err (refused id_space_exhausted), record s { entries = loaded })
    with_id s loaded (some id) =
        save_page transcript reply s loaded id
          (atomic_write env.stroke_fault (print_strokes (decimate strokes)) (s.strokes id))

    abbrev pub with_loaded :
        MemoryStore
        → Result LoadError (List Entry)
        → Result (StoreError MemoryError) ℕ × MemoryStore
    with_loaded s (err e) = (err (load_failed e), s)
    with_loaded s (ok loaded) = with_id s loaded (allocate requested (max_id (ids loaded)))

    unfoldable pub try_append : MemoryStore → Result (StoreError MemoryError) ℕ × MemoryStore
    try_append s =
        if oversized transcript reply
        then (err (refused field_too_long), s)
        else if env.system.lock_fails
        then (err lock_failed, s)
        else with_loaded s (load_unlocked memory_format env.system.read_fails s.index)

abbrev at_index : List Entry → ℕ → Option Entry → Outcome Entry MemoryError Entry
at_index entries i none = refuse index_panic
at_index entries i (some entry) = write entry (remove_at i entries)

-- `delete_number` up to `persist_index`: the numbers count from the newest of at most `maximum` rows.
unfoldable pub perform_delete : ℕ → ℕ → List Entry → Outcome Entry MemoryError Entry
perform_delete number maximum entries =
    let visible = min (length entries) maximum in
    if number == 0 || ltb visible number
    then refuse (no_such_history number visible)
    else at_index entries (length entries - number) (get_elem? entries (length entries - number))

abbrev pub finish_delete :
    MemoryEnv
    → MemoryStore
    → Result (StoreError MemoryError) Entry × Store Entry
    → Result (StoreError MemoryError) Entry × MemoryStore
finish_delete env s (err e, t) = (err e, record s { entries = t.entries; index = t.dir })
finish_delete env s (ok entry, t) = (
  ok entry,
  record s {
    entries = t.entries;
    index = t.dir;
    strokes = remove_strokes env.kept entry.id s.strokes;
  },
)

unfoldable pub delete_number :
    MemoryEnv → ℕ → ℕ → MemoryStore → Result (StoreError MemoryError) Entry × MemoryStore
unfolding perform_delete
delete_number env number maximum s = finish_delete env s (
    transact memory_format env.system (perform_delete number maximum)
      (record { entries = s.entries; dir = s.index }))
