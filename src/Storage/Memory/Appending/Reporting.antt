-- ===== src/Storage/Memory/Appending/Reporting.antt =====
-- What a caller may rely on after `try_append` of src/storage/memory.rs.
use riddle.Prelude.{
  ℕ, ◌≤◌, ◌≡◌, ◌≢◌, refl, ap, ◌∙◌, ◌⊎◌, Bool, true, false, inl, inr, Option, none, some, List,
  Result, ok, err, last?, if_cases,
}
use riddle.Text.{Text}
use riddle.Text.Decimal.{u64_max}
use riddle.Storage.Persistence.{Dir, text, read_failed, WriteStage, atomic_write-cases}
use riddle.Storage.Index.{StoreError, LoadError, unreadable, refused, load_unlocked}
use riddle.Storage.Index.Ids.{Below, max_id}
use riddle.Storage.Index.Transactions.{ok_ne_err, ok_injective, load_unlocked_fault}
use riddle.Storage.Memory.{Entry, MemoryStore, memory_format, oversized, ids}
use riddle.Storage.Memory.Strokes.{Stroke, decimate, print_strokes}
use riddle.Storage.Memory.Appending.{
  MemoryEnv, MemoryError, put, allocate, save_page, with_id, with_loaded, try_append,
  strokes_failed,
}
use riddle.Storage.Memory.Appending.Newest.{IsMemoryList, allocate-Below}
use riddle.Storage.Memory.Appending.Pages.{Paged, put_same, Paged-put, Paged-remove_strokes}
use riddle.Storage.Memory.Appending.Settling.{Appended, Ending, unchanged, settled}

pub loaded_or_failed :
    (fails : Bool) (d : Dir) (before : List Entry)
    → load_unlocked memory_format false d ≡ ok before
    → (load_unlocked memory_format fails d ≡ ok before)
      ⊎ (e : LoadError) × (load_unlocked memory_format fails d ≡ err e)
loaded_or_failed true d before l = inr (unreadable read_failed, load_unlocked_fault memory_format d)
loaded_or_failed false d before l = inl l

module _ (env : MemoryEnv) (requested : ℕ) (transcript reply : Text) (strokes : List Stroke)
    (before : List Entry) (s : MemoryStore) (valid : IsMemoryList before)
    (on_disk : load_unlocked memory_format false s.index ≡ ok before)
    (closed : last? reply ≢ some b'\r') (narrow : requested ≤ u64_max) where
  -- Nothing was written.
  refusing_leaves :
      (e : StoreError MemoryError) (es : List Entry)
      → Ending env requested transcript reply strokes before s.strokes
          (err e)
          (record s { entries = es })
  refusing_leaves e es =
      unchanged env requested transcript reply strokes before s.strokes valid e _ on_disk (λ p. p)

  saved :
      (id : ℕ) (x : Result WriteStage Unit × Dir)
      → oversized transcript reply ≡ false
      → Below id (ids before) × (requested ≤ id) × (id ≤ u64_max)
      → (x.0 ≡ ok tt) × (x.1.index ≡ text (print_strokes (decimate strokes)))
        ⊎ (st : WriteStage) × (x.0 ≡ err st)
          × ((x.1.index ≡ (s.strokes id).index)
              ⊎ (x.1.index ≡ text (print_strokes (decimate strokes))))
      → Ending env requested transcript reply strokes before s.strokes
          (save_page env transcript reply s before id x).0
          (save_page env transcript reply s before id x).1
  saved id (ok u, d) a b (inr h) = absurd (ok_ne_err h.1)
  saved id (err st, d) a b h =
      unchanged env requested transcript reply strokes before s.strokes valid
        (refused (strokes_failed st)) _ on_disk
        (λ p.
          Paged-remove_strokes env.kept id (put id d s.strokes) (ids before) b.0
            (Paged-put id d s.strokes (ids before) b.0 p))
  saved id (ok u, d) a b (inl h) =
      settled env requested transcript reply strokes before s.strokes valid id
        (record s { strokes = put id d s.strokes }) a closed b.0 b.1 b.2
        (ap (λ (f : Dir). f.index) (put_same id d s.strokes) ∙ h.1)
        (Paged-put id d s.strokes (ids before) b.0) _ on_disk
        (atomic_write-cases env.system.write_fault _ s.index)

  with_id-Ending :
      (o : Option ℕ)
      → oversized transcript reply ≡ false
      → allocate requested (max_id (ids before)) ≡ o
      → Ending env requested transcript reply strokes before s.strokes
          (with_id env requested transcript reply strokes s before o).0
          (with_id env requested transcript reply strokes s before o).1
  with_id-Ending none a h = refusing_leaves _ before
  with_id-Ending (some id) a h =
      saved id _ a (allocate-Below (ids before) requested id h narrow)
        (atomic_write-cases env.stroke_fault _ (s.strokes id))

  with_loaded-Ending :
      (o : Result LoadError (List Entry))
      → oversized transcript reply ≡ false
      → (o ≡ ok before) ⊎ (e : LoadError) × (o ≡ err e)
      → Ending env requested transcript reply strokes before s.strokes
          (with_loaded env requested transcript reply strokes s o).0
          (with_loaded env requested transcript reply strokes s o).1
  with_loaded-Ending (err e) a h = refusing_leaves _ s.entries
  with_loaded-Ending (ok loaded) a (inr h) = absurd (ok_ne_err h.1)
  with_loaded-Ending (ok loaded) a (inl h) =
      rw (ok_injective h) (with_id-Ending (allocate requested (max_id (ids before))) a refl)

  try_append-Ending :
      Ending env requested transcript reply strokes before s.strokes
        (try_append env requested transcript reply strokes s).0
        (try_append env requested transcript reply strokes s).1
  unfolding try_append
  try_append-Ending =
      if_cases Ends (oversized transcript reply) (λ long. refusing_leaves _ s.entries)
        (λ short.
          if_cases Ends env.system.lock_fails (λ locked. refusing_leaves _ s.entries)
            (λ free.
              with_loaded-Ending (load_unlocked memory_format env.system.read_fails s.index) short
                (loaded_or_failed env.system.read_fails s.index before on_disk)))
    where
      Ends : Result (StoreError MemoryError) ℕ × MemoryStore → Type 0
      Ends x = Ending env requested transcript reply strokes before s.strokes x.0 x.1

-- From an index that holds a valid list, with a reply that does not end in a carriage return and an
-- id of 64 bits: whatever the operating system refuses, the index holds a valid list after
-- `try_append`, the old one or the newest 400 pages of it and the new one; and an id is only answered
-- with the page in the index, the same list in memory, the page's strokes in its file, and the id new
-- and not below the requested one.
pub try_append-Appended :
    (env : MemoryEnv) (requested : ℕ) (transcript reply : Text) (strokes : List Stroke)
    (before : List Entry) (s : MemoryStore)
    → IsMemoryList before
    → load_unlocked memory_format false s.index ≡ ok before
    → last? reply ≢ some b'\r'
    → requested ≤ u64_max
    → Appended env requested transcript reply strokes before
        (try_append env requested transcript reply strokes s).0
        (try_append env requested transcript reply strokes s).1
try_append-Appended env requested transcript reply strokes before s v l c n =
    (try_append-Ending env requested transcript reply strokes before s v l c n).appended

-- Under the same conditions, and if the index can be read again where writing it failed: when every
-- page of the index has its stroke file before `try_append`, so has every page of the index after it.
pub try_append-Paged :
    (env : MemoryEnv) (requested : ℕ) (transcript reply : Text) (strokes : List Stroke)
    (before : List Entry) (s : MemoryStore)
    → IsMemoryList before
    → load_unlocked memory_format false s.index ≡ ok before
    → last? reply ≢ some b'\r'
    → requested ≤ u64_max
    → env.system.reread_fails ≡ false
    → Paged s.strokes (ids before)
    → (after : List Entry) × (load_unlocked memory_format false
          (try_append env requested transcript reply strokes s).1.index
        ≡ ok after)
      × Paged (try_append env requested transcript reply strokes s).1.strokes (ids after)
try_append-Paged env requested transcript reply strokes before s v l c n r p =
    let e = try_append-Ending env requested transcript reply strokes before s v l c n in
    (e.appended.after, e.appended.loads, e.paged r p)
