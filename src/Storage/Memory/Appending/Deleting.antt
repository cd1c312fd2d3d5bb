-- ===== src/Storage/Memory/Appending/Deleting.antt =====
-- What a caller may rely on after `delete_number` of src/storage/memory.rs.
use mathlib.Core.Path.{subst}
use riddle.Prelude.{
  ℕ, ◌-◌, ◌≤◌, ◌≡◌, ◌≢◌, refl, sym, ◌∙◌, ◌⊎◌, false, ◌||◌, ◌==◌, ltb, inl, inr, some, List, Result,
  ok, err, length, get_elem?, remove_at, min, Bool-cases, arith,
}
use riddle.Storage.Index.{Store, Outcome, refuse, keep, write, StoreError, load_unlocked}
use riddle.Storage.Index.Changes.{get_elem?-lt, write_eq, remove_at-IsValid}
use riddle.Storage.Index.Transactions.{KeepsValid, Settled, transact-Settled}
use riddle.Storage.Memory.{Entry, MemoryStore, memory_format}
use riddle.Storage.Memory.Columns.{memory_codec}
use riddle.Storage.Memory.Appending.{
  MemoryEnv, MemoryError, no_such_history, perform_delete, finish_delete, delete_number,
}
use riddle.Storage.Memory.Appending.Newest.{IsMemoryList}

-- The row of this number: the newest is 1, and no row is beyond `maximum`.
pub record IsRow (entries : List Entry) (number maximum : ℕ) (entry : Entry) : Type 0 where
  pub positive : 1 ≤ number
  pub listed : number ≤ length entries
  pub visible : number ≤ maximum
  pub there : get_elem? entries (length entries - number) ≡ some entry

abbrev without : List Entry → ℕ → List Entry
without entries number = remove_at (length entries - number) entries

perform_delete-cases :
    (number maximum : ℕ) (entries : List Entry)
    → (perform_delete number maximum entries
        ≡ refuse (no_such_history number (min (length entries) maximum)))
      ⊎ (entry : Entry) × IsRow entries number maximum entry
        × (perform_delete number maximum entries ≡ write entry (without entries number))
unfolding perform_delete
perform_delete-cases number maximum entries =
    elim (Bool-cases (number == 0 || ltb (min (length entries) maximum) number)) [
      | inl out ↦ inl (rw out refl)
      | inr within ↦
          let positive : 1 ≤ number = ground arith in
          let listed : number ≤ length entries = ground arith in
          let visible : number ≤ maximum = ground arith in
          let (entry, there) =
            get_elem?-lt (length entries - number) entries (omega (arith, positive, listed)) in
          inr (
            entry,
            record { positive = positive; listed = listed; visible = visible; there = there },
            rw (within, there) refl,
          )
    ]

write_answer :
    {b c : Entry} {x y : List Entry}
    → ◌≡◌ {A = Outcome Entry MemoryError Entry} (write b x) (write c y)
    → b ≡ c
write_answer h = cc

perform_delete-write :
    (number maximum : ℕ) (entries new : List Entry) (entry : Entry)
    → perform_delete number maximum entries ≡ write entry new
    → IsRow entries number maximum entry × (new ≡ without entries number)
perform_delete-write number maximum entries new entry h =
    elim (perform_delete-cases number maximum entries) [
      | inl declined ↦ absurd (clash (sym declined ∙ h))
      | inr chosen ↦
          let same = sym chosen.2 ∙ h in
          (subst (IsRow entries number maximum) (write_answer same) chosen.1, sym (write_eq same))
    ]
  where
    clash :
        {e : MemoryError} {b : Entry} {x : List Entry}
        → ◌≢◌ {A = Outcome Entry MemoryError Entry} (refuse e) (write b x)
    clash k = cc

perform_delete-keep :
    (number maximum : ℕ) (entries : List Entry) (entry : Entry)
    → perform_delete number maximum entries ≢ keep entry
perform_delete-keep number maximum entries entry h =
    elim (perform_delete-cases number maximum entries) [
      | inl declined ↦ first (sym declined ∙ h)
      | inr chosen ↦ second (sym chosen.2 ∙ h)
    ]
  where
    first :
        {e : MemoryError} {b : Entry}
        → ◌≢◌ {A = Outcome Entry MemoryError Entry} (refuse e) (keep b)
    first k = cc

    second :
        {b c : Entry} {x : List Entry}
        → ◌≢◌ {A = Outcome Entry MemoryError Entry} (write b x) (keep c)
    second k = cc

perform_delete-IsMemoryList :
    (number maximum : ℕ) → KeepsValid memory_format memory_codec (perform_delete number maximum)
perform_delete-IsMemoryList number maximum loaded b new v h =
    subst IsMemoryList (sym (perform_delete-write number maximum loaded new b h).1)
      (remove_at-IsValid memory_format memory_codec (length loaded - number) loaded v)

-- An answer is the row that was asked for, it is gone from the disk, and memory equals the disk.
abbrev pub Removed :
    ℕ → ℕ → List Entry → Result (StoreError MemoryError) Entry → MemoryStore → List Entry → Type 0
Removed number maximum before (err e) s after = Unit
Removed number maximum before (ok entry) s after =
    IsRow before number maximum entry × (after ≡ without before number) × (s.entries ≡ after)

pub record Deleted (number maximum : ℕ) (before : List Entry)
    (r : Result (StoreError MemoryError) Entry) (s : MemoryStore) : Type 0 where
  pub after : List Entry
  pub valid : IsMemoryList after
  pub loads : load_unlocked memory_format false s.index ≡ ok after
  pub old_or_new :
      (after ≡ before)
      ⊎ (entry : Entry) × IsRow before number maximum entry × (after ≡ without before number)
  pub answered : Removed number maximum before r s after

module _ (env : MemoryEnv) (number maximum : ℕ) (before : List Entry) (s : MemoryStore) where
  answer :
      (entry : Entry) (after : List Entry)
      → (perform_delete number maximum before ≡ keep entry) × (after ≡ before)
        ⊎ (perform_delete number maximum before ≡ write entry after)
      → IsRow before number maximum entry × (after ≡ without before number)
  answer entry after (inl h) = absurd (perform_delete-keep number maximum before entry h.0)
  answer entry after (inr h) = perform_delete-write number maximum before after entry h

  ended :
      (after : List Entry)
      → (after ≡ before) ⊎ (b : Entry) × (perform_delete number maximum before ≡ write b after)
      → (after ≡ before)
        ⊎ (entry : Entry) × IsRow before number maximum entry × (after ≡ without before number)
  ended after (inl h) = inl h
  ended after (inr h) =
      let (row, gone) = perform_delete-write number maximum before after h.0 h.1 in
      inr (h.0, row, gone)

  finish_delete-Deleted :
      (x : Result (StoreError MemoryError) Entry × Store Entry)
      → Settled memory_format memory_codec env.system (perform_delete number maximum) before x.0 x.1
      → Deleted number maximum before (finish_delete env s x).0 (finish_delete env s x).1
  finish_delete-Deleted (err e, t) h = record {
    after = h.after;
    valid = h.valid;
    loads = h.loads;
    old_or_new = ended h.after h.old_or_new;
    answered = tt;
  }
  finish_delete-Deleted (ok entry, t) h =
      let (row, gone) = answer entry h.after (h.answered entry refl) in
      record {
        after = h.after;
        valid = h.valid;
        loads = h.loads;
        old_or_new = inr (entry, row, gone);
        answered = (row, gone, h.synced entry refl);
      }

-- From an index that holds a valid list, whatever the operating system refuses: the index holds a
-- valid list after `delete_number`, the old one or the one without the row of that number, and an
-- answer is that row (number 1 is the newest page, and the number is at most the number of pages and
-- of visible rows), with the row gone from the index and the same list in memory.
pub delete_number-Deleted :
    (env : MemoryEnv) (number maximum : ℕ) (before : List Entry) (s : MemoryStore)
    → IsMemoryList before
    → load_unlocked memory_format false s.index ≡ ok before
    → Deleted number maximum before
        (delete_number env number maximum s).0
        (delete_number env number maximum s).1
unfolding delete_number
delete_number-Deleted env number maximum before s v l =
    finish_delete-Deleted env number maximum before s _ (
      transact-Settled memory_format memory_codec env.system (perform_delete number maximum)
        (record { entries = s.entries; dir = s.index }) before v l
        (perform_delete-IsMemoryList number maximum))
