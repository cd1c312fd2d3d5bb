-- ===== src/Storage/Tasks/Operations/Entries.antt =====
-- A task number stands for an entry (src/storage/tasks/mod.rs: `index`).
use mathlib.Core.Path.{subst}
use riddle.Prelude.{
  ℕ, ◌-◌, ◌≤◌, ◌<◌, ◌≡◌, refl, ap, ◌∙◌, Option, none, some, List, Result, ok, err, length,
  get_elem?, map, arith,
}
use riddle.Storage.Index.{Outcome, write}
use riddle.Storage.Index.Changes.{get_elem?-lt}
use riddle.Storage.Index.RoundTrip.{IsValid}
use riddle.Storage.Tasks.{Task, task_format, TaskError}
use riddle.Storage.Tasks.Columns.{task_codec}
use riddle.Storage.Tasks.Operations.{index, with_task, found_index, at_index}

abbrev pub ids : List Task → List ℕ
ids entries = map (λ (t : Task). t.id) entries

abbrev pub IsTaskList : List Task → Type 0
IsTaskList = IsValid task_format task_codec

module _ {B : Type 0} (entries : List Task) (k : ℕ → Task → Outcome Task TaskError B) (b : B)
    (new : List Task) where
  at_index-write :
      (i : ℕ) (o : Option Task)
      → at_index k i o ≡ write b new
      → (t : Task) × (o ≡ some t) × (k i t ≡ write b new)
  at_index-write i none h = cc
  at_index-write i (some t) h = (t, refl, h)

  found_index-write :
      (r : Result TaskError ℕ)
      → found_index entries k r ≡ write b new
      → (i : ℕ) × (r ≡ ok i) × (at_index k i (get_elem? entries i) ≡ write b new)
  found_index-write (err e) h = cc
  found_index-write (ok i) h = (i, refl, h)

index-ok : (entries : List Task) (number i : ℕ) → index entries number ≡ ok i → i ≡ number - 1
unfolding index
index-ok entries number i h = ground arith

-- A change that was written at a number was made at an entry.
pub with_task-write :
    {B : Type 0} (entries : List Task) (number : ℕ) (k : ℕ → Task → Outcome Task TaskError B)
    (b : B) (new : List Task)
    → with_task entries number k ≡ write b new
    → (t : Task) × (get_elem? entries (number - 1) ≡ some t) × (k (number - 1) t ≡ write b new)
unfolding with_task
with_task-write entries number k b new h =
    let (i, e, h1) = found_index-write entries k b new (index entries number) h in
    at_index-write entries k b new (number - 1) (get_elem? entries (number - 1)) (
      subst (λ j. at_index k j (get_elem? entries j) ≡ write b new) (index-ok entries number i e)
        h1)

index_within :
    (entries : List Task) (number : ℕ)
    → 0 < number
    → number ≤ length entries
    → index entries number ≡ ok (number - 1)
unfolding index
index_within entries number lo hi = ground arith

-- A number from one to the length of the list stands for an entry, and the operation runs on that
-- entry: the index never panics.
pub with_task-found :
    {B : Type 0} (entries : List Task) (number : ℕ) (k : ℕ → Task → Outcome Task TaskError B)
    → 0 < number
    → number ≤ length entries
    → (t : Task) × (get_elem? entries (number - 1) ≡ some t)
      × (with_task entries number k ≡ k (number - 1) t)
unfolding with_task
with_task-found entries number k lo hi =
    let (t, e) = get_elem?-lt (number - 1) entries (omega arith) in
    (
      t,
      e,
      ap (found_index entries k) (index_within entries number lo hi)
          ∙ ap (at_index k (number - 1)) e,
    )
