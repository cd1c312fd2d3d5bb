-- ===== src/Storage/Tasks/Operations.antt =====
-- src/storage/tasks/mod.rs: the operations of `TaskStore`. Each decides on the entries that the
-- transaction has loaded, and `now` is the caller's clock in seconds.
pub mod Entries
pub mod Validity
pub mod Changes
pub mod Completion
pub mod Batches
pub mod Due
pub mod Numbered
pub mod Deleting
use riddle.Prelude.{
  ℕ, ◌+◌, ◌-◌, ◌≡◌, refl, Bool, true, false, not, ◌&&◌, ◌||◌, Option, none, some, List, [], ◌∷◌,
  ◌++◌, ltb, leb, ◌==◌, if◌then◌else◌, Result, ok, err, length, get_elem?, set, remove_at, any, map,
  max, min,
}
use riddle.Text.{Text, lit, text_eq}
use riddle.Text.Decimal.{saturating_add, checked_add}
use riddle.Storage.Index.Ids.{next_id}
use riddle.Storage.Index.{Store, Env, StoreError, Outcome, refuse, keep, write, transact}
use riddle.Storage.Tasks.{
  Task, TaskStore, TaskChange, added, deleted, paused_task, resumed, modified, TaskCommand, add,
  delete, pause, resume, modify, TaskError, too_many_tasks, id_space_exhausted, index_panic,
  no_such_task, already_paused, already_active, max_tasks, task_format,
}
use riddle.Storage.Tasks.Command.{ParseError, parse_command}

-- `TaskStore::index`
unfoldable pub index : List Task → ℕ → Result TaskError ℕ
index entries number =
    if number == 0 || ltb (length entries) number
    then err (no_such_task number (length entries))
    else ok (number - 1)

abbrev at_index :
    {B : Type 0}
    → (ℕ → Task → Outcome Task TaskError B)
    → ℕ
    → Option Task
    → Outcome Task TaskError B
at_index k i none = refuse index_panic
at_index k i (some task) = k i task

abbrev found_index :
    {B : Type 0}
    → List Task
    → (ℕ → Task → Outcome Task TaskError B)
    → Result TaskError ℕ
    → Outcome Task TaskError B
found_index entries k (err e) = refuse e
found_index entries k (ok i) = at_index k i (get_elem? entries i)

-- `let index = self.index(number)?;` and the entry there.
unfoldable pub with_task :
    {B : Type 0} → List Task → ℕ → (ℕ → Task → Outcome Task TaskError B) → Outcome Task TaskError B
unfolding index
with_task entries number k = found_index entries k (index entries number)

abbrev pub add_with : List Task → ℕ → ℕ → Text → Option ℕ → Outcome Task TaskError TaskChange
add_with entries now interval_secs instruction none = refuse id_space_exhausted
add_with entries now interval_secs instruction (some id) =
    let task : Task = record {
      id = id;
      interval_secs = interval_secs;
      next_due = saturating_add now interval_secs;
      instruction = instruction;
      paused = false;
    } in
    write (added task) (entries ++ task ∷ [])

-- The match of `apply_from_transcript`, up to `persist`.
unfoldable pub perform : TaskCommand → ℕ → List Task → Outcome Task TaskError TaskChange
perform (add interval_secs instruction) now entries =
    if leb max_tasks (length entries)
    then refuse too_many_tasks
    else add_with entries now interval_secs instruction
        (next_id (map (λ (t : Task). t.id) entries) now)
perform (delete number) now entries =
    with_task entries number (λ i task. write (deleted number task) (remove_at i entries))
perform (pause number) now entries = with_task entries number λ i task.
    let task' = record task { paused = true } in
    if task.paused
    then refuse (already_paused number)
    else write (paused_task number task') (set entries i task')
perform (resume number) now entries = with_task entries number λ i task.
    let task' = record task { paused = false; next_due = saturating_add now task.interval_secs } in
    if not task.paused
    then refuse (already_active number)
    else write (resumed number task') (set entries i task')
perform (modify number interval_secs instruction) now entries = with_task entries number λ i task.
    let task' = record task {
      interval_secs = interval_secs;
      instruction = instruction;
      next_due = saturating_add now interval_secs;
    } in
    write (modified number task task') (set entries i task')

-- The match of `delete_number`.
unfoldable pub perform_delete : ℕ → List Task → Outcome Task TaskError Task
perform_delete number entries =
    with_task entries number (λ i task. write task (remove_at i entries))

-- Enabling starts a fresh full interval.
abbrev pub toggled : ℕ → Task → Task
toggled now task =
    if task.paused
    then record task { paused = false; next_due = saturating_add now task.interval_secs }
    else record task { paused = true }

-- The body of `toggle_number`.
unfoldable pub perform_toggle : ℕ → ℕ → List Task → Outcome Task TaskError Task
perform_toggle number now entries =
    with_task entries number (λ i task. write (toggled now task) (set entries i (toggled now task)))

-- `apply_from_transcript`: other writing returns `none`, and a command that does not parse an error.
pub data ApplyError : Type 0 where
  parse_failed : ParseError → ApplyError
  store_failed : StoreError TaskError → ApplyError

abbrev pub changed :
    Result (StoreError TaskError) TaskChange × TaskStore
    → Result ApplyError (Option TaskChange) × TaskStore
changed (ok change, s) = (ok (some change), s)
changed (err e, s) = (err (store_failed e), s)

abbrev pub apply_parsed :
    Env
    → ℕ
    → TaskStore
    → Result ParseError (Option TaskCommand)
    → Result ApplyError (Option TaskChange) × TaskStore
apply_parsed env now s (err e) = (err (parse_failed e), s)
apply_parsed env now s (ok none) = (ok none, s)
apply_parsed env now s (ok (some command)) =
    changed (transact task_format env (perform command now) s)

unfoldable pub apply_from_transcript :
    Env → Text → ℕ → TaskStore → Result ApplyError (Option TaskChange) × TaskStore
apply_from_transcript env text now s = apply_parsed env now s (parse_command text)

unfoldable pub delete_number : Env → ℕ → TaskStore → Result (StoreError TaskError) Task × TaskStore
delete_number env number s = transact task_format env (perform_delete number) s

unfoldable pub toggle_number :
    Env → ℕ → ℕ → TaskStore → Result (StoreError TaskError) Task × TaskStore
toggle_number env number now s = transact task_format env (perform_toggle number now) s

-- `due`: the active tasks whose time has come.
abbrev pub is_due : ℕ → Task → Bool
is_due now t = not t.paused && leb t.next_due now

unfoldable pub due : ℕ → List Task → List Task
due now [] = []
due now (t ∷ ts) = let rest = due now ts in if is_due now t then t ∷ rest else rest

abbrev min_option : ℕ → Option ℕ → ℕ
min_option i none = i
min_option i (some j) = min i j

-- `next_due`: the earliest time among the active tasks.
unfoldable pub next_due : List Task → Option ℕ
next_due [] = none
next_due (t ∷ ts) =
    let rest = next_due ts in if not t.paused then some (min_option t.next_due rest) else rest

-- `#[derive(PartialEq)]` of `Task`.
unfoldable pub task_eq : Task → Task → Bool
task_eq a b =
    a.id == b.id
    && a.interval_secs == b.interval_secs
    && a.next_due == b.next_due
    && text_eq a.instruction b.instruction
    && (if a.paused then b.paused else not b.paused)

-- `self.entries.iter().find(|task| task.id == snapshot.id)`
unfoldable pub find_task : ℕ → List Task → Option Task
find_task i [] = none
find_task i (t ∷ ts) = if t.id == i then some t else find_task i ts

abbrev pub stale_against : Task → Option Task → Bool
stale_against snapshot none = true
stale_against snapshot (some current) = not (task_eq current snapshot) || current.paused

-- The snapshot is no longer the task that it was taken of.
unfoldable pub is_stale : List Task → Task → Bool
is_stale entries snapshot = stale_against snapshot (find_task snapshot.id entries)

-- `if let Some(task) = self.entries.iter_mut().find(…) { task.next_due = … }`
unfoldable pub advance : ℕ → ℕ → List Task → List Task
advance now i [] = []
advance now i (t ∷ ts) =
    if t.id == i
    then record t { next_due = saturating_add now t.interval_secs } ∷ ts
    else t ∷ advance now i ts

unfoldable pub advance_all : ℕ → List Task → List Task → List Task
advance_all now [] entries = entries
advance_all now (snapshot ∷ rest) entries = advance_all now rest (advance now snapshot.id entries)

unfoldable pub perform_complete : List Task → ℕ → List Task → Outcome Task TaskError Bool
perform_complete expected now entries =
    if any (is_stale entries) expected
    then keep false
    else write true (advance_all now expected entries)

unfoldable pub complete_due_if_unchanged :
    Env → List Task → ℕ → TaskStore → Result (StoreError TaskError) Bool × TaskStore
complete_due_if_unchanged env [] now s = (ok false, s)
complete_due_if_unchanged env (t ∷ expected) now s =
    transact task_format env (perform_complete (t ∷ expected) now) s
