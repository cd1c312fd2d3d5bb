-- ===== src/Storage/Tasks/Operations/Validity.antt =====
-- Every change that an operation writes is a list that the index file accepts (src/storage/tasks/mod.rs).
use mathlib.Core.Path.{subst}
use riddle.Prelude.{
  ℕ, ◌-◌, ◌≤◌, ◌<◌, ◌≡◌, refl, Bool, true, false, not, Option, none, some, List, leb, length, arith,
  Bool-cases, inl, inr,
}
use riddle.Text.{Text}
use riddle.Text.Decimal.{u64_max, saturating_add}
use riddle.Storage.Index.{write}
use riddle.Storage.Tasks.{
  Task, task_format, TaskCommand, TaskChange, add, delete, pause, resume, modify, max_tasks,
}
use riddle.Storage.Tasks.Columns.{IsTask, task_codec}
use riddle.Storage.Tasks.Command.Grammar.{IsCommand, IsSchedule}
use riddle.Storage.Tasks.Operations.{add_with, perform, perform_delete, toggled, perform_toggle}
use riddle.Storage.Tasks.Operations.Entries.{ids, IsTaskList, with_task-write}
use riddle.Storage.Index.Ids.{next_id, next_id_fresh, contains-Below}
use riddle.Storage.Index.Changes.{
  write_eq, if_refuse-write, remove_at-IsValid, set-IsValid, append-IsValid, entry-IsEntry,
}

saturating_add-le : (a b : ℕ) → saturating_add a b ≤ u64_max
saturating_add-le a b = ground arith

scheduled-IsTask :
    (id interval_secs now : ℕ) (instruction : Text) (paused : Bool)
    → id ≤ u64_max
    → IsSchedule interval_secs instruction
    → IsTask (record {
      id = id;
      interval_secs = interval_secs;
      next_due = saturating_add now interval_secs;
      instruction = instruction;
      paused = paused;
    })
scheduled-IsTask id interval_secs now instruction paused fits s = record {
  id_fits = fits;
  interval_fits = s.interval_fits;
  interval_long = s.interval_long;
  due_fits = saturating_add-le now interval_secs;
  visible = s.visible;
  short = s.short;
  closed = s.closed;
}

restarted-IsTask :
    (t : Task) (now : ℕ)
    → IsTask t
    → IsTask (record t { paused = false; next_due = saturating_add now t.interval_secs })
restarted-IsTask t now h = record {
  id_fits = h.id_fits;
  interval_fits = h.interval_fits;
  interval_long = h.interval_long;
  due_fits = saturating_add-le now t.interval_secs;
  visible = h.visible;
  short = h.short;
  closed = h.closed;
}

paused-IsTask : (t : Task) (b : Bool) → IsTask t → IsTask (record t { paused = b })
paused-IsTask t b h = record {
  id_fits = h.id_fits;
  interval_fits = h.interval_fits;
  interval_long = h.interval_long;
  due_fits = h.due_fits;
  visible = h.visible;
  short = h.short;
  closed = h.closed;
}

add_with-IsTaskList :
    (entries : List Task) (now interval_secs : ℕ) (instruction : Text) (o : Option ℕ)
    (b : TaskChange) (new : List Task)
    → next_id (ids entries) now ≡ o
    → add_with entries now interval_secs instruction o ≡ write b new
    → now ≤ u64_max
    → IsSchedule interval_secs instruction
    → length entries < max_tasks
    → IsTaskList entries
    → IsTaskList new
add_with-IsTaskList entries now interval_secs instruction none b new e h fits s room v = cc
add_with-IsTaskList entries now interval_secs instruction (some i) b new e h fits s room v =
    let (below, _, id_fits) = next_id_fresh (ids entries) now i e fits in
    subst IsTaskList (write_eq h) (
      append-IsValid task_format task_codec entries _ (contains-Below i (ids entries) below)
        (scheduled-IsTask i interval_secs now instruction false id_fits s) room v)

-- From a valid list, every command that the parser yields writes a valid list.
pub perform-IsTaskList :
    (c : TaskCommand) (now : ℕ) (entries : List Task) (b : TaskChange) (new : List Task)
    → IsCommand c
    → now ≤ u64_max
    → IsTaskList entries
    → perform c now entries ≡ write b new
    → IsTaskList new
unfolding perform
perform-IsTaskList (add interval_secs instruction) now entries b new p fits v h =
    let (room, w) = if_refuse-write (leb max_tasks (length entries)) _ _ b new h in
    add_with-IsTaskList entries now interval_secs instruction (next_id (ids entries) now) b new refl
      w fits p (ground arith) v
perform-IsTaskList (delete n) now entries b new p fits v h =
    let (t, e, w) = with_task-write entries n _ b new h in
    subst IsTaskList (write_eq w) (remove_at-IsValid task_format task_codec (n - 1) entries v)
perform-IsTaskList (pause n) now entries b new p fits v h =
    let (t, e, w) = with_task-write entries n _ b new h in
    let (_, w') = if_refuse-write t.paused _ _ b new w in
    subst IsTaskList (write_eq w') (
      set-IsValid task_format task_codec (n - 1) entries t _ e refl
        (paused-IsTask t true (entry-IsEntry task_format task_codec (n - 1) entries t v e)) v)
perform-IsTaskList (resume n) now entries b new p fits v h =
    let (t, e, w) = with_task-write entries n _ b new h in
    let (_, w') = if_refuse-write (not t.paused) _ _ b new w in
    subst IsTaskList (write_eq w') (
      set-IsValid task_format task_codec (n - 1) entries t _ e refl
        (restarted-IsTask t now (entry-IsEntry task_format task_codec (n - 1) entries t v e)) v)
perform-IsTaskList (modify n interval_secs instruction) now entries b new p fits v h =
    let (t, e, w) = with_task-write entries n _ b new h in
    subst IsTaskList (write_eq w) (
      set-IsValid task_format task_codec (n - 1) entries t _ e refl
        (scheduled-IsTask t.id interval_secs now instruction t.paused
          (entry-IsEntry task_format task_codec (n - 1) entries t v e).id_fits p.1)
        v)

pub perform_delete-IsTaskList :
    (n : ℕ) (entries : List Task) (b : Task) (new : List Task)
    → IsTaskList entries
    → perform_delete n entries ≡ write b new
    → IsTaskList new
unfolding perform_delete
perform_delete-IsTaskList n entries b new v h =
    let (t, e, w) = with_task-write entries n _ b new h in
    subst IsTaskList (write_eq w) (remove_at-IsValid task_format task_codec (n - 1) entries v)

toggled-IsTask : (now : ℕ) (t : Task) → IsTask t → IsTask (toggled now t)
toggled-IsTask now t h = elim (Bool-cases t.paused) [
  | inl off ↦ rw off (restarted-IsTask t now h)
  | inr active ↦ rw active (paused-IsTask t true h)
]

toggled-id : (now : ℕ) (t : Task) → (toggled now t).id ≡ t.id
toggled-id now t = ground arith

pub perform_toggle-IsTaskList :
    (n now : ℕ) (entries : List Task) (b : Task) (new : List Task)
    → IsTaskList entries
    → perform_toggle n now entries ≡ write b new
    → IsTaskList new
unfolding perform_toggle
perform_toggle-IsTaskList n now entries b new v h =
    let (t, e, w) = with_task-write entries n _ b new h in
    subst IsTaskList (write_eq w) (
      set-IsValid task_format task_codec (n - 1) entries t _ e (toggled-id now t)
        (toggled-IsTask now t (entry-IsEntry task_format task_codec (n - 1) entries t v e)) v)
