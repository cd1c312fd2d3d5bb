-- ===== src/Storage/Tasks/Operations/Deleting.antt =====
-- What a caller may rely on after `delete_number` of src/storage/tasks/mod.rs.
use mathlib.Core.Path.{subst}
use riddle.Prelude.{
  ℕ, zero, suc, ◌+◌, ◌-◌, ◌≡◌, ◌≢◌, refl, sym, ap, ◌∙◌, ◌⊎◌, inl, inr, false, ◌||◌, ◌==◌, ltb, some,
  List, [], ◌∷◌, ◌++◌, Result, ok, err, get_elem?, remove_at, length, Bool-cases, arith,
}
use riddle.Storage.Persistence.{WriteStage}
use riddle.Storage.Index.{Env, Outcome, refuse, keep, write, StoreError, save_failed, load_unlocked}
use riddle.Storage.Index.Changes.{get_elem?-lt, write_eq, some_eq}
use riddle.Storage.Index.Transactions.{Settled, transact-Settled}
use riddle.Storage.Tasks.{Task, TaskStore, TaskError, no_such_task, task_format}
use riddle.Storage.Tasks.Columns.{task_codec}
use riddle.Storage.Tasks.Operations.{index, with_task, perform_delete, delete_number}
use riddle.Storage.Tasks.Operations.Entries.{IsTaskList}
use riddle.Storage.Tasks.Operations.Validity.{perform_delete-IsTaskList}

-- The list `before` with its entry of this number taken out, where the first entry has number 1.
abbrev pub Without : ℕ → List Task → Task → List Task → Type 0
Without number before task after =
    (front : List Task) × (back : List Task) × (before ≡ front ++ task ∷ back)
    × (length front + 1 ≡ number)
    × (after ≡ front ++ back)

remove_at-Without :
    (i : ℕ) (entries : List Task) (task : Task)
    → get_elem? entries i ≡ some task
    → Without (i + 1) entries task (remove_at i entries)
remove_at-Without i [] task h = cc
remove_at-Without zero (t ∷ entries) task h =
    ([], entries, ap (λ x. x ∷ entries) (some_eq h), refl, refl)
remove_at-Without (suc i) (t ∷ entries) task h =
    let (front, back, shape, place, rest) = remove_at-Without i entries task h in
    (t ∷ front, back, ap (◌∷◌ t) shape, omega arith, ap (◌∷◌ t) rest)

perform_delete-cases :
    (number : ℕ) (entries : List Task)
    → ((e : TaskError) × (perform_delete number entries ≡ refuse e))
      ⊎ (task : Task) × (new : List Task) × Without number entries task new
        × (perform_delete number entries ≡ write task new)
unfolding perform_delete with_task index
perform_delete-cases number entries =
    elim (Bool-cases (number == 0 || ltb (length entries) number)) [
      | inl out ↦ inl (no_such_task number (length entries), rw out refl)
      | inr within ↦
          let (task, there) = get_elem?-lt (number - 1) entries (ground arith) in
          let counted : number - 1 + 1 ≡ number = ground arith in
          inr (
            task,
            remove_at (number - 1) entries,
            subst (λ n. Without n entries task (remove_at (number - 1) entries)) counted
                (remove_at-Without (number - 1) entries task there),
            rw (within, there) refl,
          )
    ]

-- A deletion is only reported with the entry of that number taken out of the index, and memory equal
-- to the index.
abbrev pub Reported :
    ℕ → List Task → Result (StoreError TaskError) Task → TaskStore → List Task → Type 0
Reported number before (err e) s after = Unit
Reported number before (ok task) s after = Without number before task after × (s.entries ≡ after)

pub record TaskDeleted (env : Env) (number : ℕ) (before : List Task)
    (r : Result (StoreError TaskError) Task) (s : TaskStore) : Type 0 where
  pub after : List Task
  pub valid : IsTaskList after
  pub loads : load_unlocked task_format false s.dir ≡ ok after
  pub old_or_new : (after ≡ before) ⊎ (task : Task) × Without number before task after
  pub reported : Reported number before r s after
  pub recovered :
      (stage : WriteStage)
      → r ≡ err (save_failed stage)
      → env.reread_fails ≡ false
      → s.entries ≡ after

delete_number-Settled :
    (env : Env) (number : ℕ) (s : TaskStore) (before : List Task)
    → IsTaskList before
    → load_unlocked task_format false s.dir ≡ ok before
    → Settled task_format task_codec env
        (perform_delete number)
        before
        (delete_number env number s).0
        (delete_number env number s).1
unfolding delete_number
delete_number-Settled env number s before v l =
    transact-Settled task_format task_codec env (perform_delete number) s before v l
      (λ loaded b new w e. perform_delete-IsTaskList number loaded b new w e)

write_answer :
    {b c : Task} {x y : List Task}
    → ◌≡◌ {A = Outcome Task TaskError Task} (write b x) (write c y)
    → b ≡ c
write_answer h = cc

perform_delete-write :
    (number : ℕ) (entries new : List Task) (task : Task)
    → perform_delete number entries ≡ write task new
    → Without number entries task new
perform_delete-write number entries new task h = elim (perform_delete-cases number entries) [
  | inl (e, declined) ↦ absurd (clash (sym declined ∙ h))
  | inr (found, gone, without, chosen) ↦
      let shows = sym chosen ∙ h in
      subst (λ t. Without number entries t new) (write_answer shows)
        (subst (Without number entries found) (write_eq shows) without)
]
  where
    clash :
        {e : TaskError} {b : Task} {x : List Task}
        → ◌≢◌ {A = Outcome Task TaskError Task} (refuse e) (write b x)
    clash k = cc

perform_delete-keep :
    (number : ℕ) (entries : List Task) (task : Task) → perform_delete number entries ≢ keep task
perform_delete-keep number entries task h = elim (perform_delete-cases number entries) [
  | inl (e, declined) ↦ first (sym declined ∙ h)
  | inr (found, gone, without, chosen) ↦ second (sym chosen ∙ h)
]
  where
    first : {e : TaskError} {b : Task} → ◌≢◌ {A = Outcome Task TaskError Task} (refuse e) (keep b)
    first k = cc

    second :
        {b c : Task} {x : List Task} → ◌≢◌ {A = Outcome Task TaskError Task} (write b x) (keep c)
    second k = cc

written_answer :
    (number : ℕ) (before after : List Task) (task : Task)
    → (perform_delete number before ≡ keep task) × (after ≡ before)
      ⊎ (perform_delete number before ≡ write task after)
    → Without number before task after
written_answer number before after task (inl h) =
    absurd (perform_delete-keep number before task h.0)
written_answer number before after task (inr h) = perform_delete-write number before after task h

written_list :
    (number : ℕ) (before after : List Task)
    → (after ≡ before) ⊎ (task : Task) × (perform_delete number before ≡ write task after)
    → (after ≡ before) ⊎ (task : Task) × Without number before task after
written_list number before after (inl h) = inl h
written_list number before after (inr h) =
    inr (h.0, perform_delete-write number before after h.0 h.1)

settled-TaskDeleted :
    (env : Env) (number : ℕ) (before : List Task) (r : Result (StoreError TaskError) Task)
    (s : TaskStore)
    → Settled task_format task_codec env (perform_delete number) before r s
    → TaskDeleted env number before r s
settled-TaskDeleted env number before (err e) s h = record {
  after = h.after;
  valid = h.valid;
  loads = h.loads;
  old_or_new = written_list number before h.after h.old_or_new;
  reported = tt;
  recovered = h.recovered;
}
settled-TaskDeleted env number before (ok task) s h = record {
  after = h.after;
  valid = h.valid;
  loads = h.loads;
  old_or_new = written_list number before h.after h.old_or_new;
  reported = (written_answer number before h.after task (h.answered task refl), h.synced task refl);
  recovered = h.recovered;
}

-- From a directory that holds a valid task list, whatever the operating system refuses: the index holds
-- a valid list after `delete_number`, the old one or the one without the entry of that number, counted
-- from 1; a reported task is that entry, with it gone from the index and the same list in memory; and
-- after a failed write memory equals the index if it can be read again.
pub delete_number-TaskDeleted :
    (env : Env) (number : ℕ) (s : TaskStore) (before : List Task)
    → IsTaskList before
    → load_unlocked task_format false s.dir ≡ ok before
    → TaskDeleted env number before (delete_number env number s).0 (delete_number env number s).1
delete_number-TaskDeleted env number s before v l =
    settled-TaskDeleted env number before (delete_number env number s).0
      (delete_number env number s).1 (delete_number-Settled env number s before v l)
