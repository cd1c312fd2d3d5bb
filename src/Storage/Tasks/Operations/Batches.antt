-- ===== src/Storage/Tasks/Operations/Batches.antt =====
-- src/storage/tasks/mod.rs (`complete_due_if_unchanged`): a batch is completed only if every snapshot
-- in it is still the current task, and the batch of the due tasks leaves none due.
use riddle.Text.Equality.{text_eq_sound}
use mathlib.Core.Path.{subst}
use riddle.Prelude.{
  ℕ, ◌≤◌, ◌<◌, ◌≡◌, ◌≢◌, refl, sym, ap, ◌∙◌, Bool, true, false, Option, none, some, List, [], ◌∷◌,
  if◌then◌else◌, any, map, All, arith, Bool-cases, inl, inr,
}
use riddle.Text.Decimal.{u64_max}
use riddle.Storage.Index.{contains, Outcome, keep, write}
use riddle.Storage.Index.Distinct.{Distinct}
use riddle.Storage.Tasks.{Task, TaskError, min_interval_secs}
use riddle.Storage.Tasks.Columns.{IsTask}
use riddle.Storage.Tasks.Operations.{
  is_due, due, task_eq, find_task, is_stale, stale_against, advance_all, perform_complete,
}
use riddle.Storage.Index.Changes.{write_eq}
use riddle.Storage.Tasks.Operations.Entries.{ids, IsTaskList}
use riddle.Storage.Tasks.Operations.Completion.{
  restarted, completed, advance_all-eq-map, due_is_fresh,
}

restarted_not_due :
    (now : ℕ) (t : Task)
    → now < u64_max
    → min_interval_secs ≤ t.interval_secs
    → is_due now (restarted now t) ≡ false
restarted_not_due now t early long = ground arith

completed_not_due :
    (now : ℕ) (done : List ℕ) (t : Task)
    → now < u64_max
    → min_interval_secs ≤ t.interval_secs
    → (is_due now t ≡ true → contains done t.id ≡ true)
    → is_due now (completed now done t) ≡ false
completed_not_due now done t early long named = elim (Bool-cases (contains done t.id)) [
  | inl restarts ↦
      subst (λ b. is_due now (if b then restarted now t else t) ≡ false) (sym restarts)
        (restarted_not_due now t early long)
  | inr stays ↦
      subst (λ b. is_due now (if b then restarted now t else t) ≡ false) (sym stays)
        (elim (Bool-cases (is_due now t)) [ inl ready ↦ cc (named ready) | inr waits ↦ waits ])
]

due_here :
    (now : ℕ) (t : Task) (ts : List Task)
    → is_due now t ≡ true
    → contains (ids (due now (t ∷ ts))) t.id ≡ true
unfolding due
due_here now t ts h = rw h (ground arith)

due_there :
    (now : ℕ) (t : Task) (ts : List Task) (x : ℕ)
    → contains (ids (due now ts)) x ≡ true
    → contains (ids (due now (t ∷ ts))) x ≡ true
unfolding due
due_there now t ts x h = ground arith

due-cons_waiting :
    (now : ℕ) (t : Task) (ts : List Task) → is_due now t ≡ false → due now (t ∷ ts) ≡ due now ts
unfolding due
due-cons_waiting now t ts h = rw h

due_emptied :
    (now : ℕ) (done : List ℕ) (ts : List Task)
    → now < u64_max
    → All IsTask ts
    → ((x : ℕ) → contains (ids (due now ts)) x ≡ true → contains done x ≡ true)
    → due now (map (completed now done) ts) ≡ []
due_emptied now done [] early h named = unfold due in refl
due_emptied now done (t ∷ ts) early h named =
    due-cons_waiting now (completed now done t) (map (completed now done) ts) (
      completed_not_due now done t early h.0.interval_long
        (λ ready. named t.id (due_here now t ts ready)))
    ∙ due_emptied now done ts early h.1 (λ x e. named x (due_there now t ts x e))

task_eq_sound : (a b : Task) → task_eq a b ≡ true → a ≡ b
unfolding task_eq
task_eq_sound a b h = ground (arith, text_eq_sound a.instruction b.instruction)

-- The snapshot is an active task of the list.
abbrev pub IsCurrent : List Task → Task → Type 0
IsCurrent entries s = (find_task s.id entries ≡ some s) × (s.paused ≡ false)

fresh_is_current :
    (s : Task) (o : Option Task) → stale_against s o ≡ false → (o ≡ some s) × (s.paused ≡ false)
fresh_is_current s none h = cc
fresh_is_current s (some t) h = ground (arith, task_eq_sound t s)

All-fresh :
    (entries expected : List Task)
    → any (is_stale entries) expected ≡ false
    → All (IsCurrent entries) expected
unfolding is_stale
All-fresh entries [] h = tt
All-fresh entries (s ∷ expected) h = (
  fresh_is_current s (find_task s.id entries) (ground arith),
  All-fresh entries expected (ground arith),
)

keep_ne_write :
    {A E B : Type 0} {b c : B} {x : List A} → ◌≢◌ {A = Outcome A E B} (keep b) (write c x)
keep_ne_write h = cc

-- In a list of distinct ids, a batch that is written named only current active tasks, and it restarts
-- exactly those.
pub perform_complete-write :
    (expected : List Task) (now : ℕ) (entries : List Task) (b : Bool) (new : List Task)
    → Distinct (ids entries)
    → perform_complete expected now entries ≡ write b new
    → All (IsCurrent entries) expected × (new ≡ map (completed now (ids expected)) entries)
unfolding perform_complete
perform_complete-write expected now entries b new d h =
    elim (Bool-cases (any (is_stale entries) expected)) [
      | inl stale ↦
          absurd
            (keep_ne_write (subst (λ c. (if c then keep false else written) ≡ write b new) stale h))
      | inr fresh ↦ (
        All-fresh entries expected fresh,
        sym (write_eq (subst (λ c. (if c then keep false else written) ≡ write b new) fresh h))
            ∙ advance_all-eq-map now expected entries d,
      )
    ]
  where
    written : Outcome Task TaskError Bool
    written = write true (advance_all now expected entries)

-- In a valid list, with the clock below the largest u64: the batch of the due tasks is accepted, it
-- restarts exactly those, and afterwards no task is due.
pub perform_complete-due :
    (now : ℕ) (entries : List Task)
    → IsTaskList entries
    → now < u64_max
    → (new : List Task) × (perform_complete (due now entries) now entries ≡ write true new)
      × (new ≡ map (completed now (ids (due now entries))) entries)
      × (due now new ≡ [])
unfolding perform_complete
perform_complete-due now entries v early =
    let image = advance_all-eq-map now (due now entries) entries v.distinct in
    (
      advance_all now (due now entries) entries,
      rw (due_is_fresh now [] entries v.distinct),
      image,
      ap (due now) image ∙ due_emptied now (ids (due now entries)) entries early v.sound (λ x e. e),
    )
