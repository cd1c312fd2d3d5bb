-- ===== src/Storage/Tasks/Operations/Changes.antt =====
-- src/storage/tasks/mod.rs: the operations of `TaskStore` from end to end, whatever the operating
-- system refuses.
use riddle.Prelude.{
  ℕ, ◌≤◌, ◌≡◌, ◌≢◌, ◌⊎◌, refl, ap, ◌∙◌, false, Option, none, some, List, Result, ok, err, arith,
  inl, inr,
}
use riddle.Text.{Text}
use riddle.Text.Decimal.{u64_max}
use riddle.Storage.Index.{Env, StoreError, keep, write, load_unlocked, transact}
use riddle.Storage.Index.Transactions.{Settled, transact-Settled}
use riddle.Storage.Tasks.{Task, TaskStore, TaskCommand, TaskChange, TaskError, task_format}
use riddle.Storage.Tasks.{add, delete, pause, resume, modify}
use riddle.Storage.Tasks.Columns.{task_codec}
use riddle.Storage.Tasks.Command.{ParseError, parse_command}
use riddle.Storage.Tasks.Command.Grammar.{parse_command-IsCommand}
use riddle.Storage.Index.Changes.{some_eq, ok_eq}
use riddle.Storage.Tasks.Operations.{
  perform, with_task, index, apply_from_transcript, apply_parsed, changed, ApplyError,
}
use riddle.Storage.Tasks.Operations.Entries.{IsTaskList}
use riddle.Storage.Tasks.Operations.Validity.{perform-IsTaskList}

perform-ne-keep :
    (c : TaskCommand) (now : ℕ) (entries : List Task) (b : TaskChange)
    → perform c now entries ≢ keep b
unfolding perform with_task index
perform-ne-keep (add i t) now entries b h = ground arith
perform-ne-keep (delete n) now entries b h = ground arith
perform-ne-keep (pause n) now entries b h = ground arith
perform-ne-keep (resume n) now entries b h = ground arith
perform-ne-keep (modify n i t) now entries b h = ground arith

-- The command that the text spells changed the list `before` to `after`, and reported `change`.
abbrev pub Applied : Text → ℕ → List Task → TaskChange → List Task → Type 0
Applied text now before change after =
    (c : TaskCommand) × (parse_command text ≡ ok (some c))
    × (perform c now before ≡ write change after)

-- How `apply_from_transcript` ends.
pub record IsApplied (text : Text) (now : ℕ) (before : List Task)
    (r : Result ApplyError (Option TaskChange)) (s : TaskStore) : Type 0 where
  pub after : List Task
  pub valid : IsTaskList after
  pub loads : load_unlocked task_format false s.dir ≡ ok after
  pub old_or_new : (after ≡ before) ⊎ (change : TaskChange) × Applied text now before change after
  pub unchanged : r ≡ ok none → after ≡ before
  pub applied : (change : TaskChange) → r ≡ ok (some change) → Applied text now before change after
  pub synced : (change : TaskChange) → r ≡ ok (some change) → s.entries ≡ after

old_or_Applied :
    (text : Text) (now : ℕ) (before after : List Task) (c : TaskCommand)
    → parse_command text ≡ ok (some c)
    → (after ≡ before) ⊎ (b : TaskChange) × (perform c now before ≡ write b after)
    → (after ≡ before) ⊎ (change : TaskChange) × Applied text now before change after
old_or_Applied text now before after c q (inl e) = inl e
old_or_Applied text now before after c q (inr (b, e)) = inr (b, (c, q, e))

answered-Applied :
    (text : Text) (now : ℕ) (before after : List Task) (c : TaskCommand) (b change : TaskChange)
    → parse_command text ≡ ok (some c)
    → ◌≡◌ {A = Result ApplyError (Option TaskChange)} (ok (some b)) (ok (some change))
    → (perform c now before ≡ keep b) × (after ≡ before) ⊎ (perform c now before ≡ write b after)
    → Applied text now before change after
answered-Applied text now before after c b change q h (inl e) =
    absurd (perform-ne-keep c now before b e.0)
answered-Applied text now before after c b change q h (inr e) =
    (c, q, e ∙ ap (λ z. write z after) (some_eq (ok_eq h)))

changed-IsApplied :
    (env : Env) (text : Text) (now : ℕ) (before : List Task) (c : TaskCommand)
    (x : Result (StoreError TaskError) TaskChange × TaskStore)
    → parse_command text ≡ ok (some c)
    → Settled task_format task_codec env (perform c now) before x.0 x.1
    → IsApplied text now before (changed x).0 (changed x).1
changed-IsApplied env text now before c (err e, s) q t = record {
  after = t.after;
  valid = t.valid;
  loads = t.loads;
  old_or_new = old_or_Applied text now before t.after c q t.old_or_new;
  unchanged = λ h. absurd (cc);
  applied = λ change h. absurd (cc);
  synced = λ change h. absurd (cc);
}
changed-IsApplied env text now before c (ok b, s) q t = record {
  after = t.after;
  valid = t.valid;
  loads = t.loads;
  old_or_new = old_or_Applied text now before t.after c q t.old_or_new;
  unchanged = λ h. absurd (cc);
  applied = λ change h. answered-Applied text now before t.after c b change q h (t.answered b refl);
  synced = λ change h. t.synced b refl;
}

IsApplied-parsed :
    (env : Env) (text : Text) (now : ℕ) (s : TaskStore) (before : List Task)
    (p : Result ParseError (Option TaskCommand))
    → parse_command text ≡ p
    → IsTaskList before
    → load_unlocked task_format false s.dir ≡ ok before
    → now ≤ u64_max
    → IsApplied text now before (apply_parsed env now s p).0 (apply_parsed env now s p).1
IsApplied-parsed env text now s before (err e) q v l fits = record {
  after = before;
  valid = v;
  loads = l;
  old_or_new = inl refl;
  unchanged = λ h. refl;
  applied = λ c h. absurd (cc);
  synced = λ c h. absurd (cc);
}
IsApplied-parsed env text now s before (ok none) q v l fits = record {
  after = before;
  valid = v;
  loads = l;
  old_or_new = inl refl;
  unchanged = λ h. refl;
  applied = λ c h. absurd (cc);
  synced = λ c h. absurd (cc);
}
IsApplied-parsed env text now s before (ok (some c)) q v l fits =
    changed-IsApplied env text now before c (transact task_format env (perform c now) s) q (
      transact-Settled task_format task_codec env (perform c now) s before v l (λ loaded b new w e.
        perform-IsTaskList c now loaded b new (parse_command-IsCommand text c q) fits w e))

-- From a directory that holds a valid task list, every handwritten text, whatever the operating
-- system refuses, leaves a valid list there: the old one, or the one that the parsed command makes of
-- it. A reported change is that command's, and memory then equals the disk.
pub apply_from_transcript-IsApplied :
    (env : Env) (text : Text) (now : ℕ) (s : TaskStore) (before : List Task)
    → IsTaskList before
    → load_unlocked task_format false s.dir ≡ ok before
    → now ≤ u64_max
    → IsApplied text now before
        (apply_from_transcript env text now s).0
        (apply_from_transcript env text now s).1
unfolding apply_from_transcript
apply_from_transcript-IsApplied env text now s before v l fits =
    IsApplied-parsed env text now s before (parse_command text) refl v l fits
