-- ===== src/Storage/Examples.antt =====
-- src/storage: the theorems of the stores at small lists, with an operating system that refuses the
-- rename of a new index file.
use riddle.Prelude.{
  ℕ, ◌+◌, ◌++◌, ◌≡◌, refl, true, false, none, some, List, [], ◌∷◌, ◌==◌, if◌then◌else◌, ok, err,
  get_elem?, map, All, arith,
}
use riddle.Text.{Text, lit, trim_matches, is_whitespace, byte_len, strip_any_prefix, text_eq}
use riddle.Text.Decimal.{print}
use riddle.Storage.Persistence.{text, rename, stage_number, atomic_write, atomic_write-some}
use riddle.Storage.Index.{Env, Outcome, write, render, load_unlocked, transact}
use riddle.Storage.Index.RoundTrip.{load-render}
use riddle.Storage.Index.Transactions.{KeepsValid, Settled, transact-Settled}
use riddle.Storage.Tasks.{Task, TaskStore, TaskError, pause, task_format, encode_line, decode_line}
use riddle.Storage.Tasks.Columns.{IsTask, task_codec, decode_line-encode_line}
use riddle.Storage.Tasks.Listing.{catalog_lines, panel_lines, panel_enabled}
use riddle.Storage.Tasks.Command.{
  parse_command, parse_trimmed, if_prefix, parse_number_only, parse_number_prefix, trim_separators,
  strip_counter,
}
use riddle.Storage.Tasks.Command.Numerals.{take_number}
use riddle.Storage.Tasks.Command.Grammar.{IsCommand, parse_command-IsCommand}
use riddle.Storage.Tasks.Operations.{
  index, apply_from_transcript, delete_number, perform_delete, due, advance_all, perform_complete,
  is_stale, find_task, task_eq, advance,
}
use riddle.Storage.Tasks.Operations.Entries.{ids, IsTaskList}
use riddle.Storage.Tasks.Operations.Validity.{perform_delete-IsTaskList}
use riddle.Storage.Tasks.Operations.Numbered.{listings-index}
use riddle.Storage.Tasks.Operations.Deleting.{TaskDeleted, delete_number-TaskDeleted}
use riddle.Storage.Tasks.Operations.Changes.{IsApplied, apply_from_transcript-IsApplied}
use riddle.Storage.Tasks.Operations.Completion.{completed}
use riddle.Storage.Tasks.Operations.Batches.{
  IsCurrent, perform_complete-write, perform_complete-due,
}
use riddle.Storage.Todos.{Todo, TodoStore, todo_format, add_from_transcript}
use riddle.Storage.Todos.Columns.{todo_codec}
use riddle.Storage.Todos.Changes.{IsTodoList}
use riddle.Storage.Todos.Adding.{IsAdded, add_from_transcript-IsAdded}

abbrev refusing : Env
refusing = record {
  lock_fails = false;
  read_fails = false;
  write_fault = some (record { stage = rename; cleanup_fails = false });
  reread_fails = false;
}

abbrev stretch : Task
stretch = record {
  id = 7;
  interval_secs = 3600;
  next_due = 5000;
  instruction = lit "stretch";
  paused = false;
}

abbrev water : Task
water = record {
  id = 9;
  interval_secs = 600;
  next_due = 9000;
  instruction = lit "drink\twater";
  paused = true;
}

abbrev two_tasks : List Task
two_tasks = stretch ∷ water ∷ []

abbrev tasks_on_disk : TaskStore
tasks_on_disk = record {
  entries = [];
  dir = record { index = text (render task_format two_tasks); temporary = false };
}

stretch-IsTask : IsTask stretch
unfolding trim_matches is_whitespace byte_len
stretch-IsTask = record {
  id_fits = omega arith;
  interval_fits = omega arith;
  interval_long = omega arith;
  due_fits = omega arith;
  visible = refl;
  short = omega arith;
  closed = λ h. cc;
}

water-IsTask : IsTask water
unfolding trim_matches is_whitespace byte_len
water-IsTask = record {
  id_fits = omega arith;
  interval_fits = omega arith;
  interval_long = omega arith;
  due_fits = omega arith;
  visible = refl;
  short = omega arith;
  closed = λ h. cc;
}

two_tasks-IsTaskList : IsTaskList two_tasks
two_tasks-IsTaskList = record {
  distinct = (refl, (refl, tt));
  sound = (stretch-IsTask, (water-IsTask, tt));
  capped = omega arith;
}

tasks_load : load_unlocked task_format false tasks_on_disk.dir ≡ ok two_tasks
tasks_load =
    load-render task_format task_codec two_tasks tasks_on_disk.dir two_tasks-IsTaskList refl

apply_from_transcript-IsApplied_example :
    IsApplied
      (lit "任务 每两小时 look up")
      4000
      two_tasks
      (apply_from_transcript refusing (lit "任务 每两小时 look up") 4000 tasks_on_disk).0
      (apply_from_transcript refusing (lit "任务 每两小时 look up") 4000 tasks_on_disk).1
apply_from_transcript-IsApplied_example =
    apply_from_transcript-IsApplied refusing (lit "任务 每两小时 look up") 4000 tasks_on_disk two_tasks
      two_tasks-IsTaskList tasks_load (omega arith)

abbrev removal : List Task → Outcome Task TaskError Task
removal = perform_delete 1

removal_keeps : KeepsValid task_format task_codec removal
removal_keeps loaded b new w e = perform_delete-IsTaskList 1 loaded b new w e

transact-Settled_example :
    Settled task_format task_codec refusing removal two_tasks
      (transact task_format refusing removal tasks_on_disk).0
      (transact task_format refusing removal tasks_on_disk).1
transact-Settled_example =
    transact-Settled task_format task_codec refusing removal tasks_on_disk two_tasks
      two_tasks-IsTaskList tasks_load removal_keeps

load-render_example : load_unlocked task_format false tasks_on_disk.dir ≡ ok two_tasks
load-render_example =
    load-render task_format task_codec two_tasks tasks_on_disk.dir two_tasks-IsTaskList refl

decode_line-encode_line_example : decode_line (7 ∷ []) (encode_line water) ≡ ok water
decode_line-encode_line_example = decode_line-encode_line (7 ∷ []) water water-IsTask refl

atomic_write-some_example :
    ((atomic_write
        (some (record { stage = rename; cleanup_fails = true }))
        (lit "7")
        tasks_on_disk.dir).0
      ≡ err rename)
    × ((atomic_write
          (some (record { stage = rename; cleanup_fails = true }))
          (lit "7")
          tasks_on_disk.dir).1.index
        ≡ (if stage_number rename == 6 then text (lit "7") else tasks_on_disk.dir.index))
atomic_write-some_example =
    atomic_write-some (record { stage = rename; cleanup_fails = true }) (lit "7") tasks_on_disk.dir

pause_parses : parse_command (lit "pause task 2") ≡ ok (some (pause 2))
unfolding parse_command parse_trimmed if_prefix strip_any_prefix trim_matches is_whitespace
    parse_number_only parse_number_prefix take_number trim_separators strip_counter
pause_parses = refl

parse_command-IsCommand_example : IsCommand (pause 2)
parse_command-IsCommand_example =
    parse_command-IsCommand (lit "pause task 2") (pause 2) pause_parses

abbrev granting : Env
granting = record {
  lock_fails = false;
  read_fails = false;
  write_fault = none;
  reread_fails = false;
}

delete_number-TaskDeleted_example :
    TaskDeleted granting 2 two_tasks
      (delete_number granting 2 tasks_on_disk).0
      (delete_number granting 2 tasks_on_disk).1
delete_number-TaskDeleted_example =
    delete_number-TaskDeleted granting 2 tasks_on_disk two_tasks two_tasks-IsTaskList tasks_load

listings-index_example :
    ((middle : Text) × (get_elem? (catalog_lines two_tasks) 1
        ≡ some (print (1 + 1) ++ lit ". " ++ middle ++ water.instruction)))
    × ((middle : Text) × (get_elem? (panel_lines two_tasks) 1
          ≡ some (print (1 + 1) ++ lit " " ++ middle ++ water.instruction)))
    × (get_elem? (panel_enabled two_tasks) 1 ≡ some false)
    × (index two_tasks 2 ≡ ok 1)
listings-index_example = listings-index two_tasks 1 water refl

stretch_completes :
    perform_complete (stretch ∷ []) 6000 two_tasks
    ≡ write true (record stretch { next_due = 9600 } ∷ water ∷ [])
unfolding perform_complete is_stale find_task task_eq text_eq advance_all advance
stretch_completes = refl

perform_complete-write_example :
    All (IsCurrent two_tasks) (stretch ∷ [])
    × (record stretch { next_due = 9600 } ∷ water ∷ [] ≡ map (completed 6000 (7 ∷ [])) two_tasks)
perform_complete-write_example =
    perform_complete-write (stretch ∷ []) 6000 two_tasks true
      (record stretch { next_due = 9600 } ∷ water ∷ []) (refl, (refl, tt)) stretch_completes

perform_complete-due_example :
    (new : List Task) × (perform_complete (due 6000 two_tasks) 6000 two_tasks ≡ write true new)
    × (new ≡ map (completed 6000 (ids (due 6000 two_tasks))) two_tasks)
    × (due 6000 new ≡ [])
perform_complete-due_example =
    perform_complete-due 6000 two_tasks two_tasks-IsTaskList (omega arith)

abbrev one_todo : List Todo
one_todo = record { id = 3; text = lit "buy ink" } ∷ []

one_todo-IsTodoList : IsTodoList one_todo
unfolding trim_matches is_whitespace byte_len
one_todo-IsTodoList = record {
  distinct = (refl, tt);
  sound =
      (record { id_fits = omega arith; visible = refl; short = omega arith; closed = λ h. cc }, tt);
  capped = omega arith;
}

abbrev todos_on_disk : TodoStore
todos_on_disk = record {
  entries = [];
  dir = record { index = text (render todo_format one_todo); temporary = true };
}

add_from_transcript-IsAdded_example :
    IsAdded
      (lit "todo: call home")
      one_todo
      (add_from_transcript refusing (lit "todo: call home") 1700000000 todos_on_disk).0
      (add_from_transcript refusing (lit "todo: call home") 1700000000 todos_on_disk).1
add_from_transcript-IsAdded_example =
    add_from_transcript-IsAdded refusing (lit "todo: call home") 1700000000 todos_on_disk one_todo
      one_todo-IsTodoList
      (load-render todo_format todo_codec one_todo todos_on_disk.dir one_todo-IsTodoList refl)
      (omega arith)

abbrev removing : ℕ → Task → Outcome Task TaskError Task
removing i task = write task []
