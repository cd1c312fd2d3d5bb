-- ===== src/Storage/Tasks.antt =====
-- src/storage/tasks/mod.rs: the recurring tasks, the columns of their index file, and what each
-- operation decides on the entries that it has loaded.
pub mod Listing
pub mod Command
pub mod Columns
pub mod Operations
use riddle.Prelude.{
  ℕ, ◌+◌, ◌-◌, ◌*◌, ◌≤◌, ◌≡◌, refl, Bool, true, false, not, ◌&&◌, ◌||◌, Option, none, some, List,
  [], ◌∷◌, ◌++◌, ltb, leb, ◌==◌, if◌then◌else◌, Result, ok, err, ◌>>=◌, ◌>>◌, reject, ok_or,
  map_err, length, get_elem?, set, remove_at, any, is_empty, map, max, min, zero,
}
use riddle.Text.{Text, lit, byte_len, trim, text_eq}
use riddle.Text.Splitting.{split}
use riddle.Text.Decimal.{parse, print, saturating_add, checked_add}
use riddle.Storage.Escape.{escape, unescape_field}
use riddle.Storage.Persistence.{WriteStage}
use riddle.Storage.Index.{
  Format, Store, Env, LineError, LoadError, StoreError, Outcome, refuse, keep, write, contains,
  transact, empty_record, wrong_columns, invalid_id, invalid_interval, invalid_due, short_interval,
  duplicate_id, invalid_state, empty_text, oversized_text, bad_escape,
}

abbrev pub min_interval_secs : ℕ
min_interval_secs = 5 * 60

abbrev pub max_tasks : ℕ
max_tasks = 9

abbrev pub max_task_instruction_bytes : ℕ
max_task_instruction_bytes = 4 * 1024

abbrev pub max_task_index_bytes : ℕ
max_task_index_bytes = 128 * 1024

pub record Task : Type 0 where
  pub id : ℕ
  pub interval_secs : ℕ
  pub next_due : ℕ
  pub instruction : Text
  pub paused : Bool

pub data TaskChange : Type 0 where
  added : Task → TaskChange
  deleted paused_task resumed : ℕ → Task → TaskChange
  modified : ℕ → Task → Task → TaskChange

pub data TaskCommand : Type 0 where
  add : ℕ → Text → TaskCommand
  delete pause resume : ℕ → TaskCommand
  modify : ℕ → ℕ → Text → TaskCommand

-- Why an operation refuses. `index_panic` stands for an index out of bounds, where Rust panics.
pub data TaskError : Type 0 where
  too_many_tasks id_space_exhausted index_panic : TaskError
  no_such_task : ℕ → ℕ → TaskError
  already_paused already_active : ℕ → TaskError

-- The three numbers in front, with the test for a duplicate id.
unfoldable pub decode_numbers : List ℕ → Text → Text → Text → Result LineError (ℕ × ℕ × ℕ)
decode_numbers seen c0 c1 c2 = do
  id ← ok_or invalid_id (parse c0)
  interval_secs ← ok_or invalid_interval (parse c1)
  next_due ← ok_or invalid_due (parse c2)
  reject (ltb interval_secs min_interval_secs) short_interval
  reject (contains seen id) duplicate_id
  ok (id, interval_secs, next_due)

unfoldable pub decode_state : Text → Result LineError Bool
decode_state c =
    if text_eq c (lit "active")
    then ok false
    else if text_eq c (lit "paused")
    then ok true
    else err invalid_state

unfoldable pub decode_instruction : Text → Result LineError Text
decode_instruction encoded = do
  instruction ← map_err bad_escape (unescape_field encoded)
  reject (is_empty (trim instruction)) empty_text
  reject (ltb max_task_instruction_bytes (byte_len instruction)) oversized_text
  ok instruction

abbrev build_task : ℕ × ℕ × ℕ → Bool → Text → Task
build_task (id, interval_secs, next_due) paused instruction = record {
  id = id;
  interval_secs = interval_secs;
  next_due = next_due;
  instruction = instruction;
  paused = paused;
}

-- Four legacy columns, or five with the state.
unfoldable pub decode_columns : List ℕ → List Text → Result LineError Task
unfolding decode_numbers decode_state decode_instruction
decode_columns seen (c0 ∷ c1 ∷ c2 ∷ c3 ∷ []) = do
  numbers ← decode_numbers seen c0 c1 c2
  instruction ← decode_instruction c3
  ok (build_task numbers false instruction)
decode_columns seen (c0 ∷ c1 ∷ c2 ∷ c3 ∷ c4 ∷ []) = do
  numbers ← decode_numbers seen c0 c1 c2
  paused ← decode_state c3
  instruction ← decode_instruction c4
  ok (build_task numbers paused instruction)
decode_columns seen _ = err wrong_columns

-- The body of the loop of `load_unlocked`.
unfoldable pub decode_line : List ℕ → Text → Result LineError Task
unfolding decode_columns split
decode_line seen [] = err empty_record
decode_line seen (c ∷ line) = decode_columns seen (split b'\t' (c ∷ line))

-- A line of `persist`, without its newline.
unfoldable pub encode_line : Task → Text
encode_line t =
    print t.id
    ++ b'\t'
      ∷ (print t.interval_secs
          ++ b'\t'
            ∷ (print t.next_due
                ++ b'\t'
                  ∷ ((if t.paused then lit "paused" else lit "active")
                      ++ b'\t' ∷ escape t.instruction)))

abbrev pub task_format : Format Task
task_format = record {
  max_entries = max_tasks;
  max_bytes = max_task_index_bytes;
  entry_id = λ t. t.id;
  decode_line = decode_line;
  encode_line = encode_line;
}

abbrev pub TaskStore : Type 0
TaskStore = Store Task
