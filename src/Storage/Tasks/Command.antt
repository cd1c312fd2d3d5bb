-- ===== src/Storage/Tasks/Command.antt =====
-- src/storage/tasks/parser.rs: handwritten commands about recurring tasks. `usize` has 64 bits, as on
-- the devices that the program runs on, so `usize::try_from` of a u64 succeeds.
pub mod Numerals
pub mod Grammar
use riddle.Prelude.{
  ℕ, ◌+◌, ◌*◌, ◌≡◌, refl, Bool, true, false, ◌&&◌, ◌||◌, Option, none, some, List, [], ◌∷◌, ltb,
  leb, ◌==◌, if◌then◌else◌, Result, ok, err, ◌>>=◌, ◌>>◌, reject, ok_or, is_empty, not,
}
use riddle.Text.{
  Text, lit, byte_len, trim, trim_start, trim_start_matches, trim_matches, is_whitespace, one_of,
  strip_prefix, strip_any_prefix,
}
use riddle.Text.Decimal.{saturating_mul}
use riddle.Storage.Tasks.{
  TaskCommand, add, delete, pause, resume, modify, min_interval_secs, max_task_instruction_bytes,
}
use Numerals.{take_number}

pub data Operation : Type 0 where
  deleting pausing resuming modifying : Operation

-- The messages of the errors.
pub data ParseError : Type 0 where
  no_every no_interval_number zero_interval no_unit short_interval no_instruction : ParseError
  long_instruction zero_number : ParseError
  no_number unexpected_text : Operation → ParseError

-- `trim_separators`
abbrev pub is_separator : ℕ → Bool
is_separator c = is_whitespace c || one_of (lit ":：,，-—") c

unfoldable pub trim_separators : Text → Text
trim_separators s = trim_start_matches is_separator s

-- `trailing.strip_prefix('号')`, with its `or_else` chain and the final `unwrap_or(trailing)`.
unfoldable pub strip_counter : Text → Text
strip_counter s =
    elim (strip_any_prefix s (lit "号" ∷ lit "號" ∷ lit "个" ∷ lit "個" ∷ lit "项" ∷ lit "項" ∷ [])) [
      | none ↦ s
      | some rest ↦ rest
    ]

abbrev unwrap_or : Option Text → Text → Text
unwrap_or none s = s
unwrap_or (some t) s = t

unfoldable pub parse_number_prefix : Text → Operation → Result ParseError (ℕ × Text)
parse_number_prefix rest operation = do
  let rest' = trim_separators rest
  let rest'' = unwrap_or (strip_prefix (lit "第") rest') rest'
  found ← ok_or (no_number operation) (take_number rest'')
  reject (found.0 == 0) zero_number
  ok (found.0, strip_counter found.1)

abbrev is_closing : ℕ → Bool
is_closing c = is_whitespace c || one_of (lit ".。!！?？") c

unfoldable pub parse_number_only : Text → Operation → Result ParseError ℕ
parse_number_only rest operation = do
  found ← parse_number_prefix rest operation
  reject (not (is_empty (trim_matches is_closing found.1))) (unexpected_text operation)
  ok found.0

-- The seconds of the unit in front, and what follows it.
unfoldable pub strip_unit : List (Text × ℕ) → Text → Option (ℕ × Text)
strip_unit [] s = none
strip_unit ((name, secs) ∷ units) s = elim (strip_prefix name s) [
  | some rest ↦ some (secs, rest)
  | none ↦ strip_unit units s
]

abbrev units : List (Text × ℕ)
units =
    (lit "分钟", 60)
    ∷ (lit "分鐘", 60)
    ∷ (lit "小时", 3600)
    ∷ (lit "小時", 3600)
    ∷ (lit "时", 3600)
    ∷ (lit "時", 3600)
    ∷ (lit "天", 86400)
    ∷ []

unfoldable pub parse_schedule : Text → Result ParseError (ℕ × Text)
parse_schedule rest = do
  after_every ← ok_or no_every (strip_prefix (lit "每") rest)
  number ← ok_or no_interval_number (take_number (trim_start after_every))
  reject (number.0 == 0) zero_interval
  unit ← ok_or no_unit (strip_unit units (trim_start number.1))
  let interval_secs = saturating_mul number.0 unit.0
  reject (ltb interval_secs min_interval_secs) short_interval
  let instruction = trim (trim_separators unit.1)
  reject (is_empty instruction) no_instruction
  reject (ltb max_task_instruction_bytes (byte_len instruction)) long_instruction
  ok (interval_secs, instruction)

abbrev after_word : Option Text → Text → Text
after_word none s = s
after_word (some t) s = trim_separators t

unfoldable pub parse_modify_command : Text → Result ParseError TaskCommand
parse_modify_command rest = do
  found ← parse_number_prefix rest modifying
  let rest' = trim_separators found.1
  let words = lit "改为" ∷ lit "改為" ∷ lit "改成" ∷ lit "为" ∷ lit "為" ∷ lit "to" ∷ []
  schedule ← parse_schedule (after_word (strip_any_prefix rest' words) rest')
  ok (modify found.0 schedule.0 schedule.1)

-- `parse_number_only(…).map(|n| Some(TaskCommand::…(n)))`
abbrev numbered : (ℕ → TaskCommand) → Result ParseError ℕ → Result ParseError (Option TaskCommand)
numbered build r = r >>= λ n. ok (some (build n))

abbrev found_command : Result ParseError TaskCommand → Result ParseError (Option TaskCommand)
found_command r = r >>= λ c. ok (some c)

-- `let (interval_secs, instruction) = parse_schedule(rest)?; Ok(Some(TaskCommand::Add { … }))`
abbrev scheduled : Result ParseError (ℕ × Text) → Result ParseError (Option TaskCommand)
scheduled r = r >>= λ schedule. ok (some (add schedule.0 schedule.1))

abbrev Parsed : Type 0
Parsed = Result ParseError (Option TaskCommand)

abbrev choose : Option Text → (Text → Parsed) → Parsed → Parsed
choose none found otherwise = otherwise
choose (some rest) found otherwise = found rest

-- `if let Some(rest) = strip_any_prefix(text, words) { return … }`
unfoldable pub if_prefix : Text → List Text → (Text → Parsed) → Parsed → Parsed
if_prefix text words found otherwise = choose (strip_any_prefix text words) found otherwise

-- The forms under the common introducer, such as `任务 暂停 2`.
unfoldable pub parse_introduced : Text → Parsed
parse_introduced rest =
    if_prefix rest (lit "删除" ∷ lit "刪除" ∷ lit "delete" ∷ [])
      (λ after. numbered delete (parse_number_only after deleting))
      (if_prefix rest (lit "暂停" ∷ lit "暫停" ∷ lit "pause" ∷ [])
        (λ after. numbered pause (parse_number_only after pausing))
        (if_prefix rest (lit "恢复" ∷ lit "恢復" ∷ lit "继续" ∷ lit "繼續" ∷ lit "resume" ∷ [])
          (λ after. numbered resume (parse_number_only after resuming))
          (if_prefix rest (lit "修改" ∷ lit "modify" ∷ lit "change" ∷ [])
            (λ after. found_command (parse_modify_command after))
            (scheduled (parse_schedule rest)))))

abbrev introducers : List Text
introducers = lit "任务" ∷ lit "任務" ∷ lit "task" ∷ lit "Task" ∷ lit "TASK" ∷ []

abbrev delete_words : List Text
delete_words = lit "删除任务" ∷ lit "刪除任務" ∷ lit "删除任務" ∷ lit "刪除任务" ∷ lit "delete task" ∷ []

abbrev pause_words : List Text
pause_words = lit "暂停任务" ∷ lit "暫停任務" ∷ lit "暂停任務" ∷ lit "暫停任务" ∷ lit "pause task" ∷ []

abbrev resume_words : List Text
resume_words =
    lit "恢复任务"
    ∷ lit "恢復任務"
    ∷ lit "恢复任務"
    ∷ lit "恢復任务"
    ∷ lit "继续任务"
    ∷ lit "繼續任務"
    ∷ lit "resume task"
    ∷ []

abbrev modify_words : List Text
modify_words = lit "修改任务" ∷ lit "修改任務" ∷ lit "modify task" ∷ lit "change task" ∷ []

-- The verb-first commands, and those under an introducer; `ok none` for other writing.
unfoldable pub parse_trimmed : Text → Parsed
parse_trimmed text =
    if_prefix text delete_words (λ rest. numbered delete (parse_number_only rest deleting))
      (if_prefix text pause_words (λ rest. numbered pause (parse_number_only rest pausing))
        (if_prefix text resume_words (λ rest. numbered resume (parse_number_only rest resuming))
          (if_prefix text modify_words (λ rest. found_command (parse_modify_command rest))
            (if_prefix text introducers (λ rest. parse_introduced (trim_separators rest))
              (ok none)))))

unfoldable pub parse_command : Text → Result ParseError (Option TaskCommand)
parse_command text = parse_trimmed (trim text)

-- `is_local_command` of src/storage/tasks/mod.rs: only a complete command is kept from the oracle.
unfoldable pub is_local_command : Text → Bool
is_local_command text = elim (parse_command text) [
  | err _ ↦ false
  | ok none ↦ false
  | ok (some _) ↦ true
]
