-- ===== src/Storage/Tasks/Listing.antt =====
-- src/storage/tasks/formatting.rs and the listings of src/storage/tasks/mod.rs: the texts of a task
-- list, for the agent, the panel and the heartbeat.
use riddle.Prelude.{ℕ, suc, ◌+◌, ◌/◌, ◌%◌, Bool, not, List, [], ◌∷◌, ◌++◌, ◌==◌, if◌then◌else◌, map}
use riddle.Text.{Text, lit}
use riddle.Text.Decimal.{print}
use riddle.Storage.Tasks.{Task}

-- `describe_interval`, `describe_interval_zh`: the largest unit that divides the seconds.
unfoldable pub describe_interval : ℕ → Text
describe_interval seconds =
    if seconds % 86400 == 0
    then print (seconds / 86400) ++ lit " days"
    else if seconds % 3600 == 0
    then print (seconds / 3600) ++ lit " hours"
    else print (seconds / 60) ++ lit " minutes"

unfoldable pub describe_interval_zh : ℕ → Text
describe_interval_zh seconds =
    if seconds % 86400 == 0
    then print (seconds / 86400) ++ lit "天"
    else if seconds % 3600 == 0
    then print (seconds / 3600) ++ lit "小时"
    else print (seconds / 60) ++ lit "分钟"

unfoldable pub due_lines : List Task → Text
unfolding describe_interval
due_lines [] = []
due_lines (task ∷ due) =
    lit "- Every "
    ++ describe_interval task.interval_secs
    ++ lit ": "
    ++ task.instruction
    ++ lit "\n"
    ++ due_lines due

unfoldable pub heartbeat_prompt : List Task → Text
unfolding due_lines
heartbeat_prompt due =
    lit
      "[INTERNAL MAGIC PAPER HEARTBEAT]\nThe following recurring commands from Master are due now:\n"
    ++ due_lines due
    ++ lit
        "\nPerform each due command exactly once. Write only the requested output for Master, using the language of that command. Do not mention the heartbeat, scheduling, or task list. If several commands are due, give each one a separate short paragraph. Do not add a greeting or confirmation."

-- `entries.iter().enumerate().map(f)`, from an index on.
unfoldable pub enumerate_from : (ℕ → Task → Text) → ℕ → List Task → List Text
enumerate_from f i [] = []
enumerate_from f i (task ∷ tasks) = f i task ∷ enumerate_from f (suc i) tasks

unfoldable pub catalog_line : ℕ → Task → Text
unfolding describe_interval
catalog_line i task =
    print (i + 1)
    ++ lit ". ["
    ++ (if task.paused then lit "paused" else lit "active")
    ++ lit "] every "
    ++ describe_interval task.interval_secs
    ++ lit " — "
    ++ task.instruction

unfoldable pub panel_line : ℕ → Task → Text
unfolding describe_interval_zh
panel_line i task =
    print (i + 1)
    ++ lit "  "
    ++ (if task.paused then lit "已暂停" else lit "执行中")
    ++ lit "  每"
    ++ describe_interval_zh task.interval_secs
    ++ lit "  "
    ++ task.instruction

unfoldable pub catalog_lines : List Task → List Text
unfolding enumerate_from catalog_line
catalog_lines entries = enumerate_from catalog_line 0 entries

unfoldable pub panel_lines : List Task → List Text
unfolding enumerate_from panel_line
panel_lines entries = enumerate_from panel_line 0 entries

unfoldable pub panel_enabled : List Task → List Bool
panel_enabled entries = map (λ task. not task.paused) entries
