-- ===== src/Storage/Tasks/Operations/Numbered.antt =====
-- src/storage/tasks/mod.rs: `toggle_number` as a whole transaction, and the lines
-- of the listings that their numbers stand for.
use riddle.Prelude.{
  ℕ, zero, suc, ◌+◌, ◌≡◌, ap, ◌∙◌, Bool, false, not, some, List, [], ◌∷◌, ◌++◌, if◌then◌else◌, refl,
  ok, get_elem?, length, arith, map, ◌<◌,
}
use mathlib.Core.List.{append_assoc}
use riddle.Text.{Text, lit}
use riddle.Text.Decimal.{print}
use riddle.Storage.Index.{Env, load_unlocked}
use riddle.Storage.Index.Transactions.{Settled, transact-Settled}
use riddle.Storage.Tasks.{Task, TaskStore, task_format}
use riddle.Storage.Tasks.Columns.{task_codec}
use riddle.Storage.Tasks.Listing.{
  describe_interval, describe_interval_zh, enumerate_from, catalog_line, panel_line, catalog_lines,
  panel_lines, panel_enabled,
}
use riddle.Storage.Tasks.Operations.{index, perform_toggle, toggle_number}
use riddle.Storage.Tasks.Operations.Entries.{IsTaskList}
use riddle.Storage.Tasks.Operations.Validity.{perform_toggle-IsTaskList}

-- From a directory that holds a valid task list, whatever the operating system refuses, `toggle_number`
-- leaves a valid list there: the old one or the one that `perform_toggle` makes of it. A reported
-- change is on disk, and memory then equals the disk.
pub toggle_number-Settled :
    (env : Env) (number now : ℕ) (s : TaskStore) (before : List Task)
    → IsTaskList before
    → load_unlocked task_format false s.dir ≡ ok before
    → Settled task_format task_codec env
        (perform_toggle number now)
        before
        (toggle_number env number now s).0
        (toggle_number env number now s).1
unfolding toggle_number
toggle_number-Settled env number now s before v l =
    transact-Settled task_format task_codec env (perform_toggle number now) s before v l
      (λ loaded b new w e. perform_toggle-IsTaskList number now loaded b new w e)

get_elem?-enumerate_from :
    (f : ℕ → Task → Text) (k i : ℕ) (entries : List Task) (task : Task)
    → get_elem? entries i ≡ some task
    → get_elem? (enumerate_from f k entries) i ≡ some (f (k + i) task)
unfolding enumerate_from
get_elem?-enumerate_from f k i [] task h = cc
get_elem?-enumerate_from f k zero (t ∷ entries) task h =
    let same : k + 0 ≡ k = omega arith in rw same (grind arith)
get_elem?-enumerate_from f k (suc i) (t ∷ entries) task h =
    let same : suc k + i ≡ k + suc i = omega arith in
    get_elem?-enumerate_from f (suc k) i entries task h ∙ ap (λ n. some (f n task)) same

get_elem?-map :
    (f : Task → Bool) (i : ℕ) (entries : List Task) (task : Task)
    → get_elem? entries i ≡ some task
    → get_elem? (map f entries) i ≡ some (f task)
get_elem?-map f i [] task h = cc
get_elem?-map f zero (t ∷ entries) task h = grind arith
get_elem?-map f (suc i) (t ∷ entries) task h = get_elem?-map f i entries task h

index-found :
    (i : ℕ) (entries : List Task) (task : Task)
    → get_elem? entries i ≡ some task
    → i < length entries
index-found i [] task h = cc
index-found zero (t ∷ entries) task h = omega arith
index-found (suc i) (t ∷ entries) task h = let below = index-found i entries task h in omega arith

catalog_line-number :
    (i : ℕ) (task : Task)
    → (middle : Text) × (catalog_line i task
        ≡ print (i + 1) ++ lit ". " ++ middle ++ task.instruction)
unfolding catalog_line
catalog_line-number i task = (
  lit "["
      ++ (if task.paused then lit "paused" else lit "active")
      ++ lit "] every "
      ++ describe_interval task.interval_secs
      ++ lit " — ",
  simp append_assoc refl,
)

panel_line-number :
    (i : ℕ) (task : Task)
    → (middle : Text) × (panel_line i task ≡ print (i + 1) ++ lit " " ++ middle ++ task.instruction)
unfolding panel_line
panel_line-number i task = (
  lit " "
      ++ (if task.paused then lit "已暂停" else lit "执行中")
      ++ lit "  每"
      ++ describe_interval_zh task.interval_secs
      ++ lit "  ",
  simp append_assoc refl,
)

-- The listings agree with the numbers that the operations take: for an entry at position `i`, line
-- `i` of the catalog begins with the number `i + 1` and a full stop, line `i` of the panel with the
-- number `i + 1` and a space, and both end with the entry's instruction; switch `i` of the panel is on
-- exactly when the entry is not paused; and `index` takes the number `i + 1` to `i`.
pub listings-index :
    (entries : List Task) (i : ℕ) (task : Task)
    → get_elem? entries i ≡ some task
    → ((middle : Text) × (get_elem? (catalog_lines entries) i
          ≡ some (print (i + 1) ++ lit ". " ++ middle ++ task.instruction)))
      × ((middle : Text) × (get_elem? (panel_lines entries) i
            ≡ some (print (i + 1) ++ lit " " ++ middle ++ task.instruction)))
      × (get_elem? (panel_enabled entries) i ≡ some (not task.paused))
      × (index entries (i + 1) ≡ ok i)
unfolding catalog_lines panel_lines panel_enabled index
listings-index entries i task h =
    let below = index-found i entries task h in
    let from_zero : 0 + i ≡ i = omega arith in
    let (catalog_middle, catalog_shape) = catalog_line-number i task in
    let (panel_middle, panel_shape) = panel_line-number i task in
    (
      (
        catalog_middle,
        get_elem?-enumerate_from catalog_line 0 i entries task h
            ∙ ap (λ n. some (catalog_line n task)) from_zero
            ∙ ap some catalog_shape,
      ),
      (
        panel_middle,
        get_elem?-enumerate_from panel_line 0 i entries task h
            ∙ ap (λ n. some (panel_line n task)) from_zero
            ∙ ap some panel_shape,
      ),
      get_elem?-map (λ t. not t.paused) i entries task h,
      ground arith,
    )
