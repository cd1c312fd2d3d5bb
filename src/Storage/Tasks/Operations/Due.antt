-- ===== src/Storage/Tasks/Operations/Due.antt =====
-- src/storage/tasks/mod.rs: `due` and `next_due` agree, so a scheduler that sleeps until `next_due`
-- misses nothing.
use riddle.Prelude.{
  ℕ, ◌≡◌, refl, Bool, false, not, Option, none, some, List, [], ◌∷◌, leb, is_empty, arith,
}
use riddle.Storage.Tasks.{Task}
use riddle.Storage.Tasks.Operations.{due, next_due}

-- The time has come.
abbrev pub reached : Option ℕ → ℕ → Bool
reached none now = false
reached (some t) now = leb t now

-- Some task is due exactly when the earliest time of an active task has come.
pub due-next_due :
    (now : ℕ) (ts : List Task) → not (is_empty (due now ts)) ≡ reached (next_due ts) now
unfolding due next_due
due-next_due now [] = refl
due-next_due now (t ∷ ts) = ground (arith, due-next_due now ts)
