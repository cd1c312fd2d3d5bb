-- ===== src/Storage/Tasks/Operations/Completion.antt =====
-- src/storage/tasks/mod.rs (`complete_due_if_unchanged`): what completing a batch of tasks does to
-- every task of the list, and that completing the due tasks leaves none due.
use riddle.Text.Equality.{text_eq_refl}
use mathlib.Core.Path.{subst, ap₂}
use mathlib.Core.List.{append_assoc, map-append}
use riddle.Prelude.{
  ℕ, ◌≡◌, refl, sym, ap, ◌∙◌, true, false, some, List, [], ◌∷◌, ◌++◌, if◌then◌else◌, any, map,
  arith,
}
use riddle.Text.Decimal.{saturating_add}
use riddle.Storage.Index.{contains}
use riddle.Storage.Index.Distinct.{Distinct, Distinct-middle}
use riddle.Storage.Tasks.{Task}
use riddle.Storage.Tasks.Operations.{due, task_eq, find_task, is_stale, advance, advance_all}
use riddle.Storage.Tasks.Operations.Entries.{ids}

-- A full interval from `now`.
abbrev pub restarted : ℕ → Task → Task
restarted now t = record t { next_due = saturating_add now t.interval_secs }

-- What completing the tasks of these ids does to one task.
abbrev pub completed : ℕ → List ℕ → Task → Task
completed now done t = if contains done t.id then restarted now t else t

map_twice :
    (f g h : Task → Task) (ts : List Task)
    → ((t : Task) → f (g t) ≡ h t)
    → map f (map g ts) ≡ map h ts
map_twice f g h [] e = refl
map_twice f g h (t ∷ ts) e = ap₂ (λ x l. x ∷ l) (e t) (map_twice f g h ts e)

advance-absent :
    (now i : ℕ) (ts : List Task)
    → contains (ids ts) i ≡ false
    → map (completed now (i ∷ [])) ts ≡ ts
advance-absent now i [] h = refl
advance-absent now i (t ∷ ts) h = ground (arith, advance-absent now i ts)

advance-eq-map :
    (now i : ℕ) (ts : List Task)
    → Distinct (ids ts)
    → advance now i ts ≡ map (completed now (i ∷ [])) ts
unfolding advance
advance-eq-map now i [] d = refl
advance-eq-map now i (t ∷ ts) d =
    ground (arith, advance-absent now i ts, advance-eq-map now i ts d.1, d.0)

completed_twice :
    (now i : ℕ) (rest : List ℕ) (t : Task)
    → completed now rest (completed now (i ∷ []) t) ≡ completed now (i ∷ rest) t
completed_twice now i rest t = ground arith

ids-completed :
    (now : ℕ) (done : List ℕ) (ts : List Task) → ids (map (completed now done) ts) ≡ ids ts
ids-completed now done [] = refl
ids-completed now done (t ∷ ts) = ground (arith, ids-completed now done ts)

map-completed_nil : (now : ℕ) (ts : List Task) → map (completed now []) ts ≡ ts
map-completed_nil now [] = refl
map-completed_nil now (t ∷ ts) = ap (λ l. t ∷ l) (map-completed_nil now ts)

-- In a list of distinct ids, a batch restarts the interval of each task that it names, and leaves the
-- others as they are.
pub advance_all-eq-map :
    (now : ℕ) (expected entries : List Task)
    → Distinct (ids entries)
    → advance_all now expected entries ≡ map (completed now (ids expected)) entries
unfolding advance_all
advance_all-eq-map now [] entries d = sym (map-completed_nil now entries)
advance_all-eq-map now (s ∷ expected) entries d =
    let step = advance-eq-map now s.id entries d in
    advance_all-eq-map now expected (advance now s.id entries)
      (subst Distinct (sym (ap ids step ∙ ids-completed now (s.id ∷ []) entries)) d)
    ∙ ap (map (completed now (ids expected))) step
    ∙ map_twice _ _ (completed now (ids (s ∷ expected))) entries
        (completed_twice now s.id (ids expected))

find_task-append :
    (before : List Task) (t : Task) (after : List Task)
    → contains (ids before) t.id ≡ false
    → find_task t.id (before ++ t ∷ after) ≡ some t
unfolding find_task
find_task-append [] t after h = ground arith
find_task-append (x ∷ before) t after h = ground (arith, find_task-append before t after)

task_eq_refl : (t : Task) → task_eq t t ≡ true
unfolding task_eq
task_eq_refl t = ground (arith, text_eq_refl t.instruction)

current_is_fresh :
    (entries : List Task) (t : Task)
    → find_task t.id entries ≡ some t
    → t.paused ≡ false
    → is_stale entries t ≡ false
unfolding is_stale
current_is_fresh entries t e p = rw (e, task_eq_refl t, p)

ids-append : (before after : List Task) → ids (before ++ after) ≡ ids before ++ ids after
ids-append before after = map-append (λ (t : Task). t.id) before after

pub due_is_fresh :
    (now : ℕ) (before rest : List Task)
    → Distinct (ids (before ++ rest))
    → any (is_stale (before ++ rest)) (due now rest) ≡ false
unfolding due
due_is_fresh now before [] d = refl
due_is_fresh now before (t ∷ rest) d =
    let regroup = append_assoc before (t ∷ []) rest in
    let ih : any (is_stale (before ++ t ∷ rest)) (due now rest) ≡ false =
      subst (λ l. any (is_stale l) (due now rest) ≡ false) regroup
        (due_is_fresh now (before ++ t ∷ []) rest
          (subst (λ l. Distinct (ids l)) (sym regroup) d)) in
    let there = find_task-append before t rest (
      Distinct-middle (ids before) t.id (ids rest)
        (subst Distinct (ids-append before (t ∷ rest)) d)) in
    ground (arith, ih, current_is_fresh (before ++ t ∷ rest) t there)
