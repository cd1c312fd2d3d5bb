-- ===== src/Storage/Index/Ids.antt =====
-- The id of a new entry (the `max` of `TaskCommand::Add` in src/storage/tasks/mod.rs and of
-- `add_from_transcript` in src/storage/todos.rs).
use riddle.Prelude.{
  ℕ, ◌≤◌, ◌<◌, ◌≡◌, refl, false, Option, none, some, List, [], ◌∷◌, max, All, arith,
}
use riddle.Text.Decimal.{u64_max, checked_add}
use riddle.Storage.Index.{contains}

abbrev pub max_option : ℕ → Option ℕ → ℕ
max_option i none = i
max_option i (some j) = max i j

-- `iter().max()`
unfoldable pub max_id : List ℕ → Option ℕ
max_id [] = none
max_id (i ∷ is) = some (max_option i (max_id is))

abbrev pub after_checked : ℕ → Option ℕ → Option ℕ
after_checked now none = none
after_checked now (some n) = some (max n now)

abbrev pub after_max : ℕ → Option ℕ → Option ℕ
after_max now none = some now
after_max now (some previous) = after_checked now (checked_add previous 1)

-- Above every id and not below the clock; `none` when the ids are used up.
unfoldable pub next_id : List ℕ → ℕ → Option ℕ
unfolding max_id
next_id is now = after_max now (max_id is)

-- Every id is below `i`.
abbrev pub Below : ℕ → List ℕ → Type 0
Below i = All (λ j. j < i)

abbrev pub Exceeds : Option ℕ → ℕ → Type 0
Exceeds none i = Unit
Exceeds (some m) i = m < i

max_option-Exceeds : (i j : ℕ) (o : Option ℕ) → max_option j o < i → (j < i) × Exceeds o i
max_option-Exceeds i j none h = (h, tt)
max_option-Exceeds i j (some m) h = (omega arith, omega arith)

pub max_id-Below : (i : ℕ) (is : List ℕ) → Exceeds (max_id is) i → Below i is
unfolding max_id
max_id-Below i [] h = tt
max_id-Below i (j ∷ is) h =
    let (first, rest) = max_option-Exceeds i j (max_id is) h in (first, max_id-Below i is rest)

pub contains-Below : (i : ℕ) (is : List ℕ) → Below i is → contains is i ≡ false
contains-Below i [] h = refl
contains-Below i (j ∷ is) h = ground (arith, h.0, contains-Below i is h.1)

after_max-some :
    (now i : ℕ) (o : Option ℕ)
    → after_max now o ≡ some i
    → now ≤ u64_max
    → Exceeds o i × (now ≤ i) × (i ≤ u64_max)
after_max-some now i none h fits = (tt, ground arith, ground arith)
after_max-some now i (some m) h fits = ground arith

-- With the clock a u64: an id that is handed out is above every id in use, not below the clock, and
-- a u64.
pub next_id_fresh :
    (is : List ℕ) (now i : ℕ)
    → next_id is now ≡ some i
    → now ≤ u64_max
    → Below i is × (now ≤ i) × (i ≤ u64_max)
unfolding next_id
next_id_fresh is now i h fits =
    let (above, not_early, id_fits) = after_max-some now i (max_id is) h fits in
    (max_id-Below i is above, not_early, id_fits)
