-- ===== src/Storage/Index/Distinct.antt =====
-- Ids that stand once (`HashSet::insert` in both `load_unlocked`s), and the changes that keep them so.
use riddle.Prelude.{ℕ, ◌≡◌, refl, false, List, [], ◌∷◌, ◌++◌, ◌||◌, remove_at, zero, suc, arith}
use riddle.Storage.Index.{contains}

-- No id stands twice.
abbrev pub Distinct : List ℕ → Type 0
Distinct [] = Unit
Distinct (x ∷ xs) = (contains xs x ≡ false) × Distinct xs

pub contains-append :
    (xs ys : List ℕ) (v : ℕ) → contains (xs ++ ys) v ≡ (contains xs v || contains ys v)
contains-append [] ys v = refl
contains-append (x ∷ xs) ys v = ground (arith, contains-append xs ys v)

-- The head of the second part does not stand in the first.
pub Distinct-middle :
    (xs : List ℕ) (y : ℕ) (ys : List ℕ) → Distinct (xs ++ y ∷ ys) → contains xs y ≡ false
Distinct-middle [] y ys h = refl
Distinct-middle (x ∷ xs) y ys h =
    ground (arith, h.0, Distinct-middle xs y ys h.1, contains-append xs (y ∷ ys) x)

pub Distinct-append :
    (xs : List ℕ) (y : ℕ) → Distinct xs → contains xs y ≡ false → Distinct (xs ++ y ∷ [])
Distinct-append [] y d h = (refl, tt)
Distinct-append (x ∷ xs) y d h =
    (ground (arith, d.0, contains-append xs (y ∷ []) x), Distinct-append xs y d.1 (ground arith))

contains-remove_at :
    (i : ℕ) (xs : List ℕ) (v : ℕ) → contains xs v ≡ false → contains (remove_at i xs) v ≡ false
contains-remove_at i [] v h = refl
contains-remove_at zero (x ∷ xs) v h = ground arith
contains-remove_at (suc i) (x ∷ xs) v h = ground (arith, contains-remove_at i xs v)

pub Distinct-remove_at : (i : ℕ) (xs : List ℕ) → Distinct xs → Distinct (remove_at i xs)
Distinct-remove_at i [] d = tt
Distinct-remove_at zero (x ∷ xs) d = d.1
Distinct-remove_at (suc i) (x ∷ xs) d = (contains-remove_at i xs x d.0, Distinct-remove_at i xs d.1)
