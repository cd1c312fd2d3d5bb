-- ===== src/Storage/Memory/Listing/Numbered.antt =====
-- The numbers of the history page of src/storage/memory.rs are those that `delete_number` takes.
use riddle.Prelude.{
  ℕ, ◌+◌, ◌-◌, ◌<◌, ◌≡◌, refl, ap, ◌∙◌, Option, none, some, List, [], ◌∷◌, ◌++◌, length, get_elem?,
  take, reverse, reverse-cons, length-reverse, zero, suc, arith,
}
use riddle.Text.{Text}
use riddle.Storage.Memory.{Entry}
use riddle.Storage.Memory.Listing.{panel_line, panel_rows, panel_lines}
use riddle.Storage.Memory.Appending.Deleting.{IsRow}

module _ {A : Type 0} where
  get_elem?-front :
      (xs ys : List A) (k : ℕ) → k < length xs → get_elem? (xs ++ ys) k ≡ get_elem? xs k
  get_elem?-front [] ys k h = absurd (omega arith)
  get_elem?-front (x ∷ xs) ys zero h = refl
  get_elem?-front (x ∷ xs) ys (suc k) h = get_elem?-front xs ys k (omega arith)

  get_elem?-end :
      (xs : List A) (x : A) (k : ℕ) → k ≡ length xs → get_elem? (xs ++ x ∷ []) k ≡ some x
  get_elem?-end [] x zero h = refl
  get_elem?-end [] x (suc k) h = absurd (omega arith)
  get_elem?-end (y ∷ xs) x zero h = absurd (omega arith)
  get_elem?-end (y ∷ xs) x (suc k) h = get_elem?-end xs x k (omega arith)

  -- The other end of a list.
  get_elem?-reverse :
      (xs : List A) (k i : ℕ) → k + i + 1 ≡ length xs → get_elem? (reverse xs) k ≡ get_elem? xs i
  get_elem?-reverse [] k i h = absurd (omega arith)
  get_elem?-reverse (x ∷ xs) k zero h =
      ap (λ l. get_elem? l k) (reverse-cons x xs)
      ∙ get_elem?-end (reverse xs) x k (omega (arith, length-reverse xs))
  get_elem?-reverse (x ∷ xs) k (suc i) h =
      ap (λ l. get_elem? l k) (reverse-cons x xs)
      ∙ get_elem?-front (reverse xs) (x ∷ []) k (omega (arith, length-reverse xs))
      ∙ get_elem?-reverse xs k i (omega arith)

  get_elem?-take : (n k : ℕ) (xs : List A) → k < n → get_elem? (take n xs) k ≡ get_elem? xs k
  unfolding take
  get_elem?-take zero k xs h = absurd (omega arith)
  get_elem?-take (suc n) k [] h = refl
  get_elem?-take (suc n) zero (x ∷ xs) h = refl
  get_elem?-take (suc n) (suc k) (x ∷ xs) h = get_elem?-take n k xs (omega arith)

get_elem?-panel_rows :
    (number k : ℕ) (es : List Entry) (e : Entry)
    → get_elem? es k ≡ some e
    → get_elem? (panel_rows number es) k ≡ some (panel_line (number + k) e)
unfolding panel_rows
get_elem?-panel_rows number k [] e h = cc
get_elem?-panel_rows number zero (e' ∷ es) e h =
    let same : number ≡ number + 0 = omega arith in
    ap (λ n. some (panel_line n e')) same ∙ ap (λ o. shown (number + 0) o) h
  where
    shown : ℕ → Option Entry → Option Text
    shown n none = none
    shown n (some x) = some (panel_line n x)
get_elem?-panel_rows number (suc k) (e' ∷ es) e h =
    let same : number + 1 + k ≡ number + suc k = omega arith in
    get_elem?-panel_rows (number + 1) k es e h ∙ ap (λ n. some (panel_line n e)) same

-- The page that `delete_number` takes for a number is the one that the history page shows in the row
-- of that number.
pub panel_lines-IsRow :
    (entries : List Entry) (number maximum : ℕ) (entry : Entry)
    → IsRow entries number maximum entry
    → get_elem? (panel_lines maximum entries) (number - 1) ≡ some (panel_line number entry)
unfolding panel_lines
panel_lines-IsRow entries number maximum entry h =
    let same : 1 + (number - 1) ≡ number = omega (arith, h.positive) in
    get_elem?-panel_rows 1 (number - 1) (take maximum (reverse entries)) entry (
      get_elem?-take maximum (number - 1) (reverse entries) (omega (arith, h.positive, h.visible))
      ∙ get_elem?-reverse entries (number - 1) (length entries - number)
          (omega (arith, h.positive, h.listed))
      ∙ h.there)
    ∙ ap (λ n. some (panel_line n entry)) same
