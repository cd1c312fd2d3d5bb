-- ===== src/Storage/Memory/Listing.antt =====
-- src/storage/memory.rs: `one_line`, the catalog for the model, and the history page.
pub mod Numbered
pub mod Lines
use riddle.Prelude.{
  ℕ, ◌+◌, Bool, true, false, Option, none, some, List, [], ◌∷◌, ◌++◌, if◌then◌else◌, is_empty, take,
  reverse, ℤ, ◌≡◌, refl, not, filter_by, map,
}
use riddle.Text.{Text, lit, trim, is_whitespace}
use riddle.Text.Splitting.{cons_first}
use riddle.Text.Decimal.{print}
use riddle.Storage.Memory.{Entry}
use riddle.Storage.Memory.Dates.{spoken_date}

-- The pieces between characters of white space.
unfoldable pub pieces : Text → List Text
pieces [] = [] ∷ []
pieces (c ∷ s) = let rest = pieces s in if is_whitespace c then [] ∷ rest else cons_first c rest

-- `s.split_whitespace()`: the pieces that are not empty.
unfoldable pub split_whitespace : Text → List Text
unfolding pieces
split_whitespace s = filter_by (λ w. not (is_empty w)) (pieces s)

-- `.join(" ")`
unfoldable pub join_spaces : List Text → Text
join_spaces [] = []
join_spaces (w ∷ []) = w
join_spaces (w ∷ v ∷ ws) = w ++ b' ' ∷ join_spaces (v ∷ ws)

unfoldable pub one_line : Text → ℕ → Text
unfolding split_whitespace join_spaces
one_line s maximum = take maximum (join_spaces (split_whitespace s))

abbrev pub gist : Entry → Text
gist e =
    if is_empty (trim e.transcript)
    then lit "(reply: " ++ one_line e.reply 70 ++ lit ")"
    else one_line e.transcript 70

-- `format!("{}. {} — {}", i + 1, spoken_date(e.id), gist)`
abbrev pub catalog_line : ℕ → Entry → Text → Text
catalog_line number e date = print number ++ lit ". " ++ date ++ lit " — " ++ gist e

abbrev pub add_line : ℕ → Entry → Option Text → Option (List Text) → Option (List Text)
add_line number e (some date) (some rest) = some (catalog_line number e date ∷ rest)
add_line number e _ _ = none

-- The lines of the loop of `catalog`, from this number; `none` where `spoken_date` panics.
unfoldable pub catalog_lines : ℤ → ℕ → List Entry → Option (List Text)
unfolding one_line
catalog_lines offset number [] = some []
catalog_lines offset number (e ∷ es) =
    add_line number e (spoken_date offset e.id) (catalog_lines offset (number + 1) es)

abbrev pub with_ids : List Entry → Option (List Text) → Option (List Text × List ℕ)
with_ids es none = none
with_ids es (some lines) = some (lines, map (λ (e : Entry). e.id) es)

unfoldable pub catalog : ℤ → ℕ → List Entry → Option (List Text × List ℕ)
unfolding catalog_lines
catalog offset maximum entries =
    with_ids (take maximum (reverse entries))
      (catalog_lines offset 1 (take maximum (reverse entries)))

abbrev pub panel_line : ℕ → Entry → Text
panel_line number e =
    print number ++ lit "  你：" ++ one_line e.transcript 36 ++ lit "  MP：" ++ one_line e.reply 44

unfoldable pub panel_rows : ℕ → List Entry → List Text
unfolding one_line
panel_rows number [] = []
panel_rows number (e ∷ es) = panel_line number e ∷ panel_rows (number + 1) es

unfoldable pub panel_lines : ℕ → List Entry → List Text
unfolding panel_rows
panel_lines maximum entries = panel_rows 1 (take maximum (reverse entries))

one_line_runs : one_line (lit " tea\n and\t\tcake ") 9 ≡ lit "tea and c"
unfolding one_line is_whitespace filter_by take
one_line_runs = refl
