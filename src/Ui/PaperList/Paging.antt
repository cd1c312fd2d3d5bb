-- ===== src/Ui/PaperList/Paging.antt =====
-- The pages of a list (src/ui/paper_list.rs: `redraw` and the arm of `Gesture::Swipe`).
use native.Mathlib.Nat.{le-div_iff_mul-le}
use riddle.Prelude.{
  ℕ, ◌+◌, ◌-◌, ◌*◌, ◌/◌, ◌≤◌, ◌<◌, ◌≡◌, refl, sym, ap, ◌∙◌, List, [], ◌∷◌, ◌==◌, map, min, max,
  zero, suc, arith, Bool-cases, inl, inr, ◌⊎◌,
}
use riddle.Ui.PaperList.{PaperList, Row, Content, div_ceil, available, redraw, make_rows}

-- The numbers of `count` rows, from this one.
abbrev pub numbers_from : ℕ → ℕ → List ℕ
numbers_from number zero = []
numbers_from number (suc count) = number ∷ numbers_from (number + 1) count

abbrev pub row_numbers : List Row → List ℕ
row_numbers rows = map (λ (r : Row). r.number) rows

pub make_rows-numbers :
    (c : Content) (row_h index visible_index count : ℕ)
    → row_numbers (make_rows c row_h index visible_index count) ≡ numbers_from (index + 1) count
unfolding make_rows
make_rows-numbers c row_h index visible_index zero = refl
make_rows-numbers c row_h index visible_index (suc count) =
    ap (λ l. (index + 1) ∷ l) (make_rows-numbers c row_h (index + 1) (visible_index + 1) count)

-- A page of a list is one of its pages.
pub page-lt : (n size page : ℕ) → 1 ≤ size → 1 ≤ n → page ≤ div_ceil n size - 1 → page * size < n
page-lt n size page h k l =
    let one : 1 ≤ div_ceil n size = (le-div_iff_mul-le h).1 (omega arith) in
    let next : (page + 1) * size ≤ n + (size - 1) = (le-div_iff_mul-le h).0 (omega (arith, one)) in
    let tidy : (page + 1) * size ≡ page * size + size = grind arith in omega arith

pub lt-page : (n size page : ℕ) → 1 ≤ size → page * size < n → page ≤ div_ceil n size - 1
lt-page n size page h l =
    let tidy : (page + 1) * size ≡ page * size + size = grind arith in
    let next : page + 1 ≤ div_ceil n size = (le-div_iff_mul-le h).1 (omega arith) in omega arith

-- What is on the paper: the rows of one page of the entries, numbered as the entries are.
pub record IsShown (n : ℕ) (l : PaperList) : Type 0 where
  pub total : l.total_rows ≡ n
  pub sized : 1 ≤ l.page_size
  pub listed :
      row_numbers l.rows
      ≡ numbers_from (l.page * l.page_size + 1) (min l.page_size (n - l.page * l.page_size))
  pub inside : (n ≡ 0) ⊎ (l.page * l.page_size < n)

visible_count : (start size n : ℕ) → start < n → min (start + size) n - start ≡ min size (n - start)
visible_count start size n h = omega arith

-- `redraw` shows a page of the entries: a page that exists, whose slice is within them.
pub redraw-IsShown : (c : Content) (l : PaperList) → IsShown c.entry_count (redraw c l)
unfolding redraw
redraw-IsShown c l = elim (Bool-cases (c.entry_count == 0)) [
  | inl nothing ↦
      let e : c.entry_count ≡ 0 = ground arith in
      rw nothing (record {
        total = sym e;
        sized = omega arith;
        listed = nothing_listed c.entry_count e;
        inside = inl e;
      })
  | inr some_entries ↦
      let size = max (available c / 78) 1 in
      let page = min l.page (div_ceil c.entry_count size - 1) in
      let there : page * size < c.entry_count =
        page-lt c.entry_count size page (omega arith) (ground arith) (omega arith) in
      rw some_entries (record {
        total = refl;
        sized = omega arith;
        listed =
            make_rows-numbers c _ (page * size) 0 _
            ∙ ap (numbers_from (page * size + 1))
                (visible_count (page * size) size c.entry_count there);
        inside = inr there;
      })
]
  where
    nothing_listed : (n : ℕ) → n ≡ 0 → [] ≡ numbers_from (0 * 1 + 1) (min 1 (n - 0 * 1))
    nothing_listed zero h = refl
    nothing_listed (suc n) h = absurd (omega arith)
