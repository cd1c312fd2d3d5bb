-- ===== src/Storage/Memory/Listing/Lines.antt =====
-- The lines of the catalog of src/storage/memory.rs: one entry per line.
use riddle.Prelude.{
  ℕ, ◌+◌, ◌≡◌, refl, ap, Bool, false, Option, none, some, List, [], ◌∷◌, ◌++◌, is_empty, take,
  reverse, ℤ, length, get_elem?, ◌-◌, All, filter_by, zero, suc, arith, Bool-cases, inl, inr,
}
use riddle.Text.{Text, lit, trim, is_whitespace}
use riddle.Text.Splitting.{cons_first, Lacks, Lacks-append}
use riddle.Text.Decimal.{print, print-Lacks}
use mathlib.Core.Path.{subst}
use riddle.Storage.Index.Changes.{All-get_elem?}
use riddle.Storage.Memory.{Entry, ids}
use riddle.Storage.Memory.Dates.{
  CivilDate, local_secs, suffix, time_of_day, months, spoken_with, spoken_civil, civil, spoken_date,
}
use riddle.Storage.Memory.Dates.Spoken.{spoken_date-some}
use riddle.Storage.Memory.Listing.{
  pieces, split_whitespace, join_spaces, one_line, gist, catalog_line, catalog_lines, with_ids,
  catalog,
}

abbrev OneLine : Text → Type 0
OneLine = Lacks b'\n'

cons_first-OneLine :
    (c : ℕ) (ps : List Text)
    → is_whitespace c ≡ false
    → All OneLine ps
    → All OneLine (cons_first c ps)
unfolding is_whitespace
cons_first-OneLine c [] h k = ((ground arith, tt), tt)
cons_first-OneLine c (p ∷ ps) h k = ((ground arith, k.0), k.1)

pieces-OneLine : (s : Text) → All OneLine (pieces s)
unfolding pieces
pieces-OneLine [] = (tt, tt)
pieces-OneLine (c ∷ s) = elim (Bool-cases (is_whitespace c)) [
  | inl h ↦ rw h (tt, pieces-OneLine s)
  | inr h ↦ rw h (cons_first-OneLine c (pieces s) h (pieces-OneLine s))
]

filter_by-OneLine :
    (p : Text → Bool) (ws : List Text) → All OneLine ws → All OneLine (filter_by p ws)
unfolding filter_by
filter_by-OneLine p [] h = tt
filter_by-OneLine p (w ∷ ws) h = elim (Bool-cases (p w)) [
  | inl k ↦ rw k (h.0, filter_by-OneLine p ws h.1)
  | inr k ↦ rw k (filter_by-OneLine p ws h.1)
]

join_spaces-OneLine : (ws : List Text) → All OneLine ws → OneLine (join_spaces ws)
unfolding join_spaces
join_spaces-OneLine [] h = tt
join_spaces-OneLine (w ∷ []) h = h.0
join_spaces-OneLine (w ∷ v ∷ ws) h =
    Lacks-append b'\n' w _ h.0 (refl, join_spaces-OneLine (v ∷ ws) h.1)

take-OneLine : (n : ℕ) (s : Text) → OneLine s → OneLine (take n s)
unfolding take
take-OneLine zero s h = tt
take-OneLine (suc n) [] h = tt
take-OneLine (suc n) (c ∷ s) h = (h.0, take-OneLine n s h.1)

joined : (s t : Text) → OneLine s → OneLine t → OneLine (s ++ t)
joined s t h k = Lacks-append b'\n' s t h k

-- `one_line` leaves no newline.
pub one_line-OneLine : (s : Text) (n : ℕ) → OneLine (one_line s n)
unfolding one_line split_whitespace
one_line-OneLine s n =
    take-OneLine n _ (join_spaces-OneLine _ (filter_by-OneLine _ (pieces s) (pieces-OneLine s)))

gist-OneLine : (e : Entry) → OneLine (gist e)
gist-OneLine e = elim (Bool-cases (is_empty (trim e.transcript))) [
  | inl h ↦
      let reply = joined (lit "(reply: ") _ (ground arith) (one_line-OneLine e.reply 70) in
      rw h (joined (lit "(reply: " ++ one_line e.reply 70) (lit ")") reply (ground arith))
  | inr h ↦ rw h (one_line-OneLine e.transcript 70)
]

suffix-OneLine : (d : ℕ) → OneLine (suffix d)
unfolding suffix
suffix-OneLine d = ground arith

time_of_day-OneLine : (h : ℕ) → OneLine (time_of_day h)
unfolding time_of_day
time_of_day-OneLine h = ground arith

months-OneLine : All OneLine months
months-OneLine = ground arith

abbrev WhereSome : Option Text → Type 0
WhereSome none = Unit
WhereSome (some t) = OneLine t

month-OneLine : (o : Option Text) (i : ℕ) → get_elem? months i ≡ o → WhereSome o
month-OneLine none i h = tt
month-OneLine (some month) i h = All-get_elem? OneLine i months month months-OneLine h

spoken_with-OneLine : (d h : ℕ) (o : Option Text) → WhereSome o → WhereSome (spoken_with d h o)
spoken_with-OneLine d h none k = tt
spoken_with-OneLine d h (some month) k =
    let t1 = lit "the " ++ print d in
    let t2 = t1 ++ suffix d in
    let t3 = t2 ++ lit " of " in
    let t4 = t3 ++ month in
    let h1 : OneLine t1 =
      joined (lit "the ") (print d) (ground arith) (print-Lacks b'\n' d (omega arith)) in
    let h2 : OneLine t2 = joined t1 (suffix d) h1 (suffix-OneLine d) in
    let h3 : OneLine t3 = joined t2 (lit " of ") h2 (ground arith) in
    let h4 : OneLine t4 = joined t3 month h3 k in
    joined (t4 ++ lit ", ") (time_of_day h) (joined t4 (lit ", ") h4 (ground arith))
      (time_of_day-OneLine h)

spoken_civil-OneLine : (c : CivilDate) → WhereSome (spoken_civil c)
spoken_civil-OneLine c = spoken_with-OneLine c.day c.hour _ (month-OneLine _ (c.month - 1) refl)

spoken_date-OneLine : (offset : ℤ) (id : ℕ) (t : Text) → spoken_date offset id ≡ some t → OneLine t
unfolding spoken_date
spoken_date-OneLine offset id t h =
    subst WhereSome h (spoken_civil-OneLine (civil (local_secs offset id)))

catalog_line-OneLine :
    (number : ℕ) (e : Entry) (date : Text) → OneLine date → OneLine (catalog_line number e date)
catalog_line-OneLine number e date h =
    let t1 = print number ++ lit ". " in
    let h1 : OneLine t1 =
      joined (print number) (lit ". ") (print-Lacks b'\n' number (omega arith)) (ground arith) in
    let h2 : OneLine (t1 ++ date) = joined t1 date h1 h in
    joined (t1 ++ date ++ lit " — ") (gist e) (joined (t1 ++ date) (lit " — ") h2 (ground arith))
      (gist-OneLine e)

-- A line for each entry.
record Lines (es : List Entry) (lines : List Text) : Type 0 where
  single : All OneLine lines
  each : length lines ≡ length es

catalog_lines-Lines :
    (offset : ℤ) (number : ℕ) (es : List Entry)
    → (lines : List Text) × (catalog_lines offset number es ≡ some lines) × Lines es lines
unfolding catalog_lines
catalog_lines-Lines offset number [] = ([], refl, record { single = tt; each = refl })
catalog_lines-Lines offset number (e ∷ es) =
    let (date, spoken) = spoken_date-some offset e.id in
    let (rest, found, l) = catalog_lines-Lines offset (number + 1) es in
    (
      catalog_line number e date ∷ rest,
      rw (spoken, found) refl,
      record {
        single = (
          catalog_line-OneLine number e date (spoken_date-OneLine offset e.id date spoken),
          l.single,
        );
        each = ap suc l.each;
      },
    )

-- The catalog never panics: it has the newest `maximum` pages, newest first, with a line for each id,
-- and no line holds a newline.
pub catalog-lines :
    (offset : ℤ) (maximum : ℕ) (entries : List Entry)
    → (lines : List Text) × (catalog offset maximum entries
        ≡ some (lines, ids (take maximum (reverse entries))))
      × (length lines ≡ length (take maximum (reverse entries)))
      × All (Lacks b'\n') lines
unfolding catalog
catalog-lines offset maximum entries =
    let (lines, found, l) = catalog_lines-Lines offset 1 (take maximum (reverse entries)) in
    (lines, ap (with_ids (take maximum (reverse entries))) found, l.each, l.single)
