-- ===== src/Text/Splitting.antt =====
-- `str::split` at a character and `str::lines`, and that they undo joining.
use riddle.Prelude.{
  ℕ, ◌≡◌, ◌≢◌, refl, ap, false, Option, none, some, List, [], ◌∷◌, ◌++◌, ◌==◌, if◌then◌else◌, All,
  arith, last?, map,
}

-- `c` goes in front of the first piece.
abbrev pub cons_first : ℕ → List (List ℕ) → List (List ℕ)
cons_first c [] = (c ∷ []) ∷ []
cons_first c (p ∷ ps) = (c ∷ p) ∷ ps

-- `s.split(sep)`: never empty.
unfoldable pub split : ℕ → List ℕ → List (List ℕ)
split sep [] = [] ∷ []
split sep (c ∷ s) = let rest = split sep s in if c == sep then [] ∷ rest else cons_first c rest

-- `s.split_inclusive('\n')`: each piece keeps its newline, and no empty piece follows the last one.
unfoldable pub split_inclusive : List ℕ → List (List ℕ)
split_inclusive [] = []
split_inclusive (c ∷ s) =
    let rest = split_inclusive s in if c == b'\n' then (c ∷ []) ∷ rest else cons_first c rest

-- `s.strip_suffix(c)`
unfoldable pub strip_last : ℕ → List ℕ → Option (List ℕ)
strip_last c [] = none
strip_last c (d ∷ []) = if d == c then some [] else none
strip_last c (d ∷ e ∷ s) = elim (strip_last c (e ∷ s)) [ none ↦ none | some t ↦ some (d ∷ t) ]

-- A newline, and a carriage return in front of it, are no part of the line.
unfoldable pub line_content : List ℕ → List ℕ
unfolding strip_last
line_content l = elim (strip_last b'\n' l) [
  | none ↦ l
  | some m ↦ elim (strip_last b'\r' m) [ none ↦ m | some k ↦ k ]
]

-- `s.lines()`
unfoldable pub lines : List ℕ → List (List ℕ)
unfolding split_inclusive line_content
lines s = map line_content (split_inclusive s)

-- The text holds no `sep`.
abbrev pub Lacks : ℕ → List ℕ → Type 0
Lacks sep = All (λ c. (c == sep) ≡ false)

pub Lacks-append : (sep : ℕ) (s t : List ℕ) → Lacks sep s → Lacks sep t → Lacks sep (s ++ t)
Lacks-append sep [] t h k = k
Lacks-append sep (c ∷ s) t h k = (h.0, Lacks-append sep s t h.1 k)

pub split-Lacks : (sep : ℕ) (s : List ℕ) → Lacks sep s → split sep s ≡ s ∷ []
unfolding split
split-Lacks sep [] h = refl
split-Lacks sep (c ∷ s) h = ground (arith, split-Lacks sep s h.1)

-- A piece, the separator and the rest.
pub split-append :
    (sep : ℕ) (s t : List ℕ) → Lacks sep s → split sep (s ++ sep ∷ t) ≡ s ∷ split sep t
unfolding split
split-append sep [] t h = ground arith
split-append sep (c ∷ s) t h = ground (arith, split-append sep s t h.1)

pub split_inclusive-append :
    (s t : List ℕ)
    → Lacks b'\n' s
    → split_inclusive (s ++ b'\n' ∷ t) ≡ (s ++ b'\n' ∷ []) ∷ split_inclusive t
unfolding split_inclusive
split_inclusive-append [] t h = refl
split_inclusive-append (c ∷ s) t h = ground (arith, split_inclusive-append s t h.1)

pub strip_last-append : (c : ℕ) (s : List ℕ) → strip_last c (s ++ c ∷ []) ≡ some s
unfolding strip_last
strip_last-append c [] = ground arith
strip_last-append c (d ∷ []) = ground (arith, strip_last-append c [])
strip_last-append c (d ∷ e ∷ s) = ground (arith, strip_last-append c (e ∷ s))

pub strip_last-none : (c : ℕ) (s : List ℕ) → last? s ≢ some c → strip_last c s ≡ none
unfolding strip_last
strip_last-none c [] h = refl
strip_last-none c (d ∷ []) h = ground arith
strip_last-none c (d ∷ e ∷ s) h = ground (arith, strip_last-none c (e ∷ s) h)

line_content-append : (s : List ℕ) → last? s ≢ some b'\r' → line_content (s ++ b'\n' ∷ []) ≡ s
unfolding line_content
line_content-append s e = ground (arith, strip_last-append b'\n' s, strip_last-none b'\r' s e)

-- A line that holds no newline and does not end in a carriage return is read back.
pub lines-append :
    (s t : List ℕ) → Lacks b'\n' s → last? s ≢ some b'\r' → lines (s ++ b'\n' ∷ t) ≡ s ∷ lines t
unfolding lines
lines-append s t h e =
    rw (split_inclusive-append s t h) (ap (λ l. l ∷ lines t) (line_content-append s e))
