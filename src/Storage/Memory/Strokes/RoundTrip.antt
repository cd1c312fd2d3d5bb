-- ===== src/Storage/Memory/Strokes/RoundTrip.antt =====
-- The strokes that `try_append` of src/storage/memory.rs writes are the ones that `strokes` reads.
use riddle.Prelude.{
  ℕ, ◌≤◌, ◌≡◌, ◌≢◌, refl, sym, ap, ◌∙◌, Bool, false, ◌||◌, some, List, [], ◌∷◌, ◌==◌, All, last?,
  arith, suc, ℤ, pos, negsuc, ◌≤ℤ◌, i32_min, i32_max,
}
use riddle.Text.{Text}
use riddle.Text.Splitting.{
  Lacks, Lacks-append, split, split-Lacks, split-append, lines, lines-append,
}
use riddle.Text.Decimal.{
  u64_max, is_decimal, IsDecimal, IsDecimal-head, parse_digits, print, print-IsDecimal,
  print-ne-nil, parse-print,
}
use riddle.Storage.Memory.Strokes.{
  StrokePoint, Stroke, print_i32, parse_i32, print_point, print_stroke, print_strokes, parse_fields,
  parse_points, parse_lines, parse_strokes,
}

-- The characters of numbers, points and strokes.
abbrev numeral : ℕ → Bool
numeral c = c == b'-' || is_decimal c

abbrev stroke_char : ℕ → Bool
stroke_char c = numeral c || c == b',' || c == b';'

IsDecimal-Lacks : (sep : ℕ) (s : Text) → numeral sep ≡ false → IsDecimal s → Lacks sep s
IsDecimal-Lacks sep [] h d = tt
IsDecimal-Lacks sep (c ∷ s) h d = (ground (arith, d.0), IsDecimal-Lacks sep s h d.1)

print_i32-Lacks : (sep : ℕ) (n : ℤ) → numeral sep ≡ false → Lacks sep (print_i32 n)
unfolding print_i32
print_i32-Lacks sep (pos n) h = IsDecimal-Lacks sep (print n) h (print-IsDecimal n)
print_i32-Lacks sep (negsuc n) h =
    (ground arith, IsDecimal-Lacks sep (print (suc n)) h (print-IsDecimal (suc n)))

parse_digits-print : (n : ℕ) → n ≤ u64_max → parse_digits 0 (print n) ≡ some n
parse_digits-print n h =
    sym (IsDecimal-head (print n) (print-IsDecimal n) (print-ne-nil n)) ∙ parse-print n h

parse_i32-unsigned :
    (s : Text) (n : ℕ)
    → IsDecimal s
    → s ≢ []
    → n ≤ 2147483647
    → parse_digits 0 s ≡ some n
    → parse_i32 s ≡ some (pos n)
unfolding parse_i32
parse_i32-unsigned [] n d e h p = absurd (e refl)
parse_i32-unsigned (c ∷ []) n d e h p = rw p (ground arith)
parse_i32-unsigned (c ∷ c' ∷ s) n d e h p =
    let no_minus : (c == b'-') ≡ false = ground (arith, d.0) in
    let no_plus : (c == b'+') ≡ false = ground (arith, d.0) in
    rw (no_minus, no_plus, p) (ground arith)

parse_i32-minus :
    (s : Text) (n : ℕ)
    → s ≢ []
    → n ≤ 2147483647
    → parse_digits 0 s ≡ some (suc n)
    → parse_i32 (b'-' ∷ s) ≡ some (negsuc n)
unfolding parse_i32
parse_i32-minus [] n e h p = absurd (e refl)
parse_i32-minus (c ∷ s) n e h p = rw p (ground arith)

abbrev pub Is32 : ℤ → Type 0
Is32 n = (i32_min ≤ℤ n) × (n ≤ℤ i32_max)

parse_i32-print_i32 : (n : ℤ) → Is32 n → parse_i32 (print_i32 n) ≡ some n
unfolding print_i32
parse_i32-print_i32 (pos n) h =
    parse_i32-unsigned (print n) n (print-IsDecimal n) (print-ne-nil n) (omega (arith, h.1))
      (parse_digits-print n (omega (arith, h.1)))
parse_i32-print_i32 (negsuc n) h =
    parse_i32-minus (print (suc n)) n (print-ne-nil (suc n)) (omega (arith, h.0))
      (parse_digits-print (suc n) (omega (arith, h.0)))

abbrev pub IsPoint : StrokePoint → Type 0
IsPoint p = Is32 p.x × Is32 p.y × Is32 p.r

parse_fields-print_point :
    (p : StrokePoint) → IsPoint p → parse_fields (split b',' (print_point p)) ≡ some p
unfolding print_point parse_fields
parse_fields-print_point p (hx, hy, hr) =
    rw (split-append b',' (print_i32 p.x) _ (print_i32-Lacks b',' p.x refl)) (
      rw (split-append b',' (print_i32 p.y) _ (print_i32-Lacks b',' p.y refl)) (
        rw (split-Lacks b',' (print_i32 p.r) (print_i32-Lacks b',' p.r refl)) (
          rw (parse_i32-print_i32 p.x hx, parse_i32-print_i32 p.y hy, parse_i32-print_i32 p.r hr)
            refl)))

print_point-Lacks :
    (sep : ℕ) (p : StrokePoint)
    → numeral sep ≡ false
    → (b',' == sep) ≡ false
    → Lacks sep (print_point p)
unfolding print_point
print_point-Lacks sep p h k = Lacks-append sep (print_i32 p.x) _ (print_i32-Lacks sep p.x h) (
  k,
  Lacks-append sep (print_i32 p.y) _ (print_i32-Lacks sep p.y h) (k, print_i32-Lacks sep p.r h),
)

print_stroke-Lacks :
    (sep : ℕ) (s : Stroke)
    → numeral sep ≡ false
    → (b',' == sep) ≡ false
    → (b';' == sep) ≡ false
    → Lacks sep (print_stroke s)
unfolding print_stroke
print_stroke-Lacks sep [] h k l = tt
print_stroke-Lacks sep (p ∷ []) h k l = print_point-Lacks sep p h k
print_stroke-Lacks sep (p ∷ q ∷ s) h k l =
    Lacks-append sep (print_point p) _ (print_point-Lacks sep p h k)
      (l, print_stroke-Lacks sep (q ∷ s) h k l)

-- A stroke that `decimate` leaves in the file.
abbrev pub IsStroke : Stroke → Type 0
IsStroke s = All IsPoint s × (s ≢ [])

cons-ne-nil : (p : StrokePoint) (s : Stroke) → p ∷ s ≢ []
cons-ne-nil p s e = cc

parse_points-print_stroke :
    (s : Stroke) → IsStroke s → parse_points (split b';' (print_stroke s)) ≡ s
unfolding print_stroke parse_points
parse_points-print_stroke [] (h, e) = absurd (e refl)
parse_points-print_stroke (p ∷ []) (h, e) =
    rw (split-Lacks b';' (print_point p) (print_point-Lacks b';' p refl refl))
      (rw (parse_fields-print_point p h.0) refl)
parse_points-print_stroke (p ∷ q ∷ s) (h, e) =
    rw (split-append b';' (print_point p) _ (print_point-Lacks b';' p refl refl)) (
      rw (parse_fields-print_point p h.0, parse_points-print_stroke (q ∷ s) (h.1, cons-ne-nil q s))
        refl)

Lacks-last : (c : ℕ) (s : Text) → Lacks c s → last? s ≢ some c
Lacks-last c [] h e = cc
Lacks-last c (d ∷ []) h e = ground (arith, h.0)
Lacks-last c (d ∷ d' ∷ s) h e = Lacks-last c (d' ∷ s) h.1 e

parse_lines-cons :
    (l : Text) (ls : List Text) (p : StrokePoint) (s : Stroke)
    → parse_points (split b';' l) ≡ p ∷ s
    → parse_lines (l ∷ ls) ≡ (p ∷ s) ∷ parse_lines ls
unfolding parse_lines
parse_lines-cons l ls p s h = rw h

-- Strokes that hold a point each, with coordinates of 32 bits, are read back from the text that they
-- are written as.
pub parse_strokes-print_strokes :
    (strokes : List Stroke) → All IsStroke strokes → parse_strokes (print_strokes strokes) ≡ strokes
unfolding print_strokes parse_strokes
parse_strokes-print_strokes [] h = unfold lines in unfold parse_lines in refl
parse_strokes-print_strokes ([] ∷ strokes) h = absurd (h.0.1 refl)
parse_strokes-print_strokes ((p ∷ s) ∷ strokes) h =
    rw
      (lines-append (print_stroke (p ∷ s)) (print_strokes strokes)
        (print_stroke-Lacks b'\n' (p ∷ s) refl refl refl)
        (Lacks-last b'\r' _ (print_stroke-Lacks b'\r' (p ∷ s) refl refl refl)))
      (parse_lines-cons _ _ p s (parse_points-print_stroke (p ∷ s) h.0)
        ∙ ap (λ rest. (p ∷ s) ∷ rest) (parse_strokes-print_strokes strokes h.1))
