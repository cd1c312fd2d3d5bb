-- ===== src/Storage/Memory/Strokes.antt =====
-- src/storage/memory.rs: the strokes of a page, thinned (`decimate`), written (the loop of
-- `try_append`) and read (`strokes`).
pub mod RoundTrip
pub mod Thinning
use riddle.Prelude.{
  ℕ, ◌+◌, ◌*◌, ◌||◌, ◌&&◌, Bool, true, false, Option, none, some, List, [], ◌∷◌, ◌++◌, ltb, leb,
  ◌==◌, if◌then◌else◌, is_empty, map, suc, zero, ◌≡◌, refl, ℤ, pos, negsuc, ◌-ℤ◌, wrap_i32,
  pos_part, neg_part, Result, ok, err,
}
use riddle.Text.{Text, lit}
use riddle.Text.Splitting.{split, lines}
use riddle.Text.Decimal.{parse_digits, print}
use riddle.Storage.Persistence.{ReadError, read_optional_utf8}
use riddle.Storage.Memory.{MemoryStore, max_strokes_bytes}

-- `(i32, i32, i32)`
pub record StrokePoint : Type 0 where
  pub x : ℤ
  pub y : ℤ
  pub r : ℤ

abbrev pub Stroke : Type 0
Stroke = List StrokePoint

abbrev min_point_dist2 : ℕ
min_point_dist2 = 9

-- `dx * dx`
abbrev pub square : ℤ → ℕ
square d = (pos_part d + neg_part d) * (pos_part d + neg_part d)

-- `dx * dx + dy * dy >= MIN_POINT_DIST2`, where a sum beyond `i64` wraps to a negative one.
abbrev pub far : ℤ → ℤ → Bool
far dx dy =
    leb min_point_dist2 (square dx + square dy) && ltb (square dx + square dy) 0x8000000000000000

-- The points are too far apart to merge; `x - lx` is an `i32`.
unfoldable pub apart : StrokePoint → StrokePoint → Bool
apart p q = far (wrap_i32 (q.x -ℤ p.x)) (wrap_i32 (q.y -ℤ p.y))

-- The match on `out.last()`.
abbrev pub keep_point : Option StrokePoint → StrokePoint → Bool → Bool
keep_point none q is_last = true
keep_point (some p) q is_last = apart p q || is_last

-- The loop of `decimate` over one stroke, from the last point that was kept.
unfoldable pub thin : Option StrokePoint → Stroke → Stroke
thin last [] = []
thin last (q ∷ rest) =
    let kept = thin (some q) rest in
    let skipped = thin last rest in if keep_point last q (is_empty rest) then q ∷ kept else skipped

abbrev keep_nonempty : Stroke → List Stroke → List Stroke
keep_nonempty [] rest = rest
keep_nonempty (p ∷ s) rest = (p ∷ s) ∷ rest

unfoldable pub decimate : List Stroke → List Stroke
unfolding thin
decimate [] = []
decimate (s ∷ strokes) = keep_nonempty (thin none s) (decimate strokes)

-- `format!("{}", n)` of an `i32`
unfoldable pub print_i32 : ℤ → Text
print_i32 (pos n) = print n
print_i32 (negsuc n) = b'-' ∷ print (suc n)

abbrev positive_i32 : Option ℕ → Option ℤ
positive_i32 none = none
positive_i32 (some n) = if leb n 2147483647 then some (pos n) else none

abbrev pub negated : ℕ → ℤ
negated zero = pos 0
negated (suc n) = negsuc n

abbrev negative_i32 : Option ℕ → Option ℤ
negative_i32 none = none
negative_i32 (some n) = if leb n 2147483648 then some (negated n) else none

-- `str::parse::<i32>`: digits with an optional sign, in range.
unfoldable pub parse_i32 : Text → Option ℤ
unfolding parse_digits
parse_i32 [] = none
parse_i32 (c ∷ []) = positive_i32 (parse_digits 0 (c ∷ []))
parse_i32 (c ∷ d ∷ s) =
    if c == b'-'
    then negative_i32 (parse_digits 0 (d ∷ s))
    else if c == b'+'
    then positive_i32 (parse_digits 0 (d ∷ s))
    else positive_i32 (parse_digits 0 (c ∷ d ∷ s))

-- `format!("{x},{y},{r}")`
unfoldable pub print_point : StrokePoint → Text
unfolding print_i32
print_point p = print_i32 p.x ++ b',' ∷ (print_i32 p.y ++ b',' ∷ print_i32 p.r)

unfoldable pub print_stroke : Stroke → Text
unfolding print_point
print_stroke [] = []
print_stroke (p ∷ []) = print_point p
print_stroke (p ∷ q ∷ s) = print_point p ++ b';' ∷ print_stroke (q ∷ s)

unfoldable pub print_strokes : List Stroke → Text
unfolding print_stroke
print_strokes [] = []
print_strokes (s ∷ strokes) = print_stroke s ++ b'\n' ∷ print_strokes strokes

abbrev point_of : Option ℤ → Option ℤ → Option ℤ → Option StrokePoint
point_of (some x) (some y) (some r) = some (record { x = x; y = y; r = r })
point_of _ _ _ = none

-- The first three fields of `pt.split(',')`; further fields are ignored.
unfoldable pub parse_fields : List Text → Option StrokePoint
unfolding parse_i32
parse_fields (x ∷ y ∷ r ∷ _) = point_of (parse_i32 x) (parse_i32 y) (parse_i32 r)
parse_fields _ = none

abbrev push_point : Option StrokePoint → Stroke → Stroke
push_point none s = s
push_point (some p) s = p ∷ s

-- The loop over `line.split(';')`: what is no point is left out.
unfoldable pub parse_points : List Text → Stroke
unfolding parse_fields
parse_points [] = []
parse_points (pt ∷ pts) = push_point (parse_fields (split b',' pt)) (parse_points pts)

unfoldable pub parse_lines : List Text → List Stroke
unfolding parse_points
parse_lines [] = []
parse_lines (l ∷ ls) = keep_nonempty (parse_points (split b';' l)) (parse_lines ls)

-- The strokes of a file that was read.
unfoldable pub parse_strokes : Text → List Stroke
unfolding parse_lines
parse_strokes t = parse_lines (lines t)

abbrev found_strokes : Result ReadError (Option Text) → Option (List Stroke)
found_strokes (err e) = none
found_strokes (ok none) = none
found_strokes (ok (some t)) = some (parse_strokes t)

-- `MemoryStore::strokes`
unfoldable pub load_strokes : Bool → ℕ → MemoryStore → Option (List Stroke)
unfolding parse_strokes
load_strokes read_fails id s =
    found_strokes (read_optional_utf8 read_fails (s.strokes id).index max_strokes_bytes)

parse_strokes_runs :
    parse_strokes (lit "1,-2,3;4,5\n;\n+7,8,9,10\n")
    ≡ (record { x = pos 1; y = negsuc 1; r = pos 3 } ∷ [])
      ∷ (record { x = pos 7; y = pos 8; r = pos 9 } ∷ [])
      ∷ []
unfolding parse_strokes lines split
parse_strokes_runs = refl
