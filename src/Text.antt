-- ===== src/Text.antt =====
-- Rust's text, as the stores and the command parsers use it: a list of Unicode scalar values, with
-- the standard library's `trim`, `split`, `lines`, `strip_prefix`, `replace` and byte lengths.
pub mod Splitting
pub mod Decimal
pub mod Trimming
pub mod Equality
use Prim.Native.Char.{code}
use Prim.Native.String.{String}
use riddle.Prelude.{
  ℕ, ◌+◌, ◌-◌, ◌≡◌, refl, Bool, true, false, ◌&&◌, ◌||◌, Option, none, some, List, [], ◌∷◌, ◌++◌,
  ltb, leb, ◌==◌, if◌then◌else◌, is_empty, map, zero, suc,
}

abbrev pub Text : Type 0
Text = List ℕ

-- A literal of the source.
abbrev pub lit : String → Text
lit String.[] = []
lit (String.◌∷◌ c s) = code c ∷ lit s

-- `char::is_whitespace`
unfoldable pub is_whitespace : ℕ → Bool
is_whitespace c =
    leb 9 c && leb c 13
    || c == 0x20
    || c == 0x85
    || c == 0xA0
    || c == 0x1680
    || leb 0x2000 c && leb c 0x200A
    || c == 0x2028
    || c == 0x2029
    || c == 0x202F
    || c == 0x205F
    || c == 0x3000

-- `matches!(c, …)` over a list of characters.
unfoldable pub one_of : Text → ℕ → Bool
one_of [] c = false
one_of (d ∷ ds) c = c == d || one_of ds c

-- `u8::is_ascii_digit`
abbrev pub is_digit : ℕ → Bool
is_digit c = leb 48 c && leb c 57

-- `char::is_ascii_alphanumeric`
abbrev pub is_alphanumeric : ℕ → Bool
is_alphanumeric c = is_digit c || leb 65 c && leb c 90 || leb 97 c && leb c 122

-- `char::len_utf8`
unfoldable pub len_utf8 : ℕ → ℕ
len_utf8 c = if ltb c 0x80 then 1 else if ltb c 0x800 then 2 else if ltb c 0x10000 then 3 else 4

-- `str::len`: bytes.
unfoldable pub byte_len : Text → ℕ
unfolding len_utf8
byte_len [] = 0
byte_len (c ∷ s) = len_utf8 c + byte_len s

-- `str::trim_start_matches`
unfoldable pub trim_start_matches : (ℕ → Bool) → Text → Text
trim_start_matches p [] = []
trim_start_matches p (c ∷ s) = let rest = trim_start_matches p s in if p c then rest else c ∷ s

abbrev pub cons_unless : Bool → ℕ → Text → Text
cons_unless b c [] = if b then [] else c ∷ []
cons_unless b c (d ∷ s) = c ∷ d ∷ s

-- `str::trim_end_matches`
unfoldable pub trim_end_matches : (ℕ → Bool) → Text → Text
trim_end_matches p [] = []
trim_end_matches p (c ∷ s) = cons_unless (p c) c (trim_end_matches p s)

-- `str::trim_matches`, `str::trim`, `str::trim_start`
unfoldable pub trim_matches : (ℕ → Bool) → Text → Text
unfolding trim_start_matches trim_end_matches
trim_matches p s = trim_end_matches p (trim_start_matches p s)

abbrev pub trim : Text → Text
trim s = trim_matches is_whitespace s

abbrev pub trim_start : Text → Text
trim_start s = trim_start_matches is_whitespace s

abbrev pub cons_front : ℕ → Option (Text × Text) → Option (Text × Text)
cons_front c none = none
cons_front c (some (front, rest)) = some (c ∷ front, rest)

-- `text.get(..n)` with `&text[n..]`: `none` past the end and inside a character.
unfoldable pub split_bytes : ℕ → Text → Option (Text × Text)
unfolding len_utf8
split_bytes zero s = some ([], s)
split_bytes (suc n) [] = none
split_bytes (suc n) (c ∷ s) =
    let rest = split_bytes (suc n - len_utf8 c) s in
    if leb (len_utf8 c) (suc n) then cons_front c rest else none

-- `str::strip_prefix`
unfoldable pub strip_prefix : Text → Text → Option Text
strip_prefix [] s = some s
strip_prefix (p ∷ ps) [] = none
strip_prefix (p ∷ ps) (c ∷ s) = if p == c then strip_prefix ps s else none

-- `prefixes.iter().find_map(|prefix| text.strip_prefix(prefix))`
unfoldable pub strip_any_prefix : Text → List Text → Option Text
unfolding strip_prefix
strip_any_prefix s [] = none
strip_any_prefix s (p ∷ ps) = elim (strip_prefix p s) [
  | some rest ↦ some rest
  | none ↦ strip_any_prefix s ps
]

-- `str::replace` of one character.
unfoldable pub replace : ℕ → Text → Text → Text
replace from to [] = []
replace from to (c ∷ s) = (if c == from then to else c ∷ []) ++ replace from to s

-- The same text, character by character.
unfoldable pub text_eq : Text → Text → Bool
text_eq [] [] = true
text_eq (c ∷ s) (d ∷ t) = c == d && text_eq s t
text_eq _ _ = false

-- `u8::to_ascii_lowercase`, for `eq_ignore_ascii_case`.
abbrev pub ascii_lower : ℕ → ℕ
ascii_lower c = if leb 65 c && leb c 90 then c + 32 else c

unfoldable pub eq_ignore_ascii_case : Text → Text → Bool
unfolding text_eq
eq_ignore_ascii_case s t = text_eq (map ascii_lower s) (map ascii_lower t)
