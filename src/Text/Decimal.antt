-- ===== src/Text/Decimal.antt =====
-- Decimal numbers: `u64::to_string` and `str::parse::<u64>`.
use mathlib.Core.List.{append_assoc, append-nil}
use native.Mathlib.Nat.{pow-suc}
use riddle.Text.{byte_len, len_utf8}
use riddle.Text.Splitting.{Lacks}
use riddle.Prelude.{
  ◌≢◌, ◌∙◌, ℕ, zero, suc, ◌+◌, ◌-◌, ◌*◌, ◌/◌, ◌%◌, ◌^◌, ◌≤◌, ◌<◌, ◌≡◌, refl, Bool, true, ◌&&◌,
  Option, none, some, List, [], ◌∷◌, ◌++◌, ltb, leb, ◌==◌, if◌then◌else◌, arith, All, length,
  Bool-cases, inl, inr, length-append,
}

abbrev pub u64_max : ℕ
u64_max = 2 ^ 64 - 1

-- `u64::saturating_add`, `saturating_mul`, `checked_add`
abbrev pub saturating_add : ℕ → ℕ → ℕ
saturating_add a b = if leb (a + b) u64_max then a + b else u64_max

abbrev pub saturating_mul : ℕ → ℕ → ℕ
saturating_mul a b = if leb (a * b) u64_max then a * b else u64_max

abbrev pub checked_add : ℕ → ℕ → Option ℕ
checked_add a b = if leb (a + b) u64_max then some (a + b) else none

-- The digits of a number below `10 ^ fuel`.
unfoldable pub digits : ℕ → ℕ → List ℕ
digits zero n = []
digits (suc f) n =
    let front = digits f (n / 10) in if ltb n 10 then (48 + n) ∷ [] else front ++ (48 + n % 10) ∷ []

-- `format!("{}", n)`: a u64 has at most 20 digits.
unfoldable pub print : ℕ → List ℕ
unfolding digits
print n = digits 20 n

abbrev pub is_decimal : ℕ → Bool
is_decimal c = leb 48 c && leb c 57

-- The digits of a number, on from `acc`; `none` for another character and on overflow.
unfoldable pub parse_digits : ℕ → List ℕ → Option ℕ
parse_digits acc [] = some acc
parse_digits acc (c ∷ s) =
    let next = acc * 10 + (c - 48) in
    let rest = parse_digits next s in if is_decimal c && leb next u64_max then rest else none

-- `str::parse::<u64>`: digits, with an optional plus sign, and no overflow.
unfoldable pub parse : List ℕ → Option ℕ
unfolding parse_digits
parse [] = none
parse (c ∷ []) = parse_digits 0 (c ∷ [])
parse (c ∷ d ∷ s) = parse_digits 0 (if c == b'+' then d ∷ s else c ∷ d ∷ s)

abbrev pub IsDecimal : List ℕ → Type 0
IsDecimal = All (λ c. is_decimal c ≡ true)

IsDecimal-append : (s t : List ℕ) → IsDecimal s → IsDecimal t → IsDecimal (s ++ t)
IsDecimal-append [] t h k = k
IsDecimal-append (c ∷ s) t h k = (h.0, IsDecimal-append s t h.1 k)

digit_of : (n : ℕ) → is_decimal (48 + n % 10) ≡ true
digit_of n = ground arith

digits-IsDecimal : (f n : ℕ) → IsDecimal (digits f n)
unfolding digits
digits-IsDecimal zero n = tt
digits-IsDecimal (suc f) n = elim (Bool-cases (ltb n 10)) [
  | inl small ↦ rw small (ground arith, tt)
  | inr large ↦ rw large (
      IsDecimal-append (digits f (n / 10)) ((48 + n % 10) ∷ []) (digits-IsDecimal f (n / 10))
        (digit_of n, tt))
]

pub print-IsDecimal : (n : ℕ) → IsDecimal (print n)
unfolding print
print-IsDecimal n = digits-IsDecimal 20 n

length-digits : (f n : ℕ) → length (digits f n) ≤ f
unfolding digits
length-digits zero n = omega arith
length-digits (suc f) n =
    ground (arith, length-append (digits f (n / 10)) ((48 + n % 10) ∷ []), length-digits f (n / 10))

pub length-print : (n : ℕ) → length (print n) ≤ 20
unfolding print
length-print n = length-digits 20 n

div_fits : (n p : ℕ) → n < p * 10 → n / 10 < p
div_fits n p h = omega arith

parse_digits-digit :
    (acc d m : ℕ) (rest : List ℕ)
    → d < 10
    → acc * 10 + d ≡ m
    → m ≤ u64_max
    → parse_digits acc ((48 + d) ∷ rest) ≡ parse_digits m rest
unfolding parse_digits
parse_digits-digit acc d m rest small e fits =
    let tidy : acc * 10 + (48 + d - 48) ≡ m = omega arith in rw tidy (ground arith)

-- The digits of `n` are read as `n`, whatever follows them.
parse_digits-digits :
    (f n : ℕ) (rest : List ℕ)
    → n < 10 ^ suc f
    → n ≤ u64_max
    → parse_digits 0 (digits (suc f) n ++ rest) ≡ parse_digits n rest
unfolding digits
parse_digits-digits zero n rest h b = elim (Bool-cases (ltb n 10)) [
  | inl small ↦ rw small (parse_digits-digit 0 n n rest (omega arith) (omega arith) b)
  | inr large ↦ absurd (ground arith)
]
parse_digits-digits (suc f) n rest h b = elim (Bool-cases (ltb n 10)) [
  | inl small ↦ rw small (parse_digits-digit 0 n n rest (ground arith) (omega arith) b)
  | inr large ↦ rw large (
      rw (append_assoc (digits (suc f) (n / 10)) ((48 + n % 10) ∷ []) rest) (
        parse_digits-digits f (n / 10) ((48 + n % 10) ∷ rest)
          (div_fits n (10 ^ suc f) (rw (← pow-suc) h)) (omega arith)
        ∙ parse_digits-digit (n / 10) (n % 10) n rest (omega arith) (omega arith) b))
]

parse-eq-parse_digits :
    (c : ℕ) (s : List ℕ) → is_decimal c ≡ true → parse (c ∷ s) ≡ parse_digits 0 (c ∷ s)
unfolding parse
parse-eq-parse_digits c [] h = refl
parse-eq-parse_digits c (d ∷ s) h = ground arith

-- A number without a sign is read digit by digit.
pub IsDecimal-head : (s : List ℕ) → IsDecimal s → s ≢ [] → parse s ≡ parse_digits 0 s
IsDecimal-head [] h e = absurd (e refl)
IsDecimal-head (c ∷ s) h e = parse-eq-parse_digits c s h.0

append-ne-nil : (s : List ℕ) (c : ℕ) → s ++ c ∷ [] ≢ []
append-ne-nil [] c e = cc
append-ne-nil (d ∷ s) c e = cc

digits-ne-nil : (f n : ℕ) → digits (suc f) n ≢ []
unfolding digits
digits-ne-nil f n e = ground (arith, append-ne-nil (digits f (n / 10)) (48 + n % 10))

pub print-ne-nil : (n : ℕ) → print n ≢ []
unfolding print
print-ne-nil n = digits-ne-nil 19 n

IsDecimal-Lacks : (sep : ℕ) (s : List ℕ) → sep < 48 → IsDecimal s → Lacks sep s
IsDecimal-Lacks sep [] h d = tt
IsDecimal-Lacks sep (c ∷ s) h d = (ground (arith, d.0), IsDecimal-Lacks sep s h d.1)

-- No separator below the digits stands in a printed number.
pub print-Lacks : (sep n : ℕ) → sep < 48 → Lacks sep (print n)
print-Lacks sep n h = IsDecimal-Lacks sep (print n) h (print-IsDecimal n)

-- Every u64 is read back from its decimal digits.
pub parse-print : (n : ℕ) → n ≤ u64_max → parse (print n) ≡ some n
unfolding print parse_digits
parse-print n h =
    IsDecimal-head (print n) (print-IsDecimal n) (print-ne-nil n)
    ∙ (rw (← append-nil (digits 20 n)) (parse_digits-digits 19 n [] (omega arith) h))

parse_runs : parse (b'+' ∷ b'4' ∷ b'2' ∷ []) ≡ some 42
unfolding parse
parse_runs = refl

parse_overflow : parse (print (2 ^ 64)) ≡ none
unfolding parse print
parse_overflow = refl

parse-print_max : parse (print (2 ^ 64 - 1)) ≡ some (2 ^ 64 - 1)
unfolding parse print
parse-print_max = refl

byte_len-IsDecimal : (s : List ℕ) → IsDecimal s → byte_len s ≡ length s
unfolding byte_len len_utf8
byte_len-IsDecimal [] h = refl
byte_len-IsDecimal (c ∷ s) h = ground (arith, h.0, byte_len-IsDecimal s h.1)

-- A printed u64 takes at most 20 bytes.
pub byte_len-print : (n : ℕ) → byte_len (print n) ≤ 20
byte_len-print n = omega (arith, byte_len-IsDecimal (print n) (print-IsDecimal n), length-print n)
