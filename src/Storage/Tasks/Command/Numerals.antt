-- ===== src/Storage/Tasks/Command/Numerals.antt =====
-- src/storage/tasks/parser.rs (`take_number`, `chinese_digit`, `chinese_number`): Arabic and Chinese
-- numerals at the head of a text. `used` bytes are given as the text that follows them.
use riddle.Prelude.{ℕ, ◌*◌, Bool, true, Option, none, some, [], ◌∷◌, ◌==◌, if◌then◌else◌}
use riddle.Text.{Text, lit, is_digit, one_of}
use riddle.Text.Decimal.{parse, saturating_add}

unfoldable pub chinese_digit : ℕ → Option ℕ
unfolding one_of
chinese_digit c =
    if one_of (lit "零〇") c
    then some 0
    else if one_of (lit "一") c
    then some 1
    else if one_of (lit "二两兩") c
    then some 2
    else if one_of (lit "三") c
    then some 3
    else if one_of (lit "四") c
    then some 4
    else if one_of (lit "五") c
    then some 5
    else if one_of (lit "六") c
    then some 6
    else if one_of (lit "七") c
    then some 7
    else if one_of (lit "八") c
    then some 8
    else if one_of (lit "九") c
    then some 9
    else none

unfoldable pub chinese_unit : ℕ → Option ℕ
unfolding one_of
chinese_unit c =
    if one_of (lit "十") c
    then some 10
    else if one_of (lit "百") c
    then some 100
    else if one_of (lit "千") c
    then some 1000
    else none

abbrev add_unit : ℕ → ℕ → ℕ → ℕ
add_unit total digit unit = saturating_add total (if digit == 0 then unit else digit * unit)

-- The loop of `chinese_number`, with its two variables.
unfoldable pub chinese_number_from : ℕ → ℕ → Text → Option ℕ
unfolding chinese_digit chinese_unit
chinese_number_from total digit [] = some (saturating_add total digit)
chinese_number_from total digit (c ∷ s) = elim (chinese_digit c) [
  | some n ↦ chinese_number_from total n s
  | none ↦ elim (chinese_unit c) [
    | none ↦ none
    | some unit ↦ chinese_number_from (add_unit total digit unit) 0 s
  ]
]

unfoldable pub chinese_number : Text → Option ℕ
unfolding chinese_number_from
chinese_number s = chinese_number_from 0 0 s

abbrev is_numeral : ℕ → Bool
is_numeral c = elim (chinese_digit c) [ some _ ↦ true | none ↦ one_of (lit "十百千") c ]

-- The longest prefix of characters that pass, and the rest.
unfoldable pub span : (ℕ → Bool) → Text → Text × Text
span p [] = ([], [])
span p (c ∷ s) = let rest = span p s in if p c then (c ∷ rest.0, rest.1) else ([], c ∷ s)

abbrev with_rest : Text → Option ℕ → Option (ℕ × Text)
with_rest rest none = none
with_rest rest (some n) = some (n, rest)

abbrev take_chinese : Text × Text → Option (ℕ × Text)
take_chinese ([], rest) = none
take_chinese (c ∷ s, rest) = with_rest rest (chinese_number (c ∷ s))

abbrev take_ascii : Text → Text × Text → Option (ℕ × Text)
take_ascii s ([], rest) = take_chinese (span is_numeral s)
take_ascii s (c ∷ cs, rest) = with_rest rest (parse (c ∷ cs))

unfoldable pub take_number : Text → Option (ℕ × Text)
unfolding span chinese_number chinese_digit one_of parse
take_number s = take_ascii s (span is_digit s)
