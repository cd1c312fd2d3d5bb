-- ===== src/Storage/Escape.antt =====
-- src/storage/persistence.rs (unescape_field) and the `escape` of src/storage/todos.rs and
-- src/storage/tasks/formatting.rs: the text of one column of an index file.
use riddle.Prelude.{
  ◌⊎◌, ℕ, ◌+◌, ◌*◌, ◌≤◌, ◌≡◌, ◌≢◌, refl, ap, ◌∙◌, sym, false, some, [], ◌∷◌, ◌++◌, ◌==◌,
  if◌then◌else◌, Result, ok, err, ◌>>=◌, arith, last?,
}
use riddle.Text.{Text, lit, replace, byte_len, len_utf8}
use riddle.Text.Splitting.{Lacks, Lacks-append}

pub data EscapeError : Type 0 where
  invalid_escape : ℕ → EscapeError
  trailing_escape : EscapeError

unfoldable pub escape : Text → Text
unfolding replace
escape s = replace b'\n' (lit "\\n") (replace b'\t' (lit "\\t") (replace b'\\' (lit "\\\\") s))

-- What `\` and this character stand for.
unfoldable pub escaped : ℕ → Result EscapeError ℕ
escaped c =
    if c == b't'
    then ok b'\t'
    else if c == b'n'
    then ok b'\n'
    else if c == b'\\'
    then ok b'\\'
    else err (invalid_escape c)

unfoldable pub unescape_field : Text → Result EscapeError Text
unfolding escaped
unescape_field [] = ok []
unescape_field (c ∷ []) = if c == b'\\' then err trailing_escape else ok (c ∷ [])
unescape_field (c ∷ d ∷ s) =
    let plain = unescape_field (d ∷ s) >>= λ out. ok (c ∷ out) in
    let marked = escaped d >>= λ e. unescape_field s >>= λ out. ok (e ∷ out) in
    if c == b'\\' then marked else plain

escape_runs : escape (lit "a\tb\\n") ≡ lit "a\\tb\\\\n"
unfolding escape
escape_runs = refl

unescape_runs : unescape_field (escape (lit "a\tb\\n\n")) ≡ ok (lit "a\tb\\n\n")
unfolding escape unescape_field
unescape_runs = refl

-- What one character becomes.
abbrev pub escape_char : ℕ → Text
escape_char c =
    if c == b'\\'
    then lit "\\\\"
    else if c == b'\t'
    then lit "\\t"
    else if c == b'\n'
    then lit "\\n"
    else c ∷ []

pub escape-cons : (c : ℕ) (s : Text) → escape (c ∷ s) ≡ escape_char c ++ escape s
unfolding escape
escape-cons c s = ground arith

unescape_field-plain :
    (c : ℕ) (s : Text)
    → (c == b'\\') ≡ false
    → unescape_field (c ∷ s) ≡ (unescape_field s >>= λ out. ok (c ∷ out))
unfolding unescape_field
unescape_field-plain c [] h = ground arith
unescape_field-plain c (d ∷ s) h = rw h

unescape_field-escape_char :
    (c : ℕ) (s t : Text)
    → unescape_field s ≡ ok t
    → unescape_field (escape_char c ++ s) ≡ ok (c ∷ t)
unfolding unescape_field
unescape_field-escape_char c s t h = ground (arith, unescape_field-plain c s)

-- Every text is read back from its escaped form.
pub unescape_field-escape : (s : Text) → unescape_field (escape s) ≡ ok s
unescape_field-escape [] = unfold escape unescape_field in refl
unescape_field-escape (c ∷ s) =
    rw (escape-cons c s) (unescape_field-escape_char c (escape s) s (unescape_field-escape s))

escape_char-Lacks : (sep c : ℕ) → (sep ≡ b'\t') ⊎ (sep ≡ b'\n') → Lacks sep (escape_char c)
escape_char-Lacks sep c h = ground arith

-- An escaped column holds no tab and no newline.
pub escape-Lacks : (sep : ℕ) (s : Text) → (sep ≡ b'\t') ⊎ (sep ≡ b'\n') → Lacks sep (escape s)
escape-Lacks sep [] h = unfold escape in tt
escape-Lacks sep (c ∷ s) h =
    rw (escape-cons c s) (
      Lacks-append sep (escape_char c) (escape s) (escape_char-Lacks sep c h)
        (escape-Lacks sep s h))

pub byte_len-append : (s t : Text) → byte_len (s ++ t) ≡ byte_len s + byte_len t
unfolding byte_len
byte_len-append [] t = omega arith
byte_len-append (c ∷ s) t = omega (arith, byte_len-append s t)

byte_len-escape_char : (c : ℕ) → byte_len (escape_char c) ≤ 2 * len_utf8 c
unfolding byte_len len_utf8
byte_len-escape_char c = ground arith

byte_len-escape-cons :
    (c : ℕ) (s : Text)
    → byte_len (escape s) ≤ 2 * byte_len s
    → byte_len (escape (c ∷ s)) ≤ 2 * byte_len (c ∷ s)
unfolding byte_len
byte_len-escape-cons c s h =
    rw (escape-cons c s)
      (omega (arith, byte_len-append (escape_char c) (escape s), byte_len-escape_char c))

-- Escaping at most doubles the size.
pub byte_len-escape : (s : Text) → byte_len (escape s) ≤ 2 * byte_len s
byte_len-escape [] = unfold escape byte_len in omega arith
byte_len-escape (c ∷ s) = byte_len-escape-cons c s (byte_len-escape s)

pub last?-append_cons : (s : Text) (c : ℕ) (t : Text) → last? (s ++ c ∷ t) ≡ last? (c ∷ t)
last?-append_cons [] c t = refl
last?-append_cons (d ∷ []) c t = refl
last?-append_cons (d ∷ e ∷ s) c t = last?-append_cons (e ∷ s) c t

last?-append : (s t : Text) → t ≢ [] → last? (s ++ t) ≡ last? t
last?-append s [] h = absurd (h refl)
last?-append s (c ∷ t) h = last?-append_cons s c t

escape-ne-nil : (c : ℕ) (s : Text) → escape (c ∷ s) ≢ []
escape-ne-nil c s = rw (escape-cons c s) (λ e. ground arith)

last?-escape_char : (c : ℕ) → last? (escape_char c ++ []) ≡ some b'\r' → c ≡ b'\r'
last?-escape_char c h = ground arith

-- An escaped column ends in a carriage return only if the text does.
pub last?-escape : (s : Text) → last? s ≢ some b'\r' → last? (escape s) ≢ some b'\r'
last?-escape [] h e = h (unfold escape in e)
last?-escape (c ∷ []) h e =
    h (ap some (last?-escape_char c (unfold escape in sym (ap last? (escape-cons c [])) ∙ e)))
last?-escape (c ∷ d ∷ s) h e = last?-escape (d ∷ s) h (
    sym (last?-append (escape_char c) (escape (d ∷ s)) (escape-ne-nil d s))
    ∙ sym (ap last? (escape-cons c (d ∷ s)))
    ∙ e)
