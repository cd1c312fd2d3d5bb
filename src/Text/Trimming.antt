-- ===== src/Text/Trimming.antt =====
-- What `str::trim` leaves, for any set of characters that is trimmed.
use riddle.Prelude.{
  ℕ, ◌≡◌, ◌≢◌, ◌∙◌, ap, refl, Bool, true, false, not, some, none, [], ◌∷◌, any, is_empty, last?,
  arith, Bool-cases, inl, inr,
}
use mathlib.Core.Path.{subst}
use riddle.Text.{
  cons_unless, Text, trim_start_matches, trim_end_matches, trim_matches, trim, is_whitespace,
}

-- Some character of the text is kept by `p`.
abbrev pub visible : (ℕ → Bool) → Text → Bool
visible p s = any (λ c. not (p c)) s

visible-start : (p : ℕ → Bool) (s : Text) → visible p (trim_start_matches p s) ≡ visible p s
unfolding trim_start_matches
visible-start p [] = refl
visible-start p (c ∷ s) = ground (arith, visible-start p s)

visible-end : (p : ℕ → Bool) (s : Text) → visible p (trim_end_matches p s) ≡ visible p s
unfolding trim_end_matches
visible-end p [] = refl
visible-end p (c ∷ s) = ground (arith, visible-end p s)

empty-end : (p : ℕ → Bool) (s : Text) → is_empty (trim_end_matches p s) ≡ not (visible p s)
unfolding trim_end_matches
empty-end p [] = refl
empty-end p (c ∷ s) = ground (arith, empty-end p s)

-- The trimmed text is empty exactly when no character is kept.
pub is_empty-trim : (p : ℕ → Bool) (s : Text) → is_empty (trim_matches p s) ≡ not (visible p s)
unfolding trim_matches
is_empty-trim p s = empty-end p (trim_start_matches p s) ∙ ap not (visible-start p s)

pub visible-trim : (p : ℕ → Bool) (s : Text) → visible p (trim_matches p s) ≡ visible p s
unfolding trim_matches
visible-trim p s = visible-end p (trim_start_matches p s) ∙ visible-start p s

none_ne_some : {A : Type 0} {a : A} → none ≢ some a
none_ne_some h = cc

some_injective : {A : Type 0} {a b : A} → some a ≡ some b → a ≡ b
some_injective h = cc

last?-cons_unless :
    (p : ℕ → Bool) (c : ℕ) (t : Text) (e : ℕ)
    → (last? t ≡ some e → p e ≡ false)
    → last? (cons_unless (p c) c t) ≡ some e
    → p e ≡ false
last?-cons_unless p c [] e k h = elim (Bool-cases (p c)) [
  | inl gone ↦ absurd (none_ne_some (subst (λ b. last? (cons_unless b c []) ≡ some e) gone h))
  | inr kept ↦
      subst (λ x. p x ≡ false)
        (some_injective (subst (λ b. last? (cons_unless b c []) ≡ some e) kept h)) kept
]
last?-cons_unless p c (d ∷ t) e k h = k h

last?-end : (p : ℕ → Bool) (s : Text) (e : ℕ) → last? (trim_end_matches p s) ≡ some e → p e ≡ false
unfolding trim_end_matches
last?-end p [] e h = cc
last?-end p (c ∷ s) e h = last?-cons_unless p c (trim_end_matches p s) e (last?-end p s e) h

-- The last character that is left is one to keep.
pub last?-trim : (p : ℕ → Bool) (s : Text) (c : ℕ) → last? (trim_matches p s) ≡ some c → p c ≡ false
unfolding trim_matches
last?-trim p s c h = last?-end p (trim_start_matches p s) c h

-- A text that is trimmed and not empty is visible, and ends in no carriage return.
pub trimmed_visible : (s : Text) → is_empty (trim s) ≡ false → is_empty (trim (trim s)) ≡ false
trimmed_visible s h = ground (
  arith,
  is_empty-trim is_whitespace s,
  is_empty-trim is_whitespace (trim s),
  visible-trim is_whitespace s,
)

return_is_whitespace : is_whitespace b'\r' ≡ true
unfolding is_whitespace
return_is_whitespace = refl

pub trimmed_closed : (s : Text) → last? (trim s) ≢ some b'\r'
trimmed_closed s h = cc (return_is_whitespace, last?-trim is_whitespace s b'\r' h)
