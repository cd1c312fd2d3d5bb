-- ===== src/Prelude/Selection.antt =====
-- Choosing from a list by a Boolean test, and lists from the back.
use mathlib.Core.Path.{◌≡◌, refl, ap, sym, ◌∙◌}
use mathlib.Core.Logic.{inl, inr}
use mathlib.Core.List.{List, [], ◌∷◌, ◌++◌, map, reverse, reverse-cons, map-append}
use mathlib.Core.Bool.{Bool, false}
use native.Mathlib.Omega.{arith}
use riddle.Prelude.Tests.{if◌then◌else◌, Bool-cases}
use riddle.Prelude.Lists.{length, length-append, All}
pub use mathlib.Core.List.{reverse, reverse-cons, reverse-append, reverse-reverse}

module _ {ℓ} {A : Type ℓ} where
  -- `Iterator::filter`
  unfoldable pub filter_by : (A → Bool) → List A → List A
  filter_by p [] = []
  filter_by p (x ∷ xs) = let rest = filter_by p xs in if p x then x ∷ rest else rest

  pub filter_by-append :
      (p : A → Bool) (xs ys : List A) → filter_by p (xs ++ ys) ≡ filter_by p xs ++ filter_by p ys
  unfolding filter_by
  filter_by-append p [] ys = refl
  filter_by-append p (x ∷ xs) ys = elim (Bool-cases (p x)) [
    | inl h ↦ rw h (ap (λ zs. x ∷ zs) (filter_by-append p xs ys))
    | inr h ↦ rw h (filter_by-append p xs ys)
  ]

  filter_by-one : (p : A → Bool) (x : A) → filter_by p (x ∷ []) ≡ reverse (filter_by p (x ∷ []))
  unfolding filter_by
  filter_by-one p x = elim (Bool-cases (p x)) [ inl h ↦ rw h refl | inr h ↦ rw h refl ]

  filter_by-cons :
      (p : A → Bool) (x : A) (xs : List A)
      → reverse (filter_by p xs) ++ filter_by p (x ∷ []) ≡ reverse (filter_by p (x ∷ xs))
  unfolding filter_by
  filter_by-cons p x xs = elim (Bool-cases (p x)) [
    | inl h ↦ rw h (sym (reverse-cons x (filter_by p xs)))
    | inr h ↦ rw h (append-nil (reverse (filter_by p xs)))
  ]
    where
      append-nil : (zs : List A) → zs ++ [] ≡ zs
      append-nil [] = refl
      append-nil (z ∷ zs) = ap (λ ws. z ∷ ws) (append-nil zs)

  pub filter_by-reverse :
      (p : A → Bool) (xs : List A) → filter_by p (reverse xs) ≡ reverse (filter_by p xs)
  filter_by-reverse p [] = unfold filter_by in refl
  filter_by-reverse p (x ∷ xs) =
      ap (filter_by p) (reverse-cons x xs)
      ∙ filter_by-append p (reverse xs) (x ∷ [])
      ∙ ap (λ ys. ys ++ filter_by p (x ∷ [])) (filter_by-reverse p xs)
      ∙ filter_by-cons p x xs

  pub filter_by-none :
      (p : A → Bool) (xs : List A) → All (λ x. p x ≡ false) xs → filter_by p xs ≡ []
  unfolding filter_by
  filter_by-none p [] h = refl
  filter_by-none p (x ∷ xs) h = rw h.0 (filter_by-none p xs h.1)

  pub length-reverse : (xs : List A) → length (reverse xs) ≡ length xs
  length-reverse [] = refl
  length-reverse (x ∷ xs) =
      rw (reverse-cons x xs) (omega (arith, length-append (reverse xs) (x ∷ []), length-reverse xs))

pub map-reverse {ℓ κ} :
    {A : Type ℓ} {B : Type κ} (f : A → B) (xs : List A) → map f (reverse xs) ≡ reverse (map f xs)
map-reverse f [] = refl
map-reverse f (x ∷ xs) =
    ap (map f) (reverse-cons x xs)
    ∙ map-append f (reverse xs) (x ∷ [])
    ∙ ap (λ ys. ys ++ f x ∷ []) (map-reverse f xs)
    ∙ sym (reverse-cons (f x) (map f xs))
