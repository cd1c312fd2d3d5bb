-- ===== src/Ui/Pointer/Rectangles.antt =====
-- What the rectangles of src/ui/pointer.rs contain.
use riddle.Prelude.{
  ℕ, ◌≤◌, ◌≡◌, refl, sym, ap, ◌∙◌, Bool, true, false, ◌&&◌, Option, none, some, List, [], ◌∷◌, ltb,
  All, arith, Bool-cases, inl, inr, ◌⊎◌, ℤ, pos, negsuc, ◌+ℤ◌, ◌-ℤ◌, ◌≤ℤ◌, ◌<ℤ◌, ltb_ℤ, leb_ℤ,
  min_ℤ, max_ℤ, clamp_i32, i32_min, i32_max,
}
use riddle.Ui.Pointer.{
  Point, HitRect, saturating_add, saturating_sub, from_xywh, extend, extend_all, from_points, width,
  height, contains, clamp_to, clip, clipped_to,
}

-- A coordinate that is followed by another one.
abbrev pub Interior : ℤ → Type 0
Interior a = (i32_min ≤ℤ a) × (a <ℤ i32_max)

next_above : (a : ℤ) → Interior a → a <ℤ saturating_add a (pos 1)
unfolding clamp_i32 ◌+ℤ◌
next_above (pos n) h = ground arith
next_above (negsuc n) h = ground arith

record Covers (rect : HitRect) (p : Point) : Type 0 where
  left : rect.x0 ≤ℤ p.x
  right : p.x <ℤ rect.x1
  top : rect.y0 ≤ℤ p.y
  bottom : p.y <ℤ rect.y1

max_left : (a b c : ℤ) → c <ℤ a → c <ℤ max_ℤ a b
max_left a b c h = ground arith

max_right : (a b c : ℤ) → c <ℤ b → c <ℤ max_ℤ a b
max_right a b c h = ground arith

min_left : (a b c : ℤ) → a ≤ℤ c → min_ℤ a b ≤ℤ c
min_left a b c h = ground arith

min_right : (a b c : ℤ) → b ≤ℤ c → min_ℤ a b ≤ℤ c
min_right a b c h = ground arith

extend-Covers : (rect : HitRect) (p q : Point) → Covers rect p → Covers (extend rect q) p
extend-Covers rect p q h = record {
  left = min_left rect.x0 q.x p.x h.left;
  right = max_left rect.x1 (saturating_add q.x (pos 1)) p.x h.right;
  top = min_left rect.y0 q.y p.y h.top;
  bottom = max_left rect.y1 (saturating_add q.y (pos 1)) p.y h.bottom;
}

abbrev pub IsInterior : Point → Type 0
IsInterior p = Interior p.x × Interior p.y

≤ℤ-refl : (a : ℤ) → a ≤ℤ a
≤ℤ-refl a = omega arith

extended-Covers : (rect : HitRect) (q : Point) → IsInterior q → Covers (extend rect q) q
extended-Covers rect q h = record {
  left = min_right rect.x0 q.x q.x (≤ℤ-refl q.x);
  right = max_right rect.x1 (saturating_add q.x (pos 1)) q.x (next_above q.x h.0);
  top = min_right rect.y0 q.y q.y (≤ℤ-refl q.y);
  bottom = max_right rect.y1 (saturating_add q.y (pos 1)) q.y (next_above q.y h.1);
}

from_xywh-Covers : (p : Point) → IsInterior p → Covers (from_xywh p.x p.y (pos 1) (pos 1)) p
unfolding from_xywh
from_xywh-Covers p h = record {
  left = ≤ℤ-refl p.x;
  right = next_above p.x h.0;
  top = ≤ℤ-refl p.y;
  bottom = next_above p.y h.1;
}

extend_all-keeps :
    (rect : HitRect) (p : Point) (points : List Point)
    → Covers rect p
    → Covers (extend_all rect points) p
unfolding extend_all
extend_all-keeps rect p [] h = h
extend_all-keeps rect p (q ∷ points) h =
    extend_all-keeps (extend rect q) p points (extend-Covers rect p q h)

Covers-contains : (rect : HitRect) (p : Point) → Covers rect p → contains rect p ≡ true
Covers-contains rect p h = ground (arith, h.left, h.right, h.top, h.bottom)

abbrev pub contained_in : Option HitRect → Point → Bool
contained_in none p = false
contained_in (some rect) p = contains rect p

extend_all-covers :
    (rect : HitRect) (points : List Point)
    → All IsInterior points
    → All (λ p. contains (extend_all rect points) p ≡ true) points
unfolding extend_all
extend_all-covers rect [] h = tt
extend_all-covers rect (p ∷ points) h = (
  Covers-contains _ p (extend_all-keeps (extend rect p) p points (extended-Covers rect p h.0)),
  extend_all-covers (extend rect p) points h.1,
)

-- The bounds of a contact contain each of its points, unless a coordinate is the last `i32`.
pub from_points-contains :
    (points : List Point)
    → All IsInterior points
    → All (λ p. contained_in (from_points points) p ≡ true) points
unfolding from_points
from_points-contains [] h = tt
from_points-contains (p ∷ points) h = (
  Covers-contains _ p
      (extend_all-keeps (from_xywh p.x p.y (pos 1) (pos 1)) p points (from_xywh-Covers p h.0)),
  extend_all-covers (from_xywh p.x p.y (pos 1) (pos 1)) points h.1,
)

-- The pixel is one of the framebuffer.
abbrev pub on_screen : ℕ → ℕ → Point → Bool
on_screen w h p = leb_ℤ (pos 0) p.x && ltb_ℤ p.x (pos w) && leb_ℤ (pos 0) p.y && ltb_ℤ p.y (pos h)

abbrev within_axis : ℤ → ℤ → ℤ → Bool
within_axis lo hi a = leb_ℤ lo a && ltb_ℤ a hi

clamp_to-axis :
    (bound : ℕ) (lo hi a : ℤ)
    → within_axis (clamp_to bound lo) (clamp_to bound hi) a
      ≡ (within_axis lo hi a && within_axis (pos 0) (pos bound) a)
clamp_to-axis bound lo hi a = ground arith

four_tests : (a b c d : Bool) → (a && b && c && d) ≡ ((a && b) && (c && d))
four_tests a b c d = ground arith

swap_tests : (a b c d : Bool) → ((a && b) && (c && d)) ≡ ((a && c) && (b && d))
swap_tests a b c d = ground arith

both_axes :
    (w h : ℕ) (lo hi a lo' hi' a' : ℤ)
    → (within_axis (clamp_to w lo) (clamp_to w hi) a
        && within_axis (clamp_to h lo') (clamp_to h hi') a')
      ≡ ((within_axis lo hi a && within_axis lo' hi' a')
          && (within_axis (pos 0) (pos w) a && within_axis (pos 0) (pos h) a'))
both_axes w h lo hi a lo' hi' a' =
    rw (clamp_to-axis w lo hi a, clamp_to-axis h lo' hi' a')
      (swap_tests (within_axis lo hi a) (within_axis (pos 0) (pos w) a) (within_axis lo' hi' a')
        (within_axis (pos 0) (pos h) a'))

contains-clip :
    (w h : ℕ) (rect : HitRect) (p : Point)
    → contains (clip w h rect) p ≡ (contains rect p && on_screen w h p)
contains-clip w h rect p =
    four_tests (leb_ℤ (clamp_to w rect.x0) p.x) (ltb_ℤ p.x (clamp_to w rect.x1))
      (leb_ℤ (clamp_to h rect.y0) p.y) (ltb_ℤ p.y (clamp_to h rect.y1))
    ∙ both_axes w h rect.x0 rect.x1 p.x rect.y0 rect.y1 p.y
    ∙ ap (λ b. b && (within_axis (pos 0) (pos w) p.x && within_axis (pos 0) (pos h) p.y))
        (sym (
          four_tests (leb_ℤ rect.x0 p.x) (ltb_ℤ p.x rect.x1) (leb_ℤ rect.y0 p.y)
            (ltb_ℤ p.y rect.y1)))
    ∙ ap (λ b. contains rect p && b)
        (sym (
          four_tests (leb_ℤ (pos 0) p.x) (ltb_ℤ p.x (pos w)) (leb_ℤ (pos 0) p.y)
            (ltb_ℤ p.y (pos h))))

-- A clipped coordinate is on the screen or at its edge.
clamp_to-range : (bound : ℕ) (a : ℤ) → (n : ℕ) × (clamp_to bound a ≡ pos n) × (n ≤ bound)
clamp_to-range bound (pos n) = elim (Bool-cases (ltb bound n)) [
  | inl above ↦ (bound, ground arith, omega arith)
  | inr below ↦ (n, ground arith, ground arith)
]
clamp_to-range bound (negsuc n) = (0, ground arith, omega arith)

-- An axis without a pixel holds no point.
no_width :
    (lo hi : ℕ) (a : ℤ)
    → hi ≤ 2147483647
    → ltb_ℤ (pos 0) (saturating_sub (pos hi) (pos lo)) ≡ false
    → within_axis (pos lo) (pos hi) a ≡ false
unfolding clamp_i32 ◌-ℤ◌
no_width lo hi a h k = ground arith

empty_axis :
    (bound : ℕ) (lo hi a : ℤ)
    → bound ≤ 2147483647
    → ltb_ℤ (pos 0) (saturating_sub (clamp_to bound hi) (clamp_to bound lo)) ≡ false
    → within_axis (clamp_to bound lo) (clamp_to bound hi) a ≡ false
empty_axis bound lo hi a h k =
    let (n, lo_at, _) = clamp_to-range bound lo in
    let (m, hi_at, small) = clamp_to-range bound hi in
    rw (lo_at, hi_at)
      (no_width n m a (omega (arith, small)) (
        ap (λ b. ltb_ℤ (pos 0) b)
          (ap (λ x. saturating_sub (pos m) x) (sym lo_at)
            ∙ ap (λ x. saturating_sub x (clamp_to bound lo)) (sym hi_at))
        ∙ k))

and_false : (a b : Bool) → (a ≡ false) ⊎ (b ≡ false) → (a && b) ≡ false
and_false a b h = ground arith

flat_false :
    (w h : ℕ) (rect : HitRect) (p : Point)
    → (within_axis (clamp_to w rect.x0) (clamp_to w rect.x1) p.x ≡ false)
      ⊎ (within_axis (clamp_to h rect.y0) (clamp_to h rect.y1) p.y ≡ false)
    → contains (clip w h rect) p ≡ false
flat_false w h rect p k =
    four_tests (leb_ℤ (clamp_to w rect.x0) p.x) (ltb_ℤ p.x (clamp_to w rect.x1))
      (leb_ℤ (clamp_to h rect.y0) p.y) (ltb_ℤ p.y (clamp_to h rect.y1))
    ∙ and_false _ _ k

which_flat : (a b : Bool) → (a && b) ≡ false → (a ≡ false) ⊎ (b ≡ false)
which_flat true b h = inr h
which_flat false b h = inl refl

clipped_empty :
    (w h : ℕ) (rect : HitRect) (p : Point)
    → w ≤ 2147483647
    → h ≤ 2147483647
    → (ltb_ℤ (pos 0) (width (clip w h rect)) ≡ false)
      ⊎ (ltb_ℤ (pos 0) (height (clip w h rect)) ≡ false)
    → contains (clip w h rect) p ≡ false
clipped_empty w h rect p small_w small_h (inl flat) =
    flat_false w h rect p (inl (empty_axis w rect.x0 rect.x1 p.x small_w flat))
clipped_empty w h rect p small_w small_h (inr flat) =
    flat_false w h rect p (inr (empty_axis h rect.y0 rect.y1 p.y small_h flat))

-- On a screen whose sides are `i32`s, `clipped_to` keeps exactly the pixels of the rectangle that are on the
-- screen; where it returns none, there is no such pixel.
pub clipped_to-contains :
    (rect : HitRect) (w h : ℕ) (p : Point)
    → w ≤ 2147483647
    → h ≤ 2147483647
    → contained_in (clipped_to rect w h) p ≡ (contains rect p && on_screen w h p)
unfolding clipped_to
clipped_to-contains rect w h p small_w small_h =
    elim (Bool-cases
      (ltb_ℤ (pos 0) (width (clip w h rect)) && ltb_ℤ (pos 0) (height (clip w h rect)))) [
        | inl some_pixel ↦ rw some_pixel (contains-clip w h rect p)
        | inr no_pixel ↦ rw no_pixel (
            sym (clipped_empty w h rect p small_w small_h (which_flat _ _ no_pixel))
            ∙ contains-clip w h rect p)
      ]
