-- ===== src/Storage/Memory/Strokes/Thinning.antt =====
-- What `decimate` of src/storage/memory.rs keeps.
use riddle.Prelude.{
  ◌≡◌, refl, ◌∙◌, true, Option, none, some, [], ◌∷◌, ◌⊎◌, inl, inr, last?, is_empty, arith,
  Bool-cases, ◌≢◌,
}
use riddle.Storage.Memory.Strokes.{StrokePoint, Stroke, keep_point, apart, thin}

-- Two neighbours are far apart, unless the second one ends the stroke.
abbrev pub Spaced : Stroke → Type 0
Spaced [] = Unit
Spaced (p ∷ []) = Unit
Spaced (p ∷ q ∷ s) = ((apart p q ≡ true) ⊎ (s ≡ [])) × Spaced (q ∷ s)

-- The kept points in their order.
pub data Subsequence : Stroke → Stroke → Type 0 where
  done : Subsequence [] []
  kept : {p : StrokePoint} {s t : Stroke} → Subsequence s t → Subsequence (p ∷ s) (p ∷ t)
  skipped : {p : StrokePoint} {s t : Stroke} → Subsequence s t → Subsequence s (p ∷ t)

thin-Subsequence : (last : Option StrokePoint) (s : Stroke) → Subsequence (thin last s) s
unfolding thin
thin-Subsequence last [] = done
thin-Subsequence last (q ∷ rest) = elim (Bool-cases (keep_point last q (is_empty rest))) [
  | inl k ↦ rw k (kept (thin-Subsequence (some q) rest))
  | inr k ↦ rw k (skipped (thin-Subsequence last rest))
]

-- The points that follow a kept one.
thin-Spaced : (p : StrokePoint) (s : Stroke) → Spaced (p ∷ thin (some p) s)
unfolding thin
thin-Spaced p [] = tt
thin-Spaced p (q ∷ []) = elim (Bool-cases (apart p q)) [
  | inl k ↦ rw k (inl k, tt)
  | inr k ↦ rw k (inr refl, tt)
]
thin-Spaced p (q ∷ q' ∷ rest) = elim (Bool-cases (apart p q)) [
  | inl k ↦ rw k (inl k, thin-Spaced q (q' ∷ rest))
  | inr k ↦ rw k (thin-Spaced p (q' ∷ rest))
]

thin-ne-nil : (last : Option StrokePoint) (q : StrokePoint) (s : Stroke) → thin last (q ∷ s) ≢ []
unfolding thin
thin-ne-nil none q [] e = cc
thin-ne-nil (some p) q [] e = ground arith
thin-ne-nil none q (q' ∷ s) e = cc
thin-ne-nil (some p) q (q' ∷ s) e = ground (arith, thin-ne-nil (some p) q' s)

last?-cons : (p : StrokePoint) (s : Stroke) → s ≢ [] → last? (p ∷ s) ≡ last? s
last?-cons p [] h = absurd (h refl)
last?-cons p (q ∷ s) h = refl

thin-last? : (last : Option StrokePoint) (s : Stroke) → last? (thin last s) ≡ last? s
unfolding thin
thin-last? last [] = refl
thin-last? none (q ∷ []) = refl
thin-last? (some p) (q ∷ []) = ground arith
thin-last? none (q ∷ q' ∷ s) =
    last?-cons q (thin (some q) (q' ∷ s)) (thin-ne-nil (some q) q' s) ∙ thin-last? (some q) (q' ∷ s)
thin-last? (some p) (q ∷ q' ∷ s) = elim (Bool-cases (apart p q)) [
  | inl k ↦ rw k (
      last?-cons q (thin (some q) (q' ∷ s)) (thin-ne-nil (some q) q' s)
      ∙ thin-last? (some q) (q' ∷ s))
  | inr k ↦ rw k (thin-last? (some p) (q' ∷ s))
]

abbrev first? : Stroke → Option StrokePoint
first? [] = none
first? (p ∷ s) = some p

pub record Thinned (s t : Stroke) : Type 0 where
  pub subsequence : Subsequence t s
  pub spaced : Spaced t
  pub same_start : first? t ≡ first? s
  pub same_end : last? t ≡ last? s

-- A stroke is thinned to some of its points in their order, which begin and end where it does, and
-- of which any two neighbours are far apart (9 or more as the sum of the squares, within an i64) unless
-- the second one ends the stroke.
pub thin-Thinned : (s : Stroke) → Thinned s (thin none s)
unfolding thin
thin-Thinned [] = record { subsequence = done; spaced = tt; same_start = refl; same_end = refl }
thin-Thinned (p ∷ s) = record {
  subsequence = thin-Subsequence none (p ∷ s);
  spaced = thin-Spaced p s;
  same_start = refl;
  same_end = thin-last? none (p ∷ s);
}
