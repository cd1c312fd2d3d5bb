-- ===== src/Storage/Memory/Appending/Newest.antt =====
-- The page that `try_append` of src/storage/memory.rs adds, and the newest pages that it keeps.
use mathlib.Core.Path.{subst}
use mathlib.Core.List.{map-append}
use riddle.Prelude.{
  ℕ, ◌≤◌, ◌≡◌, ◌≢◌, sym, false, Option, none, some, List, [], ◌∷◌, ◌++◌, drop, All, All-drop,
  length-drop_exact, map-drop, last?, zero, suc, arith,
}
use riddle.Text.{Text}
use riddle.Text.Decimal.{u64_max}
use riddle.Storage.Index.Distinct.{Distinct, Distinct-append}
use riddle.Storage.Index.RoundTrip.{IsValid}
use riddle.Storage.Index.Changes.{All-append}
use riddle.Storage.Index.Ids.{Below, Exceeds, max_id, max_id-Below, contains-Below}
use riddle.Storage.Memory.{Entry, memory_format, oversized, ids}
use riddle.Storage.Memory.Columns.{IsPage, memory_codec}
use riddle.Storage.Memory.Appending.{allocate, drop_count, newest}

abbrev pub IsMemoryList : List Entry → Type 0
IsMemoryList = IsValid memory_format memory_codec

Distinct-drop : (n : ℕ) (is : List ℕ) → Distinct is → Distinct (drop n is)
unfolding drop
Distinct-drop zero is d = d
Distinct-drop (suc n) [] d = tt
Distinct-drop (suc n) (i ∷ is) d = Distinct-drop n is d.1

-- The newest pages of a list that is valid but for its length.
newest-IsMemoryList :
    (es : List Entry) → Distinct (ids es) → All IsPage es → IsMemoryList (newest es)
newest-IsMemoryList es d h = record {
  distinct =
      subst Distinct (sym (map-drop (λ (e : Entry). e.id) (drop_count es) es))
        (Distinct-drop (drop_count es) (ids es) d);
  sound = All-drop IsPage (drop_count es) es h;
  capped = omega (arith, length-drop_exact (drop_count es) es);
}

allocate-Exceeds :
    (requested id : ℕ) (o : Option ℕ)
    → allocate requested o ≡ some id
    → requested ≤ u64_max
    → Exceeds o id × (requested ≤ id) × (id ≤ u64_max)
allocate-Exceeds requested id none h fits = (tt, ground arith, ground arith)
allocate-Exceeds requested id (some m) h fits = ground arith

-- A new id: above every id in use, not below the clock, and a u64.
pub allocate-Below :
    (is : List ℕ) (requested id : ℕ)
    → allocate requested (max_id is) ≡ some id
    → requested ≤ u64_max
    → Below id is × (requested ≤ id) × (id ≤ u64_max)
allocate-Below is requested id h fits =
    let (above, late, narrow) = allocate-Exceeds requested id (max_id is) h fits in
    (max_id-Below id is above, late, narrow)

abbrev pub page : Text → Text → ℕ → Entry
page transcript reply id = record { id = id; transcript = transcript; reply = reply }

page-IsPage :
    (transcript reply : Text) (id : ℕ)
    → oversized transcript reply ≡ false
    → last? reply ≢ some b'\r'
    → id ≤ u64_max
    → IsPage (page transcript reply id)
page-IsPage transcript reply id o c f = record {
  id_fits = f;
  transcript_short = ground arith;
  reply_short = ground arith;
  closed = c;
}

pub append-Distinct :
    (before : List Entry) (transcript reply : Text) (id : ℕ)
    → Distinct (ids before)
    → Below id (ids before)
    → Distinct (ids (before ++ page transcript reply id ∷ []))
append-Distinct before transcript reply id d b =
    subst Distinct (sym (map-append (λ (e : Entry). e.id) before (page transcript reply id ∷ [])))
      (Distinct-append (ids before) id d (contains-Below id (ids before) b))

-- The list with a new page, cut to its newest entries.
pub append-IsMemoryList :
    (before : List Entry) (transcript reply : Text) (id : ℕ)
    → IsMemoryList before
    → oversized transcript reply ≡ false
    → last? reply ≢ some b'\r'
    → Below id (ids before)
    → id ≤ u64_max
    → IsMemoryList (newest (before ++ page transcript reply id ∷ []))
append-IsMemoryList before transcript reply id v o c b f =
    newest-IsMemoryList (before ++ page transcript reply id ∷ [])
      (append-Distinct before transcript reply id v.distinct b)
      (All-append IsPage before (page transcript reply id) v.sound
        (page-IsPage transcript reply id o c f))
