-- ===== src/Storage/Memory/Appending/Pages.antt =====
-- The stroke files beside the index (src/storage/memory.rs: what `try_append` and `delete_number`
-- remove).
use riddle.Prelude.{
  ℕ, ◌≡◌, ◌≢◌, refl, ◌∙◌, Bool, true, false, ◌==◌, List, [], ◌∷◌, ◌++◌, take, drop, take-append,
  drop-append, All, All-drop, map-drop, map-take, zero, suc, arith, length-append,
}
use mathlib.Core.List.{map-append}
use riddle.Storage.Persistence.{Dir, missing}
use riddle.Storage.Index.{contains}
use riddle.Storage.Index.Distinct.{Distinct, contains-append}
use riddle.Storage.Index.Ids.{Below}
use riddle.Storage.Memory.{Entry, ids}
use riddle.Storage.Memory.Appending.{put, remove_strokes, remove_dropped, drop_count, newest}

-- Every id has its stroke file.
abbrev pub Paged : (ℕ → Dir) → List ℕ → Type 0
Paged files = All (λ i. (files i).index ≢ missing)

put_other : (id i : ℕ) (d : Dir) (files : ℕ → Dir) → (i == id) ≡ false → put id d files i ≡ files i
put_other id i d files h = rw h

pub put_same : (id : ℕ) (d : Dir) (files : ℕ → Dir) → put id d files id ≡ d
put_same id d files = ground arith

pub remove_other :
    (kept : ℕ → Bool) (id i : ℕ) (files : ℕ → Dir)
    → (i == id) ≡ false
    → remove_strokes kept id files i ≡ files i
unfolding remove_strokes
remove_other kept id i files h = ground arith

pub remove_dropped-other :
    (kept : ℕ → Bool) (dropped : List ℕ) (i : ℕ) (files : ℕ → Dir)
    → contains dropped i ≡ false
    → remove_dropped kept dropped files i ≡ files i
unfolding remove_dropped
remove_dropped-other kept [] i files h = refl
remove_dropped-other kept (id ∷ dropped) i files h =
    remove_dropped-other kept dropped i (remove_strokes kept id files) (ground arith)
    ∙ remove_other kept id i files (ground arith)

-- Files that are the same where it matters.
Paged-ext :
    (files files' : ℕ → Dir) (is : List ℕ)
    → All (λ i. files' i ≡ files i) is
    → Paged files is
    → Paged files' is
Paged-ext files files' [] h p = tt
Paged-ext files files' (i ∷ is) h p = (rw h.0 p.0, Paged-ext files files' is h.1 p.1)

Below-other :
    (f g : ℕ → Dir) (id : ℕ) (is : List ℕ)
    → ((i : ℕ) → (i == id) ≡ false → g i ≡ f i)
    → Below id is
    → All (λ i. g i ≡ f i) is
Below-other f g id [] h b = tt
Below-other f g id (i ∷ is) h b = (h i (ground (arith, b.0)), Below-other f g id is h b.1)

pub Paged-put :
    (id : ℕ) (d : Dir) (files : ℕ → Dir) (is : List ℕ)
    → Below id is
    → Paged files is
    → Paged (put id d files) is
Paged-put id d files is b =
    Paged-ext files _ is (Below-other files _ id is (λ i. put_other id i d files) b)

pub Paged-remove_strokes :
    (kept : ℕ → Bool) (id : ℕ) (files : ℕ → Dir) (is : List ℕ)
    → Below id is
    → Paged files is
    → Paged (remove_strokes kept id files) is
Paged-remove_strokes kept id files is b =
    Paged-ext files _ is (Below-other files _ id is (λ i. remove_other kept id i files) b)

absent_others : (i : ℕ) (is : List ℕ) → contains is i ≡ false → All (λ j. (i == j) ≡ false) is
absent_others i [] h = tt
absent_others i (j ∷ is) h = (ground arith, absent_others i is (ground arith))

contains_cons :
    (i : ℕ) (front is : List ℕ)
    → All (λ j. (i == j) ≡ false) is
    → All (λ j. contains front j ≡ false) is
    → All (λ j. contains (i ∷ front) j ≡ false) is
contains_cons i front [] h k = tt
contains_cons i front (j ∷ is) h k = (ground (arith, h.0, k.0), contains_cons i front is h.1 k.1)

contains_nil : (is : List ℕ) → All (λ j. contains [] j ≡ false) is
contains_nil [] = tt
contains_nil (i ∷ is) = (refl, contains_nil is)

-- No id of the front is one of the rest.
fresh_rest :
    (n : ℕ) (is : List ℕ) → Distinct is → All (λ j. contains (take n is) j ≡ false) (drop n is)
unfolding take drop
fresh_rest zero is d = contains_nil is
fresh_rest (suc n) [] d = tt
fresh_rest (suc n) (i ∷ is) d =
    contains_cons i (take n is) (drop n is)
      (All-drop (λ j. (i == j) ≡ false) n is (absent_others i is d.0)) (fresh_rest n is d.1)

remove_dropped-same :
    (kept : ℕ → Bool) (front is : List ℕ) (files : ℕ → Dir)
    → All (λ j. contains front j ≡ false) is
    → All (λ j. remove_dropped kept front files j ≡ files j) is
remove_dropped-same kept front [] files h = tt
remove_dropped-same kept front (j ∷ is) files h =
    (remove_dropped-other kept front j files h.0, remove_dropped-same kept front is files h.1)

-- The files of the newest entries stay when those of the older ones are removed.
pub Paged-remove_dropped :
    (kept : ℕ → Bool) (files : ℕ → Dir) (es : List Entry)
    → Distinct (ids es)
    → Paged files (ids es)
    → Paged (remove_dropped kept (ids (take (drop_count es) es)) files) (ids (newest es))
Paged-remove_dropped kept files es d p =
    rw
      (
        map-drop (λ (e : Entry). e.id) (drop_count es) es,
        map-take (λ (e : Entry). e.id) (drop_count es) es,
      )
      (Paged-ext files _ (drop (drop_count es) (ids es))
        (remove_dropped-same kept (take (drop_count es) (ids es)) _ files
          (fresh_rest (drop_count es) (ids es) d))
        (All-drop _ (drop_count es) (ids es) p))

pub Paged-newest :
    (files : ℕ → Dir) (es : List Entry) → Paged files (ids es) → Paged files (ids (newest es))
Paged-newest files es p =
    rw (map-drop (λ (e : Entry). e.id) (drop_count es) es) (All-drop _ (drop_count es) (ids es) p)

pub Paged-append :
    (files : ℕ → Dir) (es : List Entry) (e : Entry)
    → Paged files (ids es)
    → (files e.id).index ≢ missing
    → Paged files (ids (es ++ e ∷ []))
Paged-append files [] e p h = (h, tt)
Paged-append files (e' ∷ es) e p h = (p.0, Paged-append files es e p.1 h)

-- The newest entries end in the one that was added.
pub newest-append :
    (es : List Entry) (e : Entry)
    → newest (es ++ e ∷ []) ≡ drop (drop_count (es ++ e ∷ [])) es ++ e ∷ []
newest-append es e =
    drop-append (drop_count (es ++ e ∷ [])) es (e ∷ [])
      (omega (arith, length-append {0} es (e ∷ [])))

pub contains-newest :
    (es : List Entry) (e : Entry) → contains (ids (newest (es ++ e ∷ []))) e.id ≡ true
contains-newest es e = rw (newest-append es e) (
    rw (map-append (λ (e : Entry). e.id) (drop (drop_count (es ++ e ∷ [])) es) (e ∷ [])) (
      ground (arith, contains-append (ids (drop (drop_count (es ++ e ∷ [])) es)) (e.id ∷ []) e.id)))

contains-take :
    (n : ℕ) (is : List ℕ) (i : ℕ) → contains is i ≡ false → contains (take n is) i ≡ false
unfolding take
contains-take zero is i h = refl
contains-take (suc n) [] i h = refl
contains-take (suc n) (j ∷ is) i h = ground (arith, contains-take n is i (ground arith))

-- The one that was added is not among those that are dropped.
pub dropped_old :
    (es : List Entry) (e : Entry)
    → contains (ids es) e.id ≡ false
    → contains (ids (take (drop_count (es ++ e ∷ [])) (es ++ e ∷ []))) e.id ≡ false
dropped_old es e h =
    rw
      (take-append (drop_count (es ++ e ∷ [])) es (e ∷ [])
        (omega (arith, length-append {0} es (e ∷ []))))
      (rw (map-take (λ (e : Entry). e.id) (drop_count (es ++ e ∷ [])) es)
        (contains-take (drop_count (es ++ e ∷ [])) (ids es) e.id h))
