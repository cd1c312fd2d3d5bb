-- ===== src/Storage/Index/Changes.antt =====
-- Removing, replacing and appending one entry keep a list valid (the changes of `entries` in
-- src/storage/tasks/mod.rs and src/storage/todos.rs).
use mathlib.Core.Path.{subst}
use mathlib.Core.List.{map-append}
use riddle.Prelude.{
  ℕ, ◌≤◌, ◌<◌, ◌≡◌, refl, sym, ap, Bool, false, some, List, [], ◌∷◌, ◌++◌, length, length-append,
  get_elem?, set, remove_at, map, All, zero, suc, arith, true, if◌then◌else◌, Result, ok,
}
use riddle.Storage.Index.{Format, Outcome, refuse, write, contains}
use riddle.Storage.Index.Distinct.{Distinct, Distinct-append, Distinct-remove_at}
use riddle.Storage.Index.RoundTrip.{Codec, IsValid}

pub some_eq : {A : Type 0} {a b : A} → some a ≡ some b → a ≡ b
some_eq h = cc

pub ok_eq : {E A : Type 0} {a b : A} → ◌≡◌ {A = Result E A} (ok a) (ok b) → a ≡ b
ok_eq h = cc

pub write_eq :
    {A E B : Type 0} {b c : B} {x y : List A}
    → ◌≡◌ {A = Outcome A E B} (write b x) (write c y)
    → x ≡ y
write_eq h = cc

pub if_refuse-write :
    {A E B : Type 0} (test : Bool) (e : E) (o : Outcome A E B) (b : B) (new : List A)
    → (if test then refuse e else o) ≡ write b new
    → (test ≡ false) × (o ≡ write b new)
if_refuse-write true e o b new h = cc
if_refuse-write false e o b new h = (refl, h)

module _ {A : Type 0} where
  map-remove_at :
      (f : A → ℕ) (i : ℕ) (xs : List A) → map f (remove_at i xs) ≡ remove_at i (map f xs)
  map-remove_at f i [] = refl
  map-remove_at f zero (x ∷ xs) = refl
  map-remove_at f (suc i) (x ∷ xs) = ap (λ l. f x ∷ l) (map-remove_at f i xs)

  All-remove_at : (P : A → Type 0) (i : ℕ) (xs : List A) → All P xs → All P (remove_at i xs)
  All-remove_at P i [] h = tt
  All-remove_at P zero (x ∷ xs) h = h.1
  All-remove_at P (suc i) (x ∷ xs) h = (h.0, All-remove_at P i xs h.1)

  length-remove_at : (i : ℕ) (xs : List A) → length (remove_at i xs) ≤ length xs
  length-remove_at i [] = omega arith
  length-remove_at zero (x ∷ xs) = omega arith
  length-remove_at (suc i) (x ∷ xs) = omega (arith, length-remove_at i xs)

  map-set :
      (f : A → ℕ) (i : ℕ) (xs : List A) (x y : A)
      → get_elem? xs i ≡ some x
      → f y ≡ f x
      → map f (set xs i y) ≡ map f xs
  map-set f i [] x y h e = refl
  map-set f zero (z ∷ xs) x y h e = cc (some_eq h)
  map-set f (suc i) (z ∷ xs) x y h e = ap (λ l. f z ∷ l) (map-set f i xs x y h e)

  All-set : (P : A → Type 0) (i : ℕ) (xs : List A) (y : A) → P y → All P xs → All P (set xs i y)
  All-set P i [] y p h = tt
  All-set P zero (x ∷ xs) y p h = (p, h.1)
  All-set P (suc i) (x ∷ xs) y p h = (h.0, All-set P i xs y p h.1)

  length-set : (i : ℕ) (xs : List A) (y : A) → length (set xs i y) ≡ length xs
  length-set i [] y = refl
  length-set zero (x ∷ xs) y = refl
  length-set (suc i) (x ∷ xs) y = ap suc (length-set i xs y)

  pub All-append : (P : A → Type 0) (xs : List A) (y : A) → All P xs → P y → All P (xs ++ y ∷ [])
  All-append P [] y h p = (p, tt)
  All-append P (x ∷ xs) y h p = (h.0, All-append P xs y h.1 p)

  pub All-get_elem? :
      (P : A → Type 0) (i : ℕ) (xs : List A) (x : A) → All P xs → get_elem? xs i ≡ some x → P x
  All-get_elem? P i [] x h e = cc
  All-get_elem? P zero (z ∷ xs) x h e = subst P (some_eq e) h.0
  All-get_elem? P (suc i) (z ∷ xs) x h e = All-get_elem? P i xs x h.1 e

  pub get_elem?-lt : (i : ℕ) (xs : List A) → i < length xs → (x : A) × (get_elem? xs i ≡ some x)
  get_elem?-lt i [] h = elim h [ ]
  get_elem?-lt zero (x ∷ xs) h = (x, refl)
  get_elem?-lt (suc i) (x ∷ xs) h = get_elem?-lt i xs (omega arith)

module _ {A : Type 0} (F : Format A) (C : Codec F) where
  pub remove_at-IsValid : (i : ℕ) (xs : List A) → IsValid F C xs → IsValid F C (remove_at i xs)
  remove_at-IsValid i xs v = record {
    distinct =
        subst Distinct (sym (map-remove_at F.entry_id i xs))
          (Distinct-remove_at i (map F.entry_id xs) v.distinct);
    sound = All-remove_at C.IsEntry i xs v.sound;
    capped = omega (arith, v.capped, length-remove_at i xs);
  }

  -- The entry at an index is replaced by one of the same id.
  pub set-IsValid :
      (i : ℕ) (xs : List A) (x y : A)
      → get_elem? xs i ≡ some x
      → F.entry_id y ≡ F.entry_id x
      → C.IsEntry y
      → IsValid F C xs
      → IsValid F C (set xs i y)
  set-IsValid i xs x y h e p v = record {
    distinct = subst Distinct (sym (map-set F.entry_id i xs x y h e)) v.distinct;
    sound = All-set C.IsEntry i xs y p v.sound;
    capped = omega (arith, v.capped, length-set i xs y);
  }

  pub append-IsValid :
      (xs : List A) (y : A)
      → contains (map F.entry_id xs) (F.entry_id y) ≡ false
      → C.IsEntry y
      → length xs < F.max_entries
      → IsValid F C xs
      → IsValid F C (xs ++ y ∷ [])
  append-IsValid xs y fresh p room v = record {
    distinct =
        subst Distinct (sym (map-append F.entry_id xs (y ∷ [])))
          (Distinct-append (map F.entry_id xs) (F.entry_id y) v.distinct fresh);
    sound = All-append C.IsEntry xs y v.sound p;
    capped = omega (arith, length-append {0} xs (y ∷ []));
  }

  pub entry-IsEntry :
      (i : ℕ) (xs : List A) (x : A) → IsValid F C xs → get_elem? xs i ≡ some x → C.IsEntry x
  entry-IsEntry i xs x v e = All-get_elem? C.IsEntry i xs x v.sound e
