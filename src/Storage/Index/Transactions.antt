-- ===== src/Storage/Index/Transactions.antt =====
-- What `transact` leaves on disk and in memory, on every path (src/storage/tasks/mod.rs and
-- src/storage/todos.rs: the lock, the reload, the write and the recovery of every operation).
use riddle.Prelude.{
  ◌≡◌, ◌≢◌, refl, sym, ap, ◌∙◌, true, false, List, ◌⊎◌, inl, inr, Result, ok, err, arith,
  Bool-cases,
}
use riddle.Storage.Persistence.{
  Dir, text, WriteStage, atomic_write, atomic_write-cases, read_optional_utf8, read_failed,
}
use riddle.Storage.Index.{
  Format, Store, Env, StoreError, LoadError, unreadable, lock_failed, load_failed, save_failed,
  Outcome, refuse, keep, write, conclude, settle, load_unlocked, render, transact, commit,
  recover_after_failed_persist,
}
use riddle.Storage.Index.RoundTrip.{Codec, IsValid, load-render}

pub ok_ne_err : {E A : Type 0} {a : A} {e : E} → ok a ≢ err e
ok_ne_err h = cc

pub ok_injective : {E A : Type 0} {a b : A} → ◌≡◌ {A = Result E A} (ok a) (ok b) → a ≡ b
ok_injective h = cc

-- A read that fails, fails whatever is there.
pub load_unlocked_fault :
    {A : Type 0} (F : Format A) (d : Dir) → load_unlocked F true d ≡ err (unreadable read_failed)
unfolding load_unlocked read_optional_utf8
load_unlocked_fault F d = refl

-- Loading reads the index and nothing else.
pub load_unlocked_ext :
    {A : Type 0} (F : Format A) (d d' : Dir)
    → d.index ≡ d'.index
    → load_unlocked F false d ≡ load_unlocked F false d'
unfolding load_unlocked
load_unlocked_ext F d d' e = rw e

module _ {A B E : Type 0} (F : Format A) (env : Env) (op : List A → Outcome A E B)
    (s : Store A) where
  -- An index that cannot be loaded is reported, and neither the directory nor the entries change.
  pub transact-corrupt :
      (e : LoadError)
      → env.lock_fails ≡ false
      → load_unlocked F env.read_fails s.dir ≡ err e
      → transact F env op s ≡ (err (load_failed e), s)
  unfolding transact
  transact-corrupt e l h = rw (l, h)

  -- Without the lock nothing happens.
  pub transact-locked : env.lock_fails ≡ true → transact F env op s ≡ (err lock_failed, s)
  unfolding transact
  transact-locked l = rw l

  -- What an operation decides on the entries of the disk, with the lock and the read granted.
  pub transact-loaded :
      (loaded : List A)
      → env.lock_fails ≡ false
      → load_unlocked F env.read_fails s.dir ≡ ok loaded
      → transact F env op s ≡ conclude F env loaded s.dir (op loaded)
  unfolding transact
  transact-loaded loaded l h = rw (l, h)

-- An operation writes only lists that the store accepts.
abbrev pub KeepsValid :
    {A B E : Type 0} (F : Format A) (C : Codec F) → (List A → Outcome A E B) → Type 0
KeepsValid {A} {B} F C op =
    (loaded : List A) (b : B) (new : List A)
    → IsValid F C loaded
    → op loaded ≡ write b new
    → IsValid F C new

-- How a transaction ends: a valid list `after` is on disk, the old one or the one that the operation
-- made of it; a result is reported only with memory equal to the disk, and after a failed write
-- memory equals the disk if the index can be read again.
pub record Settled {A B E : Type 0} (F : Format A) (C : Codec F) (env : Env)
    (op : List A → Outcome A E B) (before : List A) (r : Result (StoreError E) B) (s : Store A)
    : Type 0 where
  pub after : List A
  pub valid : IsValid F C after
  pub loads : load_unlocked F false s.dir ≡ ok after
  pub old_or_new : (after ≡ before) ⊎ (b : B) × (op before ≡ write b after)
  pub answered :
      (b : B) → r ≡ ok b → (op before ≡ keep b) × (after ≡ before) ⊎ (op before ≡ write b after)
  pub synced : (b : B) → r ≡ ok b → s.entries ≡ after
  pub recovered :
      (stage : WriteStage)
      → r ≡ err (save_failed stage)
      → env.reread_fails ≡ false
      → s.entries ≡ after

module _ {A B E : Type 0} (F : Format A) (C : Codec F) (env : Env) (op : List A → Outcome A E B)
    (before : List A) (valid : IsValid F C before) where
  -- The directory is as it was, and no write was tried.
  untouched :
      (r : Result (StoreError E) B) (s : Store A)
      → load_unlocked F false s.dir ≡ ok before
      → ((b : B) → r ≡ ok b → (op before ≡ keep b) × (s.entries ≡ before))
      → ((stage : WriteStage) → r ≢ err (save_failed stage))
      → Settled F C env op before r s
  untouched r s l a n = record {
    after = before;
    valid = valid;
    loads = l;
    old_or_new = inl refl;
    answered = λ b e. inl ((a b e).0, refl);
    synced = λ b e. (a b e).1;
    recovered = λ st e. absurd (n st e);
  }

  recovered_entries :
      (d : Dir) (es : List A)
      → env.reread_fails ≡ false
      → load_unlocked F false d ≡ ok es
      → (recover_after_failed_persist F env.reread_fails before d).entries ≡ es
  unfolding recover_after_failed_persist
  recovered_entries d es r l = rw (r, l)

  recovered_dir : (d : Dir) → (recover_after_failed_persist F env.reread_fails before d).dir ≡ d
  unfolding recover_after_failed_persist
  recovered_dir d = ground arith

  written :
      (b : B) (new : List A) (d : Dir) (x : Result WriteStage Unit × Dir)
      → load_unlocked F false d ≡ ok before
      → op before ≡ write b new
      → IsValid F C new
      → (x.0 ≡ ok tt) × (x.1.index ≡ text (render F new))
        ⊎ (st : WriteStage) × (x.0 ≡ err st)
          × ((x.1.index ≡ d.index) ⊎ (x.1.index ≡ text (render F new)))
      → Settled F C env op before
          (settle F {E = E} env before b new x).0
          (settle F {E = E} env before b new x).1
  written b new d (ok u, d') l o v (inl h) = record {
    after = new;
    valid = v;
    loads = load-render F C new d' v h.1;
    old_or_new = inr (b, o);
    answered = λ c e. inr (o ∙ ap (λ z. write z new) (ok_injective e));
    synced = λ c e. refl;
    recovered = λ st e. absurd (cc);
  }
  written b new d (ok u, d') l o v (inr h) = absurd (ok_ne_err h.1)
  written b new d (err st, d') l o v (inl h) = absurd (ok_ne_err (sym h.0))
  written b new d (err st, d') l o v (inr h) = elim h.2 [
    | inl old ↦ record {
      after = before;
      valid = valid;
      loads = ap (load_unlocked F false) (recovered_dir d') ∙ load_unlocked_ext F d' d old ∙ l;
      old_or_new = inl refl;
      answered = λ c e. absurd (ok_ne_err (sym e));
      synced = λ c e. absurd (ok_ne_err (sym e));
      recovered = λ stage e r. recovered_entries d' before r (load_unlocked_ext F d' d old ∙ l);
    }
    | inr fresh ↦ record {
      after = new;
      valid = v;
      loads = ap (load_unlocked F false) (recovered_dir d') ∙ load-render F C new d' v fresh;
      old_or_new = inr (b, o);
      answered = λ c e. absurd (ok_ne_err (sym e));
      synced = λ c e. absurd (ok_ne_err (sym e));
      recovered = λ stage e r. recovered_entries d' new r (load-render F C new d' v fresh);
    }
  ]

  concluded :
      (d : Dir) (o : Outcome A E B)
      → load_unlocked F false d ≡ ok before
      → op before ≡ o
      → KeepsValid F C op
      → Settled F C env op before (conclude F env before d o).0 (conclude F env before d o).1
  concluded d (refuse e) l o k = untouched _ _ l (λ b e. absurd (ok_ne_err (sym e))) (λ st e. cc)
  concluded d (keep b) l o k =
      untouched _ _ l (λ c e. (o ∙ ap keep (ok_injective e), refl)) (λ st e. ok_ne_err e)
  concluded d (write b new) l o k =
      unfold commit in
      written b new d (atomic_write env.write_fault (render F new) d) l o (k before b new valid o)
        (atomic_write-cases env.write_fault (render F new) d)

-- From a directory that holds a valid list, every transaction of an operation that writes valid lists
-- only settles: whatever the operating system refuses, the directory holds a valid list again, the
-- old one or the one that the operation makes of it; an answer is the operation's, with memory equal
-- to the disk, and after a failed write memory equals the disk where the index can be read again.
pub transact-Settled :
    {A B E : Type 0} (F : Format A) (C : Codec F) (env : Env) (op : List A → Outcome A E B)
    (s : Store A) (before : List A)
    → IsValid F C before
    → load_unlocked F false s.dir ≡ ok before
    → KeepsValid F C op
    → Settled F C env op before (transact F env op s).0 (transact F env op s).1
transact-Settled F C env op s before v l k = elim (Bool-cases env.lock_fails) [
  | inl locked ↦
      rw (transact-locked F env op s locked)
        (untouched F C env op before v _ _ l (λ b e. absurd (ok_ne_err (sym e))) (λ st e. cc))
  | inr free ↦ elim (Bool-cases env.read_fails) [
    | inl broken ↦
        rw
          (transact-corrupt F env op s (unreadable read_failed) free
            (rw broken (load_unlocked_fault F s.dir)))
          (untouched F C env op before v _ _ l (λ b e. absurd (ok_ne_err (sym e))) (λ st e. cc))
    | inr fine ↦
        rw (transact-loaded F env op s before free (rw fine l))
          (concluded F C env op before v s.dir (op before) l refl k)
  ]
]
