-- ===== src/Storage/Memory/Appending/Settling.antt =====
-- How `try_append` of src/storage/memory.rs ends, whatever the operating system refuses.
use riddle.Prelude.{
  ℕ, ◌≤◌, ◌≡◌, ◌≢◌, refl, sym, ap, ◌∙◌, false, ◌⊎◌, inl, inr, some, List, [], ◌∷◌, ◌++◌, Result, ok,
  err, take, last?, Bool-cases,
}
use riddle.Text.{Text}
use riddle.Text.Decimal.{u64_max}
use riddle.Storage.Persistence.{Dir, missing, text, WriteStage}
use riddle.Storage.Index.{StoreError, LoadError, save_failed, load_unlocked, render, contains}
use riddle.Storage.Index.RoundTrip.{load-render}
use riddle.Storage.Index.Ids.{Below, contains-Below}
use riddle.Storage.Index.Transactions.{ok_ne_err, ok_injective, load_unlocked_ext}
use riddle.Storage.Memory.{Entry, MemoryStore, memory_format, oversized, ids}
use riddle.Storage.Memory.Columns.{memory_codec}
use riddle.Storage.Memory.Strokes.{Stroke, decimate, print_strokes}
use riddle.Storage.Memory.Appending.{
  MemoryEnv, MemoryError, remove_dropped, newest, drop_count, settle, recovered,
}
use riddle.Storage.Memory.Appending.Newest.{
  IsMemoryList, page, append-IsMemoryList, append-Distinct,
}
use riddle.Storage.Memory.Appending.Pages.{
  Paged, remove_dropped-other, Paged-remove_strokes, Paged-remove_dropped, Paged-newest,
  Paged-append, contains-newest, dropped_old,
}

module _ (env : MemoryEnv) (requested : ℕ) (transcript reply : Text) (strokes : List Stroke)
    (before : List Entry) where
  -- The pages after this one is added.
  abbrev pub with_page : ℕ → List Entry
  with_page id = newest (before ++ page transcript reply id ∷ [])

  -- What an answer promises: the index holds the page, memory equals the disk, the strokes of the page are in
  -- its file, and its id is new and not below the one that was asked for.
  abbrev pub Answered : Result (StoreError MemoryError) ℕ → MemoryStore → List Entry → Type 0
  Answered (err e) s after = Unit
  Answered (ok id) s after =
      (after ≡ with_page id)
      × (s.entries ≡ after)
      × ((s.strokes id).index ≡ text (print_strokes (decimate strokes)))
      × Below id (ids before)
      × (requested ≤ id)

  pub record Appended (r : Result (StoreError MemoryError) ℕ) (s : MemoryStore) : Type 0 where
    pub after : List Entry
    pub valid : IsMemoryList after
    pub loads : load_unlocked memory_format false s.index ≡ ok after
    pub old_or_new : (after ≡ before) ⊎ (id : ℕ) × (after ≡ with_page id)
    pub answered : Answered r s after

  -- The ending, with the stroke files that `files` had for the pages before it.
  pub record Ending (files : ℕ → Dir) (r : Result (StoreError MemoryError) ℕ) (s : MemoryStore)
      : Type 0 where
    pub appended : Appended r s
    pub paged :
        env.system.reread_fails ≡ false
        → Paged files (ids before)
        → Paged s.strokes (ids appended.after)

  module _ (files : ℕ → Dir) (valid : IsMemoryList before) where
    -- The index is as it was.
    pub unchanged :
        (e : StoreError MemoryError) (s : MemoryStore)
        → load_unlocked memory_format false s.index ≡ ok before
        → (Paged files (ids before) → Paged s.strokes (ids before))
        → Ending files (err e) s
    unchanged e s l p = record {
      appended = record {
        after = before;
        valid = valid;
        loads = l;
        old_or_new = inl refl;
        answered = tt;
      };
      paged = λ r. p;
    }

    module _ (id : ℕ) (s : MemoryStore) (allowed : oversized transcript reply ≡ false)
        (closed : last? reply ≢ some b'\r') (below : Below id (ids before)) (late : requested ≤ id)
        (fits : id ≤ u64_max)
        (written : (s.strokes id).index ≡ text (print_strokes (decimate strokes)))
        (listed : Paged files (ids before) → Paged s.strokes (ids before)) where
      abbrev fresh_list : List Entry
      fresh_list = before ++ page transcript reply id ∷ []

      valid_new : IsMemoryList (newest fresh_list)
      valid_new = append-IsMemoryList before transcript reply id valid allowed closed below fits

      distinct_new : Paged files (ids before) → Paged s.strokes (ids fresh_list)
      distinct_new p =
          Paged-append s.strokes before (page transcript reply id) (listed p)
            (λ e. ne (sym written ∙ e))
        where
          ne : text (print_strokes (decimate strokes)) ≢ missing
          ne e = cc

      -- The index was replaced, and the replacement was reported as failed.
      failed_new :
          (stage : WriteStage) (d : Dir) (o : Result LoadError (List Entry))
          → load_unlocked memory_format false d ≡ ok (newest fresh_list)
          → (env.system.reread_fails ≡ false → o ≡ ok (newest fresh_list))
          → Ending files (err (save_failed stage)) (recovered env s before id d o)
      failed_new stage d (err e) l k = record {
        appended = record {
          after = newest fresh_list;
          valid = valid_new;
          loads = l;
          old_or_new = inr (id, refl);
          answered = tt;
        };
        paged = λ r p. absurd (ok_ne_err (sym (k r)));
      }
      failed_new stage d (ok found) l k = record {
        appended = record {
          after = newest fresh_list;
          valid = valid_new;
          loads = l;
          old_or_new = inr (id, refl);
          answered = tt;
        };
        paged = λ r p.
            rw
              (ap (λ es. contains (ids es) id) (ok_injective (k r))
                ∙ contains-newest before (page transcript reply id))
              (Paged-newest s.strokes fresh_list (distinct_new p));
      }

      failed_old :
          (stage : WriteStage) (d : Dir) (o : Result LoadError (List Entry))
          → load_unlocked memory_format false d ≡ ok before
          → Ending files (err (save_failed stage)) (recovered env s before id d o)
      failed_old stage d (err e) l =
          unchanged (save_failed stage) _ l
            (λ p. Paged-remove_strokes env.kept id s.strokes (ids before) below (listed p))
      failed_old stage d (ok found) l = elim (Bool-cases (contains (ids found) id)) [
        | inl c ↦ rw c (unchanged (save_failed stage) _ l listed)
        | inr c ↦ rw c (
            unchanged (save_failed stage) _ l
              (λ p. Paged-remove_strokes env.kept id s.strokes (ids before) below (listed p)))
      ]

      saved_new :
          (d : Dir)
          → load_unlocked memory_format false d ≡ ok (newest fresh_list)
          → Ending files (ok id) (record s {
            entries = newest fresh_list;
            index = d;
            strokes =
                remove_dropped env.kept (ids (take (drop_count fresh_list) fresh_list)) s.strokes;
          })
      saved_new d l = record {
        appended = record {
          after = newest fresh_list;
          valid = valid_new;
          loads = l;
          old_or_new = inr (id, refl);
          answered = (
            refl,
            refl,
            ap (λ (f : Dir). f.index)
                  (remove_dropped-other env.kept _ id s.strokes (
                    dropped_old before (page transcript reply id)
                      (contains-Below id (ids before) below)))
                ∙ written,
            below,
            late,
          );
        };
        paged = λ r p.
            Paged-remove_dropped env.kept s.strokes fresh_list
              (append-Distinct before transcript reply id valid.distinct below) (distinct_new p);
      }

      reread :
          (d : Dir) (es : List Entry)
          → load_unlocked memory_format false d ≡ ok es
          → env.system.reread_fails ≡ false
          → load_unlocked memory_format env.system.reread_fails d ≡ ok es
      reread d es l r = rw r l

      -- `persist_index`, however it ends.
      pub settled :
          (x : Result WriteStage Unit × Dir)
          → load_unlocked memory_format false s.index ≡ ok before
          → (x.0 ≡ ok tt) × (x.1.index ≡ text (render memory_format (newest fresh_list)))
            ⊎ (st : WriteStage) × (x.0 ≡ err st)
              × ((x.1.index ≡ s.index.index)
                  ⊎ (x.1.index ≡ text (render memory_format (newest fresh_list))))
          → Ending files
              (settle env s before fresh_list id x).0
              (settle env s before fresh_list id x).1
      settled (ok u, d) l (inl h) =
          saved_new d (load-render memory_format memory_codec (newest fresh_list) d valid_new h.1)
      settled (ok u, d) l (inr h) = absurd (ok_ne_err h.1)
      settled (err st, d) l (inl h) = absurd (ok_ne_err (sym h.0))
      settled (err st, d) l (inr h) = elim h.2 [
        | inl old ↦
            failed_old st d (load_unlocked memory_format env.system.reread_fails d)
              (load_unlocked_ext memory_format d s.index old ∙ l)
        | inr fresh ↦
            let k = load-render memory_format memory_codec (newest fresh_list) d valid_new fresh in
            failed_new st d (load_unlocked memory_format env.system.reread_fails d) k
              (reread d (newest fresh_list) k)
      ]
