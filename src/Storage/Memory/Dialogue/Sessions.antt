-- ===== src/Storage/Memory/Dialogue/Sessions.antt =====
-- What `begin_dialogue_session` of src/storage/memory/dialogue.rs leaves to a conversation.
use riddle.Prelude.{
  ℕ, ◌≤◌, ◌≡◌, ◌≢◌, refl, sym, ap, ◌⊎◌, true, false, Option, none, some, List, [], ◌∷◌, ◌++◌, ltb,
  if_cases, Result, ok, err, All, take, reverse, filter_by-none, filter_by-reverse, suc, arith, inl,
  inr, zero,
}
use riddle.Text.{
  Text, byte_len, len_utf8, trim, trim_matches, trim_start_matches, trim_end_matches, is_whitespace,
}
use riddle.Text.Decimal.{
  u64_max, is_decimal, IsDecimal, print, parse-print, print-IsDecimal, print-ne-nil, byte_len-print,
}
use riddle.Storage.Escape.{byte_len-append}
use riddle.Storage.Persistence.{Dir, text, WriteStage, atomic_write-cases, read_optional_utf8}
use riddle.Storage.Index.{StoreError, LoadError, Env, load_unlocked}
use riddle.Storage.Index.Ids.{Below, Exceeds, max_option, max_id, max_id-Below}
use riddle.Storage.Index.Transactions.{ok_ne_err, ok_injective}
use riddle.Storage.Memory.{Entry, MemoryStore, memory_format, ids}
use riddle.Storage.Memory.Columns.{IsPage}
use riddle.Storage.Memory.Appending.{MemoryError}
use riddle.Storage.Memory.Appending.Newest.{IsMemoryList}
use riddle.Storage.Memory.Appending.Reporting.{loaded_or_failed}
use riddle.Storage.Memory.Dialogue.{
  in_dialogue, dialogue_floor, recent_turns, recent_dialogue, highest, end_session, session_loaded,
  begin_dialogue_session, max_dialogue_floor_bytes,
}

-- A digit is no white space.
digit_visible : (c : ℕ) → is_decimal c ≡ true → is_whitespace c ≡ false
unfolding is_whitespace
digit_visible c h = ground arith

trim_end-digits : (s : Text) → IsDecimal s → trim_end_matches is_whitespace (s ++ b'\n' ∷ []) ≡ s
unfolding trim_end_matches
trim_end-digits [] h = unfold is_whitespace in refl
trim_end-digits (c ∷ []) h = rw (trim_end-digits [] tt, digit_visible c h.0) refl
trim_end-digits (c ∷ d ∷ s) h = rw (trim_end-digits (d ∷ s) h.1) refl

trim-digits : (s : Text) → IsDecimal s → s ≢ [] → trim (s ++ b'\n' ∷ []) ≡ s
unfolding trim_matches trim_start_matches
trim-digits [] h e = absurd (e refl)
trim-digits (c ∷ s) h e = rw (digit_visible c h.0) (trim_end-digits (c ∷ s) h)

-- The text of the boundary.
abbrev pub floor_text : ℕ → Text
floor_text floor = print floor ++ b'\n' ∷ []

floor_text-bytes : (floor : ℕ) → byte_len (floor_text floor) ≤ 21
floor_text-bytes floor =
    let one : byte_len (b'\n' ∷ []) ≡ 1 = unfold byte_len in unfold len_utf8 in refl in
    omega (arith, byte_len-append (print floor) (b'\n' ∷ []), byte_len-print floor, one)

-- A boundary that was written is read back.
dialogue_floor-floor_text :
    (floor : ℕ) (s : MemoryStore)
    → floor ≤ u64_max
    → s.floor.index ≡ text (floor_text floor)
    → dialogue_floor false s ≡ floor
unfolding dialogue_floor read_optional_utf8
dialogue_floor-floor_text floor s h e =
    let fits : ltb max_dialogue_floor_bytes (byte_len (floor_text floor)) ≡ false =
      ground (arith, floor_text-bytes floor) in
    rw e (
      rw fits (
        rw (trim-digits (print floor) (print-IsDecimal floor) (print-ne-nil floor))
          (rw (parse-print floor h) refl)))

highest_above : (o : Option ℕ) → Exceeds o (suc (highest o))
highest_above none = tt
highest_above (some m) = omega arith

max_option-le : (top i : ℕ) (o : Option ℕ) → i ≤ top → highest o ≤ top → max_option i o ≤ top
max_option-le top i none h k = h
max_option-le top i (some j) h k = omega (arith, h, k)

highest-le : (es : List Entry) → All IsPage es → highest (max_id (ids es)) ≤ u64_max
unfolding max_id
highest-le [] h = omega arith
highest-le (e ∷ es) h = max_option-le u64_max e.id (max_id (ids es)) h.0.id_fits (highest-le es h.1)

none_after :
    (floor : ℕ) (es : List Entry)
    → Below (suc floor) (ids es)
    → All (λ e. in_dialogue floor e ≡ false) es
none_after floor [] h = tt
none_after floor (e ∷ es) h = (ground (arith, h.0), none_after floor es h.1)

no_turns : (n : ℕ) → recent_turns 0 (take n []) ≡ []
unfolding take recent_turns
no_turns zero = refl
no_turns (suc n) = refl

-- No page at or below the boundary is shown.
no_dialogue :
    (n floor : ℕ) (s : MemoryStore)
    → dialogue_floor false s ≡ floor
    → Below (suc floor) (ids s.entries)
    → recent_dialogue false n s ≡ []
unfolding recent_dialogue
no_dialogue n floor s e b =
    rw (e, filter_by-reverse (in_dialogue floor) s.entries)
      (rw (filter_by-none (in_dialogue floor) s.entries (none_after floor s.entries b))
        (ap reverse (no_turns n)))

-- The boundary of the pages on disk.
abbrev pub boundary : List Entry → ℕ
boundary before = highest (max_id (ids before))

-- A session that began has the boundary at the last page, and no turn of an earlier page; one that did not
-- leaves the boundary as it was or has written it.
abbrev pub Begun :
    ℕ → List Entry → MemoryStore → Result (StoreError MemoryError) ℕ → MemoryStore → Type 0
Begun n before s (ok floor) s' =
    (floor ≡ boundary before)
    × (s'.entries ≡ before)
    × (s'.index ≡ s.index)
    × (recent_dialogue false n s' ≡ [])
Begun n before s (err e) s' =
    (s'.index ≡ s.index)
    × ((s'.floor.index ≡ s.floor.index) ⊎ (s'.floor.index ≡ text (floor_text (boundary before))))

module _ (env : Env) (n : ℕ) (before : List Entry) (s : MemoryStore)
    (valid : IsMemoryList before) where
  ended :
      (x : Result WriteStage Unit × Dir)
      → (x.0 ≡ ok tt) × (x.1.index ≡ text (floor_text (boundary before)))
        ⊎ (st : WriteStage) × (x.0 ≡ err st)
          × ((x.1.index ≡ s.floor.index) ⊎ (x.1.index ≡ text (floor_text (boundary before))))
      → Begun n before s
          (end_session (record s { entries = before }) (boundary before) x).0
          (end_session (record s { entries = before }) (boundary before) x).1
  ended (ok u, d) (inr h) = absurd (ok_ne_err h.1)
  ended (err st, d) (inl h) = absurd (ok_ne_err (sym h.0))
  ended (err st, d) (inr h) = (refl, h.2)
  ended (ok u, d) (inl h) = (
    refl,
    refl,
    refl,
    no_dialogue n (boundary before) (record s { entries = before; floor = d })
        (dialogue_floor-floor_text (boundary before) (record s { entries = before; floor = d })
          (highest-le before valid.sound) h.1)
        (max_id-Below (suc (boundary before)) (ids before) (highest_above (max_id (ids before)))),
  )

  loaded :
      (o : Result LoadError (List Entry))
      → (o ≡ ok before) ⊎ (e : LoadError) × (o ≡ err e)
      → Begun n before s (session_loaded env s o).0 (session_loaded env s o).1
  loaded (err e) h = (refl, inl refl)
  loaded (ok found) (inr h) = absurd (ok_ne_err h.1)
  loaded (ok found) (inl h) =
      rw (ok_injective h)
        (ended _ (atomic_write-cases env.write_fault (floor_text (boundary before)) s.floor))

-- From an index that holds a valid list: after a successful `begin_dialogue_session` no page
-- that is in the index is a turn of the conversation any more, and the index is what it was; after a
-- failed one the index is what it was, and the boundary is the old one or the new one.
pub begin_dialogue_session-Begun :
    (env : Env) (n : ℕ) (before : List Entry) (s : MemoryStore)
    → IsMemoryList before
    → load_unlocked memory_format false s.index ≡ ok before
    → Begun n before s (begin_dialogue_session env s).0 (begin_dialogue_session env s).1
unfolding begin_dialogue_session
begin_dialogue_session-Begun env n before s v l =
    if_cases (λ (x : Result (StoreError MemoryError) ℕ × MemoryStore). Begun n before s x.0 x.1)
      env.lock_fails (λ locked. (refl, inl refl))
      (λ free.
        loaded env n before s v (load_unlocked memory_format env.read_fails s.index)
          (loaded_or_failed env.read_fails s.index before l))
