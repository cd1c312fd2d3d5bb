-- ===== src/Storage/Index.antt =====
-- One index file for a list of entries, as src/storage/tasks/mod.rs, src/storage/todos.rs and
-- src/storage/memory.rs each write it out: the loop over its lines, and the transaction that every
-- change is made in. What differs between the stores is the parameter `Format`.
pub mod Distinct
pub mod RoundTrip
pub mod Ids
pub mod Changes
pub mod Transactions
use riddle.Prelude.{
  ℕ, ◌+◌, ◌≡◌, refl, Bool, true, false, Option, none, some, List, [], ◌∷◌, ◌++◌, ltb, ◌==◌,
  if◌then◌else◌, Result, ok, err, length, any, map, zero,
}
use riddle.Text.{Text}
use riddle.Text.Splitting.{lines}
use riddle.Storage.Escape.{EscapeError}
use riddle.Storage.Persistence.{
  Dir, File, ReadError, WriteStage, WriteFault, read_optional_utf8, atomic_write,
}

-- What is wrong with a line.
pub data LineError : Type 0 where
  empty_record wrong_columns invalid_id invalid_interval invalid_due short_interval : LineError
  duplicate_id invalid_state empty_text oversized_text too_many_records : LineError
  bad_escape : EscapeError → LineError

pub data LoadError : Type 0 where
  unreadable : ReadError → LoadError
  invalid_line : ℕ → LineError → LoadError

-- `ids.contains`
abbrev pub contains : List ℕ → ℕ → Bool
contains xs i = any (λ j. j == i) xs

-- The columns of one store. A line is decoded in sight of the ids of the lines above it.
pub record Format (A : Type 0) : Type 0 where
  pub max_entries : ℕ
  pub max_bytes : ℕ
  pub entry_id : A → ℕ
  pub decode_line : List ℕ → Text → Result LineError A
  pub encode_line : A → Text

-- The store in memory and its directory.
pub record Store (A : Type 0) : Type 0 where
  pub entries : List A
  pub dir : Dir

-- What the operating system does in one operation: the lock, the read, the replacement, and the
-- read that recovers from a failed replacement.
pub record Env : Type 0 where
  pub lock_fails : Bool
  pub read_fails : Bool
  pub write_fault : Option WriteFault
  pub reread_fails : Bool

pub data StoreError (E : Type 0) : Type 0 where
  lock_failed : StoreError E
  load_failed : LoadError → StoreError E
  refused : E → StoreError E
  save_failed : WriteStage → StoreError E

-- What an operation does with the entries that were loaded: it refuses, returns without a write, or
-- writes new entries.
pub data Outcome (A E B : Type 0) : Type 0 where
  refuse : E → Outcome A E B
  keep : B → Outcome A E B
  write : B → List A → Outcome A E B

module _ {A : Type 0} (F : Format A) where
  open F use {max_entries, max_bytes, entry_id, decode_line, encode_line}

  -- The loop over `text.lines().enumerate()`.
  unfoldable pub load_lines : ℕ → List A → List Text → Result LoadError (List A)
  load_lines number entries [] = ok entries
  load_lines number entries (l ∷ ls) = elim (decode_line (map entry_id entries) l) [
    | err e ↦ err (invalid_line number e)
    | ok a ↦
        let rest = load_lines (number + 1) (entries ++ a ∷ []) ls in
        if ltb max_entries (length (entries ++ a ∷ []))
        then err (invalid_line number too_many_records)
        else rest
  ]

  abbrev load_text : Option Text → Result LoadError (List A)
  load_text none = ok []
  load_text (some t) = load_lines 1 [] (lines t)

  abbrev load_found : Result ReadError (Option Text) → Result LoadError (List A)
  load_found (err e) = err (unreadable e)
  load_found (ok found) = load_text found

  -- `load_unlocked`, as the entries that it would leave.
  unfoldable pub load_unlocked : Bool → Dir → Result LoadError (List A)
  load_unlocked read_fails d = load_found (read_optional_utf8 read_fails d.index max_bytes)

  -- The text that `persist` writes.
  unfoldable pub render : List A → Text
  render [] = []
  render (a ∷ rest) = encode_line a ++ b'\n' ∷ render rest

  abbrev recovered_store : List A → Dir → Result LoadError (List A) → Store A
  recovered_store fallback d (ok entries) = record { entries = entries; dir = d }
  recovered_store fallback d (err _) = record { entries = fallback; dir = d }

  unfoldable pub recover_after_failed_persist : Bool → List A → Dir → Store A
  recover_after_failed_persist reread_fails fallback d =
      recovered_store fallback d (load_unlocked reread_fails d)

  module _ {B E : Type 0} where
    -- The end of `persist`: its error makes the store recover.
    abbrev pub settle :
        Env
        → List A
        → B
        → List A
        → Result WriteStage (Unit {0}) × Dir
        → Result (StoreError E) B × Store A
    settle env old b new (ok _, d) = (ok b, record { entries = new; dir = d })
    settle env old b new (err s, d) =
        (err (save_failed s), recover_after_failed_persist env.reread_fails old d)

    unfoldable pub commit : Env → List A → B → List A → Dir → Result (StoreError E) B × Store A
    commit env old b new d = settle env old b new (atomic_write env.write_fault (render new) d)

    abbrev pub conclude : Env → List A → Dir → Outcome A E B → Result (StoreError E) B × Store A
    conclude env loaded d (refuse e) = (err (refused e), record { entries = loaded; dir = d })
    conclude env loaded d (keep b) = (ok b, record { entries = loaded; dir = d })
    conclude env loaded d (write b new) = commit env loaded b new d

    abbrev proceed :
        Env
        → (List A → Outcome A E B)
        → Store A
        → Result LoadError (List A)
        → Result (StoreError E) B × Store A
    proceed env op s (err e) = (err (load_failed e), s)
    proceed env op s (ok loaded) = conclude env loaded s.dir (op loaded)

    -- Every operation: lock, reload, decide on the fresh entries, and write under the lock.
    unfoldable pub transact :
        Env → (List A → Outcome A E B) → Store A → Result (StoreError E) B × Store A
    transact env op s =
        if env.lock_fails
        then (err lock_failed, s)
        else proceed env op s (load_unlocked env.read_fails s.dir)
