-- ===== src/Storage/Memory/Dialogue.antt =====
-- src/storage/memory/dialogue.rs: the boundary of a conversation, and the turns that ride along with a
-- request.
pub mod Cutting
pub mod Recent
pub mod Sessions
use riddle.Prelude.{
  ℕ, ◌+◌, ◌*◌, Bool, true, false, not, ◌&&◌, Option, none, some, List, [], ◌∷◌, ◌++◌, ltb, leb,
  ◌==◌, if◌then◌else◌, Result, ok, err, is_empty, take, zero, suc, filter_by, reverse,
}
use riddle.Text.{Text, byte_len, split_bytes, trim}
use riddle.Text.Decimal.{u64_max, parse, print, saturating_add}
use riddle.Storage.Persistence.{Dir, ReadError, WriteStage, read_optional_utf8, atomic_write}
use riddle.Storage.Index.{
  Env, StoreError, LoadError, lock_failed, load_failed, save_failed, load_unlocked,
}
use riddle.Storage.Index.Ids.{max_id}
use riddle.Storage.Memory.{Entry, MemoryStore, memory_format, ids}
use riddle.Storage.Memory.Appending.{MemoryError}

abbrev pub max_dialogue_field_bytes : ℕ
max_dialogue_field_bytes = 8 * 1024

abbrev pub max_context_bytes : ℕ
max_context_bytes = 256 * 1024

abbrev pub max_dialogue_floor_bytes : ℕ
max_dialogue_floor_bytes = 64

abbrev pub front_or : Text → Option (Text × Text) → Text
front_or otherwise none = otherwise
front_or otherwise (some (front, rest)) = front

-- The loop of `truncate_utf8`: the end moves down to the boundary of a character.
unfoldable pub cut : ℕ → Text → Text
unfolding split_bytes
cut zero value = []
cut (suc end) value = front_or (cut end value) (split_bytes (suc end) value)

unfoldable pub truncate_utf8 : Text → ℕ → Text
unfolding cut
truncate_utf8 value maximum = if leb (byte_len value) maximum then value else cut maximum value

-- What a page contributes.
abbrev pub turn : Entry → Text × Text
turn e = (
  truncate_utf8 e.transcript max_dialogue_field_bytes,
  truncate_utf8 e.reply max_dialogue_field_bytes,
)

abbrev pub turn_bytes : Entry → ℕ
turn_bytes e = saturating_add (byte_len (turn e).0) (byte_len (turn e).1)

-- The loop of `recent_dialogue`, newest first.
unfoldable pub recent_turns : ℕ → List Entry → List (Text × Text)
unfolding truncate_utf8
recent_turns bytes [] = []
recent_turns bytes (e ∷ entries) =
    let rest = recent_turns (bytes + turn_bytes e) entries in
    if ltb max_context_bytes (saturating_add bytes (turn_bytes e)) then [] else turn e ∷ rest

-- `entry.id > floor && !entry.transcript.is_empty()`
abbrev pub in_dialogue : ℕ → Entry → Bool
in_dialogue floor e = ltb floor e.id && not (is_empty e.transcript)

abbrev floor_of : Option ℕ → ℕ
floor_of none = u64_max
floor_of (some n) = n

abbrev found_floor : Result ReadError (Option Text) → ℕ
found_floor (err e) = u64_max
found_floor (ok none) = 0
found_floor (ok (some value)) = floor_of (parse (trim value))

-- A boundary that cannot be read withholds everything.
unfoldable pub dialogue_floor : Bool → MemoryStore → ℕ
dialogue_floor read_fails s =
    found_floor (read_optional_utf8 read_fails s.floor.index max_dialogue_floor_bytes)

-- The last `n` turns, oldest first.
unfoldable pub recent_dialogue : Bool → ℕ → MemoryStore → List (Text × Text)
unfolding recent_turns dialogue_floor
recent_dialogue read_fails n s = reverse (
    recent_turns 0
      (take n (filter_by (in_dialogue (dialogue_floor read_fails s)) (reverse s.entries))))

-- `max().unwrap_or(0)`
abbrev pub highest : Option ℕ → ℕ
highest none = 0
highest (some n) = n

abbrev pub end_session :
    MemoryStore
    → ℕ
    → Result WriteStage (Unit {0}) × Dir
    → Result (StoreError MemoryError) ℕ × MemoryStore
end_session s floor (ok _, d) = (ok floor, record s { floor = d })
end_session s floor (err stage, d) = (err (save_failed stage), record s { floor = d })

abbrev pub session_loaded :
    Env
    → MemoryStore
    → Result LoadError (List Entry)
    → Result (StoreError MemoryError) ℕ × MemoryStore
session_loaded env s (err e) = (err (load_failed e), s)
session_loaded env s (ok loaded) =
    let floor = highest (max_id (ids loaded)) in
    end_session (record s { entries = loaded }) floor
      (atomic_write env.write_fault (print floor ++ b'\n' ∷ []) s.floor)

unfoldable pub begin_dialogue_session :
    Env → MemoryStore → Result (StoreError MemoryError) ℕ × MemoryStore
begin_dialogue_session env s =
    if env.lock_fails
    then (err lock_failed, s)
    else session_loaded env s (load_unlocked memory_format env.read_fails s.index)
