-- ===== src/Storage/Memory.antt =====
-- src/storage/memory.rs: the remembered pages, the columns of their index file, and the files that the
-- store keeps.
pub mod Columns
pub mod Strokes
pub mod Appending
pub mod Dialogue
pub mod Dates
pub mod Listing
pub mod Examples
use riddle.Prelude.{
  ℕ, ◌+◌, ◌*◌, ◌||◌, Bool, Option, none, some, List, [], ◌∷◌, ◌++◌, ltb, ◌==◌, if◌then◌else◌,
  Result, ok, err, ◌>>=◌, ◌>>◌, reject, ok_or, map_err, map, max,
}
use riddle.Text.{Text, byte_len}
use riddle.Text.Splitting.{split}
use riddle.Text.Decimal.{parse, print, saturating_add}
use riddle.Storage.Escape.{escape, unescape_field}
use riddle.Storage.Persistence.{Dir}
use riddle.Storage.Index.{
  Format, LineError, contains, empty_record, wrong_columns, invalid_id, duplicate_id, bad_escape,
  oversized_text,
}
use riddle.Storage.Index.Ids.{max_id}

abbrev pub max_memories : ℕ
max_memories = 400

abbrev pub max_memory_field_bytes : ℕ
max_memory_field_bytes = 64 * 1024

abbrev pub max_memory_index_bytes : ℕ
max_memory_index_bytes = 128 * 1024 * 1024

abbrev pub max_strokes_bytes : ℕ
max_strokes_bytes = 16 * 1024 * 1024

pub record Entry : Type 0 where
  pub id : ℕ
  pub transcript : Text
  pub reply : Text

-- `transcript.len() > MAX_MEMORY_FIELD_BYTES || reply.len() > MAX_MEMORY_FIELD_BYTES`
abbrev pub oversized : Text → Text → Bool
oversized transcript reply =
    ltb max_memory_field_bytes (byte_len transcript) || ltb max_memory_field_bytes (byte_len reply)

-- Exactly three columns.
unfoldable pub decode_columns : List ℕ → List Text → Result LineError Entry
decode_columns seen (c0 ∷ c1 ∷ c2 ∷ []) = do
  id ← ok_or invalid_id (parse c0)
  reject (contains seen id) duplicate_id
  transcript ← map_err bad_escape (unescape_field c1)
  reply ← map_err bad_escape (unescape_field c2)
  reject (oversized transcript reply) oversized_text
  ok (record { id = id; transcript = transcript; reply = reply })
decode_columns seen _ = err wrong_columns

-- The body of the loop of `load_unlocked`.
unfoldable pub decode_line : List ℕ → Text → Result LineError Entry
unfolding decode_columns
decode_line seen [] = err empty_record
decode_line seen (c ∷ line) = decode_columns seen (split b'\t' (c ∷ line))

-- A line of `persist_index`, without its newline.
unfoldable pub encode_line : Entry → Text
encode_line e = print e.id ++ b'\t' ∷ (escape e.transcript ++ b'\t' ∷ escape e.reply)

abbrev pub memory_format : Format Entry
memory_format = record {
  max_entries = max_memories;
  max_bytes = max_memory_index_bytes;
  entry_id = λ e. e.id;
  decode_line = decode_line;
  encode_line = encode_line;
}

-- The entries in memory, the index, the stroke file of each id, and the dialogue floor.
pub record MemoryStore : Type 0 where
  pub entries : List Entry
  pub index : Dir
  pub strokes : ℕ → Dir
  pub floor : Dir

abbrev pub ids : List Entry → List ℕ
ids entries = map (λ (e : Entry). e.id) entries

abbrev after_previous : ℕ → Option ℕ → ℕ
after_previous now none = now
after_previous now (some id) = max now (saturating_add id 1)

-- `MemoryStore::next_id`
unfoldable pub next_id : MemoryStore → ℕ → ℕ
unfolding max_id
next_id s now = after_previous now (max_id (ids s.entries))

-- `MemoryStore::get`
unfoldable pub get : ℕ → List Entry → Option Entry
get id [] = none
get id (e ∷ es) = if e.id == id then some e else get id es
