-- ===== src/Storage/Todos.antt =====
-- src/storage/todos.rs: the unscheduled TODO notes.
pub mod Columns
pub mod Changes
pub mod Adding
use riddle.Prelude.{
  ℕ, zero, suc, ◌+◌, ◌-◌, ◌*◌, ◌≡◌, refl, Bool, true, false, not, ◌&&◌, ◌||◌, Option, none, some,
  List, [], ◌∷◌, ◌++◌, ltb, leb, ◌==◌, if◌then◌else◌, Result, ok, err, ◌>>=◌, ◌>>◌, reject, ok_or,
  map_err, length, get_elem?, remove_at, is_empty, map,
}
use riddle.Text.{
  Text, lit, byte_len, trim, split_bytes, trim_start_matches, is_whitespace, one_of,
  is_alphanumeric, eq_ignore_ascii_case,
}
use riddle.Text.Splitting.{split}
use riddle.Text.Decimal.{parse, print}
use riddle.Storage.Escape.{escape, unescape_field}
use riddle.Storage.Index.{
  Format, Store, Env, LineError, StoreError, Outcome, refuse, write, contains, transact,
  empty_record, wrong_columns, invalid_id, duplicate_id, empty_text, oversized_text, bad_escape,
}
use riddle.Storage.Index.Ids.{next_id}

abbrev pub max_todos : ℕ
max_todos = 20

abbrev pub max_todo_text_bytes : ℕ
max_todo_text_bytes = 4 * 1024

abbrev pub max_todo_index_bytes : ℕ
max_todo_index_bytes = 256 * 1024

pub record Todo : Type 0 where
  pub id : ℕ
  pub text : Text

pub data TodoError : Type 0 where
  too_many_todos id_space_exhausted index_panic : TodoError
  no_such_todo : ℕ → ℕ → TodoError

unfoldable pub decode_columns : List ℕ → List Text → Result LineError Todo
decode_columns seen (c0 ∷ c1 ∷ []) = do
  id ← ok_or invalid_id (parse c0)
  reject (contains seen id) duplicate_id
  text ← map_err bad_escape (unescape_field c1)
  reject (is_empty (trim text)) empty_text
  reject (ltb max_todo_text_bytes (byte_len text)) oversized_text
  ok (record { id = id; text = text })
decode_columns seen _ = err wrong_columns

-- The body of the loop of `load_unlocked`.
unfoldable pub decode_line : List ℕ → Text → Result LineError Todo
decode_line seen [] = err empty_record
decode_line seen (c ∷ line) = decode_columns seen (split b'\t' (c ∷ line))

-- A line of `persist`, without its newline.
unfoldable pub encode_line : Todo → Text
encode_line t = print t.id ++ b'\t' ∷ escape t.text

abbrev pub todo_format : Format Todo
todo_format = record {
  max_entries = max_todos;
  max_bytes = max_todo_index_bytes;
  entry_id = λ t. t.id;
  decode_line = decode_line;
  encode_line = encode_line;
}

abbrev pub TodoStore : Type 0
TodoStore = Store Todo

-- A letter, a digit or an underscore right after the word makes it another word.
abbrev continues_word : Text → Bool
continues_word [] = false
continues_word (c ∷ s) = is_alphanumeric c || c == b'_'

abbrev is_separator : ℕ → Bool
is_separator c = is_whitespace c || one_of (lit ":：,，-—") c

abbrev non_empty : Text → Option Text
non_empty [] = none
non_empty (c ∷ s) = some (c ∷ s)

abbrev parse_after : Text × Text → Option Text
parse_after (front, rest) =
    if not (eq_ignore_ascii_case front (lit "todo"))
    then none
    else if continues_word rest
    then none
    else non_empty (trim (trim_start_matches is_separator rest))

abbrev parse_split : Option (Text × Text) → Option Text
parse_split none = none
parse_split (some parts) = parse_after parts

unfoldable pub parse_add : Text → Option Text
parse_add transcript = parse_split (split_bytes 4 (trim transcript))

-- `is_local_add_command`
unfoldable pub is_local_add_command : Text → Bool
is_local_add_command text = elim (parse_add text) [ none ↦ false | some _ ↦ true ]

abbrev pub add_with : List Todo → Text → Option ℕ → Outcome Todo TodoError Todo
add_with entries text none = refuse id_space_exhausted
add_with entries text (some id) =
    let todo : Todo = record { id = id; text = text } in write todo (entries ++ todo ∷ [])

unfoldable pub perform_add : Text → ℕ → List Todo → Outcome Todo TodoError Todo
perform_add text now entries =
    if leb max_todos (length entries)
    then refuse too_many_todos
    else add_with entries text (next_id (map (λ (t : Todo). t.id) entries) now)

abbrev pub removed_at : List Todo → ℕ → Option Todo → Outcome Todo TodoError Todo
removed_at entries i none = refuse index_panic
removed_at entries i (some todo) = write todo (remove_at i entries)

unfoldable pub perform_delete : ℕ → List Todo → Outcome Todo TodoError Todo
perform_delete number entries =
    if number == 0 || ltb (length entries) number
    then refuse (no_such_todo number (length entries))
    else removed_at entries (number - 1) (get_elem? entries (number - 1))

pub data AddError : Type 0 where
  oversized : AddError
  store_failed : StoreError TodoError → AddError

abbrev pub changed :
    Result (StoreError TodoError) Todo × TodoStore → Result AddError (Option Todo) × TodoStore
changed (ok todo, s) = (ok (some todo), s)
changed (err e, s) = (err (store_failed e), s)

abbrev pub add_parsed :
    Env → ℕ → TodoStore → Option Text → Result AddError (Option Todo) × TodoStore
add_parsed env now s none = (ok none, s)
add_parsed env now s (some text) =
    if ltb max_todo_text_bytes (byte_len text)
    then (err oversized, s)
    else changed (transact todo_format env (perform_add text now) s)

unfoldable pub add_from_transcript :
    Env → Text → ℕ → TodoStore → Result AddError (Option Todo) × TodoStore
add_from_transcript env transcript now s = add_parsed env now s (parse_add transcript)

unfoldable pub delete_number : Env → ℕ → TodoStore → Result (StoreError TodoError) Todo × TodoStore
delete_number env number s = transact todo_format env (perform_delete number) s

-- `entries.iter().enumerate().map(…)`, from an index on, with what stands between number and text.
unfoldable pub numbered_from : Text → ℕ → List Todo → List Text
numbered_from gap i [] = []
numbered_from gap i (todo ∷ todos) =
    (print (i + 1) ++ gap ++ todo.text) ∷ numbered_from gap (i + 1) todos

unfoldable pub catalog_lines : List Todo → List Text
unfolding numbered_from
catalog_lines entries = numbered_from (lit ". ") 0 entries

unfoldable pub panel_lines : List Todo → List Text
unfolding numbered_from
panel_lines entries = numbered_from (lit "  ") 0 entries
