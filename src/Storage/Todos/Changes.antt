-- ===== src/Storage/Todos/Changes.antt =====
-- src/storage/todos.rs: what a note that is parsed guarantees, and what adding and deleting write.
use mathlib.Core.Path.{subst}
use riddle.Prelude.{
  ℕ, ◌-◌, ◌≤◌, ◌<◌, ◌≡◌, ◌≢◌, refl, sym, ap, ◌∙◌, Bool, true, false, not, ◌||◌, Option, none, some,
  List, [], ◌∷◌, ◌++◌, arith, length, get_elem?, map, is_empty, last?, if◌then◌else◌, ltb, leb,
  ◌==◌,
}
use riddle.Text.{Text, byte_len, trim, split_bytes, lit, trim_start_matches, eq_ignore_ascii_case}
use riddle.Text.Decimal.{u64_max}
use riddle.Text.Trimming.{trimmed_visible, trimmed_closed}
use riddle.Storage.Index.{Outcome, keep, write}
use riddle.Storage.Index.Ids.{next_id, next_id_fresh, contains-Below, Below}
use riddle.Storage.Index.Changes.{
  write_eq, if_refuse-write, some_eq, remove_at-IsValid, append-IsValid,
}
use riddle.Storage.Index.RoundTrip.{IsValid}
use riddle.Storage.Todos.{
  Todo, todo_format, max_todos, max_todo_text_bytes, parse_add, parse_split, non_empty,
  is_separator, add_with, perform_add, removed_at, perform_delete,
}
use riddle.Storage.Todos.Columns.{todo_codec}

abbrev pub IsTodoList : List Todo → Type 0
IsTodoList = IsValid todo_format todo_codec

pub answer_eq :
    {A E B : Type 0} {b c : B} {x y : List A}
    → ◌≡◌ {A = Outcome A E B} (write b x) (write c y)
    → b ≡ c
answer_eq h = cc

-- A note as the parser yields it.
pub record IsNote (text : Text) : Type 0 where
  pub visible : is_empty (trim text) ≡ false
  pub closed : last? text ≢ some b'\r'

non_empty-eq : (s t : Text) → non_empty s ≡ some t → (s ≡ t) × (is_empty s ≡ false)
non_empty-eq [] t h = cc
non_empty-eq (c ∷ s) t h = (some_eq h, refl)

trimmed-IsNote : (s t : Text) → non_empty (trim s) ≡ some t → IsNote t
trimmed-IsNote s t h =
    let (e, full) = non_empty-eq (trim s) t h in
    subst IsNote e (record { visible = trimmed_visible s full; closed = trimmed_closed s })

if_none-some :
    (test : Bool) (o : Option Text) (t : Text) → (if test then none else o) ≡ some t → o ≡ some t
if_none-some true o t h = cc
if_none-some false o t h = h

parse_split-IsNote : (o : Option (Text × Text)) (t : Text) → parse_split o ≡ some t → IsNote t
parse_split-IsNote none t h = cc
parse_split-IsNote (some (front, rest)) t h =
    trimmed-IsNote (trim_start_matches is_separator rest) t
      (if_none-some _ _ t (if_none-some (not (eq_ignore_ascii_case front (lit "todo"))) _ t h))

-- What the parser yields is visible and ends in no carriage return.
pub parse_add-IsNote : (transcript text : Text) → parse_add transcript ≡ some text → IsNote text
unfolding parse_add
parse_add-IsNote transcript text h = parse_split-IsNote (split_bytes 4 (trim transcript)) text h

add_with-IsTodoList :
    (entries : List Todo) (text : Text) (now : ℕ) (o : Option ℕ) (b : Todo) (new : List Todo)
    → next_id (map (λ (t : Todo). t.id) entries) now ≡ o
    → add_with entries text o ≡ write b new
    → now ≤ u64_max
    → IsNote text
    → byte_len text ≤ max_todo_text_bytes
    → length entries < max_todos
    → IsTodoList entries
    → IsTodoList new
add_with-IsTodoList entries text now none b new e h fits p short room v = cc
add_with-IsTodoList entries text now (some i) b new e h fits p short room v =
    let (below, _, id_fits) = next_id_fresh (map (λ (t : Todo). t.id) entries) now i e fits in
    subst IsTodoList (write_eq h) (
      append-IsValid todo_format todo_codec entries (record { id = i; text = text })
        (contains-Below i (map (λ (t : Todo). t.id) entries) below)
        (record { id_fits = id_fits; visible = p.visible; short = short; closed = p.closed }) room
        v)

pub perform_add-IsTodoList :
    (text : Text) (now : ℕ) (entries : List Todo) (b : Todo) (new : List Todo)
    → now ≤ u64_max
    → IsNote text
    → byte_len text ≤ max_todo_text_bytes
    → IsTodoList entries
    → perform_add text now entries ≡ write b new
    → IsTodoList new
unfolding perform_add
perform_add-IsTodoList text now entries b new fits p short v h =
    let (room, w) = if_refuse-write (leb max_todos (length entries)) _ _ b new h in
    add_with-IsTodoList entries text now (next_id (map (λ (t : Todo). t.id) entries) now) b new refl
      w fits p short (ground arith) v

removed_at-IsTodoList :
    (entries : List Todo) (i : ℕ) (o : Option Todo) (b : Todo) (new : List Todo)
    → IsTodoList entries
    → removed_at entries i o ≡ write b new
    → IsTodoList new
removed_at-IsTodoList entries i none b new v h = cc
removed_at-IsTodoList entries i (some t) b new v h =
    subst IsTodoList (write_eq h) (remove_at-IsValid todo_format todo_codec i entries v)

-- From a valid list, deleting by number writes a valid list.
pub perform_delete-IsTodoList :
    (number : ℕ) (entries : List Todo) (b : Todo) (new : List Todo)
    → IsTodoList entries
    → perform_delete number entries ≡ write b new
    → IsTodoList new
unfolding perform_delete
perform_delete-IsTodoList number entries b new v h =
    let (_, w) = if_refuse-write (number == 0 || ltb (length entries) number) _ _ b new h in
    removed_at-IsTodoList entries (number - 1) (get_elem? entries (number - 1)) b new v w

-- `after` is `before` with a note of this text at its end, under an id above all others.
abbrev pub Added : Text → List Todo → Todo → List Todo → Type 0
Added text before todo after =
    (todo.text ≡ text)
    × Below todo.id (map (λ (t : Todo). t.id) before)
    × (after ≡ before ++ todo ∷ [])

add_with-Added :
    (entries : List Todo) (text : Text) (now : ℕ) (o : Option ℕ) (b : Todo) (new : List Todo)
    → next_id (map (λ (t : Todo). t.id) entries) now ≡ o
    → add_with entries text o ≡ write b new
    → now ≤ u64_max
    → Added text entries b new
add_with-Added entries text now none b new e h fits = cc
add_with-Added entries text now (some i) b new e h fits =
    let made = answer_eq h in
    (
      sym (ap (λ (t : Todo). t.text) made),
      subst (λ (t : Todo). Below t.id (map (λ (t : Todo). t.id) entries)) made
          (next_id_fresh (map (λ (t : Todo). t.id) entries) now i e fits).0,
      sym (write_eq h) ∙ ap (λ (t : Todo). entries ++ t ∷ []) made,
    )

pub perform_add-Added :
    (text : Text) (now : ℕ) (entries : List Todo) (b : Todo) (new : List Todo)
    → now ≤ u64_max
    → perform_add text now entries ≡ write b new
    → Added text entries b new
unfolding perform_add
perform_add-Added text now entries b new fits h =
    let (_, w) = if_refuse-write (leb max_todos (length entries)) _ _ b new h in
    add_with-Added entries text now (next_id (map (λ (t : Todo). t.id) entries) now) b new refl w
      fits

pub perform_add-ne-keep :
    (text : Text) (now : ℕ) (entries : List Todo) (b : Todo) → perform_add text now entries ≢ keep b
unfolding perform_add
perform_add-ne-keep text now entries b h = ground arith
