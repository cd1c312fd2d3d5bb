-- ===== src/Storage/Todos/Adding.antt =====
-- src/storage/todos.rs (`add_from_transcript`): adding a note from end to end, whatever the operating
-- system refuses.
use mathlib.Core.Path.{subst}
use riddle.Prelude.{
  ℕ, ◌≤◌, ◌≡◌, ◌≢◌, ◌⊎◌, refl, sym, ap, ◌∙◌, false, Option, none, some, List, Result, ok, err,
  arith, Bool-cases, inl, inr, ltb,
}
use riddle.Text.{Text, byte_len}
use riddle.Text.Decimal.{u64_max}
use riddle.Storage.Index.{Env, StoreError, keep, write, load_unlocked, transact}
use riddle.Storage.Index.Changes.{ok_eq, some_eq}
use riddle.Storage.Index.Transactions.{Settled, transact-Settled}
use riddle.Storage.Todos.{
  Todo, TodoStore, TodoError, AddError, todo_format, max_todo_text_bytes, parse_add, perform_add,
  changed, add_parsed, add_from_transcript,
}
use riddle.Storage.Todos.Columns.{todo_codec}
use riddle.Storage.Todos.Changes.{
  IsTodoList, Added, perform_add-Added, perform_add-ne-keep, perform_add-IsTodoList,
  parse_add-IsNote,
}

-- How `add_from_transcript` ends.
pub record IsAdded (transcript : Text) (before : List Todo) (r : Result AddError (Option Todo))
    (s : TodoStore) : Type 0 where
  pub after : List Todo
  pub valid : IsTodoList after
  pub loads : load_unlocked todo_format false s.dir ≡ ok after
  pub old_or_new :
      (after ≡ before)
      ⊎ (todo : Todo) × (parse_add transcript ≡ some todo.text) × Added todo.text before todo after
  pub added :
      (todo : Todo)
      → r ≡ ok (some todo)
      → (parse_add transcript ≡ some todo.text) × Added todo.text before todo after
  pub synced : (todo : Todo) → r ≡ ok (some todo) → s.entries ≡ after

untouched-IsAdded :
    (transcript : Text) (s : TodoStore) (before : List Todo) (r : Result AddError (Option Todo))
    → IsTodoList before
    → load_unlocked todo_format false s.dir ≡ ok before
    → ((todo : Todo) → r ≢ ok (some todo))
    → IsAdded transcript before r s
untouched-IsAdded transcript s before r v l n = record {
  after = before;
  valid = v;
  loads = l;
  old_or_new = inl refl;
  added = λ todo h. absurd (n todo h);
  synced = λ todo h. absurd (n todo h);
}

Added-as :
    (transcript text : Text) (now : ℕ) (before after : List Todo) (b : Todo)
    → parse_add transcript ≡ some text
    → now ≤ u64_max
    → perform_add text now before ≡ write b after
    → (parse_add transcript ≡ some b.text) × Added b.text before b after
Added-as transcript text now before after b q fits e =
    let made = perform_add-Added text now before b after fits e in
    (q ∙ ap some (sym made.0), (refl, made.1, made.2))

answered-Added :
    (transcript text : Text) (now : ℕ) (before after : List Todo) (b : Todo)
    → parse_add transcript ≡ some text
    → now ≤ u64_max
    → (perform_add text now before ≡ keep b) × (after ≡ before)
      ⊎ (perform_add text now before ≡ write b after)
    → (parse_add transcript ≡ some b.text) × Added b.text before b after
answered-Added transcript text now before after b q fits (inl e) =
    absurd (perform_add-ne-keep text now before b e.0)
answered-Added transcript text now before after b q fits (inr e) =
    Added-as transcript text now before after b q fits e

old_or_Added :
    (transcript text : Text) (now : ℕ) (before after : List Todo)
    → parse_add transcript ≡ some text
    → now ≤ u64_max
    → (after ≡ before) ⊎ (b : Todo) × (perform_add text now before ≡ write b after)
    → (after ≡ before)
      ⊎ (todo : Todo) × (parse_add transcript ≡ some todo.text) × Added todo.text before todo after
old_or_Added transcript text now before after q fits (inl e) = inl e
old_or_Added transcript text now before after q fits (inr (b, e)) =
    let made = Added-as transcript text now before after b q fits e in inr (b, made.0, made.1)

changed-IsAdded :
    (env : Env) (transcript text : Text) (now : ℕ) (before : List Todo)
    (x : Result (StoreError TodoError) Todo × TodoStore)
    → parse_add transcript ≡ some text
    → now ≤ u64_max
    → Settled todo_format todo_codec env (perform_add text now) before x.0 x.1
    → IsAdded transcript before (changed x).0 (changed x).1
changed-IsAdded env transcript text now before (err e, s) q fits t = record {
  after = t.after;
  valid = t.valid;
  loads = t.loads;
  old_or_new = old_or_Added transcript text now before t.after q fits t.old_or_new;
  added = λ todo h. absurd (cc);
  synced = λ todo h. absurd (cc);
}
changed-IsAdded env transcript text now before (ok b, s) q fits t = record {
  after = t.after;
  valid = t.valid;
  loads = t.loads;
  old_or_new = old_or_Added transcript text now before t.after q fits t.old_or_new;
  added = λ todo h.
      subst (λ (u : Todo). (parse_add transcript ≡ some u.text) × Added u.text before u t.after)
        (some_eq (ok_eq h))
        (answered-Added transcript text now before t.after b q fits (t.answered b refl));
  synced = λ todo h. t.synced b refl;
}

IsAdded-parsed :
    (env : Env) (transcript : Text) (now : ℕ) (s : TodoStore) (before : List Todo) (o : Option Text)
    → parse_add transcript ≡ o
    → IsTodoList before
    → load_unlocked todo_format false s.dir ≡ ok before
    → now ≤ u64_max
    → IsAdded transcript before (add_parsed env now s o).0 (add_parsed env now s o).1
IsAdded-parsed env transcript now s before none q v l fits =
    untouched-IsAdded transcript s before _ v l (λ todo h. cc)
IsAdded-parsed env transcript now s before (some text) q v l fits =
    elim (Bool-cases (ltb max_todo_text_bytes (byte_len text))) [
      | inl long ↦ rw long (untouched-IsAdded transcript s before _ v l (λ todo h. cc))
      | inr short ↦ rw short (
          changed-IsAdded env transcript text now before
            (transact todo_format env (perform_add text now) s) q fits
            (transact-Settled todo_format todo_codec env (perform_add text now) s before v l
              (λ loaded b new w e.
                perform_add-IsTodoList text now loaded b new fits
                  (parse_add-IsNote transcript text q) (ground arith) w e)))
    ]

-- From a directory that holds a valid TODO list, every handwritten text, whatever the operating
-- system refuses, leaves a valid list there: the old one, or that with the parsed note at its end
-- under an id above all others. A reported note is that one, and memory then equals the disk.
pub add_from_transcript-IsAdded :
    (env : Env) (transcript : Text) (now : ℕ) (s : TodoStore) (before : List Todo)
    → IsTodoList before
    → load_unlocked todo_format false s.dir ≡ ok before
    → now ≤ u64_max
    → IsAdded transcript before
        (add_from_transcript env transcript now s).0
        (add_from_transcript env transcript now s).1
unfolding add_from_transcript
add_from_transcript-IsAdded env transcript now s before v l fits =
    IsAdded-parsed env transcript now s before (parse_add transcript) refl v l fits
