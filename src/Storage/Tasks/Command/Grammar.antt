-- ===== src/Storage/Tasks/Command/Grammar.antt =====
-- What a parsed command guarantees to the store (src/storage/tasks/parser.rs).
use mathlib.Core.Path.{subst}
use riddle.Prelude.{
  ltb, bind-ok, reject-ok, ℕ, ◌≤◌, ◌≡◌, ◌≢◌, false, Option, none, some, is_empty, last?, Result, ok,
  arith, List, Option-cases, inl, inr,
}
use riddle.Text.{Text, byte_len, trim, strip_any_prefix}
use riddle.Text.Decimal.{u64_max, saturating_mul}
use riddle.Text.Trimming.{trimmed_visible, trimmed_closed}
use riddle.Storage.Index.Changes.{some_eq, ok_eq}
use riddle.Storage.Tasks.{
  TaskCommand, add, delete, pause, resume, modify, min_interval_secs, max_task_instruction_bytes,
}
use riddle.Storage.Tasks.Command.{
  ParseError, Operation, numbered, found_command, scheduled, Parsed, choose, if_prefix,
  trim_separators, parse_number_prefix, parse_number_only, parse_schedule, parse_modify_command,
  parse_introduced, parse_trimmed, parse_command,
}

-- An interval and an instruction that the store accepts.
pub record IsSchedule (interval : ℕ) (instruction : Text) : Type 0 where
  pub interval_fits : interval ≤ u64_max
  pub interval_long : min_interval_secs ≤ interval
  pub visible : is_empty (trim instruction) ≡ false
  pub short : byte_len instruction ≤ max_task_instruction_bytes
  pub closed : last? instruction ≢ some b'\r'

abbrev pub IsCommand : TaskCommand → Type 0
IsCommand (add interval instruction) = IsSchedule interval instruction
IsCommand (delete n) = n ≢ 0
IsCommand (pause n) = n ≢ 0
IsCommand (resume n) = n ≢ 0
IsCommand (modify n interval instruction) = (n ≢ 0) × IsSchedule interval instruction

saturating_mul-le : (a b : ℕ) → saturating_mul a b ≤ u64_max
saturating_mul-le a b = ground arith

checked-IsSchedule :
    (interval : ℕ) (s : Text)
    → interval ≤ u64_max
    → ltb interval min_interval_secs ≡ false
    → is_empty (trim s) ≡ false
    → ltb max_task_instruction_bytes (byte_len (trim s)) ≡ false
    → IsSchedule interval (trim s)
checked-IsSchedule interval s fits long seen short = record {
  interval_fits = fits;
  interval_long = ground arith;
  visible = trimmed_visible s seen;
  short = ground arith;
  closed = trimmed_closed s;
}

-- A schedule that is parsed is one that the store accepts.
pub parse_schedule-IsSchedule :
    (s : Text) (x : ℕ × Text) → parse_schedule s ≡ ok x → IsSchedule x.0 x.1
unfolding parse_schedule
parse_schedule-IsSchedule s x h = grind (arith, trimmed_visible, trimmed_closed, saturating_mul-le)

parse_number_prefix-ne-zero :
    (s : Text) (o : Operation) (x : ℕ × Text) → parse_number_prefix s o ≡ ok x → x.0 ≢ 0
unfolding parse_number_prefix
parse_number_prefix-ne-zero s o x h = ground arith

parse_number_only-ne-zero :
    (s : Text) (o : Operation) (n : ℕ) → parse_number_only s o ≡ ok n → n ≢ 0
unfolding parse_number_only
parse_number_only-ne-zero s o n h =
    let (found, e, h1) = bind-ok _ _ h in
    let (_, h2) = reject-ok _ _ _ h1 in
    subst (λ m. m ≢ 0) (ok_eq h2) (parse_number_prefix-ne-zero s o found e)

parse_modify_command-IsCommand :
    (s : Text) (c : TaskCommand) → parse_modify_command s ≡ ok c → IsCommand c
unfolding parse_modify_command
parse_modify_command-IsCommand s c h =
    grind (arith, parse_number_prefix-ne-zero, parse_schedule-IsSchedule)

-- The three ways in which a branch of the parser makes its command.
abbrev Yields : Result ParseError (Option TaskCommand) → Type 0
Yields r = (c : TaskCommand) → r ≡ ok (some c) → IsCommand c

numbered-Yields :
    (build : ℕ → TaskCommand) (s : Text) (o : Operation)
    → ((n : ℕ) → n ≢ 0 → IsCommand (build n))
    → Yields (numbered build (parse_number_only s o))
numbered-Yields build s o k c h =
    let (n, e, h1) = bind-ok _ _ h in
    subst IsCommand (some_eq (ok_eq h1)) (k n (parse_number_only-ne-zero s o n e))

modify-Yields : (s : Text) → Yields (found_command (parse_modify_command s))
modify-Yields s c h =
    let (d, e, h1) = bind-ok _ _ h in
    subst IsCommand (some_eq (ok_eq h1)) (parse_modify_command-IsCommand s d e)

scheduled-Yields : (s : Text) → Yields (scheduled (parse_schedule s))
scheduled-Yields s c h =
    let (x, e, h1) = bind-ok _ _ h in
    subst IsCommand (some_eq (ok_eq h1)) (parse_schedule-IsSchedule s x e)

none-Yields : Yields (ok none)
none-Yields c h = cc

if_prefix-Yields :
    (s : Text) (words : List Text) (f : Text → Parsed) (g : Parsed)
    → ((t : Text) → Yields (f t))
    → Yields g
    → Yields (if_prefix s words f g)
unfolding if_prefix
if_prefix-Yields s words f g hf hg c h = elim (Option-cases (strip_any_prefix s words)) [
  | inl e ↦ hg c (subst (λ o. choose o f g ≡ ok (some c)) e h)
  | inr found ↦ hf found.0 c (subst (λ o. choose o f g ≡ ok (some c)) found.1 h)
]

parse_introduced-Yields : (s : Text) → Yields (parse_introduced s)
unfolding parse_introduced
parse_introduced-Yields s =
    if_prefix-Yields s _ _ _ (λ t. numbered-Yields delete t _ (λ n h. h))
      (if_prefix-Yields s _ _ _ (λ t. numbered-Yields pause t _ (λ n h. h))
        (if_prefix-Yields s _ _ _ (λ t. numbered-Yields resume t _ (λ n h. h))
          (if_prefix-Yields s _ _ _ modify-Yields (scheduled-Yields s))))

parse_trimmed-Yields : (s : Text) → Yields (parse_trimmed s)
unfolding parse_trimmed
parse_trimmed-Yields s =
    if_prefix-Yields s _ _ _ (λ t. numbered-Yields delete t _ (λ n h. h))
      (if_prefix-Yields s _ _ _ (λ t. numbered-Yields pause t _ (λ n h. h))
        (if_prefix-Yields s _ _ _ (λ t. numbered-Yields resume t _ (λ n h. h))
          (if_prefix-Yields s _ _ _ modify-Yields (
            if_prefix-Yields s _ _ _ (λ t. parse_introduced-Yields (trim_separators t))
              none-Yields))))

-- Every command that is parsed is one that the store accepts: task numbers begin at one, and an
-- interval and an instruction keep the limits of the index file.
pub parse_command-IsCommand :
    (text : Text) (c : TaskCommand) → parse_command text ≡ ok (some c) → IsCommand c
unfolding parse_command
parse_command-IsCommand text c h = parse_trimmed-Yields (trim text) c h
