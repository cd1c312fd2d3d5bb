-- ===== src/Storage/Tasks/Columns.antt =====
-- The columns of a task are read back (src/storage/tasks/mod.rs: `load_unlocked` and `persist`).
use riddle.Prelude.{
  ℕ, ◌+◌, ◌≤◌, ◌<◌, ◌≡◌, ◌≢◌, refl, ◌∙◌, Bool, true, false, some, List, [], ◌∷◌, if◌then◌else◌, ok,
  last?, is_empty, arith, inl, inr,
}
use riddle.Text.{Text, lit, byte_len, len_utf8, trim, text_eq}
use riddle.Text.Splitting.{Lacks, split, split-Lacks, split-append}
use riddle.Text.Decimal.{u64_max, print, print-Lacks, parse-print, byte_len-print}
use riddle.Storage.Escape.{
  escape, unescape_field-escape, escape-Lacks, byte_len-escape, last?-escape,
}
use riddle.Storage.Columns.{column-Lacks, column-last, byte_len-column, append_cons-ne-nil}
use riddle.Storage.Index.{contains}
use riddle.Storage.Index.RoundTrip.{Codec}
use riddle.Storage.Tasks.{
  Task, task_format, decode_line, decode_columns, decode_numbers, decode_state, decode_instruction,
  encode_line, min_interval_secs, max_task_instruction_bytes,
}

-- A task that `persist` may write: the fields are u64s, the interval is long enough, and the
-- instruction is visible, not too long, and does not end in a carriage return.
pub record IsTask (t : Task) : Type 0 where
  pub id_fits : t.id ≤ u64_max
  pub interval_fits : t.interval_secs ≤ u64_max
  pub interval_long : min_interval_secs ≤ t.interval_secs
  pub due_fits : t.next_due ≤ u64_max
  pub visible : is_empty (trim t.instruction) ≡ false
  pub short : byte_len t.instruction ≤ max_task_instruction_bytes
  pub closed : last? t.instruction ≢ some b'\r'

abbrev pub state_text : Bool → Text
state_text paused = if paused then lit "paused" else lit "active"

decode_numbers-print :
    (seen : List ℕ) (t : Task)
    → IsTask t
    → contains seen t.id ≡ false
    → decode_numbers seen (print t.id) (print t.interval_secs) (print t.next_due)
      ≡ ok (t.id, t.interval_secs, t.next_due)
unfolding decode_numbers
decode_numbers-print seen t h f =
    rw
      (
        parse-print t.id h.id_fits,
        parse-print t.interval_secs h.interval_fits,
        parse-print t.next_due h.due_fits,
      )
      (ground (arith, h.interval_long))

decode_state-text : (b : Bool) → decode_state (state_text b) ≡ ok b
unfolding decode_state text_eq
decode_state-text true = refl
decode_state-text false = refl

decode_instruction-escape :
    (t : Task) → IsTask t → decode_instruction (escape t.instruction) ≡ ok t.instruction
unfolding decode_instruction
decode_instruction-escape t h =
    rw (unescape_field-escape t.instruction) (ground (arith, h.visible, h.short))

state-Lacks : (sep : ℕ) (b : Bool) → sep < 48 → Lacks sep (state_text b)
state-Lacks sep true h = ground arith
state-Lacks sep false h = ground arith

split-encode_line :
    (t : Task)
    → split b'\t' (encode_line t)
      ≡ print t.id
        ∷ print t.interval_secs
        ∷ print t.next_due
        ∷ state_text t.paused
        ∷ escape t.instruction
        ∷ []
unfolding encode_line
split-encode_line t =
    rw (split-append b'\t' (print t.id) _ (print-Lacks b'\t' t.id (omega arith))) (
      rw
        (split-append b'\t' (print t.interval_secs) _
          (print-Lacks b'\t' t.interval_secs (omega arith)))
        (rw (split-append b'\t' (print t.next_due) _ (print-Lacks b'\t' t.next_due (omega arith))) (
          rw (split-append b'\t' (state_text t.paused) _ (state-Lacks b'\t' t.paused (omega arith)))
            (rw (
              split-Lacks b'\t' (escape t.instruction)
                (escape-Lacks b'\t' t.instruction (inl refl)))))))

decode_line-split :
    (seen : List ℕ) (l : Text) → l ≢ [] → decode_line seen l ≡ decode_columns seen (split b'\t' l)
unfolding decode_line
decode_line-split seen [] h = absurd (h refl)
decode_line-split seen (c ∷ l) h = refl

encode_line-ne-nil : (t : Task) → encode_line t ≢ []
unfolding encode_line
encode_line-ne-nil t = append_cons-ne-nil (print t.id) b'\t' _

-- A task within the limits of the file (u64 fields, an interval that is long enough, a visible
-- instruction that is not too long and ends in no carriage return) is read back from its line, below
-- lines with other ids.
pub decode_line-encode_line :
    (seen : List ℕ) (t : Task)
    → IsTask t
    → contains seen t.id ≡ false
    → decode_line seen (encode_line t) ≡ ok t
decode_line-encode_line seen t h f =
    decode_line-split seen (encode_line t) (encode_line-ne-nil t)
    ∙ rw (split-encode_line t) (
        unfold decode_columns in
        rw (
          decode_numbers-print seen t h f,
          decode_state-text t.paused,
          decode_instruction-escape t h,
        ))

pub encode_line-Lacks : (t : Task) → Lacks b'\n' (encode_line t)
unfolding encode_line
encode_line-Lacks t = column-Lacks (print t.id) _ (print-Lacks b'\n' t.id (omega arith)) (
    column-Lacks (print t.interval_secs) _ (print-Lacks b'\n' t.interval_secs (omega arith)) (
      column-Lacks (print t.next_due) _ (print-Lacks b'\n' t.next_due (omega arith)) (
        column-Lacks (state_text t.paused) _ (state-Lacks b'\n' t.paused (omega arith))
          (escape-Lacks b'\n' t.instruction (inr refl)))))

pub encode_line-last : (t : Task) → IsTask t → last? (encode_line t) ≢ some b'\r'
unfolding encode_line
encode_line-last t h = column-last (print t.id) _ (
    column-last (print t.interval_secs) _ (
      column-last (print t.next_due) _
        (column-last (state_text t.paused) _ (last?-escape t.instruction h.closed))))

byte_len-state : (b : Bool) → byte_len (state_text b) ≡ 6
unfolding byte_len len_utf8
byte_len-state true = refl
byte_len-state false = refl

pub encode_line-bytes : (t : Task) → IsTask t → byte_len (encode_line t) + 1 ≤ 8263
unfolding encode_line
encode_line-bytes t h =
    rw (byte_len-column, byte_len-column, byte_len-column, byte_len-column, byte_len-state)
      (omega (
        arith,
        h.short,
        byte_len-print t.id,
        byte_len-print t.interval_secs,
        byte_len-print t.next_due,
        byte_len-escape t.instruction,
      ))

abbrev pub task_codec : Codec task_format
task_codec = record {
  IsEntry = IsTask;
  line_bytes = 8263;
  decode-encode = decode_line-encode_line;
  encode-Lacks = λ t h. encode_line-Lacks t;
  encode-last = encode_line-last;
  encode-bytes = encode_line-bytes;
  fits = omega arith;
}
