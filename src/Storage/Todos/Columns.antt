-- ===== src/Storage/Todos/Columns.antt =====
-- The two columns of a TODO are read back (src/storage/todos.rs: `load_unlocked` and `persist`).
use riddle.Prelude.{
  ℕ, ◌+◌, ◌≤◌, ◌≡◌, ◌≢◌, refl, ◌∙◌, false, some, List, [], ◌∷◌, ok, last?, is_empty, arith, inl,
  inr,
}
use riddle.Text.{Text, byte_len, trim}
use riddle.Text.Splitting.{Lacks, split, split-Lacks, split-append}
use riddle.Text.Decimal.{u64_max, print, print-Lacks, parse-print, byte_len-print}
use riddle.Storage.Escape.{
  escape, unescape_field-escape, escape-Lacks, byte_len-escape, last?-escape,
}
use riddle.Storage.Columns.{column-Lacks, column-last, byte_len-column, append_cons-ne-nil}
use riddle.Storage.Index.{contains}
use riddle.Storage.Index.RoundTrip.{Codec}
use riddle.Storage.Todos.{
  Todo, todo_format, decode_columns, decode_line, encode_line, max_todo_text_bytes,
}

-- A note that `persist` may write.
pub record IsTodo (t : Todo) : Type 0 where
  pub id_fits : t.id ≤ u64_max
  pub visible : is_empty (trim t.text) ≡ false
  pub short : byte_len t.text ≤ max_todo_text_bytes
  pub closed : last? t.text ≢ some b'\r'

split-encode_line : (t : Todo) → split b'\t' (encode_line t) ≡ print t.id ∷ escape t.text ∷ []
unfolding encode_line
split-encode_line t =
    rw (split-append b'\t' (print t.id) _ (print-Lacks b'\t' t.id (omega arith)))
      (rw (split-Lacks b'\t' (escape t.text) (escape-Lacks b'\t' t.text (inl refl))))

decode_line-split :
    (seen : List ℕ) (l : Text) → l ≢ [] → decode_line seen l ≡ decode_columns seen (split b'\t' l)
unfolding decode_line
decode_line-split seen [] h = absurd (h refl)
decode_line-split seen (c ∷ l) h = refl

encode_line-ne-nil : (t : Todo) → encode_line t ≢ []
unfolding encode_line
encode_line-ne-nil t = append_cons-ne-nil (print t.id) b'\t' _

decode_columns-encoded :
    (seen : List ℕ) (t : Todo)
    → IsTodo t
    → contains seen t.id ≡ false
    → decode_columns seen (print t.id ∷ escape t.text ∷ []) ≡ ok t
unfolding decode_columns
decode_columns-encoded seen t h f =
    rw (parse-print t.id h.id_fits, f, unescape_field-escape t.text)
      (ground (arith, h.visible, h.short))

-- Every note is read back from its line, below lines with other ids.
pub decode_line-encode_line :
    (seen : List ℕ) (t : Todo)
    → IsTodo t
    → contains seen t.id ≡ false
    → decode_line seen (encode_line t) ≡ ok t
decode_line-encode_line seen t h f =
    decode_line-split seen (encode_line t) (encode_line-ne-nil t)
    ∙ rw (split-encode_line t) (decode_columns-encoded seen t h f)

pub encode_line-Lacks : (t : Todo) → IsTodo t → Lacks b'\n' (encode_line t)
unfolding encode_line
encode_line-Lacks t h =
    column-Lacks (print t.id) _ (print-Lacks b'\n' t.id (omega arith))
      (escape-Lacks b'\n' t.text (inr refl))

pub encode_line-last : (t : Todo) → IsTodo t → last? (encode_line t) ≢ some b'\r'
unfolding encode_line
encode_line-last t h = column-last (print t.id) _ (last?-escape t.text h.closed)

pub encode_line-bytes : (t : Todo) → IsTodo t → byte_len (encode_line t) + 1 ≤ 8214
unfolding encode_line
encode_line-bytes t h =
    rw byte_len-column (omega (arith, h.short, byte_len-print t.id, byte_len-escape t.text))

abbrev pub todo_codec : Codec todo_format
todo_codec = record {
  IsEntry = IsTodo;
  line_bytes = 8214;
  decode-encode = decode_line-encode_line;
  encode-Lacks = encode_line-Lacks;
  encode-last = encode_line-last;
  encode-bytes = encode_line-bytes;
  fits = omega arith;
}
