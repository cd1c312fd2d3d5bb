-- ===== src/Storage/Memory/Columns.antt =====
-- The columns of a remembered page are read back (src/storage/memory.rs: `load_unlocked` and
-- `persist_index`).
use riddle.Prelude.{
  ℕ, ◌+◌, ◌≤◌, ◌≡◌, ◌≢◌, refl, ◌∙◌, false, some, List, [], ◌∷◌, ok, last?, arith, inl, inr,
}
use riddle.Text.{Text, byte_len}
use riddle.Text.Splitting.{Lacks, split, split-Lacks, split-append}
use riddle.Text.Decimal.{u64_max, print, print-Lacks, parse-print, byte_len-print}
use riddle.Storage.Escape.{
  escape, unescape_field-escape, escape-Lacks, byte_len-escape, last?-escape,
}
use riddle.Storage.Columns.{column-Lacks, column-last, byte_len-column, append_cons-ne-nil}
use riddle.Storage.Index.{contains}
use riddle.Storage.Index.RoundTrip.{Codec}
use riddle.Storage.Memory.{
  Entry, memory_format, decode_line, decode_columns, encode_line, max_memory_field_bytes,
}

-- A page that is read back as it was: a u64, two texts that are not too long, and a reply that does
-- not end in a carriage return.
pub record IsPage (e : Entry) : Type 0 where
  pub id_fits : e.id ≤ u64_max
  pub transcript_short : byte_len e.transcript ≤ max_memory_field_bytes
  pub reply_short : byte_len e.reply ≤ max_memory_field_bytes
  pub closed : last? e.reply ≢ some b'\r'

split-encode_line :
    (e : Entry)
    → split b'\t' (encode_line e) ≡ print e.id ∷ escape e.transcript ∷ escape e.reply ∷ []
unfolding encode_line
split-encode_line e =
    rw (split-append b'\t' (print e.id) _ (print-Lacks b'\t' e.id (omega arith))) (
      rw (split-append b'\t' (escape e.transcript) _ (escape-Lacks b'\t' e.transcript (inl refl)))
        (rw (split-Lacks b'\t' (escape e.reply) (escape-Lacks b'\t' e.reply (inl refl)))))

decode_line-split :
    (seen : List ℕ) (l : Text) → l ≢ [] → decode_line seen l ≡ decode_columns seen (split b'\t' l)
unfolding decode_line
decode_line-split seen [] h = absurd (h refl)
decode_line-split seen (c ∷ l) h = refl

encode_line-ne-nil : (e : Entry) → encode_line e ≢ []
unfolding encode_line
encode_line-ne-nil e = append_cons-ne-nil (print e.id) b'\t' _

pub decode_line-encode_line :
    (seen : List ℕ) (e : Entry)
    → IsPage e
    → contains seen e.id ≡ false
    → decode_line seen (encode_line e) ≡ ok e
decode_line-encode_line seen e h f =
    decode_line-split seen (encode_line e) (encode_line-ne-nil e)
    ∙ rw (split-encode_line e) (
        unfold decode_columns in
        rw
          (
            parse-print e.id h.id_fits,
            unescape_field-escape e.transcript,
            unescape_field-escape e.reply,
          )
          (ground (arith, h.transcript_short, h.reply_short)))

pub encode_line-Lacks : (e : Entry) → Lacks b'\n' (encode_line e)
unfolding encode_line
encode_line-Lacks e = column-Lacks (print e.id) _ (print-Lacks b'\n' e.id (omega arith)) (
    column-Lacks (escape e.transcript) _ (escape-Lacks b'\n' e.transcript (inr refl))
      (escape-Lacks b'\n' e.reply (inr refl)))

pub encode_line-last : (e : Entry) → IsPage e → last? (encode_line e) ≢ some b'\r'
unfolding encode_line
encode_line-last e h =
    column-last (print e.id) _ (column-last (escape e.transcript) _ (last?-escape e.reply h.closed))

pub encode_line-bytes : (e : Entry) → IsPage e → byte_len (encode_line e) + 1 ≤ 262167
unfolding encode_line
encode_line-bytes e h =
    rw (byte_len-column, byte_len-column)
      (omega (
        arith,
        h.transcript_short,
        h.reply_short,
        byte_len-print e.id,
        byte_len-escape e.transcript,
        byte_len-escape e.reply,
      ))

abbrev pub memory_codec : Codec memory_format
memory_codec = record {
  IsEntry = IsPage;
  line_bytes = 262167;
  decode-encode = decode_line-encode_line;
  encode-Lacks = λ e h. encode_line-Lacks e;
  encode-last = encode_line-last;
  encode-bytes = encode_line-bytes;
  fits = omega arith;
}
