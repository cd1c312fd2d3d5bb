-- ===== src/Storage/Index/RoundTrip.antt =====
-- What a store writes is what it loads (src/storage/tasks/mod.rs and src/storage/todos.rs: `persist`
-- and `load_unlocked`).
use mathlib.Core.Path.{subst}
use mathlib.Core.List.{append_assoc, append-nil, map-append}
use riddle.Prelude.{
  ℕ, ◌+◌, ◌*◌, ◌≤◌, ◌≡◌, ◌≢◌, sym, ap, ◌∙◌, false, some, List, [], ◌∷◌, ◌++◌, ok, length,
  length-append, map, All, last?, suc, arith,
}
use riddle.Text.{Text, byte_len, len_utf8}
use riddle.Text.Splitting.{Lacks, lines, lines-append}
use riddle.Storage.Escape.{byte_len-append}
use riddle.Storage.Persistence.{Dir, text, read_optional_utf8}
use riddle.Storage.Index.Distinct.{Distinct, Distinct-middle}
use riddle.Storage.Index.{Format, contains, load_lines, load_unlocked, render}

-- What the loop relies on in the two functions of a format.
pub record Codec {A : Type 0} (F : Format A) : Type 1 where
  pub IsEntry : A → Type 0
  pub line_bytes : ℕ
  pub decode-encode :
      (seen : List ℕ) (a : A)
      → IsEntry a
      → contains seen (F.entry_id a) ≡ false
      → F.decode_line seen (F.encode_line a) ≡ ok a
  pub encode-Lacks : (a : A) → IsEntry a → Lacks b'\n' (F.encode_line a)
  pub encode-last : (a : A) → IsEntry a → last? (F.encode_line a) ≢ some b'\r'
  pub encode-bytes : (a : A) → IsEntry a → byte_len (F.encode_line a) + 1 ≤ line_bytes
  pub fits : F.max_entries * line_bytes ≤ F.max_bytes

byte_len-line : (s t : Text) → byte_len (s ++ b'\n' ∷ t) ≡ byte_len s + 1 + byte_len t
unfolding byte_len len_utf8
byte_len-line s t = omega (arith, byte_len-append s (b'\n' ∷ t))

within : (b n w m top : ℕ) → b ≤ n * w → n ≤ m → m * w ≤ top → b ≤ top
within b n w m top h k f = grind arith

byte_len_step : (b n w t : ℕ) → b + 1 ≤ w → t ≤ n * w → b + 1 + t ≤ suc n * w
byte_len_step b n w t h k = grind arith

module _ {A : Type 0} (F : Format A) (C : Codec F) where
  pub record IsValid (entries : List A) : Type 0 where
    pub distinct : Distinct (map F.entry_id entries)
    pub sound : All C.IsEntry entries
    pub capped : length entries ≤ F.max_entries

  byte_len-render :
      (rest : List A) → All C.IsEntry rest → byte_len (render F rest) ≤ length rest * C.line_bytes
  unfolding render byte_len
  byte_len-render [] h = unfold byte_len in omega arith
  byte_len-render (a ∷ rest) h = rw (byte_len-line (F.encode_line a) (render F rest)) (
      byte_len_step (byte_len (F.encode_line a)) (length rest) C.line_bytes _ (C.encode-bytes a h.0)
        (byte_len-render rest h.1))

  load_lines-step :
      (n : ℕ) (before : List A) (a : A) (ls : List Text)
      → contains (map F.entry_id before) (F.entry_id a) ≡ false
      → C.IsEntry a
      → length (before ++ a ∷ []) ≤ F.max_entries
      → load_lines F n before (F.encode_line a ∷ ls) ≡ load_lines F (n + 1) (before ++ a ∷ []) ls
  unfolding load_lines
  load_lines-step n before a ls f h c =
      ground (arith, C.decode-encode (map F.entry_id before) a h f)

  load_lines-render :
      (n : ℕ) (before rest : List A)
      → Distinct (map F.entry_id (before ++ rest))
      → All C.IsEntry rest
      → length (before ++ rest) ≤ F.max_entries
      → load_lines F n before (lines (render F rest)) ≡ ok (before ++ rest)
  unfolding render load_lines
  load_lines-render n before [] d h c = unfold lines in ap ok (sym (append-nil before))
  load_lines-render n before (a ∷ rest) d h c =
      rw
        (lines-append (F.encode_line a) (render F rest) (C.encode-Lacks a h.0)
          (C.encode-last a h.0))
        (load_lines-step n before a (lines (render F rest))
            (Distinct-middle (map F.entry_id before) (F.entry_id a) (map F.entry_id rest)
              (subst Distinct (map-append F.entry_id before (a ∷ rest)) d))
            h.0
            (omega (arith, length-append {0} before (a ∷ rest), length-append {0} before (a ∷ [])))
          ∙ load_lines-render (n + 1) (before ++ a ∷ []) rest
              (subst (λ l. Distinct (map F.entry_id l)) (sym (append_assoc before (a ∷ []) rest)) d)
              h.1
              (subst (λ l. length l ≤ F.max_entries) (sym (append_assoc before (a ∷ []) rest)) c)
          ∙ ap ok (append_assoc before (a ∷ []) rest))

  render-fits : (entries : List A) → IsValid entries → byte_len (render F entries) ≤ F.max_bytes
  render-fits entries v =
      within _ (length entries) C.line_bytes F.max_entries F.max_bytes
        (byte_len-render entries v.sound) v.capped C.fits

  -- A valid list is loaded back from the file that it was written to.
  pub load-render :
      (entries : List A) (d : Dir)
      → IsValid entries
      → d.index ≡ text (render F entries)
      → load_unlocked F false d ≡ ok entries
  unfolding load_unlocked read_optional_utf8
  load-render entries d v e = rw e (
      ground
        (arith, render-fits entries v, load_lines-render 1 [] entries v.distinct v.sound v.capped))
