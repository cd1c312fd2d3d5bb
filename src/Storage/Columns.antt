-- ===== src/Storage/Columns.antt =====
-- Columns joined by a tab: no newline, no carriage return at the end, and their size (`persist` of
-- src/storage/tasks/mod.rs and src/storage/todos.rs).
use riddle.Prelude.{ℕ, ◌+◌, ◌≡◌, ◌≢◌, refl, some, [], ◌∷◌, ◌++◌, last?, arith}
use riddle.Text.{Text, byte_len}
use riddle.Text.Splitting.{Lacks, Lacks-append}
use riddle.Storage.Escape.{byte_len-append, last?-append_cons}

pub append_cons-ne-nil : (s : Text) (c : ℕ) (t : Text) → s ++ c ∷ t ≢ []
append_cons-ne-nil [] c t e = cc
append_cons-ne-nil (d ∷ s) c t e = cc

pub column-Lacks : (s t : Text) → Lacks b'\n' s → Lacks b'\n' t → Lacks b'\n' (s ++ b'\t' ∷ t)
column-Lacks s t h k = Lacks-append b'\n' s (b'\t' ∷ t) h (refl, k)

pub column-last : (s t : Text) → last? t ≢ some b'\r' → last? (s ++ b'\t' ∷ t) ≢ some b'\r'
column-last s [] h = rw (last?-append_cons s b'\t' []) (λ e. ground arith)
column-last s (c ∷ t) h = rw (last?-append_cons s b'\t' (c ∷ t)) h

pub byte_len-column : (s t : Text) → byte_len (s ++ b'\t' ∷ t) ≡ byte_len s + 1 + byte_len t
unfolding byte_len
byte_len-column s t = omega (arith, byte_len-append s (b'\t' ∷ t))
