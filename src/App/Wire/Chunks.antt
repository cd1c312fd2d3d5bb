-- ===== src/App/Wire/Chunks.antt =====
-- src/app/lifecycle/wire.rs: the decoder finds the same commands however the bytes are cut into reads.
use mathlib.Core.Path.{subst}
use riddle.Prelude.{
  ℕ, zero, suc, ◌<◌, ◌≡◌, refl, sym, ap, ◌∙◌, Bool, false, ◌||◌, List, [], ◌∷◌, ◌++◌, if◌then◌else◌,
  ltb, ◌==◌, Result, ok, err, length, take, drop, inl, inr, Bool-cases, arith, append_nil,
  append_assoc, length-append, take-append, drop-append, length-drop,
}
use riddle.Text.Splitting.{Lacks, Lacks-append}
use riddle.App.Wire.{DecodedCommand, WireError, Json, max_frame, from_be_bytes, invalid_length}
use riddle.App.Wire.Decoding.{
  Decoded, trim_ascii, decode_command, push, pushed, json_line, json_end, json_loop, frame_loop,
}

-- The commands of an earlier call, before those of a later one.
unfoldable pub prepend : List DecodedCommand → Decoded → Decoded
unfolding push
prepend [] decoded = decoded
prepend (c ∷ cs) decoded = push c (prepend cs decoded)

pub ok_commands :
    {cs ds : List DecodedCommand} {a b : List ℕ}
    → ◌≡◌ {A = Decoded} (ok cs, a) (ok ds, b)
    → (cs ≡ ds) × (a ≡ b)
ok_commands h = (cc, cc)

pushed-append :
    (r : Result WireError DecodedCommand) (buffer whole : List ℕ) (later longer rest : Decoded)
    (cs : List DecodedCommand) (left : List ℕ)
    → ((ds : List DecodedCommand) → later ≡ (ok ds, left) → longer ≡ prepend ds rest)
    → pushed r buffer later ≡ (ok cs, left)
    → pushed r whole longer ≡ prepend cs rest
unfolding pushed push prepend
pushed-append (err e) buffer whole later longer rest cs left k h = cc
pushed-append (ok c) buffer whole (err e, b) longer rest cs left k h = cc
pushed-append (ok c) buffer whole (ok ds, b) longer rest cs left k h =
    let e = ok_commands h in
    ap (push c) (k ds (ap (λ x. (ok ds, x)) e.1)) ∙ ap (λ xs. prepend xs rest) e.0

json_line-append :
    (json : Json) (payload : List ℕ) (buffer whole : List ℕ) (later longer rest : Decoded)
    (cs : List DecodedCommand) (left : List ℕ)
    → ((ds : List DecodedCommand) → later ≡ (ok ds, left) → longer ≡ prepend ds rest)
    → json_line json payload buffer later ≡ (ok cs, left)
    → json_line json payload whole longer ≡ prepend cs rest
unfolding json_line
json_line-append json [] buffer whole later longer rest cs left k h = k cs h
json_line-append json (b ∷ payload) buffer whole later longer rest cs left k h =
    elim (Bool-cases (ltb max_frame (length (b ∷ payload)))) [
      | inl long ↦ absurd (grind arith)
      | inr short ↦ rw short (
          pushed-append (decode_command json (b ∷ payload)) buffer whole later longer rest cs left k
            (ground arith))
    ]

-- A buffer without a newline is searched again without a difference.
json_loop-resume :
    (json : Json) (end_of_stream : Bool) (searched line more : List ℕ)
    → Lacks 10 line
    → json_loop json end_of_stream searched (line ++ more)
      ≡ json_loop json end_of_stream (searched ++ line) more
unfolding json_loop
json_loop-resume json eos searched [] more h = rw (append_nil searched) refl
json_loop-resume json eos searched (b ∷ line) more h = rw h.0 (
    json_loop-resume json eos (searched ++ b ∷ []) line more h.1
    ∙ ap (λ xs. json_loop json eos xs more) (append_assoc searched (b ∷ []) line))

json_end-left :
    (json : Json) (line : List ℕ) (cs : List DecodedCommand) (left : List ℕ)
    → json_end json false line ≡ (ok cs, left)
    → (cs ≡ []) × (left ≡ line)
unfolding json_end
json_end-left json line cs left h = elim (Bool-cases (ltb max_frame (length line))) [
  | inl long ↦ absurd (ground arith)
  | inr short ↦ (ground arith, ground arith)
]

-- The loop at a byte, by whether the byte is a newline.
abbrev json_loop_at : Json → List ℕ → ℕ → List ℕ → Bool → Decoded
json_loop_at json line b buffer newline =
    if newline
    then json_line json (trim_ascii line) buffer
        (json_loop json false (if newline then [] else line ++ b ∷ []) buffer)
    else json_loop json false (if newline then [] else line ++ b ∷ []) buffer

pub json_loop-append :
    (json : Json) (end_of_stream : Bool) (line buffer more : List ℕ) (cs : List DecodedCommand)
    (left : List ℕ)
    → Lacks 10 line
    → json_loop json false line buffer ≡ (ok cs, left)
    → json_loop json end_of_stream line (buffer ++ more)
      ≡ prepend cs (json_loop json end_of_stream [] (left ++ more))
unfolding json_loop prepend
json_loop-append json eos line [] more cs left l h =
    let e = json_end-left json line cs left h in
    sym (
      ap (λ xs. prepend xs (json_loop json eos [] (left ++ more))) e.0
      ∙ (ap (λ xs. json_loop json eos [] (xs ++ more)) e.1
          ∙ json_loop-resume json eos [] line more l))
json_loop-append json eos line (b ∷ buffer) more cs left l h = elim (Bool-cases (b == 10)) [
  | inl newline ↦ rw newline (
      json_line-append json (trim_ascii line) buffer (buffer ++ more)
        (json_loop json false [] buffer) (json_loop json eos [] (buffer ++ more))
        (json_loop json eos [] (left ++ more)) cs left
        (λ ds k. json_loop-append json eos [] buffer more ds left tt k)
        (subst (λ t. json_loop_at json line b buffer t ≡ (ok cs, left)) newline h))
  | inr other ↦ rw other (
      json_loop-append json eos (line ++ b ∷ []) buffer more cs left
        (Lacks-append 10 line (b ∷ []) l (other, tt))
        (subst (λ t. json_loop_at json line b buffer t ≡ (ok cs, left)) other h))
]

-- Any two amounts of fuel above the buffer's length give the same answer: the loop ends before its
-- fuel does.
pub frame_loop-fuel :
    (json : Json) (n m : ℕ) (buffer : List ℕ)
    → length buffer < n
    → length buffer < m
    → frame_loop json n buffer ≡ frame_loop json m buffer
unfolding frame_loop
frame_loop-fuel json zero m buffer h k = absurd (omega arith)
frame_loop-fuel json (suc n) zero buffer h k = absurd (omega arith)
frame_loop-fuel json (suc n) (suc m) [] h k = refl
frame_loop-fuel json (suc n) (suc m) (a ∷ []) h k = refl
frame_loop-fuel json (suc n) (suc m) (a ∷ b ∷ []) h k = refl
frame_loop-fuel json (suc n) (suc m) (a ∷ b ∷ c ∷ []) h k = refl
frame_loop-fuel json (suc n) (suc m) (a ∷ b ∷ c ∷ d ∷ buffer) h k =
    let size = from_be_bytes a b c d in
    let small = length-drop size buffer in
    rw (frame_loop-fuel json n m (drop size buffer) (omega arith) (omega arith)) refl

-- A loop that stops at a buffer starts there again.
pub frame_loop-resume :
    (json : Json) (m k : ℕ) (buffer left more : List ℕ) (cs : List DecodedCommand)
    → length (buffer ++ more) < m
    → length (left ++ more) < k
    → ◌≡◌ {A = Decoded} (ok [], buffer) (ok cs, left)
    → frame_loop json m (buffer ++ more) ≡ prepend cs (frame_loop json k (left ++ more))
unfolding prepend
frame_loop-resume json m k buffer left more cs h i e =
    let p = ok_commands e in
    let same = ap (λ xs. length (xs ++ more)) p.1 in
    frame_loop-fuel json m k (buffer ++ more) h (omega arith)
    ∙ (ap (λ xs. frame_loop json k (xs ++ more)) p.1
        ∙ ap (λ xs. prepend xs (frame_loop json k (left ++ more))) p.0)

abbrev frame_at : Json → List ℕ → ℕ → List ℕ → Decoded → Bool → Bool → Decoded
frame_at json buffer size rest later bad short =
    if bad
    then (err (invalid_length size), buffer)
    else if short
    then (ok [], buffer)
    else pushed (decode_command json (take size rest)) (drop size rest) later

bad_frame :
    {e : WireError} {cs : List DecodedCommand} {a b : List ℕ}
    → ◌≡◌ {A = Decoded} (err e, a) (ok cs, b)
    → ⊥
bad_frame h = cc

pub frame_loop-append :
    (json : Json) (n m k : ℕ) (buffer left more : List ℕ) (cs : List DecodedCommand)
    → length buffer < n
    → length (buffer ++ more) < m
    → length (left ++ more) < k
    → frame_loop json n buffer ≡ (ok cs, left)
    → frame_loop json m (buffer ++ more) ≡ prepend cs (frame_loop json k (left ++ more))
unfolding frame_loop
frame_loop-append json zero m k buffer left more cs f g h e = absurd (omega arith)
frame_loop-append json (suc n) zero k buffer left more cs f g h e = absurd (omega arith)
frame_loop-append json (suc n) (suc m) k [] left more cs f g h e =
    frame_loop-resume json (suc m) k [] left more cs g h e
frame_loop-append json (suc n) (suc m) k (a ∷ []) left more cs f g h e =
    frame_loop-resume json (suc m) k (a ∷ []) left more cs g h e
frame_loop-append json (suc n) (suc m) k (a ∷ b ∷ []) left more cs f g h e =
    frame_loop-resume json (suc m) k (a ∷ b ∷ []) left more cs g h e
frame_loop-append json (suc n) (suc m) k (a ∷ b ∷ c ∷ []) left more cs f g h e =
    frame_loop-resume json (suc m) k (a ∷ b ∷ c ∷ []) left more cs g h e
frame_loop-append json (suc n) (suc m) k (a ∷ b ∷ c ∷ d ∷ buffer) left more cs f g h e =
    let size = from_be_bytes a b c d in
    let whole = a ∷ b ∷ c ∷ d ∷ buffer in
    let at = frame_at json whole size buffer (frame_loop json n (drop size buffer)) in
    elim (Bool-cases (size == 0 || ltb max_frame size)) [
      | inl bad ↦
          absurd (bad_frame (subst (λ t. at t (ltb (length buffer) size) ≡ (ok cs, left)) bad e))
      | inr good ↦ elim (Bool-cases (ltb (length buffer) size)) [
        | inl short ↦ frame_loop-resume json (suc m) k whole left more cs g h (
            subst (λ t. at false t ≡ (ok cs, left)) short
              (subst (λ t. at t (ltb (length buffer) size) ≡ (ok cs, left)) good e))
        | inr enough ↦
            let small = length-drop size buffer in
            let longer = length-append buffer more in
            let cut = length-append (drop size buffer) more in
            let still : ltb (length (buffer ++ more)) size ≡ false = ground arith in
            rw good (
              rw still (
                rw (take-append size buffer more (ground arith)) (
                  rw (drop-append size buffer more (ground arith)) (
                    pushed-append (decode_command json (take size buffer)) (drop size buffer)
                      (drop size buffer ++ more) (frame_loop json n (drop size buffer))
                      (frame_loop json m (drop size buffer ++ more))
                      (frame_loop json k (left ++ more)) cs left
                      (λ ds i.
                        frame_loop-append json n m k (drop size buffer) left more ds (omega arith)
                          (omega arith) h i)
                      (subst (λ t. at false t ≡ (ok cs, left)) enough
                        (subst (λ t. at t (ltb (length buffer) size) ≡ (ok cs, left)) good e))))))
      ]
    ]
