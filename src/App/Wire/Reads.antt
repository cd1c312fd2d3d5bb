-- ===== src/App/Wire/Reads.antt =====
-- src/app/lifecycle/wire.rs: `decode_frames` finds the same commands however the bytes are cut into
-- reads.
use mathlib.Core.Path.{subst}
use riddle.Prelude.{
  ℕ, suc, ◌≡◌, ◌≢◌, refl, sym, ap, ◌∙◌, Bool, true, false, List, [], ◌∷◌, ◌++◌, ok, err, length,
  inl, inr, Bool-cases, arith, length-append,
}
use riddle.Text.{trim_start_matches}
use riddle.App.Wire.{InboundFraming, unknown, json_lines, length_prefixed, DecodedCommand, Json}
use riddle.App.Wire.Chunks.{prepend, frame_loop-append, json_loop-append, ok_commands}
use riddle.App.Wire.Decoding.{
  Decoded, is_ascii_whitespace, push, decode_json_lines, check_end, decode_length_prefixed, detect,
  decode_as, decode_frames,
}

check_end-push :
    (end_of_stream : Bool) (c : DecodedCommand) (d : Decoded)
    → check_end end_of_stream (push c d) ≡ push c (check_end end_of_stream d)
unfolding push check_end
check_end-push true c (err e, b) = refl
check_end-push true c (ok cs, []) = refl
check_end-push true c (ok cs, b ∷ bs) = refl
check_end-push false c d = refl

check_end-prepend :
    (end_of_stream : Bool) (cs : List DecodedCommand) (d : Decoded)
    → check_end end_of_stream (prepend cs d) ≡ prepend cs (check_end end_of_stream d)
unfolding prepend check_end
check_end-prepend eos [] d = refl
check_end-prepend eos (c ∷ cs) d =
    check_end-push eos c (prepend cs d) ∙ ap (push c) (check_end-prepend eos cs d)

decode_length_prefixed-append :
    (json : Json) (end_of_stream : Bool) (buffer left more : List ℕ) (cs : List DecodedCommand)
    → decode_length_prefixed json false buffer ≡ (ok cs, left)
    → decode_length_prefixed json end_of_stream (buffer ++ more)
      ≡ prepend cs (decode_length_prefixed json end_of_stream (left ++ more))
unfolding decode_length_prefixed check_end
decode_length_prefixed-append json eos buffer left more cs h =
    ap (check_end eos) (
      frame_loop-append json (suc (length buffer)) (suc (length (buffer ++ more)))
        (suc (length (left ++ more))) buffer left more cs (omega arith) (omega arith) (omega arith)
        h)
    ∙ check_end-prepend eos cs _

-- The commands of an earlier call, before those of a later one and its framing.
unfoldable pub prepend_in :
    List DecodedCommand → Decoded × InboundFraming → Decoded × InboundFraming
unfolding prepend
prepend_in cs (d, framing) = (prepend cs d, framing)

abbrev pub Answer : Type 0
Answer = Decoded × InboundFraming

answer_parts :
    {d e : Decoded} {f g : InboundFraming} → ◌≡◌ {A = Answer} (d, f) (e, g) → (d ≡ e) × (f ≡ g)
answer_parts h = (ap (λ x. x.0) h, ap (λ x. x.1) h)

json_lines-append :
    (json : Json) (end_of_stream : Bool) (buffer left more : List ℕ) (cs : List DecodedCommand)
    (g : InboundFraming)
    → decode_as json false json_lines buffer ≡ ((ok cs, left), g)
    → decode_as json end_of_stream json_lines (buffer ++ more)
      ≡ prepend_in cs (decode_frames json (left ++ more) g end_of_stream)
unfolding decode_as decode_frames decode_json_lines prepend_in
json_lines-append json eos buffer left more cs g h =
    let p = answer_parts h in
    subst
      (λ f.
        decode_as json eos json_lines (buffer ++ more)
        ≡ prepend_in cs (decode_frames json (left ++ more) f eos))
      p.1 (ap (λ d. (d, json_lines)) (json_loop-append json eos [] buffer more cs left tt p.0))

length_prefixed-append :
    (json : Json) (end_of_stream : Bool) (buffer left more : List ℕ) (cs : List DecodedCommand)
    (g : InboundFraming)
    → decode_as json false length_prefixed buffer ≡ ((ok cs, left), g)
    → decode_as json end_of_stream length_prefixed (buffer ++ more)
      ≡ prepend_in cs (decode_frames json (left ++ more) g end_of_stream)
unfolding decode_as decode_frames prepend_in
length_prefixed-append json eos buffer left more cs g h =
    let p = answer_parts h in
    subst
      (λ f.
        decode_as json eos length_prefixed (buffer ++ more)
        ≡ prepend_in cs (decode_frames json (left ++ more) f eos))
      p.1
      (ap (λ d. (d, length_prefixed))
        (decode_length_prefixed-append json eos buffer left more cs p.0))

trim_again :
    (buffer more : List ℕ)
    → trim_start_matches is_ascii_whitespace (trim_start_matches is_ascii_whitespace buffer ++ more)
      ≡ trim_start_matches is_ascii_whitespace (buffer ++ more)
unfolding trim_start_matches
trim_again [] more = refl
trim_again (b ∷ buffer) more = elim (Bool-cases (is_ascii_whitespace b)) [
  | inl white ↦ rw white (trim_again buffer more)
  | inr black ↦ rw black (rw black refl)
]

trim_found :
    (buffer more : List ℕ) (x : ℕ) (rest : List ℕ)
    → trim_start_matches is_ascii_whitespace buffer ≡ x ∷ rest
    → trim_start_matches is_ascii_whitespace (buffer ++ more) ≡ x ∷ (rest ++ more)
unfolding trim_start_matches
trim_found [] more x rest h = cc
trim_found (b ∷ buffer) more x rest h = elim (Bool-cases (is_ascii_whitespace b)) [
  | inl white ↦ rw white (trim_found buffer more x rest (ground arith))
  | inr black ↦ rw black (grind arith)
]

undecided :
    (json : Json) (end_of_stream : Bool) (buffer left more : List ℕ) (cs : List DecodedCommand)
    (g : InboundFraming)
    → ◌≡◌ {A = Answer}
        ((ok [], trim_start_matches is_ascii_whitespace buffer), unknown)
        ((ok cs, left), g)
    → decode_frames json (buffer ++ more) unknown end_of_stream
      ≡ prepend_in cs (decode_frames json (left ++ more) g end_of_stream)
unfolding decode_frames prepend_in prepend
undecided json eos buffer left more cs g h =
    let p = answer_parts h in
    let q = ok_commands p.0 in
    let found = decode_frames json (buffer ++ more) unknown eos in
    subst (λ f. found ≡ prepend_in cs (decode_frames json (left ++ more) f eos)) p.1
      (subst (λ ds. found ≡ prepend_in ds (decode_frames json (left ++ more) unknown eos)) q.0
        (subst (λ xs. found ≡ decode_frames json (xs ++ more) unknown eos) q.1
          (sym (ap (λ xs. decode_as json eos (detect xs) xs) (trim_again buffer more)))))

detect-append :
    (x : ℕ) (rest more : List ℕ) (f : InboundFraming)
    → detect (x ∷ rest) ≡ f
    → f ≢ unknown
    → detect (x ∷ (rest ++ more)) ≡ f
unfolding detect
detect-append x rest more f e n = let l = length-append rest more in ground arith

decided :
    (json : Json) (end_of_stream : Bool) (buffer left more : List ℕ) (cs : List DecodedCommand)
    (g : InboundFraming) (x : ℕ) (rest : List ℕ) (f : InboundFraming)
    → trim_start_matches is_ascii_whitespace buffer ≡ x ∷ rest
    → detect (x ∷ rest) ≡ f
    → decode_as json false f (x ∷ rest) ≡ ((ok cs, left), g)
    → decode_frames json (buffer ++ more) unknown end_of_stream
      ≡ prepend_in cs (decode_frames json (left ++ more) g end_of_stream)
unfolding decode_frames decode_as
decided json eos buffer left more cs g x rest unknown e d h =
    undecided json eos buffer left more cs g (ap (λ xs. ((ok [], xs), unknown)) e ∙ h)
decided json eos buffer left more cs g x rest json_lines e d h =
    rw (trim_found buffer more x rest e) (
      rw (detect-append x rest more json_lines d (λ k. cc))
        (json_lines-append json eos (x ∷ rest) left more cs g h))
decided json eos buffer left more cs g x rest length_prefixed e d h =
    rw (trim_found buffer more x rest e) (
      rw (detect-append x rest more length_prefixed d (λ k. cc))
        (length_prefixed-append json eos (x ∷ rest) left more cs g h))

unknown_at :
    (json : Json) (end_of_stream : Bool) (buffer left more : List ℕ) (cs : List DecodedCommand)
    (g : InboundFraming) (trimmed : List ℕ)
    → trim_start_matches is_ascii_whitespace buffer ≡ trimmed
    → decode_as json false (detect trimmed) trimmed ≡ ((ok cs, left), g)
    → decode_frames json (buffer ++ more) unknown end_of_stream
      ≡ prepend_in cs (decode_frames json (left ++ more) g end_of_stream)
unfolding decode_as detect
unknown_at json eos buffer left more cs g [] e h =
    undecided json eos buffer left more cs g (ap (λ xs. ((ok [], xs), unknown)) e ∙ h)
unknown_at json eos buffer left more cs g (x ∷ rest) e h =
    decided json eos buffer left more cs g x rest (detect (x ∷ rest)) e refl h

-- Where a call on the bytes read so far succeeds, with `left` kept in the buffer and `g` as the
-- framing found, decoding those bytes together with `more` gives the commands of that call and
-- then what decoding `left` and `more` under `g` gives, errors and the end of the stream included.
pub decode_frames-append :
    (json : Json) (end_of_stream : Bool) (buffer left more : List ℕ) (cs : List DecodedCommand)
    (f g : InboundFraming)
    → decode_frames json buffer f false ≡ ((ok cs, left), g)
    → decode_frames json (buffer ++ more) f end_of_stream
      ≡ prepend_in cs (decode_frames json (left ++ more) g end_of_stream)
unfolding decode_frames
decode_frames-append json eos buffer left more cs unknown g h =
    unknown_at json eos buffer left more cs g _ refl h
decode_frames-append json eos buffer left more cs json_lines g h =
    json_lines-append json eos buffer left more cs g h
decode_frames-append json eos buffer left more cs length_prefixed g h =
    length_prefixed-append json eos buffer left more cs g h
