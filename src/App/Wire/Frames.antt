-- ===== src/App/Wire/Frames.antt =====
-- src/app/lifecycle/wire.rs: length-prefixed frames are read back as they were written.
use riddle.Prelude.{
  ℕ, zero, suc, ◌/◌, ◌%◌, ◌≤◌, ◌<◌, ◌≡◌, refl, ap, ◌∙◌, Bool, true, false, ◌||◌, List, [], ◌∷◌,
  ◌++◌, ltb, ◌==◌, ok, length, map, All, arith, length-append, take-length, drop-length,
}
use riddle.Text.{trim_start_matches}
use riddle.App.Wire.{
  unknown, length_prefixed, DecodedCommand, Json, max_frame, be_bytes, from_be_bytes, framed,
}
use riddle.App.Wire.Decoding.{
  is_ascii_whitespace, decode_command, push, pushed, frame_loop, check_end, decode_length_prefixed,
  detect, decode_as, decode_frames,
}

-- A payload with the command that it is read as, within the protocol's limit.
pub record IsPayload (json : Json) (p : List ℕ × DecodedCommand) : Type 0 where
  pub filled : 1 ≤ length p.0
  pub fits : length p.0 ≤ max_frame
  pub read : decode_command json p.0 ≡ ok p.1

-- The bytes of the frames one after another.
unfoldable pub stream : List (List ℕ × DecodedCommand) → List ℕ
unfolding framed
stream [] = []
stream (p ∷ ps) = framed length_prefixed p.0 ++ stream ps

from_be_bytes-be_bytes :
    (n : ℕ)
    → n < 4294967296
    → from_be_bytes (n / 16777216 % 256) (n / 65536 % 256) (n / 256 % 256) (n % 256) ≡ n
unfolding from_be_bytes
from_be_bytes-be_bytes n h = omega arith

frame_loop-stream :
    (json : Json) (ps : List (List ℕ × DecodedCommand)) (fuel : ℕ)
    → All (IsPayload json) ps
    → length (stream ps) < fuel
    → frame_loop json fuel (stream ps) ≡ (ok (map (λ p. p.1) ps), [])
unfolding frame_loop stream framed be_bytes pushed push
frame_loop-stream json [] zero h k = refl
frame_loop-stream json [] (suc fuel) h k = refl
frame_loop-stream json (p ∷ ps) zero h k = absurd (omega arith)
frame_loop-stream json (p ∷ ps) (suc fuel) h k =
    let n = length p.0 in
    let low = h.0.filled in
    let high = h.0.fits in
    let l = length-append p.0 (stream ps) in
    let good : n == 0 || ltb max_frame n ≡ false = ground arith in
    let enough : ltb (length (p.0 ++ stream ps)) n ≡ false = ground arith in
    rw (from_be_bytes-be_bytes n (omega arith)) (
      rw good (
        rw enough (
          rw (take-length p.0 (stream ps)) (
            rw (drop-length p.0 (stream ps))
              (rw (frame_loop-stream json ps fuel h.1 (omega arith)) (rw h.0.read refl))))))

first_byte : (n : ℕ) → n ≤ max_frame → n / 16777216 % 256 ≡ 0
first_byte n h = omega arith

stream-untrimmed :
    (p : List ℕ × DecodedCommand) (more : List ℕ)
    → length p.0 ≤ max_frame
    → trim_start_matches is_ascii_whitespace (framed length_prefixed p.0 ++ more)
      ≡ framed length_prefixed p.0 ++ more
unfolding trim_start_matches framed be_bytes is_ascii_whitespace
stream-untrimmed p more h = rw (first_byte (length p.0) h) refl

stream-detect :
    (p : List ℕ × DecodedCommand) (more : List ℕ)
    → length p.0 ≤ max_frame
    → detect (framed length_prefixed p.0 ++ more) ≡ length_prefixed
unfolding detect framed be_bytes
stream-detect p more h = rw (first_byte (length p.0) h) (ground arith)

check_end-ok :
    (end_of_stream : Bool) (cs : List DecodedCommand)
    → check_end end_of_stream (ok cs, []) ≡ (ok cs, [])
unfolding check_end
check_end-ok true cs = refl
check_end-ok false cs = refl

-- For payloads within the protocol's limit, each read as its command: the decoder of a fresh client
-- finds the frames to be length-prefixed and gives their commands in order, with nothing left over,
-- whether or not the stream has ended.
pub decode_frames-stream :
    (json : Json) (end_of_stream : Bool) (p : List ℕ × DecodedCommand)
    (ps : List (List ℕ × DecodedCommand))
    → All (IsPayload json) (p ∷ ps)
    → decode_frames json (stream (p ∷ ps)) unknown end_of_stream
      ≡ ((ok (map (λ q. q.1) (p ∷ ps)), []), length_prefixed)
unfolding decode_frames decode_as decode_length_prefixed stream
decode_frames-stream json eos p ps h = rw (stream-untrimmed p (stream ps) h.0.fits) (
    rw (stream-detect p (stream ps) h.0.fits) (
      ap (λ d. (d, length_prefixed))
        (ap (check_end eos)
            (frame_loop-stream json (p ∷ ps) (suc (length (stream (p ∷ ps)))) h (omega arith))
          ∙ check_end-ok eos _)))
