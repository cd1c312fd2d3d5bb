-- ===== src/App/Wire/Decoding.antt =====
-- src/app/lifecycle/wire.rs: `decode_frames` and what it calls. Each decoder answers with its result
-- and the bytes that it leaves in the buffer.
use riddle.Prelude.{
  ℕ, zero, suc, Bool, true, not, ◌&&◌, ◌||◌, Option, none, some, List, [], ◌∷◌, ◌++◌, if◌then◌else◌,
  ltb, leb, ◌==◌, Result, ok, err, length, is_empty, take, drop,
}
use riddle.Text.{Text, trim_start_matches, trim_end_matches, byte_len, is_alphanumeric}
use riddle.App.Wire.{
  LifecycleCommand, InboundFraming, unknown, json_lines, length_prefixed, V2Envelope, LegacyCommand,
  DecodedCommand, AppToken, WireError, invalid_envelope, invalid_command, oversized_line,
  unterminated_line, truncated_frame, invalid_length, Json, max_frame, from_be_bytes, app_command,
  legacy_app_command,
}

abbrev pub Decoded : Type 0
Decoded = Result WireError (List DecodedCommand) × List ℕ

-- `u8::is_ascii_whitespace`
unfoldable pub is_ascii_whitespace : ℕ → Bool
is_ascii_whitespace b = b == 9 || b == 10 || b == 12 || b == 13 || b == 32

unfoldable pub trim_ascii : List ℕ → List ℕ
trim_ascii bytes =
    trim_end_matches is_ascii_whitespace (trim_start_matches is_ascii_whitespace bytes)

abbrev is_request_id_byte : ℕ → Bool
is_request_id_byte c = is_alphanumeric c || c == 45 || c == 95 || c == 46 || c == 58

-- Whether every byte passes: a character beyond ASCII has no byte that does.
unfoldable pub all_request_id : Text → Bool
all_request_id [] = true
all_request_id (c ∷ cs) = is_request_id_byte c && all_request_id cs

unfoldable pub valid_request_id : Text → Bool
unfolding all_request_id
valid_request_id value = not (is_empty value) && leb (byte_len value) 128 && all_request_id value

abbrev with_token : AppToken → Result WireError LifecycleCommand → Result WireError DecodedCommand
with_token token (err e) = err e
with_token token (ok c) = ok (record { command = c; token = some token })

abbrev decode_legacy : Option LegacyCommand → Result WireError DecodedCommand
decode_legacy none = err invalid_command
decode_legacy (some legacy) = ok (record { command = legacy_app_command legacy; token = none })

abbrev decode_envelope : Option V2Envelope → Option LegacyCommand → Result WireError DecodedCommand
decode_envelope none legacy = decode_legacy legacy
decode_envelope (some envelope) legacy =
    if not (envelope.protocol == 2) || not (valid_request_id envelope.request_id)
    then err invalid_envelope
    else with_token envelope.token (app_command envelope.command)

unfoldable pub decode_command : Json → List ℕ → Result WireError DecodedCommand
unfolding valid_request_id app_command legacy_app_command
decode_command json payload = decode_envelope (json.read_v2 payload) (json.read_legacy payload)

-- `commands.push(decoded?)`, and what the rest of the loop makes of the buffer.
unfoldable pub push : DecodedCommand → Decoded → Decoded
push c (err e, buffer) = (err e, buffer)
push c (ok cs, buffer) = (ok (c ∷ cs), buffer)

unfoldable pub pushed : Result WireError DecodedCommand → List ℕ → Decoded → Decoded
unfolding push
pushed (err e) buffer later = (err e, buffer)
pushed (ok c) buffer later = push c later

-- A line of JSON, trimmed, with the bytes that follow its newline.
unfoldable pub json_line : Json → List ℕ → List ℕ → Decoded → Decoded
unfolding decode_command pushed
json_line json [] buffer later = later
json_line json (b ∷ payload) buffer later =
    if ltb max_frame (length (b ∷ payload))
    then (err oversized_line, buffer)
    else pushed (decode_command json (b ∷ payload)) buffer later

unfoldable pub json_end : Json → Bool → List ℕ → Decoded
unfolding decode_command pushed trim_ascii
json_end json end_of_stream line =
    if end_of_stream && not (is_empty (trim_ascii line))
    then pushed (decode_command json (trim_ascii line)) [] (ok [], [])
    else if ltb max_frame (length line)
    then (err unterminated_line, line)
    else (ok [], line)

-- The loop over newlines: `line` is what the buffer holds before the bytes still to be searched.
unfoldable pub json_loop : Json → Bool → List ℕ → List ℕ → Decoded
unfolding json_end json_line trim_ascii
json_loop json end_of_stream line [] = json_end json end_of_stream line
json_loop json end_of_stream line (b ∷ rest) =
    let later = json_loop json end_of_stream (if b == 10 then [] else line ++ b ∷ []) rest in
    if b == 10 then json_line json (trim_ascii line) rest later else later

unfoldable pub decode_json_lines : Json → Bool → List ℕ → Decoded
unfolding json_loop
decode_json_lines json end_of_stream buffer = json_loop json end_of_stream [] buffer

-- The loop over frames: each takes five bytes at least, so that fuel above the buffer's length is
-- never used up.
unfoldable pub frame_loop : Json → ℕ → List ℕ → Decoded
unfolding decode_command pushed from_be_bytes
frame_loop json zero buffer = (ok [], buffer)
frame_loop json (suc fuel) (a ∷ b ∷ c ∷ d ∷ rest) =
    let length_field = from_be_bytes a b c d in
    let later = frame_loop json fuel (drop length_field rest) in
    if length_field == 0 || ltb max_frame length_field
    then (err (invalid_length length_field), a ∷ b ∷ c ∷ d ∷ rest)
    else if ltb (length rest) length_field
    then (ok [], a ∷ b ∷ c ∷ d ∷ rest)
    else pushed (decode_command json (take length_field rest)) (drop length_field rest) later
frame_loop json (suc fuel) buffer = (ok [], buffer)

unfoldable pub check_end : Bool → Decoded → Decoded
check_end true (ok cs, b ∷ buffer) = (err truncated_frame, b ∷ buffer)
check_end end_of_stream decoded = decoded

unfoldable pub decode_length_prefixed : Json → Bool → List ℕ → Decoded
unfolding frame_loop check_end
decode_length_prefixed json end_of_stream buffer =
    check_end end_of_stream (frame_loop json (suc (length buffer)) buffer)

-- The framing that the first byte which is no whitespace decides.
unfoldable pub detect : List ℕ → InboundFraming
detect [] = unknown
detect (b ∷ buffer) =
    if b == 123
    then json_lines
    else if leb 4 (length (b ∷ buffer))
    then length_prefixed
    else unknown

unfoldable pub decode_as : Json → Bool → InboundFraming → List ℕ → Decoded × InboundFraming
unfolding decode_json_lines decode_length_prefixed
decode_as json end_of_stream unknown buffer = ((ok [], buffer), unknown)
decode_as json end_of_stream json_lines buffer =
    (decode_json_lines json end_of_stream buffer, json_lines)
decode_as json end_of_stream length_prefixed buffer =
    (decode_length_prefixed json end_of_stream buffer, length_prefixed)

unfoldable pub decode_frames : Json → List ℕ → InboundFraming → Bool → Decoded × InboundFraming
unfolding detect decode_as is_ascii_whitespace
decode_frames json buffer unknown end_of_stream =
    let trimmed = trim_start_matches is_ascii_whitespace buffer in
    decode_as json end_of_stream (detect trimmed) trimmed
decode_frames json buffer json_lines end_of_stream = decode_as json end_of_stream json_lines buffer
decode_frames json buffer length_prefixed end_of_stream =
    decode_as json end_of_stream length_prefixed buffer
