-- ===== src/App/Examples.antt =====
-- src/app/lifecycle.rs: the theorems of the channel at a client that is managed, with a JSON library
-- that reads one payload as `Start`.
use riddle.Prelude.{
  ℕ, zero, suc, ◌≡◌, refl, Bool, true, false, Option, none, some, List, [], ◌∷◌, ◌++◌, ok, take,
  drop, arith,
}
use riddle.Text.{lit, trim_start_matches, byte_len, text_eq}
use riddle.App.Wire.{
  AppToken, start, unknown, length_prefixed, DecodedCommand, Json, V2Envelope, v2_start,
  encode_event,
}
use riddle.App.Wire.Decoding.{frame_loop, decode_frames, decode_command}
use riddle.App.Wire.Chunks.{frame_loop-fuel}
use riddle.App.Wire.Frames.{IsPayload, stream, decode_frames-stream}
use riddle.App.Wire.Reads.{prepend_in, decode_frames-append}
use riddle.App.Lifecycle.{
  received_bytes, takes, write_interrupted, write_would_block, Transport, LifecycleClient, Machine,
  connected, accept_frame, queue_pending_ready,
}
use riddle.App.Lifecycle.Output.{flush_outbound, flush_for}
use riddle.App.Lifecycle.Polling.{poll}
use riddle.App.Lifecycle.Tokens.{Continues, Accepts, accept_frame-Accepts}
use riddle.App.Lifecycle.Takeover.{poll-Continues}
use riddle.App.Lifecycle.Sending.{unsent, flush_outbound-bytes}
use riddle.App.Lifecycle.Readiness.{
  opened, framed, queued, moved, announced, AllDifferent, session-AllDifferent,
}

abbrev first_token : AppToken
first_token = record {
  app_id = lit "magicpaper";
  generation = 2;
  foreground_epoch = 5;
  lease_id = some 11;
}

abbrev start_envelope : V2Envelope
start_envelope = record {
  protocol = 2;
  request_id = lit "r-1";
  token = first_token;
  command = v2_start;
}

abbrev start_frame : DecodedCommand
start_frame = record { command = start; token = some first_token }

abbrev read_start : List ℕ → Option V2Envelope
read_start [] = none
read_start (zero ∷ bytes) = none
read_start (suc b ∷ bytes) = some start_envelope

abbrev toy_json : Json
toy_json = record {
  Value = Bool;
  read_v2 = read_start;
  read_legacy = λ bytes. none;
  to_vec = λ envelope. some (123 ∷ 125 ∷ []);
}

abbrev toy_machine : Machine
toy_machine = record { json = toy_json; monotonic_now_ns = λ last. 100 }

abbrev slow_transport : Transport
slow_transport = record {
  message_oriented = false;
  reads = received_bytes (0 ∷ 0 ∷ 0 ∷ []) ∷ received_bytes (1 ∷ 123 ∷ []) ∷ [];
  writes = takes 3 ∷ write_interrupted ∷ takes 9 ∷ write_would_block ∷ [];
  sent = [];
}

abbrev managed_client : LifecycleClient
managed_client = record (connected slow_transport) { require_v2 = true }

abbrev waiting_client : LifecycleClient
waiting_client = record managed_client {
  active_token = some first_token;
  outbound =
      record { bytes = 1 ∷ 2 ∷ 3 ∷ 4 ∷ []; written = 1 }
      ∷ record { bytes = 5 ∷ 6 ∷ []; written = 0 }
      ∷ [];
}

abbrev payloads : List (List ℕ × DecodedCommand)
payloads = (123 ∷ [], start_frame) ∷ []

first_read :
    decode_frames toy_json (0 ∷ 0 ∷ 0 ∷ 1 ∷ 123 ∷ 0 ∷ 0 ∷ []) unknown false
    ≡ ((ok (start_frame ∷ []), 0 ∷ 0 ∷ []), length_prefixed)
unfolding decode_frames trim_start_matches take byte_len drop
first_read = refl

decode_frames-append_example :
    decode_frames toy_json (0 ∷ 0 ∷ 0 ∷ 1 ∷ 123 ∷ 0 ∷ 0 ∷ 0 ∷ 1 ∷ 123 ∷ []) unknown true
    ≡ prepend_in
        (start_frame ∷ [])
        (decode_frames toy_json (0 ∷ 0 ∷ 0 ∷ 1 ∷ 123 ∷ []) length_prefixed true)
decode_frames-append_example =
    decode_frames-append toy_json true (0 ∷ 0 ∷ 0 ∷ 1 ∷ 123 ∷ 0 ∷ 0 ∷ []) (0 ∷ 0 ∷ [])
      (0 ∷ 1 ∷ 123 ∷ []) (start_frame ∷ []) unknown length_prefixed first_read

one_byte-IsPayload : IsPayload toy_json (123 ∷ [], start_frame)
unfolding decode_command byte_len
one_byte-IsPayload = record { filled = omega arith; fits = omega arith; read = refl }

decode_frames-stream_example :
    decode_frames toy_json (stream ((123 ∷ [], start_frame) ∷ payloads)) unknown false
    ≡ ((ok (start_frame ∷ start_frame ∷ []), []), length_prefixed)
decode_frames-stream_example =
    decode_frames-stream toy_json false (123 ∷ [], start_frame) payloads
      (one_byte-IsPayload, (one_byte-IsPayload, tt))

accept_frame-Accepts_example :
    Accepts managed_client start_frame (accept_frame managed_client start_frame)
accept_frame-Accepts_example = accept_frame-Accepts managed_client start_frame

poll-Continues_example :
    Continues (some first_token) (poll toy_machine waiting_client).1.active_token
poll-Continues_example = poll-Continues toy_machine waiting_client

abbrev started_client : LifecycleClient
started_client = (accept_frame managed_client start_frame).1

abbrev reported_client : LifecycleClient
reported_client = record started_client { pending_ready_frame = some 4 }

abbrev ready_client : LifecycleClient
ready_client = (queue_pending_ready toy_machine reported_client).1

abbrev again_client : LifecycleClient
again_client = record ready_client { pending_ready_frame = some 5 }

announced_first : announced toy_machine reported_client ++ [] ≡ first_token ∷ []
unfolding announced accept_frame text_eq connected encode_event
announced_first = refl

session-AllDifferent_example :
    AllDifferent
      (announced toy_machine again_client ++ (announced toy_machine reported_client ++ []))
session-AllDifferent_example =
    session-AllDifferent toy_machine (queue_pending_ready toy_machine again_client).1
      (announced toy_machine again_client ++ (announced toy_machine reported_client ++ []))
      (queued (
        moved again_client refl refl (
          queued
            (moved reported_client refl refl (framed start_frame (opened slow_transport true))))))

waiting_transport : waiting_client.transport ≡ some slow_transport
unfolding connected
waiting_transport = refl

flush_outbound-bytes_example :
    (u : Transport) × ((flush_outbound waiting_client).1.transport ≡ some u)
    × (u.sent ++ unsent (flush_outbound waiting_client).1.outbound
        ≡ [] ++ unsent waiting_client.outbound)
flush_outbound-bytes_example =
    flush_outbound-bytes waiting_client slow_transport waiting_transport refl

waiting_flushed : (flush_for 1 waiting_client).0 ≡ ok tt
unfolding flush_for connected drop
waiting_flushed = refl

frame_loop-fuel_example :
    frame_loop toy_json 9 (0 ∷ 0 ∷ 0 ∷ 1 ∷ 123 ∷ 0 ∷ [])
    ≡ frame_loop toy_json 40 (0 ∷ 0 ∷ 0 ∷ 1 ∷ 123 ∷ 0 ∷ [])
frame_loop-fuel_example =
    frame_loop-fuel toy_json 9 40 (0 ∷ 0 ∷ 0 ∷ 1 ∷ 123 ∷ 0 ∷ []) (omega arith) (omega arith)
