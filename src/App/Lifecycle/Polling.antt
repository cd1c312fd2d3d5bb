-- ===== src/App/Lifecycle/Polling.antt =====
-- src/app/lifecycle.rs: `poll`, from the reads to the commands.
use riddle.Prelude.{
  ℕ, Bool, true, false, not, ◌&&◌, Option, none, some, List, [], ◌∷◌, ◌++◌, if◌then◌else◌, Result,
  ok, err, any,
}
use riddle.App.Wire.{
  LifecycleCommand, start, enter_foreground, enter_background, shutdown, DecodedCommand,
  InboundFraming,
}
use riddle.App.Wire.Decoding.{Decoded, decode_frames}
use riddle.App.Lifecycle.{
  ClientError, wire, disconnected_early, transport_failed, ReadResult, received_bytes,
  read_would_block, read_interrupted, read_failed, Transport, LifecycleClient, Machine,
  accept_frame, queue_pending_ready,
}
use riddle.App.Lifecycle.Output.{flush_outbound}

-- How the read loop ended: drained, at the end of the stream, or with the transport's error.
pub data ReadEnd : Type 0 where
  drained ended broken : ReadEnd

unfoldable pub read_loop : List ReadResult → List ℕ → ReadEnd × List ReadResult × List ℕ
read_loop [] received = (drained, [], received)
read_loop (received_bytes [] ∷ reads) received = (ended, reads, received)
read_loop (received_bytes (b ∷ bytes) ∷ reads) received = read_loop reads (received ++ b ∷ bytes)
read_loop (read_would_block ∷ reads) received = (drained, reads, received)
read_loop (read_interrupted ∷ reads) received = read_loop reads received
read_loop (read_failed ∷ reads) received = (broken, reads, received)

unfoldable pub is_shutdown : LifecycleCommand → Bool
is_shutdown start = false
is_shutdown enter_foreground = false
is_shutdown enter_background = false
is_shutdown (shutdown deadline_ms) = true

unfoldable pub keep_command :
    LifecycleCommand
    → Result ClientError (List LifecycleCommand) × LifecycleClient
    → Result ClientError (List LifecycleCommand) × LifecycleClient
keep_command command (err e, client) = (err e, client)
keep_command command (ok commands, client) = (ok (command ∷ commands), client)

unfoldable pub ready_then :
    LifecycleCommand
    → Result ClientError (Unit {0}) × LifecycleClient
    → (LifecycleClient → Result ClientError (List LifecycleCommand) × LifecycleClient)
    → Result ClientError (List LifecycleCommand) × LifecycleClient
unfolding keep_command
ready_then command (err e, client) next = (err e, client)
ready_then command (ok _, client) next = keep_command command (next client)

unfoldable pub accepted_then :
    Machine
    → LifecycleCommand
    → Result ClientError Bool × LifecycleClient
    → (LifecycleClient → Result ClientError (List LifecycleCommand) × LifecycleClient)
    → Result ClientError (List LifecycleCommand) × LifecycleClient
unfolding ready_then queue_pending_ready
accepted_then machine command (err e, client) next = (err e, client)
accepted_then machine command (ok false, client) next = next client
accepted_then machine command (ok true, client) next =
    ready_then command (queue_pending_ready machine client) next

unfoldable pub accept_frames :
    Machine
    → List DecodedCommand
    → LifecycleClient
    → Result ClientError (List LifecycleCommand) × LifecycleClient
unfolding accepted_then accept_frame
accept_frames machine [] client = (ok [], client)
accept_frames machine (frame ∷ frames) client =
    accepted_then machine frame.command (accept_frame client frame) (accept_frames machine frames)

unfoldable pub disconnection :
    Bool
    → List LifecycleCommand
    → LifecycleClient
    → Result ClientError (List LifecycleCommand) × LifecycleClient
unfolding is_shutdown
disconnection newly_disconnected commands client =
    if newly_disconnected && not (any is_shutdown commands)
    then (err disconnected_early, client)
    else (ok commands, client)

abbrev pub answer_after :
    List LifecycleCommand
    → Result ClientError (Unit {0}) × LifecycleClient
    → Result ClientError (List LifecycleCommand) × LifecycleClient
answer_after commands (err e, client) = (err e, client)
answer_after commands (ok _, client) = (ok commands, client)

-- The end of `poll`, from the commands that were accepted.
unfoldable pub answer :
    Bool
    → Result ClientError (List LifecycleCommand) × LifecycleClient
    → Result ClientError (List LifecycleCommand) × LifecycleClient
unfolding disconnection flush_outbound
answer newly_disconnected (err e, client) = (err e, client)
answer true (ok commands, client) = disconnection true commands client
answer false (ok commands, client) = answer_after commands (flush_outbound client)

unfoldable pub decoded_answer :
    Machine
    → LifecycleClient
    → Bool
    → Decoded × InboundFraming
    → Result ClientError (List LifecycleCommand) × LifecycleClient
unfolding answer accept_frames
decoded_answer machine client newly_disconnected ((err e, left), framing) =
    (err (wire e), record client { received = left; framing = framing })
decoded_answer machine client newly_disconnected ((ok frames, left), framing) =
    answer newly_disconnected
      (accept_frames machine frames (record client { received = left; framing = framing }))

unfoldable pub decode_received :
    Machine → LifecycleClient → Bool → Result ClientError (List LifecycleCommand) × LifecycleClient
unfolding decoded_answer decode_frames
decode_received machine client newly_disconnected =
    decoded_answer machine client newly_disconnected
      (decode_frames machine.json client.received client.framing newly_disconnected)

abbrev pub with_reads : LifecycleClient → Transport → List ReadResult → List ℕ → LifecycleClient
with_reads client transport reads received = record client {
  transport = some (record transport { reads = reads });
  received = received;
}

unfoldable pub reads_answer :
    Machine
    → LifecycleClient
    → Transport
    → ReadEnd × List ReadResult × List ℕ
    → Result ClientError (List LifecycleCommand) × LifecycleClient
unfolding decode_received
reads_answer machine client transport (broken, reads, received) =
    (err transport_failed, with_reads client transport reads received)
reads_answer machine client transport (drained, reads, received) =
    decode_received machine (with_reads client transport reads received) false
reads_answer machine client transport (ended, reads, received) =
    decode_received machine
      (record (with_reads client transport reads received) { disconnected = true })
      (not client.disconnected)

unfoldable pub poll_over :
    Machine
    → LifecycleClient
    → Option Transport
    → Result ClientError (List LifecycleCommand) × LifecycleClient
unfolding reads_answer read_loop
poll_over machine client none = (ok [], client)
poll_over machine client (some transport) =
    reads_answer machine client transport (read_loop transport.reads client.received)

unfoldable pub polled :
    Machine
    → Result ClientError (Unit {0}) × LifecycleClient
    → Result ClientError (List LifecycleCommand) × LifecycleClient
unfolding poll_over
polled machine (err e, client) = (err e, client)
polled machine (ok _, client) = poll_over machine client client.transport

unfoldable pub poll :
    Machine → LifecycleClient → Result ClientError (List LifecycleCommand) × LifecycleClient
unfolding polled flush_outbound
poll machine client = polled machine (flush_outbound client)
