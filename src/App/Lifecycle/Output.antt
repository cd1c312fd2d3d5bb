-- ===== src/App/Lifecycle/Output.antt =====
-- src/app/lifecycle.rs: the outbound queue: `flush_outbound`, `flush_for` and the reports.
use riddle.Prelude.{
  ℕ, zero, suc, ◌+◌, Bool, not, ◌&&◌, Option, none, some, List, [], ◌∷◌, ◌++◌, if◌then◌else◌, ◌==◌,
  Result, ok, err, length, is_empty, take, drop, min, ℤ,
}
use riddle.Text.{Text, lit}
use riddle.App.Wire.{LifecycleStage, state_saved, background_ready, shutdown_complete, failed}
use riddle.App.Lifecycle.{
  ClientError, zero_frame_sequence, write_zero, short_packet, timed_out, transport_failed,
  WriteResult, takes, write_would_block, write_interrupted, write_failed, Transport, OutboundFrame,
  LifecycleClient, Machine, queue_event, queue_pending_ready,
}

-- What the loop of `flush_outbound` changes: the answers left, the queue and the bytes taken.
pub record Flushing : Type 0 where
  pub writes : List WriteResult
  pub frames : List OutboundFrame
  pub sent : List ℕ

-- `frame.written += written`, and the frame leaves the queue when all of it is written.
unfoldable pub advanced : OutboundFrame → ℕ → List OutboundFrame → List OutboundFrame
advanced frame written frames =
    if frame.written + written == length frame.bytes
    then frames
    else record frame { written = frame.written + written } ∷ frames

-- The round that a write of `written` bytes ends, of those that `remaining` holds; `later` is the
-- loop after it.
unfoldable pub written_round :
    Bool
    → OutboundFrame
    → List OutboundFrame
    → List WriteResult
    → List ℕ
    → List ℕ
    → ℕ
    → Result ClientError (Unit {0}) × Flushing
    → Result ClientError (Unit {0}) × Flushing
written_round message_oriented frame frames writes sent remaining written later =
    if written == 0
    then (err write_zero, record { writes = writes; frames = frame ∷ frames; sent = sent })
    else if message_oriented && not (written == length remaining)
    then (
      err short_packet,
      record { writes = writes; frames = frame ∷ frames; sent = sent ++ take written remaining },
    )
    else later

unfoldable pub flush_loop :
    Bool → List WriteResult → List OutboundFrame → List ℕ → Result ClientError (Unit {0}) × Flushing
unfolding written_round advanced
flush_loop message_oriented [] frames sent =
    (ok tt, record { writes = []; frames = frames; sent = sent })
flush_loop message_oriented (write ∷ writes) [] sent =
    (ok tt, record { writes = write ∷ writes; frames = []; sent = sent })
flush_loop message_oriented (takes n ∷ writes) (frame ∷ frames) sent =
    let remaining = drop frame.written frame.bytes in
    let written = min n (length remaining) in
    written_round message_oriented frame frames writes sent remaining written (
      flush_loop message_oriented writes (advanced frame written frames)
        (sent ++ take written remaining))
flush_loop message_oriented (write_would_block ∷ writes) (frame ∷ frames) sent =
    (ok tt, record { writes = writes; frames = frame ∷ frames; sent = sent })
flush_loop message_oriented (write_interrupted ∷ writes) (frame ∷ frames) sent =
    flush_loop message_oriented writes (frame ∷ frames) sent
flush_loop message_oriented (write_failed ∷ writes) (frame ∷ frames) sent =
    (err transport_failed, record { writes = writes; frames = frame ∷ frames; sent = sent })

unfoldable pub flushed :
    LifecycleClient
    → Transport
    → Result ClientError (Unit {0}) × Flushing
    → Result ClientError (Unit {0}) × LifecycleClient
flushed client transport (r, f) = (
  r,
  record client {
    transport = some (record transport { writes = f.writes; sent = f.sent });
    outbound = f.frames;
  },
)

unfoldable pub flush_over :
    LifecycleClient → Option Transport → Result ClientError (Unit {0}) × LifecycleClient
unfolding flush_loop flushed
flush_over client none = (ok tt, record client { outbound = [] })
flush_over client (some transport) =
    flushed client transport
      (flush_loop transport.message_oriented transport.writes client.outbound transport.sent)

unfoldable pub flush_outbound : LifecycleClient → Result ClientError (Unit {0}) × LifecycleClient
unfolding flush_over
flush_outbound client = flush_over client client.transport

-- One round of `flush_for`; `later` is the rounds after it.
unfoldable pub flush_round :
    Result ClientError (Unit {0}) × LifecycleClient
    → Result ClientError (Unit {0}) × LifecycleClient
    → Result ClientError (Unit {0}) × LifecycleClient
flush_round (err e, client) later = (err e, client)
flush_round (ok _, client) later = if is_empty client.outbound then (ok tt, client) else later

-- `flush_for`, where the deadline leaves time for that many rounds after the first.
unfoldable pub flush_for : ℕ → LifecycleClient → Result ClientError (Unit {0}) × LifecycleClient
unfolding flush_round flush_outbound
flush_for zero client =
    let flushed_once = flush_outbound client in
    flush_round flushed_once (err timed_out, flushed_once.1)
flush_for (suc rounds) client =
    let flushed_once = flush_outbound client in
    flush_round flushed_once (flush_for rounds flushed_once.1)

-- `self.queue_event(event)?;` and what follows.
unfoldable pub after :
    {A : Type 0}
    → Result ClientError A × LifecycleClient
    → (LifecycleClient → Result ClientError (Unit {0}) × LifecycleClient)
    → Result ClientError (Unit {0}) × LifecycleClient
after (err e, client) next = (err e, client)
after (ok a, client) next = next client

unfoldable pub ready_over :
    Machine
    → ℕ
    → LifecycleClient
    → Option Transport
    → Result ClientError (Unit {0}) × LifecycleClient
unfolding after queue_pending_ready flush_outbound
ready_over machine frame_sequence client none = (ok tt, client)
ready_over machine frame_sequence client (some transport) =
    after
      (queue_pending_ready machine (record client { pending_ready_frame = some frame_sequence }))
      flush_outbound

unfoldable pub report_ready_after_frame :
    Machine → ℕ → LifecycleClient → Result ClientError (Unit {0}) × LifecycleClient
unfolding ready_over
report_ready_after_frame machine frame_sequence client =
    if frame_sequence == 0
    then (err zero_frame_sequence, client)
    else ready_over machine frame_sequence client client.transport

unfoldable pub report_background_ready :
    Machine → LifecycleClient → Result ClientError (Unit {0}) × LifecycleClient
unfolding after queue_event flush_outbound
report_background_ready machine client =
    after (queue_event machine (state_saved none) client) (λ saved.
      after (queue_event machine (background_ready (lit "MagicPaper") (lit "已暂停，可继续") none) saved)
        flush_outbound)

unfoldable pub report_shutdown_complete :
    Machine → ℤ → ℕ → LifecycleClient → Result ClientError (Unit {0}) × LifecycleClient
unfolding after queue_event flush_for
report_shutdown_complete machine exit_code rounds client =
    after (queue_event machine (state_saved none) client)
      (λ saved. after (queue_event machine (shutdown_complete exit_code) saved) (flush_for rounds))

unfoldable pub report_failed :
    Machine
    → LifecycleStage
    → Text
    → Bool
    → ℕ
    → LifecycleClient
    → Result ClientError (Unit {0}) × LifecycleClient
unfolding after queue_event flush_for
report_failed machine stage message retryable rounds client =
    after (queue_event machine (failed stage message retryable) client) (flush_for rounds)
