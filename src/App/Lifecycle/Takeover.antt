-- ===== src/App/Lifecycle/Takeover.antt =====
-- src/app/lifecycle.rs: the active token across a whole `poll`.
use riddle.Prelude.{
  ℕ, ◌≡◌, refl, sym, ap, ◌∙◌, Bool, true, false, not, arith, Option, none, some, List, [], ◌∷◌,
  Result, ok, err, Bool-cases, inl, inr,
}
use mathlib.Core.Path.{subst}
use riddle.App.Wire.{
  AppToken, LifecycleCommand, DecodedCommand, InboundFraming, WireError, OutboundEvent, ready,
}
use riddle.App.Wire.Decoding.{Decoded}
use riddle.App.Lifecycle.{
  ClientError, ReadResult, Transport, LifecycleClient, Machine, accept_frame, queue_pending_ready,
  queue_event, queue_for, queue_encoded, ready_queued, queue_ready_for, was_ready, next_request_id,
}
use riddle.App.Lifecycle.Output.{flush_over, flush_outbound, flushed}
use riddle.App.Lifecycle.Polling.{
  ReadEnd, drained, ended, broken, read_loop, keep_command, ready_then, disconnection, answer_after,
  decoded_answer, decode_received, with_reads, reads_answer, poll_over, polled, accepted_then,
  accept_frames, answer, poll,
}
use riddle.App.Lifecycle.Tokens.{
  Continues, IsLater-refl, IsLater-trans, Accepts, refused, stale, legacy, taken,
  accept_frame-Accepts,
}

-- Continues is a preorder.
pub Continues-refl : (a : Option AppToken) → Continues a a
Continues-refl none = tt
Continues-refl (some a) = IsLater-refl a

pub Continues-trans : (a b c : Option AppToken) → Continues a b → Continues b c → Continues a c
Continues-trans none b c h k = tt
Continues-trans (some a) none c h k = absurd h
Continues-trans (some a) (some b) none h k = absurd k
Continues-trans (some a) (some b) (some c) h k = IsLater-trans a b c h k

flush_over-token :
    (c : LifecycleClient) (t : Option Transport) → (flush_over c t).1.active_token ≡ c.active_token
unfolding flush_over flushed
flush_over-token c none = refl
flush_over-token c (some t) = refl

flush_outbound-token : (c : LifecycleClient) → (flush_outbound c).1.active_token ≡ c.active_token
unfolding flush_outbound
flush_outbound-token c = flush_over-token c c.transport

queue_encoded-token :
    (c : LifecycleClient) (r : Result WireError (List ℕ))
    → (queue_encoded c r).1.active_token ≡ c.active_token
queue_encoded-token c (err e) = refl
queue_encoded-token c (ok bytes) = refl

pub queue_for-token :
    (m : Machine) (event : OutboundEvent (m.json.Value)) (c : LifecycleClient)
    (t : Option Transport) (a : Option AppToken)
    → (queue_for m event c t a).1.active_token ≡ c.active_token
unfolding next_request_id
queue_for-token m event c none a = refl
queue_for-token m event c (some t) none = refl
queue_for-token m event c (some t) (some a) = queue_encoded-token _ _

queue_event-token :
    (m : Machine) (event : OutboundEvent (m.json.Value)) (c : LifecycleClient)
    → (queue_event m event c).1.active_token ≡ c.active_token
unfolding queue_event
queue_event-token m event c = queue_for-token m event c c.transport c.active_token

ready_queued-token :
    (t : AppToken) (x : Result ClientError Bool × LifecycleClient)
    → (ready_queued t x).1.active_token ≡ x.1.active_token
ready_queued-token t (err e, c) = refl
ready_queued-token t (ok false, c) = refl
ready_queued-token t (ok true, c) = refl

queue_ready_for-token :
    (m : Machine) (c : LifecycleClient) (p : Option ℕ) (a : Option AppToken)
    → (queue_ready_for m c p a).1.active_token ≡ c.active_token
queue_ready_for-token m c none a = refl
queue_ready_for-token m c (some n) none = refl
queue_ready_for-token m c (some n) (some a) = elim (Bool-cases (was_ready c.last_ready_token a)) [
  | inl again ↦ simp (again)
  | inr first ↦ simp (
    first,
    ready_queued-token a (queue_event m (ready (some n)) c),
    queue_event-token m (ready (some n)) c,
  )
]

pub queue_pending_ready-token :
    (m : Machine) (c : LifecycleClient) → (queue_pending_ready m c).1.active_token ≡ c.active_token
unfolding queue_pending_ready
queue_pending_ready-token m c = queue_ready_for-token m c c.pending_ready_frame c.active_token

Accepts-Continues :
    (c : LifecycleClient) (frame : DecodedCommand) (x : Result ClientError Bool × LifecycleClient)
    → Accepts c frame x
    → Continues c.active_token x.1.active_token
Accepts-Continues c frame _ (refused e) = Continues-refl c.active_token
Accepts-Continues c frame _ stale = Continues-refl c.active_token
Accepts-Continues c frame _ (legacy n f) = Continues-refl c.active_token
Accepts-Continues c frame _ (taken t e own later first) = later

keep_command-token :
    (command : LifecycleCommand) (x : Result ClientError (List LifecycleCommand) × LifecycleClient)
    → (keep_command command x).1 ≡ x.1
unfolding keep_command
keep_command-token command (err e, c) = refl
keep_command-token command (ok cs, c) = refl

ready_then-token :
    (command : LifecycleCommand) (a : Option AppToken)
    (x : Result ClientError (Unit {0}) × LifecycleClient)
    (next : LifecycleClient → Result ClientError (List LifecycleCommand) × LifecycleClient)
    → Continues a x.1.active_token
    → ((c : LifecycleClient) → Continues c.active_token (next c).1.active_token)
    → Continues a (ready_then command x next).1.active_token
unfolding ready_then
ready_then-token command a (err e, c) next h k = h
ready_then-token command a (ok _, c) next h k =
    subst (λ d. Continues a d.active_token) (sym (keep_command-token command (next c)))
      (Continues-trans a c.active_token _ h (k c))

accepted_then-token :
    (m : Machine) (command : LifecycleCommand) (a : Option AppToken)
    (x : Result ClientError Bool × LifecycleClient)
    (next : LifecycleClient → Result ClientError (List LifecycleCommand) × LifecycleClient)
    → Continues a x.1.active_token
    → ((c : LifecycleClient) → Continues c.active_token (next c).1.active_token)
    → Continues a (accepted_then m command x next).1.active_token
unfolding accepted_then
accepted_then-token m command a (err e, c) next h k = h
accepted_then-token m command a (ok false, c) next h k = Continues-trans a c.active_token _ h (k c)
accepted_then-token m command a (ok true, c) next h k =
    ready_then-token command a (queue_pending_ready m c) next
      (subst (Continues a) (sym (queue_pending_ready-token m c)) h) k

accept_frames-Continues :
    (m : Machine) (frames : List DecodedCommand) (c : LifecycleClient)
    → Continues c.active_token (accept_frames m frames c).1.active_token
unfolding accept_frames
accept_frames-Continues m [] c = Continues-refl c.active_token
accept_frames-Continues m (frame ∷ frames) c =
    accepted_then-token m frame.command c.active_token (accept_frame c frame)
      (accept_frames m frames) (Accepts-Continues c frame _ (accept_frame-Accepts c frame))
      (accept_frames-Continues m frames)

answer_after-client :
    (commands : List LifecycleCommand) (x : Result ClientError (Unit {0}) × LifecycleClient)
    → (answer_after commands x).1 ≡ x.1
answer_after-client commands (err e, c) = refl
answer_after-client commands (ok _, c) = refl

disconnection-client :
    (newly : Bool) (commands : List LifecycleCommand) (c : LifecycleClient)
    → (disconnection newly commands c).1 ≡ c
unfolding disconnection
disconnection-client newly commands c = ground arith

answer-token :
    (newly : Bool) (x : Result ClientError (List LifecycleCommand) × LifecycleClient)
    → (answer newly x).1.active_token ≡ x.1.active_token
unfolding answer
answer-token newly (err e, c) = refl
answer-token true (ok commands, c) = ap (λ d. d.active_token) (disconnection-client true commands c)
answer-token false (ok commands, c) =
    ap (λ d. d.active_token) (answer_after-client commands (flush_outbound c))
    ∙ flush_outbound-token c

decoded_answer-Continues :
    (m : Machine) (c : LifecycleClient) (newly : Bool) (d : Decoded × InboundFraming)
    → Continues c.active_token (decoded_answer m c newly d).1.active_token
unfolding decoded_answer
decoded_answer-Continues m c newly ((err e, left), f) = Continues-refl c.active_token
decoded_answer-Continues m c newly ((ok frames, left), f) =
    let d = record c { received = left; framing = f } in
    subst (Continues c.active_token) (sym (answer-token newly (accept_frames m frames d)))
      (accept_frames-Continues m frames d)

reads_answer-Continues :
    (m : Machine) (c : LifecycleClient) (t : Transport) (x : ReadEnd × List ReadResult × List ℕ)
    → Continues c.active_token (reads_answer m c t x).1.active_token
unfolding reads_answer decode_received
reads_answer-Continues m c t (broken, reads, received) = Continues-refl c.active_token
reads_answer-Continues m c t (drained, reads, received) =
    decoded_answer-Continues m (with_reads c t reads received) false _
reads_answer-Continues m c t (ended, reads, received) =
    decoded_answer-Continues m (record (with_reads c t reads received) { disconnected = true })
      (not c.disconnected) _

poll_over-Continues :
    (m : Machine) (c : LifecycleClient) (t : Option Transport)
    → Continues c.active_token (poll_over m c t).1.active_token
unfolding poll_over
poll_over-Continues m c none = Continues-refl c.active_token
poll_over-Continues m c (some t) = reads_answer-Continues m c t (read_loop t.reads c.received)

polled-Continues :
    (m : Machine) (x : Result ClientError (Unit {0}) × LifecycleClient)
    → Continues x.1.active_token (polled m x).1.active_token
unfolding polled
polled-Continues m (err e, c) = Continues-refl c.active_token
polled-Continues m (ok _, c) = poll_over-Continues m c c.transport

-- Whatever a `poll` reads and however it ends, errors included, a client that held a token still
-- holds one of the same generation, of a later foreground epoch or of the same epoch under the same
-- lease or none: the token never goes back and is never dropped.
pub poll-Continues :
    (m : Machine) (c : LifecycleClient) → Continues c.active_token (poll m c).1.active_token
unfolding poll
poll-Continues m c =
    subst (λ a. Continues a (polled m (flush_outbound c)).1.active_token) (flush_outbound-token c)
      (polled-Continues m (flush_outbound c))
