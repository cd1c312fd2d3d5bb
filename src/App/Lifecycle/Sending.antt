-- ===== src/App/Lifecycle/Sending.antt =====
-- src/app/lifecycle.rs: the bytes of the outbound queue on their way to the transport.
use mathlib.Core.Path.{subst}
use riddle.Prelude.{
  ℕ, zero, suc, ◌+◌, ◌≡◌, refl, sym, ap, ◌∙◌, true, false, some, List, [], ◌∷◌, ◌++◌, if◌then◌else◌,
  ◌==◌, Result, ok, err, length, is_empty, take, drop, min, Bool-cases, inl, inr, arith,
  append_assoc, append_nil, take-drop, drop-drop, drop_all,
}
use riddle.App.Lifecycle.{
  ClientError, WriteResult, takes, write_would_block, write_interrupted, write_failed, Transport,
  OutboundFrame, LifecycleClient,
}
use riddle.App.Lifecycle.Output.{
  Flushing, advanced, written_round, flush_loop, flushed, flush_outbound, flush_over, flush_round,
  flush_for,
}

-- The bytes that wait: of each frame those that are not written.
unfoldable pub unsent : List OutboundFrame → List ℕ
unsent [] = []
unsent (frame ∷ frames) = drop frame.written frame.bytes ++ unsent frames

-- What a transport has taken with what waits for it.
unfoldable pub all_bytes : Flushing → List ℕ
unfolding unsent
all_bytes f = f.sent ++ unsent f.frames

taken_part :
    (frame : OutboundFrame) (k : ℕ)
    → take k (drop frame.written frame.bytes) ++ drop (frame.written + k) frame.bytes
      ≡ drop frame.written frame.bytes
taken_part frame k =
    ap (λ xs. take k (drop frame.written frame.bytes) ++ xs)
      (sym (drop-drop frame.written k frame.bytes))
    ∙ take-drop k (drop frame.written frame.bytes)

taken_whole :
    (frame : OutboundFrame) (k : ℕ)
    → (frame.written + k == length frame.bytes) ≡ true
    → take k (drop frame.written frame.bytes) ≡ drop frame.written frame.bytes
taken_whole frame k h =
    sym (append_nil _)
    ∙ (ap (λ xs. take k (drop frame.written frame.bytes) ++ xs)
          (sym (drop_all (frame.written + k) frame.bytes (ground arith)))
        ∙ taken_part frame k)

advanced-unsent :
    (frame : OutboundFrame) (k : ℕ) (frames : List OutboundFrame)
    → take k (drop frame.written frame.bytes) ++ unsent (advanced frame k frames)
      ≡ unsent (frame ∷ frames)
unfolding advanced unsent
advanced-unsent frame k frames = elim (Bool-cases (frame.written + k == length frame.bytes)) [
  | inl done ↦ rw done (ap (λ xs. xs ++ unsent frames) (taken_whole frame k done))
  | inr more ↦ rw more (
      sym (append_assoc (take k (drop frame.written frame.bytes)) _ (unsent frames))
      ∙ ap (λ xs. xs ++ unsent frames) (taken_part frame k))
]

written_round-bytes :
    (frame : OutboundFrame) (frames : List OutboundFrame) (writes : List WriteResult)
    (sent remaining : List ℕ) (k : ℕ) (later : Result ClientError (Unit {0}) × Flushing)
    → all_bytes later.1 ≡ sent ++ unsent (frame ∷ frames)
    → all_bytes (written_round false frame frames writes sent remaining k later).1
      ≡ sent ++ unsent (frame ∷ frames)
unfolding written_round all_bytes
written_round-bytes frame frames writes sent remaining k later h = elim (Bool-cases (k == 0)) [
  | inl none_taken ↦ rw none_taken refl
  | inr some_taken ↦ rw some_taken h
]

flush_loop-bytes :
    (writes : List WriteResult) (frames : List OutboundFrame) (sent : List ℕ)
    → all_bytes (flush_loop false writes frames sent).1 ≡ sent ++ unsent frames
unfolding flush_loop all_bytes
flush_loop-bytes [] frames sent = refl
flush_loop-bytes (w ∷ writes) [] sent = refl
flush_loop-bytes (takes n ∷ writes) (frame ∷ frames) sent =
    let remaining = drop frame.written frame.bytes in
    let k = min n (length remaining) in
    written_round-bytes frame frames writes sent remaining k _ (
      flush_loop-bytes writes (advanced frame k frames) (sent ++ take k remaining)
      ∙ (append_assoc sent (take k remaining) _
          ∙ ap (λ xs. sent ++ xs) (advanced-unsent frame k frames)))
flush_loop-bytes (write_would_block ∷ writes) (frame ∷ frames) sent = refl
flush_loop-bytes (write_interrupted ∷ writes) (frame ∷ frames) sent =
    flush_loop-bytes writes (frame ∷ frames) sent
flush_loop-bytes (write_failed ∷ writes) (frame ∷ frames) sent = refl

flush_over-bytes :
    (c : LifecycleClient) (t : Transport)
    → t.message_oriented ≡ false
    → (u : Transport) × ((flush_over c (some t)).1.transport ≡ some u)
      × (u.sent ++ unsent (flush_over c (some t)).1.outbound ≡ t.sent ++ unsent c.outbound)
unfolding flush_over flushed all_bytes
flush_over-bytes c t h = (
  _,
  refl,
  ap (λ b. all_bytes (flush_loop b t.writes c.outbound t.sent).1) h
      ∙ flush_loop-bytes t.writes c.outbound t.sent,
)

-- On a byte stream, whatever the transport answers and whether or not the flush fails: what it has
-- taken, followed by what still waits in the queue, is what it had taken followed by what waited. No
-- byte is lost, repeated or sent out of order.
pub flush_outbound-bytes :
    (c : LifecycleClient) (t : Transport)
    → c.transport ≡ some t
    → t.message_oriented ≡ false
    → (u : Transport) × ((flush_outbound c).1.transport ≡ some u)
      × (u.sent ++ unsent (flush_outbound c).1.outbound ≡ t.sent ++ unsent c.outbound)
unfolding flush_outbound
flush_outbound-bytes c t e h =
    subst
      (λ o.
        (u : Transport) × ((flush_over c o).1.transport ≡ some u)
        × (u.sent ++ unsent (flush_over c o).1.outbound ≡ t.sent ++ unsent c.outbound))
      (sym e) (flush_over-bytes c t h)

queue_emptied :
    (c : LifecycleClient) (frames : List OutboundFrame)
    (later : Result ClientError (Unit {0}) × LifecycleClient)
    → c.outbound ≡ frames
    → (if is_empty frames then (ok tt, c) else later).0 ≡ ok tt
    → (later.0 ≡ ok tt → later.1.outbound ≡ [])
    → (if is_empty c.outbound then (ok tt, c) else later).1.outbound ≡ []
queue_emptied c [] later e h k = rw e refl
queue_emptied c (f ∷ frames) later e h k = rw e (k h)

flush_round-ok :
    (x later : Result ClientError (Unit {0}) × LifecycleClient)
    → (flush_round x later).0 ≡ ok tt
    → (later.0 ≡ ok tt → later.1.outbound ≡ [])
    → (flush_round x later).1.outbound ≡ []
unfolding flush_round
flush_round-ok (err e, c) later h k = cc
flush_round-ok (ok _, c) later h k = queue_emptied c c.outbound later refl h k

-- When `flush_for` returns without an error, nothing waits in the queue, whatever the number of
-- rounds that the deadline leaves.
pub flush_for-ok :
    (rounds : ℕ) (c : LifecycleClient)
    → (flush_for rounds c).0 ≡ ok tt
    → (flush_for rounds c).1.outbound ≡ []
unfolding flush_for
flush_for-ok zero c h = flush_round-ok (flush_outbound c) _ h (λ k. cc)
flush_for-ok (suc rounds) c h =
    flush_round-ok (flush_outbound c) _ h (flush_for-ok rounds (flush_outbound c).1)
