-- ===== src/App/Lifecycle/Announcing.antt =====
-- src/app/lifecycle.rs: the two things that `queue_pending_ready` may do.
use mathlib.Core.Path.{subst}
use riddle.Prelude.{
  ℕ, ◌≡◌, refl, sym, ap, Bool, true, false, Option, none, some, List, [], ◌∷◌, ◌++◌, if◌then◌else◌,
  Result, ok, err,
}
use riddle.App.Wire.{AppToken, WireError, ready, encode_event}
use riddle.App.Lifecycle.{
  Transport, OutboundFrame, LifecycleClient, Machine, queue_pending_ready, queue_event, queue_for,
  queue_encoded, ready_queued, queue_ready_for, was_ready, next_request_id,
}

-- What `queue_pending_ready` does to the queue and to the last announced token.
pub data Queues (c : LifecycleClient) : LifecycleClient → Type 0 where
  quiet :
      (d : LifecycleClient)
      → d.outbound ≡ c.outbound
      → d.last_ready_token ≡ c.last_ready_token
      → Queues c d
  announces :
      (d : LifecycleClient) (t : AppToken) (f : OutboundFrame)
      → c.active_token ≡ some t
      → was_ready c.last_ready_token t ≡ false
      → d.outbound ≡ c.outbound ++ f ∷ []
      → d.last_ready_token ≡ some t
      → Queues c d

encoded-Queues :
    (c b : LifecycleClient) (t : AppToken) (r : Result WireError (List ℕ))
    → b.outbound ≡ c.outbound
    → b.last_ready_token ≡ c.last_ready_token
    → c.active_token ≡ some t
    → was_ready c.last_ready_token t ≡ false
    → Queues c (ready_queued t (queue_encoded b r)).1
encoded-Queues c b t (err e) o l a w = quiet _ o l
encoded-Queues c b t (ok bytes) o l a w =
    announces _ t (record { bytes = bytes; written = 0 }) a w
      (ap (λ fs. fs ++ record { bytes = bytes; written = 0 } ∷ []) o) refl

queue_for-Queues :
    (m : Machine) (c : LifecycleClient) (t : AppToken) (n : ℕ) (tr : Option Transport)
    → c.active_token ≡ some t
    → was_ready c.last_ready_token t ≡ false
    → Queues c (ready_queued t (queue_for m (ready (some n)) c tr (some t))).1
unfolding next_request_id
queue_for-Queues m c t n none a w = quiet _ refl refl
queue_for-Queues m c t n (some tr) a w =
    let next = next_request_id m t.generation c in
    encoded-Queues c next.1 t (encode_event m.json t next.0 (ready (some n)) c.framing) refl refl a
      w

ready_tested :
    (m : Machine) (c : LifecycleClient) (n : ℕ) (t : AppToken)
    → c.active_token ≡ some t
    → (again : Bool) → was_ready c.last_ready_token t ≡ again
    → Queues c
        (if again
          then (ok tt, record c { pending_ready_frame = none })
          else ready_queued t (queue_event m (ready (some n)) c)).1
unfolding queue_event
ready_tested m c n t e true w = quiet _ refl refl
ready_tested m c n t e false w =
    subst (λ a. Queues c (ready_queued t (queue_for m (ready (some n)) c c.transport a)).1) (sym e)
      (queue_for-Queues m c t n c.transport e w)

queue_ready_for-Queues :
    (m : Machine) (c : LifecycleClient) (p : Option ℕ) (a : Option AppToken)
    → c.active_token ≡ a
    → Queues c (queue_ready_for m c p a).1
unfolding queue_event
queue_ready_for-Queues m c none a e = quiet _ refl refl
queue_ready_for-Queues m c (some n) none e = quiet _ refl refl
queue_ready_for-Queues m c (some n) (some t) e =
    ready_tested m c n t e (was_ready c.last_ready_token t) refl

pub queue_pending_ready-Queues :
    (m : Machine) (c : LifecycleClient) → Queues c (queue_pending_ready m c).1
unfolding queue_pending_ready
queue_pending_ready-Queues m c =
    queue_ready_for-Queues m c c.pending_ready_frame c.active_token refl
