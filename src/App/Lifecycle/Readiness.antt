-- ===== src/App/Lifecycle/Readiness.antt =====
-- src/app/lifecycle.rs: `Ready` is announced once for a token.
use mathlib.Core.Path.{subst}
use riddle.Prelude.{
  ◌≡◌, ◌≢◌, refl, sym, ap, ◌∙◌, Bool, true, false, Option, none, some, List, [], ◌∷◌, ◌++◌,
  if◌then◌else◌, ltb, Result, length, All, arith, length-append,
}
use riddle.App.Wire.{AppToken, DecodedCommand}
use riddle.App.Lifecycle.{
  ClientError, Transport, OutboundFrame, LifecycleClient, Machine, connected, accept_frame,
  queue_pending_ready, was_ready, token_eq,
}
use riddle.App.Lifecycle.Tokens.{
  IsOwn, IsLater, IsLater-refl, Continues, Accepts, refused, stale, legacy, taken,
  accept_frame-Accepts,
}
use riddle.App.Lifecycle.Announcing.{Queues, quiet, announces, queue_pending_ready-Queues}
use riddle.App.Lifecycle.Succession.{IsBefore, IsBefore-ne, IsBefore-later, later-IsBefore}
use riddle.App.Lifecycle.Takeover.{Continues-trans, queue_pending_ready-token}

abbrev tokens_of : Bool → Option AppToken → List AppToken
tokens_of grew none = []
tokens_of grew (some t) = if grew then t ∷ [] else []

-- The token for which `queue_pending_ready` puts `Ready` in the queue, when it does.
unfoldable pub announced : Machine → LifecycleClient → List AppToken
unfolding queue_pending_ready
announced m c =
    tokens_of (ltb (length c.outbound) (length (queue_pending_ready m c).1.outbound)) c.active_token

-- A client's life, with the tokens announced so far, the last first: it begins connected, takes
-- frames, has first frames reported and their announcement queued, and does what leaves the active
-- and the last announced token alone (reading, flushing, other events).
pub data Session (m : Machine) : LifecycleClient → List AppToken → Type 1 where
  opened :
      (t : Transport) (managed : Bool)
      → Session m (record (connected t) { require_v2 = managed }) []
  framed :
      {c : LifecycleClient} {log : List AppToken} (frame : DecodedCommand)
      → Session m c log
      → Session m (accept_frame c frame).1 log
  queued :
      {c : LifecycleClient} {log : List AppToken}
      → Session m c log
      → Session m (queue_pending_ready m c).1 (announced m c ++ log)
  moved :
      {c : LifecycleClient} {log : List AppToken} (d : LifecycleClient)
      → d.active_token ≡ c.active_token
      → d.last_ready_token ≡ c.last_ready_token
      → Session m c log
      → Session m d log

-- What is known of a session.
abbrev Head : List AppToken → Option AppToken → Type 0
Head [] last = last ≡ none
Head (r ∷ older) last = last ≡ some r

abbrev Reached : List AppToken → Option AppToken → Type 0
Reached [] active = Unit
Reached (r ∷ older) active = IsOwn r × Continues (some r) active

abbrev Ordered : List AppToken → Type 0
Ordered [] = Unit
Ordered (t ∷ older) = All (λ u. IsBefore u t) older × Ordered older

abbrev OwnActive : Option AppToken → Type 0
OwnActive none = Unit
OwnActive (some t) = IsOwn t

record IsConsistent (c : LifecycleClient) (log : List AppToken) : Type 0 where
  own : OwnActive c.active_token
  head : Head log c.last_ready_token
  reached : Reached log c.active_token
  ordered : Ordered log

Reached-Continues :
    (log : List AppToken) (a b : Option AppToken) → Continues a b → Reached log a → Reached log b
Reached-Continues [] a b h r = tt
Reached-Continues (t ∷ older) a b h r = (r.0, Continues-trans (some t) a b r.1 h)

accepted-IsConsistent :
    (c : LifecycleClient) (log : List AppToken) (frame : DecodedCommand)
    (x : Result ClientError Bool × LifecycleClient)
    → Accepts c frame x
    → IsConsistent c log
    → IsConsistent x.1 log
accepted-IsConsistent c log frame _ (refused e) i = i
accepted-IsConsistent c log frame _ stale i = i
accepted-IsConsistent c log frame _ (legacy n f) i = i
accepted-IsConsistent c log frame _ (taken t e own later first) i = record {
  own = own;
  head = i.head;
  reached = Reached-Continues log c.active_token (some t) later i.reached;
  ordered = i.ordered;
}

grown_by :
    (t : AppToken) (a : Option AppToken) (fs gs : List OutboundFrame) (f : OutboundFrame)
    → a ≡ some t
    → gs ≡ fs ++ f ∷ []
    → tokens_of (ltb (length fs) (length gs)) a ≡ t ∷ []
grown_by t none fs gs f e h = cc
grown_by t (some u) fs gs f e h =
    let l = length-append fs (f ∷ []) in
    let n = ap length h in
    let longer : ltb (length fs) (length gs) ≡ true = ground arith in rw longer (grind arith)

not_grown :
    (a : Option AppToken) (fs gs : List OutboundFrame)
    → gs ≡ fs
    → tokens_of (ltb (length fs) (length gs)) a ≡ []
not_grown none fs gs h = refl
not_grown (some u) fs gs h =
    let n = ap length h in
    let same : ltb (length fs) (length gs) ≡ false = ground arith in rw same refl

All-IsBefore :
    (r t : AppToken) (older : List AppToken)
    → IsLater r t
    → All (λ u. IsBefore u r) older
    → All (λ u. IsBefore u t) older
All-IsBefore r t [] l h = tt
All-IsBefore r t (u ∷ older) l h =
    (IsBefore-later u r t h.0.epoch l.epoch, All-IsBefore r t older l h.1)

log-IsBefore :
    (t : AppToken) (log : List AppToken) (last : Option AppToken)
    → IsOwn t
    → Head log last
    → Reached log (some t)
    → Ordered log
    → was_ready last t ≡ false
    → All (λ u. IsBefore u t) log
unfolding was_ready
log-IsBefore t [] last own h r o w = tt
log-IsBefore t (u ∷ older) none own h r o w = cc
log-IsBefore t (u ∷ older) (some v) own h r o w =
    let same : v ≡ u = grind arith in
    let tested : token_eq u t ≡ false = subst (λ x. token_eq x t ≡ false) same w in
    (later-IsBefore u t (r.0.named ∙ sym own.named) r.1 tested, All-IsBefore u t older r.1 o.0)

queued-IsConsistent :
    (c d : LifecycleClient) (log : List AppToken)
    → Queues c d
    → d.active_token ≡ c.active_token
    → IsConsistent c log
    → IsConsistent d (tokens_of (ltb (length c.outbound) (length d.outbound)) c.active_token ++ log)
queued-IsConsistent c _ log (quiet d o l) a i =
    rw (not_grown c.active_token c.outbound d.outbound o) (record {
      own = subst OwnActive (sym a) i.own;
      head = subst (Head log) (sym l) i.head;
      reached = subst (Reached log) (sym a) i.reached;
      ordered = i.ordered;
    })
queued-IsConsistent c _ log (announces d t f e w o l) a i =
    let own : IsOwn t = subst OwnActive e i.own in
    rw (grown_by t c.active_token c.outbound d.outbound f e o) (record {
      own = subst OwnActive (sym a) i.own;
      head = l;
      reached = (own, subst (Continues (some t)) (sym (a ∙ e)) (IsLater-refl t));
      ordered = (
        log-IsBefore t log c.last_ready_token own i.head (subst (Reached log) e i.reached) i.ordered
            w,
        i.ordered,
      );
    })

session-IsConsistent :
    (m : Machine) (c : LifecycleClient) (log : List AppToken) → Session m c log → IsConsistent c log
unfolding connected announced
session-IsConsistent m _ _ (opened t managed) = record {
  own = tt;
  head = refl;
  reached = tt;
  ordered = tt;
}
session-IsConsistent m _ log (framed {c = c} frame s) =
    accepted-IsConsistent c log frame _ (accept_frame-Accepts c frame)
      (session-IsConsistent m c log s)
session-IsConsistent m _ _ (queued {c = c} {log = log} s) =
    queued-IsConsistent c _ log (queue_pending_ready-Queues m c) (queue_pending_ready-token m c)
      (session-IsConsistent m c log s)
session-IsConsistent m _ log (moved {c = c} d a l s) =
    let i = session-IsConsistent m c log s in
    record {
      own = subst OwnActive (sym a) i.own;
      head = subst (Head log) (sym l) i.head;
      reached = subst (Reached log) (sym a) i.reached;
      ordered = i.ordered;
    }

-- The tokens are pairwise different.
abbrev pub AllDifferent : List AppToken → Type 0
AllDifferent [] = Unit
AllDifferent (t ∷ older) = All (λ u. u ≢ t) older × AllDifferent older

none_again :
    (t : AppToken) (older : List AppToken) → All (λ u. IsBefore u t) older → All (λ u. u ≢ t) older
none_again t [] h = tt
none_again t (u ∷ older) h = (IsBefore-ne u t h.0, none_again t older h.1)

Ordered-AllDifferent : (log : List AppToken) → Ordered log → AllDifferent log
Ordered-AllDifferent [] o = tt
Ordered-AllDifferent (t ∷ older) o = (none_again t older o.0, Ordered-AllDifferent older o.1)

-- In the life of a client, managed or not, through any sequence of frames, reports and flushes:
-- `Ready` is put in the queue at most once for each token, although the client remembers only the
-- last token that it was announced for.
pub session-AllDifferent :
    (m : Machine) (c : LifecycleClient) (log : List AppToken) → Session m c log → AllDifferent log
session-AllDifferent m c log s = Ordered-AllDifferent log (session-IsConsistent m c log s).ordered
