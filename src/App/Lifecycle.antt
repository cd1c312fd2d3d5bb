-- ===== src/App/Lifecycle.antt =====
-- src/app/lifecycle.rs: the client that owns the channel. The transport is what its reads and writes
-- answer, in order; when those run out it would block. A clock reading is a function of the last
-- stamp, which every reading raises until the stamps are exhausted.
pub mod Output
pub mod Polling
pub mod Tokens
pub mod Takeover
pub mod Sending
pub mod Succession
pub mod Announcing
pub mod Readiness
use riddle.Prelude.{
  ℕ, zero, suc, ◌+◌, Bool, true, false, not, ◌&&◌, ◌||◌, Option, none, some, List, [], ◌∷◌, ◌++◌,
  if◌then◌else◌, ltb, leb, ◌==◌, Result, ok, err, length, ℤ, max,
}
use riddle.Text.{Text, lit, text_eq}
use riddle.Text.Decimal.{saturating_add, print}
use riddle.App.Wire.{
  AppToken, LifecycleCommand, start, enter_foreground, enter_background, shutdown, InboundFraming,
  unknown, OutboundEvent, ready, DecodedCommand, WireError, Json, encode_event,
}

pub data ClientError : Type 0 where
  wire : WireError → ClientError
  missing_channel zero_frame_sequence tokens_required invalid_token not_a_start write_zero
        short_packet timed_out disconnected_early :
      ClientError
  transport_failed : ClientError

-- What a read answers: bytes, none at the end of the stream.
pub data ReadResult : Type 0 where
  received_bytes : List ℕ → ReadResult
  read_would_block read_interrupted read_failed : ReadResult

-- What a write answers: how many bytes it takes, as far as there are so many.
pub data WriteResult : Type 0 where
  takes : ℕ → WriteResult
  write_would_block write_interrupted write_failed : WriteResult

-- A transport: its answers to come, and the bytes that it has taken.
pub record Transport : Type 0 where
  pub message_oriented : Bool
  pub reads : List ReadResult
  pub writes : List WriteResult
  pub sent : List ℕ

pub record OutboundFrame : Type 0 where
  pub bytes : List ℕ
  pub written : ℕ

pub record LifecycleClient : Type 0 where
  pub transport : Option Transport
  pub received : List ℕ
  pub framing : InboundFraming
  pub outbound : List OutboundFrame
  pub disconnected : Bool
  pub active_token : Option AppToken
  pub pending_ready_frame : Option ℕ
  pub last_ready_token : Option AppToken
  pub last_request_stamp : ℕ
  pub require_v2 : Bool

-- The JSON library and the monotonic clock.
pub record Machine : Type 1 where
  pub json : Json
  pub monotonic_now_ns : ℕ → ℕ

-- `LifecycleClient::connected`, `LifecycleClient::disabled`
unfoldable pub connected : Transport → LifecycleClient
connected transport = record {
  transport = some transport;
  received = [];
  framing = unknown;
  outbound = [];
  disconnected = false;
  active_token = none;
  pending_ready_frame = none;
  last_ready_token = none;
  last_request_stamp = 0;
  require_v2 = false;
}

unfoldable pub disabled : LifecycleClient
disabled = record {
  transport = none;
  received = [];
  framing = unknown;
  outbound = [];
  disconnected = false;
  active_token = none;
  pending_ready_frame = none;
  last_ready_token = none;
  last_request_stamp = 0;
  require_v2 = false;
}

abbrev has_transport : Option Transport → Bool
has_transport none = false
has_transport (some transport) = true

unfoldable pub is_connected : LifecycleClient → Bool
is_connected client = has_transport client.transport && not client.disconnected

-- What `transport::discover` finds, as a client.
unfoldable pub from_environment :
    Result ClientError (Option Transport) → Result ClientError LifecycleClient
unfolding connected disabled
from_environment (err e) = err e
from_environment (ok none) = ok disabled
from_environment (ok (some transport)) = ok (connected transport)

abbrev discovered : Bool → Result ClientError LifecycleClient → Result ClientError LifecycleClient
unfolding is_connected disabled
discovered required (ok client) =
    if required && not (is_connected client)
    then err missing_channel
    else ok (record client { require_v2 = required })
discovered required (err e) = if required then err e else ok disabled

unfoldable pub discover :
    Bool → Result ClientError (Option Transport) → Result ClientError LifecycleClient
unfolding discovered from_environment
discover required found = discovered required (from_environment found)

unfoldable pub optional_eq : Option ℕ → Option ℕ → Bool
optional_eq none none = true
optional_eq (some a) (some b) = a == b
optional_eq none (some b) = false
optional_eq (some a) none = false

unfoldable pub token_eq : AppToken → AppToken → Bool
unfolding optional_eq
token_eq t u =
    text_eq t.app_id u.app_id
    && t.generation == u.generation
    && t.foreground_epoch == u.foreground_epoch
    && optional_eq t.lease_id u.lease_id

unfoldable pub is_some : Option ℕ → Bool
is_some none = false
is_some (some a) = true

unfoldable pub is_start : LifecycleCommand → Bool
is_start start = true
is_start enter_foreground = false
is_start enter_background = false
is_start (shutdown d) = false

-- The match on the command, for a token of the active generation and of no earlier epoch.
unfoldable pub accepted : LifecycleCommand → AppToken → AppToken → Bool
unfolding token_eq optional_eq is_some
accepted start token active = token_eq token active
accepted enter_foreground token active =
    ltb active.foreground_epoch token.foreground_epoch && is_some token.lease_id
    || token.foreground_epoch == active.foreground_epoch
      && optional_eq token.lease_id active.lease_id
accepted enter_background token active =
    token.foreground_epoch == active.foreground_epoch
    && (optional_eq token.lease_id active.lease_id || not (is_some token.lease_id))
accepted (shutdown deadline_ms) token active =
    token.foreground_epoch == active.foreground_epoch
    && (optional_eq token.lease_id active.lease_id || not (is_some token.lease_id))

abbrev pub app_name : Text
app_name = lit "magicpaper"

unfoldable pub accept_active :
    LifecycleClient
    → LifecycleCommand
    → AppToken
    → Option AppToken
    → Result ClientError Bool × LifecycleClient
unfolding is_start is_some accepted
accept_active client command token none =
    if client.require_v2
      && (not (is_start command) || token.foreground_epoch == 0 || not (is_some token.lease_id))
    then (err not_a_start, client)
    else (ok true, record client { active_token = some token })
accept_active client command token (some active) =
    if not (token.generation == active.generation)
      || ltb token.foreground_epoch active.foreground_epoch
    then (ok false, client)
    else if not (accepted command token active)
    then (ok false, client)
    else (ok true, record client { active_token = some token })

unfoldable pub accept_token :
    LifecycleClient → LifecycleCommand → Option AppToken → Result ClientError Bool × LifecycleClient
unfolding accept_active optional_eq
accept_token client command none =
    (if client.require_v2 then err tokens_required else ok true, client)
accept_token client command (some token) =
    if not (text_eq token.app_id app_name)
      || token.generation == 0
      || optional_eq token.lease_id (some 0)
    then (err invalid_token, client)
    else accept_active client command token client.active_token

unfoldable pub accept_frame :
    LifecycleClient → DecodedCommand → Result ClientError Bool × LifecycleClient
unfolding accept_token
accept_frame client frame = accept_token client frame.command frame.token

-- `next_request_id`: the identifier, and the stamp that is now the last.
unfoldable pub next_request_id : Machine → ℕ → LifecycleClient → Text × LifecycleClient
next_request_id machine generation client =
    let stamp =
      max (machine.monotonic_now_ns client.last_request_stamp)
        (saturating_add client.last_request_stamp 1) in
    (
      lit "mp-" ++ print generation ++ lit "-" ++ print stamp,
      record client { last_request_stamp = stamp },
    )

abbrev pub queue_encoded :
    LifecycleClient → Result WireError (List ℕ) → Result ClientError Bool × LifecycleClient
queue_encoded client (err e) = (err (wire e), client)
queue_encoded client (ok bytes) = (
  ok true,
  record client { outbound = client.outbound ++ record { bytes = bytes; written = 0 } ∷ [] },
)

abbrev pub queue_for :
    (machine : Machine)
    → OutboundEvent (machine.json.Value)
    → LifecycleClient
    → Option Transport
    → Option AppToken
    → Result ClientError Bool × LifecycleClient
queue_for machine event client none token = (ok false, client)
queue_for machine event client (some transport) none = (ok false, client)
queue_for machine event client (some transport) (some token) =
    let next = next_request_id machine token.generation client in
    queue_encoded next.1 (encode_event machine.json token next.0 event client.framing)

unfoldable pub queue_event :
    (machine : Machine)
    → OutboundEvent (machine.json.Value)
    → LifecycleClient
    → Result ClientError Bool × LifecycleClient
unfolding next_request_id
queue_event machine event client =
    queue_for machine event client client.transport client.active_token

-- `last_ready_token.as_ref() == Some(&token)`
unfoldable pub was_ready : Option AppToken → AppToken → Bool
unfolding token_eq
was_ready none token = false
was_ready (some last) token = token_eq last token

abbrev pub ready_queued :
    AppToken
    → Result ClientError Bool × LifecycleClient
    → Result ClientError (Unit {0}) × LifecycleClient
ready_queued token (err e, client) = (err e, client)
ready_queued token (ok false, client) = (ok tt, client)
ready_queued token (ok true, client) =
    (ok tt, record client { pending_ready_frame = none; last_ready_token = some token })

abbrev pub queue_ready_for :
    Machine
    → LifecycleClient
    → Option ℕ
    → Option AppToken
    → Result ClientError (Unit {0}) × LifecycleClient
queue_ready_for machine client none token = (ok tt, client)
queue_ready_for machine client (some frame_sequence) none = (ok tt, client)
queue_ready_for machine client (some frame_sequence) (some token) =
    if was_ready client.last_ready_token token
    then (ok tt, record client { pending_ready_frame = none })
    else ready_queued token (queue_event machine (ready (some frame_sequence)) client)

unfoldable pub queue_pending_ready :
    Machine → LifecycleClient → Result ClientError (Unit {0}) × LifecycleClient
unfolding was_ready queue_event
queue_pending_ready machine client =
    queue_ready_for machine client client.pending_ready_frame client.active_token
