-- ===== src/App/Wire.antt =====
-- src/app/lifecycle/wire.rs: the envelopes of the lifecycle channel and the incremental decoding of
-- its frames. A byte is a number below 256. The JSON library is a parameter: what it reads a payload
-- as, and the bytes it writes for an envelope.
pub mod Decoding
pub mod Frames
pub mod Chunks
pub mod Reads
use riddle.Prelude.{
  ℕ, zero, suc, ◌+◌, ◌*◌, ◌/◌, ◌%◌, Bool, true, false, not, ◌&&◌, ◌||◌, Option, none, some, List,
  [], ◌∷◌, ◌++◌, if◌then◌else◌, ltb, leb, ◌==◌, Result, ok, err, length, ℤ,
}
use riddle.Text.{Text, lit, is_alphanumeric, byte_len}

abbrev pub max_frame : ℕ
max_frame = 65536

-- `AppToken` of src/platform.rs
pub record AppToken : Type 0 where
  pub app_id : Text
  pub generation : ℕ
  pub foreground_epoch : ℕ
  pub lease_id : Option ℕ

pub data LifecycleCommand : Type 0 where
  start enter_foreground enter_background : LifecycleCommand
  shutdown : ℕ → LifecycleCommand

pub data InboundFraming : Type 0 where
  unknown json_lines length_prefixed : InboundFraming

pub data LifecycleStage : Type 0 where
  start_stage foreground_stage background_stage save_stage shutdown_stage runtime_stage :
      LifecycleStage

-- `resume_payload` is a value of the JSON library's.
pub data OutboundEvent (Value : Type 0) : Type 0 where
  ready : Option ℕ → OutboundEvent Value
  background_ready : Text → Text → Option Value → OutboundEvent Value
  state_saved : Option Value → OutboundEvent Value
  shutdown_complete : ℤ → OutboundEvent Value
  failed : LifecycleStage → Text → Bool → OutboundEvent Value

pub record OutboundEnvelope (Value : Type 0) : Type 0 where
  pub protocol : ℕ
  pub request_id : Text
  pub token : AppToken
  pub event : OutboundEvent Value

pub data V2Command : Type 0 where
  v2_start v2_enter_foreground v2_enter_background v2_open_path : V2Command
  v2_shutdown : ℕ → V2Command

pub data LegacyCommand : Type 0 where
  legacy_enter_foreground legacy_resume legacy_prepare_park legacy_enter_background
        legacy_shutdown :
      LegacyCommand

pub record V2Envelope : Type 0 where
  pub protocol : ℕ
  pub request_id : Text
  pub token : AppToken
  pub command : V2Command

pub record DecodedCommand : Type 0 where
  pub command : LifecycleCommand
  pub token : Option AppToken

-- The errors that the channel's code makes.
pub data WireError : Type 0 where
  unserializable oversized_event zero_deadline invalid_envelope invalid_command : WireError
  oversized_line unterminated_line truncated_frame : WireError
  invalid_length : ℕ → WireError

-- `serde_json::from_slice` at the two envelopes, and `serde_json::to_vec`.
pub record Json : Type 1 where
  pub Value : Type 0
  pub read_v2 : List ℕ → Option V2Envelope
  pub read_legacy : List ℕ → Option LegacyCommand
  pub to_vec : OutboundEnvelope Value → Option (List ℕ)

-- `(payload.len() as u32).to_be_bytes()` and back.
unfoldable pub be_bytes : ℕ → List ℕ
be_bytes n = n / 16777216 % 256 ∷ n / 65536 % 256 ∷ n / 256 % 256 ∷ n % 256 ∷ []

unfoldable pub from_be_bytes : ℕ → ℕ → ℕ → ℕ → ℕ
from_be_bytes a b c d = a * 16777216 + b * 65536 + c * 256 + d

unfoldable pub framed : InboundFraming → List ℕ → List ℕ
framed json_lines payload = payload ++ 10 ∷ []
framed unknown payload = be_bytes (length payload) ++ payload
framed length_prefixed payload = be_bytes (length payload) ++ payload

unfoldable pub encode_payload : InboundFraming → Option (List ℕ) → Result WireError (List ℕ)
unfolding framed
encode_payload framing none = err unserializable
encode_payload framing (some payload) =
    if length payload == 0 || ltb max_frame (length payload)
    then err oversized_event
    else ok (framed framing payload)

unfoldable pub encode_event :
    (json : Json)
    → AppToken
    → Text
    → OutboundEvent (json.Value)
    → InboundFraming
    → Result WireError (List ℕ)
unfolding encode_payload
encode_event json token request_id event framing =
    encode_payload framing
      (json.to_vec (record { protocol = 2; request_id = request_id; token = token; event = event }))

-- `V2Command::app_command`, `LegacyCommand::app_command`
unfoldable pub app_command : V2Command → Result WireError LifecycleCommand
app_command v2_start = ok start
app_command v2_enter_foreground = ok enter_foreground
app_command v2_open_path = ok enter_foreground
app_command v2_enter_background = ok enter_background
app_command (v2_shutdown zero) = err zero_deadline
app_command (v2_shutdown (suc n)) = ok (shutdown (suc n))

unfoldable pub legacy_app_command : LegacyCommand → LifecycleCommand
legacy_app_command legacy_enter_foreground = enter_foreground
legacy_app_command legacy_resume = enter_foreground
legacy_app_command legacy_prepare_park = enter_background
legacy_app_command legacy_enter_background = enter_background
legacy_app_command legacy_shutdown = shutdown 100
