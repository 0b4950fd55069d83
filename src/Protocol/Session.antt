-- ===== src/Protocol/Session.antt =====
-- The state of `FastbootSession` (src/protocol/fastboot_protocol.hpp and .cpp), its errors, and the
-- helpers that every operation uses. An operation is an action on the session: it returns a value or a
-- `ProtocolError`. `mutex_held` says that another thread is inside an operation.
pub mod Exec
pub mod Io
pub mod Download
pub mod Receive
mod Steps
pub mod Settled
mod After
pub mod Delivery
mod Tests
use Prim.Native.String.{◌++◌}
use kairos_boot.Base.{
  ℕ, Bytes, Bool, true, false, ◌&&◌, ◌||◌, not, Option, none, some, List, [], String, ltb, ◌==◌,
  if◌then◌else◌, length, min, max, ◌*◌,
}
use kairos_boot.Protocol.Response.{Response, ResponseParseError}
use kairos_boot.Protocol.Transport.{
  TransportStatus, TransferCertainty, TransferResult, ok, timeout, cancelled, disconnected,
  io_error, not_transferred, fully_transferred, partial_or_unknown,
}

pub data SessionState : Type 0 where
  ready writing_command awaiting_response downloading : SessionState
  receiving_data poisoned closed : SessionState

pub data ProtocolErrorCode : Type 0 where
  invalid_argument streaming_unsupported busy closed poisoned : ProtocolErrorCode
  transport_timeout transport_cancelled transport_disconnected transport_io : ProtocolErrorCode
  transport_contract_violation zero_progress malformed_response : ProtocolErrorCode
  unexpected_response data_length_mismatch too_many_informational_responses : ProtocolErrorCode

pub data ProtocolPhase : Type 0 where
  validation command_write initial_response data_write data_read final_response : ProtocolPhase

pub record ProtocolError : Type 0 where
  pub code : ProtocolErrorCode
  pub message : String
  pub informational : List Response
  pub transport_status : TransportStatus
  pub transfer_certainty : TransferCertainty
  pub phase : ProtocolPhase
  pub outbound_certainty : TransferCertainty
  pub inbound_expected : Option ℕ
  pub inbound_transferred : ℕ
  pub inbound_certainty : TransferCertainty
  pub native_code : ℕ

pub record CommandResult : Type 0 where
  pub terminal : Response
  pub informational : List Response
  pub phase : ProtocolPhase
  pub outbound_certainty : TransferCertainty
  pub inbound_expected : Option ℕ
  pub inbound_transferred : ℕ
  pub inbound_certainty : TransferCertainty

-- A `ProtocolError` whose other members have their default initializers.
abbrev pub error : ProtocolErrorCode → String → ProtocolError
error code message = record {
  code = code;
  message = message;
  informational = [];
  transport_status = ok;
  transfer_certainty = fully_transferred;
  phase = validation;
  outbound_certainty = not_transferred;
  inbound_expected = none;
  inbound_transferred = 0;
  inbound_certainty = not_transferred;
  native_code = 0;
}

-- A `CommandResult` whose inbound members have their default initializers.
abbrev pub result : Response → List Response → ProtocolPhase → TransferCertainty → CommandResult
result terminal informational phase outbound = record {
  terminal = terminal;
  informational = informational;
  phase = phase;
  outbound_certainty = outbound;
  inbound_expected = none;
  inbound_transferred = 0;
  inbound_certainty = not_transferred;
}

pub record SessionOptions : Type 0 where
  pub io_timeout : ℕ
  pub max_command_bytes : ℕ
  pub max_response_bytes : ℕ
  pub max_informational_responses : ℕ
  pub receive_chunk_bytes : ℕ

abbrev pub default_max_command_bytes : ℕ
default_max_command_bytes = 4096

abbrev pub maximum_receive_chunk_bytes : ℕ
maximum_receive_chunk_bytes = 4 * 1024 * 1024

-- `world` is the state of the transport and of all else outside the session.
pub record Session (W : Type 0) : Type 0 where
  pub options : SessionOptions
  pub has_transport : Bool
  pub mutex_held : Bool
  pub cancellation_requested : Bool
  pub state : SessionState
  pub poison_error : Option ProtocolError
  pub world : W

-- The constructor's corrections.
unfoldable pub corrected : SessionOptions → SessionOptions
corrected o = record {
  io_timeout = o.io_timeout;
  max_command_bytes =
      if o.max_command_bytes == 0 then default_max_command_bytes else o.max_command_bytes;
  max_response_bytes = if ltb o.max_response_bytes 4 then 4 else o.max_response_bytes;
  max_informational_responses =
      if o.max_informational_responses == 0 then 1 else o.max_informational_responses;
  receive_chunk_bytes = min (max o.receive_chunk_bytes 1) maximum_receive_chunk_bytes;
}

unfoldable pub session : {W : Type 0} → Bool → SessionOptions → W → Session W
unfolding corrected
session has_transport options w = record {
  options = corrected options;
  has_transport = has_transport;
  mutex_held = false;
  cancellation_requested = false;
  state = ready;
  poison_error = none;
  world = w;
}

unfoldable pub malformed_response_error :
    ResponseParseError → ProtocolPhase → TransferCertainty → ProtocolError
malformed_response_error e phase outbound = record (error malformed_response e.message) {
  phase = phase;
  outbound_certainty = outbound;
}

abbrev pub with_informational : ProtocolError → List Response → ProtocolError
with_informational e informational = record e { informational = informational }

unfoldable pub is_full : TransferCertainty → Bool
is_full fully_transferred = true
is_full not_transferred = false
is_full partial_or_unknown = false

unfoldable pub is_none : TransferCertainty → Bool
is_none not_transferred = true
is_none fully_transferred = false
is_none partial_or_unknown = false

unfoldable pub is_ok : TransportStatus → Bool
is_ok ok = true
is_ok timeout = false
is_ok cancelled = false
is_ok disconnected = false
is_ok io_error = false

unfoldable pub aggregate_write_certainty : ℕ → ℕ → TransferResult → TransferCertainty
unfolding is_full is_none
aggregate_write_certainty completed requested r =
    if is_full r.certainty && r.transferred == requested
    then fully_transferred
    else if completed == 0 && r.transferred == 0 && is_none r.certainty
    then not_transferred
    else partial_or_unknown

transport_code : TransportStatus → ProtocolErrorCode
transport_code timeout = transport_timeout
transport_code cancelled = transport_cancelled
transport_code disconnected = transport_disconnected
transport_code io_error = transport_io
transport_code ok = transport_io

uncertain_note : TransferCertainty → String
uncertain_note partial_or_unknown = " with a partial or unknown transfer outcome"
uncertain_note not_transferred = ""
uncertain_note fully_transferred = ""

detail_note : String → String
detail_note String.[] = ""
detail_note (String.◌∷◌ c s) = ": " ++ String.◌∷◌ c s

unfoldable pub transport_error :
    TransferResult → String → ProtocolPhase → TransferCertainty → ProtocolError
unfolding transport_code uncertain_note detail_note
transport_error r operation phase outbound =
    record (error (transport_code r.status) (
      "Fastboot transport "
      ++ operation
      ++ " failed"
      ++ uncertain_note r.certainty
      ++ detail_note r.detail)) {
        transport_status = r.status;
        transfer_certainty = r.certainty;
        phase = phase;
        outbound_certainty = outbound;
        native_code = r.native_code;
      }

poisoned_error : Option ProtocolError → ProtocolError
poisoned_error none =
    error ProtocolErrorCode.poisoned "Fastboot session is poisoned: Fastboot session is poisoned"
poisoned_error (some e) = record e {
  code = ProtocolErrorCode.poisoned;
  message = "Fastboot session is poisoned: " ++ e.message;
}

-- `unavailable_error_locked`, by the session's state and its stored error
unfoldable pub unavailable_error : SessionState → Option ProtocolError → ProtocolError
unfolding poisoned_error
unavailable_error SessionState.closed e =
    error ProtocolErrorCode.closed "Fastboot session is closed"
unavailable_error SessionState.poisoned e = poisoned_error e
unavailable_error _ e = error busy "Fastboot session is busy"

abbrev pub is_ready : SessionState → Bool
is_ready ready = true
is_ready _ = false
