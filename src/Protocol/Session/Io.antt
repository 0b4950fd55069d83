-- ===== src/Protocol/Session/Io.antt =====
-- The locked helpers of `FastbootSession`: the start of an operation, exact writes, source writes,
-- reading a response, and reading up to the terminal response. Each `_fault` is the ladder of tests on
-- one transfer's outcome: the first that applies gives the error that poisons the session.
use kairos_boot.Base.{
  ℕ, zero, suc, ◌+◌, Bytes, Bool, false, ◌||◌, not, Option, none, some, List, [], ◌∷◌, ◌++◌, String,
  ltb, ◌==◌, if◌then◌else◌, length, take, drop,
}
use kairos_boot.Base.Expected.{Expected, value, unexpected}
use kairos_boot.Protocol.Response.{
  Response, ResponseParseError, info, text, okay, fail, data_reply, parse_response,
}
use kairos_boot.Protocol.Transport.{
  World, Observer, TransferSource, TransferResult, TransferCertainty, cancelled, not_transferred,
  partial_or_unknown,
}
use kairos_boot.Protocol.Session.{
  Session, ready, ProtocolError, ProtocolErrorCode, ProtocolPhase, CommandResult, error, result,
  invalid_argument, transport_cancelled, transport_contract_violation, zero_progress,
  malformed_response, unexpected_response, too_many_informational_responses, validation, data_write,
  malformed_response_error, with_informational, is_full, is_ok, aggregate_write_certainty,
  transport_error, unavailable_error, is_ready,
}
use kairos_boot.Protocol.Session.Exec.{
  Exec, Outcome, returns, out_of_fuel, pure, fail_with, poison, poison_or, ◌>>=◌,
}

-- '\0', '\r' and '\n'
unfoldable pub has_control : Bytes → Bool
has_control [] = false
has_control (c ∷ cs) = c == 0 || c == 13 || c == 10 || has_control cs

unfoldable pub cancelled_error : ProtocolError
cancelled_error = record (error transport_cancelled "Fastboot operation was cancelled") {
  transport_status = cancelled;
  transfer_certainty = not_transferred;
  phase = validation;
  outbound_certainty = not_transferred;
}

-- The error of a transfer's outcome, with what every such error records.
abbrev pub contract_error :
    ProtocolErrorCode → String → TransferResult → ProtocolPhase → TransferCertainty → ProtocolError
contract_error code message r phase outbound = record (error code message) {
  transport_status = r.status;
  transfer_certainty = r.certainty;
  phase = phase;
  outbound_certainty = outbound;
  native_code = r.native_code;
}

unfoldable pub write_fault : ProtocolPhase → ℕ → ℕ → TransferResult → Option ProtocolError
write_fault phase offset remaining r =
    let outbound = aggregate_write_certainty offset remaining r in
    if ltb remaining r.transferred
    then some (
        contract_error transport_contract_violation
          "transport reported writing more bytes than requested" r phase outbound)
    else if not (is_ok r.status)
    then some (transport_error r "write" phase outbound)
    else if not (is_full r.certainty)
    then some (
        contract_error transport_contract_violation
          "successful transport write has an uncertain transfer outcome" r phase outbound)
    else if r.truncated
    then some (
        contract_error transport_contract_violation "transport marked a write result as truncated" r
          phase outbound)
    else if r.transferred == 0
    then some (
        contract_error zero_progress "transport made no progress during a Fastboot write" r phase
          (if offset == 0 then not_transferred else partial_or_unknown))
    else none

unfoldable pub source_fault : ℕ → TransferResult → Option ProtocolError
source_fault expected r =
    let outbound = aggregate_write_certainty 0 expected r in
    if ltb expected r.transferred
    then some (
        contract_error transport_contract_violation
          "streaming transport reported writing more bytes than requested" r data_write outbound)
    else if not (is_ok r.status)
    then some (transport_error r "source write" data_write outbound)
    else if not (is_full r.certainty)
    then some (
        contract_error transport_contract_violation
          "successful source write has an uncertain transfer outcome" r data_write outbound)
    else if r.truncated
    then some (
        contract_error transport_contract_violation
          "streaming transport marked a source write as truncated" r data_write outbound)
    else if not (r.transferred == expected)
    then some (
        contract_error (if r.transferred == 0 then zero_progress else transport_contract_violation)
          "streaming transport did not write the complete source" r data_write outbound)
    else none

unfoldable pub read_fault :
    ℕ → ProtocolPhase → TransferCertainty → List Response → TransferResult → Option ProtocolError
read_fault limit phase outbound informational r =
    if not (is_ok r.status)
    then some (with_informational (transport_error r "read" phase outbound) informational)
    else if not (is_full r.certainty)
    then some (
        with_informational
          (contract_error transport_contract_violation
            "successful transport read has an uncertain transfer outcome" r phase outbound)
          informational)
    else if r.truncated || ltb limit r.transferred
    then some (
        with_informational
          (contract_error malformed_response
            "Fastboot response exceeded the configured response limit" r phase outbound)
          informational)
    else none

-- A buffer of `n` zero bytes, and a buffer in which a transport has stored some bytes at the front.
unfoldable pub zeroed : ℕ → Bytes
zeroed zero = []
zeroed (suc n) = 0 ∷ zeroed n

unfoldable pub store : Bytes → Bytes → Bytes
store [] stored = []
store (b ∷ buffer) [] = b ∷ buffer
store (b ∷ buffer) (c ∷ stored) = c ∷ store buffer stored

abbrev pub too_many : ProtocolPhase → TransferCertainty → List Response → ProtocolError
too_many phase outbound informational =
    record (error too_many_informational_responses
      "Fastboot device exceeded the informational response limit") {
        informational = informational;
        phase = phase;
        outbound_certainty = outbound;
      }

abbrev pub unexpected_reply :
    ProtocolErrorCode → String → ProtocolPhase → TransferCertainty → List Response → ProtocolError
unexpected_reply code message phase outbound informational = record (error code message) {
  informational = informational;
  phase = phase;
  outbound_certainty = outbound;
}

module _ {W : Type 0} (io : World W) where
  -- `begin_locked`
  unfoldable pub begin : Bytes → Exec W (Unit {0})
  unfolding has_control cancelled_error
  begin command s =
      if not (is_ready s.state)
      then fail_with (unavailable_error s.state s.poison_error) s
      else if s.cancellation_requested
      then poison cancelled_error s
      else if not s.has_transport
      then fail_with (error invalid_argument "Fastboot session has no transport") s
      else if length command == 0 || ltb s.options.max_command_bytes (length command)
      then fail_with
          (error invalid_argument
            "Fastboot command is empty or exceeds the configured command limit")
          s
      else if has_control command
      then fail_with
          (error invalid_argument "Fastboot command contains a forbidden control character") s
      else pure tt s

  -- `write_exact_locked`: the bytes from `offset` on
  unfoldable pub write_loop : ProtocolPhase → ℕ → ℕ → Bytes → Exec W (Unit {0})
  write_loop phase zero offset [] s = (returns tt, s)
  write_loop phase zero offset (b ∷ bs) s = (out_of_fuel, s)
  write_loop phase (suc fuel) offset [] s = (returns tt, s)
  write_loop phase (suc fuel) offset (b ∷ bs) s =
      let (r, w) = io.write (b ∷ bs) s.options.io_timeout s.world in
      let s' : Session W = record s { world = w } in
      poison_or (write_fault phase offset (length (b ∷ bs)) r)
        (write_loop phase fuel (offset + r.transferred) (drop r.transferred (b ∷ bs))) s'

  unfoldable pub write_exact : Bytes → ProtocolPhase → Exec W (Unit {0})
  write_exact bytes phase = write_loop phase (length bytes) 0 bytes

  -- `write_source_locked`
  unfoldable pub write_source :
      (TransferSource → ℕ → Option (Observer W) → W → TransferResult × W)
      → TransferSource
      → ℕ
      → Option (Observer W)
      → Exec W (Unit {0})
  write_source streaming source size observer s =
      let (r, w) = streaming source s.options.io_timeout observer s.world in
      let s' : Session W = record s { world = w } in poison_or (source_fault size r) (pure tt) s'

  unfoldable pub parsed_or_poison :
      ProtocolPhase
      → TransferCertainty
      → List Response
      → Expected Response ResponseParseError
      → Exec W Response
  parsed_or_poison phase outbound informational (value r) = pure r
  parsed_or_poison phase outbound informational (unexpected e) =
      poison (with_informational (malformed_response_error e phase outbound) informational)

  -- `read_response_locked`; the buffer has `max_response_bytes` bytes
  unfoldable pub read_response : ProtocolPhase → TransferCertainty → List Response → Exec W Response
  unfolding parsed_or_poison
  read_response phase outbound informational s =
      let limit = s.options.max_response_bytes in
      let (r, stored, w) = io.read limit s.options.io_timeout s.world in
      let s' : Session W = record s { world = w } in
      let packet = take r.transferred (store (zeroed limit) stored) in
      poison_or (read_fault limit phase outbound informational r)
        (parsed_or_poison phase outbound informational (parse_response packet limit)) s'

  -- An INFO or TEXT response is kept, up to the limit.
  unfoldable pub heard :
      {A : Type 0}
      → (List Response → Exec W A)
      → ProtocolPhase
      → TransferCertainty
      → List Response
      → Response
      → Exec W A
  heard rest phase outbound informational r s =
      if not (ltb (length informational) s.options.max_informational_responses)
      then poison (too_many phase outbound informational) s
      else rest (informational ++ r ∷ []) s

  -- What the loop of `read_terminal_locked` does with a response; `rest` is its next round.
  unfoldable pub terminal_step :
      (List Response → Exec W CommandResult)
      → ProtocolPhase
      → TransferCertainty
      → List Response
      → Response
      → Exec W CommandResult
  terminal_step rest phase outbound informational r s =
      let finished : Outcome CommandResult × Session W =
        (returns (result r informational phase outbound), record s { state = ready }) in
      elim r.kind [
        | info ↦ heard rest phase outbound informational r s
        | text ↦ heard rest phase outbound informational r s
        | okay ↦ finished
        | fail ↦ finished
        | data_reply ↦
            poison
              (unexpected_reply unexpected_response
                "Fastboot DATA response is not valid in this session state" phase outbound
                informational)
              s
      ]

  unfoldable pub terminal_loop :
      ℕ → ProtocolPhase → TransferCertainty → List Response → Exec W CommandResult
  terminal_loop zero phase outbound informational s = (out_of_fuel, s)
  terminal_loop (suc fuel) phase outbound informational s =
      (read_response phase outbound informational
          >>= terminal_step (terminal_loop fuel phase outbound) phase outbound informational)
        s

  -- `read_terminal_locked`: every round but the last keeps one more response.
  unfoldable pub read_terminal :
      List Response → ProtocolPhase → TransferCertainty → Exec W CommandResult
  read_terminal informational phase outbound s =
      terminal_loop (suc s.options.max_informational_responses) phase outbound informational s
