-- ===== src/Protocol/Session/Receive.antt =====
-- `receive_to_sink` and `receive_locked` of `FastbootSession`: a command whose data phase goes from the
-- device to a sink.
use kairos_boot.Base.{
  ℕ, zero, suc, ◌+◌, ◌-◌, Bytes, Bool, true, false, ◌||◌, not, Option, none, some, List, [], String,
  ltb, ◌==◌, if◌then◌else◌, length, take, min, ◌&&◌,
}
use kairos_boot.Protocol.Response.{Response, info, text, okay, fail, data_reply}
use kairos_boot.Protocol.Transport.{
  World, Observer, ObserverAnswer, continue_transfer, cancel, threw, TransferResult, cancelled,
  io_error, fully_transferred, not_transferred, partial_or_unknown,
}
use kairos_boot.Protocol.Session.{
  Session, ready, writing_command, awaiting_response, receiving_data, ProtocolError,
  ProtocolErrorCode, CommandResult, error, result, invalid_argument, data_length_mismatch,
  unexpected_response, transport_io, transport_cancelled, zero_progress,
  transport_contract_violation, command_write, initial_response, data_read, final_response, is_full,
  is_none, is_ok, transport_error,
}
use kairos_boot.Protocol.Session.Exec.{
  Exec, Outcome, returns, fails, out_of_fuel, pure, fail_with, set_state, poison, ◌>>=◌, ◌>>◌,
}
use kairos_boot.Protocol.Session.Io.{
  begin, write_exact, read_response, heard, read_terminal, unexpected_reply, contract_error, zeroed,
  store,
}
use kairos_boot.Protocol.Session.Download.{locked, Initial, finished, accepted}

-- What `receive_failure` records: how much the sink has, and how sure that is.
unfoldable pub inbound_state : ℕ → ℕ → Bool → List Response → ProtocolError → ProtocolError
inbound_state announced committed uncertain informational e = record e {
  informational = informational;
  inbound_expected = some announced;
  inbound_transferred = committed;
  inbound_certainty =
      if committed == announced && not uncertain
      then fully_transferred
      else if committed == 0 && not uncertain
      then not_transferred
      else partial_or_unknown;
}

-- A failure of the data phase: the error, the bytes committed, and whether more may have moved.
pub record Fault : Type 0 where
  pub reason : ProtocolError
  pub committed : ℕ
  pub uncertain : Bool

abbrev phase_fault : ProtocolErrorCode → String → TransferResult → ℕ → Bool → Option Fault
phase_fault code message r committed uncertain = some (record {
  reason = contract_error code message r data_read fully_transferred;
  committed = committed;
  uncertain = uncertain;
})

abbrev transport_fault : TransferResult → String → ℕ → Bool → Option Fault
transport_fault r operation committed uncertain = some (record {
  reason = transport_error r operation data_read fully_transferred;
  committed = committed;
  uncertain = uncertain;
})

unfoldable pub transfer_fault : ℕ → ℕ → TransferResult → Option Fault
unfolding is_full is_ok
transfer_fault committed requested r =
    if ltb requested r.transferred
    then phase_fault transport_contract_violation
        "transport reported receiving more Fastboot data than requested" r committed true
    else if not (is_ok r.status)
    then transport_fault r "data read" committed
        (not (r.transferred == 0) || not (is_full r.certainty || is_none r.certainty))
    else if not (is_full r.certainty) || r.truncated
    then phase_fault transport_contract_violation
        (if r.truncated
          then "Fastboot inbound data exceeded the receive chunk"
          else "successful Fastboot data read has uncertain transfer outcome")
        r committed true
    else if r.transferred == 0
    then phase_fault zero_progress "transport made no progress while receiving Fastboot data" r
        committed false
    else none

unfoldable pub sink_fault : ℕ → ℕ → TransferResult → Option Fault
unfolding is_full is_ok
sink_fault committed size r =
    if ltb size r.transferred
    then phase_fault transport_contract_violation
        "Fastboot receive sink reported storing more bytes than provided" r committed true
    else if not (is_ok r.status)
    then transport_fault r "receive sink write" (committed + r.transferred)
        (not (r.transferred == size) || not (is_full r.certainty))
    else if not (is_full r.certainty) || r.truncated || not (r.transferred == size)
    then phase_fault transport_contract_violation
        "Fastboot receive sink did not commit the complete data chunk" r (committed + r.transferred)
        true
    else none

abbrev observer_failed : TransferResult
observer_failed = record {
  status = io_error;
  transferred = 0;
  certainty = not_transferred;
  truncated = false;
  detail = "";
  native_code = 0;
}

abbrev observer_cancelled : TransferResult
observer_cancelled = record observer_failed { status = cancelled }

unfoldable pub answer_fault : ℕ → ℕ → ObserverAnswer → Option Fault
answer_fault committed announced continue_transfer = none
answer_fault committed announced threw =
    phase_fault transport_io "Fastboot receive progress observer failed" observer_failed committed
      (not (committed == announced))
answer_fault committed announced cancel =
    phase_fault transport_cancelled "Fastboot receive was cancelled by progress observer"
      observer_cancelled committed (not (committed == announced))

-- The error for a length of zero, or past the caller's limit.
abbrev size_error : ℕ → List Response → ProtocolError
size_error announced informational =
    record (unexpected_reply (if announced == 0 then unexpected_response else data_length_mismatch)
      (if announced == 0
        then "Fastboot receive DATA size must not be zero"
        else "Fastboot receive DATA size exceeds the caller's limit")
      initial_response fully_transferred informational) {
        inbound_expected = some announced;
        inbound_certainty = if announced == 0 then not_transferred else partial_or_unknown;
      }

abbrev allocation_error : ℕ → List Response → ProtocolError
allocation_error announced informational =
    record (error transport_io "allocating the bounded Fastboot receive buffer failed") {
      informational = informational;
      transport_status = io_error;
      phase = data_read;
      outbound_certainty = fully_transferred;
      inbound_expected = some announced;
      inbound_certainty = partial_or_unknown;
    }

-- Room for more bytes than the buffer holds is never stored to.
unfoldable pub store_first : ℕ → Bytes → Bytes → Bytes
store_first n buffer stored = store buffer (take n stored)

abbrev pub received_all : ℕ → CommandResult → CommandResult
received_all announced r = record r {
  inbound_expected = some announced;
  inbound_transferred = announced;
  inbound_certainty = fully_transferred;
}

abbrev pub received_then_failed : ℕ → ProtocolError → ProtocolError
received_then_failed announced e = record e {
  inbound_expected = some announced;
  inbound_transferred = announced;
  inbound_certainty = fully_transferred;
}

module _ {W : Type 0} (io : World W) where
  -- `request_cancel` and `close` of the transport, then `poison_locked`
  unfoldable pub abandon : {A : Type 0} → ProtocolError → Exec W A
  abandon e s = poison e (record s { world = io.close (io.request_cancel s.world) })

  unfoldable pub receive_failure : {A : Type 0} → ℕ → List Response → Fault → Exec W A
  unfolding inbound_state
  receive_failure announced informational f =
      abandon (inbound_state announced f.committed f.uncertain informational f.reason)

  unfoldable pub announced_step : ℕ → List Response → Option ℕ → Exec W Initial
  announced_step maximum informational none = poison (
      unexpected_reply unexpected_response
        "Fastboot receive expected DATA or FAIL before the payload" initial_response
        fully_transferred informational)
  announced_step maximum informational (some n) =
      if n == 0 || ltb maximum n
      then abandon (size_error n informational)
      else pure (accepted n informational)

  -- What the first loop of `receive_locked` does with a response.
  unfoldable pub receive_step :
      (List Response → Exec W Initial) → ℕ → List Response → Response → Exec W Initial
  unfolding announced_step
  receive_step rest maximum informational r s = elim r.kind [
    | info ↦ heard io rest initial_response fully_transferred informational r s
    | text ↦ heard io rest initial_response fully_transferred informational r s
    | fail ↦ (
      returns (finished (result r informational initial_response fully_transferred)),
      record s { state = ready },
    )
    | okay ↦ (
      fails (
          unexpected_reply unexpected_response
            "Fastboot receive command completed without a DATA response" initial_response
            fully_transferred informational),
      record s { state = ready },
    )
    | data_reply ↦ announced_step maximum informational r.data_size s
  ]

  unfoldable pub receive_loop : ℕ → ℕ → List Response → Exec W Initial
  receive_loop zero maximum informational s = (out_of_fuel, s)
  receive_loop (suc fuel) maximum informational s =
      (read_response io initial_response fully_transferred informational
          >>= receive_step (receive_loop fuel maximum) maximum informational)
        s

  -- The observer is called after each chunk; none is as one that lets the transfer go on.
  unfoldable pub observe : Option (Observer W) → ℕ → ℕ → W → ObserverAnswer × W
  observe none committed announced w = (continue_transfer, w)
  observe (some observer) committed announced w = observer committed announced w

  -- One chunk: read, store in the sink, report. It gives the buffer and the new count, or a fault.
  unfoldable pub chunk_observed :
      ℕ → Option (Observer W) → List Response → ℕ → Bytes → Exec W (Bytes × ℕ)
  chunk_observed announced observer informational committed buffer s =
      let (answer, w) = observe observer committed announced s.world in
      let s' : Session W = record s { world = w } in
      elim (answer_fault committed announced answer) [
        | some f ↦ receive_failure announced informational f s'
        | none ↦ pure (buffer, committed) s'
      ]

  unfoldable pub chunk_stored :
      ℕ → Option (Observer W) → List Response → ℕ → Bytes → ℕ → Exec W (Bytes × ℕ)
  chunk_stored announced observer informational committed buffer size s =
      let (r, w) = io.sink_write committed (take size buffer) s.world in
      let s' : Session W = record s { world = w } in
      elim (sink_fault committed size r) [
        | some f ↦ receive_failure announced informational f s'
        | none ↦ chunk_observed announced observer informational (committed + size) buffer s'
      ]

  unfoldable pub chunk : ℕ → Option (Observer W) → List Response → ℕ → Bytes → Exec W (Bytes × ℕ)
  chunk announced observer informational committed buffer s =
      let requested = min (length buffer) (announced - committed) in
      let (r, stored, w) = io.read_data requested s.options.io_timeout s.world in
      let s' : Session W = record s { world = w } in
      elim (transfer_fault committed requested r) [
        | some f ↦ receive_failure announced informational f s'
        | none ↦
            chunk_stored announced observer informational committed
              (store_first requested buffer stored) r.transferred s'
      ]

  -- The loop while `committed < announced_size`.
  unfoldable pub chunk_loop :
      ℕ → ℕ → Option (Observer W) → List Response → ℕ → Bytes → Exec W (Unit {0})
  chunk_loop zero announced observer informational committed buffer s =
      if ltb committed announced then (out_of_fuel, s) else (returns tt, s)
  chunk_loop (suc fuel) announced observer informational committed buffer s =
      let round : Outcome (Unit {0}) × Session W =
        (chunk announced observer informational committed buffer >>= λ p.
        chunk_loop fuel announced observer informational p.1 p.0)
          s in
      if ltb committed announced then round else (returns tt, s)

  -- The terminal response behind the payload, with the inbound state noted on either outcome.
  unfoldable pub annotated :
      ℕ → Outcome CommandResult × Session W → Outcome CommandResult × Session W
  annotated announced (returns r, t) = (returns (received_all announced r), t)
  annotated announced (fails e, t) = (fails (received_then_failed announced e), t)
  annotated announced (out_of_fuel, t) = (out_of_fuel, t)

  unfoldable pub receive_payload : ℕ → Option (Observer W) → List Response → Exec W CommandResult
  receive_payload announced observer informational s =
      let size = min s.options.receive_chunk_bytes announced in
      let run : Exec W CommandResult = do
        set_state receiving_data
        chunk_loop announced announced observer informational 0 (zeroed size)
        set_state awaiting_response
        λ u. annotated announced (read_terminal io informational final_response fully_transferred u)
      in if io.allocates size s.world
        then run s
        else abandon (allocation_error announced informational) s

  unfoldable pub after_announcement : Option (Observer W) → Initial → Exec W CommandResult
  after_announcement observer (finished r) = pure r
  after_announcement observer (accepted announced informational) =
      receive_payload announced observer informational

  unfoldable pub receive_locked : Bytes → ℕ → Option (Observer W) → Exec W CommandResult
  receive_locked line maximum observer s =
      let rounds = suc s.options.max_informational_responses in
      let run : Exec W CommandResult = do
        begin io line
        set_state writing_command
        write_exact io line command_write
        set_state awaiting_response
        initial ← receive_loop rounds maximum []
        after_announcement observer initial
      in run s

  -- `has_sink` is false for a null pointer.
  unfoldable pub receive_to_sink : Bytes → Bool → ℕ → Option (Observer W) → Exec W CommandResult
  receive_to_sink line has_sink maximum observer = locked io (
      if not has_sink
      then fail_with (error invalid_argument "Fastboot receive sink is null")
      else if maximum == 0
      then fail_with (error invalid_argument "Fastboot receive maximum must not be zero")
      else receive_locked line maximum observer)
