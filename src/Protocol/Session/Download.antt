-- ===== src/Protocol/Session/Download.antt =====
-- `command`, `download`, `download_source` and `download_locked` of `FastbootSession`, and the calls
-- that reach the transport directly: `configure_transfer_permits`, `request_cancel` and `close`.
use kairos_boot.Base.{
  ℕ, zero, suc, Bytes, Bool, true, false, ◌||◌, not, Option, none, some, List, [], ◌++◌, ltb, ◌==◌,
  if◌then◌else◌, length, codes,
}
use kairos_boot.Base.Chars.{hex}
use kairos_boot.Protocol.Response.{Response, info, text, okay, fail, data_reply, u32_max}
use kairos_boot.Transport.Permit.{TransferRingConfig}
use kairos_boot.Protocol.Transport.{World, Observer, TransferSource, fully_transferred}
use kairos_boot.Protocol.Session.{
  Session, SessionState, ready, writing_command, awaiting_response, downloading, ProtocolError,
  CommandResult, error, result, invalid_argument, busy, streaming_unsupported, data_length_mismatch,
  unexpected_response, command_write, initial_response, data_write, final_response,
  with_informational, is_ready,
}
use kairos_boot.Protocol.Session.Exec.{
  Exec, returns, fails, out_of_fuel, pure, fail_with, set_state, poison, ◌>>=◌, ◌>>◌,
}
use kairos_boot.Protocol.Session.Io.{
  begin, write_exact, write_source, read_response, heard, read_terminal, unexpected_reply,
}

abbrev pub busy_error : ProtocolError
busy_error = error busy "another Fastboot operation is already using this session"

abbrev pub oversized_error : ProtocolError
oversized_error =
    error invalid_argument "Fastboot download size exceeds the protocol's 32-bit limit"

abbrev pub unstreamable_error : ProtocolError
unstreamable_error =
    error streaming_unsupported "Fastboot transport does not support source streaming"

-- The `download:` command for a payload of `size` bytes.
abbrev pub download_command : ℕ → Bytes
download_command size = codes "download:" ++ hex 8 size

-- How the responses before the data phase end: with the operation's result, or with the length that
-- the device announced and what it said before.
pub data Initial : Type 0 where
  finished : CommandResult → Initial
  accepted : ℕ → List Response → Initial

abbrev mismatch : List Response → ProtocolError
mismatch =
    unexpected_reply data_length_mismatch "Fastboot device accepted a different download length"
      initial_response fully_transferred

module _ {W : Type 0} (io : World W) where
  -- `std::unique_lock lock(mutex_, std::try_to_lock)` at the head of an operation
  unfoldable pub locked : {A : Type 0} → Exec W A → Exec W A
  locked m s = if s.mutex_held then fail_with busy_error s else m s

  -- `command` behind the lock
  unfoldable pub command_locked : Bytes → Exec W CommandResult
  command_locked line = do
    begin io line
    set_state writing_command
    write_exact io line command_write
    set_state awaiting_response
    read_terminal io [] final_response fully_transferred

  unfoldable pub command : Bytes → Exec W CommandResult
  command line = locked (command_locked line)

  unfoldable pub size_step : ℕ → List Response → Option ℕ → Exec W Initial
  size_step size informational none = poison (mismatch informational)
  size_step size informational (some n) =
      if n == size then pure (accepted n informational) else poison (mismatch informational)

  -- What the loop of `download_locked` does with a response.
  unfoldable pub download_step :
      (List Response → Exec W Initial) → ℕ → List Response → Response → Exec W Initial
  unfolding size_step
  download_step rest size informational r s = elim r.kind [
    | info ↦ heard io rest initial_response fully_transferred informational r s
    | text ↦ heard io rest initial_response fully_transferred informational r s
    | fail ↦ (
      returns (finished (result r informational initial_response fully_transferred)),
      record s { state = ready },
    )
    | okay ↦
        poison
          (unexpected_reply unexpected_response
            "Fastboot download expected DATA or FAIL before sending payload" initial_response
            fully_transferred informational)
          s
    | data_reply ↦ size_step size informational r.data_size s
  ]

  unfoldable pub download_loop : ℕ → ℕ → List Response → Exec W Initial
  download_loop zero size informational s = (out_of_fuel, s)
  download_loop (suc fuel) size informational s =
      (read_response io initial_response fully_transferred informational
          >>= download_step (download_loop fuel size) size informational)
        s

  -- A source needs a transport that streams.
  unfoldable pub check_streaming : Option TransferSource → Exec W (Unit {0})
  check_streaming none = pure tt
  check_streaming (some source) = elim io.write_source [
    | none ↦ fail_with unstreamable_error
    | some streaming ↦ pure tt
  ]

  unfoldable pub send_payload :
      ℕ → Bytes → Option TransferSource → Option (Observer W) → Exec W (Unit {0})
  send_payload size bytes none observer = write_exact io bytes data_write
  send_payload size bytes (some source) observer = elim io.write_source [
    | none ↦ fail_with unstreamable_error
    | some streaming ↦ write_source io streaming source size observer
  ]

  -- An error of the data phase is stored again with what the device had said.
  unfoldable pub repoison : List Response → Exec W (Unit {0}) → Exec W (Unit {0})
  repoison informational m s = elim (m s).0 [
    | returns u ↦ (returns u, (m s).1)
    | fails e ↦ poison (with_informational e informational) (m s).1
    | out_of_fuel ↦ (out_of_fuel, (m s).1)
  ]

  unfoldable pub after_initial :
      Bytes → Option TransferSource → Option (Observer W) → Initial → Exec W CommandResult
  after_initial bytes source observer (finished r) = pure r
  after_initial bytes source observer (accepted size informational) = do
    set_state downloading
    repoison informational (send_payload size bytes source observer)
    set_state awaiting_response
    read_terminal io informational final_response fully_transferred

  unfoldable pub download_locked :
      ℕ → Bytes → Option TransferSource → Option (Observer W) → Exec W CommandResult
  download_locked size bytes source observer s =
      let rounds = suc s.options.max_informational_responses in
      let run : Exec W CommandResult = do
        begin io (download_command size)
        check_streaming source
        set_state writing_command
        write_exact io (download_command size) command_write
        set_state awaiting_response
        initial ← download_loop rounds size []
        after_initial bytes source observer initial
      in run s

  unfoldable pub download : Bytes → Exec W CommandResult
  download bytes = locked (
      if ltb u32_max (length bytes)
      then fail_with oversized_error
      else download_locked (length bytes) bytes none none)

  unfoldable pub download_from : Option TransferSource → Option (Observer W) → Exec W CommandResult
  download_from none observer =
      fail_with (error invalid_argument "Fastboot download source is null")
  download_from (some source) observer =
      if ltb u32_max source.size
      then fail_with oversized_error
      else download_locked source.size [] (some source) observer

  -- `none` is a null pointer.
  unfoldable pub download_source :
      Option TransferSource → Option (Observer W) → Exec W CommandResult
  unfolding download_from
  download_source source observer = locked (download_from source observer)

  permits :
      Option (ℕ → TransferRingConfig → W → Bool × W)
      → Option ℕ
      → TransferRingConfig
      → Session W
      → Bool × Session W
  permits none provider config s = (false, s)
  permits (some configure) none config s = (false, s)
  permits (some configure) (some p) config s =
      let (done, w) = configure p config s.world in (done, record s { world = w })

  -- The provider is a handle; `none` is a null pointer. A transport that is null, or without the capability,
  -- refuses.
  unfoldable pub configure_transfer_permits :
      Option ℕ → TransferRingConfig → Session W → Bool × Session W
  unfolding permits
  configure_transfer_permits provider config s =
      if s.mutex_held || not (is_ready s.state) || not s.has_transport
      then (false, s)
      else permits io.configure_transfer_permits provider config s

  unfoldable pub request_cancel : Session W → Session W
  request_cancel s = record s {
    cancellation_requested = true;
    world = if s.has_transport then io.request_cancel s.world else s.world;
  }

  -- It waits for the mutex, so no operation is running.
  close_in : SessionState → Session W → Session W
  close_in SessionState.closed s = s
  close_in _ s = record s {
    state = SessionState.closed;
    world = if s.has_transport then io.close s.world else s.world;
  }

  unfoldable pub close : Session W → Session W
  unfolding close_in
  close s = close_in s.state s
