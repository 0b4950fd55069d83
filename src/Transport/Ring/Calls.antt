-- ===== src/Transport/Ring/Calls.antt =====
-- The calls of the ring: `start`, `pump`, `wait_for_permit_until`, `handle_completion` and `cancel`.
use kairos_boot.Base.{
  ℕ, zero, suc, ◌+◌, ◌-◌, ◌%◌, Bytes, Bool, true, false, ◌&&◌, ◌||◌, not, Option, none, some, List,
  [], ◌∷◌, ◌++◌, ltb, ◌==◌, min, if◌then◌else◌, length,
}
use kairos_boot.Protocol.Transport.{TransferSource}
use kairos_boot.Transport.Budget.{word}
use kairos_boot.Transport.Permit.{Settlement, not_submitted, PermitWaitResult, ready}
use kairos_boot.Transport.Ring.{
  accepted, CompletionCode, success, idle, running, completed, cancelling, failed,
  TransferErrorKind, invalid_configuration, source_read, submit_io, partial_transfer,
  invalid_completion, user_cancelled, not_sent, Submitted, answers, throws, RingWorld, InFlight,
  Ring, submit_error_kind, completion_error_kind, is_running, is_idle, is_draining, find_in_flight,
  erase_in_flight, has_in_flight, insert_segment, advance, current_certainty, settle_terminal_state,
  begin_failure, settle_permit, acquire_permit, give_up,
}

-- The source before a start, a null pointer.
abbrev no_source : TransferSource
no_source = record { size = 0; read_exact = λ offset size. none }

unfoldable pub ring : {W : Type 0} → ℕ → ℕ → W → Ring W
ring chunk_size depth w = record {
  chunk_size = chunk_size;
  depth = depth;
  source = no_source;
  state = idle;
  error = none;
  in_flight = [];
  segments = [];
  next_id = 1;
  total_bytes = 0;
  next_offset = 0;
  completed_bytes = 0;
  watermark = 0;
  logical_message_end = false;
  wait_generation = 0;
  world = w;
}

module _ {W : Type 0} (io : RingWorld W) where
  -- What follows the backend's answer; `f` is the transfer submitted, and `rest` the loop's next round.
  unfoldable pub after_submit :
      (Ring W → Bool × Ring W)
      → Bool
      → InFlight
      → Submitted
      → List InFlight
      → Ring W
      → Bool × Ring W
  after_submit rest submitted f throws old r = (
    submitted,
    begin_failure io submit_io (record r { next_offset = r.next_offset + f.requested }),
  )
  after_submit rest submitted f (answers accepted) old r =
      rest (record r { next_offset = r.next_offset + f.requested })
  after_submit rest submitted f (answers e) old r = (
    submitted,
    begin_failure io (submit_error_kind e)
        (settle_permit io f.token f.requested not_submitted (record r { in_flight = old })),
  )

  -- The bytes are read: the transfer takes an id and goes to the backend.
  unfoldable pub submit_chunk :
      (Ring W → Bool × Ring W) → Bool → ℕ → ℕ → Bytes → Ring W → Bool × Ring W
  unfolding after_submit
  submit_chunk rest submitted token size bytes r =
      let f : InFlight = record {
        id = r.next_id;
        offset = r.next_offset;
        requested = size;
        token = token;
      } in
      let r' : Ring W = record r { next_id = (r.next_id + 1) % word } in
      let sent =
        io.submit
          (record {
            id = f.id;
            offset = f.offset;
            payload = bytes;
            logical_message_end = r.logical_message_end && r.next_offset + size == r.total_bytes;
          })
          r.world in
      let next =
        after_submit rest submitted f sent.0 r.in_flight
          (record r' { in_flight = r.in_flight ++ f ∷ []; world = sent.1 }) in
      if has_in_flight f.id r.in_flight
      then (submitted, begin_failure io submit_io (settle_permit io token size not_submitted r'))
      else next

  -- With a permit; where the read fails, the permit goes back after the failure is noted.
  unfoldable pub use_permit : (Ring W → Bool × Ring W) → Bool → ℕ → ℕ → ℕ → Ring W → Bool × Ring W
  unfolding submit_chunk
  use_permit rest submitted maximum token size r =
      if size == 0 || ltb maximum size
      then (
        submitted,
        begin_failure io invalid_configuration (settle_permit io token size not_submitted r),
      )
      else elim (r.source.read_exact r.next_offset size) [
        | none ↦
            (submitted, settle_permit io token size not_submitted (begin_failure io source_read r))
        | some bytes ↦ submit_chunk rest submitted token size bytes r
      ]

  -- One round of the loop of `pump`, behind its test.
  unfoldable pub pump_step : (Ring W → Bool × Ring W) → Bool → Ring W → Bool × Ring W
  unfolding use_permit
  pump_step rest submitted r =
      let maximum = min (r.total_bytes - r.next_offset) r.chunk_size in
      let observed = if io.has_provider then io.readiness_generation r.world else 0 in
      let (permit, w) = acquire_permit io maximum r.world in
      elim permit [
        | none ↦ (submitted, record r { world = w; wait_generation = observed })
        | some (token, size) ↦ use_permit rest submitted maximum token size (record r { world = w })
      ]

  unfoldable pub may_pump : Ring W → Bool
  may_pump r =
      is_running r.state && ltb (length r.in_flight) r.depth && ltb r.next_offset r.total_bytes

  -- Each round but the last puts one more transfer in flight.
  unfoldable pub pump_loop : ℕ → Bool → Ring W → Bool × Ring W
  pump_loop zero submitted r = (submitted, r)
  pump_loop (suc fuel) submitted r =
      let step = pump_step (pump_loop fuel true) submitted r in
      if may_pump r then step else (submitted, r)

  unfoldable pub pump : Ring W → Bool × Ring W
  pump r =
      let (submitted, r') = pump_loop (suc r.depth) false r in
      if is_running r.state then (submitted, settle_terminal_state io r') else (false, r)

  abbrev pub is_null : Option ℕ → Bool
  is_null none = true
  is_null (some n) = false

  abbrev pub exceeds : ℕ → Option ℕ → Bool
  exceeds n none = false
  exceeds n (some limit) = ltb limit n

  -- A failed check makes an idle ring fail; a source is given, or null.
  unfoldable pub start_refused : Ring W → Bool × Ring W
  start_refused r =
      if is_idle r.state
      then (
        false,
        record r {
          state = failed;
          error = some (record { kind = invalid_configuration; certainty = not_sent });
        },
      )
      else (false, r)

  unfoldable pub may_start : Ring W → Bool
  may_start r = not (
      (is_null io.budget_limit && not io.has_provider)
      || r.chunk_size == 0
      || r.depth == 0
      || (not io.has_provider && exceeds r.chunk_size io.budget_limit))

  -- With a source.
  unfoldable pub start_from : TransferSource → Bool → Ring W → Bool × Ring W
  start_from source logical_message_end r =
      let r' : Ring W = record r {
        source = source;
        total_bytes = source.size;
        logical_message_end = logical_message_end;
        state = running;
      } in
      let pumped = (pump r').1 in
      if source.size == 0
      then (true, record r' { state = completed })
      else (elim pumped.state [ running ↦ true | completed ↦ true | _ ↦ false ], pumped)

  unfoldable pub start : Option TransferSource → Bool → Ring W → Bool × Ring W
  unfolding start_from start_refused
  start none logical_message_end r = start_refused r
  start (some source) logical_message_end r =
      if is_idle r.state && may_start r
      then start_from source logical_message_end r
      else start_refused r

  unfoldable pub after_wait : PermitWaitResult → Ring W → Bool × Ring W
  after_wait ready r = pump r
  after_wait PermitWaitResult.cancelled r = (false, r)
  after_wait PermitWaitResult.timeout r = (false, r)

  unfoldable pub wait_for_permit_until : ℕ → Ring W → Bool × Ring W
  unfolding after_wait
  wait_for_permit_until deadline r =
      let (answer, w) = io.wait_for_ready r.wait_generation deadline r.world in
      let waited = after_wait answer (record r { world = w }) in
      if not (is_running r.state) || not io.has_provider || not (length r.in_flight == 0)
      then (false, r)
      else waited

  unfoldable pub record_success : ℕ → ℕ → Ring W → Ring W
  record_success offset bytes r =
      let ss = insert_segment offset bytes r.segments in
      let (watermark, left) = advance (length ss) r.watermark ss in
      record r {
        segments = left;
        completed_bytes = r.completed_bytes + bytes;
        watermark = watermark;
      }

  unfoldable pub failed_with : TransferErrorKind → InFlight → Ring W → Ring W
  failed_with kind f r =
      begin_failure io kind (settle_permit io f.token f.requested Settlement.partial_or_unknown r)

  -- By the code, where no more than the requested bytes are reported.
  unfoldable pub completed_by : CompletionCode → ℕ → InFlight → Ring W → Ring W
  unfolding failed_with record_success
  completed_by success transferred f r =
      if transferred == f.requested
      then record_success f.offset f.requested
          (settle_permit io f.token f.requested Settlement.fully_transferred r)
      else failed_with partial_transfer f r
  completed_by CompletionCode.cancelled transferred f r =
      if is_draining r.state
      then settle_permit io f.token f.requested Settlement.partial_or_unknown r
      else failed_with (completion_error_kind CompletionCode.cancelled) f r
  completed_by code transferred f r = failed_with (completion_error_kind code) f r

  -- What a completion does to the ring that no longer holds its transfer.
  unfoldable pub completed_with : InFlight → CompletionCode → ℕ → Ring W → Ring W
  unfolding completed_by
  completed_with f code transferred r =
      if ltb f.requested transferred
      then failed_with invalid_completion f r
      else completed_by code transferred f r

  unfoldable pub handle_completion : ℕ → CompletionCode → ℕ → Ring W → Bool × Ring W
  handle_completion id code transferred r = elim (find_in_flight id r.in_flight) [
    | none ↦ (false, r)
    | some f ↦
        let r' =
          completed_with f code transferred
            (record r { in_flight = erase_in_flight id r.in_flight }) in
        (true, settle_terminal_state io (if is_running r'.state then (pump r').1 else r'))
  ]

  unfoldable pub cancel : Ring W → Ring W
  cancel r =
      let r' : Ring W = record r {
        error = some (record { kind = user_cancelled; certainty = current_certainty io r });
        state = cancelling;
      } in
      if is_running r.state
      then settle_terminal_state io (record r' { world = give_up io r' })
      else r
