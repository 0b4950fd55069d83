-- ===== src/Transport/Ring.antt =====
-- `TransferRing` of src/transport/transfer_ring.hpp and .cpp, without its telemetry. The backend, the
-- permit provider and the budget are the functions of `RingWorld`. The in-flight transfers are a list,
-- oldest first, and the successful segments a list ordered by offset.
pub mod Calls
pub mod Tiles
pub mod Tiled
pub mod Pumped
pub mod Reached
pub mod Sound
pub mod Promises
pub mod Awaited
pub mod Drained
pub mod Fuel
mod Tests
use kairos_boot.Base.{
  ℕ, zero, suc, ◌+◌, ◌-◌, ◌%◌, Bytes, Bool, true, false, ◌&&◌, ◌||◌, not, Option, none, some, List,
  [], ◌∷◌, ◌++◌, ltb, leb, ◌==◌, min, if◌then◌else◌, length,
}
use kairos_boot.Protocol.Transport.{TransferSource}
use kairos_boot.Transport.Budget.{word}
use kairos_boot.Transport.Permit.{Settlement, PermitWaitResult}

pub data SubmitResult : Type 0 where
  accepted no_device resource_exhausted io_error : SubmitResult

pub data CompletionCode : Type 0 where
  success cancelled no_device timeout stall io_error : CompletionCode

pub data TransferErrorKind : Type 0 where
  invalid_configuration source_read submit_no_device submit_resource_exhausted submit_io
        partial_transfer completion_no_device completion_timeout completion_stall completion_io
        unexpected_cancellation invalid_completion user_cancelled :
      TransferErrorKind

pub data DeliveryCertainty : Type 0 where
  not_sent partial_or_unknown fully_transferred : DeliveryCertainty

pub data RingState : Type 0 where
  idle running cancelling draining_failure completed cancelled failed : RingState

pub record Submission : Type 0 where
  pub id : ℕ
  pub offset : ℕ
  pub payload : Bytes
  pub logical_message_end : Bool

pub record TransferError : Type 0 where
  pub kind : TransferErrorKind
  pub certainty : DeliveryCertainty

-- A submission is answered, or throws.
pub data Submitted : Type 0 where
  answers : SubmitResult → Submitted
  throws : Submitted

-- What the ring calls. A permit is its token and its size; `settle` is the provider's, and `release`
-- gives the permit's memory back. `has_provider` and `budget_limit` say which pointers are set.
pub record RingWorld (W : Type 0) : Type 0 where
  pub has_provider : Bool
  pub budget_limit : Option ℕ
  pub provider_acquire : ℕ → W → Option (ℕ × ℕ) × W
  pub settle : ℕ → ℕ → Settlement → W → W
  pub readiness_generation : W → ℕ
  pub wait_for_ready : ℕ → ℕ → W → PermitWaitResult × W
  pub cancel_wait : W → W
  pub budget_acquire : ℕ → W → Bool × W
  pub release : ℕ → W → W
  pub submit : Submission → W → Submitted × W
  pub cancel : ℕ → W → W

pub record InFlight : Type 0 where
  pub id : ℕ
  pub offset : ℕ
  pub requested : ℕ
  pub token : ℕ

-- A successful segment: its offset and its bytes.
abbrev pub Segment : Type 0
Segment = ℕ × ℕ

-- The ring, with the world that it stands in.
pub record Ring (W : Type 0) : Type 0 where
  pub chunk_size : ℕ
  pub depth : ℕ
  pub source : TransferSource
  pub state : RingState
  pub error : Option TransferError
  pub in_flight : List InFlight
  pub segments : List Segment
  pub next_id : ℕ
  pub total_bytes : ℕ
  pub next_offset : ℕ
  pub completed_bytes : ℕ
  pub watermark : ℕ
  pub logical_message_end : Bool
  pub wait_generation : ℕ
  pub world : W

unfoldable pub submit_error_kind : SubmitResult → TransferErrorKind
submit_error_kind accepted = submit_io
submit_error_kind SubmitResult.no_device = submit_no_device
submit_error_kind resource_exhausted = submit_resource_exhausted
submit_error_kind SubmitResult.io_error = submit_io

unfoldable pub completion_error_kind : CompletionCode → TransferErrorKind
completion_error_kind success = completion_io
completion_error_kind CompletionCode.cancelled = unexpected_cancellation
completion_error_kind CompletionCode.no_device = completion_no_device
completion_error_kind timeout = completion_timeout
completion_error_kind stall = completion_stall
completion_error_kind CompletionCode.io_error = completion_io

abbrev pub is_running : RingState → Bool
is_running running = true
is_running _ = false

abbrev pub is_idle : RingState → Bool
is_idle idle = true
is_idle _ = false

-- The two states that wait for what is in flight.
abbrev pub is_draining : RingState → Bool
is_draining cancelling = true
is_draining draining_failure = true
is_draining _ = false

unfoldable pub find_in_flight : ℕ → List InFlight → Option InFlight
find_in_flight id [] = none
find_in_flight id (f ∷ fs) = if f.id == id then some f else find_in_flight id fs

unfoldable pub erase_in_flight : ℕ → List InFlight → List InFlight
erase_in_flight id [] = []
erase_in_flight id (f ∷ fs) = if f.id == id then fs else f ∷ erase_in_flight id fs

unfoldable pub has_in_flight : ℕ → List InFlight → Bool
has_in_flight id [] = false
has_in_flight id (f ∷ fs) = f.id == id || has_in_flight id fs

-- `insert_or_assign` of the ordered map
unfoldable pub insert_segment : ℕ → ℕ → List Segment → List Segment
insert_segment offset bytes [] = (offset, bytes) ∷ []
insert_segment offset bytes ((o, n) ∷ ss) =
    if ltb offset o
    then (offset, bytes) ∷ (o, n) ∷ ss
    else if offset == o
    then (offset, bytes) ∷ ss
    else (o, n) ∷ insert_segment offset bytes ss

unfoldable pub find_segment : ℕ → List Segment → Option ℕ
find_segment offset [] = none
find_segment offset ((o, n) ∷ ss) = if o == offset then some n else find_segment offset ss

unfoldable pub erase_segment : ℕ → List Segment → List Segment
erase_segment offset [] = []
erase_segment offset ((o, n) ∷ ss) = if o == offset then ss else (o, n) ∷ erase_segment offset ss

-- The loop of `record_success`: the watermark and the segments left.
unfoldable pub advance : ℕ → ℕ → List Segment → ℕ × List Segment
advance zero watermark ss = (watermark, ss)
advance (suc fuel) watermark ss = elim (find_segment watermark ss) [
  | none ↦ (watermark, ss)
  | some n ↦ advance fuel (watermark + n) (erase_segment watermark ss)
]

module _ {W : Type 0} (io : RingWorld W) where
  unfoldable pub current_certainty : Ring W → DeliveryCertainty
  current_certainty r =
      if not (r.total_bytes == 0) && r.watermark == r.total_bytes
      then fully_transferred
      else if r.next_offset == 0
      then not_sent
      else partial_or_unknown

  -- The error of a ring that has drained, with what is known in the end.
  unfoldable pub final_error : Ring W → Option TransferError
  final_error r = elim r.error [
    | none ↦ none
    | some e ↦ some (record e { certainty = current_certainty r })
  ]

  -- `settle_terminal_state`, where nothing is in flight
  unfoldable pub settled_state : RingState → Ring W → Ring W
  settled_state running r =
      if r.next_offset == r.total_bytes then record r { state = completed } else r
  settled_state cancelling r = record r { state = RingState.cancelled; error = final_error r }
  settled_state draining_failure r = record r { state = failed; error = final_error r }
  settled_state _ r = r

  unfoldable pub settle_terminal_state : Ring W → Ring W
  unfolding settled_state
  settle_terminal_state r = if length r.in_flight == 0 then settled_state r.state r else r

  unfoldable pub cancel_outstanding : List InFlight → W → W
  cancel_outstanding [] w = w
  cancel_outstanding (f ∷ fs) w = cancel_outstanding fs (io.cancel f.id w)

  -- The waits for permits are given up, then every transfer is cancelled.
  unfoldable pub give_up : Ring W → W
  unfolding cancel_outstanding
  give_up r =
      cancel_outstanding r.in_flight (if io.has_provider then io.cancel_wait r.world else r.world)

  -- The first error is kept.
  unfoldable pub noted : TransferErrorKind → Ring W → Option TransferError
  noted kind r = elim r.error [
    | none ↦ some (record { kind = kind; certainty = current_certainty r })
    | some e ↦ some e
  ]

  unfoldable pub begin_failure : TransferErrorKind → Ring W → Ring W
  unfolding noted give_up
  begin_failure kind r =
      let r' : Ring W = record r { error = noted kind r } in
      if is_running r.state
      then settle_terminal_state (record r' { state = draining_failure; world = give_up r' })
      else settle_terminal_state r'

  -- `TransferPermit::settle`: the provider is told before the memory goes back. Every
  -- permit that the ring holds has a lease, if only of no bytes.
  unfoldable pub settle_memory : ℕ → ℕ → Settlement → W → W
  settle_memory token size result w =
      io.release size (if io.has_provider then io.settle token size result w else w)

  abbrev pub settle_permit : ℕ → ℕ → Settlement → Ring W → Ring W
  settle_permit token size result r = record r { world = settle_memory token size result r.world }

  -- The permit of the provider, or one over a lease of the budget.
  unfoldable pub acquire_permit : ℕ → W → Option (ℕ × ℕ) × W
  acquire_permit maximum w =
      let leased = io.budget_acquire maximum w in
      if io.has_provider
      then io.provider_acquire maximum w
      else (if leased.0 then some (0, maximum) else none, leased.1)
