-- ===== src/Transport/Ring/Tiled.antt =====
-- What holds of a ring between its calls.
use kairos_boot.Base.{
  ℕ, ◌+◌, ◌≤◌, ◌<◌, ◌≡◌, refl, none, List, length, arith, ◌==◌, Bool, Bool-cases, inl, inr, true,
  false,
}
use kairos_boot.Transport.Ring.{
  RingState, idle, running, cancelling, draining_failure, completed, cancelled, failed,
  TransferErrorKind, RingWorld, InFlight, Segment, Ring, is_running, is_draining, find_segment,
  settled_state, settle_terminal_state, begin_failure,
}
use kairos_boot.Transport.Ring.Tiles.{Tiles, landed_bytes}

-- The transfers in flight, at most `depth`, and the segments cover the bytes submitted, but for `lost`
-- ones; the watermark is as far as it goes, and the completed bytes are counted.
pub record Covers (lost : ℕ) (fs : List InFlight) (ss : List Segment)
    (total next completed watermark depth : ℕ) : Type 0 where
  pub tiles : Tiles watermark next lost fs ss
  pub stuck : find_segment watermark ss ≡ none
  pub counted : completed ≡ watermark + landed_bytes ss
  pub within : next ≤ total
  pub window : length fs ≤ depth

-- The states in which no failure and no cancellation was met.
abbrev pub is_clean : RingState → Bool
is_clean idle = true
is_clean running = true
is_clean completed = true
is_clean _ = false

abbrev pub is_terminal : RingState → Bool
is_terminal completed = true
is_terminal cancelled = true
is_terminal failed = true
is_terminal _ = false

-- Bytes are lost only after a failure or a cancellation; nothing is in flight in a terminal state, and a
-- completed ring has submitted everything.
pub record Stands (lost : ℕ) (state : RingState) (flying total next : ℕ) : Type 0 where
  pub whole : is_clean state ≡ true → lost ≡ 0
  pub emptied : is_terminal state ≡ true → flying ≡ 0
  pub sent : state ≡ completed → next ≡ total
  pub fresh : state ≡ idle → (next ≡ 0) × (flying ≡ 0)

module _ {W : Type 0} where
  abbrev pub IsTiled : Ring W → Type 0
  IsTiled r =
      (lost : ℕ) × Covers lost r.in_flight r.segments r.total_bytes r.next_offset r.completed_bytes
        r.watermark r.depth
      × Stands lost r.state (length r.in_flight) r.total_bytes r.next_offset

  -- A ring that drains waits for some transfer.
  abbrev pub IsSettled : Ring W → Type 0
  IsSettled r = is_draining r.state ≡ true → 0 < length r.in_flight

module _ {W : Type 0} (io : RingWorld W) where
  settled_state-IsTiled :
      (state : RingState) (r : Ring W)
      → r.state ≡ state
      → length r.in_flight ≡ 0
      → IsTiled r
      → IsTiled (settled_state io state r) × IsSettled (settled_state io state r)
  unfolding settled_state
  settled_state-IsTiled running r e z (lost, c, s) =
      elim (Bool-cases (r.next_offset == r.total_bytes)) [
        | inl q ↦ rw q ((lost, c, ground arith), ground arith)
        | inr q ↦ rw q ((lost, c, s), ground arith)
      ]
  settled_state-IsTiled cancelling r e z (lost, c, s) = ((lost, c, ground arith), ground arith)
  settled_state-IsTiled draining_failure r e z (lost, c, s) =
      ((lost, c, ground arith), ground arith)
  settled_state-IsTiled idle r e z h = (h, ground arith)
  settled_state-IsTiled completed r e z h = (h, ground arith)
  settled_state-IsTiled cancelled r e z h = (h, ground arith)
  settled_state-IsTiled failed r e z h = (h, ground arith)

  pub settle_terminal_state-IsTiled :
      (r : Ring W)
      → IsTiled r
      → IsTiled (settle_terminal_state io r) × IsSettled (settle_terminal_state io r)
  unfolding settle_terminal_state
  settle_terminal_state-IsTiled r h = elim (Bool-cases (length r.in_flight == 0)) [
    | inl e ↦ rw e (settled_state-IsTiled r.state r refl (ground arith) h)
    | inr e ↦ rw e (h, λ d. ground arith)
  ]

  -- A running ring may have lost bytes by the failure.
  pub begin_failure-Covers :
      (kind : TransferErrorKind) (lost : ℕ) (r : Ring W)
      → Covers lost r.in_flight r.segments r.total_bytes r.next_offset r.completed_bytes r.watermark
          r.depth
      → (is_running r.state ≡ false
          → Stands lost r.state (length r.in_flight) r.total_bytes r.next_offset)
      → IsTiled (begin_failure io kind r) × IsSettled (begin_failure io kind r)
  unfolding begin_failure
  begin_failure-Covers kind lost r c s = elim (Bool-cases (is_running r.state)) [
    | inl e ↦ rw e (settle_terminal_state-IsTiled _ (lost, c, ground arith))
    | inr e ↦ rw e (settle_terminal_state-IsTiled _ (lost, c, s e))
  ]

  pub begin_failure-IsTiled :
      (kind : TransferErrorKind) (r : Ring W)
      → IsTiled r
      → IsTiled (begin_failure io kind r) × IsSettled (begin_failure io kind r)
  begin_failure-IsTiled kind r (lost, c, s) = begin_failure-Covers kind lost r c (λ e. s)
