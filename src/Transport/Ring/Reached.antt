-- ===== src/Transport/Ring/Reached.antt =====
-- The calls of the ring in any order.
use kairos_boot.Base.{
  ℕ, ◌+◌, ◌≡◌, some, List, [], ◌∷◌, length, arith, ltb, ◌==◌, if◌then◌else◌, Bool-cases,
  Option-cases, inl, inr, false,
}
use kairos_boot.Transport.Permit.{Settlement}
use kairos_boot.Transport.Ring.{
  RingWorld, InFlight, Ring, TransferErrorKind, CompletionCode, success, no_device, stall, io_error,
  is_running, is_draining, find_in_flight, erase_in_flight, insert_segment, settle_permit,
  settle_terminal_state,
}
use kairos_boot.Transport.Ring.Tiles.{
  Tiles, requested_bytes, landed_bytes, Tiles-sum, Tiles-insert_segment, Tiles-lose, Tiles-advance,
}
use kairos_boot.Transport.Ring.Calls.{
  pump, record_success, failed_with, completed_by, completed_with, handle_completion,
}
use kairos_boot.Transport.Ring.Tiled.{
  Covers, Stands, IsTiled, IsSettled, begin_failure-Covers, settle_terminal_state-IsTiled,
}
use kairos_boot.Transport.Ring.Pumped.{pump-IsTiled}

pub length-erase_in_flight :
    (id : ℕ) (fs : List InFlight) (f : InFlight)
    → find_in_flight id fs ≡ some f
    → length (erase_in_flight id fs) + 1 ≡ length fs
unfolding find_in_flight erase_in_flight
length-erase_in_flight id [] f h = ground arith
length-erase_in_flight id (g ∷ fs) f h = ground (arith, length-erase_in_flight id fs f)

requested_bytes-erase_in_flight :
    (id : ℕ) (fs : List InFlight) (f : InFlight)
    → find_in_flight id fs ≡ some f
    → requested_bytes (erase_in_flight id fs) + f.requested ≡ requested_bytes fs
unfolding find_in_flight erase_in_flight requested_bytes
requested_bytes-erase_in_flight id [] f h = ground arith
requested_bytes-erase_in_flight id (g ∷ fs) f h =
    ground (arith, requested_bytes-erase_in_flight id fs f)

landed_bytes-insert_segment :
    {w n lost : ℕ} {fs : List InFlight} {ss : List (ℕ × ℕ)} (id : ℕ) (f : InFlight)
    → Tiles w n lost fs ss
    → find_in_flight id fs ≡ some f
    → landed_bytes (insert_segment f.offset f.requested ss) ≡ landed_bytes ss + f.requested
landed_bytes-insert_segment {fs} id f t h = omega (
  arith,
  Tiles-sum t,
  Tiles-sum (Tiles-insert_segment id f t h),
  requested_bytes-erase_in_flight id fs f h,
)

module _ {W : Type 0} where
  -- A ring without one of its transfers.
  abbrev pub without : ℕ → Ring W → Ring W
  without id r = record r { in_flight = erase_in_flight id r.in_flight }

module _ {W : Type 0} (io : RingWorld W) where
  record_success-IsTiled :
      (id : ℕ) (f : InFlight) (r : Ring W)
      → IsTiled r
      → find_in_flight id r.in_flight ≡ some f
      → IsTiled (record_success io f.offset f.requested (without id r))
  unfolding record_success
  record_success-IsTiled id f r (lost, c, s) h =
      let ss = insert_segment f.offset f.requested r.segments in
      let t = Tiles-insert_segment id f c.tiles h in
      let a = Tiles-advance (length ss) r.watermark ss (omega arith) t in
      (
        lost,
        record {
          tiles = a.0;
          stuck = a.1;
          counted = omega (arith, a.2, c.counted, landed_bytes-insert_segment id f c.tiles h);
          within = c.within;
          window = omega (arith, length-erase_in_flight id r.in_flight f h, c.window);
        },
        ground (arith, length-erase_in_flight id r.in_flight f h),
      )

  -- Without one transfer, whose bytes are lost.
  without-Covers :
      (id : ℕ) (f : InFlight) (lost : ℕ) (r : Ring W)
      → Covers lost r.in_flight r.segments r.total_bytes r.next_offset r.completed_bytes r.watermark
          r.depth
      → find_in_flight id r.in_flight ≡ some f
      → Covers
          (lost + f.requested)
          (erase_in_flight id r.in_flight)
          r.segments
          r.total_bytes
          r.next_offset
          r.completed_bytes
          r.watermark
          r.depth
  without-Covers id f lost r c h = record {
    tiles = Tiles-lose id f c.tiles h;
    stuck = c.stuck;
    counted = c.counted;
    within = c.within;
    window = omega (arith, length-erase_in_flight id r.in_flight f h, c.window);
  }

  without-Stands :
      (id : ℕ) (f : InFlight) (lost : ℕ) (r : Ring W)
      → Stands lost r.state (length r.in_flight) r.total_bytes r.next_offset
      → find_in_flight id r.in_flight ≡ some f
      → is_running r.state ≡ false
      → Stands
          (lost + f.requested)
          r.state
          (length (erase_in_flight id r.in_flight))
          r.total_bytes
          r.next_offset
  without-Stands id f lost r s h e = ground (arith, length-erase_in_flight id r.in_flight f)

  failed_with-IsTiled :
      (kind : TransferErrorKind) (id : ℕ) (f : InFlight) (r : Ring W)
      → IsTiled r
      → find_in_flight id r.in_flight ≡ some f
      → IsTiled (failed_with io kind f (without id r))
  unfolding failed_with
  failed_with-IsTiled kind id f r (lost, c, s) h =
      (begin_failure-Covers io kind (lost + f.requested) _ (without-Covers id f lost r c h)
        (without-Stands id f lost r s h)).0

  completed_by-IsTiled :
      (code : CompletionCode) (transferred id : ℕ) (f : InFlight) (r : Ring W)
      → IsTiled r
      → find_in_flight id r.in_flight ≡ some f
      → IsTiled (completed_by io code transferred f (without id r))
  unfolding completed_by
  completed_by-IsTiled success transferred id f r t h =
      elim (Bool-cases (transferred == f.requested)) [
        | inl e ↦ rw e (
            record_success-IsTiled id f
              (settle_permit io f.token f.requested Settlement.fully_transferred r) t h)
        | inr e ↦ rw e (failed_with-IsTiled _ id f r t h)
      ]
  completed_by-IsTiled CompletionCode.cancelled transferred id f r (lost, c, s) h =
      elim (Bool-cases (is_draining r.state)) [
        | inl e ↦ rw e (
          lost + f.requested,
          without-Covers id f lost r c h,
          without-Stands id f lost r s h (ground arith),
        )
        | inr e ↦ rw e (failed_with-IsTiled _ id f r (lost, c, s) h)
      ]
  completed_by-IsTiled no_device transferred id f r t h = failed_with-IsTiled _ id f r t h
  completed_by-IsTiled CompletionCode.timeout transferred id f r t h =
      failed_with-IsTiled _ id f r t h
  completed_by-IsTiled stall transferred id f r t h = failed_with-IsTiled _ id f r t h
  completed_by-IsTiled io_error transferred id f r t h = failed_with-IsTiled _ id f r t h

  completed_with-IsTiled :
      (code : CompletionCode) (transferred id : ℕ) (f : InFlight) (r : Ring W)
      → IsTiled r
      → find_in_flight id r.in_flight ≡ some f
      → IsTiled (completed_with io f code transferred (without id r))
  unfolding completed_with
  completed_with-IsTiled code transferred id f r t h =
      elim (Bool-cases (ltb f.requested transferred)) [
        | inl e ↦ rw e (failed_with-IsTiled _ id f r t h)
        | inr e ↦ rw e (completed_by-IsTiled code transferred id f r t h)
      ]

  -- `pump`, where the ring runs.
  pumped-IsTiled :
      (r : Ring W)
      → IsTiled r
      → IsTiled (settle_terminal_state io (if is_running r.state then (pump io r).1 else r))
        × IsSettled (settle_terminal_state io (if is_running r.state then (pump io r).1 else r))
  pumped-IsTiled r t = elim (Bool-cases (is_running r.state)) [
    | inl e ↦ rw e (settle_terminal_state-IsTiled io _ (pump-IsTiled io r t (ground arith)).0)
    | inr e ↦ rw e (settle_terminal_state-IsTiled io r t)
  ]

  pub handle_completion-IsTiled :
      (id : ℕ) (code : CompletionCode) (transferred : ℕ) (r : Ring W)
      → IsTiled r
      → IsSettled r
      → IsTiled (handle_completion io id code transferred r).1
        × IsSettled (handle_completion io id code transferred r).1
  unfolding handle_completion
  handle_completion-IsTiled id code transferred r t k =
      elim (Option-cases (find_in_flight id r.in_flight)) [
        | inl e ↦ rw (handle_completion, e) (t, k)
        | inr (f, e) ↦
            rw (handle_completion, e)
              (pumped-IsTiled _ (completed_with-IsTiled code transferred id f r t e))
      ]
