-- ===== src/Transport/Ring/Pumped.antt =====
-- `pump`, and what holds of a ring.
use kairos_boot.Base.{
  ℕ, zero, suc, ◌+◌, ◌-◌, ◌≤◌, ◌<◌, ◌≡◌, refl, List, [], ◌∷◌, ◌++◌, length, arith, ltb, ◌==◌, Bool,
  Bool-cases, Option-cases, inl, inr, true, false, length-append, Bytes, min, ◌||◌,
}
use kairos_boot.Transport.Ring.{
  RingWorld, InFlight, Ring, Submitted, answers, throws, accepted, no_device, resource_exhausted,
  io_error, is_running, has_in_flight, acquire_permit, source_read,
}
use kairos_boot.Transport.Ring.Tiles.{Tiles-append}
use kairos_boot.Transport.Ring.Calls.{
  after_submit, submit_chunk, use_permit, pump_step, may_pump, pump_loop, pump,
}
use kairos_boot.Transport.Ring.Tiled.{
  IsTiled, IsSettled, begin_failure-IsTiled, settle_terminal_state-IsTiled,
}

module _ {W : Type 0} where
  -- A ring with one more transfer in flight, behind the last.
  abbrev pub with_transfer : InFlight → Ring W → Ring W
  with_transfer f r = record r {
    in_flight = r.in_flight ++ f ∷ [];
    next_offset = r.next_offset + f.requested;
  }

  pub with_transfer-IsTiled :
      (f : InFlight) (r : Ring W)
      → IsTiled r
      → is_running r.state ≡ true
      → length r.in_flight < r.depth
      → f.offset ≡ r.next_offset
      → 0 < f.requested
      → f.requested ≤ r.total_bytes - r.next_offset
      → IsTiled (with_transfer f r)
  with_transfer-IsTiled f r (lost, c, s) run room at pos fits = (
    lost,
    record {
      tiles = Tiles-append f at pos c.tiles;
      stuck = c.stuck;
      counted = c.counted;
      within = omega arith;
      window = omega (arith, length-append r.in_flight (f ∷ []));
    },
    ground arith,
  )

module _ {W : Type 0} (io : RingWorld W) (rest : Ring W → Bool × Ring W) (submitted : Bool) where
  after_submit-IsTiled :
      (f : InFlight) (answer : Submitted) (old : List InFlight) (r : Ring W)
      → ((u : Ring W) → IsTiled u → IsTiled (rest u).1)
      → IsTiled (record r { next_offset = r.next_offset + f.requested })
      → IsTiled (record r { in_flight = old })
      → IsTiled (after_submit io rest submitted f answer old r).1
  unfolding after_submit
  after_submit-IsTiled f throws old r more new back = (begin_failure-IsTiled io _ _ new).0
  after_submit-IsTiled f (answers accepted) old r more new back = more _ new
  after_submit-IsTiled f (answers no_device) old r more new back =
      (begin_failure-IsTiled io _ _ back).0
  after_submit-IsTiled f (answers resource_exhausted) old r more new back =
      (begin_failure-IsTiled io _ _ back).0
  after_submit-IsTiled f (answers io_error) old r more new back =
      (begin_failure-IsTiled io _ _ back).0

  submit_chunk-IsTiled :
      (token size : ℕ) (bytes : Bytes) (r : Ring W)
      → ((u : Ring W) → IsTiled u → IsTiled (rest u).1)
      → IsTiled r
      → is_running r.state ≡ true
      → length r.in_flight < r.depth
      → 0 < size
      → size ≤ r.total_bytes - r.next_offset
      → IsTiled (submit_chunk io rest submitted token size bytes r).1
  unfolding submit_chunk
  submit_chunk-IsTiled token size bytes r more h run room pos fits =
      let f : InFlight = record {
        id = r.next_id;
        offset = r.next_offset;
        requested = size;
        token = token;
      } in
      elim (Bool-cases (has_in_flight r.next_id r.in_flight)) [
        | inl e ↦ rw e (begin_failure-IsTiled io _ _ h).0
        | inr e ↦ rw e (
            after_submit-IsTiled f _ r.in_flight _ more
              (with_transfer-IsTiled f r h run room refl pos fits) h)
      ]

  use_permit-IsTiled :
      (maximum token size : ℕ) (r : Ring W)
      → ((u : Ring W) → IsTiled u → IsTiled (rest u).1)
      → IsTiled r
      → is_running r.state ≡ true
      → length r.in_flight < r.depth
      → maximum ≤ r.total_bytes - r.next_offset
      → IsTiled (use_permit io rest submitted maximum token size r).1
  unfolding use_permit
  use_permit-IsTiled maximum token size r more h run room fits =
      elim (Bool-cases (size == 0 || ltb maximum size)) [
        | inl e ↦ rw e (begin_failure-IsTiled io _ _ h).0
        | inr e ↦ elim (Option-cases (r.source.read_exact r.next_offset size)) [
          | inl n ↦ rw (use_permit, e, n) (begin_failure-IsTiled io source_read r h).0
          | inr (bytes, n) ↦
              rw (use_permit, e, n)
                (submit_chunk-IsTiled token size bytes r more h run room (ground arith)
                  (ground arith))
        ]
      ]

  pump_step-IsTiled :
      (r : Ring W)
      → ((u : Ring W) → IsTiled u → IsTiled (rest u).1)
      → IsTiled r
      → is_running r.state ≡ true
      → length r.in_flight < r.depth
      → IsTiled (pump_step io rest submitted r).1
  unfolding pump_step
  pump_step-IsTiled r more h run room =
      let maximum = min (r.total_bytes - r.next_offset) r.chunk_size in
      let got = acquire_permit io maximum r.world in
      elim (Option-cases got.0) [
        | inl e ↦ rw (pump_step, e) h
        | inr ((token, size), e) ↦
            rw (pump_step, e)
              (use_permit-IsTiled maximum token size (record r { world = got.1 }) more h run room
                (omega arith))
      ]

module _ {W : Type 0} (io : RingWorld W) where
  pump_loop-IsTiled :
      (fuel : ℕ) (submitted : Bool) (r : Ring W)
      → IsTiled r
      → IsTiled (pump_loop io fuel submitted r).1
  unfolding pump_loop may_pump
  pump_loop-IsTiled zero submitted r h = h
  pump_loop-IsTiled (suc fuel) submitted r h = elim (Bool-cases (may_pump io r)) [
    | inl e ↦ rw e (
        pump_step-IsTiled io (pump_loop io fuel true) submitted r (pump_loop-IsTiled fuel true) h
          (ground arith) (ground arith))
    | inr e ↦ rw e h
  ]

  pub pump-IsTiled :
      (r : Ring W) → IsTiled r → IsSettled r → IsTiled (pump io r).1 × IsSettled (pump io r).1
  unfolding pump
  pump-IsTiled r h k = elim (Bool-cases (is_running r.state)) [
    | inl e ↦ rw e (settle_terminal_state-IsTiled io _ (pump_loop-IsTiled (suc r.depth) false r h))
    | inr e ↦ rw e (h, k)
  ]
