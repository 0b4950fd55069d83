-- ===== src/Transport/Ring/Fuel.antt =====
-- The rounds of the loop of `pump`.
use kairos_boot.Base.{
  ℕ, zero, suc, ◌+◌, ◌-◌, ◌<◌, ◌≡◌, refl, List, length, arith, ltb, ◌==◌, Bool, Bool-cases,
  Option-cases, inl, inr, true, false, ◌||◌, min, Bytes, length-append, ◌∙◌,
}
use kairos_boot.Transport.Ring.{
  accepted, no_device, resource_exhausted, io_error, RingWorld, InFlight, Ring, Submitted, answers,
  throws, has_in_flight, acquire_permit,
}
use kairos_boot.Transport.Ring.Calls.{
  after_submit, submit_chunk, use_permit, pump_step, may_pump, pump_loop,
}

module _ {W : Type 0} where
  -- Two continuations that agree on rings with one more transfer in flight.
  abbrev Agrees : Ring W → (Ring W → Bool × Ring W) → (Ring W → Bool × Ring W) → Type 0
  Agrees r f g =
      (u : Ring W) → u.depth ≡ r.depth → length u.in_flight ≡ suc (length r.in_flight) → f u ≡ g u

module _ {W : Type 0} (io : RingWorld W) (rest more : Ring W → Bool × Ring W)
    (submitted : Bool) where
  after_submit-rest :
      (f : InFlight) (answer : Submitted) (old : List InFlight) (r u : Ring W)
      → Agrees u rest more
      → r.depth ≡ u.depth
      → length r.in_flight ≡ suc (length u.in_flight)
      → after_submit io rest submitted f answer old r
        ≡ after_submit io more submitted f answer old r
  unfolding after_submit
  after_submit-rest f throws old r u h d e = refl
  after_submit-rest f (answers accepted) old r u h d e = h _ d e
  after_submit-rest f (answers no_device) old r u h d e = refl
  after_submit-rest f (answers resource_exhausted) old r u h d e = refl
  after_submit-rest f (answers io_error) old r u h d e = refl

  submit_chunk-rest :
      (token size : ℕ) (bytes : Bytes) (r : Ring W)
      → Agrees r rest more
      → submit_chunk io rest submitted token size bytes r
        ≡ submit_chunk io more submitted token size bytes r
  unfolding submit_chunk
  submit_chunk-rest token size bytes r h =
      let f : InFlight = record {
        id = r.next_id;
        offset = r.next_offset;
        requested = size;
        token = token;
      } in
      elim (Bool-cases (has_in_flight r.next_id r.in_flight)) [
        | inl e ↦ rw e refl
        | inr e ↦
            rw e (after_submit-rest f _ _ _ r h refl (omega (arith, length-append r.in_flight)))
      ]

  use_permit-rest :
      (maximum token size : ℕ) (r : Ring W)
      → Agrees r rest more
      → use_permit io rest submitted maximum token size r
        ≡ use_permit io more submitted maximum token size r
  unfolding use_permit
  use_permit-rest maximum token size r h = elim (Bool-cases (size == 0 || ltb maximum size)) [
    | inl e ↦ rw e refl
    | inr e ↦ elim (Option-cases (r.source.read_exact r.next_offset size)) [
      | inl n ↦ rw (use_permit, e, n) refl
      | inr (bytes, n) ↦ rw (use_permit, e, n) (submit_chunk-rest token size bytes r h)
    ]
  ]

  pump_step-rest :
      (r : Ring W)
      → Agrees r rest more
      → pump_step io rest submitted r ≡ pump_step io more submitted r
  unfolding pump_step
  pump_step-rest r h =
      let maximum = min (r.total_bytes - r.next_offset) r.chunk_size in
      let got = acquire_permit io maximum r.world in
      elim (Option-cases got.0) [
        | inl e ↦ rw (pump_step, e) refl
        | inr ((token, size), e) ↦
            rw (pump_step, e) (use_permit-rest maximum token size (record r { world = got.1 }) h)
      ]

module _ {W : Type 0} (io : RingWorld W) where
  pump_loop_more :
      (fuel : ℕ) (submitted : Bool) (r : Ring W)
      → r.depth < fuel + length r.in_flight
      → pump_loop io (suc fuel) submitted r ≡ pump_loop io fuel submitted r
  unfolding pump_loop may_pump
  pump_loop_more zero submitted r h = let e : may_pump io r ≡ false = ground arith in rw e refl
  pump_loop_more (suc fuel) submitted r h = elim (Bool-cases (may_pump io r)) [
    | inl e ↦ rw e (
        pump_step-rest io (pump_loop io (suc fuel) true) (pump_loop io fuel true) submitted r
          (λ u d l. pump_loop_more fuel true u (omega arith)))
    | inr e ↦ rw e refl
  ]

  pump_loop_extra :
      (extra fuel : ℕ) (submitted : Bool) (r : Ring W)
      → fuel ≡ extra + suc r.depth
      → pump_loop io fuel submitted r ≡ pump_loop io (suc r.depth) submitted r
  pump_loop_extra zero fuel submitted r e =
      let same : fuel ≡ suc r.depth = omega arith in rw same refl
  pump_loop_extra (suc extra) zero submitted r e = absurd (omega arith)
  pump_loop_extra (suc extra) (suc fuel) submitted r e =
      pump_loop_more fuel submitted r (omega arith)
      ∙ pump_loop_extra extra fuel submitted r (omega arith)

  -- The loop of `pump` ends: the `depth + 1` rounds that the model gives it are enough, and with any
  -- larger number of rounds the ring and the answer are the same.
  pub pump_loop_enough :
      (fuel : ℕ) (submitted : Bool) (r : Ring W)
      → r.depth < fuel
      → pump_loop io fuel submitted r ≡ pump_loop io (suc r.depth) submitted r
  pump_loop_enough fuel submitted r h =
      pump_loop_extra (fuel - suc r.depth) fuel submitted r (omega arith)
