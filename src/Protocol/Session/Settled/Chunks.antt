-- ===== src/Protocol/Session/Settled/Chunks.antt =====
-- The data loop of `receive_locked`: its rounds, and how it leaves the session.
use kairos_boot.Base.{
  ℕ, zero, suc, ◌+◌, ◌-◌, ◌≤◌, ◌<◌, ◌≡◌, Bytes, true, false, Option, none, some, List, length, take,
  min, arith, inl, inr, ltb, Bool-cases,
}
use kairos_boot.Protocol.Response.{Response}
use kairos_boot.Protocol.Transport.{World, Observer, TransferResult}
use kairos_boot.Protocol.Session.{Session, SessionState, is_ok, is_full}
use kairos_boot.Protocol.Session.Exec.{Exec, Outcome, returns, fails, out_of_fuel, resume}
use kairos_boot.Protocol.Session.Receive.{
  transfer_fault, sink_fault, store_first, abandon, receive_failure, chunk_observed, chunk_stored,
  chunk, chunk_loop,
}
use kairos_boot.Protocol.Session.Steps.{SameConfig, Steps, Steps-trans}

pub transfer_fault-none :
    (committed requested : ℕ) (r : TransferResult)
    → transfer_fault committed requested r ≡ none
    → (0 < r.transferred) × (r.transferred ≤ requested)
unfolding transfer_fault
transfer_fault-none committed requested r h = ground arith

pub sink_fault-none :
    (committed size : ℕ) (r : TransferResult)
    → sink_fault committed size r ≡ none
    → (r.transferred ≡ size)
      × (is_ok r.status ≡ true)
      × (is_full r.certainty ≡ true)
      × (r.truncated ≡ false)
unfolding sink_fault
sink_fault-none committed size r h = ground arith

module _ {W : Type 0} where
  -- A round of the data loop moves the count on, within what was announced.
  abbrev Moves : ℕ → ℕ → Session W → Outcome (Bytes × ℕ) × Session W → Type 0
  Moves announced committed s (returns (buffer, c), t) =
      SameConfig s t
      × (t.state ≡ s.state)
      × (t.poison_error ≡ s.poison_error)
      × (committed < c)
      × (c ≤ announced)
  Moves announced committed s (fails e, t) =
      SameConfig s t × (t.state ≡ SessionState.poisoned) × (t.poison_error ≡ some e)
  Moves announced committed s (out_of_fuel, t) = ⊥

module _ {W : Type 0} (io : World W) where
  chunk_observed-Moves :
      (announced : ℕ) (observer : Option (Observer W)) (informational : List Response)
      (before committed : ℕ) (buffer : Bytes) (s : Session W)
      → before < committed
      → committed ≤ announced
      → Moves announced before s
          (chunk_observed io announced observer informational committed buffer s)
  unfolding chunk_observed receive_failure abandon
  chunk_observed-Moves announced observer informational before committed buffer s h g = ground arith

  chunk_stored-Moves :
      (announced : ℕ) (observer : Option (Observer W)) (informational : List Response)
      (committed : ℕ) (buffer : Bytes) (size : ℕ) (s : Session W)
      → 0 < size
      → committed + size ≤ announced
      → Moves announced committed s
          (chunk_stored io announced observer informational committed buffer size s)
  unfolding chunk_stored receive_failure abandon
  chunk_stored-Moves announced observer informational committed buffer size s h g =
      let w = (io.sink_write committed (take size buffer) s.world).1 in
      ground (
        arith,
        chunk_observed-Moves announced observer informational committed (committed + size) buffer
            (record s { world = w }),
      )

  chunk-Moves :
      (announced : ℕ) (observer : Option (Observer W)) (informational : List Response)
      (committed : ℕ) (buffer : Bytes) (s : Session W)
      → committed < announced
      → Moves announced committed s (chunk io announced observer informational committed buffer s)
  unfolding chunk receive_failure abandon
  chunk-Moves announced observer informational committed buffer s h =
      let requested = min (length buffer) (announced - committed) in
      let r = (io.read_data requested s.options.io_timeout s.world).0 in
      let stored = (io.read_data requested s.options.io_timeout s.world).1 in
      let w = (io.read_data requested s.options.io_timeout s.world).2 in
      ground (
        arith,
        transfer_fault-none committed requested r,
        chunk_stored-Moves announced observer informational committed
            (store_first requested buffer stored) r.transferred (record s { world = w }),
      )

  resume-Moves :
      (announced committed : ℕ) (s : Session W) (p : Outcome (Bytes × ℕ) × Session W)
      (f : Bytes × ℕ → Exec W (Unit {0}))
      → Moves announced committed s p
      → ((b : Bytes) (c : ℕ) (t : Session W) → committed < c → c ≤ announced → Steps t (f (b, c) t))
      → Steps s (resume p.0 f p.1)
  resume-Moves announced committed s (returns (b, c), t) f h next =
      Steps-trans (f (b, c) t) h.0 h.1 h.2 (next b c t h.3 h.4)
  resume-Moves announced committed s (fails e, t) f h next = h
  resume-Moves announced committed s (out_of_fuel, t) f h next = h

  pub chunk_loop-Steps :
      (fuel announced : ℕ) (observer : Option (Observer W)) (informational : List Response)
      (committed : ℕ) (buffer : Bytes) (s : Session W)
      → announced ≤ committed + fuel
      → Steps s (chunk_loop io fuel announced observer informational committed buffer s)
  unfolding chunk_loop
  chunk_loop-Steps zero announced observer informational committed buffer s h = ground arith
  chunk_loop-Steps (suc fuel) announced observer informational committed buffer s h =
      elim (Bool-cases (ltb committed announced)) [
        | inl more ↦ rw more (
            resume-Moves announced committed s _ _
              (chunk-Moves announced observer informational committed buffer s (ground arith))
              (λ b c t h' g.
                chunk_loop-Steps fuel announced observer informational c b t (omega arith)))
        | inr done ↦ rw done (ground arith)
      ]
