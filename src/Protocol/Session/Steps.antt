-- ===== src/Protocol/Session/Steps.antt =====
-- What the locked helpers of `FastbootSession` do to the session.
use kairos_boot.Base.{
  ℕ, zero, suc, ◌+◌, ◌≤◌, ◌<◌, ◌≡◌, ◌⊎◌, Bytes, true, false, Option, none, some, List, [], ◌∷◌,
  length, drop, arith, length-drop,
}
use kairos_boot.Protocol.Response.{Response}
use kairos_boot.Protocol.Transport.{
  World, Observer, TransferSource, TransferResult, TransferCertainty,
}
use kairos_boot.Protocol.Session.{
  Session, SessionState, ready, ProtocolError, ProtocolPhase, is_ok, is_full,
}
use kairos_boot.Protocol.Session.Exec.{Exec, Outcome, returns, fails, out_of_fuel, resume, ◌>>=◌}
use kairos_boot.Protocol.Session.Io.{
  write_fault, begin, write_loop, write_exact, write_source, read_response,
}

module _ {W : Type 0} where
  -- All but the state, the stored error and the world.
  pub record SameConfig (s t : Session W) : Type 0 where
    pub options : t.options ≡ s.options
    pub has_transport : t.has_transport ≡ s.has_transport
    pub mutex_held : t.mutex_held ≡ s.mutex_held
    pub cancellation_requested : t.cancellation_requested ≡ s.cancellation_requested

  pub SameConfig-refl : (s : Session W) → SameConfig s s
  SameConfig-refl s = ground arith

  pub SameConfig-trans : {s t u : Session W} → SameConfig s t → SameConfig t u → SameConfig s u
  SameConfig-trans h g = ground arith

  abbrev pub Steps : {A : Type 0} → Session W → Outcome A × Session W → Type 0
  Steps s (returns a, t) = SameConfig s t × (t.state ≡ s.state) × (t.poison_error ≡ s.poison_error)
  Steps s (fails e, t) =
      SameConfig s t × (t.state ≡ SessionState.poisoned) × (t.poison_error ≡ some e)
  Steps s (out_of_fuel, t) = ⊥

  pub Steps-trans :
      {A : Type 0} {s t : Session W} (p : Outcome A × Session W)
      → SameConfig s t
      → t.state ≡ s.state
      → t.poison_error ≡ s.poison_error
      → Steps t p
      → Steps s p
  Steps-trans (returns a, u) same st pe h = ground arith
  Steps-trans (fails e, u) same st pe h = ground arith
  Steps-trans (out_of_fuel, u) same st pe h = h

-- What `begin_locked` lets through, and how it refuses.
abbrev pub Begins : {W : Type 0} → Bytes → Session W → Outcome (Unit {0}) × Session W → Type 0
Begins line s (returns u, t) =
    (t ≡ s)
    × (s.state ≡ ready)
    × (s.cancellation_requested ≡ false)
    × (0 < length line)
    × (length line ≤ s.options.max_command_bytes)
Begins line s (fails e, t) =
    (t ≡ s)
    ⊎ ((s.state ≡ ready)
        × SameConfig s t
        × (t.state ≡ SessionState.poisoned)
        × (t.poison_error ≡ some e))
Begins line s (out_of_fuel, t) = ⊥

-- The rules by which a step stands at the head of an operation.
module _ {W A B : Type 0} (P : Outcome B × Session W → Type 0) (s : Session W) where
  resume-Steps :
      (p : Outcome A × Session W) (f : A → Exec W B)
      → Steps s p
      → ((a : A) (t : Session W)
          → SameConfig s t
          → t.state ≡ s.state
          → t.poison_error ≡ s.poison_error
          → P (f a t))
      → ((e : ProtocolError) (t : Session W)
          → SameConfig s t
          → t.state ≡ SessionState.poisoned
          → t.poison_error ≡ some e
          → P (fails e, t))
      → P (resume p.0 f p.1)
  resume-Steps (returns a, t) f h go stop = go a t h.0 h.1 h.2
  resume-Steps (fails e, t) f h go stop = stop e t h.0 h.1 h.2
  resume-Steps (out_of_fuel, t) f h go stop = absurd h

  pub bind-Steps :
      (m : Exec W A) (f : A → Exec W B)
      → Steps s (m s)
      → ((a : A) (t : Session W)
          → SameConfig s t
          → t.state ≡ s.state
          → t.poison_error ≡ s.poison_error
          → P (f a t))
      → ((e : ProtocolError) (t : Session W)
          → SameConfig s t
          → t.state ≡ SessionState.poisoned
          → t.poison_error ≡ some e
          → P (fails e, t))
      → P ((m >>= f) s)
  bind-Steps m f h go stop = resume-Steps (m s) f h go stop

-- A write that goes on has moved something, and no more than was asked.
pub write_fault-none :
    (phase : ProtocolPhase) (offset n : ℕ) (r : TransferResult)
    → write_fault phase offset n r ≡ none
    → (0 < r.transferred)
      × (r.transferred ≤ n)
      × (is_ok r.status ≡ true)
      × (is_full r.certainty ≡ true)
      × (r.truncated ≡ false)
unfolding write_fault
write_fault-none phase offset n r h = ground arith

module _ {W : Type 0} (io : World W) where
  pub write_loop-Steps :
      (phase : ProtocolPhase) (fuel offset : ℕ) (bytes : Bytes) (s : Session W)
      → length bytes ≤ fuel
      → Steps s (write_loop io phase fuel offset bytes s)
  unfolding write_loop
  write_loop-Steps phase zero offset [] s h = ground arith
  write_loop-Steps phase zero offset (b ∷ bs) s h = absurd (omega arith)
  write_loop-Steps phase (suc fuel) offset [] s h = ground arith
  write_loop-Steps phase (suc fuel) offset (b ∷ bs) s h =
      let r = (io.write (b ∷ bs) s.options.io_timeout s.world).0 in
      let w = (io.write (b ∷ bs) s.options.io_timeout s.world).1 in
      ground (
        arith,
        write_fault-none phase offset (length (b ∷ bs)) r,
        length-drop r.transferred (b ∷ bs),
        write_loop-Steps phase fuel (offset + r.transferred) (drop r.transferred (b ∷ bs))
            (record s { world = w }),
      )

  pub read_response-Steps :
      (phase : ProtocolPhase) (outbound : TransferCertainty) (informational : List Response)
      (s : Session W)
      → Steps s (read_response io phase outbound informational s)
  unfolding read_response
  read_response-Steps phase outbound informational s = ground arith

  pub begin-Steps : (line : Bytes) (s : Session W) → Begins line s (begin io line s)
  unfolding begin
  begin-Steps line s = ground arith

  pub write_exact-Steps :
      (bytes : Bytes) (phase : ProtocolPhase) (s : Session W)
      → Steps s (write_exact io bytes phase s)
  unfolding write_exact
  write_exact-Steps bytes phase s = write_loop-Steps phase (length bytes) 0 bytes s (omega arith)

  pub write_source-Steps :
      (streaming : TransferSource → ℕ → Option (Observer W) → W → TransferResult × W)
      (source : TransferSource) (size : ℕ) (observer : Option (Observer W)) (s : Session W)
      → Steps s (write_source io streaming source size observer s)
  unfolding write_source
  write_source-Steps streaming source size observer s = ground arith
