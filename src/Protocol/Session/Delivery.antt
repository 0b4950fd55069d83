-- ===== src/Protocol/Session/Delivery.antt =====
-- What the device has taken, and what `command` sends it.
pub mod Payload
use kairos_boot.Base.{
  ℕ, zero, suc, ◌+◌, ◌≤◌, ◌≡◌, ◌∙◌, sym, ap, refl, ◌⊎◌, inl, inr, Bytes, true, false, Bool, Option,
  none, some, List, [], ◌∷◌, ◌++◌, length, take, drop, arith, take-append-drop, if◌then◌else◌,
  Bool-cases, ltb, Option-cases,
}
use mathlib.Core.List.{append_assoc, append-nil}
use kairos_boot.Protocol.Response.{Response, ResponseKind, fail, u32_max}
use kairos_boot.Protocol.Transport.{
  World, Observer, TransferResult, TransferCertainty, fully_transferred,
}
use kairos_boot.Protocol.Session.{
  Session, SessionState, ProtocolPhase, CommandResult, is_ok, is_full, initial_response,
  final_response, command_write, data_write, writing_command, awaiting_response, downloading,
}
use kairos_boot.Protocol.Session.Exec.{
  Exec, Outcome, returns, fails, out_of_fuel, resume, set_state, ◌>>=◌, ◌>>◌,
}
use kairos_boot.Protocol.Session.Io.{
  begin, write_fault, write_loop, write_exact, read_response, parsed_or_poison, heard,
  terminal_step, terminal_loop, read_terminal,
}
use kairos_boot.Protocol.Session.Download.{
  locked, command_locked, command, Initial, finished, accepted, size_step, download_step,
  download_loop, check_streaming, send_payload, repoison, after_initial, download_locked, download,
  download_command,
}
use kairos_boot.Protocol.Session.Steps.{write_fault-none}
use kairos_boot.Protocol.Session.After.{After, After-map, After-poison_or, resume-After, bind-After}

-- What the transport's documentation promises: a successful write has taken the reported number of
-- bytes off the front of the span, and a read of a status frame writes nothing.
pub record StreamLaws {W : Type 0} (io : World W) (taken : W → Bytes) : Type 0 where
  pub write_takes :
      (bytes : Bytes) (timeout : ℕ) (w : W)
      → is_ok (io.write bytes timeout w).0.status ≡ true
      → is_full (io.write bytes timeout w).0.certainty ≡ true
      → (io.write bytes timeout w).0.transferred ≤ length bytes
      → taken (io.write bytes timeout w).1
        ≡ taken w ++ take (io.write bytes timeout w).0.transferred bytes
  pub read_keeps : (size timeout : ℕ) (w : W) → taken (io.read size timeout w).2 ≡ taken w

module _ {W : Type 0} (io : World W) (taken : W → Bytes) (laws : StreamLaws io taken) where
  -- Behind a step that returns, the device has taken these bytes more.
  abbrev pub Sent : {A : Type 0} → Session W → Bytes → A → Session W → Type 0
  Sent s bytes a t = taken t.world ≡ taken s.world ++ bytes

  write_loop-Sent :
      (phase : ProtocolPhase) (fuel offset : ℕ) (bytes : Bytes) (s : Session W)
      → After (Sent s bytes) (write_loop io phase fuel offset bytes s)
  unfolding write_loop
  write_loop-Sent phase zero offset [] s = sym (append-nil (taken s.world))
  write_loop-Sent phase zero offset (b ∷ bs) s = tt
  write_loop-Sent phase (suc fuel) offset [] s = sym (append-nil (taken s.world))
  write_loop-Sent phase (suc fuel) offset (b ∷ bs) s =
      After-poison_or (Sent s (b ∷ bs)) (write_fault phase offset (length (b ∷ bs)) r)
        (write_loop io phase fuel (offset + r.transferred) rest) s'
        λ e.
          After-map (Sent s' rest) (Sent s (b ∷ bs)) _
            (λ a t h. cc (
              h,
              taken_front e,
              append_assoc (taken s.world) (take r.transferred (b ∷ bs)) rest,
              take-append-drop r.transferred (b ∷ bs),
            ))
            (write_loop-Sent phase fuel (offset + r.transferred) rest s')
    where
      r : TransferResult
      r = (io.write (b ∷ bs) s.options.io_timeout s.world).0

      s' : Session W
      s' = record s { world = (io.write (b ∷ bs) s.options.io_timeout s.world).1 }

      rest : Bytes
      rest = drop r.transferred (b ∷ bs)

      taken_front :
          write_fault phase offset (length (b ∷ bs)) r ≡ none
          → taken s'.world ≡ taken s.world ++ take r.transferred (b ∷ bs)
      taken_front e =
          let good = write_fault-none phase offset (length (b ∷ bs)) r e in
          laws.write_takes (b ∷ bs) s.options.io_timeout s.world good.2 good.3 good.1

  write_exact-Sent :
      (bytes : Bytes) (phase : ProtocolPhase) (s : Session W)
      → After (Sent s bytes) (write_exact io bytes phase s)
  unfolding write_exact
  write_exact-Sent bytes phase s = write_loop-Sent phase (length bytes) 0 bytes s

  abbrev pub Quiet : {A : Type 0} → Session W → A → Session W → Type 0
  Quiet s a t = taken t.world ≡ taken s.world

  read_response-Quiet :
      (phase : ProtocolPhase) (outbound : TransferCertainty) (informational : List Response)
      (s : Session W)
      → After (Quiet s) (read_response io phase outbound informational s)
  unfolding read_response
  read_response-Quiet phase outbound informational s =
      ground (arith, laws.read_keeps s.options.max_response_bytes s.options.io_timeout s.world)

  -- A terminal response, with the phase that it was read in.
  abbrev pub Finishes : ProtocolPhase → Session W → CommandResult → Session W → Type 0
  Finishes phase s r t = (taken t.world ≡ taken s.world) × (r.phase ≡ phase)

  terminal_step-Finishes :
      (rest : List Response → Exec W CommandResult) (phase : ProtocolPhase)
      (outbound : TransferCertainty) (informational : List Response) (r : Response) (s : Session W)
      → After (Finishes phase s) (rest (informational ++ r ∷ []) s)
      → After (Finishes phase s) (terminal_step io rest phase outbound informational r s)
  unfolding terminal_step heard
  terminal_step-Finishes rest phase outbound informational r s next = ground arith

  terminal_loop-Finishes :
      (fuel : ℕ) (phase : ProtocolPhase) (outbound : TransferCertainty)
      (informational : List Response) (s : Session W)
      → After (Finishes phase s) (terminal_loop io fuel phase outbound informational s)
  unfolding terminal_loop
  terminal_loop-Finishes zero phase outbound informational s = tt
  terminal_loop-Finishes (suc fuel) phase outbound informational s =
      bind-After (Quiet s) (Finishes phase s) (read_response io phase outbound informational)
        (terminal_step io (terminal_loop io fuel phase outbound) phase outbound informational) s
        (read_response-Quiet phase outbound informational s)
        (λ r t q.
          After-map (Finishes phase t) (Finishes phase s) _ (λ a u h. (h.0 ∙ q, h.1))
            (terminal_step-Finishes (terminal_loop io fuel phase outbound) phase outbound
              informational r t
              (terminal_loop-Finishes fuel phase outbound (informational ++ r ∷ []) t)))

  read_terminal-Finishes :
      (informational : List Response) (phase : ProtocolPhase) (outbound : TransferCertainty)
      (s : Session W)
      → After (Finishes phase s) (read_terminal io informational phase outbound s)
  unfolding read_terminal
  read_terminal-Finishes informational phase outbound s =
      terminal_loop-Finishes _ phase outbound informational s

  begin-Same : (line : Bytes) (s : Session W) → After (λ u t. t ≡ s) (begin io line s)
  unfolding begin
  begin-Same line s = ground arith

  locked-After :
      (Q : CommandResult → Session W → Type 0) (m : Exec W CommandResult) (s : Session W)
      → After Q (m s)
      → After Q (locked io m s)
  unfolding locked
  locked-After Q m s h = ground arith

  -- A write, then the terminal response.
  write_then_read-Sent :
      (bytes : Bytes) (m : Exec W (Unit {0})) (informational : List Response) (t : Session W)
      → After (Sent t bytes) (m t)
      → After
          (λ r u. Sent t bytes r u × (r.phase ≡ final_response))
          ((m >>= λ _.
              set_state awaiting_response
              >> read_terminal io informational final_response fully_transferred)
            t)
  write_then_read-Sent bytes m informational t h =
      bind-After (Sent t bytes) (λ r u. Sent t bytes r u × (r.phase ≡ final_response)) m _ t h
        λ _ u sent.
          After-map (Finishes final_response (record u { state = awaiting_response })) _ _
            (λ r v f. (f.0 ∙ sent, f.1))
            (read_terminal-Finishes informational final_response fully_transferred _)

  command_locked-Sent :
      (line : Bytes) (s : Session W) → After (Sent s line) (command_locked io line s)
  unfolding command_locked
  command_locked-Sent line s =
      bind-After (λ u t. t ≡ s) (Sent s line) (begin io line) _ s (begin-Same line s)
        λ _ t e.
          After-map (λ r u. Sent t line r u × (r.phase ≡ final_response)) (Sent s line) _
            (λ r u h. rw (← e) h.0)
            (write_then_read-Sent line (write_exact io line command_write) []
              (record t { state = writing_command }) (write_exact-Sent line command_write _))

  -- Where `command` returns, the device has taken exactly the command's bytes, after what it had.
  pub command-Sent : (line : Bytes) (s : Session W) → After (Sent s line) (command io line s)
  unfolding command
  command-Sent line s =
      locked-After (Sent s line) (command_locked io line) s (command_locked-Sent line s)
