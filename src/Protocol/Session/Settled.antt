-- ===== src/Protocol/Session/Settled.antt =====
-- How each operation of `FastbootSession` leaves the session, on every branch.
pub mod Downloads
mod Chunks
pub mod Receives
use kairos_boot.Base.{
  ℕ, zero, suc, ◌+◌, ◌-◌, ◌≤◌, ◌<◌, ◌≡◌, ◌⊎◌, refl, Bytes, Bool, true, false, Option, none, some,
  List, [], ◌∷◌, ◌++◌, ◌∙◌, subst, sym, length, drop, arith, length-append, inl, inr,
}
use kairos_boot.Protocol.Response.{Response, ResponseKind, info, text, okay, fail, data_reply}
use kairos_boot.Protocol.Transport.{
  World, Observer, TransferSource, TransferCertainty, fully_transferred,
}
use kairos_boot.Protocol.Session.{
  Session, SessionState, ready, ProtocolError, ProtocolPhase, CommandResult, command_write,
  final_response, initial_response, data_write, awaiting_response, writing_command, downloading,
}
use kairos_boot.Protocol.Session.Exec.{
  Exec, Outcome, returns, fails, out_of_fuel, resume, set_state, ◌>>=◌, ◌>>◌,
}
use kairos_boot.Protocol.Session.Io.{
  begin, write_exact, read_response, heard, terminal_step, terminal_loop, read_terminal,
}
use kairos_boot.Protocol.Session.Download.{
  locked, command_locked, command, Initial, finished, accepted, size_step, download_step,
  download_loop, check_streaming, send_payload, repoison, after_initial, download_locked, download,
  download_source,
}
use kairos_boot.Protocol.Session.Steps.{
  SameConfig, SameConfig-trans, Steps, Begins, bind-Steps, begin-Steps, write_exact-Steps,
  read_response-Steps,
}

abbrev pub IsTerminal : ResponseKind → Type 0
IsTerminal okay = Unit
IsTerminal fail = Unit
IsTerminal info = ⊥
IsTerminal text = ⊥
IsTerminal data_reply = ⊥

module _ {W : Type 0} where
  -- A terminal response makes the session ready again, whether it is OKAY or FAIL.
  abbrev pub Ends : Session W → Outcome CommandResult × Session W → Type 0
  Ends s (returns r, t) =
      SameConfig s t
      × (t.state ≡ ready)
      × (t.poison_error ≡ s.poison_error)
      × IsTerminal r.terminal.kind
      × (length r.informational ≤ s.options.max_informational_responses)
  Ends s (fails e, t) =
      SameConfig s t × (t.state ≡ SessionState.poisoned) × (t.poison_error ≡ some e)
  Ends s (out_of_fuel, t) = ⊥

  Ends-trans :
      (s t : Session W) (p : Outcome CommandResult × Session W)
      → SameConfig s t
      → t.poison_error ≡ s.poison_error
      → Ends t p
      → Ends s p
  Ends-trans s t (returns r, u) same pe h = ground arith
  Ends-trans s t (fails e, u) same pe h = ground arith
  Ends-trans s t (out_of_fuel, u) same pe h = h

module _ {W : Type 0} (io : World W) where
  terminal_step-Ends :
      (rest : List Response → Exec W CommandResult) (phase : ProtocolPhase)
      (outbound : TransferCertainty) (informational : List Response) (r : Response) (s : Session W)
      → length informational ≤ s.options.max_informational_responses
      → (length informational < s.options.max_informational_responses
          → Ends s (rest (informational ++ r ∷ []) s))
      → Ends s (terminal_step io rest phase outbound informational r s)
  unfolding terminal_step heard
  terminal_step-Ends rest phase outbound informational r s h next = ground arith

  terminal_loop-Ends :
      (fuel : ℕ) (phase : ProtocolPhase) (outbound : TransferCertainty)
      (informational : List Response) (s : Session W)
      → length informational ≤ s.options.max_informational_responses
      → s.options.max_informational_responses < fuel + length informational
      → Ends s (terminal_loop io fuel phase outbound informational s)
  unfolding terminal_loop
  terminal_loop-Ends zero phase outbound informational s h f = absurd (omega arith)
  terminal_loop-Ends (suc fuel) phase outbound informational s h f =
      bind-Steps (Ends s) s (read_response io phase outbound informational)
        (terminal_step io (terminal_loop io fuel phase outbound) phase outbound informational)
        (read_response-Steps io phase outbound informational s)
        (λ r t same st pe. Ends-trans s t _ same pe (
          terminal_step-Ends (terminal_loop io fuel phase outbound) phase outbound informational r t
            (rw same.options h)
            (λ more.
              terminal_loop-Ends fuel phase outbound (informational ++ r ∷ []) t
                (omega (arith, length-append informational (r ∷ [])))
                (rw same.options (omega (arith, length-append informational (r ∷ [])))))))
        (λ e t same st pe. (same, st, pe))

  read_terminal-Ends :
      (informational : List Response) (phase : ProtocolPhase) (outbound : TransferCertainty)
      (s : Session W)
      → length informational ≤ s.options.max_informational_responses
      → Ends s (read_terminal io informational phase outbound s)
  unfolding read_terminal
  read_terminal-Ends informational phase outbound s h =
      terminal_loop-Ends _ phase outbound informational s h (omega arith)

module _ {W : Type 0} where
  -- A result leaves a ready session ready; a failure leaves the session as it was, or has poisoned a
  -- ready session and stored the error.
  abbrev pub Settled : Session W → Outcome CommandResult × Session W → Type 0
  Settled s (returns r, t) =
      (s.state ≡ ready)
      × SameConfig s t
      × (t.state ≡ ready)
      × (t.poison_error ≡ s.poison_error)
      × IsTerminal r.terminal.kind
      × (length r.informational ≤ s.options.max_informational_responses)
  Settled s (fails e, t) =
      (t ≡ s)
      ⊎ ((s.state ≡ ready)
          × SameConfig s t
          × (t.state ≡ SessionState.poisoned)
          × (t.poison_error ≡ some e))
  Settled s (out_of_fuel, t) = ⊥

  Settled-of_Ends :
      (s t : Session W) (p : Outcome CommandResult × Session W)
      → s.state ≡ ready
      → SameConfig s t
      → t.poison_error ≡ s.poison_error
      → Ends t p
      → Settled s p
  Settled-of_Ends s t (returns r, u) ready_s same pe h = ground arith
  Settled-of_Ends s t (fails e, u) ready_s same pe h = inr (ground arith)
  Settled-of_Ends s t (out_of_fuel, u) ready_s same pe h = h

  -- `begin_locked` at the head of an operation.
  resume-Begins :
      {A : Type 0} (P : Outcome A × Session W → Type 0) (line : Bytes) (s : Session W)
      (p : Outcome (Unit {0}) × Session W) (f : Unit {0} → Exec W A)
      → Begins line s p
      → (s.state ≡ ready → P (f tt s))
      → ((e : ProtocolError) (t : Session W)
          → (t ≡ s)
            ⊎ ((s.state ≡ ready)
                × SameConfig s t
                × (t.state ≡ SessionState.poisoned)
                × (t.poison_error ≡ some e))
          → P (fails e, t))
      → P (resume p.0 f p.1)
  resume-Begins P line s (returns tt, t) f h go stop = subst (λ u. P (f tt u)) (sym h.0) (go h.1)
  resume-Begins P line s (fails e, t) f h go stop = stop e t h
  resume-Begins P line s (out_of_fuel, t) f h go stop = absurd h

  refused-Settled : (s : Session W) (e : ProtocolError) → Settled s (fails e, s)
  refused-Settled s e = inl refl

  locked-Settled :
      (io : World W) (m : Exec W CommandResult) (s : Session W)
      → Settled s (m s)
      → Settled s (locked io m s)
  unfolding locked
  locked-Settled io m s h = ground arith

module _ {W : Type 0} (io : World W) where
  -- The last step: a write, then the terminal response.
  write_then_read-Settled :
      (s t : Session W) (m : Exec W (Unit {0})) (informational : List Response)
      → s.state ≡ ready
      → SameConfig s t
      → t.poison_error ≡ s.poison_error
      → length informational ≤ s.options.max_informational_responses
      → Steps t (m t)
      → Settled s (
          (m >>= λ _.
          set_state awaiting_response
          >> read_terminal io informational final_response fully_transferred)
            t)
  write_then_read-Settled s t m informational rs same pe h st =
      bind-Steps (Settled s) t m _ st
        (λ _ u same' _ pe'.
          Settled-of_Ends s (record u { state = awaiting_response }) _ rs (ground arith) (pe' ∙ pe)
            (read_terminal-Ends io informational final_response fully_transferred _
              (rw (same'.options, same.options) h)))
        (λ e u same' st' pe'. inr (rs, SameConfig-trans same same', st', pe'))

  command_locked-Settled : (line : Bytes) (s : Session W) → Settled s (command_locked io line s)
  unfolding command_locked
  command_locked-Settled line s =
      resume-Begins (Settled s) line s (begin io line s) _ (begin-Steps io line s)
        (λ rs.
          write_then_read-Settled s (record s { state = writing_command })
            (write_exact io line command_write) [] rs (ground arith) refl (omega arith)
            (write_exact-Steps io line command_write _))
        (λ e t h. h)

  -- `command` returns only with OKAY or FAIL, from a ready session that stays ready; any failure is a
  -- refusal that changes nothing or has poisoned the session with the error returned.
  pub command-Settled : (line : Bytes) (s : Session W) → Settled s (command io line s)
  unfolding command
  command-Settled line s =
      locked-Settled io (command_locked io line) s (command_locked-Settled line s)
