-- ===== src/Protocol/Session/Settled/Receives.antt =====
-- How `receive_to_sink` leaves the session.
use kairos_boot.Base.{ℕ, ◌≤◌, ◌<◌, ◌≡◌, ◌⊎◌, Option, none, some, List, length}
use kairos_boot.Protocol.Response.{Response, ResponseKind, fail}
use kairos_boot.Protocol.Transport.{fully_transferred}
use kairos_boot.Protocol.Session.{
  Session, SessionState, ready, ProtocolError, CommandResult, initial_response, unexpected_response,
}
use kairos_boot.Protocol.Session.Exec.{Exec, Outcome, returns, fails, out_of_fuel}
use kairos_boot.Protocol.Session.Io.{unexpected_reply}
use kairos_boot.Protocol.Session.Download.{Initial, finished, accepted}
use kairos_boot.Protocol.Session.Receive.{received_then_failed}
use kairos_boot.Protocol.Session.Steps.{SameConfig}
use kairos_boot.Protocol.Session.Settled.{IsTerminal}

-- The stored error is the one returned, or the one returned but for what it says of the payload.
abbrev pub StoredAs : ProtocolError → Option ProtocolError → Type 0
StoredAs e stored =
    (stored ≡ some e)
    ⊎ ((n : ℕ) × (e' : ProtocolError) × (stored ≡ some e') × (e ≡ received_then_failed n e'))

-- The error for an OKAY in place of the payload's length.
abbrev pub IsPremature : ProtocolError → Type 0
IsPremature e =
    (informational : List Response) × (e
      ≡ unexpected_reply unexpected_response
          "Fastboot receive command completed without a DATA response" initial_response
          fully_transferred informational)

module _ {W : Type 0} where
  -- A failure poisons the session, but for an OKAY in place of the payload's length.
  abbrev Announces : ℕ → Session W → Outcome Initial × Session W → Type 0
  Announces maximum s (returns (finished r), t) =
      SameConfig s t
      × (t.state ≡ ready)
      × (t.poison_error ≡ s.poison_error)
      × (r.terminal.kind ≡ ResponseKind.fail)
      × (length r.informational ≤ s.options.max_informational_responses)
      × (r.inbound_expected ≡ none)
  Announces maximum s (returns (accepted n informational), t) =
      SameConfig s t
      × (0 < n)
      × (n ≤ maximum)
      × (t.poison_error ≡ s.poison_error)
      × (length informational ≤ s.options.max_informational_responses)
  Announces maximum s (fails e, t) =
      SameConfig s t
      × (((t.state ≡ SessionState.poisoned) × (t.poison_error ≡ some e))
          ⊎ ((t.state ≡ ready) × (t.poison_error ≡ s.poison_error) × IsPremature e))
  Announces maximum s (out_of_fuel, t) = ⊥

  -- A result is a FAIL before any payload, or comes with a whole payload within the caller's limit. A
  -- failure leaves the session as it was, or ready (an OKAY in place of the length), or poisoned.
  abbrev pub Received : ℕ → Session W → Outcome CommandResult × Session W → Type 0
  Received maximum s (returns r, t) =
      (s.state ≡ ready)
      × SameConfig s t
      × (t.state ≡ ready)
      × (t.poison_error ≡ s.poison_error)
      × IsTerminal r.terminal.kind
      × (length r.informational ≤ s.options.max_informational_responses)
      × (((r.terminal.kind ≡ ResponseKind.fail) × (r.inbound_expected ≡ none))
          ⊎ ((0 < r.inbound_transferred)
              × (r.inbound_transferred ≤ maximum)
              × (r.inbound_expected ≡ some r.inbound_transferred)
              × (r.inbound_certainty ≡ fully_transferred)))
  Received maximum s (fails e, t) =
      (t ≡ s)
      ⊎ ((s.state ≡ ready)
          × SameConfig s t
          × (((t.state ≡ SessionState.poisoned) × StoredAs e t.poison_error)
              ⊎ ((t.state ≡ ready) × (t.poison_error ≡ s.poison_error) × IsPremature e)))
  Received maximum s (out_of_fuel, t) = ⊥
