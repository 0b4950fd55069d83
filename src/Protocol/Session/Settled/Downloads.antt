-- ===== src/Protocol/Session/Settled/Downloads.antt =====
-- How `download` and `download_source` leave the session.
use kairos_boot.Base.{
  ℕ, zero, suc, ◌+◌, ◌≤◌, ◌<◌, ◌≡◌, refl, Bytes, Option, none, some, List, [], ◌∷◌, ◌++◌, length,
  arith, length-append, inl, inr, ltb, Bool-cases, Option-cases,
}
use kairos_boot.Protocol.Response.{Response, u32_max}
use kairos_boot.Protocol.Transport.{World, Observer, TransferSource, fully_transferred}
use kairos_boot.Protocol.Session.{
  Session, SessionState, ready, CommandResult, awaiting_response, writing_command, downloading,
  initial_response, command_write, data_write,
}
use kairos_boot.Protocol.Session.Exec.{
  Exec, Outcome, returns, fails, out_of_fuel, set_state, resume, ◌>>=◌, ◌>>◌,
}
use kairos_boot.Protocol.Session.Io.{begin, write_source, write_exact, read_response, heard}
use kairos_boot.Protocol.Session.Download.{
  Initial, finished, accepted, size_step, download_step, download_loop, check_streaming,
  send_payload, repoison, after_initial, download_locked, download, download_from, download_source,
  download_command,
}
use kairos_boot.Protocol.Session.Steps.{
  SameConfig, Steps, bind-Steps, begin-Steps, write_exact-Steps, write_source-Steps,
  read_response-Steps,
}
use kairos_boot.Protocol.Session.Settled.{
  IsTerminal, Settled, locked-Settled, resume-Begins, write_then_read-Settled,
}

module _ {W : Type 0} where
  -- What stands before the data phase: a FAIL that ends the operation, or the right length.
  abbrev Announces : ℕ → Session W → Outcome Initial × Session W → Type 0
  Announces size s (returns (finished r), t) =
      SameConfig s t
      × (t.state ≡ ready)
      × (t.poison_error ≡ s.poison_error)
      × IsTerminal r.terminal.kind
      × (length r.informational ≤ s.options.max_informational_responses)
  Announces size s (returns (accepted n informational), t) =
      SameConfig s t
      × (n ≡ size)
      × (t.poison_error ≡ s.poison_error)
      × (length informational ≤ s.options.max_informational_responses)
  Announces size s (fails e, t) =
      SameConfig s t × (t.state ≡ SessionState.poisoned) × (t.poison_error ≡ some e)
  Announces size s (out_of_fuel, t) = ⊥

  Announces-trans :
      (size : ℕ) (s t : Session W) (p : Outcome Initial × Session W)
      → SameConfig s t
      → t.poison_error ≡ s.poison_error
      → Announces size t p
      → Announces size s p
  Announces-trans size s t (returns (finished r), u) same pe h = ground arith
  Announces-trans size s t (returns (accepted n l), u) same pe h = ground arith
  Announces-trans size s t (fails e, u) same pe h = ground arith
  Announces-trans size s t (out_of_fuel, u) same pe h = h

module _ {W : Type 0} (io : World W) where
  size_step-Announces :
      (size : ℕ) (informational : List Response) (o : Option ℕ) (s : Session W)
      → length informational ≤ s.options.max_informational_responses
      → Announces size s (size_step io size informational o s)
  unfolding size_step
  size_step-Announces size informational none s h = ground arith
  size_step-Announces size informational (some n) s h = ground arith

  download_step-Announces :
      (rest : List Response → Exec W Initial) (size : ℕ) (informational : List Response)
      (r : Response) (s : Session W)
      → length informational ≤ s.options.max_informational_responses
      → (length informational < s.options.max_informational_responses
          → Announces size s (rest (informational ++ r ∷ []) s))
      → Announces size s (download_step io rest size informational r s)
  unfolding download_step heard
  download_step-Announces rest size informational r s h next =
      ground (arith, size_step-Announces size informational r.data_size s)

  download_loop-Announces :
      (fuel size : ℕ) (informational : List Response) (s : Session W)
      → length informational ≤ s.options.max_informational_responses
      → s.options.max_informational_responses < fuel + length informational
      → Announces size s (download_loop io fuel size informational s)
  unfolding download_loop
  download_loop-Announces zero size informational s h f = absurd (omega arith)
  download_loop-Announces (suc fuel) size informational s h f =
      bind-Steps (Announces size s) s
        (read_response io initial_response fully_transferred informational)
        (download_step io (download_loop io fuel size) size informational)
        (read_response-Steps io initial_response fully_transferred informational s)
        (λ r t same st pe. Announces-trans size s t _ same pe (
          download_step-Announces (download_loop io fuel size) size informational r t
            (rw same.options h)
            (λ more.
              download_loop-Announces fuel size (informational ++ r ∷ []) t
                (omega (arith, length-append informational (r ∷ [])))
                (rw same.options (omega (arith, length-append informational (r ∷ [])))))))
        (λ e t same st pe. (same, st, pe))

  repoison-Steps :
      (informational : List Response) (m : Exec W (Unit {0})) (s : Session W)
      → Steps s (m s)
      → Steps s (repoison io informational m s)
  unfolding repoison
  repoison-Steps informational m s h = ground arith

  send_payload-Steps :
      (size : ℕ) (bytes : Bytes) (source : Option TransferSource) (observer : Option (Observer W))
      (informational : List Response) (s : Session W)
      → Steps s (repoison io informational (send_payload io size bytes source observer) s)
  unfolding send_payload repoison
  send_payload-Steps size bytes none observer informational s =
      repoison-Steps informational (write_exact io bytes data_write) s
        (write_exact-Steps io bytes data_write s)
  send_payload-Steps size bytes (some source) observer informational s =
      elim (Option-cases io.write_source) [
        | inl e ↦ rw (e, send_payload) (ground arith)
        | inr (streaming, e) ↦
            rw (e, send_payload)
              (repoison-Steps informational (write_source io streaming source size observer) s
                (write_source-Steps io streaming source size observer s))
      ]

  after_initial-Settled :
      (size : ℕ) (bytes : Bytes) (source : Option TransferSource) (observer : Option (Observer W))
      (s t : Session W) (p : Outcome Initial × Session W)
      → s.state ≡ ready
      → SameConfig s t
      → t.poison_error ≡ s.poison_error
      → Announces size t p
      → Settled s (resume p.0 (after_initial io bytes source observer) p.1)
  unfolding after_initial
  after_initial-Settled size bytes source observer s t (returns (finished r), u) rs same pe h =
      ground arith
  after_initial-Settled size bytes source observer s t (returns (accepted n l), u) rs same pe h =
      write_then_read-Settled io s (record u { state = downloading })
        (repoison io l (send_payload io n bytes source observer)) l rs (ground arith) (ground arith)
        (ground arith)
        (send_payload-Steps n bytes source observer l (record u { state = downloading }))
  after_initial-Settled size bytes source observer s t (fails e, u) rs same pe h =
      inr (ground arith)
  after_initial-Settled size bytes source observer s t (out_of_fuel, u) rs same pe h = h

  begun-Settled :
      (size : ℕ) (bytes : Bytes) (source : Option TransferSource) (observer : Option (Observer W))
      (s : Session W)
      → s.state ≡ ready
      → Settled s (
          (do
            set_state writing_command
            write_exact io (download_command size) command_write
            set_state awaiting_response
            initial ← download_loop io (suc s.options.max_informational_responses) size []
            after_initial io bytes source observer initial)
            s)
  begun-Settled size bytes source observer s rs =
      bind-Steps (Settled s) (record s { state = writing_command })
        (write_exact io (download_command size) command_write) _
        (write_exact-Steps io (download_command size) command_write _)
        (λ _ t same st pe.
          after_initial-Settled size bytes source observer s
            (record t { state = awaiting_response }) _ rs (ground arith) pe
            (download_loop-Announces (suc s.options.max_informational_responses) size [] _
              (omega arith) (rw same.options (omega arith))))
        (λ e t same st pe. inr (rs, ground arith, st, pe))

  check_streaming-Settled :
      (source : Option TransferSource) (f : Unit {0} → Exec W CommandResult) (s : Session W)
      → Settled s (f tt s)
      → Settled s ((check_streaming io source >>= f) s)
  unfolding check_streaming
  check_streaming-Settled none f s h = h
  check_streaming-Settled (some source) f s h = elim (Option-cases io.write_source) [
    | inl e ↦ rw (e, check_streaming) (inl refl)
    | inr (streaming, e) ↦ rw (e, check_streaming) h
  ]

  download_locked-Settled :
      (size : ℕ) (bytes : Bytes) (source : Option TransferSource) (observer : Option (Observer W))
      (s : Session W)
      → Settled s (download_locked io size bytes source observer s)
  unfolding download_locked
  download_locked-Settled size bytes source observer s =
      resume-Begins (Settled s) (download_command size) s (begin io (download_command size) s) _
        (begin-Steps io (download_command size) s)
        (λ rs. check_streaming-Settled source _ s (begun-Settled size bytes source observer s rs))
        (λ e t h. h)

  -- `download` settles the session as `command` does: ready behind a result, and behind a failure
  -- either as it was or poisoned with the error returned.
  pub download-Settled : (bytes : Bytes) (s : Session W) → Settled s (download io bytes s)
  unfolding download
  download-Settled bytes s = locked-Settled io _ s (elim (Bool-cases (ltb u32_max (length bytes))) [
    | inl big ↦ rw big (inl refl)
    | inr fits ↦ rw fits (download_locked-Settled (length bytes) bytes none none s)
  ])

  download_from-Settled :
      (source : Option TransferSource) (observer : Option (Observer W)) (s : Session W)
      → Settled s (download_from io source observer s)
  unfolding download_from
  download_from-Settled none observer s = inl refl
  download_from-Settled (some source) observer s = elim (Bool-cases (ltb u32_max source.size)) [
    | inl big ↦ rw big (inl refl)
    | inr fits ↦ rw fits (download_locked-Settled source.size [] (some source) observer s)
  ]

  -- So does `download_source`, for every source, a null pointer included, and every observer.
  pub download_source-Settled :
      (source : Option TransferSource) (observer : Option (Observer W)) (s : Session W)
      → Settled s (download_source io source observer s)
  unfolding download_source
  download_source-Settled source observer s =
      locked-Settled io (download_from io source observer) s
        (download_from-Settled source observer s)
