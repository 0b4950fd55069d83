-- ===== src/Protocol/Session/Delivery/Payload.antt =====
-- What a download sends: the `download:` command, and the payload where the device asked for it.
use kairos_boot.Base.{
  ℕ, zero, suc, ◌≡◌, ◌∙◌, ◌⊎◌, inl, inr, Bytes, none, List, [], ◌∷◌, ◌++◌, length, arith,
  Bool-cases, ltb,
}
use mathlib.Core.List.{append_assoc}
use kairos_boot.Protocol.Response.{Response, fail, u32_max}
use kairos_boot.Protocol.Transport.{World, fully_transferred}
use kairos_boot.Protocol.Session.{
  Session, CommandResult, initial_response, final_response, command_write, data_write,
  writing_command, awaiting_response, downloading,
}
use kairos_boot.Protocol.Session.Exec.{Exec}
use kairos_boot.Protocol.Session.Io.{begin, write_exact, read_response, heard}
use kairos_boot.Protocol.Session.Download.{
  Initial, finished, accepted, size_step, download_step, download_loop, check_streaming,
  send_payload, repoison, after_initial, download_locked, download, download_command,
}
use kairos_boot.Protocol.Session.After.{After, After-map, bind-After}
use kairos_boot.Protocol.Session.Delivery
use kairos_boot.Protocol.Session.Delivery.{StreamLaws}

module _ {W : Type 0} (io : World W) (taken : W → Bytes) (laws : StreamLaws io taken) where
  -- The responses before the data phase: a FAIL ends the operation there.
  abbrev Answers : Session W → Initial → Session W → Type 0
  Answers s (finished r) t =
      (taken t.world ≡ taken s.world) × (r.phase ≡ initial_response) × (r.terminal.kind ≡ fail)
  Answers s (accepted n informational) t = taken t.world ≡ taken s.world

  download_step-Answers :
      (rest : List Response → Exec W Initial) (size : ℕ) (informational : List Response)
      (r : Response) (s : Session W)
      → After (Answers s) (rest (informational ++ r ∷ []) s)
      → After (Answers s) (download_step io rest size informational r s)
  unfolding download_step size_step heard
  download_step-Answers rest size informational r s next = ground arith

  Answers-trans :
      (s t : Session W) (i : Initial) (u : Session W)
      → taken t.world ≡ taken s.world
      → Answers t i u
      → Answers s i u
  Answers-trans s t (finished r) u q h = (h.0 ∙ q, h.1, h.2)
  Answers-trans s t (accepted n l) u q h = h ∙ q

  download_loop-Answers :
      (fuel size : ℕ) (informational : List Response) (s : Session W)
      → After (Answers s) (download_loop io fuel size informational s)
  unfolding download_loop
  download_loop-Answers zero size informational s = tt
  download_loop-Answers (suc fuel) size informational s =
      bind-After (λ r t. taken t.world ≡ taken s.world) (Answers s)
        (read_response io initial_response fully_transferred informational)
        (download_step io (download_loop io fuel size) size informational) s
        (Delivery.read_response-Quiet io taken laws initial_response fully_transferred informational
          s)
        λ r t q.
          After-map (Answers t) (Answers s) _ (λ i u h. Answers-trans s t i u q h)
            (download_step-Answers (download_loop io fuel size) size informational r t
              (download_loop-Answers fuel size (informational ++ r ∷ []) t))

  repoison-After :
      (Q : Unit {0} → Session W → Type 0) (informational : List Response) (m : Exec W (Unit {0}))
      (s : Session W)
      → After Q (m s)
      → After Q (repoison io informational m s)
  unfolding repoison
  repoison-After Q informational m s h = ground arith

  -- The two ways in which a download returns.
  abbrev pub Delivered : ℕ → Bytes → Session W → CommandResult → Session W → Type 0
  Delivered size bytes s r t =
      ((r.phase ≡ final_response)
        × (taken t.world ≡ taken s.world ++ (download_command size ++ bytes)))
      ⊎ ((r.phase ≡ initial_response)
          × (r.terminal.kind ≡ fail)
          × (taken t.world ≡ taken s.world ++ download_command size))

  after_initial-Delivered :
      (size : ℕ) (bytes : Bytes) (s t : Session W) (i : Initial)
      → taken t.world ≡ taken s.world ++ download_command size
      → (u : Session W) → Answers t i u
      → After (Delivered size bytes s) (after_initial io bytes none none i u)
  unfolding after_initial send_payload
  after_initial-Delivered size bytes s t (finished r) q u h = inr (h.1, h.2, h.0 ∙ q)
  after_initial-Delivered size bytes s t (accepted n l) q u h =
      After-map (λ r v. (taken v.world ≡ taken u.world ++ bytes) × (r.phase ≡ final_response))
        (Delivered size bytes s) _
        (λ r v f.
          inl (f.1, cc (f.0, h, q, append_assoc (taken s.world) (download_command size) bytes)))
        (Delivery.write_then_read-Sent io taken laws bytes
          (repoison io l (write_exact io bytes data_write)) l (record u { state = downloading })
          (repoison-After _ l (write_exact io bytes data_write) _
            (Delivery.write_exact-Sent io taken laws bytes data_write _)))

  download_locked-Delivered :
      (bytes : Bytes) (s : Session W)
      → After
          (Delivered (length bytes) bytes s)
          (download_locked io (length bytes) bytes none none s)
  unfolding download_locked check_streaming
  download_locked-Delivered bytes s =
      bind-After (λ u t. t ≡ s) (Delivered (length bytes) bytes s)
        (begin io (download_command (length bytes))) _ s
        (Delivery.begin-Same io taken laws (download_command (length bytes)) s)
        λ _ t e.
          bind-After (λ _ u. taken u.world ≡ taken s.world ++ download_command (length bytes))
            (Delivered (length bytes) bytes s)
            (write_exact io (download_command (length bytes)) command_write) _
            (record t { state = writing_command })
            (After-map (λ _ u. taken u.world ≡ taken t.world ++ download_command (length bytes))
              (λ _ u. taken u.world ≡ taken s.world ++ download_command (length bytes)) _
              (λ _ u h. rw (← e) h)
              (Delivery.write_exact-Sent io taken laws (download_command (length bytes))
                command_write _))
            λ _ u sent.
              bind-After (Answers (record u { state = awaiting_response }))
                (Delivered (length bytes) bytes s)
                (download_loop io (suc s.options.max_informational_responses) (length bytes) []) _
                (record u { state = awaiting_response })
                (download_loop-Answers _ (length bytes) [] _)
                λ i v a.
                  after_initial-Delivered (length bytes) bytes s
                    (record u { state = awaiting_response }) i sent v a

  -- Where `download` returns behind its data phase, the device has taken the `download:` command with
  -- the payload's length, and then the payload, each byte once and in order; where it returns before
  -- that, the device said FAIL and has taken only the command.
  pub download-Delivered :
      (bytes : Bytes) (s : Session W)
      → After (Delivered (length bytes) bytes s) (download io bytes s)
  unfolding download
  download-Delivered bytes s =
      Delivery.locked-After io taken laws (Delivered (length bytes) bytes s) _ s
        (elim (Bool-cases (ltb u32_max (length bytes))) [
          | inl big ↦ rw (big, After) tt
          | inr fits ↦ rw fits (download_locked-Delivered bytes s)
        ])
