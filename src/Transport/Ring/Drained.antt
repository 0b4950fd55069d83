-- ===== src/Transport/Ring/Drained.antt =====
-- How a ring that failed or was cancelled drains.
use kairos_boot.Base.{
  ℕ, zero, suc, ◌+◌, ◌<◌, ◌≡◌, refl, ap, sym, ◌∙◌, List, [], ◌∷◌, length, arith, ltb, ◌==◌,
  if◌then◌else◌, Bool-cases, Option-cases, inl, inr, true, false, ◌↔◌,
}
use kairos_boot.Transport.Ring.{
  RingState, idle, running, cancelling, draining_failure, completed, cancelled, failed,
  TransferErrorKind, RingWorld, InFlight, Ring, CompletionCode, success, no_device, stall, io_error,
  is_running, is_draining, find_in_flight, erase_in_flight, settled_state, settle_terminal_state,
  begin_failure, settle_permit, noted,
}
use kairos_boot.Transport.Permit.{Settlement}
use kairos_boot.Transport.Ring.Calls.{
  record_success, failed_with, completed_by, completed_with, handle_completion,
}
use kairos_boot.Transport.Ring.Tiled.{is_terminal}
use kairos_boot.Transport.Ring.Awaited.{
  ids_of, struck, ids_of-erase_in_flight, in_flight-settle_terminal_state, in_flight-completed_with,
  struck-find_in_flight,
}
use kairos_boot.Transport.Ring.Reached.{length-erase_in_flight}

pub record Completion : Type 0 where
  pub id : ℕ
  pub code : CompletionCode
  pub transferred : ℕ

module _ {W : Type 0} where
  -- With `n` transfers in flight it drains; with none it may have drained.
  abbrev Drains : ℕ → Ring W → Type 0
  Drains n r =
      (length r.in_flight ≡ n)
      × (is_running r.state ≡ false)
      × (is_draining r.state ≡ false → (is_terminal r.state ≡ true) × (n ≡ 0))

  abbrev IsDrained : ℕ → Ring W → Type 0
  IsDrained n r =
      (length r.in_flight ≡ n)
      × (n ≡ 0 → is_terminal r.state ≡ true)
      × (0 < n → is_draining r.state ≡ true)

module _ {W : Type 0} (io : RingWorld W) where
  settled_state-IsDrained :
      (state : RingState) (r : Ring W)
      → r.state ≡ state
      → Drains 0 r
      → IsDrained 0 (settled_state io state r)
  unfolding settled_state
  settled_state-IsDrained running r e h = absurd (ground arith)
  settled_state-IsDrained cancelling r e h = ground arith
  settled_state-IsDrained draining_failure r e h = ground arith
  settled_state-IsDrained idle r e h = absurd (ground arith)
  settled_state-IsDrained completed r e h = ground arith
  settled_state-IsDrained cancelled r e h = ground arith
  settled_state-IsDrained failed r e h = ground arith

  settle_terminal_state-IsDrained :
      (n : ℕ) (r : Ring W) → Drains n r → IsDrained n (settle_terminal_state io r)
  unfolding settle_terminal_state
  settle_terminal_state-IsDrained zero r h =
      let e : (length r.in_flight == 0) ≡ true = ground arith in
      rw e (settled_state-IsDrained r.state r refl h)
  settle_terminal_state-IsDrained (suc n) r h =
      let e : (length r.in_flight == 0) ≡ false = ground arith in rw e (ground arith)

  IsDrained-Drains : (n : ℕ) (r : Ring W) → IsDrained n r → Drains n r
  IsDrained-Drains zero r h = (h.0, ground arith, ground arith)
  IsDrained-Drains (suc n) r h = (h.0, ground arith, ground arith)

  failed_with-Drains :
      (kind : TransferErrorKind) (f : InFlight) (n : ℕ) (r : Ring W)
      → Drains n r
      → Drains n (failed_with io kind f r)
  unfolding failed_with begin_failure
  failed_with-Drains kind f n r h =
      let e : is_running r.state ≡ false = h.1 in
      let r' : Ring W =
        record (settle_permit io f.token f.requested Settlement.partial_or_unknown r) {
          error =
              noted io kind (settle_permit io f.token f.requested Settlement.partial_or_unknown r);
        } in
      rw e
        (IsDrained-Drains n (settle_terminal_state io r') (settle_terminal_state-IsDrained n r' h))

  completed_by-Drains :
      (code : CompletionCode) (transferred : ℕ) (f : InFlight) (n : ℕ) (r : Ring W)
      → Drains n r
      → Drains n (completed_by io code transferred f r)
  unfolding completed_by record_success
  completed_by-Drains success transferred f n r h = elim (Bool-cases (transferred == f.requested)) [
    | inl e ↦ rw e h
    | inr e ↦ rw e (failed_with-Drains _ f n r h)
  ]
  completed_by-Drains CompletionCode.cancelled transferred f n r h =
      elim (Bool-cases (is_draining r.state)) [
        | inl e ↦ rw e h
        | inr e ↦ rw e (failed_with-Drains _ f n r h)
      ]
  completed_by-Drains no_device transferred f n r h = failed_with-Drains _ f n r h
  completed_by-Drains CompletionCode.timeout transferred f n r h = failed_with-Drains _ f n r h
  completed_by-Drains stall transferred f n r h = failed_with-Drains _ f n r h
  completed_by-Drains io_error transferred f n r h = failed_with-Drains _ f n r h

  completed_with-Drains :
      (code : CompletionCode) (transferred : ℕ) (f : InFlight) (n : ℕ) (r : Ring W)
      → Drains n r
      → Drains n (completed_with io f code transferred r)
  unfolding completed_with
  completed_with-Drains code transferred f n r h = elim (Bool-cases (ltb f.requested transferred)) [
    | inl e ↦ rw e (failed_with-Drains _ f n r h)
    | inr e ↦ rw e (completed_by-Drains code transferred f n r h)
  ]

  -- Exactly the transfer that it names is in flight no longer.
  ids_of-handle_completion :
      (id : ℕ) (code : CompletionCode) (transferred : ℕ) (n : ℕ) (r : Ring W)
      → IsDrained n r
      → ids_of (handle_completion io id code transferred r).1.in_flight
        ≡ struck id (ids_of r.in_flight)
  unfolding handle_completion
  ids_of-handle_completion id code transferred n r h =
      elim (Option-cases (find_in_flight id r.in_flight)) [
        | inl e ↦ rw (handle_completion, e) (sym (struck-find_in_flight id r.in_flight e))
        | inr (f, e) ↦
            let r' : Ring W = record r { in_flight = erase_in_flight id r.in_flight } in
            let m = length (erase_in_flight id r.in_flight) in
            let d : Drains m r' =
              (refl, ground arith, ground (arith, length-erase_in_flight id r.in_flight f)) in
            let stopped : is_running (completed_with io f code transferred r').state ≡ false =
              (completed_with-Drains code transferred f m r' d).1 in
            rw (handle_completion, e, stopped)
              (ap ids_of (
                  in_flight-settle_terminal_state io (completed_with io f code transferred r')
                  ∙ in_flight-completed_with io code transferred f r')
                ∙ ids_of-erase_in_flight id r.in_flight)
      ]

  -- A completion of a transfer in flight is taken, and no other.
  handle_completion-IsDrained :
      (id : ℕ) (code : CompletionCode) (transferred : ℕ) (n : ℕ) (r : Ring W)
      → IsDrained n r
      → (m : ℕ) × ((if (handle_completion io id code transferred r).0 then suc m else m) ≡ n)
        × IsDrained m (handle_completion io id code transferred r).1
  unfolding handle_completion
  handle_completion-IsDrained id code transferred n r h =
      elim (Option-cases (find_in_flight id r.in_flight)) [
        | inl e ↦ rw (handle_completion, e) (n, refl, h)
        | inr (f, e) ↦
            let r' : Ring W = record r { in_flight = erase_in_flight id r.in_flight } in
            let m = length (erase_in_flight id r.in_flight) in
            let d : Drains m r' =
              (refl, ground arith, ground (arith, length-erase_in_flight id r.in_flight f)) in
            let k = completed_with-Drains code transferred f m r' d in
            let stopped : is_running (completed_with io f code transferred r').state ≡ false =
              k.1 in
            rw (handle_completion, e, stopped)
              (
                m,
                omega (arith, length-erase_in_flight id r.in_flight f e, h.0),
                settle_terminal_state-IsDrained m (completed_with io f code transferred r') k,
              )
      ]

  -- The completions one after another: how many were taken, and the ring that is left.
  unfoldable pub handled : List Completion → Ring W → ℕ × Ring W
  handled [] r = (0, r)
  handled (c ∷ cs) r =
      let answer = handle_completion io c.id c.code c.transferred r in
      let rest = handled cs answer.1 in (if answer.0 then suc rest.0 else rest.0, rest.1)

  handled-IsDrained :
      (cs : List Completion) (n : ℕ) (r : Ring W)
      → IsDrained n r
      → (m : ℕ) × ((handled cs r).0 + m ≡ n) × IsDrained m (handled cs r).1
  unfolding handled
  handled-IsDrained [] n r h = (n, omega arith, h)
  handled-IsDrained (c ∷ cs) n r h =
      let (m, e, d) = handle_completion-IsDrained c.id c.code c.transferred n r h in
      let (k, x, y) = handled-IsDrained cs m _ d in (k, ground arith, y)

  -- The transfers still awaited behind the completions.
  unfoldable pub awaited : List Completion → List ℕ → List ℕ
  awaited [] ids = ids
  awaited (c ∷ cs) ids = awaited cs (struck c.id ids)

  handled-awaited :
      (cs : List Completion) (n : ℕ) (r : Ring W)
      → IsDrained n r
      → ids_of (handled cs r).1.in_flight ≡ awaited cs (ids_of r.in_flight)
  unfolding handled awaited
  handled-awaited [] n r h = refl
  handled-awaited (c ∷ cs) n r h =
      let (m, e, d) = handle_completion-IsDrained c.id c.code c.transferred n r h in
      handled-awaited cs m _ d
      ∙ ap (awaited cs) (ids_of-handle_completion c.id c.code c.transferred n r h)

  IsDrained-ends :
      (n m k : ℕ) (r : Ring W)
      → k + m ≡ n
      → IsDrained m r
      → (k + length r.in_flight ≡ n)
        × (k ≡ n ↔ is_terminal r.state ≡ true)
        × (k < n ↔ is_draining r.state ≡ true)
  IsDrained-ends n zero k r e d = (
    omega (arith, d.0),
    (λ x. d.1 refl, λ x. omega arith),
    (λ x. absurd (omega arith), λ x. absurd (ground (arith, d.1 refl))),
  )
  IsDrained-ends n (suc m) k r e d = (
    omega (arith, d.0),
    (λ x. absurd (omega arith), λ x. absurd (ground (arith, d.2 (omega arith)))),
    (λ x. d.2 (omega arith), λ x. omega arith),
  )

  -- A ring that drains, as one that failed or was cancelled with transfers in flight does, takes each of their
  -- completions once, in any order and with any code: still in flight are exactly those that no completion
  -- has named, and it takes as many as the others. It stays in a draining state until the last one has
  -- come, and is then in a final state.
  pub handled-drains :
      (cs : List Completion) (r : Ring W)
      → is_draining r.state ≡ true
      → 0 < length r.in_flight
      → (ids_of (handled cs r).1.in_flight ≡ awaited cs (ids_of r.in_flight))
        × ((handled cs r).0 + length (handled cs r).1.in_flight ≡ length r.in_flight)
        × ((handled cs r).0 ≡ length r.in_flight ↔ is_terminal (handled cs r).1.state ≡ true)
        × ((handled cs r).0 < length r.in_flight ↔ is_draining (handled cs r).1.state ≡ true)
  handled-drains cs r e pos =
      let h : IsDrained (length r.in_flight) r = (refl, ground arith, ground arith) in
      let (m, x, d) = handled-IsDrained cs (length r.in_flight) r h in
      let e = IsDrained-ends (length r.in_flight) m (handled cs r).0 (handled cs r).1 x d in
      (handled-awaited cs (length r.in_flight) r h, e.0, e.1, e.2)
