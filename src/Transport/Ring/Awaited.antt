-- ===== src/Transport/Ring/Awaited.antt =====
-- What completions do to the list of the transfers in flight.
use kairos_boot.Base.{
  ℕ, ◌≡◌, refl, ap, none, List, [], ◌∷◌, length, arith, ltb, ◌==◌, if◌then◌else◌, Bool-cases, inl,
  inr,
}
use kairos_boot.Transport.Ring.{
  RingState, idle, running, cancelling, draining_failure, completed, cancelled, failed,
  TransferErrorKind, RingWorld, InFlight, Ring, CompletionCode, success, no_device, stall, io_error,
  is_running, is_draining, find_in_flight, erase_in_flight, settled_state, settle_terminal_state,
  begin_failure,
}
use kairos_boot.Transport.Ring.Calls.{record_success, failed_with, completed_by, completed_with}

-- The numbers of the transfers.
unfoldable pub ids_of : List InFlight → List ℕ
ids_of [] = []
ids_of (f ∷ fs) = f.id ∷ ids_of fs

-- A list without the first entry that is the number.
unfoldable pub struck : ℕ → List ℕ → List ℕ
struck id [] = []
struck id (x ∷ xs) = if x == id then xs else x ∷ struck id xs

pub ids_of-erase_in_flight :
    (id : ℕ) (fs : List InFlight) → ids_of (erase_in_flight id fs) ≡ struck id (ids_of fs)
unfolding ids_of struck erase_in_flight
ids_of-erase_in_flight id [] = refl
ids_of-erase_in_flight id (f ∷ fs) = elim (Bool-cases (f.id == id)) [
  | inl e ↦ rw e refl
  | inr e ↦ rw e (ap (λ t. f.id ∷ t) (ids_of-erase_in_flight id fs))
]

pub struck-find_in_flight :
    (id : ℕ) (fs : List InFlight) → find_in_flight id fs ≡ none → struck id (ids_of fs) ≡ ids_of fs
unfolding ids_of struck find_in_flight
struck-find_in_flight id [] h = refl
struck-find_in_flight id (f ∷ fs) h = ground (arith, struck-find_in_flight id fs)

module _ {W : Type 0} (io : RingWorld W) where
  in_flight-settled_state :
      (state : RingState) (r : Ring W) → (settled_state io state r).in_flight ≡ r.in_flight
  unfolding settled_state
  in_flight-settled_state running r = ground arith
  in_flight-settled_state cancelling r = ground arith
  in_flight-settled_state draining_failure r = ground arith
  in_flight-settled_state idle r = refl
  in_flight-settled_state completed r = refl
  in_flight-settled_state cancelled r = refl
  in_flight-settled_state failed r = refl

  pub in_flight-settle_terminal_state :
      (r : Ring W) → (settle_terminal_state io r).in_flight ≡ r.in_flight
  unfolding settle_terminal_state
  in_flight-settle_terminal_state r = elim (Bool-cases (length r.in_flight == 0)) [
    | inl e ↦ rw e (in_flight-settled_state r.state r)
    | inr e ↦ rw e refl
  ]

  in_flight-failed_with :
      (kind : TransferErrorKind) (f : InFlight) (r : Ring W)
      → (failed_with io kind f r).in_flight ≡ r.in_flight
  unfolding failed_with begin_failure
  in_flight-failed_with kind f r = elim (Bool-cases (is_running r.state)) [
    | inl e ↦ rw e (in_flight-settle_terminal_state _)
    | inr e ↦ rw e (in_flight-settle_terminal_state _)
  ]

  in_flight-completed_by :
      (code : CompletionCode) (transferred : ℕ) (f : InFlight) (r : Ring W)
      → (completed_by io code transferred f r).in_flight ≡ r.in_flight
  unfolding completed_by record_success
  in_flight-completed_by success transferred f r = elim (Bool-cases (transferred == f.requested)) [
    | inl e ↦ rw e refl
    | inr e ↦ rw e (in_flight-failed_with _ f r)
  ]
  in_flight-completed_by CompletionCode.cancelled transferred f r =
      elim (Bool-cases (is_draining r.state)) [
        | inl e ↦ rw e refl
        | inr e ↦ rw e (in_flight-failed_with _ f r)
      ]
  in_flight-completed_by no_device transferred f r = in_flight-failed_with _ f r
  in_flight-completed_by CompletionCode.timeout transferred f r = in_flight-failed_with _ f r
  in_flight-completed_by stall transferred f r = in_flight-failed_with _ f r
  in_flight-completed_by io_error transferred f r = in_flight-failed_with _ f r

  pub in_flight-completed_with :
      (code : CompletionCode) (transferred : ℕ) (f : InFlight) (r : Ring W)
      → (completed_with io f code transferred r).in_flight ≡ r.in_flight
  unfolding completed_with
  in_flight-completed_with code transferred f r = elim (Bool-cases (ltb f.requested transferred)) [
    | inl e ↦ rw e (in_flight-failed_with _ f r)
    | inr e ↦ rw e (in_flight-completed_by code transferred f r)
  ]
