-- ===== src/Api/Operation/Published.antt =====
-- What `publish_terminal` stores, and the status that callers then read.
use kairos_boot.Base.{
  ◌≡◌, ◌↔◌, ◌≢◌, ◌⊎◌, refl, Bool, Bool-cases, inl, inr, true, false, Option, none, arith,
  if◌then◌else◌,
}
use kairos_boot.Api.Operation.{
  OperationPhase, cancelled, Status, ok, e_cancelled, Operation, Outcome, ErrorPayload,
  ResultPayload, has, is_succeeded, is_running, terminal, settled, overruled, explained,
  without_result, published, publish_terminal, status, outcome_succeeded, outcome_failed,
  outcome_cancelled, corrected_status,
}

-- A final state: an error exactly where it has not succeeded, a result only where it has, and no success
-- where cancellation was asked for.
pub record IsFinal (asked : Bool) (phase : OperationPhase) (error : Option ErrorPayload)
    (command_result : Option ResultPayload) : Type 0 where
  pub ended : terminal phase ≡ true
  pub obeyed : asked ≡ true → is_succeeded phase ≡ false
  pub explained : has error ≡ (if is_succeeded phase then 0 else 1)
  pub emptied : is_succeeded phase ≡ false → command_result ≡ none

settled-terminal : (out : Outcome) → terminal (settled out).phase ≡ true
unfolding settled outcome_failed
settled-terminal out = elim (Bool-cases (terminal out.phase)) [ inl e ↦ rw e e | inr e ↦ rw e refl ]

overruled-terminal :
    (asked : Bool) (out : Outcome)
    → terminal out.phase ≡ true
    → (terminal (overruled asked out).phase ≡ true)
      × (asked ≡ true → is_succeeded (overruled asked out).phase ≡ false)
unfolding overruled outcome_cancelled
overruled-terminal asked out h = ground arith

explained-IsFinal :
    (asked : Bool) (out : Outcome)
    → terminal out.phase ≡ true
    → (asked ≡ true → is_succeeded out.phase ≡ false)
    → (terminal (explained out).phase ≡ true)
      × (is_succeeded (explained out).phase ≡ is_succeeded out.phase)
      × (has (explained out).error ≡ (if is_succeeded out.phase then 0 else 1))
unfolding explained outcome_cancelled outcome_failed
explained-IsFinal asked out h k = ground arith

pub published-IsFinal :
    (asked : Bool) (out : Outcome)
    → let final = published asked out in IsFinal asked final.phase final.error final.command_result
unfolding without_result
published-IsFinal asked out =
    let v = overruled-terminal asked (settled out) (settled-terminal out) in
    let e = explained-IsFinal asked (overruled asked (settled out)) v.0 v.1 in
    let s = overruled asked (settled out) in
    record {
      ended = ground arith;
      obeyed = ground arith;
      explained = ground arith;
      emptied = ground arith;
    }

-- The outcomes that the three makers build.
pub data Made : Outcome → Type 0 where
  succeeds : (r : Option ResultPayload) → Made (outcome_succeeded r)
  fails : (e : ErrorPayload) → Made (outcome_failed e)
  is_cancelled : (e : ErrorPayload) → Made (outcome_cancelled e)

corrected_status_lem : (s : Status) → (corrected_status s ≢ ok) × (corrected_status s ≢ e_cancelled)
unfolding corrected_status
corrected_status_lem s = ground arith

-- A running operation whose task gave an outcome made by one of the three makers: behind `publish_terminal`
-- `status` is OK exactly where the outcome was a success and no cancellation was asked for, and CANCELLED exactly
-- where the outcome was cancelled, or was a success that came too late.
pub status-publish_terminal :
    (out : Outcome) (o : Operation)
    → is_running o.phase ≡ true
    → Made out
    → (status (publish_terminal out o) ≡ ok
        ↔ (is_succeeded out.phase ≡ true) × (o.cancel_requested ≡ false))
      × (status (publish_terminal out o) ≡ e_cancelled
          ↔ (out.phase ≡ cancelled) ⊎ (is_succeeded out.phase ≡ true) × (o.cancel_requested ≡ true))
unfolding status publish_terminal settled overruled explained without_result outcome_succeeded
    outcome_failed outcome_cancelled
status-publish_terminal out o run (succeeds r) = elim (Bool-cases o.cancel_requested) [
  | inl e ↦ rw (run, e) (ground arith)
  | inr e ↦ rw (run, e) (ground arith)
]
status-publish_terminal out o run (fails e) = elim (Bool-cases o.cancel_requested) [
  | inl c ↦ rw (run, c) (ground (arith, corrected_status_lem e.status))
  | inr c ↦ rw (run, c) (ground (arith, corrected_status_lem e.status))
]
status-publish_terminal out o run (is_cancelled e) = elim (Bool-cases o.cancel_requested) [
  | inl c ↦ rw (run, c) (ground arith)
  | inr c ↦ rw (run, c) (ground arith)
]
