-- ===== src/Transport/Ring/Tests.antt =====
-- A ring of two transfers of four bytes over a source of ten, with a budget of a hundred.
use kairos_boot.Base.{
  ◌+◌, ◌<◌, ◌≡◌, refl, ◌↔◌, Bool, true, false, Option, none, some, List, [], ◌∷◌, ◌++◌, length,
  take, drop, arith,
}
use kairos_boot.Protocol.Transport.{TransferSource}
use kairos_boot.Transport.Permit.{timeout}
use kairos_boot.Transport.Budget.{Budget, budget, try_acquire, release_charge}
use kairos_boot.Transport.Ring.{
  RingWorld, Ring, Submission, answers, accepted, CompletionCode, success, stall, is_draining,
  completed, find_in_flight, erase_in_flight, has_in_flight, acquire_permit, settle_terminal_state,
  settle_memory, advance, insert_segment, find_segment, erase_segment,
}
use kairos_boot.Transport.Ring.Calls.{
  ring, start, pump, handle_completion, cancel, pump_loop, may_start, may_pump, pump_step,
  completed_with,
}
use kairos_boot.Transport.Ring.Tiled.{is_terminal}
use kairos_boot.Transport.Ring.Sound.{Reach, here, later, starts, completes}
use kairos_boot.Transport.Ring.Promises.{IsSound, Reach-IsSound}
use kairos_boot.Transport.Ring.Drained.{Completion, handled, awaited, handled-drains}
use kairos_boot.Transport.Ring.Awaited.{ids_of}
use kairos_boot.Transport.Ring.Fuel.{pump_loop_enough}

-- The budget, and the submissions taken.
abbrev Host : Type 0
Host = Budget × List Submission

abbrev leased : Option Budget → Host → Bool × Host
leased none h = (false, h)
leased (some b) h = (true, (b, h.1))

abbrev host : RingWorld Host
host = record {
  has_provider = false;
  budget_limit = some 100;
  provider_acquire = λ n h. (none, h);
  settle = λ token size result h. h;
  readiness_generation = λ h. 0;
  wait_for_ready = λ generation deadline h. (timeout, h);
  cancel_wait = λ h. h;
  budget_acquire = λ n h. leased (try_acquire h.0 n) h;
  release = λ n h. (release_charge h.0 n, h.1);
  submit = λ s h. (answers accepted, (h.0, h.1 ++ s ∷ []));
  cancel = λ id h. h;
}

abbrev ten_bytes : TransferSource
ten_bytes = record {
  size = 10;
  read_exact =
      λ offset size. some (take size (drop offset (0 ∷ 1 ∷ 2 ∷ 3 ∷ 4 ∷ 5 ∷ 6 ∷ 7 ∷ 8 ∷ 9 ∷ [])));
}

abbrev fresh : Ring Host
fresh = ring 4 2 (budget 100, [])

abbrev started : Ring Host
started = (start host (some ten_bytes) true fresh).1

-- The second transfer is done before the first, and lets the third go.
abbrev second_done : Ring Host
second_done = (handle_completion host 2 success 4 started).1

abbrev all_done : Ring Host
all_done = (handle_completion host 3 success 2 (handle_completion host 1 success 4 second_done).1).1

abbrev stopped : Ring Host
stopped = cancel host second_done

abbrev both : List Completion
both =
    record { id = 1; code = stall; transferred = 3 }
    ∷ record { id = 3; code = CompletionCode.cancelled; transferred = 0 }
    ∷ []

second_done-Reach : Reach host fresh second_done
second_done-Reach = later (later here (starts (some ten_bytes) true)) (completes 2 success 4)

Reach-IsSound_example : IsSound second_done
Reach-IsSound_example = Reach-IsSound 4 2 (budget 100, []) second_done-Reach

stopped_drains : is_draining stopped.state ≡ true
unfolding cancel ring start may_start pump pump_loop may_pump pump_step acquire_permit try_acquire
    release_charge has_in_flight find_in_flight erase_in_flight completed_with handle_completion
    settle_terminal_state settle_memory
stopped_drains = refl

stopped_flies : 0 < length stopped.in_flight
unfolding cancel ring start may_start pump pump_loop may_pump pump_step acquire_permit try_acquire
    release_charge has_in_flight find_in_flight erase_in_flight completed_with handle_completion
    settle_terminal_state settle_memory
stopped_flies = omega arith

-- The ring that was given all completions, in another order than it submitted, is completed.
all_done-completed : (all_done.state ≡ completed) × (all_done.watermark ≡ 10)
unfolding ring start may_start pump pump_loop may_pump pump_step acquire_permit try_acquire
    release_charge has_in_flight find_in_flight erase_in_flight completed_with handle_completion
    settle_terminal_state settle_memory advance insert_segment find_segment erase_segment
all_done-completed = (refl, refl)

handled-drains_example :
    (ids_of (handled host both stopped).1.in_flight ≡ awaited host both (ids_of stopped.in_flight))
    × ((handled host both stopped).0 + length (handled host both stopped).1.in_flight
        ≡ length stopped.in_flight)
    × ((handled host both stopped).0 ≡ length stopped.in_flight
        ↔ is_terminal (handled host both stopped).1.state ≡ true)
    × ((handled host both stopped).0 < length stopped.in_flight
        ↔ is_draining (handled host both stopped).1.state ≡ true)
handled-drains_example = handled-drains host both stopped stopped_drains stopped_flies

pump_loop_enough_example : pump_loop host 5 false fresh ≡ pump_loop host 3 false fresh
unfolding ring
pump_loop_enough_example = pump_loop_enough host 5 false fresh (omega arith)
