-- ===== src/Fleet/Scheduler/Tests.antt =====
-- A scheduler with a budget of a hundred bytes and two devices on one controller, run.
use kairos_boot.Base.{ℕ, ◌+◌, ◌≡◌, ◌≢◌, ◌<◌, refl, true, false, some, [], ◌∷◌, arith, String}
use kairos_boot.Transport.Budget.{
  Budget, budget, try_acquire, available, has_room, charge, raise_peak,
}
use kairos_boot.Fleet.Scheduler.{
  Scheduler, Flow, Grant, DeviceFlowSpec, find_flow, put_flow, find_controller, put_controller,
  holds_token, next_for_controller, attempts, flow_at, consider, dispatch, granted, charged_flow,
  advance, settle_cursor, is_eligible, topped_up, allocate_token, token_loop, saturating_add,
  saturating_multiply,
}
use kairos_boot.Fleet.Scheduler.Calls.{
  scheduler, new_flow, with_controller, has_budget, has_flow, add_flow, stored, or_else, rounds,
  next, not_submitted, settle, finish, retire_flow,
}
use kairos_boot.Fleet.Scheduler.Flows.{unsent, in_flight}
use kairos_boot.Fleet.Scheduler.Service.{next_balanced}
use kairos_boot.Fleet.Scheduler.Settling.{Settles, settle-Settles}
use kairos_boot.Fleet.Scheduler.GivenBack.{IsGivenBack, finish-next}
use kairos_boot.Fleet.Scheduler.Retired.{next-retire_flow}
use kairos_boot.Fleet.Scheduler.Calls.{acquire_for}
use kairos_boot.Fleet.Scheduler.Requests.{Permits, acquire_for-Permits}
use kairos_boot.Fleet.Scheduler.Counts.{IsCounted}
use kairos_boot.Fleet.Scheduler.Windows.{here, later, adds, serves, Reach-IsCounted}
use kairos_boot.Fleet.Scheduler.Tokens.{allocate_token_total}

abbrev idle_flow : String → ℕ → ℕ → Flow
idle_flow d weight bytes = record {
  device_id = d;
  controller_id = "hub";
  weight = weight;
  remaining = bytes;
  deficit = 0;
  outstanding_count = 0;
  max_outstanding = 2;
  requested = false;
  retired = false;
  provider_attached = false;
}

abbrev spec : String → ℕ → ℕ → DeviceFlowSpec
spec d weight bytes = record {
  device_id = d;
  controller_id = "hub";
  weight = weight;
  bytes_remaining = bytes;
  max_outstanding = 2;
}

abbrev lease : Budget
lease = budget 100

abbrev two : Scheduler
two = record {
  budget = some lease;
  quantum = 8;
  generation = 1;
  controller_cursor = 0;
  outstanding = [];
  next_token = 1;
  flows = idle_flow "b" 2 50 ∷ idle_flow "a" 1 30 ∷ [];
  controllers = record { id = "hub"; flows = "a" ∷ "b" ∷ []; cursor = 0 } ∷ [];
  controller_order = "hub" ∷ [];
}

two_added :
    add_flow (spec "b" 2 50) (add_flow (spec "a" 1 30) (scheduler (some lease) 8)).1 ≡ (true, two)
unfolding add_flow new_flow with_controller has_budget has_flow scheduler find_flow find_controller
    put_controller
two_added = refl

abbrev dispatch_a : Grant
dispatch_a = record { token = 1; device_id = "a"; controller_id = "hub"; bytes = 8 }

-- The first device's quantum is spent at once, and the cursor moves on.
abbrev served : Scheduler
served = record two {
  budget = some (record { limit = 100; used = 8; peak = 8 });
  generation = 2;
  flows = idle_flow "b" 2 50 ∷ record (idle_flow "a" 1 22) { outstanding_count = 1 } ∷ [];
  controllers = record { id = "hub"; flows = "a" ∷ "b" ∷ []; cursor = 1 } ∷ [];
  controller_cursor = 0;
  outstanding = record { token = 1; device_id = "a"; bytes = 8 } ∷ [];
  next_token = 2;
}

next_a : next 20 two ≡ (some dispatch_a, served)
unfolding next rounds stored or_else next_for_controller attempts flow_at consider dispatch granted
    charged_flow advance settle_cursor is_eligible topped_up allocate_token token_loop
    saturating_add saturating_multiply find_flow put_flow find_controller put_controller holds_token
    try_acquire available has_room charge raise_peak
next_a = refl

next_balanced_example :
    unsent (next 20 two).1.flows + in_flight (next 20 two).1.outstanding
    ≡ unsent two.flows + in_flight two.outstanding
next_balanced_example = next_balanced 20 two

settle-Settles_example :
    Settles 1 8 not_submitted served
      (settle 1 "a" 8 not_submitted served).0
      (settle 1 "a" 8 not_submitted served).1
unfolding unsent
settle-Settles_example = settle-Settles 1 "a" 8 not_submitted served (omega arith)

finish-next_example :
    IsGivenBack lease two
      (finish dispatch_a not_submitted served).0
      (finish dispatch_a not_submitted served).1
unfolding unsent
finish-next_example =
    finish-next 20 two lease dispatch_a served refl (omega arith) (omega arith) (omega arith) next_a

abbrev without_a : Scheduler
without_a = record two {
  generation = 2;
  flows = idle_flow "b" 2 50 ∷ record (idle_flow "a" 1 30) { retired = true } ∷ [];
}

retire_a : retire_flow "a" two ≡ (true, without_a)
unfolding retire_flow find_flow put_flow
retire_a = refl

abbrev dispatch_b : Grant
dispatch_b = record { token = 1; device_id = "b"; controller_id = "hub"; bytes = 16 }

abbrev served_b : Scheduler
served_b = record without_a {
  budget = some (record { limit = 100; used = 16; peak = 16 });
  generation = 3;
  flows =
      record (idle_flow "b" 2 34) { outstanding_count = 1 }
      ∷ record (idle_flow "a" 1 30) { retired = true }
      ∷ [];
  controllers = record { id = "hub"; flows = "a" ∷ "b" ∷ []; cursor = 0 } ∷ [];
  outstanding = record { token = 1; device_id = "b"; bytes = 16 } ∷ [];
  next_token = 2;
}

next_b : next 20 without_a ≡ (some dispatch_b, served_b)
unfolding next rounds stored or_else next_for_controller attempts flow_at consider dispatch granted
    charged_flow advance settle_cursor is_eligible topped_up allocate_token token_loop
    saturating_add saturating_multiply find_flow put_flow find_controller put_controller holds_token
    try_acquire available has_room charge raise_peak
next_b = refl

next-retire_flow_example : dispatch_b.device_id ≢ "a"
next-retire_flow_example = next-retire_flow "a" 20 two without_a served_b dispatch_b retire_a next_b

allocate_token_total_example :
    (t : ℕ × ℕ) × (allocate_token served ≡ some t)
    × (0 < t.0)
    × (holds_token t.0 served.outstanding ≡ false)
allocate_token_total_example =
    allocate_token_total served (omega arith) (omega arith) (omega arith, tt)

abbrev attended : Scheduler
attended = record two {
  flows = idle_flow "b" 2 50 ∷ record (idle_flow "a" 1 30) { provider_attached = true } ∷ [];
}

acquire_for-Permits_example :
    Permits "a" lease 20 attended (acquire_for "a" 20 attended).0 (acquire_for "a" 20 attended).1
acquire_for-Permits_example = acquire_for-Permits "a" 20 attended lease refl refl

abbrev ran : Scheduler
ran = (next 20 (add_flow (spec "a" 1 30) (scheduler (some lease) 8)).1).1

Reach-IsCounted_example : IsCounted ran.flows ran.outstanding
Reach-IsCounted_example =
    Reach-IsCounted (some lease) 8 (later (later here (adds (spec "a" 1 30))) (serves 20))
