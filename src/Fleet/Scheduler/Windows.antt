-- ===== src/Fleet/Scheduler/Windows.antt =====
-- Calls of the scheduler in any order, and the windows of the flows.
use kairos_boot.Base.{ℕ, refl, Option, [], String, arith}
use kairos_boot.Transport.Budget.{Budget}
use kairos_boot.Fleet.Scheduler.{Scheduler, DeviceFlowSpec, find_flow, signal_change}
use kairos_boot.Fleet.Scheduler.Calls.{
  Settlement, settle, next, acquire_for, retire_flow, make_permit_provider, abandon_request,
  add_flow, scheduler,
}
use kairos_boot.Fleet.Scheduler.Consistent.{
  IsConsistent, next-IsConsistent, settle-IsConsistent, acquire_for-IsConsistent,
  add_flow-IsConsistent, retire_flow-IsConsistent, make_permit_provider-IsConsistent,
  abandon_request-IsConsistent,
}
use kairos_boot.Fleet.Scheduler.Counts.{count_for, IsCounted}

-- A call, and the state behind it. Between calls others may change the budget, as a lease that is
-- returned does.
pub data Step (s : Scheduler) : Scheduler → Type 0 where
  serves : (maximum : ℕ) → Step s (next maximum s).1
  settles :
      (token : ℕ) (expected : String) (bytes : ℕ) (result : Settlement)
      → Step s (settle token expected bytes result s).1
  asks : (device : String) (maximum : ℕ) → Step s (acquire_for device maximum s).1
  adds : (spec : DeviceFlowSpec) → Step s (add_flow spec s).1
  retires : (device : String) → Step s (retire_flow device s).1
  provides : (device : String) (window : ℕ) → Step s (make_permit_provider device window s).1
  abandons : (device : String) → Step s (abandon_request device s)
  lends : (budget : Option Budget) → Step s (signal_change (record s { budget = budget }))

pub data Reach (s : Scheduler) : Scheduler → Type 0 where
  here : Reach s s
  later : {t u : Scheduler} → Reach s t → Step t u → Reach s u

Step-IsConsistent : {s t : Scheduler} → Step s t → IsConsistent s → IsConsistent t
Step-IsConsistent {s} (serves maximum) k = next-IsConsistent maximum s k
Step-IsConsistent {s} (settles token expected bytes result) k =
    settle-IsConsistent token expected bytes result s k
Step-IsConsistent {s} (asks device maximum) k = acquire_for-IsConsistent device maximum s k
Step-IsConsistent {s} (adds spec) k = add_flow-IsConsistent spec s k
Step-IsConsistent {s} (retires device) k = retire_flow-IsConsistent device s k
Step-IsConsistent {s} (provides device window) k =
    make_permit_provider-IsConsistent device window s k
Step-IsConsistent {s} (abandons device) k = abandon_request-IsConsistent device s k
Step-IsConsistent {s} (lends budget) k = k

empty-IsCounted : IsCounted [] []
unfolding find_flow count_for
empty-IsCounted = record { counted = λ d f e. ground arith; known = λ d e. refl }

-- However the calls follow on each other from an empty scheduler, each flow counts the dispatches of its
-- device that are out, these are at most its window, and no other device has any.
pub Reach-IsCounted :
    (budget : Option Budget) (quantum : ℕ) {t : Scheduler}
    → Reach (scheduler budget quantum) t
    → IsCounted t.flows t.outstanding
unfolding scheduler
Reach-IsCounted budget quantum here = empty-IsCounted
Reach-IsCounted budget quantum (later r s) = Step-IsConsistent s (Reach-IsCounted budget quantum r)
