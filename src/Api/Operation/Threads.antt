-- ===== src/Api/Operation/Threads.antt =====
-- The threads of one operation, by their holds of the mutex: its owners, of whom the first to ask for
-- cancellation does the work of `cancel`, and the worker, which runs `run` and, in it, the task.
use kairos_boot.Base.{ℕ, suc, ◌≡◌, Bool, true, false, Option, none, some}
use kairos_boot.Api.Operation.{
  Operation, Outcome, TaskEnd, Started, launched, Asked, ignored, asked, operation, start,
  cancel_locked, finish_hook_invocation, register_cancellation_hook, unregister_cancellation_hook,
  clear_cancellation_hook, publish_terminal, enter, task_outcome, skipped,
}

-- Where the worker stands: not started; before its first hold of the mutex; before the tests on the stop
-- token and the task; in the task; in a deregistration that waits; behind the task; in the wait before
-- the terminal state; behind it; at the end.
pub data Worker : Type 0 where
  absent spawned : Worker
  entered : Bool → Worker
  working unregistering : Worker
  finished draining publishing : Outcome → Worker
  gone : Worker

-- Where the first call of `cancel` stands: behind its hold of the mutex; behind the request to stop; behind the
-- call of the hook.
pub data Canceller : Type 0 where
  idle : Canceller
  requested stopped : Option ℕ → Canceller
  called over : Canceller

-- `hook_calls` counts the calls of the hook by `cancel`.
pub record System : Type 0 where
  pub op : Operation
  pub worker : Worker
  pub canceller : Canceller
  pub hook_calls : ℕ

unfoldable pub system : Bool → System
system has_task = record {
  op = operation has_task;
  worker = absent;
  canceller = idle;
  hook_calls = 0;
}

unfoldable pub worker_started : Started → Worker → Worker
worker_started launched w = spawned
worker_started _ w = w

unfoldable pub canceller_asked : Asked → Canceller → Canceller
canceller_asked ignored c = c
canceller_asked (asked hook) c = requested hook

unfoldable pub decided : Option Outcome → Worker
decided none = working
decided (some out) = finished out

unfoldable pub after_enter : Bool → Bool → Worker
after_enter true has_task = entered has_task
after_enter false has_task = gone

-- One hold of the mutex, or one act outside it. A wait for the invocations in flight passes when there
-- are none.
pub data Step (s : System) : System → Type 0 where
  starts :
      (spawns : Bool)
      → Step s (record s {
        op = (start spawns s.op).1;
        worker = worker_started (start spawns s.op).0 s.worker;
      })
  cancels : Step s (record s {
    op = (cancel_locked s.op).1;
    canceller = canceller_asked (cancel_locked s.op).0 s.canceller;
  })
  requests_stop :
      (hook : Option ℕ)
      → s.canceller ≡ requested hook
      → Step s (record s { op = record s.op { stop_requested = true }; canceller = stopped hook })
  calls_hook :
      (callback : ℕ)
      → s.canceller ≡ stopped (some callback)
      → Step s (record s { canceller = called; hook_calls = suc s.hook_calls })
  has_no_hook : s.canceller ≡ stopped none → Step s (record s { canceller = over })
  finishes_hook :
      s.canceller ≡ called
      → Step s (record s { op = finish_hook_invocation s.op; canceller = over })
  enters :
      s.worker ≡ spawned
      → Step s (record s { op = (enter s.op).1; worker = after_enter (enter s.op).0 s.op.has_task })
  decides :
      (has_task : Bool)
      → s.worker ≡ entered has_task
      → Step s (record s { worker = decided (skipped s.op.stop_requested has_task) })
  registers :
      (hook : Option ℕ)
      → s.worker ≡ working
      → Step s (record s { op = (register_cancellation_hook hook s.op).1 })
  unregisters :
      (generation : ℕ)
      → s.worker ≡ working
      → Step s
          (record s { op = unregister_cancellation_hook generation s.op; worker = unregistering })
  is_unregistered :
      s.worker ≡ unregistering
      → s.op.hook_invocations_in_flight ≡ 0
      → Step s (record s { worker = working })
  ends :
      (e : TaskEnd) → s.worker ≡ working → Step s (record s { worker = finished (task_outcome e) })
  clears :
      (out : Outcome)
      → s.worker ≡ finished out
      → Step s (record s { op = clear_cancellation_hook s.op; worker = draining out })
  is_drained :
      (out : Outcome)
      → s.worker ≡ draining out
      → s.op.hook_invocations_in_flight ≡ 0
      → Step s (record s { worker = publishing out })
  publishes :
      (out : Outcome)
      → s.worker ≡ publishing out
      → Step s (record s { op = publish_terminal out s.op; worker = gone })

pub data Reach (s : System) : System → Type 0 where
  here : Reach s s
  later : {t u : System} → Reach s t → Step t u → Reach s u
