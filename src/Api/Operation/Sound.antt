-- ===== src/Api/Operation/Sound.antt =====
-- What holds of an operation and its threads, however they interleave.
use kairos_boot.Base.{
  ℕ, ◌≤◌, ◌≡◌, Bool, true, false, ◌&&◌, ◌||◌, not, Option, none, arith, if◌then◌else◌,
}
use kairos_boot.Api.Operation.{
  Outcome, has, is_created, is_running, is_succeeded, terminal, start, cancel_locked,
  finish_hook_invocation, register_cancellation_hook, added_hook, unregister_cancellation_hook,
  clear_cancellation_hook, publish_terminal, enter, callback_of, operation,
}
use kairos_boot.Api.Operation.Threads.{
  Worker, absent, spawned, entered, working, unregistering, finished, draining, publishing, gone,
  Canceller, idle, requested, stopped, called, over, System, system, worker_started,
  canceller_asked, decided, after_enter, Step, starts, cancels, requests_stop, calls_hook,
  has_no_hook, finishes_hook, enters, decides, registers, unregisters, is_unregistered, ends,
  clears, is_drained, publishes, Reach, here, later,
}
use kairos_boot.Api.Operation.Published.{published-IsFinal}

abbrev pub is_absent : Worker → Bool
is_absent absent = true
is_absent _ = false

abbrev pub is_spawned : Worker → Bool
is_spawned spawned = true
is_spawned _ = false

abbrev pub is_gone : Worker → Bool
is_gone gone = true
is_gone _ = false

-- The worker has begun, and not published yet.
abbrev pub is_active : Worker → Bool
is_active absent = false
is_active spawned = false
is_active gone = false
is_active _ = true

-- A hook may be registered.
abbrev pub may_hold : Worker → Bool
may_hold working = true
may_hold unregistering = true
may_hold (finished out) = true
may_hold _ = false

-- The hook may be in use by `cancel`.
abbrev pub may_pend : Worker → Bool
may_pend working = true
may_pend unregistering = true
may_pend (finished out) = true
may_pend (draining out) = true
may_pend _ = false

abbrev pub is_idle : Canceller → Bool
is_idle idle = true
is_idle _ = false

-- The invocations that `cancel` has announced and not ended.
abbrev pub pending : Canceller → ℕ
pending (requested hook) = has hook
pending (stopped hook) = has hook
pending called = 1
pending _ = 0

-- How often `cancel` may have called the hook.
abbrev pub calls_at_most : Canceller → ℕ
calls_at_most called = 1
calls_at_most over = 1
calls_at_most _ = 0

pub record IsOrderly (s : System) : Type 0 where
  pub fresh :
      is_created s.op.phase
      ≡ (is_spawned s.worker || is_absent s.worker && not s.op.cancel_requested)
  pub runs : is_running s.op.phase ≡ is_active s.worker
  pub launched : s.op.started ≡ not (is_absent s.worker)
  pub explained :
      has s.op.error ≡ (if terminal s.op.phase && not (is_succeeded s.op.phase) then 1 else 0)
  pub emptied : is_succeeded s.op.phase ≡ false → s.op.command_result ≡ none
  pub obeyed : is_succeeded s.op.phase ≡ true → s.op.cancel_requested ≡ false
  pub asked : is_idle s.canceller ≡ not s.op.cancel_requested
  pub flying : s.op.hook_invocations_in_flight ≡ pending s.canceller
  pub held : may_hold s.worker ≡ false → s.op.hook ≡ none
  pub pended : may_pend s.worker ≡ false → pending s.canceller ≡ 0
  pub once : s.hook_calls ≤ calls_at_most s.canceller

start-IsOrderly :
    (spawns : Bool) (s : System)
    → IsOrderly s
    → IsOrderly (record s {
      op = (start spawns s.op).1;
      worker = worker_started (start spawns s.op).0 s.worker;
    })
unfolding start worker_started
start-IsOrderly spawns s h = ground arith

cancel-IsOrderly :
    (s : System)
    → IsOrderly s
    → IsOrderly (record s {
      op = (cancel_locked s.op).1;
      canceller = canceller_asked (cancel_locked s.op).0 s.canceller;
    })
unfolding cancel_locked canceller_asked callback_of
cancel-IsOrderly s h = ground arith

register-IsOrderly :
    (hook : Option ℕ) (s : System)
    → s.worker ≡ working
    → IsOrderly s
    → IsOrderly (record s { op = (register_cancellation_hook hook s.op).1 })
unfolding register_cancellation_hook added_hook
register-IsOrderly hook s e h = ground arith

unregister-IsOrderly :
    (generation : ℕ) (s : System)
    → s.worker ≡ working
    → IsOrderly s
    → IsOrderly
        (record s { op = unregister_cancellation_hook generation s.op; worker = unregistering })
unfolding unregister_cancellation_hook
unregister-IsOrderly generation s e h = ground arith

enter-IsOrderly :
    (s : System)
    → s.worker ≡ spawned
    → IsOrderly s
    → IsOrderly
        (record s { op = (enter s.op).1; worker = after_enter (enter s.op).0 s.op.has_task })
unfolding enter after_enter
enter-IsOrderly s e h = ground arith

decided-IsOrderly :
    (choice : Option Outcome) (has_task : Bool) (s : System)
    → s.worker ≡ entered has_task
    → IsOrderly s
    → IsOrderly (record s { worker = decided choice })
unfolding decided
decided-IsOrderly choice has_task s e h = ground arith

publish-IsOrderly :
    (out : Outcome) (s : System)
    → s.worker ≡ publishing out
    → IsOrderly s
    → IsOrderly (record s { op = publish_terminal out s.op; worker = gone })
unfolding publish_terminal
publish-IsOrderly out s e h =
    let r : is_running s.op.phase ≡ true = ground (arith, h.runs) in
    let f = published-IsFinal s.op.cancel_requested out in
    rw r (record {
      fresh = ground arith;
      runs = ground arith;
      launched = ground arith;
      explained = ground arith;
      emptied = f.emptied;
      obeyed = ground arith;
      asked = h.asked;
      flying = h.flying;
      held = ground arith;
      pended = ground arith;
      once = h.once;
    })

pub Step-IsOrderly : {s t : System} → Step s t → IsOrderly s → IsOrderly t
unfolding finish_hook_invocation clear_cancellation_hook
Step-IsOrderly {s} (starts spawns) h = start-IsOrderly spawns s h
Step-IsOrderly {s} cancels h = cancel-IsOrderly s h
Step-IsOrderly (requests_stop hook e) h = ground arith
Step-IsOrderly (calls_hook callback e) h = ground arith
Step-IsOrderly (has_no_hook e) h = ground arith
Step-IsOrderly (finishes_hook e) h = ground arith
Step-IsOrderly {s} (enters e) h = enter-IsOrderly s e h
Step-IsOrderly {s} (decides has_task e) h = decided-IsOrderly _ has_task s e h
Step-IsOrderly {s} (registers hook e) h = register-IsOrderly hook s e h
Step-IsOrderly {s} (unregisters generation e) h = unregister-IsOrderly generation s e h
Step-IsOrderly (is_unregistered e z) h = ground arith
Step-IsOrderly (ends x e) h = ground arith
Step-IsOrderly (clears out e) h = ground arith
Step-IsOrderly (is_drained out e z) h = ground arith
Step-IsOrderly {s} (publishes out e) h = publish-IsOrderly out s e h

-- However the threads interleave: the phase agrees with where the worker stands; an error is there exactly in a
-- failed or cancelled operation, a result only in one that has succeeded, and one that has succeeded was
-- not asked to cancel before; the invocations in flight are those that `cancel` has announced, of which
-- there is one at most; a hook is called by `cancel` at most once; and once the worker has drained, and so in every
-- final state, no hook is registered and none is in use.
pub Reach-IsOrderly : (has_task : Bool) {s : System} → Reach (system has_task) s → IsOrderly s
unfolding system operation
Reach-IsOrderly has_task here = ground arith
Reach-IsOrderly has_task (later r x) = Step-IsOrderly x (Reach-IsOrderly has_task r)
