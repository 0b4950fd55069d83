-- ===== src/Api/Operation/Tests.antt =====
-- An operation that is cancelled while its task runs with a hook registered.
use kairos_boot.Base.{◌≡◌, ◌↔◌, ◌⊎◌, refl, true, false, none, some}
use kairos_boot.Api.Operation.{
  running, cancelled, Operation, ok, e_cancelled, status, is_succeeded, publish_terminal,
  outcome_succeeded, operation, start, enter, skipped, register_cancellation_hook, added_hook,
  cancel_locked, callback_of, terminal, settled, overruled, explained, without_result,
  outcome_cancelled, finish_hook_invocation, clear_cancellation_hook, returns, task_outcome,
}
use kairos_boot.Api.Operation.Threads.{
  System, working, requested, system, worker_started, after_enter, decided, canceller_asked, Reach,
  here, later, starts, enters, decides, gone, over, registers, cancels, requests_stop, calls_hook,
  finishes_hook, ends, clears, is_drained, publishes,
}
use kairos_boot.Api.Operation.Sound.{IsOrderly, Reach-IsOrderly}
use kairos_boot.Api.Operation.Published.{succeeds, status-publish_terminal}
use kairos_boot.Api.Operation.Refined.{promise, Follows, Reach-trans, Reach-Follows, Reach-terminal}
use kairos_boot.Api.Operation.Ends.{Ends, Reach-Ends}

abbrev busy_op : Operation
busy_op = record {
  phase = running;
  error = none;
  command_result = none;
  has_task = false;
  stop_requested = false;
  hook = some (record { generation = 1; callback = 7 });
  next_hook_generation = 2;
  hook_invocations_in_flight = 1;
  started = true;
  cancel_requested = true;
}

-- Behind the first hold of the mutex by `cancel`.
abbrev busy : System
busy = record { op = busy_op; worker = working; canceller = requested (some 7); hook_calls = 0 }

busy-Reach : Reach (system true) busy
unfolding system operation start worker_started enter after_enter skipped decided
    register_cancellation_hook added_hook cancel_locked canceller_asked callback_of
busy-Reach =
    later
      (later (later (later (later here (starts true)) (enters refl)) (decides true refl))
        (registers (some 7) refl))
      cancels

Reach-IsOrderly_example : IsOrderly busy
Reach-IsOrderly_example = Reach-IsOrderly true busy-Reach

Reach-Ends_example : Ends busy
Reach-Ends_example = Reach-Ends true busy-Reach

abbrev drained_op : Operation
drained_op = record busy_op { stop_requested = true; hook = none; hook_invocations_in_flight = 0 }

-- The task has come to its end all the same.
abbrev late : System
late = record {
  op = publish_terminal (outcome_succeeded none) drained_op;
  worker = gone;
  canceller = over;
  hook_calls = 1;
}

late-Reach : Reach busy late
unfolding finish_hook_invocation clear_cancellation_hook task_outcome
late-Reach =
    later
      (later
        (later
          (later
            (later (later (later here (requests_stop (some 7) refl)) (calls_hook 7 refl))
              (finishes_hook refl))
            (ends (returns (outcome_succeeded none)) refl))
          (clears (outcome_succeeded none) refl))
        (is_drained (outcome_succeeded none) refl refl))
      (publishes (outcome_succeeded none) refl)

-- The operation counts as cancelled.
late-cancelled : late.op.phase ≡ cancelled
unfolding publish_terminal settled overruled explained without_result outcome_succeeded
    outcome_cancelled
late-cancelled = refl

late-terminal : terminal late.op.phase ≡ true
unfolding publish_terminal settled overruled explained without_result outcome_succeeded
    outcome_cancelled
late-terminal = refl

Reach-Follows_example : Follows (promise busy.op) (promise late.op)
Reach-Follows_example = Reach-Follows true busy-Reach late-Reach

-- A second call of `cancel`.
again : Reach late (record late {
  op = (cancel_locked late.op).1;
  canceller = canceller_asked (cancel_locked late.op).0 over;
})
again = later here cancels

Reach-terminal_example :
    ((cancel_locked late.op).1.phase ≡ late.op.phase)
    × ((cancel_locked late.op).1.error ≡ late.op.error)
    × ((cancel_locked late.op).1.command_result ≡ late.op.command_result)
Reach-terminal_example = Reach-terminal true (Reach-trans busy-Reach late-Reach) late-terminal again

status-publish_terminal_example :
    (status (publish_terminal (outcome_succeeded none) drained_op) ≡ ok
      ↔ (is_succeeded (outcome_succeeded none).phase ≡ true)
        × (drained_op.cancel_requested ≡ false))
    × (status (publish_terminal (outcome_succeeded none) drained_op) ≡ e_cancelled
        ↔ ((outcome_succeeded none).phase ≡ cancelled)
          ⊎ (is_succeeded (outcome_succeeded none).phase ≡ true)
            × (drained_op.cancel_requested ≡ true))
status-publish_terminal_example =
    status-publish_terminal (outcome_succeeded none) drained_op refl (succeeds none)
