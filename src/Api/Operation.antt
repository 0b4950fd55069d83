-- ===== src/Api/Operation.antt =====
-- `OperationState` of src/api/operation_state.hpp and .cpp: the outcomes, the state that the mutex guards,
-- and what one hold of the mutex does to it. A callback is named by a number.
pub mod Threads
pub mod Sound
pub mod Published
pub mod Refined
pub mod Ends
mod Tests
use kairos_boot.Base.{
  ℕ, ◌+◌, ◌-◌, ◌%◌, Bytes, Bool, true, false, ◌&&◌, ◌||◌, not, Option, none, some, List, [], String,
  ◌==◌, if◌then◌else◌,
}
use kairos_boot.Transport.Budget.{word}

pub data OperationPhase : Type 0 where
  created running succeeded failed cancelled : OperationPhase

-- `kb_status_t`
pub data Status : Type 0 where
  ok e_invalid_argument e_out_of_memory e_not_supported e_no_device e_ambiguous_device e_busy
        e_timeout e_cancelled e_io e_internal e_protocol e_device_fail :
      Status

-- `kb_transfer_state_t`
pub data TransferState : Type 0 where
  not_sent partial_or_unknown fully_transferred : TransferState

pub data CommandMessageKind : Type 0 where
  info text : CommandMessageKind

pub record CommandMessage : Type 0 where
  pub kind : CommandMessageKind
  pub text : String

pub record ErrorPayload : Type 0 where
  pub status : Status
  pub message : String
  pub native_code : ℕ
  pub transfer_state : TransferState
  pub device_identifier : String
  pub device_message : String
  pub command_messages : List CommandMessage
  pub inbound_expected : Option ℕ
  pub inbound_transferred : ℕ
  pub inbound_transfer_state : TransferState
  pub session_poisoned : Bool

pub record ResultPayload : Type 0 where
  pub terminal_payload : String
  pub messages : List CommandMessage
  pub data_bytes : Bytes
  pub output_path : String
  pub received_bytes : ℕ
  pub device_identifier : String

pub record Outcome : Type 0 where
  pub phase : OperationPhase
  pub error : Option ErrorPayload
  pub command_result : Option ResultPayload

-- The payload that the code writes out in each place, with its status, message and transfer state.
abbrev payload : Status → String → TransferState → ErrorPayload
payload status message transfer_state = record {
  status = status;
  message = message;
  native_code = 0;
  transfer_state = transfer_state;
  device_identifier = "";
  device_message = "";
  command_messages = [];
  inbound_expected = none;
  inbound_transferred = 0;
  inbound_transfer_state = not_sent;
  session_poisoned = false;
}

abbrev pub cancelled_error : ErrorPayload
cancelled_error = payload e_cancelled "operation cancelled" not_sent

abbrev internal_error : String → ErrorPayload
internal_error message = payload e_internal message not_sent

-- A message, or another where it is empty.
unfoldable pub or_message : String → String → String
or_message String.[] other = other
or_message (String.◌∷◌ c s) other = String.◌∷◌ c s

unfoldable pub corrected_status : Status → Status
corrected_status ok = e_internal
corrected_status e_cancelled = e_internal
corrected_status s = s

unfoldable pub outcome_succeeded : Option ResultPayload → Outcome
outcome_succeeded r = record { phase = succeeded; error = none; command_result = r }

unfoldable pub outcome_failed : ErrorPayload → Outcome
outcome_failed e = record {
  phase = failed;
  error = some (record e {
    status = corrected_status e.status;
    message = or_message e.message "operation failed";
  });
  command_result = none;
}

unfoldable pub outcome_cancelled : ErrorPayload → Outcome
outcome_cancelled e = record {
  phase = cancelled;
  error =
      some
        (record e { status = e_cancelled; message = or_message e.message "operation cancelled" });
  command_result = none;
}

pub record HookRecord : Type 0 where
  pub generation : ℕ
  pub callback : ℕ

-- `has_task` says that `task_` is not empty, `stop_requested` is the stop source's.
pub record Operation : Type 0 where
  pub phase : OperationPhase
  pub error : Option ErrorPayload
  pub command_result : Option ResultPayload
  pub has_task : Bool
  pub stop_requested : Bool
  pub hook : Option HookRecord
  pub next_hook_generation : ℕ
  pub hook_invocations_in_flight : ℕ
  pub started : Bool
  pub cancel_requested : Bool

unfoldable pub operation : Bool → Operation
operation has_task = record {
  phase = created;
  error = none;
  command_result = none;
  has_task = has_task;
  stop_requested = false;
  hook = none;
  next_hook_generation = 1;
  hook_invocations_in_flight = 0;
  started = false;
  cancel_requested = false;
}

abbrev pub is_created : OperationPhase → Bool
is_created created = true
is_created _ = false

abbrev pub is_running : OperationPhase → Bool
is_running running = true
is_running _ = false

abbrev pub is_succeeded : OperationPhase → Bool
is_succeeded succeeded = true
is_succeeded _ = false

abbrev pub terminal : OperationPhase → Bool
terminal succeeded = true
terminal failed = true
terminal cancelled = true
terminal _ = false

-- The thread may fail to be created; then the exception passes on.
pub data Started : Type 0 where
  refused launched threw : Started

unfoldable pub start : Bool → Operation → Started × Operation
start spawns o =
    if o.started || not (is_created o.phase) || o.cancel_requested
    then (refused, o)
    else if spawns
    then (launched, record o { started = true })
    else (threw, o)

-- What `cancel` does when it has let go of the mutex.
pub data Asked : Type 0 where
  ignored : Asked
  asked : Option ℕ → Asked

unfoldable pub callback_of : Option HookRecord → Option ℕ
callback_of none = none
callback_of (some h) = some h.callback

abbrev pub has : {A : Type 0} → Option A → ℕ
has none = 0
has (some x) = 1

unfoldable pub cancel_locked : Operation → Asked × Operation
cancel_locked o =
    if terminal o.phase || o.cancel_requested
    then (ignored, o)
    else if not o.started
    then (
      asked none,
      record o { cancel_requested = true; phase = cancelled; error = some cancelled_error },
    )
    else (
      asked (callback_of o.hook),
      record o {
        cancel_requested = true;
        hook_invocations_in_flight = o.hook_invocations_in_flight + has o.hook;
      },
    )

unfoldable pub finish_hook_invocation : Operation → Operation
finish_hook_invocation o = record o {
  hook_invocations_in_flight = o.hook_invocations_in_flight - 1;
}

unfoldable pub status : Operation → Status
status o = elim o.phase [
  | succeeded ↦ ok
  | cancelled ↦ e_cancelled
  | failed ↦ elim o.error [ none ↦ e_internal | some e ↦ e.status ]
  | created ↦ e_busy
  | running ↦ e_busy
]

-- What the registration of a hook gives: nothing, a callback that is to be called at once, or a
-- generation.
pub data Registration : Type 0 where
  inactive : Registration
  invokes : ℕ → Registration
  active : ℕ → Registration

-- With the operation still to be cancelled: the one place for a hook is taken, or free.
unfoldable pub added_hook : ℕ → Option HookRecord → Operation → Registration × Operation
added_hook callback (some h) o = (inactive, o)
added_hook callback none o = (
  active o.next_hook_generation,
  record o {
    next_hook_generation = (o.next_hook_generation + 1) % word;
    hook = some (record { generation = o.next_hook_generation; callback = callback });
  },
)

unfoldable pub register_cancellation_hook : Option ℕ → Operation → Registration × Operation
register_cancellation_hook none o = (inactive, o)
register_cancellation_hook (some callback) o =
    if terminal o.phase
    then (inactive, o)
    else if o.cancel_requested
    then (invokes callback, o)
    else added_hook callback o.hook o

unfoldable pub without_generation : ℕ → Option HookRecord → Option HookRecord
without_generation generation none = none
without_generation generation (some h) = if h.generation == generation then none else some h

-- Before the wait for the invocations in flight.
unfoldable pub unregister_cancellation_hook : ℕ → Operation → Operation
unregister_cancellation_hook generation o = record o { hook = without_generation generation o.hook }

unfoldable pub clear_cancellation_hook : Operation → Operation
clear_cancellation_hook o = record o { hook = none }

-- The outcome that `publish_terminal` stores, in the order of its tests.
unfoldable pub settled : Outcome → Outcome
settled out =
    if terminal out.phase
    then out
    else outcome_failed (internal_error "operation task returned a non-terminal state")

unfoldable pub overruled : Bool → Outcome → Outcome
overruled cancel_requested out =
    if cancel_requested && is_succeeded out.phase
    then outcome_cancelled
        (payload e_cancelled "operation cancelled after completing its work" fully_transferred)
    else out

unfoldable pub explained : Outcome → Outcome
explained out = elim out.phase [
  | succeeded ↦ record out { error = none }
  | cancelled ↦ elim out.error [ none ↦ outcome_cancelled cancelled_error | some e ↦ out ]
  | _ ↦ elim out.error [
    | none ↦ outcome_failed (internal_error "operation task returned no error")
    | some e ↦ out
  ]
]

unfoldable pub without_result : Outcome → Outcome
without_result out = if is_succeeded out.phase then out else record out { command_result = none }

abbrev pub published : Bool → Outcome → Outcome
published cancel_requested out =
    without_result (explained (overruled cancel_requested (settled out)))

unfoldable pub publish_terminal : Outcome → Operation → Operation
publish_terminal out o =
    let final = published o.cancel_requested out in
    if is_running o.phase
    then record o {
      phase = final.phase;
      error = final.error;
      command_result = final.command_result;
    }
    else o

-- The first hold of the mutex in `run`: whether the operation was still to be run.
unfoldable pub enter : Operation → Bool × Operation
enter o =
    if is_created o.phase
    then (true, record o { phase = running; has_task = false })
    else (false, o)

-- How the task ends.
pub data TaskEnd : Type 0 where
  returns : Outcome → TaskEnd
  throws_bad_alloc : TaskEnd
  throws_exception : String → TaskEnd
  throws_other : TaskEnd

unfoldable pub task_outcome : TaskEnd → Outcome
task_outcome (returns out) = out
task_outcome throws_bad_alloc =
    outcome_failed (payload e_out_of_memory "operation task exhausted memory" not_sent)
task_outcome (throws_exception what) = outcome_failed (payload e_internal what not_sent)
task_outcome throws_other =
    outcome_failed (internal_error "operation task threw an unknown exception")

-- The tests before the task is called: the outcome that stands in its place.
unfoldable pub skipped : Bool → Bool → Option Outcome
skipped stop_requested has_task =
    if stop_requested
    then some (outcome_cancelled cancelled_error)
    else if has_task
    then none
    else some (outcome_failed (internal_error "operation task is empty"))
