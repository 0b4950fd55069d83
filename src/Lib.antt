-- ===== src/Lib.antt =====
-- KairosBoot is a Fastboot library: a host talks to Android devices in their bootloader. This library
-- models parts of it in a cubical type theory and proves what makes them correct.
--
-- Protocol (src/protocol/fastboot_protocol.hpp and .cpp, src/protocol/transport_session.hpp).
-- Protocol/Response is `parse_response`. Protocol/Session is the class `FastbootSession`: its state is the
-- record `Session`, and an operation is an action on it, `Session W → Outcome A × Session W`, where `W`
-- is the state of all that lies outside: the transport, the sink and the observer, which are the
-- functions of the record `World` (Protocol/Transport). Session/Io has the locked helpers, Session/Download
-- `command`, `download`, `download_source`, `configure_transfer_permits`, `request_cancel` and `close`,
-- Session/Receive `receive_to_sink`. Names are those of the C++ in snake case, without `_locked` where
-- nothing else bears the name. `mutex_held` stands for another thread inside an operation. Messages are
-- kept. A C++ `int` error number is carried along as its bit pattern.
--
-- Transport (src/transport/buffer_budget, transfer_ring, adaptive_tuner). Transport/Budget is `BufferBudget`, a lease being
-- its charge in bytes: Budget/Interleaved runs several threads by their atomic steps, Budget/Registry has
-- the availability observers, and the process-wide limit is in Transport/Budget itself. Transport/Ring is
-- `TransferRing`, the pipeline of a bulk transfer: its record keeps the transfers in flight, the segments that
-- have landed and the watermark, and `RingWorld` has the backend, the permit provider and the budget that it calls.
-- Ring/Calls has `start`, `pump`, `wait_for_permit_until`, `handle_completion` and `cancel`, and Ring/Sound runs them in
-- any order. `pump` gets one round more than the depth, and the loop on the watermark as many as there are
-- segments; no sum of the ring passes the size of its source. Transport/Tuner is
-- `AdaptiveTransferTuner`, with the arithmetic of doubles as a parameter.
--
-- Fleet (src/fleet/controller_scheduler.hpp and .cpp). Fleet/Scheduler is the state of
-- `WeightedControllerScheduler` and the round over one controller's flows, Fleet/Scheduler/Calls the calls:
-- `add_flow`, `next`, `acquire_for`, `settle`, `finish`, `retire_flow` and the permit provider's; the flag of a
-- cancelled provider is left out. It charges the budget of Transport/Budget. Scheduler/Windows runs the
-- calls in any order. A wait for readiness is modelled by the request that it gives up.
--
-- Fastboot (src/fastboot/variable_parser.hpp, slot_planner.hpp and primitive_service.cpp). Fastboot/Variable reads
-- numeric variables. Fastboot/Slots is `SlotPlanner`, a slot being the letter of its name; Slots/Planner has its queries
-- over the `getvar` of the primitive service, Slots/Listed what a plan may name.
--
-- Image (src/image/sha256.hpp and .cpp). Image/Sha256 is the incremental state, with its words as numbers,
-- Sha256/Standard the digest as FIPS 180-4 describes it, apart from the code, Sha256/Compressed,
-- Sha256/Blocks and Sha256/Padded relate the two, Sha256/Compute has the loop over a source that another thread may
-- stop, Sha256/Hex the text of a digest. The loop gets the size of the source as fuel.
--
-- Api (src/api/operation_state, device_selector). Api/Operation is the state of `OperationState` that its mutex
-- guards, with what each operation does to it in one hold of the mutex. Operation/Threads has the threads: the owners,
-- of whom the first to cancel does the work, and the worker with the task that it runs; a step is one hold of the
-- mutex or one act outside it. Operation/Refined is the promise to the owner. The waits of readers are left out.
-- Api/Selector reads the texts by which a caller names a device, and finds it among those on the bus; the parsers
-- of network endpoints are a parameter.
--
-- Bounds and fuel. Loops over writes take the bytes left as fuel, since every round moves one byte at
-- least; loops over responses take one more than the limit of informational responses; the receive
-- loop takes the announced size. `out_of_fuel` is an outcome of the model alone, and the theorems on how an
-- operation ends show that it never arises. The scheduler's search for a token takes two rounds more than
-- there are dispatches, and finds one.
--
-- Not modelled: allocation failures other than the one that `receive_locked` catches, the transports
-- themselves, file input and output, the C interface, the command line and the update machinery.
pub mod Base
pub mod Protocol
pub mod Transport
pub mod Fleet
pub mod Fastboot
pub mod Image
pub mod Api
