-- ===== src/Fleet/Scheduler/Calls.antt =====
-- The calls of the scheduler and of the permit provider of one flow.
use text.Mathlib.Text.{◌==◌ as str_eq}
use kairos_boot.Base.{
  ℕ, zero, suc, ◌+◌, ◌-◌, ◌%◌, Bool, true, false, ◌&&◌, ◌||◌, not, Option, none, some, List, [],
  ◌∷◌, ◌++◌, String, ltb, leb, ◌==◌, if◌then◌else◌, length, get_elem?,
}
use kairos_boot.Transport.Budget.{Budget, release_charge}
pub use kairos_boot.Transport.Permit.{
  Settlement, fully_transferred, not_submitted, partial_or_unknown,
}
use kairos_boot.Fleet.Scheduler.{
  Scheduler, Flow, Grant, DeviceFlowSpec, Look, saturating_add, find_flow, put_flow,
  find_controller, put_controller, find_outstanding, erase_outstanding, signal_change,
  next_for_controller,
}

unfoldable pub scheduler : Option Budget → ℕ → Scheduler
scheduler budget quantum = record {
  budget = budget;
  quantum = quantum;
  generation = 1;
  flows = [];
  controllers = [];
  controller_order = [];
  controller_cursor = 0;
  outstanding = [];
  next_token = 1;
}

unfoldable pub new_flow : DeviceFlowSpec → Flow
new_flow f = record {
  device_id = f.device_id;
  controller_id = f.controller_id;
  weight = f.weight;
  remaining = f.bytes_remaining;
  deficit = 0;
  outstanding_count = 0;
  max_outstanding = f.max_outstanding;
  requested = false;
  retired = false;
  provider_attached = false;
}

-- The controller of a new flow, made where there is none.
unfoldable pub with_controller : String → String → Scheduler → Scheduler
with_controller controller device s = elim (find_controller controller s.controllers) [
  | none ↦ record s {
    controllers = record { id = controller; flows = device ∷ []; cursor = 0 } ∷ s.controllers;
    controller_order = s.controller_order ++ controller ∷ [];
  }
  | some c ↦ record s {
    controllers = put_controller (record c { flows = c.flows ++ device ∷ [] }) s.controllers;
  }
]

unfoldable pub has_budget : Option Budget → Bool
has_budget none = false
has_budget (some b) = true

unfoldable pub has_flow : String → List Flow → Bool
has_flow d flows = elim (find_flow d flows) [ none ↦ false | some f ↦ true ]

unfoldable pub add_flow : DeviceFlowSpec → Scheduler → Bool × Scheduler
unfolding new_flow with_controller has_budget has_flow
add_flow f s =
    if not (has_budget s.budget)
      || s.quantum == 0
      || str_eq f.device_id ""
      || str_eq f.controller_id ""
      || f.weight == 0
      || f.max_outstanding == 0
    then (false, s)
    else if has_flow f.device_id s.flows
    then (false, s)
    else (let s' = with_controller f.controller_id f.device_id s in
        (true, record s' { flows = new_flow f ∷ s'.flows }))

-- The controller that was looked at is a reference into the map.
unfoldable pub stored : Look → Option Grant × Scheduler
stored (g, c, s) = (g, record s { controllers = put_controller c s.controllers })

-- A dispatch ends the loop.
unfoldable pub or_else :
    Option Grant × Scheduler → Option Grant × Scheduler → Option Grant × Scheduler
or_else (some g, s) more = (some g, s)
or_else (none, s) more = more

-- The loop over the controllers, from the cursor on. A missing one would make `controllers.at` throw.
unfoldable pub rounds : ℕ → Budget → ℕ → Scheduler → Option Grant × Scheduler
unfolding stored or_else
rounds zero b maximum s = (none, s)
rounds (suc n) b maximum s =
    let at =
      if leb (length s.controller_order) s.controller_cursor then 0 else s.controller_cursor in
    let s' : Scheduler = record s { controller_cursor = (at + 1) % length s.controller_order } in
    elim (get_elem? s.controller_order at) [
      | none ↦ (none, s')
      | some i ↦ elim (find_controller i s'.controllers) [
        | none ↦ (none, s')
        | some c ↦
            let r = stored (next_for_controller b maximum "" c s') in
            or_else r (rounds n b maximum r.1)
      ]
    ]

unfoldable pub next : ℕ → Scheduler → Option Grant × Scheduler
next maximum s = elim s.budget [
  | none ↦ (none, s)
  | some b ↦
      if maximum == 0 || length s.controller_order == 0
      then (none, s)
      else rounds (length s.controller_order) b maximum s
]

-- `acquire_for`, behind the request that it notes
unfoldable pub serve_request : Budget → ℕ → Flow → Scheduler → Option Grant × Scheduler
unfolding stored
serve_request b maximum f s = elim (find_controller f.controller_id s.controllers) [
  | none ↦ (none, s)
  | some c ↦ stored (next_for_controller b maximum f.device_id c s)
]

unfoldable pub acquire_for : String → ℕ → Scheduler → Option Grant × Scheduler
unfolding serve_request
acquire_for device maximum s = elim s.budget [
  | none ↦ (none, s)
  | some b ↦ if maximum == 0 then (none, s) else elim (find_flow device s.flows) [
    | none ↦ (none, s)
    | some f ↦
        let f' : Flow = record f { requested = true } in
        let s' : Scheduler = record s { flows = put_flow f' s.flows } in
        if not f.provider_attached || f.retired || f.remaining == 0
        then (none, s)
        else if leb f.max_outstanding f.outstanding_count
        then (none, s')
        else serve_request b maximum f' s'
  ]
]

-- A flow whose dispatch was settled.
unfoldable pub settled_flow : Settlement → ℕ → Flow → Flow
settled_flow fully_transferred bytes f = record f { outstanding_count = f.outstanding_count - 1 }
settled_flow not_submitted bytes f = record f {
  remaining = saturating_add f.remaining bytes;
  outstanding_count = f.outstanding_count - 1;
}
settled_flow partial_or_unknown bytes f = record f {
  outstanding_count = f.outstanding_count - 1;
  retired = true;
  requested = false;
}

-- `settle`; `expected` is empty for any device.
unfoldable pub settle : ℕ → String → ℕ → Settlement → Scheduler → Bool × Scheduler
unfolding settled_flow
settle token expected bytes result s = elim (find_outstanding token s.outstanding) [
  | none ↦ (false, s)
  | some o ↦
      if not (o.bytes == bytes) || (not (str_eq expected "") && not (str_eq o.device_id expected))
      then (false, s)
      else elim (find_flow o.device_id s.flows) [
        | none ↦ (false, s)
        | some f ↦ if f.outstanding_count == 0 then (false, s) else (
          true,
          record s {
            flows = put_flow (settled_flow result bytes f) s.flows;
            outstanding = erase_outstanding token s.outstanding;
          },
        )
      ]
]

-- The lease of a dispatch goes back to the budget, which then tells its observers.
unfoldable pub return_memory : ℕ → Scheduler → Scheduler
return_memory bytes s = elim s.budget [
  | none ↦ s
  | some b ↦ signal_change (record s { budget = some (release_charge b bytes) })
]

-- `finish` with a settlement: the dispatch keeps its memory where it is refused.
unfoldable pub finish : Grant → Settlement → Scheduler → Bool × Scheduler
unfolding return_memory
finish g result s =
    if g.token == 0
    then (false, s)
    else (let (done, s') = settle g.token g.device_id g.bytes result s in
        if done then (true, return_memory g.bytes s') else (false, s'))

-- `finish` with the count of bytes that were not sent
unfoldable pub finish_unsent : Grant → ℕ → Scheduler → Bool × Scheduler
finish_unsent g bytes_not_sent s =
    if g.token == 0
      || ltb g.bytes bytes_not_sent
      || (not (bytes_not_sent == 0) && not (bytes_not_sent == g.bytes))
    then (false, s)
    else finish g (if bytes_not_sent == g.bytes then not_submitted else fully_transferred) s

unfoldable pub retire_flow : String → Scheduler → Bool × Scheduler
retire_flow device s = elim (find_flow device s.flows) [
  | none ↦ (false, s)
  | some f ↦ (
    true,
    signal_change
        (record s { flows = put_flow (record f { retired = true; requested = false }) s.flows }),
  )
]

-- Whether a provider was made; it is bound to the device.
unfoldable pub make_permit_provider : String → ℕ → Scheduler → Bool × Scheduler
make_permit_provider device max_outstanding s = elim (find_flow device s.flows) [
  | none ↦ (false, s)
  | some f ↦
      if f.provider_attached || not (f.outstanding_count == 0) || f.retired then (false, s) else (
        true,
        record s {
          flows =
              put_flow
                (record f {
                  provider_attached = true;
                  max_outstanding =
                      if max_outstanding == 0 then f.max_outstanding else max_outstanding;
                })
                s.flows;
        },
      )
]

-- A wait that timed out gives its request up.
unfoldable pub abandon_request : String → Scheduler → Scheduler
abandon_request device s = elim (find_flow device s.flows) [
  | none ↦ s
  | some f ↦
      if f.requested
      then signal_change (record s { flows = put_flow (record f { requested = false }) s.flows })
      else s
]

unfoldable pub remaining : String → Scheduler → ℕ
remaining device s = elim (find_flow device s.flows) [ none ↦ 0 | some f ↦ f.remaining ]
