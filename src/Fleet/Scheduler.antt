-- ===== src/Fleet/Scheduler.antt =====
-- `WeightedControllerScheduler` of src/fleet/controller_scheduler.hpp and .cpp: the state behind its
-- lock, and what each call does to it. The maps are lists: a flow's key is its `device_id` and a
-- controller's its `id`, as `add_flow` stores them. A dispatch's memory is its charge in the shared
-- budget; other users of the budget act between calls. `none` for `budget` is a null pointer.
pub mod Flows
pub mod Calls
pub mod Grants
pub mod Service
pub mod Settling
pub mod GivenBack
pub mod Retired
pub mod Tokens
pub mod Requests
pub mod Counts
pub mod Consistent
pub mod Windows
mod Tests
use text.Mathlib.Text.{◌==◌ as str_eq}
use kairos_boot.Base.{
  ℕ, zero, suc, ◌+◌, ◌-◌, ◌*◌, ◌/◌, ◌%◌, Bool, true, false, ◌&&◌, ◌||◌, not, Option, none, some,
  List, [], ◌∷◌, ◌++◌, String, ltb, leb, ◌==◌, min, if◌then◌else◌, length, get_elem?,
}
use kairos_boot.Transport.Budget.{Budget, word, available, try_acquire, release_charge}

abbrev pub u64_max : ℕ
u64_max = word - 1

unfoldable pub saturating_add : ℕ → ℕ → ℕ
saturating_add left right = if ltb (u64_max - left) right then u64_max else left + right

unfoldable pub saturating_multiply : ℕ → ℕ → ℕ
saturating_multiply quantum weight =
    if not (weight == 0) && ltb (u64_max / weight) quantum then u64_max else quantum * weight

pub record DeviceFlowSpec : Type 0 where
  pub device_id : String
  pub controller_id : String
  pub weight : ℕ
  pub bytes_remaining : ℕ
  pub max_outstanding : ℕ

pub record Flow : Type 0 where
  pub device_id : String
  pub controller_id : String
  pub weight : ℕ
  pub remaining : ℕ
  pub deficit : ℕ
  pub outstanding_count : ℕ
  pub max_outstanding : ℕ
  pub requested : Bool
  pub retired : Bool
  pub provider_attached : Bool

pub record Controller : Type 0 where
  pub id : String
  pub flows : List String
  pub cursor : ℕ

pub record Outstanding : Type 0 where
  pub token : ℕ
  pub device_id : String
  pub bytes : ℕ

pub record Grant : Type 0 where
  pub token : ℕ
  pub device_id : String
  pub controller_id : String
  pub bytes : ℕ

pub record Scheduler : Type 0 where
  pub budget : Option Budget
  pub quantum : ℕ
  pub generation : ℕ
  pub flows : List Flow
  pub controllers : List Controller
  pub controller_order : List String
  pub controller_cursor : ℕ
  pub outstanding : List Outstanding
  pub next_token : ℕ

unfoldable pub find_flow : String → List Flow → Option Flow
find_flow d [] = none
find_flow d (f ∷ fs) = if str_eq f.device_id d then some f else find_flow d fs

-- The flow of a device, replaced.
unfoldable pub put_flow : Flow → List Flow → List Flow
put_flow g [] = []
put_flow g (f ∷ fs) = if str_eq f.device_id g.device_id then g ∷ fs else f ∷ put_flow g fs

unfoldable pub find_controller : String → List Controller → Option Controller
find_controller i [] = none
find_controller i (c ∷ cs) = if str_eq c.id i then some c else find_controller i cs

unfoldable pub put_controller : Controller → List Controller → List Controller
put_controller e [] = []
put_controller e (c ∷ cs) = if str_eq c.id e.id then e ∷ cs else c ∷ put_controller e cs

unfoldable pub find_outstanding : ℕ → List Outstanding → Option Outstanding
find_outstanding t [] = none
find_outstanding t (o ∷ os) = if o.token == t then some o else find_outstanding t os

unfoldable pub erase_outstanding : ℕ → List Outstanding → List Outstanding
erase_outstanding t [] = []
erase_outstanding t (o ∷ os) = if o.token == t then os else o ∷ erase_outstanding t os

unfoldable pub holds_token : ℕ → List Outstanding → Bool
holds_token t [] = false
holds_token t (o ∷ os) = o.token == t || holds_token t os

-- The counter of readiness, read by waiting providers.
abbrev pub signal_change : Scheduler → Scheduler
signal_change s = record s { generation = (s.generation + 1) % word }

-- The `do` loop of `allocate_token`: the token found, and the next one to try.
unfoldable pub token_loop : ℕ → ℕ → List Outstanding → Option (ℕ × ℕ)
token_loop zero candidate outstanding = none
token_loop (suc fuel) candidate outstanding =
    let rest = token_loop fuel ((candidate + 1) % word) outstanding in
    if candidate == 0 || holds_token candidate outstanding
    then rest
    else some (candidate, (candidate + 1) % word)

-- Zero and the outstanding tokens are skipped, so two more rounds than tokens are enough.
unfoldable pub allocate_token : Scheduler → Option (ℕ × ℕ)
allocate_token s = token_loop (suc (suc (length s.outstanding))) s.next_token s.outstanding

-- What a look at a controller gives: a grant or none, the controller, and the scheduler.
abbrev pub Look : Type 0
Look = Option Grant × Controller × Scheduler

-- The cursor, past its end, starts again.
unfoldable pub settle_cursor : Controller → Controller
settle_cursor c = if leb (length c.flows) c.cursor then record c { cursor = 0 } else c

unfoldable pub advance : Controller → Controller
advance c = record c { cursor = (c.cursor + 1) % length c.flows }

unfoldable pub is_eligible : Flow → Bool
is_eligible f = not (
    f.remaining == 0
    || f.retired
    || not (not f.provider_attached || f.requested)
    || leb f.max_outstanding f.outstanding_count)

-- The deficit that a flow spends from: topped up where it is used up.
unfoldable pub topped_up : ℕ → Flow → ℕ
topped_up quantum f =
    if f.deficit == 0
    then saturating_add f.deficit (saturating_multiply quantum f.weight)
    else f.deficit

-- The flow behind a grant.
unfoldable pub charged_flow : Flow → ℕ → ℕ → Flow
charged_flow f deficit bytes = record f {
  remaining = f.remaining - bytes;
  deficit = deficit - bytes;
  outstanding_count = f.outstanding_count + 1;
  requested = if f.provider_attached then false else f.requested;
}

-- A grant of `bytes` to `f` under a token, with the charged budget.
unfoldable pub granted : Flow → ℕ → ℕ → Budget → ℕ × ℕ → Controller → Scheduler → Look
unfolding charged_flow advance
granted f deficit bytes b (token, next_token) c s = (
  some (record {
    token = token;
    device_id = f.device_id;
    controller_id = f.controller_id;
    bytes = bytes;
  }),
  if f.remaining - bytes == 0 || deficit - bytes == 0 then advance c else c,
  signal_change (record s {
    budget = some b;
    flows = put_flow (charged_flow f deficit bytes) s.flows;
    outstanding = record { token = token; device_id = f.device_id; bytes = bytes } ∷ s.outstanding;
    next_token = next_token;
  }),
)

-- From the top-up on: `desired` is what the caller, the budget and the flow allow.
unfoldable pub dispatch :
    (Controller → Scheduler → Look) → Budget → Flow → ℕ → Controller → Scheduler → Look
unfolding granted
dispatch rest b f desired c s =
    let deficit = topped_up s.quantum f in
    let bytes = min deficit desired in
    let s' : Scheduler = record s { flows = put_flow (record f { deficit = deficit }) s.flows } in
    let next = rest (advance c) s' in
    if bytes == 0 then next else elim (try_acquire b bytes) [
      | none ↦ (none, c, s')
      | some b' ↦ elim (allocate_token s) [
        | none ↦ (none, c, s')
        | some t ↦ granted f deficit bytes b' t c s'
      ]
    ]

-- The flow under the cursor. `required` is empty where any device may be served.
unfoldable pub consider :
    (Controller → Scheduler → Look) → Budget → ℕ → String → Flow → Controller → Scheduler → Look
unfolding dispatch
consider rest b maximum required f c s =
    let next = rest (advance c) s in
    if not (is_eligible f)
    then next
    else if not (str_eq required "") && not (str_eq f.device_id required)
    then (none, c, s)
    else if available b == 0
    then (none, c, s)
    else if min maximum (min (available b) (min f.remaining u64_max)) == 0
    then (none, c, s)
    else dispatch rest b f (min maximum (min (available b) (min f.remaining u64_max))) c s

unfoldable pub flow_at : Controller → Scheduler → Option Flow
flow_at c s = elim (get_elem? c.flows c.cursor) [ none ↦ none | some d ↦ find_flow d s.flows ]

-- The attempts of `next_for_controller`. A flow that is missing would make `flows.at` throw.
unfoldable pub attempts : ℕ → Budget → ℕ → String → Controller → Scheduler → Look
attempts zero b maximum required c s = (none, c, s)
attempts (suc n) b maximum required c s =
    let c' = settle_cursor c in
    elim (flow_at c' s) [
      | none ↦ (none, c', s)
      | some f ↦ consider (attempts n b maximum required) b maximum required f c' s
    ]

unfoldable pub next_for_controller : Budget → ℕ → String → Controller → Scheduler → Look
next_for_controller b maximum required c s =
    if length c.flows == 0 || available b == 0
    then (none, c, s)
    else attempts (length c.flows) b maximum required c s
