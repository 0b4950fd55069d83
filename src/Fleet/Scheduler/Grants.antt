-- ===== src/Fleet/Scheduler/Grants.antt =====
-- What `next` gives: the dispatch and what it takes from its flow and from the budget.
use text.Mathlib.Text.{◌==◌ as str_eq}
use kairos_boot.Base.{
  ℕ, ◌-◌, zero, suc, ◌+◌, ◌%◌, ◌≤◌, ◌<◌, ◌≡◌, refl, sym, subst, true, false, ◌&&◌, ◌||◌, not,
  Option, none, some, List, ◌∷◌, String, arith, ◌==◌, min, get_elem?, length, Option-cases,
  Bool-cases, inl, inr,
}
use kairos_boot.Transport.Budget.{Budget, word, available, try_acquire}
use kairos_boot.Fleet.Scheduler.{
  Flow, Outstanding, Scheduler, Controller, Grant, Look, find_flow, put_flow, holds_token,
  token_loop, allocate_token, is_eligible, charged_flow, topped_up, u64_max, granted, dispatch,
  consider, flow_at, attempts, next_for_controller, advance, settle_cursor,
}
use kairos_boot.Fleet.Scheduler.Flows.{
  cleared, ledger, find_flow-device_id, find_flow-ledger, ledger-put_flow, ledger-put_flow_deficit,
}

-- A flow that gave a dispatch; one with a provider has to ask again.
abbrev pub taken_from : Flow → ℕ → Flow
taken_from f bytes = record f {
  remaining = f.remaining - bytes;
  deficit = 0;
  outstanding_count = f.outstanding_count + 1;
  requested = not f.provider_attached && f.requested;
}

-- The dispatch `g` was taken from `s`, and `t` is left. Nothing but its flow, the budget and the
-- dispatches differ, and what the rounds of service remember.
pub record Granted (b : Budget) (maximum : ℕ) (s : Scheduler) (g : Grant) (t : Scheduler)
    : Type 0 where
  pub flow : Flow
  pub found : find_flow g.device_id (ledger s.flows) ≡ some flow
  pub working : flow.retired ≡ false
  pub window : flow.outstanding_count < flow.max_outstanding
  pub asked : flow.provider_attached ≡ true → flow.requested ≡ true
  pub bytes_pos : 0 < g.bytes
  pub bytes_maximum : g.bytes ≤ maximum
  pub bytes_available : g.bytes ≤ available b
  pub bytes_remaining : g.bytes ≤ flow.remaining
  pub budget : Budget
  pub taken : try_acquire b g.bytes ≡ some budget
  pub charged : t.budget ≡ some budget
  pub flows : ledger t.flows ≡ put_flow (taken_from flow g.bytes) (ledger s.flows)
  pub token_pos : 0 < g.token
  pub fresh : holds_token g.token s.outstanding ≡ false
  pub entry :
      t.outstanding
      ≡ record { token = g.token; device_id = g.device_id; bytes = g.bytes } ∷ s.outstanding

-- No dispatch was given, and no bytes moved.
pub record Idle (s : Scheduler) (t : Scheduler) : Type 0 where
  pub budget : t.budget ≡ s.budget
  pub flows : ledger t.flows ≡ ledger s.flows
  pub outstanding : t.outstanding ≡ s.outstanding

abbrev pub Served : Budget → ℕ → Scheduler → Option Grant → Scheduler → Type 0
Served b maximum s none t = Idle s t
Served b maximum s (some g) t = Granted b maximum s g t

pub Idle-Served :
    (b : Budget) (maximum : ℕ) (s u t : Scheduler) (o : Option Grant)
    → Idle s u
    → Served b maximum u o t
    → Served b maximum s o t
Idle-Served b maximum s u t none i h = record {
  budget = rw (h.budget, i.budget);
  flows = rw (h.flows, i.flows);
  outstanding = rw (h.outstanding, i.outstanding);
}
Idle-Served b maximum s u t (some g) i h = record {
  flow = h.flow;
  found = rw (← i.flows) h.found;
  working = h.working;
  window = h.window;
  asked = h.asked;
  bytes_pos = h.bytes_pos;
  bytes_maximum = h.bytes_maximum;
  bytes_available = h.bytes_available;
  bytes_remaining = h.bytes_remaining;
  budget = h.budget;
  taken = h.taken;
  charged = h.charged;
  flows = rw (← i.flows) h.flows;
  token_pos = h.token_pos;
  fresh = rw (← i.outstanding) h.fresh;
  entry = rw (← i.outstanding) h.entry;
}

token_loop-IsFresh :
    (fuel candidate : ℕ) (os : List Outstanding) (t : ℕ × ℕ)
    → token_loop fuel candidate os ≡ some t
    → (0 < t.0) × (holds_token t.0 os ≡ false)
unfolding token_loop
token_loop-IsFresh zero candidate os t h = ground arith
token_loop-IsFresh (suc fuel) candidate os t h =
    ground (arith, token_loop-IsFresh fuel ((candidate + 1) % word) os t)

pub allocate_token-IsFresh :
    (s : Scheduler) (t : ℕ × ℕ)
    → allocate_token s ≡ some t
    → (0 < t.0) × (holds_token t.0 s.outstanding ≡ false)
unfolding allocate_token
allocate_token-IsFresh s t h = token_loop-IsFresh _ s.next_token s.outstanding t h

found_itself :
    (d : String) (fs : List Flow) (f : Flow)
    → find_flow d fs ≡ some f
    → find_flow f.device_id fs ≡ some f
found_itself d fs f h = subst (λ k. find_flow k fs ≡ some f) (sym (find_flow-device_id d fs f h)) h

flow_at-found :
    (c : Controller) (s : Scheduler) (f : Flow)
    → flow_at c s ≡ some f
    → find_flow f.device_id s.flows ≡ some f
unfolding flow_at
flow_at-found c s f h = elim (Option-cases (get_elem? c.flows c.cursor)) [
  | inl n ↦ ground arith
  | inr (d, e) ↦ ground (arith, found_itself d s.flows f)
]

is_eligible_lem :
    (f : Flow)
    → is_eligible f ≡ true
    → (f.retired ≡ false)
      × (f.outstanding_count < f.max_outstanding)
      × (f.provider_attached ≡ true → f.requested ≡ true)
unfolding is_eligible
is_eligible_lem f e = ground arith

charged_flow_lem :
    (f : Flow) (deficit bytes : ℕ)
    → cleared (charged_flow f deficit bytes) ≡ taken_from (cleared f) bytes
unfolding charged_flow cleared
charged_flow_lem f deficit bytes = ground arith

granted-Granted :
    (b b' : Budget) (maximum deficit bytes : ℕ) (s u : Scheduler) (c : Controller) (f : Flow)
    (t : ℕ × ℕ)
    → Idle s u
    → find_flow f.device_id s.flows ≡ some f
    → is_eligible f ≡ true
    → 0 < bytes
    → bytes ≤ min maximum (min (available b) f.remaining)
    → u.flows ≡ put_flow (record f { deficit = deficit }) s.flows
    → try_acquire b bytes ≡ some b'
    → (0 < t.0) × (holds_token t.0 s.outstanding ≡ false)
    → Served b maximum s (granted f deficit bytes b' t c u).0 (granted f deficit bytes b' t c u).2
unfolding granted cleared
granted-Granted b b' maximum deficit bytes s u c f t i h e pos le w a k =
    let k' = is_eligible_lem f e in
    record {
      flow = cleared f;
      found = find_flow-ledger f.device_id s.flows f h;
      working = k'.0;
      window = k'.1;
      asked = k'.2;
      bytes_pos = pos;
      bytes_maximum = omega arith;
      bytes_available = omega arith;
      bytes_remaining = omega arith;
      budget = b';
      taken = a;
      charged = refl;
      flows =
          rw
            (
              ledger-put_flow (charged_flow f deficit bytes) u.flows,
              i.flows,
              charged_flow_lem f deficit bytes,
            )
            refl;
      token_pos = k.0;
      fresh = k.1;
      entry = rw i.outstanding refl;
    }

Deficit-Idle :
    (s : Scheduler) (f : Flow) (deficit : ℕ)
    → find_flow f.device_id s.flows ≡ some f
    → Idle s (record s { flows = put_flow (record f { deficit = deficit }) s.flows })
Deficit-Idle s f deficit h = record {
  budget = refl;
  flows = ledger-put_flow_deficit f.device_id s.flows f deficit h;
  outstanding = refl;
}

pub Idle-refl : (s : Scheduler) → Idle s s
Idle-refl s = record { budget = refl; flows = refl; outstanding = refl }

-- What a look at a controller gives is served.
abbrev IsServed : Budget → ℕ → Scheduler → Look → Type 0
IsServed b maximum s (o, c, t) = Served b maximum s o t

module _ (b : Budget) (maximum : ℕ) (rest : Controller → Scheduler → Look) where
  dispatch-Served :
      (f : Flow) (desired : ℕ) (c : Controller) (s : Scheduler)
      → ((c : Controller) (u : Scheduler) → IsServed b maximum u (rest c u))
      → find_flow f.device_id s.flows ≡ some f
      → is_eligible f ≡ true
      → desired ≤ min maximum (min (available b) f.remaining)
      → IsServed b maximum s (dispatch rest b f desired c s)
  unfolding dispatch
  dispatch-Served f desired c s more h e le =
      let deficit = topped_up s.quantum f in
      let bytes = min deficit desired in
      let i = Deficit-Idle s f deficit h in
      let s' : Scheduler = record s { flows = put_flow (record f { deficit = deficit }) s.flows } in
      elim (Bool-cases (bytes == 0)) [
        | inl z ↦ rw z (Idle-Served b maximum s s' _ _ i (more (advance c) s'))
        | inr p ↦ elim (Option-cases (try_acquire b bytes)) [
          | inl n ↦ rw (p, n) i
          | inr (b', a) ↦ elim (Option-cases (allocate_token s)) [
            | inl n ↦ rw (p, a, n) i
            | inr (t, k) ↦
                rw (p, a, k)
                  (granted-Granted b b' maximum deficit bytes s s' c f t i h e (ground arith)
                    (omega arith) refl a (allocate_token-IsFresh s t k))
          ]
        ]
      ]

  consider-Served :
      (required : String) (f : Flow) (c : Controller) (s : Scheduler)
      → ((c : Controller) (u : Scheduler) → IsServed b maximum u (rest c u))
      → find_flow f.device_id s.flows ≡ some f
      → IsServed b maximum s (consider rest b maximum required f c s)
  unfolding consider
  consider-Served required f c s more h =
      let room = min maximum (min (available b) (min f.remaining u64_max)) in
      let d = dispatch-Served f room c s more h in
      let m = more (advance c) s in
      let i = Idle-refl s in
      elim (Bool-cases (is_eligible f)) [
        | inr n ↦ rw n m
        | inl e ↦
            elim (Bool-cases (not (str_eq required "") && not (str_eq f.device_id required))) [
              | inl r ↦ rw (e, r) i
              | inr r ↦ elim (Bool-cases (available b == 0)) [
                | inl z ↦ rw (e, r, z) i
                | inr z ↦ elim (Bool-cases (room == 0)) [
                  | inl q ↦ rw (e, r, z, q) i
                  | inr q ↦ rw (e, r, z, q) (d e (omega arith))
                ]
              ]
            ]
      ]

module _ (b : Budget) (maximum : ℕ) (required : String) where
  attempts-Served :
      (n : ℕ) (c : Controller) (s : Scheduler)
      → IsServed b maximum s (attempts n b maximum required c s)
  unfolding attempts
  attempts-Served zero c s = Idle-refl s
  attempts-Served (suc n) c s = elim (Option-cases (flow_at (settle_cursor c) s)) [
    | inl e ↦ rw (attempts, e) (Idle-refl s)
    | inr (f, e) ↦
        rw (attempts, e)
          (consider-Served b maximum (attempts n b maximum required) required f (settle_cursor c) s
            (attempts-Served n) (flow_at-found (settle_cursor c) s f e))
  ]

  pub next_for_controller-Served :
      (c : Controller) (s : Scheduler)
      → IsServed b maximum s (next_for_controller b maximum required c s)
  unfolding next_for_controller
  next_for_controller-Served c s = elim (Bool-cases (length c.flows == 0 || available b == 0)) [
    | inl e ↦ rw e (Idle-refl s)
    | inr e ↦ rw e (attempts-Served (length c.flows) c s)
  ]
