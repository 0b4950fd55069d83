-- ===== src/Fleet/Scheduler/Service.antt =====
-- The calls that dispatch bytes and settle them, and the account of bytes that they keep.
use kairos_boot.Base.{
  ℕ, zero, suc, ◌+◌, ◌%◌, ◌≡◌, refl, ap, ◌||◌, Option, none, some, arith, ◌==◌, leb, if◌then◌else◌,
  get_elem?, length, Option-cases, Bool-cases, inl, inr,
}
use kairos_boot.Transport.Budget.{Budget}
use kairos_boot.Fleet.Scheduler.{Scheduler, Grant, Look, find_controller, next_for_controller}
use kairos_boot.Fleet.Scheduler.Calls.{stored, or_else, rounds, next}
use kairos_boot.Fleet.Scheduler.Flows.{
  unsent, in_flight, ledger, find_flow-device_id, unsent-put_flow, unsent-ledger,
}
use kairos_boot.Fleet.Scheduler.Grants.{
  taken_from, Served, Granted, Idle, Idle-Served, Idle-refl, next_for_controller-Served,
}

or_else-Served :
    (b : Budget) (maximum : ℕ) (s : Scheduler) (r more : Option Grant × Scheduler)
    → Served b maximum s r.0 r.1
    → Served b maximum r.1 more.0 more.1
    → Served b maximum s (or_else r more).0 (or_else r more).1
unfolding or_else
or_else-Served b maximum s (some g, u) more h k = h
or_else-Served b maximum s (none, u) more h k = Idle-Served b maximum s u more.1 more.0 h k

-- The reference to the controller, written back, is none of the account.
pub stored-Served :
    (b : Budget) (maximum : ℕ) (s : Scheduler) (l : Look)
    → Served b maximum s l.0 l.2
    → Served b maximum s (stored l).0 (stored l).1
unfolding stored
stored-Served b maximum s (none, c, t) h = record {
  budget = h.budget;
  flows = h.flows;
  outstanding = h.outstanding;
}
stored-Served b maximum s (some g, c, t) h = record {
  flow = h.flow;
  found = h.found;
  working = h.working;
  window = h.window;
  asked = h.asked;
  bytes_pos = h.bytes_pos;
  bytes_maximum = h.bytes_maximum;
  bytes_available = h.bytes_available;
  bytes_remaining = h.bytes_remaining;
  budget = h.budget;
  taken = h.taken;
  charged = h.charged;
  flows = h.flows;
  token_pos = h.token_pos;
  fresh = h.fresh;
  entry = h.entry;
}

rounds-Served :
    (n : ℕ) (b : Budget) (maximum : ℕ) (s : Scheduler)
    → Served b maximum s (rounds n b maximum s).0 (rounds n b maximum s).1
unfolding rounds
rounds-Served zero b maximum s = Idle-refl s
rounds-Served (suc n) b maximum s =
    let at =
      if leb (length s.controller_order) s.controller_cursor then 0 else s.controller_cursor in
    let s' : Scheduler = record s { controller_cursor = (at + 1) % length s.controller_order } in
    let k : Idle s s' = record { budget = refl; flows = refl; outstanding = refl } in
    elim (Option-cases (get_elem? s.controller_order at)) [
      | inl e ↦ rw (rounds, e) k
      | inr (i, e) ↦ elim (Option-cases (find_controller i s'.controllers)) [
        | inl e' ↦ rw (rounds, e, e') k
        | inr (c, e') ↦
            let l = next_for_controller b maximum "" c s' in
            let r = stored l in
            let more = rounds n b maximum r.1 in
            let o = or_else r more in
            rw (rounds, e, e')
              (Idle-Served b maximum s s' o.1 o.0 k (
                or_else-Served b maximum s' r more
                  (stored-Served b maximum s' l (next_for_controller-Served b maximum "" c s'))
                  (rounds-Served n b maximum r.1)))
      ]
    ]

pub next-Served :
    (maximum : ℕ) (s : Scheduler) (b : Budget)
    → s.budget ≡ some b
    → Served b maximum s (next maximum s).0 (next maximum s).1
unfolding next
next-Served maximum s b h = elim (Bool-cases (maximum == 0 || length s.controller_order == 0)) [
  | inl e ↦ simp (next, h, e) (Idle-refl s)
  | inr e ↦ simp (next, h, e) (rounds-Served (length s.controller_order) b maximum s)
]

pub unsent-Granted :
    (b : Budget) (maximum : ℕ) (s t : Scheduler) (g : Grant)
    → Granted b maximum s g t
    → unsent t.flows + g.bytes ≡ unsent s.flows
unsent-Granted b maximum s t g h = omega (
  arith,
  ap unsent h.flows,
  unsent-ledger t.flows,
  unsent-ledger s.flows,
  h.bytes_remaining,
  unsent-put_flow g.device_id (ledger s.flows) h.flow (taken_from h.flow g.bytes) h.found
      (find_flow-device_id g.device_id (ledger s.flows) h.flow h.found),
)

Served-balanced :
    (b : Budget) (maximum : ℕ) (s t : Scheduler) (o : Option Grant)
    → Served b maximum s o t
    → unsent t.flows + in_flight t.outstanding ≡ unsent s.flows + in_flight s.outstanding
unfolding in_flight
Served-balanced b maximum s t none h = omega (
  arith,
  ap unsent h.flows,
  unsent-ledger t.flows,
  unsent-ledger s.flows,
  ap in_flight h.outstanding,
)
Served-balanced b maximum s t (some g) h =
    omega (arith, unsent-Granted b maximum s t g h, ap in_flight h.entry)

-- `next` moves bytes from a flow to a dispatch, and loses none.
pub next_balanced :
    (maximum : ℕ) (s : Scheduler)
    → unsent (next maximum s).1.flows + in_flight (next maximum s).1.outstanding
      ≡ unsent s.flows + in_flight s.outstanding
unfolding next
next_balanced maximum s = elim (Option-cases s.budget) [
  | inl e ↦ simp (next, e) refl
  | inr (b, e) ↦
      Served-balanced b maximum s (next maximum s).1 (next maximum s).0 (next-Served maximum s b e)
]
