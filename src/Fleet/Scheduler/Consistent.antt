-- ===== src/Fleet/Scheduler/Consistent.antt =====
-- The calls of the scheduler, and the counts of the flows against the dispatches that are out.
use text.Mathlib.Text.{◌==◌ as str_eq}
use text.Mathlib.TextEquality.{eq_iff}
use kairos_boot.Base.{
  ℕ, ◌-◌, ◌≤◌, ◌≡◌, refl, ◌∙◌, sym, true, false, Option, none, some, List, ◌∷◌, String, arith, ◌==◌,
  if◌then◌else◌, not, ◌||◌, Option-cases, Bool-cases, inl, inr,
}
use kairos_boot.Transport.Budget.{Budget}
use kairos_boot.Fleet.Scheduler.{
  Flow, Outstanding, Scheduler, Grant, DeviceFlowSpec, next_for_controller, find_controller,
  find_flow, put_flow, erase_outstanding,
}
use kairos_boot.Fleet.Scheduler.Calls.{
  Settlement, fully_transferred, not_submitted, partial_or_unknown, settled_flow, settle, next,
  acquire_for, retire_flow, make_permit_provider, abandon_request, add_flow, new_flow,
  with_controller, has_flow, has_budget, stored, serve_request,
}
use kairos_boot.Fleet.Scheduler.Flows.{ledger, find_flow-device_id}
use kairos_boot.Fleet.Scheduler.Grants.{taken_from, Served, next_for_controller-Served}
use kairos_boot.Fleet.Scheduler.Service.{next-Served, stored-Served}
use kairos_boot.Fleet.Scheduler.Requests.{requesting, acquire_for-cases, serve_request-cases}
use kairos_boot.Fleet.Scheduler.Settling.{settle-cases}
use kairos_boot.Fleet.Scheduler.Counts.{
  IsCounted, ledger-IsCounted, IsCounted-ledger, put_flow-IsCounted, count_for-cons,
  count_for-erase_outstanding, count_for-erase_outstanding_other,
}

abbrev pub IsConsistent : Scheduler → Type 0
IsConsistent s = IsCounted s.flows s.outstanding

Served-IsConsistent :
    (b : Budget) (maximum : ℕ) (s t : Scheduler) (o : Option Grant)
    → Served b maximum s o t
    → IsConsistent s
    → IsConsistent t
Served-IsConsistent b maximum s t none h k =
    IsCounted-ledger t.flows t.outstanding
      (rw (h.flows, h.outstanding) (ledger-IsCounted s.flows s.outstanding k))
Served-IsConsistent b maximum s t (some g) h k =
    let l = ledger-IsCounted s.flows s.outstanding k in
    let o : Outstanding = record { token = g.token; device_id = g.device_id; bytes = g.bytes } in
    let c = count_for-cons o s.outstanding in
    let n = l.counted g.device_id h.flow h.found in
    IsCounted-ledger t.flows t.outstanding (
      rw (h.flows, h.entry)
        (put_flow-IsCounted g.device_id (ledger s.flows) s.outstanding (o ∷ s.outstanding) h.flow
          (taken_from h.flow g.bytes) l h.found
          (find_flow-device_id g.device_id (ledger s.flows) h.flow h.found) c.1
          (omega (arith, c.0, n.0)) (omega (arith, h.window))))

pub next-IsConsistent :
    (maximum : ℕ) (s : Scheduler) → IsConsistent s → IsConsistent (next maximum s).1
unfolding next
next-IsConsistent maximum s k = elim (Option-cases s.budget) [
  | inl e ↦ simp (next, e) k
  | inr (b, e) ↦
      Served-IsConsistent b maximum s (next maximum s).1 (next maximum s).0
        (next-Served maximum s b e) k
]

-- A flow changed in what is not its count.
flow-IsConsistent :
    (device : String) (s : Scheduler) (f g : Flow)
    → find_flow device s.flows ≡ some f
    → g.device_id ≡ f.device_id
    → g.outstanding_count ≡ f.outstanding_count
    → g.outstanding_count ≤ g.max_outstanding
    → IsConsistent s
    → IsCounted (put_flow g s.flows) s.outstanding
flow-IsConsistent device s f g n e same fits k =
    put_flow-IsCounted device s.flows s.outstanding s.outstanding f g k n
      (e ∙ find_flow-device_id device s.flows f n) (λ i h. refl)
      ((k.counted device f n).0 ∙ sym same) fits

settled_flow-count :
    (result : Settlement) (bytes : ℕ) (f : Flow)
    → ((settled_flow result bytes f).outstanding_count ≡ f.outstanding_count - 1)
      × ((settled_flow result bytes f).max_outstanding ≡ f.max_outstanding)
      × ((settled_flow result bytes f).device_id ≡ f.device_id)
unfolding settled_flow
settled_flow-count fully_transferred bytes f = (refl, refl, refl)
settled_flow-count not_submitted bytes f = (refl, refl, refl)
settled_flow-count partial_or_unknown bytes f = (refl, refl, refl)

pub settle-IsConsistent :
    (token : ℕ) (expected : String) (bytes : ℕ) (result : Settlement) (s : Scheduler)
    → IsConsistent s
    → IsConsistent (settle token expected bytes result s).1
settle-IsConsistent token expected bytes result s k =
    elim (settle-cases token expected bytes result s) [
      | inl e ↦ rw e k
      | inr (o, f, e, w, n, pos, x) ↦
          let r = settled_flow-count result bytes f in
          let c = k.counted o.device_id f n in
          rw x (
            put_flow-IsCounted o.device_id s.flows s.outstanding
              (erase_outstanding token s.outstanding) f (settled_flow result bytes f) k n
              (r.2 ∙ find_flow-device_id o.device_id s.flows f n)
              (λ i h. count_for-erase_outstanding_other token s.outstanding o i e h)
              (omega (arith, count_for-erase_outstanding token s.outstanding o e, c.0, r.0))
              (omega (arith, c.1, r.0, r.1)))
    ]

pub retire_flow-IsConsistent :
    (device : String) (s : Scheduler) → IsConsistent s → IsConsistent (retire_flow device s).1
unfolding retire_flow
retire_flow-IsConsistent device s k = elim (Option-cases (find_flow device s.flows)) [
  | inl e ↦ simp (retire_flow, e) k
  | inr (f, e) ↦
      simp (retire_flow, e)
        (flow-IsConsistent device s f (record f { retired = true; requested = false }) e refl refl
          (k.counted device f e).1 k)
]

serve_request-IsConsistent :
    (b : Budget) (maximum : ℕ) (f : Flow) (s : Scheduler)
    → IsConsistent s
    → IsConsistent (serve_request b maximum f s).1
serve_request-IsConsistent b maximum f s k = elim (serve_request-cases b maximum f s) [
  | inl e ↦ rw e k
  | inr (c, e) ↦
      let l = next_for_controller b maximum f.device_id c s in
      rw e (
        Served-IsConsistent b maximum s (stored l).1 (stored l).0
          (stored-Served b maximum s l (next_for_controller-Served b maximum f.device_id c s)) k)
]

requesting-IsConsistent :
    (device : String) (f : Flow) (s : Scheduler)
    → find_flow device s.flows ≡ some f
    → IsConsistent s
    → IsConsistent (requesting f s)
requesting-IsConsistent device f s e k =
    flow-IsConsistent device s f (record f { requested = true }) e refl refl
      (k.counted device f e).1 k

pub acquire_for-IsConsistent :
    (device : String) (maximum : ℕ) (s : Scheduler)
    → IsConsistent s
    → IsConsistent (acquire_for device maximum s).1
unfolding acquire_for
acquire_for-IsConsistent device maximum s k = elim (Option-cases s.budget) [
  | inl e ↦ simp (acquire_for, e) k
  | inr (b, x) ↦ elim (acquire_for-cases device maximum s b x) [
    | inl e ↦ rw e k
    | inr (f, n, p, inl e) ↦ rw e (requesting-IsConsistent device f s n k)
    | inr (f, n, p, inr e) ↦ rw e (
        serve_request-IsConsistent b maximum (record f { requested = true }) (requesting f s)
          (requesting-IsConsistent device f s n k))
  ]
]

pub abandon_request-IsConsistent :
    (device : String) (s : Scheduler) → IsConsistent s → IsConsistent (abandon_request device s)
unfolding abandon_request
abandon_request-IsConsistent device s k = elim (Option-cases (find_flow device s.flows)) [
  | inl e ↦ simp (abandon_request, e) k
  | inr (f, e) ↦ elim (Bool-cases f.requested) [
    | inl r ↦
        simp (abandon_request, e, r)
          (flow-IsConsistent device s f (record f { requested = false }) e refl refl
            (k.counted device f e).1 k)
    | inr r ↦ simp (abandon_request, e, r) k
  ]
]

-- The window is set where no dispatch is out.
pub make_permit_provider-IsConsistent :
    (device : String) (window : ℕ) (s : Scheduler)
    → IsConsistent s
    → IsConsistent (make_permit_provider device window s).1
unfolding make_permit_provider
make_permit_provider-IsConsistent device window s k =
    elim (Option-cases (find_flow device s.flows)) [
      | inl e ↦ simp (make_permit_provider, e) k
      | inr (f, e) ↦
          elim (Bool-cases (f.provider_attached || not (f.outstanding_count == 0) || f.retired)) [
            | inl r ↦ simp (make_permit_provider, e, r) k
            | inr r ↦
                simp (make_permit_provider, e, r)
                  (flow-IsConsistent device s f
                    (record f {
                      provider_attached = true;
                      max_outstanding = if window == 0 then f.max_outstanding else window;
                    })
                    e refl refl (ground arith) k)
          ]
    ]

new_flow-IsCounted :
    (g : Flow) (fs : List Flow) (os : List Outstanding)
    → find_flow g.device_id fs ≡ none
    → g.outstanding_count ≡ 0
    → IsCounted fs os
    → IsCounted (g ∷ fs) os
unfolding find_flow
new_flow-IsCounted g fs os n z k = record {
  counted = λ d f e. elim (Bool-cases (str_eq g.device_id d)) [
    | inl y ↦ ground (arith, k.known g.device_id n, z, eq_iff g.device_id d)
    | inr y ↦ k.counted d f (ground arith)
  ];
  known = λ d e. elim (Bool-cases (str_eq g.device_id d)) [
    | inl y ↦ ground arith
    | inr y ↦ k.known d (ground arith)
  ];
}

with_controller_keeps :
    (controller device : String) (s : Scheduler)
    → ((with_controller controller device s).flows ≡ s.flows)
      × ((with_controller controller device s).outstanding ≡ s.outstanding)
unfolding with_controller
with_controller_keeps controller device s =
    elim (Option-cases (find_controller controller s.controllers)) [
      | inl e ↦ ground arith
      | inr (c, e) ↦ ground arith
    ]

has_flow-none : (d : String) (fs : List Flow) → has_flow d fs ≡ false → find_flow d fs ≡ none
unfolding has_flow
has_flow-none d fs h = elim (Option-cases (find_flow d fs)) [
  | inl e ↦ e
  | inr (f, e) ↦ ground arith
]

added-IsConsistent :
    (f : DeviceFlowSpec) (s : Scheduler)
    → find_flow f.device_id s.flows ≡ none
    → IsConsistent s
    → IsCounted
        (new_flow f ∷ (with_controller f.controller_id f.device_id s).flows)
        (with_controller f.controller_id f.device_id s).outstanding
unfolding new_flow
added-IsConsistent f s n k =
    let r = with_controller_keeps f.controller_id f.device_id s in
    rw (r.0, r.1) (new_flow-IsCounted (new_flow f) s.flows s.outstanding n refl k)

pub add_flow-IsConsistent :
    (f : DeviceFlowSpec) (s : Scheduler) → IsConsistent s → IsConsistent (add_flow f s).1
unfolding add_flow
add_flow-IsConsistent f s k =
    elim (Bool-cases (
      not (has_budget s.budget)
      || s.quantum == 0
      || str_eq f.device_id ""
      || str_eq f.controller_id ""
      || f.weight == 0
      || f.max_outstanding == 0)) [
        | inl g ↦ simp (add_flow, g) k
        | inr g ↦ elim (Bool-cases (has_flow f.device_id s.flows)) [
          | inl h ↦ simp (add_flow, g, h) k
          | inr h ↦
              simp (add_flow, g, h) (added-IsConsistent f s (has_flow-none f.device_id s.flows h) k)
        ]
      ]
