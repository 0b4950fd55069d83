-- ===== src/Fleet/Scheduler/Requests.antt =====
-- What the permit provider of one flow is given by `acquire_for`.
use text.Mathlib.Text.{◌==◌ as str_eq}
use text.Mathlib.TextEquality.{eq_iff}
use kairos_boot.Base.{
  ℕ, zero, suc, ◌⊎◌, subst, ◌≡◌, refl, ap, ◌∙◌, sym, true, false, ◌||◌, not, Option, none, some,
  String, arith, ◌==◌, leb, min, length, Option-cases, Bool-cases, inl, inr,
}
use kairos_boot.Transport.Budget.{Budget, available, try_acquire}
use kairos_boot.Fleet.Scheduler.{
  Flow, Scheduler, Controller, Grant, Look, find_flow, put_flow, find_controller, is_eligible,
  topped_up, u64_max, granted, dispatch, consider, flow_at, attempts, next_for_controller, advance,
  settle_cursor, allocate_token,
}
use kairos_boot.Fleet.Scheduler.Calls.{stored, serve_request, acquire_for}
use kairos_boot.Fleet.Scheduler.Flows.{unsent, unsent-ledger, unsent-put_flow, find_flow-device_id}
use kairos_boot.Fleet.Scheduler.Grants.{Served, Granted, Idle-refl, next_for_controller-Served}
use kairos_boot.Fleet.Scheduler.Service.{stored-Served}

abbrev IsFor : String → Option Grant → Type 0
IsFor device none = Unit {0}
IsFor device (some g) = g.device_id ≡ device

module _ (b : Budget) (maximum : ℕ) (required : String) (named : str_eq required "" ≡ false) where
  module _ (rest : Controller → Scheduler → Look) where
    dispatch-IsFor :
        (f : Flow) (desired : ℕ) (c : Controller) (s : Scheduler)
        → ((c : Controller) (u : Scheduler) → IsFor required (rest c u).0)
        → f.device_id ≡ required
        → IsFor required (dispatch rest b f desired c s).0
    unfolding dispatch granted
    dispatch-IsFor f desired c s more e =
        let deficit = topped_up s.quantum f in
        let bytes = min deficit desired in
        let s' : Scheduler = record s {
          flows = put_flow (record f { deficit = deficit }) s.flows;
        } in
        elim (Bool-cases (bytes == 0)) [
          | inl z ↦ rw z (more (advance c) s')
          | inr p ↦ elim (Option-cases (try_acquire b bytes)) [
            | inl n ↦ rw (p, n) tt
            | inr (b', a) ↦ elim (Option-cases (allocate_token s)) [
              | inl n ↦ rw (p, a, n) tt
              | inr (t, k) ↦ rw (p, a, k) e
            ]
          ]
        ]

    consider-IsFor :
        (f : Flow) (c : Controller) (s : Scheduler)
        → ((c : Controller) (u : Scheduler) → IsFor required (rest c u).0)
        → IsFor required (consider rest b maximum required f c s).0
    unfolding consider
    consider-IsFor f c s more =
        let room = min maximum (min (available b) (min f.remaining u64_max)) in
        elim (Bool-cases (is_eligible f)) [
          | inr n ↦ rw n (more (advance c) s)
          | inl e ↦ elim (Bool-cases (str_eq f.device_id required)) [
            | inr r ↦ rw (e, named, r) tt
            | inl r ↦ elim (Bool-cases (available b == 0)) [
              | inl z ↦ rw (e, named, r, z) tt
              | inr z ↦ elim (Bool-cases (room == 0)) [
                | inl q ↦ rw (e, named, r, z, q) tt
                | inr q ↦
                    rw (e, named, r, z, q)
                      (dispatch-IsFor f room c s more ((eq_iff f.device_id required).0 r))
              ]
            ]
          ]
        ]

  attempts-IsFor :
      (n : ℕ) (c : Controller) (s : Scheduler)
      → IsFor required (attempts n b maximum required c s).0
  unfolding attempts
  attempts-IsFor zero c s = tt
  attempts-IsFor (suc n) c s = elim (Option-cases (flow_at (settle_cursor c) s)) [
    | inl e ↦ rw (attempts, e) tt
    | inr (f, e) ↦
        rw (attempts, e)
          (consider-IsFor (attempts n b maximum required) f (settle_cursor c) s (attempts-IsFor n))
  ]

  next_for_controller-IsFor :
      (c : Controller) (s : Scheduler)
      → IsFor required (next_for_controller b maximum required c s).0
  unfolding next_for_controller
  next_for_controller-IsFor c s = elim (Bool-cases (length c.flows == 0 || available b == 0)) [
    | inl e ↦ rw e tt
    | inr e ↦ rw e (attempts-IsFor (length c.flows) c s)
  ]

stored-IsFor : (d : String) (l : Look) → IsFor d l.0 → IsFor d (stored l).0
unfolding stored
stored-IsFor d (none, c, s) h = tt
stored-IsFor d (some g, c, s) h = h

pub serve_request-cases :
    (b : Budget) (maximum : ℕ) (f : Flow) (s : Scheduler)
    → (serve_request b maximum f s ≡ (none, s))
      ⊎ ((c : Controller) × (serve_request b maximum f s
            ≡ stored (next_for_controller b maximum f.device_id c s)))
unfolding serve_request
serve_request-cases b maximum f s =
    elim (Option-cases (find_controller f.controller_id s.controllers)) [
      | inl e ↦ inl (ground arith)
      | inr (c, e) ↦ inr (c, ground arith)
    ]

serve_request-Served :
    (b : Budget) (maximum : ℕ) (f : Flow) (s : Scheduler)
    → str_eq f.device_id "" ≡ false
    → Served b maximum s (serve_request b maximum f s).0 (serve_request b maximum f s).1
      × IsFor f.device_id (serve_request b maximum f s).0
serve_request-Served b maximum f s named = elim (serve_request-cases b maximum f s) [
  | inl e ↦ rw e (Idle-refl s, tt)
  | inr (c, e) ↦
      let l = next_for_controller b maximum f.device_id c s in
      rw e (
        stored-Served b maximum s l (next_for_controller-Served b maximum f.device_id c s),
        stored-IsFor f.device_id l (next_for_controller-IsFor b maximum f.device_id named c s),
      )
]

-- The scheduler with the flow's request noted.
abbrev pub requesting : Flow → Scheduler → Scheduler
requesting f s = record s { flows = put_flow (record f { requested = true }) s.flows }

-- The dispatch given to a provider is its own flow's; without one no bytes and no charge moved.
abbrev pub Permits : String → Budget → ℕ → Scheduler → Option Grant → Scheduler → Type 0
Permits device b maximum s none t =
    (t.outstanding ≡ s.outstanding) × (t.budget ≡ s.budget) × (unsent t.flows ≡ unsent s.flows)
Permits device b maximum s (some g) t =
    (g.device_id ≡ device)
    × ((f : Flow) × (find_flow device s.flows ≡ some f)
        × (f.provider_attached ≡ true)
        × Granted b maximum (requesting f s) g t)

Served-Permits :
    (device : String) (b : Budget) (maximum : ℕ) (s t : Scheduler) (f : Flow) (o : Option Grant)
    → find_flow device s.flows ≡ some f
    → f.provider_attached ≡ true
    → f.device_id ≡ device
    → IsFor f.device_id o
    → Served b maximum (requesting f s) o t
    → Permits device b maximum s o t
Served-Permits device b maximum s t f none e p d i h = (
  h.outstanding,
  h.budget,
  omega (
    arith,
    ap unsent h.flows,
    unsent-ledger t.flows,
    unsent-ledger (requesting f s).flows,
    unsent-put_flow device s.flows f (record f { requested = true }) e d,
  ),
)
Served-Permits device b maximum s t f (some g) e p d i h = (i ∙ d, (f, e, p, h))

pub acquire_for-cases :
    (device : String) (maximum : ℕ) (s : Scheduler) (b : Budget)
    → s.budget ≡ some b
    → (acquire_for device maximum s ≡ (none, s))
      ⊎ ((f : Flow) × (find_flow device s.flows ≡ some f)
          × (f.provider_attached ≡ true)
          × ((acquire_for device maximum s ≡ (none, requesting f s))
              ⊎ (acquire_for device maximum s
                  ≡ serve_request b maximum (record f { requested = true }) (requesting f s))))
unfolding acquire_for
acquire_for-cases device maximum s b h = elim (Bool-cases (maximum == 0)) [
  | inl z ↦ inl (ground arith)
  | inr z ↦ elim (Option-cases (find_flow device s.flows)) [
    | inl n ↦ inl (ground arith)
    | inr (f, n) ↦ elim (Bool-cases (not f.provider_attached || f.retired || f.remaining == 0)) [
      | inl x ↦ inl (ground arith)
      | inr x ↦ elim (Bool-cases (leb f.max_outstanding f.outstanding_count)) [
        | inl y ↦ inr (f, n, ground arith, inl (ground arith))
        | inr y ↦ inr (f, n, ground arith, inr (ground arith))
      ]
    ]
  ]
]

-- A provider asks for its own flow only: `acquire_for` gives a dispatch of the device that was named, on
-- the terms of `next`, once its request is noted, or moves no bytes and charges nothing.
pub acquire_for-Permits :
    (device : String) (maximum : ℕ) (s : Scheduler) (b : Budget)
    → s.budget ≡ some b
    → str_eq device "" ≡ false
    → Permits device b maximum s (acquire_for device maximum s).0 (acquire_for device maximum s).1
acquire_for-Permits device maximum s b h named = elim (acquire_for-cases device maximum s b h) [
  | inl e ↦ rw e (refl, refl, refl)
  | inr (f, n, p, inl e) ↦ rw e (
      Served-Permits device b maximum s (requesting f s) f none n p
        (find_flow-device_id device s.flows f n) tt (Idle-refl (requesting f s)))
  | inr (f, n, p, inr e) ↦
      let d = find_flow-device_id device s.flows f n in
      let f' : Flow = record f { requested = true } in
      let r =
        serve_request-Served b maximum f' (requesting f s)
          (subst (λ i. str_eq i "" ≡ false) (sym d) named) in
      let o = serve_request b maximum f' (requesting f s) in
      rw e (Served-Permits device b maximum s o.1 f o.0 n p d r.1 r.0)
]
