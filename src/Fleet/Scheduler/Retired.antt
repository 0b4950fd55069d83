-- ===== src/Fleet/Scheduler/Retired.antt =====
-- What `next` does for a flow that was retired.
use kairos_boot.Base.{
  ℕ, ◌≡◌, ◌≢◌, refl, sym, subst, ◌∙◌, true, false, some, String, arith, Option-cases, inl, inr,
}
use kairos_boot.Fleet.Scheduler.{Flow, Scheduler, Grant, find_flow}
use kairos_boot.Fleet.Scheduler.Calls.{next, retire_flow}
use kairos_boot.Fleet.Scheduler.Flows.{
  cleared, ledger, find_flow-device_id, find_flow-put_flow, find_flow-ledger,
}
use kairos_boot.Fleet.Scheduler.Grants.{Served, Granted}
use kairos_boot.Fleet.Scheduler.Service.{next-Served}

retire_flow-retired :
    (d : String) (s t : Scheduler)
    → retire_flow d s ≡ (true, t)
    → (f : Flow) × (find_flow d t.flows ≡ some f) × (f.retired ≡ true)
unfolding retire_flow
retire_flow-retired d s t h = elim (Option-cases (find_flow d s.flows)) [
  | inl e ↦ ground arith
  | inr (f, e) ↦ (
    record f { retired = true; requested = false },
    ground (
      arith,
      find_flow-put_flow d s.flows f (record f { retired = true; requested = false }) e
          (find_flow-device_id d s.flows f e),
    ),
    refl,
  )
]

same_flow : (f g : Flow) → some (cleared f) ≡ some g → f.retired ≡ true → g.retired ≡ true
unfolding cleared
same_flow f g e r = ground arith

-- After a flow was retired, `next` gives no dispatch of its device, whatever the maximum.
pub next-retire_flow :
    (d : String) (maximum : ℕ) (s t u : Scheduler) (g : Grant)
    → retire_flow d s ≡ (true, t)
    → next maximum t ≡ (some g, u)
    → g.device_id ≢ d
unfolding next
next-retire_flow d maximum s t u g h n e = elim (Option-cases t.budget) [
  | inl x ↦ ground arith
  | inr (b, x) ↦
      let k : Granted b maximum t g u =
        subst (λ p. Served b maximum t p.0 p.1) n (next-Served maximum t b x) in
      let (f, p, r) = retire_flow-retired d s t h in
      let q = find_flow-ledger d t.flows f p in
      let found = subst (λ i. find_flow i (ledger t.flows) ≡ some k.flow) e k.found in
      let same = sym q ∙ found in ground (arith, same_flow f k.flow same r, k.working)
]
