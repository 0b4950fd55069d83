-- ===== src/Fleet/Scheduler/GivenBack.antt =====
-- A dispatch that was given and then given back, not submitted.
use kairos_boot.Base.{ℕ, ◌≤◌, ◌<◌, ◌≡◌, refl, ap, subst, ◌∙◌, Bool, true, some, arith}
use kairos_boot.Transport.Budget.{Budget, word, release_charge}
use kairos_boot.Transport.Budget.Charges.{release_charge-try_acquire}
use kairos_boot.Fleet.Scheduler.{
  Flow, Outstanding, Scheduler, Grant, find_flow, find_outstanding, erase_outstanding,
}
use kairos_boot.Fleet.Scheduler.Calls.{
  Settlement, not_submitted, settle, finish, return_memory, next,
}
use kairos_boot.Fleet.Scheduler.Flows.{
  unsent, cleared, ledger, find_flow-device_id, find_flow-put_flow, find_flow-ledger_inv,
}
use kairos_boot.Fleet.Scheduler.Grants.{taken_from, Served, Granted}
use kairos_boot.Fleet.Scheduler.Service.{next-Served, unsent-Granted}
use kairos_boot.Fleet.Scheduler.Settling.{accepted, settle_accepts, accepted-Settled, Settled}

-- `u` owes nothing to the dispatch that was taken from `s`.
pub record IsGivenBack (b : Budget) (s : Scheduler) (ok : Bool) (u : Scheduler) : Type 0 where
  pub done : ok ≡ true
  pub outstanding : u.outstanding ≡ s.outstanding
  pub unsent : unsent u.flows ≡ unsent s.flows
  pub budget : (c : Budget) × (u.budget ≡ some c) × (c.used ≡ b.used)

flow-Granted :
    (b : Budget) (maximum : ℕ) (s t : Scheduler) (g : Grant)
    → Granted b maximum s g t
    → (f : Flow) × (find_flow g.device_id t.flows ≡ some f) × (0 < f.outstanding_count)
unfolding cleared
flow-Granted b maximum s t g h =
    let k = find_flow-device_id g.device_id (ledger s.flows) h.flow h.found in
    let p =
      find_flow-put_flow g.device_id (ledger s.flows) h.flow (taken_from h.flow g.bytes) h.found
        k in
    let r = find_flow-ledger_inv g.device_id t.flows (taken_from h.flow g.bytes) (rw h.flows p) in
    (r.0, r.1, omega (arith, ap (λ f. f.outstanding_count) r.2))

entry-Granted :
    (b : Budget) (maximum : ℕ) (s t : Scheduler) (g : Grant)
    → Granted b maximum s g t
    → (find_outstanding g.token t.outstanding
        ≡ some (record { token = g.token; device_id = g.device_id; bytes = g.bytes }))
      × (erase_outstanding g.token t.outstanding ≡ s.outstanding)
unfolding find_outstanding erase_outstanding
entry-Granted b maximum s t g h = (rw h.entry (ground arith), rw h.entry (ground arith))

finish_accepts :
    (g : Grant) (result : Settlement) (s t : Scheduler)
    → 0 < g.token
    → settle g.token g.device_id g.bytes result s ≡ (true, t)
    → finish g result s ≡ (true, return_memory g.bytes t)
unfolding finish
finish_accepts g result s t pos e = rw e (ground arith)

return_memory-some :
    (bytes : ℕ) (s : Scheduler) (b : Budget)
    → s.budget ≡ some b
    → (return_memory bytes s).budget ≡ some (release_charge b bytes)
unfolding return_memory
return_memory-some bytes s b e = rw e refl

return_memory_keeps :
    (bytes : ℕ) (s : Scheduler)
    → ((return_memory bytes s).flows ≡ s.flows)
      × ((return_memory bytes s).outstanding ≡ s.outstanding)
unfolding return_memory
return_memory_keeps bytes s = ground arith

-- A dispatch that `next` gave, finished as not submitted, is accepted and leaves the dispatches, the
-- bytes to send and the charge of the budget as they were, where no counter runs over.
pub finish-next :
    (maximum : ℕ) (s : Scheduler) (b : Budget) (g : Grant) (t : Scheduler)
    → s.budget ≡ some b
    → b.used ≤ b.limit
    → b.limit < word
    → unsent s.flows < word
    → next maximum s ≡ (some g, t)
    → IsGivenBack b s (finish g not_submitted t).0 (finish g not_submitted t).1
finish-next maximum s b g t e fits small room n =
    let h : Granted b maximum s g t =
      subst (λ p. Served b maximum s p.0 p.1) n (next-Served maximum s b e) in
    let (out, erased) = entry-Granted b maximum s t g h in
    let (f, k, pos) = flow-Granted b maximum s t g h in
    let o : Outstanding = record { token = g.token; device_id = g.device_id; bytes = g.bytes } in
    let v = accepted g.token g.bytes not_submitted o f t in
    let moved = unsent-Granted b maximum s t g h in
    let a = settle_accepts g.token g.device_id g.bytes not_submitted t o f out refl refl k pos in
    let r : Settled g.token g.bytes not_submitted t v =
      accepted-Settled g.token g.bytes not_submitted t o f (omega arith) out refl k pos in
    let m = return_memory_keeps g.bytes v in
    rw (finish_accepts g not_submitted t v h.token_pos a) (record {
      done = refl;
      outstanding = m.1 ∙ erased;
      unsent = omega (arith, ap unsent m.0, r.unsent, moved);
      budget = (
        release_charge h.budget g.bytes,
        return_memory-some g.bytes v h.budget h.charged,
        (release_charge-try_acquire b h.budget g.bytes fits small h.taken).2,
      );
    })
