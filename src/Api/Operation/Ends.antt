-- ===== src/Api/Operation/Ends.antt =====
-- From a state of the threads to the end of the operation.
use kairos_boot.Base.{
  ℕ, ◌≡◌, refl, ap, ◌∙◌, Bool, Bool-cases, inl, inr, true, Option, none, some, arith,
}
use kairos_boot.Api.Operation.{
  Outcome, throws_other, is_created, is_running, terminal, cancel_locked, enter, publish_terminal,
}
use kairos_boot.Api.Operation.Threads.{
  Worker, absent, spawned, entered, working, unregistering, finished, draining, publishing, gone,
  Canceller, idle, requested, stopped, called, over, System, system, after_enter, decided, Step,
  cancels, requests_stop, calls_hook, has_no_hook, finishes_hook, enters, decides, is_unregistered,
  ends, clears, is_drained, publishes, Reach, here, later,
}
use kairos_boot.Api.Operation.Published.{published-IsFinal}
use kairos_boot.Api.Operation.Sound.{IsOrderly, Step-IsOrderly, Reach-IsOrderly, pending}
use kairos_boot.Api.Operation.Refined.{Reach-trans}

-- A final state can be reached.
abbrev pub Ends : System → Type 0
Ends s = (t : System) × Reach s t × (terminal t.op.phase ≡ true)

Ends-Step : {s u : System} → Step s u → Ends u → Ends s
Ends-Step x (t, r, e) = (t, Reach-trans (later here x) r, e)

Ends-Reach : {s u : System} → Reach s u → Ends u → Ends s
Ends-Reach q (t, r, e) = (t, Reach-trans q r, e)

-- The same system, behind the end of `cancel`.
abbrev Calm : System → Type 0
Calm s =
    (t : System) × Reach s t
    × IsOrderly t
    × (t.worker ≡ s.worker)
    × (t.op.hook_invocations_in_flight ≡ 0)

Calm-Step : {s u : System} → IsOrderly s → Step s u → u.worker ≡ s.worker → Calm u → Calm s
Calm-Step h x e (t, r, k, w, z) = (t, Reach-trans (later here x) r, k, w ∙ e, z)

Calm-here : (s : System) → IsOrderly s → pending s.canceller ≡ 0 → Calm s
Calm-here s h e = (s, here, h, refl, h.flying ∙ e)

Calm-called : (s : System) → IsOrderly s → s.canceller ≡ called → Calm s
Calm-called s h e =
    let x = finishes_hook e in Calm-Step h x refl (Calm-here _ (Step-IsOrderly x h) refl)

Calm-stopped : (hook : Option ℕ) (s : System) → IsOrderly s → s.canceller ≡ stopped hook → Calm s
Calm-stopped none s h e =
    let x = has_no_hook e in Calm-Step h x refl (Calm-here _ (Step-IsOrderly x h) refl)
Calm-stopped (some c) s h e =
    let x = calls_hook c e in Calm-Step h x refl (Calm-called _ (Step-IsOrderly x h) refl)

calm : (c : Canceller) (s : System) → s.canceller ≡ c → IsOrderly s → Calm s
calm idle s e h = Calm-here s h (ap pending e)
calm (requested hook) s e h =
    let x = requests_stop hook e in
    Calm-Step h x refl (Calm-stopped hook _ (Step-IsOrderly x h) refl)
calm (stopped hook) s e h = Calm-stopped hook s h e
calm called s e h = Calm-called s h e
calm over s e h = Calm-here s h (ap pending e)

publishing-Ends : (out : Outcome) (s : System) → IsOrderly s → s.worker ≡ publishing out → Ends s
unfolding publish_terminal
publishing-Ends out s h e =
    let r : is_running s.op.phase ≡ true = ground (arith, h.runs) in
    Ends-Step (publishes out e) (_, here, rw r (published-IsFinal s.op.cancel_requested out).ended)

draining-Ends : (out : Outcome) (s : System) → IsOrderly s → s.worker ≡ draining out → Ends s
draining-Ends out s h e =
    let (t, r, k, w, z) = calm s.canceller s refl h in
    let x = is_drained out (w ∙ e) z in
    Ends-Reach r (Ends-Step x (publishing-Ends out _ (Step-IsOrderly x k) refl))

finished-Ends : (out : Outcome) (s : System) → IsOrderly s → s.worker ≡ finished out → Ends s
finished-Ends out s h e =
    let x = clears out e in Ends-Step x (draining-Ends out _ (Step-IsOrderly x h) refl)

-- A task that runs may end.
working-Ends : (s : System) → IsOrderly s → s.worker ≡ working → Ends s
working-Ends s h e =
    let x = ends throws_other e in Ends-Step x (finished-Ends _ _ (Step-IsOrderly x h) refl)

decided-Ends :
    (choice : Option Outcome) (s : System) → IsOrderly s → s.worker ≡ decided choice → Ends s
unfolding decided
decided-Ends none s h e = working-Ends s h e
decided-Ends (some out) s h e = finished-Ends out s h e

entered-Ends : (has_task : Bool) (s : System) → IsOrderly s → s.worker ≡ entered has_task → Ends s
entered-Ends has_task s h e =
    let x = decides has_task e in Ends-Step x (decided-Ends _ _ (Step-IsOrderly x h) refl)

spawned-Ends : (s : System) → IsOrderly s → s.worker ≡ spawned → Ends s
spawned-Ends s h e =
    let c : is_created s.op.phase ≡ true = ground (arith, h.fresh) in
    let x = enters e in
    Ends-Step x
      (entered-Ends s.op.has_task _ (Step-IsOrderly x h) (unfold enter after_enter in rw c refl))

absent-Ends : (s : System) → IsOrderly s → s.worker ≡ absent → Ends s
unfolding cancel_locked
absent-Ends s h e = elim (Bool-cases (terminal s.op.phase)) [
  | inl t ↦ (s, here, t)
  | inr t ↦ Ends-Step cancels (_, here, ground (arith, h.fresh, h.launched))
]

Ends-all : (w : Worker) (s : System) → s.worker ≡ w → IsOrderly s → Ends s
Ends-all absent s e h = absent-Ends s h e
Ends-all spawned s e h = spawned-Ends s h e
Ends-all (entered has_task) s e h = entered-Ends has_task s h e
Ends-all working s e h = working-Ends s h e
Ends-all unregistering s e h =
    let (t, r, k, w, z) = calm s.canceller s refl h in
    let x = is_unregistered (w ∙ e) z in
    Ends-Reach r (Ends-Step x (working-Ends _ (Step-IsOrderly x k) refl))
Ends-all (finished out) s e h = finished-Ends out s h e
Ends-all (draining out) s e h = draining-Ends out s h e
Ends-all (publishing out) s e h = publishing-Ends out s h e
Ends-all gone s e h = (s, here, ground (arith, h.fresh, h.runs))

-- From every state that an operation reaches, however its threads have interleaved, a final state can be reached: no
-- wait for the hooks in flight is stuck, and no cancellation, whenever it comes, keeps the operation from its end.
pub Reach-Ends : (has_task : Bool) {s : System} → Reach (system has_task) s → Ends s
Reach-Ends has_task {s} r = Ends-all s.worker s refl (Reach-IsOrderly has_task r)
