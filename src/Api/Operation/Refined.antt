-- ===== src/Api/Operation/Refined.antt =====
-- What an operation promises to the caller who starts it and waits for it, beside what the threads do.
use kairos_boot.Base.{
  ℕ, ◌≡◌, refl, sym, ◌∙◌, subst, ◌⊎◌, Bool, Bool-cases, inl, inr, true, false, ◌||◌, not, Option,
  none, some, arith, if◌then◌else◌,
}
use kairos_boot.Api.Operation.{
  OperationPhase, created, running, succeeded, failed, cancelled, Operation, Outcome, ErrorPayload,
  ResultPayload, is_created, is_running, is_succeeded, terminal, start, cancel_locked,
  finish_hook_invocation, register_cancellation_hook, added_hook, unregister_cancellation_hook,
  clear_cancellation_hook, published, publish_terminal, enter, cancelled_error,
}
use kairos_boot.Api.Operation.Threads.{
  System, system, Step, starts, cancels, requests_stop, calls_hook, has_no_hook, finishes_hook,
  enters, decides, registers, unregisters, is_unregistered, ends, clears, is_drained, publishes,
  Reach, here, later,
}
use kairos_boot.Api.Operation.Published.{IsFinal, published-IsFinal}
use kairos_boot.Api.Operation.Sound.{IsOrderly, Reach-IsOrderly}

-- An operation as its owner sees it; the Boolean says that cancellation was asked for.
pub data Promise : Type 0 where
  untouched : Promise
  launched : Bool → Promise
  underway : Bool → Promise
  settled : OperationPhase → Option ErrorPayload → Option ResultPayload → Promise

-- It is launched once, or withdrawn; it begins, and settles once, never with success where it was asked to
-- cancel; what is settled stays.
pub data Moves : Promise → Promise → Type 0 where
  launch : Moves untouched (launched false)
  withdraw : Moves untouched (settled cancelled (some cancelled_error) none)
  ask_early : Moves (launched false) (launched true)
  begin : (asked : Bool) → Moves (launched asked) (underway asked)
  ask : Moves (underway false) (underway true)
  settle :
      (asked : Bool) (phase : OperationPhase) (error : Option ErrorPayload)
      (result : Option ResultPayload)
      → IsFinal asked phase error result
      → Moves (underway asked) (settled phase error result)

pub data Follows (p : Promise) : Promise → Type 0 where
  stays : Follows p p
  moves : {q r : Promise} → Follows p q → Moves q r → Follows p r

unfoldable pub promise_of :
    OperationPhase → Bool → Bool → Option ErrorPayload → Option ResultPayload → Promise
promise_of created started asked e r = if started then launched asked else untouched
promise_of running started asked e r = underway asked
promise_of succeeded started asked e r = settled succeeded e r
promise_of failed started asked e r = settled failed e r
promise_of cancelled started asked e r = settled cancelled e r

unfoldable pub promise : Operation → Promise
unfolding promise_of
promise o = promise_of o.phase o.started o.cancel_requested o.error o.command_result

-- One step of the threads is one of the promise, or none.
abbrev Keeps : Promise → Promise → Type 0
Keeps p q = (q ≡ p) ⊎ Moves p q

start-Keeps : (spawns : Bool) (o : Operation) → Keeps (promise o) (promise (start spawns o).1)
unfolding start promise
start-Keeps spawns o =
    elim (Bool-cases (o.started || not (is_created o.phase) || o.cancel_requested)) [
      | inl e ↦ rw e (inl refl)
      | inr e ↦ elim (Bool-cases spawns) [
        | inl x ↦
            let p : o.phase ≡ created = ground arith in
            let b : o.started ≡ false = ground arith in
            let c : o.cancel_requested ≡ false = ground arith in rw (p, b, c, x) (inr launch)
        | inr x ↦ rw (e, x) (inl refl)
      ]
    ]

cancel-Keeps :
    (o : Operation)
    → (is_succeeded o.phase ≡ false → o.command_result ≡ none)
    → (o.started ≡ false → terminal o.phase ≡ false → o.phase ≡ created)
    → Keeps (promise o) (promise (cancel_locked o).1)
unfolding cancel_locked promise
cancel-Keeps o h k = elim (Bool-cases (terminal o.phase || o.cancel_requested)) [
  | inl e ↦ rw e (inl refl)
  | inr e ↦
      let c : o.cancel_requested ≡ false = ground arith in
      let t : terminal o.phase ≡ false = ground arith in
      elim (Bool-cases o.started) [
        | inr x ↦
            let p : o.phase ≡ created = k x t in
            let n : o.command_result ≡ none = ground arith in rw (p, c, x, n) (inr withdraw)
        | inl x ↦ elim (Bool-cases (is_created o.phase)) [
          | inl y ↦ let p : o.phase ≡ created = ground arith in rw (p, c, x) (inr ask_early)
          | inr y ↦ let p : o.phase ≡ running = ground arith in rw (p, c, x) (inr ask)
        ]
      ]
]

enter-Keeps : (o : Operation) → o.started ≡ true → Keeps (promise o) (promise (enter o).1)
unfolding enter promise
enter-Keeps o h = elim (Bool-cases (is_created o.phase)) [
  | inl e ↦ let p : o.phase ≡ created = ground arith in rw (p, h) (inr (begin o.cancel_requested))
  | inr e ↦ rw e (inl refl)
]

register-Keeps :
    (hook : Option ℕ) (o : Operation) → promise (register_cancellation_hook hook o).1 ≡ promise o
unfolding register_cancellation_hook added_hook promise
register-Keeps hook o = ground arith

settled-promise :
    (out : Outcome) (o : Operation)
    → terminal out.phase ≡ true
    → promise
        (record o { phase = out.phase; error = out.error; command_result = out.command_result })
      ≡ settled out.phase out.error out.command_result
unfolding promise
settled-promise out o h = ground arith

underway-promise : (o : Operation) → o.phase ≡ running → promise o ≡ underway o.cancel_requested
unfolding promise
underway-promise o p = rw p refl

publish-Keeps :
    (out : Outcome) (o : Operation) → Keeps (promise o) (promise (publish_terminal out o))
unfolding publish_terminal
publish-Keeps out o = elim (Bool-cases (is_running o.phase)) [
  | inl e ↦
      let p : o.phase ≡ running = ground arith in
      let final = published o.cancel_requested out in
      let f = published-IsFinal o.cancel_requested out in
      let from : promise o ≡ underway o.cancel_requested = underway-promise o p in
      rw (e, from, settled-promise final o f.ended)
        (inr (settle o.cancel_requested final.phase final.error final.command_result f))
  | inr e ↦ rw e (inl refl)
]

Step-Keeps : {s t : System} → IsOrderly s → Step s t → Keeps (promise s.op) (promise t.op)
Step-Keeps {s} h (starts spawns) = start-Keeps spawns s.op
Step-Keeps {s} h cancels = cancel-Keeps s.op h.emptied (ground (arith, h.launched, h.fresh, h.runs))
Step-Keeps h (requests_stop hook e) = inl (unfold promise in refl)
Step-Keeps h (calls_hook callback e) = inl refl
Step-Keeps h (has_no_hook e) = inl refl
Step-Keeps h (finishes_hook e) = inl (unfold promise finish_hook_invocation in refl)
Step-Keeps {s} h (enters e) = enter-Keeps s.op (ground (arith, h.launched))
Step-Keeps h (decides has_task e) = inl refl
Step-Keeps {s} h (registers hook e) = inl (register-Keeps hook s.op)
Step-Keeps h (unregisters generation e) = inl (unfold promise unregister_cancellation_hook in refl)
Step-Keeps h (is_unregistered e z) = inl refl
Step-Keeps h (ends x e) = inl refl
Step-Keeps h (clears out e) = inl (unfold promise clear_cancellation_hook in refl)
Step-Keeps h (is_drained out e z) = inl refl
Step-Keeps {s} h (publishes out e) = publish-Keeps out s.op

Follows-Keeps : {p q r : Promise} → Follows p q → Keeps q r → Follows p r
Follows-Keeps {p} f (inl e) = subst (λ x. Follows p x) (sym e) f
Follows-Keeps f (inr m) = moves f m

pub Reach-trans : {s t u : System} → Reach s t → Reach t u → Reach s u
Reach-trans r here = r
Reach-trans r (later q x) = later (Reach-trans r q) x

-- The threads keep the promise: from any state that an operation reaches, whatever they do next, the caller sees a
-- course of the promise. In particular the operation is launched once at most, it settles once at most, and then
-- its phase, error and result stay; and where cancellation was asked for before it settled, it does not
-- settle with success.
pub Reach-Follows :
    (has_task : Bool) {s t : System}
    → Reach (system has_task) s
    → Reach s t
    → Follows (promise s.op) (promise t.op)
Reach-Follows has_task r here = stays
Reach-Follows has_task r (later q x) =
    Follows-Keeps (Reach-Follows has_task r q)
      (Step-Keeps (Reach-IsOrderly has_task (Reach-trans r q)) x)

abbrev is_settled : Promise → Bool
is_settled (settled p e r) = true
is_settled _ = false

Moves-settled : {p q : Promise} → is_settled p ≡ true → Moves p q → q ≡ p
Moves-settled e launch = absurd (ground arith)
Moves-settled e withdraw = absurd (ground arith)
Moves-settled e ask_early = absurd (ground arith)
Moves-settled e (begin asked) = absurd (ground arith)
Moves-settled e ask = absurd (ground arith)
Moves-settled e (settle asked p x r f) = absurd (ground arith)

Follows-settled : {p q : Promise} → is_settled p ≡ true → Follows p q → q ≡ p
Follows-settled e stays = refl
Follows-settled {p} e (moves f m) =
    let same = Follows-settled e f in Moves-settled (rw same e) m ∙ same

promise-terminal :
    (o : Operation) → terminal o.phase ≡ true → promise o ≡ settled o.phase o.error o.command_result
unfolding promise
promise-terminal o h = ground arith

promise-settled :
    (o : Operation) (p : OperationPhase) (e : Option ErrorPayload) (r : Option ResultPayload)
    → promise o ≡ settled p e r
    → (o.phase ≡ p) × (o.error ≡ e) × (o.command_result ≡ r)
unfolding promise
promise-settled o p e r h = ground arith

-- An operation that a reader has seen in a final state keeps its phase, its error and its result, whatever
-- the threads do afterwards.
pub Reach-terminal :
    (has_task : Bool) {s t : System}
    → Reach (system has_task) s
    → terminal s.op.phase ≡ true
    → Reach s t
    → (t.op.phase ≡ s.op.phase)
      × (t.op.error ≡ s.op.error)
      × (t.op.command_result ≡ s.op.command_result)
Reach-terminal has_task {s} {t} r h q =
    let p = promise-terminal s.op h in
    let same = Follows-settled (rw p refl) (Reach-Follows has_task r q) in
    promise-settled t.op s.op.phase s.op.error s.op.command_result (same ∙ p)
