-- ===== src/Fleet/Scheduler/Settling.antt =====
-- What the settlement of a dispatch does to its flow.
use text.Mathlib.Text.{◌==◌ as str_eq}
use text.Mathlib.TextEquality.{eq_iff}
use kairos_boot.Base.{
  ℕ, ◌+◌, ◌-◌, ◌≤◌, ◌<◌, ◌≡◌, ◌⊎◌, refl, ◌∙◌, Bool, true, false, ◌&&◌, ◌||◌, not, some, List, [],
  ◌∷◌, String, arith, ◌==◌, Option-cases, Bool-cases, inl, inr,
}
use kairos_boot.Transport.Budget.{word}
use kairos_boot.Fleet.Scheduler.{
  Flow, Outstanding, Scheduler, find_flow, put_flow, find_outstanding, saturating_add,
  erase_outstanding,
}
use kairos_boot.Fleet.Scheduler.Calls.{
  Settlement, fully_transferred, not_submitted, partial_or_unknown, settled_flow, settle,
}
use kairos_boot.Fleet.Scheduler.Flows.{
  unsent, in_flight, find_flow-device_id, unsent-put_flow, in_flight-erase_outstanding,
  find_flow-put_flow, find_flow-put_flow_other,
}

-- The bytes that a settlement gives back to the flow.
abbrev pub refund : Settlement → ℕ → ℕ
refund not_submitted bytes = bytes
refund _ bytes = 0

abbrev StaysRetired : Settlement → Flow → Flow → Type 0
StaysRetired partial_or_unknown f g = (g.retired ≡ true) × (g.requested ≡ false)
StaysRetired _ f g = (g.retired ≡ f.retired) × (g.requested ≡ f.requested)

-- The account of one accepted settlement.
pub record Settled (token bytes : ℕ) (result : Settlement) (s t : Scheduler) : Type 0 where
  pub entry : Outstanding
  pub found : find_outstanding token s.outstanding ≡ some entry
  pub whole : entry.bytes ≡ bytes
  pub erased : t.outstanding ≡ erase_outstanding token s.outstanding
  pub landed : in_flight t.outstanding + bytes ≡ in_flight s.outstanding
  pub unsent : unsent t.flows ≡ unsent s.flows + refund result bytes
  pub before : Flow
  pub held : find_flow entry.device_id s.flows ≡ some before
  pub after : Flow
  pub left : find_flow entry.device_id t.flows ≡ some after
  pub credited : after.remaining ≡ before.remaining + refund result bytes
  pub others :
      (d : String) → str_eq entry.device_id d ≡ false → find_flow d t.flows ≡ find_flow d s.flows
  pub counted : after.outstanding_count + 1 ≡ before.outstanding_count
  pub standing : StaysRetired result before after
  pub budget : t.budget ≡ s.budget

abbrev pub Settles : ℕ → ℕ → Settlement → Scheduler → Bool → Scheduler → Type 0
Settles token bytes result s false t = t ≡ s
Settles token bytes result s true t = Settled token bytes result s t

remaining_le_unsent :
    (d : String) (fs : List Flow) (f : Flow) → find_flow d fs ≡ some f → f.remaining ≤ unsent fs
unfolding find_flow unsent
remaining_le_unsent d [] f h = ground arith
remaining_le_unsent d (a ∷ fs) f h = ground (arith, remaining_le_unsent d fs f)

settled_flow-remaining :
    (result : Settlement) (bytes : ℕ) (f : Flow)
    → f.remaining + bytes < word
    → ((settled_flow result bytes f).remaining ≡ f.remaining + refund result bytes)
      × ((settled_flow result bytes f).outstanding_count ≡ f.outstanding_count - 1)
      × StaysRetired result f (settled_flow result bytes f)
      × ((settled_flow result bytes f).device_id ≡ f.device_id)
unfolding settled_flow saturating_add
settled_flow-remaining fully_transferred bytes f h = ground arith
settled_flow-remaining not_submitted bytes f h = ground arith
settled_flow-remaining partial_or_unknown bytes f h = ground arith

-- The state behind an accepted settlement.
abbrev pub accepted : ℕ → ℕ → Settlement → Outstanding → Flow → Scheduler → Scheduler
accepted token bytes result o f s = record s {
  flows = put_flow (settled_flow result bytes f) s.flows;
  outstanding = erase_outstanding token s.outstanding;
}

pub settle_accepts :
    (token : ℕ) (expected : String) (bytes : ℕ) (result : Settlement) (s : Scheduler)
    (o : Outstanding) (f : Flow)
    → find_outstanding token s.outstanding ≡ some o
    → o.bytes ≡ bytes
    → o.device_id ≡ expected
    → find_flow o.device_id s.flows ≡ some f
    → 0 < f.outstanding_count
    → settle token expected bytes result s ≡ (true, accepted token bytes result o f s)
unfolding settle
settle_accepts token expected bytes result s o f e w d n pos =
    ground (arith, eq_iff o.device_id expected)

pub accepted-Settled :
    (token bytes : ℕ) (result : Settlement) (s : Scheduler) (o : Outstanding) (f : Flow)
    → unsent s.flows + bytes < word
    → find_outstanding token s.outstanding ≡ some o
    → o.bytes ≡ bytes
    → find_flow o.device_id s.flows ≡ some f
    → 0 < f.outstanding_count
    → Settled token bytes result s (record s {
      flows = put_flow (settled_flow result bytes f) s.flows;
      outstanding = erase_outstanding token s.outstanding;
    })
accepted-Settled token bytes result s o f small e w n pos =
    let g = settled_flow result bytes f in
    let k = find_flow-device_id o.device_id s.flows f n in
    let r =
      settled_flow-remaining result bytes f
        (omega (arith, remaining_le_unsent o.device_id s.flows f n)) in
    let same : g.device_id ≡ o.device_id = r.3 ∙ k in
    record {
      entry = o;
      found = e;
      whole = w;
      erased = refl;
      landed = omega (arith, in_flight-erase_outstanding token s.outstanding o e);
      unsent = omega (arith, unsent-put_flow o.device_id s.flows f g n same);
      before = f;
      held = n;
      after = g;
      left = find_flow-put_flow o.device_id s.flows f g n same;
      credited = r.0;
      others = λ d x. find_flow-put_flow_other d s.flows g (rw same x);
      counted = omega arith;
      standing = r.2;
      budget = refl;
    }

pub settle-cases :
    (token : ℕ) (expected : String) (bytes : ℕ) (result : Settlement) (s : Scheduler)
    → (settle token expected bytes result s ≡ (false, s))
      ⊎ ((o : Outstanding) × (f : Flow) × (find_outstanding token s.outstanding ≡ some o)
          × (o.bytes ≡ bytes)
          × (find_flow o.device_id s.flows ≡ some f)
          × (0 < f.outstanding_count)
          × (settle token expected bytes result s ≡ (true, accepted token bytes result o f s)))
unfolding settle
settle-cases token expected bytes result s =
    elim (Option-cases (find_outstanding token s.outstanding)) [
      | inl e ↦ inl (ground arith)
      | inr (o, e) ↦
          elim (Bool-cases (
            not (o.bytes == bytes)
            || (not (str_eq expected "") && not (str_eq o.device_id expected)))) [
              | inl x ↦ inl (ground arith)
              | inr x ↦ elim (Option-cases (find_flow o.device_id s.flows)) [
                | inl n ↦ inl (ground arith)
                | inr (f, n) ↦ elim (Bool-cases (f.outstanding_count == 0)) [
                  | inl z ↦ inl (ground arith)
                  | inr z ↦ inr (o, f, e, ground arith, n, ground arith, ground arith)
                ]
              ]
            ]
    ]

-- A settlement either changes nothing or ends one dispatch of the same bytes, lowers its flow's count
-- and gives this flow back what was not submitted; one that is partial or unknown retires the flow. No
-- other flow changes. The bytes of all flows and these are fewer than two to the 64.
pub settle-Settles :
    (token : ℕ) (expected : String) (bytes : ℕ) (result : Settlement) (s : Scheduler)
    → unsent s.flows + bytes < word
    → Settles token bytes result s
        (settle token expected bytes result s).0
        (settle token expected bytes result s).1
settle-Settles token expected bytes result s small =
    elim (settle-cases token expected bytes result s) [
      | inl e ↦ rw e refl
      | inr (o, f, e, w, n, pos, x) ↦
          rw x (accepted-Settled token bytes result s o f small e w n pos)
    ]
