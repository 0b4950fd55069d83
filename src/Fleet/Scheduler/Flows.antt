-- ===== src/Fleet/Scheduler/Flows.antt =====
-- Bytes of the flows and of the dispatches of a scheduler, and what replacing a flow does to them.
use text.Mathlib.Text.{◌==◌ as str_eq}
use text.Mathlib.TextEquality.{eq_iff}
use kairos_boot.Base.{
  ℕ, ◌+◌, ◌≡◌, refl, false, some, List, [], ◌∷◌, String, arith, Bool-cases, inl, inr,
}
use kairos_boot.Fleet.Scheduler.{
  Flow, Outstanding, find_flow, put_flow, find_outstanding, erase_outstanding,
}

-- The bytes that the flows have left.
unfoldable pub unsent : List Flow → ℕ
unsent [] = 0
unsent (f ∷ fs) = f.remaining + unsent fs

-- The bytes of the dispatches that are out.
unfoldable pub in_flight : List Outstanding → ℕ
in_flight [] = 0
in_flight (o ∷ os) = o.bytes + in_flight os

pub find_flow-device_id :
    (d : String) (fs : List Flow) (f : Flow) → find_flow d fs ≡ some f → f.device_id ≡ d
unfolding find_flow
find_flow-device_id d [] f h = ground arith
find_flow-device_id d (g ∷ fs) f h =
    ground (arith, find_flow-device_id d fs f, eq_iff g.device_id d)

pub find_flow-put_flow :
    (d : String) (fs : List Flow) (f g : Flow)
    → find_flow d fs ≡ some f
    → g.device_id ≡ d
    → find_flow d (put_flow g fs) ≡ some g
unfolding find_flow put_flow
find_flow-put_flow d [] f g h e = ground arith
find_flow-put_flow d (a ∷ fs) f g h e = ground (
  arith,
  find_flow-put_flow d fs f g,
  eq_iff a.device_id d,
  eq_iff a.device_id g.device_id,
  eq_iff g.device_id d,
)

pub find_flow-put_flow_other :
    (d : String) (fs : List Flow) (g : Flow)
    → str_eq g.device_id d ≡ false
    → find_flow d (put_flow g fs) ≡ find_flow d fs
unfolding find_flow put_flow
find_flow-put_flow_other d [] g e = refl
find_flow-put_flow_other d (a ∷ fs) g e = ground (
  arith,
  find_flow-put_flow_other d fs g,
  eq_iff a.device_id d,
  eq_iff a.device_id g.device_id,
  eq_iff g.device_id d,
)

pub unsent-put_flow :
    (d : String) (fs : List Flow) (f g : Flow)
    → find_flow d fs ≡ some f
    → g.device_id ≡ d
    → unsent (put_flow g fs) + f.remaining ≡ unsent fs + g.remaining
unfolding find_flow put_flow unsent
unsent-put_flow d [] f g h e = ground arith
unsent-put_flow d (a ∷ fs) f g h e =
    ground (arith, unsent-put_flow d fs f g, eq_iff a.device_id d, eq_iff a.device_id g.device_id)

pub in_flight-erase_outstanding :
    (t : ℕ) (os : List Outstanding) (o : Outstanding)
    → find_outstanding t os ≡ some o
    → in_flight (erase_outstanding t os) + o.bytes ≡ in_flight os
unfolding find_outstanding erase_outstanding in_flight
in_flight-erase_outstanding t [] o h = ground arith
in_flight-erase_outstanding t (a ∷ os) o h = ground (arith, in_flight-erase_outstanding t os o)

-- The flows without what the rounds of service remember of them.
unfoldable pub cleared : Flow → Flow
cleared f = record f { deficit = 0 }

unfoldable pub ledger : List Flow → List Flow
ledger [] = []
ledger (f ∷ fs) = cleared f ∷ ledger fs

pub find_flow-ledger :
    (d : String) (fs : List Flow) (f : Flow)
    → find_flow d fs ≡ some f
    → find_flow d (ledger fs) ≡ some (cleared f)
unfolding find_flow ledger cleared
find_flow-ledger d [] f h = ground arith
find_flow-ledger d (a ∷ fs) f h = ground (arith, find_flow-ledger d fs f)

pub ledger-put_flow :
    (g : Flow) (fs : List Flow) → ledger (put_flow g fs) ≡ put_flow (cleared g) (ledger fs)
unfolding put_flow ledger cleared
ledger-put_flow g [] = refl
ledger-put_flow g (a ∷ fs) = ground (arith, ledger-put_flow g fs)

pub put_flow_self :
    (d : String) (fs : List Flow) (f : Flow) → find_flow d fs ≡ some f → put_flow f fs ≡ fs
unfolding find_flow put_flow
put_flow_self d [] f h = refl
put_flow_self d (a ∷ fs) f h = ground (
  arith,
  put_flow_self d fs f,
  find_flow-device_id d fs f,
  eq_iff a.device_id d,
  eq_iff a.device_id f.device_id,
)

pub put_flow-put_flow :
    (f g : Flow) (fs : List Flow)
    → f.device_id ≡ g.device_id
    → put_flow f (put_flow g fs) ≡ put_flow f fs
unfolding put_flow
put_flow-put_flow f g [] e = refl
put_flow-put_flow f g (a ∷ fs) e = ground (
  arith,
  put_flow-put_flow f g fs,
  eq_iff a.device_id f.device_id,
  eq_iff a.device_id g.device_id,
  eq_iff g.device_id f.device_id,
)

pub unsent-ledger : (fs : List Flow) → unsent (ledger fs) ≡ unsent fs
unfolding unsent ledger cleared
unsent-ledger [] = refl
unsent-ledger (f ∷ fs) = ground (arith, unsent-ledger fs)

-- A deficit alone, written back, leaves the ledger.
pub ledger-put_flow_deficit :
    (d : String) (fs : List Flow) (f : Flow) (deficit : ℕ)
    → find_flow d fs ≡ some f
    → ledger (put_flow (record f { deficit = deficit }) fs) ≡ ledger fs
unfolding cleared
ledger-put_flow_deficit d fs f deficit h = cc (
  ledger-put_flow (record f { deficit = deficit }) fs,
  put_flow_self d (ledger fs) (cleared f) (find_flow-ledger d fs f h),
)

pub find_flow-ledger_inv :
    (d : String) (fs : List Flow) (f : Flow)
    → find_flow d (ledger fs) ≡ some f
    → (g : Flow) × (find_flow d fs ≡ some g) × (cleared g ≡ f)
unfolding find_flow ledger cleared
find_flow-ledger_inv d [] f h = ground arith
find_flow-ledger_inv d (a ∷ fs) f h = elim (Bool-cases (str_eq a.device_id d)) [
  | inl e ↦ (a, ground arith, ground arith)
  | inr e ↦ let r = find_flow-ledger_inv d fs f (ground arith) in (r.0, ground (arith, r.1), r.2)
]
