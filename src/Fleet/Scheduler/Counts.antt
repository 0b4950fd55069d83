-- ===== src/Fleet/Scheduler/Counts.antt =====
-- The count of a flow's dispatches, against the dispatches that are out.
use text.Mathlib.Text.{◌==◌ as str_eq}
use text.Mathlib.TextEquality.{eq_iff}
use kairos_boot.Base.{
  ℕ, suc, ◌+◌, ◌≤◌, ◌≡◌, refl, ap, ◌∙◌, sym, subst, false, none, some, List, [], ◌∷◌, String, arith,
  if◌then◌else◌, Bool-cases, inl, inr,
}
use kairos_boot.Fleet.Scheduler.{
  Flow, Outstanding, find_flow, put_flow, find_outstanding, erase_outstanding,
}
use kairos_boot.Fleet.Scheduler.Flows.{
  cleared, ledger, find_flow-ledger, find_flow-ledger_inv, find_flow-put_flow,
  find_flow-put_flow_other,
}

unfoldable pub count_for : String → List Outstanding → ℕ
count_for d [] = 0
count_for d (o ∷ os) = (if str_eq o.device_id d then 1 else 0) + count_for d os

-- Each flow counts the dispatches of its device and has at most as many as it may; no other device
-- has any.
pub record IsCounted (fs : List Flow) (os : List Outstanding) : Type 0 where
  pub counted :
      (d : String) (f : Flow)
      → find_flow d fs ≡ some f
      → (count_for d os ≡ f.outstanding_count) × (f.outstanding_count ≤ f.max_outstanding)
  pub known : (d : String) → find_flow d fs ≡ none → count_for d os ≡ 0

pub find_flow-put_flow-none :
    (d : String) (fs : List Flow) (g : Flow)
    → find_flow d (put_flow g fs) ≡ none
    → find_flow d fs ≡ none
unfolding find_flow put_flow
find_flow-put_flow-none d [] g e = refl
find_flow-put_flow-none d (a ∷ fs) g e = ground (
  arith,
  find_flow-put_flow-none d fs g,
  eq_iff a.device_id d,
  eq_iff a.device_id g.device_id,
  eq_iff g.device_id d,
)

pub find_flow-ledger-none :
    (d : String) (fs : List Flow)
    → (find_flow d (ledger fs) ≡ none → find_flow d fs ≡ none)
      × (find_flow d fs ≡ none → find_flow d (ledger fs) ≡ none)
unfolding find_flow ledger cleared
find_flow-ledger-none d [] = ground arith
find_flow-ledger-none d (a ∷ fs) = ground (arith, find_flow-ledger-none d fs)

pub ledger-IsCounted :
    (fs : List Flow) (os : List Outstanding) → IsCounted fs os → IsCounted (ledger fs) os
unfolding cleared
ledger-IsCounted fs os h = record {
  counted = λ d f e.
      let r = find_flow-ledger_inv d fs f e in
      let k = h.counted d r.0 r.1 in
      (
        k.0 ∙ ap (λ x. x.outstanding_count) r.2,
        omega (arith, k.1, ap (λ x. x.outstanding_count) r.2, ap (λ x. x.max_outstanding) r.2),
      );
  known = λ d e. h.known d ((find_flow-ledger-none d fs).0 e);
}

pub IsCounted-ledger :
    (fs : List Flow) (os : List Outstanding) → IsCounted (ledger fs) os → IsCounted fs os
unfolding cleared
IsCounted-ledger fs os h = record {
  counted = λ d f e. h.counted d (cleared f) (find_flow-ledger d fs f e);
  known = λ d e. h.known d ((find_flow-ledger-none d fs).1 e);
}

-- A flow replaced together with the dispatches of its device.
pub put_flow-IsCounted :
    (d : String) (fs : List Flow) (os os' : List Outstanding) (f g : Flow)
    → IsCounted fs os
    → find_flow d fs ≡ some f
    → g.device_id ≡ d
    → ((e : String) → str_eq d e ≡ false → count_for e os' ≡ count_for e os)
    → count_for d os' ≡ g.outstanding_count
    → g.outstanding_count ≤ g.max_outstanding
    → IsCounted (put_flow g fs) os'
put_flow-IsCounted d fs os os' f g h n e other own fits = record {
  counted = λ i x q. elim (Bool-cases (str_eq d i)) [
    | inl y ↦
        subst
          (λ j.
            find_flow j (put_flow g fs) ≡ some x
            → (count_for j os' ≡ x.outstanding_count) × (x.outstanding_count ≤ x.max_outstanding))
          ((eq_iff d i).0 y) (λ z. ground (arith, find_flow-put_flow d fs f g n e, own, fits)) q
    | inr y ↦
        let k =
          h.counted i x (
            sym (find_flow-put_flow_other i fs g (subst (λ j. str_eq j i ≡ false) (sym e) y))
            ∙ q) in
        (other i y ∙ k.0, k.1)
  ];
  known = λ i q. elim (Bool-cases (str_eq d i)) [
    | inl y ↦
        subst (λ j. find_flow j (put_flow g fs) ≡ none → count_for j os' ≡ 0) ((eq_iff d i).0 y)
          (λ z. ground (arith, find_flow-put_flow d fs f g n e)) q
    | inr y ↦ other i y ∙ h.known i (find_flow-put_flow-none i fs g q)
  ];
}

pub count_for-cons :
    (o : Outstanding) (os : List Outstanding)
    → (count_for o.device_id (o ∷ os) ≡ suc (count_for o.device_id os))
      × ((e : String) → str_eq o.device_id e ≡ false → count_for e (o ∷ os) ≡ count_for e os)
unfolding count_for
count_for-cons o os = (ground (arith, eq_iff o.device_id o.device_id), λ e h. ground arith)

pub count_for-erase_outstanding :
    (t : ℕ) (os : List Outstanding) (o : Outstanding)
    → find_outstanding t os ≡ some o
    → count_for o.device_id (erase_outstanding t os) + 1 ≡ count_for o.device_id os
unfolding count_for find_outstanding erase_outstanding
count_for-erase_outstanding t [] o h = ground arith
count_for-erase_outstanding t (a ∷ os) o h =
    ground (arith, count_for-erase_outstanding t os o, eq_iff o.device_id o.device_id)

pub count_for-erase_outstanding_other :
    (t : ℕ) (os : List Outstanding) (o : Outstanding) (e : String)
    → find_outstanding t os ≡ some o
    → str_eq o.device_id e ≡ false
    → count_for e (erase_outstanding t os) ≡ count_for e os
unfolding count_for find_outstanding erase_outstanding
count_for-erase_outstanding_other t [] o e h k = refl
count_for-erase_outstanding_other t (a ∷ os) o e h k =
    ground (arith, count_for-erase_outstanding_other t os o e)
