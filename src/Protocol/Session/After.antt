-- ===== src/Protocol/Session/After.antt =====
-- Statements about what an action returns, and how they pass through `>>=`.
use kairos_boot.Base.{◌≡◌, refl, Option, none, some}
use kairos_boot.Protocol.Session.{Session, ProtocolError}
use kairos_boot.Protocol.Session.Exec.{
  Exec, Outcome, returns, fails, out_of_fuel, resume, poison_or, ◌>>=◌,
}

module _ {W : Type 0} where
  -- If the action returned, `Q` holds of its value and of the session behind it.
  abbrev pub After : {A : Type 0} → (A → Session W → Type 0) → Outcome A × Session W → Type 0
  After Q (returns a, t) = Q a t
  After Q (fails e, t) = Unit
  After Q (out_of_fuel, t) = Unit

module _ {W A B : Type 0} (Q : A → Session W → Type 0) (R : B → Session W → Type 0) where
  pub resume-After :
      (p : Outcome A × Session W) (f : A → Exec W B)
      → After Q p
      → ((a : A) (t : Session W) → Q a t → After R (f a t))
      → After R (resume p.0 f p.1)
  resume-After (returns a, t) f h next = next a t h
  resume-After (fails e, t) f h next = tt
  resume-After (out_of_fuel, t) f h next = tt

  pub bind-After :
      (m : Exec W A) (f : A → Exec W B) (s : Session W)
      → After Q (m s)
      → ((a : A) (t : Session W) → Q a t → After R (f a t))
      → After R ((m >>= f) s)
  bind-After m f s h next = resume-After (m s) f h next

module _ {W A : Type 0} (Q R : A → Session W → Type 0) where
  pub After-map :
      (p : Outcome A × Session W)
      → ((a : A) (t : Session W) → Q a t → R a t)
      → After Q p
      → After R p
  After-map (returns a, t) f h = f a t h
  After-map (fails e, t) f h = tt
  After-map (out_of_fuel, t) f h = tt

module _ {W A : Type 0} (R : A → Session W → Type 0) where
  pub After-poison_or :
      (o : Option ProtocolError) (m : Exec W A) (s : Session W)
      → (o ≡ none → After R (m s))
      → After R (poison_or o m s)
  After-poison_or none m s h = h refl
  After-poison_or (some e) m s h = tt
