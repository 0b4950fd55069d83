-- ===== src/Protocol/Session/Exec.antt =====
-- Actions on a session: what an operation returns, and the session that it leaves. `out_of_fuel` is no
-- value of the program: a loop of the model has used up its bound.
use kairos_boot.Base.{Option, none, some}
use kairos_boot.Protocol.Session.{Session, SessionState, ProtocolError}

pub data Outcome (A : Type 0) : Type 0 where
  returns : A → Outcome A
  fails : ProtocolError → Outcome A
  out_of_fuel : Outcome A

abbrev pub Exec : Type 0 → Type 0 → Type 0
Exec W A = Session W → Outcome A × Session W

module _ {W A B : Type 0} where
  abbrev pub resume : Outcome A → (A → Exec W B) → Exec W B
  resume (returns a) f s = f a s
  resume (fails e) f s = (fails e, s)
  resume out_of_fuel f s = (out_of_fuel, s)

  infixl 10 ◌>>=◌ ◌>>◌
  abbrev pub ◌>>=◌ : Exec W A → (A → Exec W B) → Exec W B
  ◌>>=◌ m f s = resume (m s).0 f (m s).1

  abbrev pub ◌>>◌ : Exec W A → Exec W B → Exec W B
  ◌>>◌ m n s = resume (m s).0 (λ _. n) (m s).1

module _ {W : Type 0} where
  abbrev pub pure : {A : Type 0} → A → Exec W A
  pure a s = (returns a, s)

  abbrev pub fail_with : {A : Type 0} → ProtocolError → Exec W A
  fail_with e s = (fails e, s)

  abbrev pub set_state : SessionState → Exec W (Unit {0})
  set_state st s = (returns tt, record s { state = st })

  -- `poison_locked`
  abbrev pub poison : {A : Type 0} → ProtocolError → Exec W A
  poison e s = (fails e, record s { state = SessionState.poisoned; poison_error = some e })

  -- A fault poisons the session; without one the operation goes on.
  abbrev pub poison_or : {A : Type 0} → Option ProtocolError → Exec W A → Exec W A
  poison_or none m = m
  poison_or (some e) m = poison e
