-- ===== src/Fleet/Scheduler/Tokens.antt =====
-- The search for a token, and how many tokens are out.
use kairos_boot.Base.{
  ℕ, zero, suc, ◌+◌, ◌-◌, ◌%◌, ◌≤◌, ◌<◌, ◌≡◌, Bool, true, false, none, some, List, [], ◌∷◌, arith,
  leb, if◌then◌else◌, length, Option-cases, inl, inr,
}
use kairos_boot.Transport.Budget.{word}
use kairos_boot.Fleet.Scheduler.{Outstanding, Scheduler, holds_token, token_loop, allocate_token}
use kairos_boot.Fleet.Scheduler.Grants.{allocate_token-IsFresh}

abbrev pub AllSmall : List Outstanding → Type 0
AllSmall [] = Unit {0}
AllSmall (o ∷ os) = (o.token < word) × AllSmall os

-- Whether `t` is among the `n` numbers from `c` on, around the word.
abbrev in_window : ℕ → ℕ → ℕ → Bool
in_window n c t = leb (suc ((t + word - c) % word)) n

hits : ℕ → ℕ → List Outstanding → ℕ
hits n c [] = 0
hits n c (o ∷ os) = (if in_window n c o.token then 1 else 0) + hits n c os

hits_le_length : (n c : ℕ) (os : List Outstanding) → hits n c os ≤ length os
unfolding hits
hits_le_length n c [] = omega arith
hits_le_length n c (o ∷ os) = ground (arith, hits_le_length n c os)

-- One more number at the front of the window counts the entries that hold it.
hits-suc :
    (n c : ℕ) (os : List Outstanding)
    → c < word
    → n < word
    → AllSmall os
    → (hits n ((c + 1) % word) os ≤ hits (suc n) c os)
      × (holds_token c os ≡ true → suc (hits n ((c + 1) % word) os) ≤ hits (suc n) c os)
unfolding hits holds_token
hits-suc n c [] h k a = ground arith
hits-suc n c (o ∷ os) h k a = ground (arith, hits-suc n c os h k a.1)

abbrev zero_entry : Outstanding
zero_entry = record { token = 0; device_id = ""; bytes = 0 }

token_loop-hits :
    (n c : ℕ) (os : List Outstanding)
    → c < word
    → n ≤ word
    → AllSmall os
    → token_loop n c os ≡ none
    → n ≤ hits n c (zero_entry ∷ os)
unfolding token_loop holds_token
token_loop-hits zero c os h k a e = omega arith
token_loop-hits (suc n) c os h k a e = ground (
  arith,
  hits-suc n c (zero_entry ∷ os) h (omega arith) (omega arith, a),
  token_loop-hits n ((c + 1) % word) os (omega arith) (omega arith) a,
)

-- With fewer than two to the 64 dispatches out, less one, a token is found; it is not zero and no dispatch has it.
pub allocate_token_total :
    (s : Scheduler)
    → s.next_token < word
    → length s.outstanding + 2 ≤ word
    → AllSmall s.outstanding
    → (t : ℕ × ℕ) × (allocate_token s ≡ some t)
      × (0 < t.0)
      × (holds_token t.0 s.outstanding ≡ false)
unfolding allocate_token
allocate_token_total s h k a = elim (Option-cases (allocate_token s)) [
  | inl e ↦
      let n = suc (suc (length s.outstanding)) in
      let p = token_loop-hits n s.next_token s.outstanding h (omega arith) a e in
      let q = hits_le_length n s.next_token (zero_entry ∷ s.outstanding) in absurd (omega arith)
  | inr (t, e) ↦ let f = allocate_token-IsFresh s t e in (t, e, f.0, f.1)
]
