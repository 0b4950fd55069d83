-- ===== src/Base/Chars/Read.antt =====
-- What a number that `from_chars` reads says of the text.
use kairos_boot.Base.{
  ℕ, ◌+◌, ◌*◌, ◌≤◌, ◌<◌, ◌≡◌, ◌⊎◌, refl, Bytes, Option-cases, inl, inr, some, [], ◌∷◌, length,
  arith, List,
}
use kairos_boot.Base.Chars.{
  digit_run-cons, parsed, digit_value, digit_in, digit_run, value_from, run_value, from_chars,
}

-- A byte that stands for a digit of the base: from 0 to 9, and on by letters of either case.
abbrev pub IsDigit : ℕ → ℕ → ℕ → Type 0
IsDigit base c d =
    (d < base)
    × (((d < 10) × (c ≡ b'0' + d))
        ⊎ ((10 ≤ d) × (d < 36) × (c + 10 ≡ b'a' + d))
        ⊎ ((10 ≤ d) × (d < 36) × (c + 10 ≡ b'A' + d)))

-- The digits lead from one number to another.
abbrev pub Leads : ℕ → ℕ → ℕ → Bytes → Type 0
Leads base acc n [] = n ≡ acc
Leads base acc n (c ∷ cs) = (d : ℕ) × IsDigit base c d × Leads base (acc * base + d) n cs

-- A text of digits, one at least, with its value.
abbrev pub IsNumeral : ℕ → ℕ → Bytes → Type 0
IsNumeral base n cs = (0 < length cs) × Leads base 0 n cs

digit_in-IsDigit : (base c d : ℕ) → digit_in base c ≡ some d → IsDigit base c d
unfolding digit_in digit_value
digit_in-IsDigit base c d h = ground arith

digit_run-Leads :
    (base acc : ℕ) (cs : Bytes)
    → (digit_run base cs).1 ≡ []
    → Leads base acc (value_from base acc (digit_run base cs).0) cs
unfolding digit_run
digit_run-Leads base acc [] h = refl
digit_run-Leads base acc (c ∷ cs) h = elim (Option-cases (digit_in base c)) [
  | inl e ↦ absurd (ground arith)
  | inr (d, e) ↦
      let k : (digit_run base cs).1 ≡ [] = ground arith in
      rw (digit_run-cons base c d cs e)
        (d, digit_in-IsDigit base c d e, digit_run-Leads base (acc * base + d) cs k)
]

run_value-parsed :
    (base limit n : ℕ) (ds : List ℕ) (rest : Bytes)
    → run_value base limit ds rest ≡ parsed n []
    → (n ≡ value_from base 0 ds) × (rest ≡ []) × (0 < length ds)
unfolding run_value
run_value-parsed base limit n [] rest h = absurd (ground arith)
run_value-parsed base limit n (d ∷ ds) rest h = ground arith

length-digit_run : (base : ℕ) (cs : Bytes) → 0 < length (digit_run base cs).0 → 0 < length cs
unfolding digit_run
length-digit_run base [] h = h
length-digit_run base (c ∷ cs) h = omega arith

-- A whole text that is read is a numeral of the base, and what was read is its value.
pub from_chars-IsNumeral :
    (base limit n : ℕ) (cs : Bytes) → from_chars base limit cs ≡ parsed n [] → IsNumeral base n cs
unfolding from_chars
from_chars-IsNumeral base limit n cs h =
    let r = digit_run base cs in
    let (e, k, pos) = run_value-parsed base limit n r.0 r.1 h in
    (length-digit_run base cs pos, rw e (digit_run-Leads base 0 cs k))
