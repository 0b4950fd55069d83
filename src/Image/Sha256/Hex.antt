-- ===== src/Image/Sha256/Hex.antt =====
-- `sha256_hex`, and a reader of its text.
use kairos_boot.Base.{
  ℕ, zero, suc, ◌+◌, ◌*◌, ◌/◌, ◌%◌, ◌<◌, ◌≡◌, refl, ap, Bytes, Bool, true, false, ◌&&◌, Option,
  none, some, [], ◌∷◌, ltb, arith, Bool-cases, ◌==◌, ==_iff, inl, inr,
}
use kairos_boot.Base.Chars.{digit_value}

abbrev pub hex_digits : Bytes
hex_digits =
    b'0' ∷ b'1' ∷ b'2' ∷ b'3' ∷ b'4' ∷ b'5' ∷ b'6' ∷ b'7' ∷ b'8' ∷ b'9' ∷ b'a' ∷ b'b' ∷ b'c' ∷ b'd'
    ∷ b'e' ∷ b'f' ∷ []

abbrev digit_at : ℕ → Bytes → ℕ
digit_at n [] = 0
digit_at zero (d ∷ ds) = d
digit_at (suc n) (d ∷ ds) = digit_at n ds

unfoldable pub sha256_hex : Bytes → Bytes
sha256_hex [] = []
sha256_hex (b ∷ bs) = digit_at (b / 16) hex_digits ∷ digit_at (b % 16) hex_digits ∷ sha256_hex bs

-- Two digits give one byte.
unfoldable pub from_hex : Bytes → Option Bytes
from_hex [] = some []
from_hex (c ∷ []) = none
from_hex (c ∷ d ∷ cs) =
    let rest = from_hex cs in
    elim (digit_value c) [
      | none ↦ none
      | some h ↦ elim (digit_value d) [
        | none ↦ none
        | some l ↦ elim rest [ none ↦ none | some bs ↦ some ((h * 16 + l) ∷ bs) ]
      ]
    ]

-- All numbers are bytes.
abbrev pub are_bytes : Bytes → Bool
are_bytes [] = true
are_bytes (b ∷ bs) = ltb b 256 && are_bytes bs

abbrev is_value : ℕ → Option ℕ → Bool
is_value n none = false
is_value n (some m) = m == n

is_value_sound : (n : ℕ) (x : Option ℕ) → is_value n x ≡ true → x ≡ some n
is_value_sound n none h = absurd (ground arith)
is_value_sound n (some m) h = ap some ((==_iff m n).0 h)

-- The digits before `n` are all read back.
abbrev digits_below : ℕ → Bool
digits_below zero = true
digits_below (suc n) = is_value n (digit_value (digit_at n hex_digits)) && digits_below n

digits_below_sound :
    (m n : ℕ)
    → digits_below m ≡ true
    → n < m
    → is_value n (digit_value (digit_at n hex_digits)) ≡ true
digits_below_sound zero n h l = absurd (omega arith)
digits_below_sound (suc m) n h l = elim (Bool-cases (n == m)) [
  | inl e ↦ rw ((==_iff n m).0 e) (ground arith)
  | inr e ↦ digits_below_sound m n (ground arith) (ground arith)
]

sixteen_digits : digits_below 16 ≡ true
unfolding digit_value
sixteen_digits = refl

digit_value-digit_at : (n : ℕ) → n < 16 → digit_value (digit_at n hex_digits) ≡ some n
digit_value-digit_at n h = is_value_sound n _ (digits_below_sound 16 n sixteen_digits h)

-- The hexadecimal text of a digest is read back as the digest.
pub from_hex-sha256_hex : (bs : Bytes) → are_bytes bs ≡ true → from_hex (sha256_hex bs) ≡ some bs
unfolding from_hex sha256_hex
from_hex-sha256_hex [] h = refl
from_hex-sha256_hex (b ∷ bs) h =
    let e = digit_value-digit_at (b / 16) (ground arith) in
    let k = digit_value-digit_at (b % 16) (omega arith) in
    let r = from_hex-sha256_hex bs (ground arith) in
    let whole : b / 16 * 16 + b % 16 ≡ b = omega arith in rw (from_hex, e, k, r, whole) refl
