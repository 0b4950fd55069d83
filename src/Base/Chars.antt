-- ===== src/Base/Chars.antt =====
-- `std::from_chars` for unsigned integers, and the hexadecimal digits of `snprintf("%0kx")`.
-- `from_chars` reads the longest run of digits of the base, and fails with `invalid_argument` on an
-- empty run and with `result_out_of_range` where the value passes the type's maximum.
pub mod Read
use mathlib.Core.List.{map, map-append}
use native.Mathlib.Nat.{pow-suc}
use kairos_boot.Base.{
  ℕ, zero, suc, ◌+◌, ◌-◌, ◌*◌, ◌/◌, ◌%◌, ◌^◌, ◌≤◌, ◌<◌, ◌≡◌, refl, Option, none, some, ◌&&◌, List,
  [], ◌∷◌, ◌++◌, arith, Bytes, ltb, leb, length, length-append, if◌then◌else◌,
}

pub data FromChars : Type 0 where
  parsed : ℕ → Bytes → FromChars
  invalid_argument : FromChars
  result_out_of_range : Bytes → FromChars

unfoldable pub digit_value : ℕ → Option ℕ
digit_value c =
    if leb b'0' c && leb c b'9'
    then some (c - 48)
    else if leb b'a' c && leb c b'z'
    then some (c - 87)
    else if leb b'A' c && leb c b'Z'
    then some (c - 55)
    else none

-- The digit that a byte stands for in a base.
unfoldable pub digit_in : ℕ → ℕ → Option ℕ
unfolding digit_value
digit_in base c = elim (digit_value c) [
  | none ↦ none
  | some d ↦ if ltb d base then some d else none
]

-- The values of the longest run of digits, and what follows it.
unfoldable pub digit_run : ℕ → Bytes → List ℕ × Bytes
digit_run base [] = ([], [])
digit_run base (c ∷ cs) =
    let rest = digit_run base cs in
    elim (digit_in base c) [ none ↦ ([], c ∷ cs) | some d ↦ (d ∷ rest.0, rest.1) ]

abbrev pub value_from : ℕ → ℕ → List ℕ → ℕ
value_from base acc [] = acc
value_from base acc (d ∷ ds) = value_from base (acc * base + d) ds

run_value : ℕ → ℕ → List ℕ → Bytes → FromChars
run_value base limit [] rest = invalid_argument
run_value base limit (d ∷ ds) rest =
    if ltb limit (value_from base 0 (d ∷ ds))
    then result_out_of_range rest
    else parsed (value_from base 0 (d ∷ ds)) rest

unfoldable pub from_chars : ℕ → ℕ → Bytes → FromChars
unfolding run_value
from_chars base limit cs = run_value base limit (digit_run base cs).0 (digit_run base cs).1

unfoldable pub hex_digit : ℕ → ℕ
hex_digit d = if ltb d 10 then 48 + d else 87 + d

-- Lower-case hexadecimal, padded with zeros to `k` digits.
unfoldable pub hex : ℕ → ℕ → Bytes
unfolding hex_digit
hex zero n = []
hex (suc k) n = hex k (n / 16) ++ hex_digit (n % 16) ∷ []

-- The values of those digits.
digits_of : ℕ → ℕ → List ℕ
digits_of zero n = []
digits_of (suc k) n = digits_of k (n / 16) ++ n % 16 ∷ []

pub length-hex : (k n : ℕ) → length (hex k n) ≡ k
unfolding hex
length-hex zero n = refl
length-hex (suc k) n =
    omega (arith, length-hex k (n / 16), length-append (hex k (n / 16)) (hex_digit (n % 16) ∷ []))

digit_in-hex_digit : (d : ℕ) → d < 16 → digit_in 16 (hex_digit d) ≡ some d
unfolding digit_in hex_digit
digit_in-hex_digit d h = ground arith

digit_run-cons :
    (base c d : ℕ) (cs : Bytes)
    → digit_in base c ≡ some d
    → digit_run base (c ∷ cs) ≡ (d ∷ (digit_run base cs).0, (digit_run base cs).1)
unfolding digit_run
digit_run-cons base c d cs e = rw (e, digit_run)

AllBelow : ℕ → List ℕ → Type 0
AllBelow n [] = Unit {0}
AllBelow n (d ∷ ds) = (d < n) × AllBelow n ds

digit_run-map : (ds : List ℕ) → AllBelow 16 ds → digit_run 16 (map hex_digit ds) ≡ (ds, [])
unfolding AllBelow
digit_run-map [] h = unfold digit_run in refl
digit_run-map (d ∷ ds) h = rw (
  digit_run-cons 16 (hex_digit d) d (map hex_digit ds) (digit_in-hex_digit d h.0),
  digit_run-map ds h.1,
)

AllBelow-append : (n : ℕ) (xs ys : List ℕ) → AllBelow n xs → AllBelow n ys → AllBelow n (xs ++ ys)
unfolding AllBelow
AllBelow-append n [] ys h g = g
AllBelow-append n (x ∷ xs) ys h g = (h.0, AllBelow-append n xs ys h.1 g)

digits_of-AllBelow : (k n : ℕ) → AllBelow 16 (digits_of k n)
unfolding digits_of AllBelow
digits_of-AllBelow zero n = tt
digits_of-AllBelow (suc k) n =
    AllBelow-append 16 (digits_of k (n / 16)) (n % 16 ∷ []) (digits_of-AllBelow k (n / 16))
      (omega arith, tt)

hex-map : (k n : ℕ) → hex k n ≡ map hex_digit (digits_of k n)
unfolding hex digits_of
hex-map zero n = refl
hex-map (suc k) n = rw (map-append, hex-map k (n / 16))

value_from-append :
    (acc : ℕ) (xs ys : List ℕ)
    → value_from 16 acc (xs ++ ys) ≡ value_from 16 (value_from 16 acc xs) ys
value_from-append acc [] ys = refl
value_from-append acc (x ∷ xs) ys = value_from-append (acc * 16 + x) xs ys

value_from-digits_of : (k n : ℕ) → n < 16 ^ k → value_from 16 0 (digits_of k n) ≡ n
unfolding digits_of
value_from-digits_of zero n h = omega arith
value_from-digits_of (suc k) n h =
    rw
      (
        value_from-append 0 (digits_of k (n / 16)) (n % 16 ∷ []),
        value_from-digits_of k (n / 16) (omega (arith, pow-suc 16 k)),
      )
      (omega arith)

run_value-append :
    (limit n d : ℕ) (ds : List ℕ)
    → value_from 16 0 (ds ++ d ∷ []) ≡ n
    → n ≤ limit
    → run_value 16 limit (ds ++ d ∷ []) [] ≡ parsed n []
unfolding run_value
run_value-append limit n d [] e h = ground arith
run_value-append limit n d (x ∷ ds) e h = ground arith

run_value-le :
    (base limit : ℕ) (ds : List ℕ) (cs : Bytes) {n : ℕ} {rest : Bytes}
    → run_value base limit ds cs ≡ parsed n rest
    → n ≤ limit
unfolding run_value
run_value-le base limit [] cs e = ground arith
run_value-le base limit (d ∷ ds) cs e = ground arith

-- What was read fits in the type.
pub from_chars-le :
    (base limit : ℕ) (cs : Bytes) {n : ℕ} {rest : Bytes}
    → from_chars base limit cs ≡ parsed n rest
    → n ≤ limit
unfolding from_chars
from_chars-le base limit cs e =
    run_value-le base limit (digit_run base cs).0 (digit_run base cs).1 e

-- Reading back what was printed, where it fits in the digits and in the type.
pub from_chars-hex :
    (k n limit : ℕ) → n < 16 ^ suc k → n ≤ limit → from_chars 16 limit (hex (suc k) n) ≡ parsed n []
unfolding from_chars digits_of
from_chars-hex k n limit h fits =
    rw (hex-map (suc k) n, digit_run-map (digits_of (suc k) n) (digits_of-AllBelow (suc k) n))
      (run_value-append limit n (n % 16) (digits_of k (n / 16)) (value_from-digits_of (suc k) n h)
        fits)
