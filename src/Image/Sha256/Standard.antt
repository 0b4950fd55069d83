-- ===== src/Image/Sha256/Standard.antt =====
-- SHA-256 as FIPS 180-4 gives it, apart from the code: the functions of section 4.1.2 and the constants of 4.2.2
-- and 5.3.3 by their meaning, the padding of 5.1.1, and the computation of 6.2.2 by the index of each word.
use Prim.Native.Nat.{bit_and, bit_xor}
use mathlib.Core.List.{map}
use kairos_boot.Base.{
  ℕ, zero, suc, ◌+◌, ◌-◌, ◌*◌, ◌/◌, ◌%◌, ◌^◌, Bytes, List, [], ◌∷◌, ◌++◌, leb, length, take, drop,
  if◌then◌else◌,
}
use kairos_boot.Image.Sha256.{Words}

-- The rotation of a word to the right.
abbrev rotated : ℕ → ℕ → ℕ
rotated n x = x / 2 ^ n + (x % 2 ^ n) * 2 ^ (32 - n)

unfoldable pub ch : ℕ → ℕ → ℕ → ℕ
ch x y z = bit_xor (bit_and x y) (bit_and (2 ^ 32 - 1 - x) z)

unfoldable pub maj : ℕ → ℕ → ℕ → ℕ
maj x y z = bit_xor (bit_xor (bit_and x y) (bit_and x z)) (bit_and y z)

unfoldable pub upper_sigma0 : ℕ → ℕ
upper_sigma0 x = bit_xor (bit_xor (rotated 2 x) (rotated 13 x)) (rotated 22 x)

unfoldable pub upper_sigma1 : ℕ → ℕ
upper_sigma1 x = bit_xor (bit_xor (rotated 6 x) (rotated 11 x)) (rotated 25 x)

unfoldable pub lower_sigma0 : ℕ → ℕ
lower_sigma0 x = bit_xor (bit_xor (rotated 7 x) (rotated 18 x)) (x / 2 ^ 3)

unfoldable pub lower_sigma1 : ℕ → ℕ
lower_sigma1 x = bit_xor (bit_xor (rotated 17 x) (rotated 19 x)) (x / 2 ^ 10)

-- The largest number of so many bits more whose power is at most `n`.
unfoldable pub root : (ℕ → ℕ) → ℕ → ℕ → ℕ → ℕ
root power n zero r = r
root power n (suc k) r = root power n k (if leb (power (r + 2 ^ k)) n then r + 2 ^ k else r)

-- The first 32 bits of the fractional part of the root of a prime.
unfoldable pub cube_fraction : ℕ → ℕ
unfolding root
cube_fraction p = root (λ r. r * r * r) (p * 2 ^ 96) 36 0 % 2 ^ 32

unfoldable pub square_fraction : ℕ → ℕ
unfolding root
square_fraction p = root (λ r. r * r) (p * 2 ^ 64) 36 0 % 2 ^ 32

abbrev primes : List ℕ
primes =
    2 ∷ 3 ∷ 5 ∷ 7 ∷ 11 ∷ 13 ∷ 17 ∷ 19 ∷ 23 ∷ 29 ∷ 31 ∷ 37 ∷ 41 ∷ 43 ∷ 47 ∷ 53 ∷ 59 ∷ 61 ∷ 67 ∷ 71
    ∷ 73 ∷ 79 ∷ 83 ∷ 89 ∷ 97 ∷ 101 ∷ 103 ∷ 107 ∷ 109 ∷ 113 ∷ 127 ∷ 131 ∷ 137 ∷ 139 ∷ 149 ∷ 151 ∷ 157
    ∷ 163 ∷ 167 ∷ 173 ∷ 179 ∷ 181 ∷ 191 ∷ 193 ∷ 197 ∷ 199 ∷ 211 ∷ 223 ∷ 227 ∷ 229 ∷ 233 ∷ 239 ∷ 241
    ∷ 251 ∷ 257 ∷ 263 ∷ 269 ∷ 271 ∷ 277 ∷ 281 ∷ 283 ∷ 293 ∷ 307 ∷ 311 ∷ []

unfoldable pub constants : List ℕ
unfolding cube_fraction
constants = map cube_fraction primes

unfoldable pub initial_hash : Words
unfolding square_fraction
initial_hash = record {
  a = square_fraction 2;
  b = square_fraction 3;
  c = square_fraction 5;
  d = square_fraction 7;
  e = square_fraction 11;
  f = square_fraction 13;
  g = square_fraction 17;
  h = square_fraction 19;
}

-- An entry of a list, from the first.
abbrev pub at : ℕ → List ℕ → ℕ
at n [] = 0
at zero (x ∷ xs) = x
at (suc n) (x ∷ xs) = at n xs

-- So many words of a block.
unfoldable pub words_of : ℕ → Bytes → List ℕ
words_of zero bs = []
words_of (suc n) bs =
    (at 0 bs * 2 ^ 24 + at 1 bs * 2 ^ 16 + at 2 bs * 2 ^ 8 + at 3 bs) ∷ words_of n (drop 4 bs)

-- The word of the message schedule with number `n + 16`.
unfoldable pub schedule_word : ℕ → List ℕ → ℕ
schedule_word n ws =
    (lower_sigma1 (at (n + 14) ws) + at (n + 9) ws + lower_sigma0 (at (n + 1) ws) + at n ws)
    % 2 ^ 32

-- The message schedule, with so many words behind those of the block.
unfoldable pub schedule_words : ℕ → List ℕ → List ℕ
schedule_words zero ws = ws
schedule_words (suc n) ws = schedule_words n ws ++ schedule_word n (schedule_words n ws) ∷ []

unfoldable pub step : ℕ → ℕ → Words → Words
unfolding ch maj upper_sigma0 upper_sigma1
step k w v =
    let t1 = (v.h + upper_sigma1 v.e + ch v.e v.f v.g + k + w) % 2 ^ 32 in
    let t2 = (upper_sigma0 v.a + maj v.a v.b v.c) % 2 ^ 32 in
    record {
      a = (t1 + t2) % 2 ^ 32;
      b = v.a;
      c = v.b;
      d = v.c;
      e = (v.d + t1) % 2 ^ 32;
      f = v.e;
      g = v.f;
      h = v.g;
    }

-- The variables before step `t`.
unfoldable pub variables : ℕ → List ℕ → List ℕ → Words → Words
variables zero ks ws v = v
variables (suc t) ks ws v = step (at t ks) (at t ws) (variables t ks ws v)

unfoldable pub sums : Words → Words → Words
sums u v = record {
  a = (u.a + v.a) % 2 ^ 32;
  b = (u.b + v.b) % 2 ^ 32;
  c = (u.c + v.c) % 2 ^ 32;
  d = (u.d + v.d) % 2 ^ 32;
  e = (u.e + v.e) % 2 ^ 32;
  f = (u.f + v.f) % 2 ^ 32;
  g = (u.g + v.g) % 2 ^ 32;
  h = (u.h + v.h) % 2 ^ 32;
}

-- The intermediate hash value behind a block.
unfoldable pub compressed : Bytes → Words → Words
unfolding sums
compressed block s = sums s (variables 64 constants (schedule_words 48 (words_of 16 block)) s)

unfoldable pub hash_blocks : ℕ → Bytes → Words → Words
hash_blocks zero bs s = s
hash_blocks (suc n) bs s = hash_blocks n (drop 64 bs) (compressed (take 64 bs) s)

unfoldable pub word_bytes : ℕ → Bytes
word_bytes x = (x / 2 ^ 24) % 256 ∷ (x / 2 ^ 16) % 256 ∷ (x / 2 ^ 8) % 256 ∷ x % 256 ∷ []

unfoldable pub hash_bytes : Words → Bytes
unfolding word_bytes
hash_bytes s =
    word_bytes s.a
    ++ word_bytes s.b
    ++ word_bytes s.c
    ++ word_bytes s.d
    ++ word_bytes s.e
    ++ word_bytes s.f
    ++ word_bytes s.g
    ++ word_bytes s.h

unfoldable pub no_bits : ℕ → Bytes
no_bits zero = []
no_bits (suc n) = 0 ∷ no_bits n

-- A message with the bit 1, the zeros that complete a block but for eight bytes, and its length in bits.
unfoldable pub padded : Bytes → Bytes
unfolding no_bits word_bytes
padded m =
    let bits = length m * 8 in
    m
    ++ 0x80
      ∷ (no_bits ((119 - length m % 64) % 64) ++ (word_bytes (bits / 2 ^ 32) ++ word_bytes bits))

-- The digest of a message.
unfoldable pub sha256 : Bytes → Bytes
unfolding padded
sha256 m = hash_bytes (hash_blocks (length (padded m) / 64) (padded m) initial_hash)
