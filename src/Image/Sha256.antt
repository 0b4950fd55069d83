-- ===== src/Image/Sha256.antt =====
-- SHA-256 (src/image/sha256.hpp and .cpp): `Sha256State`, whose 32-bit words are numbers, and the loop of
-- `compute_sha256`. The buffer holds the bytes that are filled; the array's others are written before they
-- are read.
pub mod Absorbed
pub mod Standard
pub mod Compressed
pub mod Blocks
pub mod Padded
pub mod Compute
pub mod Computed
pub mod Hex
mod Tests
use Prim.Native.Nat.{bit_and, bit_xor}
use kairos_boot.Base.{
  ℕ, zero, suc, ◌+◌, ◌-◌, ◌*◌, ◌/◌, ◌%◌, ◌^◌, Bytes, Bool, true, false, ◌&&◌, ◌||◌, not, Option,
  none, some, List, [], ◌∷◌, ◌++◌, String, ltb, leb, ◌==◌, min, if◌then◌else◌, length, take, drop,
}

abbrev pub two_to_32 : ℕ
two_to_32 = 2 ^ 32

-- The constants of the rounds.
abbrev pub round_constants : List ℕ
round_constants =
    0x428a2f98 ∷ 0x71374491 ∷ 0xb5c0fbcf ∷ 0xe9b5dba5 ∷ 0x3956c25b ∷ 0x59f111f1 ∷ 0x923f82a4
    ∷ 0xab1c5ed5 ∷ 0xd807aa98 ∷ 0x12835b01 ∷ 0x243185be ∷ 0x550c7dc3 ∷ 0x72be5d74 ∷ 0x80deb1fe
    ∷ 0x9bdc06a7 ∷ 0xc19bf174 ∷ 0xe49b69c1 ∷ 0xefbe4786 ∷ 0x0fc19dc6 ∷ 0x240ca1cc ∷ 0x2de92c6f
    ∷ 0x4a7484aa ∷ 0x5cb0a9dc ∷ 0x76f988da ∷ 0x983e5152 ∷ 0xa831c66d ∷ 0xb00327c8 ∷ 0xbf597fc7
    ∷ 0xc6e00bf3 ∷ 0xd5a79147 ∷ 0x06ca6351 ∷ 0x14292967 ∷ 0x27b70a85 ∷ 0x2e1b2138 ∷ 0x4d2c6dfc
    ∷ 0x53380d13 ∷ 0x650a7354 ∷ 0x766a0abb ∷ 0x81c2c92e ∷ 0x92722c85 ∷ 0xa2bfe8a1 ∷ 0xa81a664b
    ∷ 0xc24b8b70 ∷ 0xc76c51a3 ∷ 0xd192e819 ∷ 0xd6990624 ∷ 0xf40e3585 ∷ 0x106aa070 ∷ 0x19a4c116
    ∷ 0x1e376c08 ∷ 0x2748774c ∷ 0x34b0bcb5 ∷ 0x391c0cb3 ∷ 0x4ed8aa4a ∷ 0x5b9cca4f ∷ 0x682e6ff3
    ∷ 0x748f82ee ∷ 0x78a5636f ∷ 0x84c87814 ∷ 0x8cc70208 ∷ 0x90befffa ∷ 0xa4506ceb ∷ 0xbef9a3f7
    ∷ 0xc67178f2 ∷ []

-- The eight words of the state, and the variables of the rounds.
pub record Words : Type 0 where
  pub a : ℕ
  pub b : ℕ
  pub c : ℕ
  pub d : ℕ
  pub e : ℕ
  pub f : ℕ
  pub g : ℕ
  pub h : ℕ

abbrev pub initial_words : Words
initial_words = record {
  a = 0x6a09e667;
  b = 0xbb67ae85;
  c = 0x3c6ef372;
  d = 0xa54ff53a;
  e = 0x510e527f;
  f = 0x9b05688c;
  g = 0x1f83d9ab;
  h = 0x5be0cd19;
}

abbrev pub rotr : ℕ → ℕ → ℕ
rotr x n = x / 2 ^ n + (x % 2 ^ n) * 2 ^ (32 - n)

unfoldable pub load_words : Bytes → List ℕ
load_words (a ∷ b ∷ c ∷ d ∷ bs) = (a * 2 ^ 24 + b * 2 ^ 16 + c * 2 ^ 8 + d) ∷ load_words bs
load_words _ = []

-- A word of the schedule, counted from the newest.
abbrev pub back : ℕ → List ℕ → ℕ
back n [] = 0
back zero (w ∷ ws) = w
back (suc n) (w ∷ ws) = back n ws

unfoldable pub small_sigma0 : ℕ → ℕ
small_sigma0 w = bit_xor (bit_xor (rotr w 7) (rotr w 18)) (w / 2 ^ 3)

unfoldable pub small_sigma1 : ℕ → ℕ
small_sigma1 w = bit_xor (bit_xor (rotr w 17) (rotr w 19)) (w / 2 ^ 10)

unfoldable pub next_word : List ℕ → ℕ
next_word ws =
    (back 15 ws + small_sigma0 (back 14 ws) + back 6 ws + small_sigma1 (back 1 ws)) % two_to_32

-- So many words more, newest first.
unfoldable pub extended : ℕ → List ℕ → List ℕ
extended zero ws = ws
extended (suc n) ws = extended n (next_word ws ∷ ws)

abbrev pub reversed : List ℕ → List ℕ → List ℕ
reversed [] ys = ys
reversed (x ∷ xs) ys = reversed xs (x ∷ ys)

unfoldable pub schedule : Bytes → List ℕ
schedule block = reversed (extended 48 (reversed (load_words block) [])) []

-- One round, with its constant and its word of the schedule.
unfoldable pub round : ℕ → ℕ → Words → Words
round k w v =
    let sum1 = bit_xor (bit_xor (rotr v.e 6) (rotr v.e 11)) (rotr v.e 25) in
    let choice = bit_xor (bit_and v.e v.f) (bit_and (two_to_32 - 1 - v.e) v.g) in
    let temporary1 = (v.h + sum1 + choice + k + w) % two_to_32 in
    let sum0 = bit_xor (bit_xor (rotr v.a 2) (rotr v.a 13)) (rotr v.a 22) in
    let majority = bit_xor (bit_xor (bit_and v.a v.b) (bit_and v.a v.c)) (bit_and v.b v.c) in
    let temporary2 = (sum0 + majority) % two_to_32 in
    record {
      a = (temporary1 + temporary2) % two_to_32;
      b = v.a;
      c = v.b;
      d = v.c;
      e = (v.d + temporary1) % two_to_32;
      f = v.e;
      g = v.f;
      h = v.g;
    }

unfoldable pub rounds : List ℕ → List ℕ → Words → Words
rounds (k ∷ ks) (w ∷ ws) v = rounds ks ws (round k w v)
rounds _ _ v = v

unfoldable pub added_words : Words → Words → Words
added_words s v = record {
  a = (s.a + v.a) % two_to_32;
  b = (s.b + v.b) % two_to_32;
  c = (s.c + v.c) % two_to_32;
  d = (s.d + v.d) % two_to_32;
  e = (s.e + v.e) % two_to_32;
  f = (s.f + v.f) % two_to_32;
  g = (s.g + v.g) % two_to_32;
  h = (s.h + v.h) % two_to_32;
}

unfoldable pub transform : Bytes → Words → Words
unfolding added_words rounds schedule
transform block s = added_words s (rounds round_constants (schedule block) s)

pub record Sha256 : Type 0 where
  pub state : Words
  pub buffer : Bytes
  pub total_bytes : ℕ

abbrev pub sha256_state : Sha256
sha256_state = record { state = initial_words; buffer = []; total_bytes = 0 }

-- The loop of `update` on whole blocks: the words, and the bytes that are left.
unfoldable pub absorb : ℕ → Bytes → Words → Words × Bytes
absorb zero bs s = (s, bs)
absorb (suc fuel) bs s =
    let rest = absorb fuel (drop 64 bs) (transform (take 64 bs) s) in
    if ltb (length bs) 64 then (s, bs) else rest

-- A buffer that is full is transformed and emptied.
unfoldable pub flushed : Sha256 → Sha256
flushed s =
    if length s.buffer == 64
    then record s { state = transform s.buffer s.state; buffer = [] }
    else s

-- The loop and the copy of what remains.
unfoldable pub blocks_absorbed : Bytes → Sha256 → Sha256
blocks_absorbed bs s =
    let out = absorb (length bs) bs s.state in
    record s { state = out.0; buffer = if length out.1 == 0 then s.buffer else out.1 }

unfoldable pub update : Bytes → Sha256 → Sha256
update bs s =
    let counted : Sha256 = record s { total_bytes = (s.total_bytes + length bs) % 2 ^ 64 } in
    let amount = min (64 - length s.buffer) (length bs) in
    let filled : Sha256 = record counted { buffer = s.buffer ++ take amount bs } in
    if length s.buffer == 0
    then blocks_absorbed bs counted
    else blocks_absorbed (drop amount bs) (flushed filled)

abbrev pub zeros : ℕ → Bytes
zeros zero = []
zeros (suc n) = 0 ∷ zeros n

-- So many bytes of a number, the highest first.
unfoldable pub big_endian : ℕ → ℕ → Bytes
big_endian zero x = []
big_endian (suc n) x = (x / 2 ^ (8 * n)) % 256 ∷ big_endian n x

unfoldable pub digest : Words → Bytes
digest s =
    big_endian 4 s.a
    ++ big_endian 4 s.b
    ++ big_endian 4 s.c
    ++ big_endian 4 s.d
    ++ big_endian 4 s.e
    ++ big_endian 4 s.f
    ++ big_endian 4 s.g
    ++ big_endian 4 s.h

-- Where the length would not fit behind the marker, the block is filled and a new one begun.
unfoldable pub marked : Sha256 → Sha256
marked s =
    let n = length s.buffer + 1 in
    let full = s.buffer ++ 0x80 ∷ [] in
    if ltb 56 n
    then record s { state = transform (full ++ zeros (64 - n)) s.state; buffer = [] }
    else record s { buffer = full }

unfoldable pub finish : Sha256 → Bytes
finish s =
    let m = marked s in
    let bits = (s.total_bytes * 8) % 2 ^ 64 in
    digest (transform (m.buffer ++ zeros (56 - length m.buffer) ++ big_endian 8 bits) m.state)
