-- ===== src/Image/Sha256/Padded.antt =====
-- `finish` and the digest of FIPS 180-4, where the message is padded at once and hashed block by block.
use kairos_boot.Base.{
  ℕ, zero, suc, ◌+◌, ◌-◌, ◌*◌, ◌%◌, ◌^◌, ◌≤◌, ◌<◌, ◌≡◌, refl, ap, ◌∙◌, Bytes, Bool-cases, inl, inr,
  true, false, List, [], ◌∷◌, ◌++◌, ltb, leb, length, ◌/◌, take_all, drop_all, length-append, arith,
}
use mathlib.Core.List.{append-nil, append_assoc}
use kairos_boot.Image.Sha256.{
  Words, initial_words, transform, Sha256, sha256_state, absorb, update, zeros, big_endian, digest,
  marked, finish,
}
use kairos_boot.Image.Sha256.Standard.{initial_hash, hash_blocks, hash_bytes, sha256}
use kairos_boot.Image.Sha256.Compressed.{initial_hash_lem}
use kairos_boot.Image.Sha256.Absorbed.{
  hashed, hashed_short, hashed_block, hashed-append, length-hashed, state_of, update-state_of,
}
use kairos_boot.Image.Sha256.Blocks.{padding, padded_lem, digest_lem, hash_blocks_lem}

length-zeros : (n : ℕ) → length (zeros n) ≡ n
length-zeros zero = refl
length-zeros (suc n) = ap suc (length-zeros n)

length-big_endian : (n x : ℕ) → length (big_endian n x) ≡ n
unfolding big_endian
length-big_endian zero x = refl
length-big_endian (suc n) x = ap suc (length-big_endian n x)

zeros-append : (n m k : ℕ) → n + m ≡ k → zeros n ++ zeros m ≡ zeros k
zeros-append zero m k h = let e : m ≡ k = omega arith in rw e refl
zeros-append (suc n) m zero h = absurd (omega arith)
zeros-append (suc n) m (suc k) h = ap (λ t. 0 ∷ t) (zeros-append n m k (omega arith))

-- One block.
hashed_one : (bs : Bytes) (s : Words) → length bs ≡ 64 → hashed bs s ≡ (transform bs s, [])
hashed_one bs s h =
    rw (hashed_block bs s (omega arith), take_all 64 bs (omega arith), drop_all 64 bs (omega arith))
      (hashed_short [] (transform bs s) (omega arith))

-- A block and what follows.
hashed_two :
    (xs ys : Bytes) (s : Words)
    → length xs ≡ 64
    → length ys ≡ 64
    → hashed (xs ++ ys) s ≡ (transform ys (transform xs s), [])
hashed_two xs ys s h k =
    rw (hashed-append xs ys s, hashed_one xs s h) (hashed_one ys (transform xs s) k)

joined : (b : Bytes) (x : ℕ) (y z : Bytes) → b ++ x ∷ [] ++ y ++ z ≡ b ++ x ∷ (y ++ z)
joined b x y z = append_assoc (b ++ x ∷ []) y z ∙ append_assoc b (x ∷ []) (y ++ z)

-- The zeros on both sides of a block's end.
split_zeros :
    (b : Bytes) (n m k : ℕ) (z : Bytes)
    → n + m ≡ k
    → b ++ 0x80 ∷ (zeros k ++ z) ≡ b ++ 0x80 ∷ [] ++ zeros n ++ (zeros m ++ z)
split_zeros b n m k z h =
    rw
      (
        joined b 0x80 (zeros n) (zeros m ++ z),
        ← zeros-append n m k h,
        append_assoc (zeros n) (zeros m) z,
      )
      refl

length-marked : (b : Bytes) (n : ℕ) → length (b ++ 0x80 ∷ [] ++ zeros n) ≡ length b + 1 + n
length-marked b n =
    omega
      (arith, length-append (b ++ 0x80 ∷ []) (zeros n), length-append b (0x80 ∷ []), length-zeros n)

length-joined :
    (b : Bytes) (n x : ℕ) → length (b ++ 0x80 ∷ (zeros n ++ big_endian 8 x)) ≡ length b + n + 9
length-joined b n x = omega (
  arith,
  length-append b (0x80 ∷ (zeros n ++ big_endian 8 x)),
  length-append (zeros n) (big_endian 8 x),
  length-zeros n,
  length-big_endian 8 x,
)

module _ (s : Sha256) (n : ℕ) (h : length s.buffer ≡ n % 64) where
  -- The marker and the length fit into the block.
  finish_one :
      (t : s.total_bytes * 8 % 2 ^ 64 ≡ n * 8)
      → length s.buffer ≤ 55
      → finish s ≡ digest (hashed (s.buffer ++ padding n) s.state).0
  unfolding finish marked
  finish_one t small =
      let e : ltb 56 (length s.buffer + 1) ≡ false = ground arith in
      let z : (119 - n % 64) % 64 ≡ 55 - length s.buffer = omega arith in
      let l : length (s.buffer ++ 0x80 ∷ []) ≡ length s.buffer + 1 =
        length-append s.buffer (0x80 ∷ []) in
      let m : 56 - (length s.buffer + 1) ≡ 55 - length s.buffer = omega arith in
      rw
        (
          e,
          l,
          m,
          z,
          t,
          joined s.buffer 0x80 (zeros (55 - length s.buffer)) (big_endian 8 (n * 8)),
          hashed_one (s.buffer ++ 0x80 ∷ (zeros (55 - length s.buffer) ++ big_endian 8 (n * 8)))
              s.state (omega (arith, length-joined s.buffer (55 - length s.buffer) (n * 8))),
        )
        refl

  -- The length is left to one more block.
  finish_both :
      (t : s.total_bytes * 8 % 2 ^ 64 ≡ n * 8)
      → 55 < length s.buffer
      → finish s ≡ digest (hashed (s.buffer ++ padding n) s.state).0
  unfolding finish marked
  finish_both t big =
      let e : ltb 56 (length s.buffer + 1) ≡ true = ground arith in
      let z : (119 - n % 64) % 64 ≡ 119 - length s.buffer = omega arith in
      let k : 64 - (length s.buffer + 1) ≡ 63 - length s.buffer = omega arith in
      let first = s.buffer ++ 0x80 ∷ [] ++ zeros (63 - length s.buffer) in
      let last = zeros 56 ++ big_endian 8 (n * 8) in
      rw
        (
          e,
          z,
          t,
          k,
          split_zeros s.buffer (63 - length s.buffer) 56 (119 - length s.buffer)
              (big_endian 8 (n * 8)) (omega arith),
          hashed_two first last s.state
              (omega (arith, length-marked s.buffer (63 - length s.buffer)))
              (omega (
                arith,
                length-append (zeros 56) (big_endian 8 (n * 8)),
                length-zeros 56,
                length-big_endian 8 (n * 8),
              )),
        )
        refl

padded_whole :
    (m : Bytes) → length (m ++ padding (length m)) ≡ length (m ++ padding (length m)) / 64 * 64
padded_whole m = omega (arith, length-joined m ((119 - length m % 64) % 64) (length m * 8))

-- The pass over the padded message is the standard's.
padded_digest : (m : Bytes) → digest (hashed (m ++ padding (length m)) initial_words).0 ≡ sha256 m
unfolding sha256
padded_digest m =
    let whole =
      hash_blocks_lem (length (m ++ padding (length m)) / 64) (m ++ padding (length m))
        initial_words (padded_whole m) in
    digest_lem (hashed (m ++ padding (length m)) initial_words).0
    ∙ ap hash_bytes (
        whole
        ∙ ap (hash_blocks (length (m ++ padding (length m)) / 64) (m ++ padding (length m)))
            initial_hash_lem
        ∙ ap (λ t. hash_blocks (length t / 64) t initial_hash) (padded_lem m))

finish-padded :
    (m : Bytes)
    → length m * 8 < 2 ^ 64
    → finish (state_of m) ≡ digest (hashed (m ++ padding (length m)) initial_words).0
finish-padded m small =
    let r = length-hashed m initial_words in
    let t : length m % 2 ^ 64 * 8 % 2 ^ 64 ≡ length m * 8 = omega arith in
    rw (hashed-append m (padding (length m)) initial_words)
      (elim (Bool-cases (leb (length (hashed m initial_words).1) 55)) [
        | inl e ↦ finish_one (state_of m) (length m) r t (ground arith)
        | inr e ↦ finish_both (state_of m) (length m) r t (ground arith)
      ])

-- The buffered state behind a message gives the message's digest.
pub finish-state_of : (m : Bytes) → length m * 8 < 2 ^ 64 → finish (state_of m) ≡ sha256 m
finish-state_of m small = finish-padded m small ∙ padded_digest m

-- The pieces one after another, from a new state.
unfoldable pub updates : List Bytes → Sha256 → Sha256
updates [] s = s
updates (bs ∷ rest) s = updates rest (update bs s)

unfoldable pub concatenated : List Bytes → Bytes
concatenated [] = []
concatenated (bs ∷ rest) = bs ++ concatenated rest

updates-state_of :
    (pieces : List Bytes) (m : Bytes)
    → updates pieces (state_of m) ≡ state_of (m ++ concatenated pieces)
unfolding updates concatenated
updates-state_of [] m = rw (append-nil m) refl
updates-state_of (bs ∷ rest) m =
    rw (update-state_of m bs, ← append_assoc m bs (concatenated rest))
      (updates-state_of rest (m ++ bs))

pub sha256_state_lem : sha256_state ≡ state_of []
unfolding absorb
sha256_state_lem = refl

-- The accumulator gives the digest of FIPS 180-4, defined apart from the code, of the bytes that it was given,
-- whatever pieces they came in, where they are fewer than two to the 61.
pub finish-updates :
    (pieces : List Bytes)
    → length (concatenated pieces) * 8 < 2 ^ 64
    → finish (updates pieces sha256_state) ≡ sha256 (concatenated pieces)
finish-updates pieces small =
    rw (sha256_state_lem, updates-state_of pieces []) (finish-state_of (concatenated pieces) small)
