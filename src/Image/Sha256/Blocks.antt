-- ===== src/Image/Sha256/Blocks.antt =====
-- The padding, the bytes of a digest and the pass over whole blocks, beside FIPS 180-4.
use kairos_boot.Base.{
  ℕ, zero, suc, ◌-◌, ◌*◌, ◌%◌, ◌^◌, ◌≡◌, refl, ap, Bytes, ◌∷◌, ◌++◌, length, length-take,
  length-drop, take, drop, ◌/◌, arith,
}
use kairos_boot.Image.Sha256.{Words, zeros, big_endian, digest}
use kairos_boot.Image.Sha256.Standard.{
  compressed, hash_blocks, word_bytes, hash_bytes, no_bits, padded,
}
use kairos_boot.Image.Sha256.Compressed.{transform_lem}
use kairos_boot.Image.Sha256.Absorbed.{hashed, hashed_short, hashed_block}

-- The marker, the zeros that complete the block but for eight bytes, and the length in bits.
abbrev pub padding : ℕ → Bytes
padding n = 0x80 ∷ (zeros ((119 - n % 64) % 64) ++ big_endian 8 (n * 8))

zeros_lem : (n : ℕ) → zeros n ≡ no_bits n
unfolding no_bits
zeros_lem zero = refl
zeros_lem (suc n) = ap (λ t. 0 ∷ t) (zeros_lem n)

big_endian_lem : (x : ℕ) → big_endian 4 x ≡ word_bytes x
unfolding big_endian word_bytes
big_endian_lem x = ground arith

big_endian_both : (x : ℕ) → big_endian 8 x ≡ word_bytes (x / 2 ^ 32) ++ word_bytes x
unfolding big_endian word_bytes
big_endian_both x = ground arith

pub padded_lem : (m : Bytes) → m ++ padding (length m) ≡ padded m
unfolding padded
padded_lem m = rw (zeros_lem ((119 - length m % 64) % 64), big_endian_both (length m * 8)) refl

pub digest_lem : (s : Words) → digest s ≡ hash_bytes s
unfolding digest hash_bytes
digest_lem s =
    rw
      (
        big_endian_lem s.a,
        big_endian_lem s.b,
        big_endian_lem s.c,
        big_endian_lem s.d,
        big_endian_lem s.e,
        big_endian_lem s.f,
        big_endian_lem s.g,
        big_endian_lem s.h,
      )
      refl

-- Whole blocks, one after another.
pub hash_blocks_lem :
    (n : ℕ) (bs : Bytes) (s : Words) → length bs ≡ n * 64 → (hashed bs s).0 ≡ hash_blocks n bs s
unfolding hash_blocks
hash_blocks_lem zero bs s h = rw (hashed_short bs s (omega arith)) refl
hash_blocks_lem (suc n) bs s h =
    rw
      (
        hashed_block bs s (omega arith),
        transform_lem (take 64 bs) s (omega (arith, length-take 64 bs)),
      )
      (hash_blocks_lem n (drop 64 bs) (compressed (take 64 bs) s)
        (omega (arith, length-drop 64 bs)))
