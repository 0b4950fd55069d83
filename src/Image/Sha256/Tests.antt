-- ===== src/Image/Sha256/Tests.antt =====
-- The first test vector of FIPS 180-4, in one piece and in two, and read from a source byte by byte.
use kairos_boot.Base.{
  ℕ, suc, ◌-◌, ◌*◌, ◌^◌, min, ◌<◌, ◌≡◌, refl, sym, ap, false, some, List, ◌∷◌, [], Bytes, take,
  drop, length, arith,
}
use kairos_boot.Image.Sha256.{
  update, finish, sha256_state, transform, blocks_absorbed, absorb, flushed, marked, digest,
  big_endian, rounds, round, schedule, extended, load_words, next_word, small_sigma0, small_sigma1,
  added_words,
}
use kairos_boot.Image.Sha256.Standard.{sha256}
use kairos_boot.Image.Sha256.Padded.{updates, concatenated, finish-updates}
use kairos_boot.Image.Sha256.Compute.{ImageWorld, ReadAt, reads, read_fails, hashes, compute_sha256}
use kairos_boot.Image.Sha256.Computed.{
  IsRight, ReadsContent, Progresses, compute_sha256-IsRight, compute_sha256_total,
}
use kairos_boot.Image.Sha256.Hex.{sha256_hex, from_hex, from_hex-sha256_hex}

abbrev abc : Bytes
abc = b'a' ∷ b'b' ∷ b'c' ∷ []

abbrev abc_digest : Bytes
abc_digest =
    186 ∷ 120 ∷ 22 ∷ 191 ∷ 143 ∷ 1 ∷ 207 ∷ 234 ∷ 65 ∷ 65 ∷ 64 ∷ 222 ∷ 93 ∷ 174 ∷ 34 ∷ 35 ∷ 176 ∷ 3
    ∷ 97 ∷ 163 ∷ 150 ∷ 23 ∷ 122 ∷ 156 ∷ 180 ∷ 16 ∷ 255 ∷ 97 ∷ 242 ∷ 0 ∷ 21 ∷ 173 ∷ []

abc-finish : finish (update abc sha256_state) ≡ abc_digest
unfolding update finish blocks_absorbed absorb flushed marked digest big_endian transform rounds
    round schedule extended load_words next_word small_sigma0 small_sigma1 added_words
abc-finish = refl

abbrev pieces : List Bytes
pieces = (b'a' ∷ []) ∷ (b'b' ∷ b'c' ∷ []) ∷ []

pieces_small : length (concatenated pieces) * 8 < 2 ^ 64
unfolding concatenated
pieces_small = omega arith

finish-updates_example : finish (updates pieces sha256_state) ≡ sha256 (concatenated pieces)
finish-updates_example = finish-updates pieces pieces_small

-- One byte for each read.
abbrev bytewise : ImageWorld ℕ
bytewise = record {
  size = 3;
  read_at =
      λ offset requested w. (reads (min 1 (min requested (3 - offset))) (drop offset abc), suc w);
  stop_requested = λ w. (false, w);
}

abbrev bytes_of : ReadAt → Bytes
bytes_of (reads n bytes) = bytes
bytes_of (read_fails message) = []

bytewise-ReadsContent : ReadsContent bytewise abc
bytewise-ReadsContent offset requested n bytes w e le = ap (λ x. take n (bytes_of x)) (sym e)

bytewise-Progresses : Progresses bytewise
bytewise-Progresses offset requested w h k =
    (min 1 (min requested (3 - offset)), drop offset abc, refl, omega arith, omega arith)

compute_sha256-IsRight_example : IsRight bytewise abc (compute_sha256 bytewise 0).0
compute_sha256-IsRight_example = compute_sha256-IsRight bytewise abc refl bytewise-ReadsContent 0

compute_sha256_total_example : (compute_sha256 bytewise 0).0 ≡ hashes (sha256 abc)
compute_sha256_total_example =
    compute_sha256_total bytewise abc refl bytewise-ReadsContent (λ w. refl) bytewise-Progresses
      (omega arith) 0

from_hex-sha256_hex_example : from_hex (sha256_hex abc_digest) ≡ some abc_digest
from_hex-sha256_hex_example = from_hex-sha256_hex abc_digest refl
