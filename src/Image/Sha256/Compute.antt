-- ===== src/Image/Sha256/Compute.antt =====
-- `compute_sha256`: the digest of a source that is read in pieces and may be given up.
use Prim.Native.String.{◌++◌}
use kairos_boot.Base.{
  ℕ, zero, suc, ◌+◌, ◌-◌, ◌*◌, ◌/◌, ◌^◌, Bytes, Bool, String, ltb, ◌==◌, min, if◌then◌else◌, take,
}
use kairos_boot.Image.Sha256.{Sha256, sha256_state, update, finish}

-- A read gives a count, with the bytes that stand in the buffer then, or fails with a message.
pub data ReadAt : Type 0 where
  reads : ℕ → Bytes → ReadAt
  read_fails : String → ReadAt

-- `IImageSource` and the stop token, which another thread may set at any time.
pub record ImageWorld (W : Type 0) : Type 0 where
  pub size : ℕ
  pub read_at : ℕ → ℕ → W → ReadAt × W
  pub stop_requested : W → Bool × W

pub data Sha256ErrorKind : Type 0 where
  invalid_size source truncated cancelled : Sha256ErrorKind

pub record Sha256Error : Type 0 where
  pub kind : Sha256ErrorKind
  pub input_offset : ℕ
  pub message : String

-- `out_of_fuel` is the model's alone.
pub data Hashing : Type 0 where
  hashes : Bytes → Hashing
  fails : Sha256Error → Hashing
  out_of_fuel : Hashing

abbrev pub read_size : ℕ
read_size = 64 * 1024

abbrev pub max_input_size : ℕ
max_input_size = (2 ^ 64 - 1) / 8

abbrev hash_error : Sha256ErrorKind → ℕ → String → Hashing
hash_error kind offset message =
    fails (record { kind = kind; input_offset = offset; message = message })

abbrev pub hash_cancelled : ℕ → Hashing
hash_cancelled offset = hash_error cancelled offset "SHA-256 computation was cancelled"

unfoldable pub read_message : String → String
read_message String.[] = "unable to read image source"
read_message (String.◌∷◌ c s) = "unable to read image source: " ++ String.◌∷◌ c s

module _ {W : Type 0} (io : ImageWorld W) where
  -- What follows a test of the stop token.
  unfoldable pub unless_stopped : ℕ → (W → Hashing × W) → W → Hashing × W
  unless_stopped offset rest w =
      let polled = io.stop_requested w in
      let next = rest polled.1 in if polled.0 then (hash_cancelled offset, polled.1) else next

  unfoldable pub hash_read :
      (ℕ → Sha256 → W → Hashing × W) → ℕ → ℕ → Sha256 → ReadAt → W → Hashing × W
  unfolding unless_stopped
  hash_read rest requested offset s (read_fails message) w =
      (hash_error source offset (read_message message), w)
  hash_read rest requested offset s (reads n bytes) w =
      let next = unless_stopped offset (rest (offset + n) (update (take n bytes) s)) w in
      if ltb requested n
      then (hash_error source offset "image source returned more bytes than requested", w)
      else if n == 0
      then (hash_error truncated offset "image source made no progress before its declared size", w)
      else next

  abbrev pub hash_piece : (ℕ → Sha256 → W → Hashing × W) → ℕ → Sha256 → W → Hashing × W
  hash_piece rest offset s w =
      let requested = min (io.size - offset) read_size in
      let answer = io.read_at offset requested w in
      hash_read rest requested offset s answer.0 answer.1

  unfoldable pub hash_loop : ℕ → ℕ → Sha256 → W → Hashing × W
  hash_loop zero offset s w =
      if ltb offset io.size
      then (out_of_fuel, w)
      else unless_stopped offset (λ w. (hashes (finish s), w)) w
  hash_loop (suc fuel) offset s w =
      let round = unless_stopped offset (hash_piece (hash_loop fuel) offset s) w in
      if ltb offset io.size then round else unless_stopped offset (λ w. (hashes (finish s), w)) w

  unfoldable pub compute_sha256 : W → Hashing × W
  compute_sha256 w =
      unless_stopped 0
        (λ w.
          if ltb max_input_size io.size
          then (hash_error invalid_size 0 "image source is too large for SHA-256", w)
          else hash_loop io.size 0 sha256_state w)
        w
