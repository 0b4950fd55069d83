-- ===== src/Image/Sha256/Computed.antt =====
-- What `compute_sha256` gives for a source that reads its content.
use kairos_boot.Base.{
  String, ◌⊎◌, ℕ, zero, suc, ◌+◌, ◌-◌, ◌*◌, ◌^◌, ◌≤◌, ◌<◌, ◌≡◌, refl, ap, Bytes, Bool, Bool-cases,
  inl, inr, true, false, [], ◌∷◌, ◌++◌, ltb, ◌==◌, min, length, take, drop, take_all, arith,
}
use kairos_boot.Image.Sha256.{Sha256, sha256_state, update, finish}
use kairos_boot.Image.Sha256.Absorbed.{state_of, update-state_of}
use kairos_boot.Image.Sha256.Standard.{sha256}
use kairos_boot.Image.Sha256.Padded.{finish-state_of, sha256_state_lem}
use kairos_boot.Image.Sha256.Compute.{
  ReadAt, reads, read_fails, Sha256ErrorKind, invalid_size, source, truncated, cancelled,
  ImageWorld, Hashing, hashes, fails, Sha256Error, read_size, max_input_size, unless_stopped,
  hash_read, hash_piece, hash_loop, compute_sha256,
}

module _ {W : Type 0} (io : ImageWorld W) where
  -- What has happened at an offset where a kind of error is returned: the stop token was set, or the read
  -- there failed or gave more than was requested, or gave nothing, or the source is too large.
  abbrev pub Reason : ℕ → Sha256ErrorKind → Type 0
  Reason offset cancelled = (w : W) × ((io.stop_requested w).0 ≡ true)
  Reason offset source =
      (w : W) × (requested : ℕ) × (0 < requested)
      × (((message : String) × ((io.read_at offset requested w).0 ≡ read_fails message))
          ⊎ ((n : ℕ) × (bytes : Bytes) × ((io.read_at offset requested w).0 ≡ reads n bytes)
              × (requested < n)))
  Reason offset truncated =
      (w : W) × (requested : ℕ) × (bytes : Bytes) × (0 < requested)
      × ((io.read_at offset requested w).0 ≡ reads 0 bytes)
  Reason offset invalid_size = (offset ≡ 0) × (max_input_size < io.size)

  -- A result: the digest of the content, or an error at an offset of the source, with a reason for it.
  pub data IsRight (content : Bytes) : Hashing → Type 0 where
    right : (d : Bytes) → d ≡ sha256 content → IsRight content (hashes d)
    given_up :
        (e : Sha256Error)
        → e.input_offset ≤ length content
        → Reason e.input_offset e.kind
        → IsRight content (fails e)

-- A source reads its content: a read of no more than was requested has stored the bytes at the offset.
abbrev pub ReadsContent : {W : Type 0} → ImageWorld W → Bytes → Type 0
ReadsContent {W} io content =
    (offset requested n : ℕ) (bytes : Bytes) (w : W)
    → (io.read_at offset requested w).0 ≡ reads n bytes
    → n ≤ requested
    → take n bytes ≡ take n (drop offset content)

take_add : (a b k : ℕ) (xs : Bytes) → a + b ≡ k → take a xs ++ take b (drop a xs) ≡ take k xs
take_add zero b k xs h = let e : b ≡ k = omega arith in rw e refl
take_add (suc a) b zero xs h = absurd (omega arith)
take_add (suc a) zero (suc k) [] h = refl
take_add (suc a) (suc b) (suc k) [] h = refl
take_add (suc a) b (suc k) (x ∷ xs) h = ap (λ t. x ∷ t) (take_add a b k xs (omega arith))

module _ {W : Type 0} (io : ImageWorld W) (content : Bytes) (sized : io.size ≡ length content) where
  unless_stopped-IsRight :
      (offset : ℕ) (rest : W → Hashing × W) (w : W)
      → offset ≤ length content
      → ((u : W) → IsRight io content (rest u).0)
      → IsRight io content (unless_stopped io offset rest w).0
  unfolding unless_stopped
  unless_stopped-IsRight offset rest w h k = elim (Bool-cases (io.stop_requested w).0) [
    | inl e ↦ rw e (given_up _ h (w, e))
    | inr e ↦ rw e (k (io.stop_requested w).1)
  ]

  hash_read-IsRight :
      (rest : ℕ → Sha256 → W → Hashing × W) (requested offset : ℕ) (answer : ReadAt) (w u : W)
      → offset ≤ length content
      → 0 < requested
      → (io.read_at offset requested u).0 ≡ answer
      → ((n : ℕ) (bytes : Bytes)
          → answer ≡ reads n bytes
          → n ≤ requested
          → 0 < n
          → (v : W)
          → IsRight io content
              (rest (offset + n) (update (take n bytes) (state_of (take offset content))) v).0)
      → IsRight io content
          (hash_read io rest requested offset (state_of (take offset content)) answer w).0
  unfolding hash_read
  hash_read-IsRight rest requested offset (read_fails message) w u h pos e k =
      given_up _ h (u, requested, pos, inl (message, e))
  hash_read-IsRight rest requested offset (reads n bytes) w u h pos a k =
      elim (Bool-cases (ltb requested n)) [
        | inl e ↦ rw e (given_up _ h (u, requested, pos, inr (n, bytes, a, ground arith)))
        | inr e ↦ elim (Bool-cases (n == 0)) [
          | inl z ↦
              let zero_read : n ≡ 0 = ground arith in
              rw (e, z) (given_up _ h (u, requested, bytes, pos, rw zero_read at a))
          | inr z ↦
              rw (e, z)
                (unless_stopped-IsRight offset
                  (rest (offset + n) (update (take n bytes) (state_of (take offset content)))) w h
                  (k n bytes refl (ground arith) (ground arith)))
        ]
      ]

  module _ (small : length content * 8 < 2 ^ 64) (faithful : ReadsContent io content) where
    loop_end-IsRight :
        (offset : ℕ) (w : W)
        → offset ≡ length content
        → IsRight io content
            (unless_stopped io offset
              (λ w. (hashes (finish (state_of (take offset content))), w))
              w).0
    loop_end-IsRight offset w h =
        let whole : take offset content ≡ content = take_all offset content (omega arith) in
        unless_stopped-IsRight offset (λ u. (hashes (finish (state_of (take offset content))), u)) w
          (omega arith)
          (λ u.
            right (finish (state_of (take offset content)))
              (rw whole (finish-state_of content small)))

    -- A round goes on from the state behind the bytes before the next offset.
    hash_piece-IsRight :
        (rest : ℕ → Sha256 → W → Hashing × W) (offset : ℕ) (w : W)
        → offset < length content
        → ((n : ℕ) (u : W)
            → 0 < n
            → offset + n ≤ length content
            → IsRight io content (rest (offset + n) (state_of (take (offset + n) content)) u).0)
        → IsRight io content (hash_piece io rest offset (state_of (take offset content)) w).0
    hash_piece-IsRight rest offset w h k =
        let requested = min (io.size - offset) read_size in
        let answer = io.read_at offset requested w in
        hash_read-IsRight rest requested offset answer.0 answer.1 w (omega arith) (omega arith) refl
          (λ n bytes e le pos u.
            rw
              (
                faithful offset requested n bytes w e le,
                update-state_of (take offset content) (take n (drop offset content)),
                take_add offset n (offset + n) content refl,
              )
              (k n u pos (omega arith)))

    hash_loop-IsRight :
        (fuel offset : ℕ) (w : W)
        → offset ≤ length content
        → length content ≤ offset + fuel
        → IsRight io content (hash_loop io fuel offset (state_of (take offset content)) w).0
    unfolding hash_loop
    hash_loop-IsRight zero offset w h k =
        let e : ltb offset io.size ≡ false = ground arith in
        rw e (loop_end-IsRight offset w (omega arith))
    hash_loop-IsRight (suc fuel) offset w h k = elim (Bool-cases (ltb offset io.size)) [
      | inr e ↦ rw e (loop_end-IsRight offset w (ground arith))
      | inl e ↦ rw e (
          unless_stopped-IsRight offset
            (hash_piece io (hash_loop io fuel) offset (state_of (take offset content))) w h
            (λ u.
              hash_piece-IsRight (hash_loop io fuel) offset u (ground arith)
                (λ n x a b. hash_loop-IsRight fuel (offset + n) x b (omega arith))))
    ]

-- For a source that reads its content, and whatever the stop token says and however short the reads are, the loop
-- comes to its end with the digest of FIPS 180-4 of the whole content, or with an error at an offset within it
-- that has its reason: the token was set, a read at this offset failed, gave too much or gave nothing, or the
-- source is too large.
pub compute_sha256-IsRight :
    {W : Type 0} (io : ImageWorld W) (content : Bytes)
    → io.size ≡ length content
    → ReadsContent io content
    → (w : W) → IsRight io content (compute_sha256 io w).0
unfolding compute_sha256
compute_sha256-IsRight io content sized faithful w =
    unless_stopped-IsRight io content sized 0 _ w (omega arith) (λ u.
      elim (Bool-cases (ltb max_input_size io.size)) [
        | inl e ↦ rw e (given_up _ (omega arith) (refl, ground arith))
        | inr e ↦
            rw (e, sha256_state_lem)
              (hash_loop-IsRight io content sized (ground arith) faithful io.size 0 u (omega arith)
                (omega arith))
      ])

abbrev is_hashes : Hashing → Bool
is_hashes (hashes d) = true
is_hashes _ = false

right_hashes :
    {W : Type 0} (io : ImageWorld W) (content : Bytes) (r : Hashing)
    → IsRight io content r
    → is_hashes r ≡ true
    → r ≡ hashes (sha256 content)
right_hashes io content _ (right d e) h = ap hashes e
right_hashes io content _ (given_up e l x) h = absurd (ground arith)

-- Every read of something within the source gives something.
abbrev pub Progresses : {W : Type 0} → ImageWorld W → Type 0
Progresses {W} io =
    (offset requested : ℕ) (w : W)
    → 0 < requested
    → offset + requested ≤ io.size
    → (n : ℕ) × (bytes : Bytes) × ((io.read_at offset requested w).0 ≡ reads n bytes)
      × (0 < n)
      × (n ≤ requested)

module _ {W : Type 0} (io : ImageWorld W) (quiet : (w : W) → (io.stop_requested w).0 ≡ false)
    (progress : Progresses io) where
  unless_stopped_hashes :
      (offset : ℕ) (rest : W → Hashing × W) (w : W)
      → ((u : W) → is_hashes (rest u).0 ≡ true)
      → is_hashes (unless_stopped io offset rest w).0 ≡ true
  unfolding unless_stopped
  unless_stopped_hashes offset rest w h = rw (quiet w) (h (io.stop_requested w).1)

  hash_piece_hashes :
      (rest : ℕ → Sha256 → W → Hashing × W) (offset : ℕ) (s : Sha256) (w : W)
      → offset < io.size
      → ((n : ℕ) (t : Sha256) (u : W) → 0 < n → is_hashes (rest (offset + n) t u).0 ≡ true)
      → is_hashes (hash_piece io rest offset s w).0 ≡ true
  unfolding hash_read
  hash_piece_hashes rest offset s w h k =
      let requested = min (io.size - offset) read_size in
      let (n, bytes, e, pos, le) = progress offset requested w (omega arith) (omega arith) in
      let few : ltb requested n ≡ false = ground arith in
      let some_read : (n == 0) ≡ false = ground arith in
      rw (e, few, some_read)
        (unless_stopped_hashes offset (rest (offset + n) (update (take n bytes) s))
          (io.read_at offset requested w).1 (λ u. k n (update (take n bytes) s) u pos))

  hash_loop_hashes :
      (fuel offset : ℕ) (s : Sha256) (w : W)
      → io.size ≤ offset + fuel
      → is_hashes (hash_loop io fuel offset s w).0 ≡ true
  unfolding hash_loop
  hash_loop_hashes zero offset s w k =
      let e : ltb offset io.size ≡ false = ground arith in
      rw e (unless_stopped_hashes offset (λ u. (hashes (finish s), u)) w (λ u. refl))
  hash_loop_hashes (suc fuel) offset s w k = elim (Bool-cases (ltb offset io.size)) [
    | inr e ↦ rw e (unless_stopped_hashes offset (λ u. (hashes (finish s), u)) w (λ u. refl))
    | inl e ↦ rw e (
        unless_stopped_hashes offset (hash_piece io (hash_loop io fuel) offset s) w (λ u.
          hash_piece_hashes (hash_loop io fuel) offset s u (ground arith)
            (λ n t x pos. hash_loop_hashes fuel (offset + n) t x (omega arith))))
  ]

  compute_sha256_hashes :
      (w : W) → io.size ≤ max_input_size → is_hashes (compute_sha256 io w).0 ≡ true
  unfolding compute_sha256
  compute_sha256_hashes w small =
      let e : ltb max_input_size io.size ≡ false = ground arith in
      rw e (
        unless_stopped_hashes 0 (hash_loop io io.size 0 sha256_state) w
          (λ u. hash_loop_hashes io.size 0 sha256_state u (omega arith)))

-- Where the token is never set, the source is not too large, and each read of something within the source gives something
-- of the content, however little, the digest is given.
pub compute_sha256_total :
    {W : Type 0} (io : ImageWorld W) (content : Bytes)
    → io.size ≡ length content
    → ReadsContent io content
    → ((w : W) → (io.stop_requested w).0 ≡ false)
    → Progresses io
    → io.size ≤ max_input_size
    → (w : W) → (compute_sha256 io w).0 ≡ hashes (sha256 content)
compute_sha256_total io content sized faithful quiet progress small w =
    right_hashes io content _ (compute_sha256-IsRight io content sized faithful w)
      (compute_sha256_hashes io quiet progress w small)
