-- ===== src/Image/Sha256/Absorbed.antt =====
-- `update` in several pieces, beside one pass over all the bytes.
use kairos_boot.Base.{
  ℕ, zero, suc, ◌+◌, ◌-◌, ◌%◌, ◌^◌, ◌≤◌, ◌<◌, ◌≡◌, refl, Bytes, Bool-cases, inl, inr, true, false,
  [], ◌∷◌, ◌++◌, ltb, ◌==◌, min, if◌then◌else◌, length, take, drop, length-append, length-drop,
  length-take, take_front, drop_front, take-append, drop-append, take_all, drop_all, arith,
}
use kairos_boot.Image.Sha256.{
  Words, initial_words, transform, Sha256, absorb, flushed, blocks_absorbed, update,
}

-- The bytes in one pass: the words behind the last whole block, and what is left.
abbrev pub hashed : Bytes → Words → Words × Bytes
hashed bs s = absorb (length bs) bs s

absorb_fuel :
    (n m : ℕ) (bs : Bytes) (s : Words)
    → length bs ≤ n
    → length bs ≤ m
    → absorb n bs s ≡ absorb m bs s
unfolding absorb
absorb_fuel zero zero bs s h k = refl
absorb_fuel zero (suc m) [] s h k = refl
absorb_fuel zero (suc m) (b ∷ bs) s h k = absurd (omega arith)
absorb_fuel (suc n) zero [] s h k = refl
absorb_fuel (suc n) zero (b ∷ bs) s h k = absurd (omega arith)
absorb_fuel (suc n) (suc m) bs s h k = elim (Bool-cases (ltb (length bs) 64)) [
  | inl e ↦ rw e refl
  | inr e ↦ rw e (
      absorb_fuel n m (drop 64 bs) (transform (take 64 bs) s) (ground (arith, length-drop 64 bs))
        (ground (arith, length-drop 64 bs)))
]

pub hashed_short : (bs : Bytes) (s : Words) → length bs < 64 → hashed bs s ≡ (s, bs)
unfolding absorb
hashed_short [] s h = refl
hashed_short (b ∷ bs) s h = let e : ltb (suc (length bs)) 64 ≡ true = ground arith in rw e refl

pub hashed_block :
    (bs : Bytes) (s : Words)
    → 64 ≤ length bs
    → hashed bs s ≡ hashed (drop 64 bs) (transform (take 64 bs) s)
unfolding absorb
hashed_block [] s h = absurd (omega arith)
hashed_block (b ∷ bs) s h =
    let e : ltb (suc (length bs)) 64 ≡ false = ground arith in
    rw e (
      absorb_fuel (length bs) (length (drop 64 (b ∷ bs))) (drop 64 (b ∷ bs))
        (transform (take 64 (b ∷ bs)) s) (omega (arith, length-drop 64 (b ∷ bs))) (omega arith))

-- The bytes before are one pass, the bytes after go on from it.
pub hashed-append_fuel :
    (n : ℕ) (xs bs : Bytes) (s : Words)
    → length xs ≤ n
    → hashed (xs ++ bs) s ≡ hashed ((hashed xs s).1 ++ bs) (hashed xs s).0
hashed-append_fuel zero [] bs s h = unfold absorb in refl
hashed-append_fuel zero (x ∷ xs) bs s h = absurd (omega arith)
hashed-append_fuel (suc n) xs bs s h = elim (Bool-cases (ltb (length xs) 64)) [
  | inl e ↦ rw (hashed_short xs s (ground arith)) refl
  | inr e ↦
      let block : 64 ≤ length xs = ground arith in
      rw
        (
          hashed_block (xs ++ bs) s (omega (arith, length-append xs bs)),
          hashed_block xs s block,
          take_front 64 xs bs block,
          drop_front 64 xs bs block,
        )
        (hashed-append_fuel n (drop 64 xs) bs (transform (take 64 xs) s)
          (omega (arith, length-drop 64 xs)))
]

pub hashed-append :
    (xs bs : Bytes) (s : Words)
    → hashed (xs ++ bs) s ≡ hashed ((hashed xs s).1 ++ bs) (hashed xs s).0
hashed-append xs bs s = hashed-append_fuel (length xs) xs bs s (omega arith)

length-hashed_fuel :
    (n : ℕ) (bs : Bytes) (s : Words) → length bs ≤ n → length (hashed bs s).1 ≡ length bs % 64
length-hashed_fuel zero [] s h = unfold absorb in refl
length-hashed_fuel zero (b ∷ bs) s h = absurd (omega arith)
length-hashed_fuel (suc n) bs s h = elim (Bool-cases (ltb (length bs) 64)) [
  | inl e ↦ rw (hashed_short bs s (ground arith)) (ground arith)
  | inr e ↦
      let block : 64 ≤ length bs = ground arith in
      rw (hashed_block bs s block) (
        omega
          (arith, length-hashed_fuel n (drop 64 bs) (transform (take 64 bs) s), length-drop 64 bs))
]

-- What is left is less than a block.
pub length-hashed : (bs : Bytes) (s : Words) → length (hashed bs s).1 ≡ length bs % 64
length-hashed bs s = length-hashed_fuel (length bs) bs s (omega arith)

-- The state behind all the bytes `m`, in one pass.
abbrev pub state_of : Bytes → Sha256
state_of m = record {
  state = (hashed m initial_words).0;
  buffer = (hashed m initial_words).1;
  total_bytes = length m % 2 ^ 64;
}

copied : (rest old : Bytes) → old ≡ [] → (if length rest == 0 then old else rest) ≡ rest
copied [] old e = e
copied (b ∷ rest) old e = ground arith

-- The loop of `update` and the copy behind it.
blocks_absorbed-hashed :
    (bs : Bytes) (s : Sha256)
    → s.buffer ≡ []
    → blocks_absorbed bs s
      ≡ record s { state = (hashed bs s.state).0; buffer = (hashed bs s.state).1 }
unfolding blocks_absorbed
blocks_absorbed-hashed bs s e = rw (copied (hashed bs s.state).1 s.buffer e) refl

blocks_absorbed_none : (s : Sha256) → blocks_absorbed [] s ≡ s
unfolding blocks_absorbed absorb
blocks_absorbed_none s = refl

flushed_partial : (s : Sha256) → length s.buffer < 64 → flushed s ≡ s
unfolding flushed
flushed_partial s h = let e : (length s.buffer == 64) ≡ false = ground arith in rw e refl

flushed_full :
    (s : Sha256)
    → length s.buffer ≡ 64
    → flushed s ≡ record s { state = transform s.buffer s.state; buffer = [] }
unfolding flushed
flushed_full s h = let e : (length s.buffer == 64) ≡ true = ground arith in rw e refl

empty_buffer : (bs : Bytes) → length bs ≡ 0 → bs ≡ []
empty_buffer [] h = refl
empty_buffer (b ∷ bs) h = absurd (omega arith)

-- One call of `update` goes on from what was buffered.
update-hashed :
    (bs : Bytes) (s : Sha256)
    → length s.buffer < 64
    → update bs s ≡ record {
      state = (hashed (s.buffer ++ bs) s.state).0;
      buffer = (hashed (s.buffer ++ bs) s.state).1;
      total_bytes = (s.total_bytes + length bs) % 2 ^ 64;
    }
unfolding update
update-hashed bs s h = elim (Bool-cases (length s.buffer == 0)) [
  | inl e ↦
      let z : s.buffer ≡ [] = empty_buffer s.buffer (ground arith) in
      rw
        (
          e,
          blocks_absorbed-hashed bs
              (record s { total_bytes = (s.total_bytes + length bs) % 2 ^ 64 }) z,
          z,
        )
        refl
  | inr e ↦ elim (Bool-cases (ltb (length s.buffer + length bs) 64)) [
    | inl l ↦
        let amount : min (64 - length s.buffer) (length bs) ≡ length bs = ground arith in
        let filled : Sha256 = record {
          state = s.state;
          buffer = s.buffer ++ bs;
          total_bytes = (s.total_bytes + length bs) % 2 ^ 64;
        } in
        let room : length (s.buffer ++ bs) < 64 = ground (arith, length-append s.buffer bs) in
        rw
          (
            e,
            amount,
            take_all (length bs) bs (omega arith),
            drop_all (length bs) bs (omega arith),
            flushed_partial filled room,
            blocks_absorbed_none filled,
            hashed_short (s.buffer ++ bs) s.state room,
          )
          refl
    | inr l ↦
        let n = 64 - length s.buffer in
        let amount : min n (length bs) ≡ n = ground arith in
        let filled : Sha256 = record {
          state = s.state;
          buffer = s.buffer ++ take n bs;
          total_bytes = (s.total_bytes + length bs) % 2 ^ 64;
        } in
        let full : length (s.buffer ++ take n bs) ≡ 64 =
          ground (arith, length-append s.buffer (take n bs), length-take n bs) in
        let block : 64 ≤ length (s.buffer ++ bs) = ground (arith, length-append s.buffer bs) in
        rw
          (
            e,
            amount,
            flushed_full filled full,
            blocks_absorbed-hashed (drop n bs)
                (record filled { state = transform filled.buffer s.state; buffer = [] }) refl,
            hashed_block (s.buffer ++ bs) s.state block,
            take-append 64 n s.buffer bs (omega arith),
            drop-append 64 n s.buffer bs (omega arith),
          )
          refl
  ]
]

-- The state behind some bytes goes on to the state behind more.
pub update-state_of : (m bs : Bytes) → update bs (state_of m) ≡ state_of (m ++ bs)
update-state_of m bs =
    let total : (length m % 2 ^ 64 + length bs) % 2 ^ 64 ≡ (length m + length bs) % 2 ^ 64 =
      omega arith in
    rw
      (
        update-hashed bs (state_of m) (omega (arith, length-hashed m initial_words)),
        hashed-append m bs initial_words,
        length-append m bs,
        total,
      )
      refl
