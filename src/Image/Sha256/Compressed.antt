-- ===== src/Image/Sha256/Compressed.antt =====
-- `transform` and its constants beside the computation of FIPS 180-4 on a block.
use kairos_boot.Base.{
  ℕ, zero, suc, ◌+◌, ◌*◌, ◌^◌, ◌≡◌, refl, sym, ap, ◌∙◌, Bytes, List, [], ◌∷◌, ◌++◌, length, drop,
  length-append, arith,
}
use kairos_boot.Image.Sha256.{
  Words, initial_words, round_constants, load_words, back, small_sigma0, small_sigma1, next_word,
  extended, reversed, schedule, round, rounds, added_words, transform,
}
use kairos_boot.Image.Sha256.Standard.{
  root, cube_fraction, square_fraction, constants, initial_hash, at, words_of, schedule_word,
  schedule_words, lower_sigma0, lower_sigma1, upper_sigma0, upper_sigma1, ch, maj, step, variables,
  sums, compressed,
}

-- The table of the code holds the fractions of the cube roots.
constants_lem : round_constants ≡ constants
unfolding constants cube_fraction root
constants_lem = refl

pub initial_hash_lem : initial_words ≡ initial_hash
unfolding initial_hash square_fraction root
initial_hash_lem = refl

step_lem : (k w : ℕ) (v : Words) → round k w v ≡ step k w v
unfolding round step ch maj upper_sigma0 upper_sigma1
step_lem k w v = refl

-- The code's words of a block.
load_words_lem : (n : ℕ) (bs : Bytes) → length bs ≡ n * 4 → load_words bs ≡ words_of n bs
unfolding load_words words_of
load_words_lem zero [] h = refl
load_words_lem zero (a ∷ bs) h = absurd (omega arith)
load_words_lem (suc n) [] h = absurd (omega arith)
load_words_lem (suc n) (a ∷ []) h = absurd (omega arith)
load_words_lem (suc n) (a ∷ b ∷ []) h = absurd (omega arith)
load_words_lem (suc n) (a ∷ b ∷ c ∷ []) h = absurd (omega arith)
load_words_lem (suc n) (a ∷ b ∷ c ∷ d ∷ bs) h =
    ap (λ t. (a * 2 ^ 24 + b * 2 ^ 16 + c * 2 ^ 8 + d) ∷ t) (load_words_lem n bs (omega arith))

length-words_of : (n : ℕ) (bs : Bytes) → length (words_of n bs) ≡ n
unfolding words_of
length-words_of zero bs = refl
length-words_of (suc n) bs = ap suc (length-words_of n (drop 4 bs))

length-schedule_words : (n : ℕ) (ws : List ℕ) → length (schedule_words n ws) ≡ n + length ws
unfolding schedule_words
length-schedule_words zero ws = omega arith
length-schedule_words (suc n) ws = omega (
  arith,
  length-schedule_words n ws,
  length-append (schedule_words n ws) (schedule_word n (schedule_words n ws) ∷ []),
)

extended_last :
    (n : ℕ) (ws : List ℕ) → extended (suc n) ws ≡ next_word (extended n ws) ∷ extended n ws
unfolding extended
extended_last zero ws = refl
extended_last (suc n) ws = extended_last n (next_word ws ∷ ws)

reversed_last : (xs ys : List ℕ) (w : ℕ) → reversed (xs ++ w ∷ []) ys ≡ w ∷ reversed xs ys
reversed_last [] ys w = refl
reversed_last (x ∷ xs) ys w = reversed_last xs (x ∷ ys) w

reversed_twice : (xs ys zs : List ℕ) → reversed (reversed xs ys) zs ≡ reversed ys (xs ++ zs)
reversed_twice [] ys zs = refl
reversed_twice (x ∷ xs) ys zs = reversed_twice xs (x ∷ ys) zs

back_beyond : (xs ys : List ℕ) (k i : ℕ) → k ≡ length xs + i → back k (reversed xs ys) ≡ back i ys
back_beyond [] ys k i h = let e : k ≡ i = omega arith in ap (λ n. back n ys) e
back_beyond (x ∷ xs) ys k i h = back_beyond xs (x ∷ ys) k (suc i) (omega arith)

-- Counted from the newest, or from the first.
back-reversed :
    (xs ys : List ℕ) (k j : ℕ) → k + suc j ≡ length xs → back k (reversed xs ys) ≡ at j xs
back-reversed [] ys k j h = absurd (omega arith)
back-reversed (x ∷ xs) ys k zero h = back_beyond xs (x ∷ ys) k 0 (omega arith)
back-reversed (x ∷ xs) ys k (suc j) h = back-reversed xs (x ∷ ys) k j (omega arith)

small_sigma0_lem : (x : ℕ) → small_sigma0 x ≡ lower_sigma0 x
unfolding small_sigma0 lower_sigma0
small_sigma0_lem x = refl

small_sigma1_lem : (x : ℕ) → small_sigma1 x ≡ lower_sigma1 x
unfolding small_sigma1 lower_sigma1
small_sigma1_lem x = refl

next_word-reversed :
    (n : ℕ) (ws : List ℕ) → length ws ≡ n + 16 → next_word (reversed ws []) ≡ schedule_word n ws
unfolding next_word schedule_word
next_word-reversed n ws h =
    rw
      (
        back-reversed ws [] 15 n (omega arith),
        back-reversed ws [] 14 (n + 1) (omega arith),
        back-reversed ws [] 6 (n + 9) (omega arith),
        back-reversed ws [] 1 (n + 14) (omega arith),
        small_sigma0_lem (at (n + 1) ws),
        small_sigma1_lem (at (n + 14) ws),
      )
      (omega arith)

extended-reversed :
    (n : ℕ) (ws : List ℕ)
    → length ws ≡ 16
    → extended n (reversed ws []) ≡ reversed (schedule_words n ws) []
unfolding schedule_words
extended-reversed zero ws h = unfold extended in refl
extended-reversed (suc n) ws h =
    rw
      (
        extended_last n (reversed ws []),
        extended-reversed n ws h,
        next_word-reversed n (schedule_words n ws) (omega (arith, length-schedule_words n ws)),
        reversed_last (schedule_words n ws) [] (schedule_word n (schedule_words n ws)),
      )
      refl

append_nil : (xs : List ℕ) → xs ++ [] ≡ xs
append_nil [] = refl
append_nil (x ∷ xs) = ap (λ t. x ∷ t) (append_nil xs)

schedule_lem :
    (block : Bytes) → length block ≡ 64 → schedule block ≡ schedule_words 48 (words_of 16 block)
unfolding schedule
schedule_lem block h =
    rw
      (
        load_words_lem 16 block h,
        extended-reversed 48 (words_of 16 block) (length-words_of 16 block),
        reversed_twice (schedule_words 48 (words_of 16 block)) [] [],
      )
      (append_nil (schedule_words 48 (words_of 16 block)))

-- The first step goes in front.
variables_first :
    (t k w : ℕ) (ks ws : List ℕ) (v : Words)
    → variables (suc t) (k ∷ ks) (w ∷ ws) v ≡ variables t ks ws (step k w v)
unfolding variables
variables_first zero k w ks ws v = refl
variables_first (suc t) k w ks ws v = ap (step (at t ks) (at t ws)) (variables_first t k w ks ws v)

rounds_lem :
    (t : ℕ) (ks ws : List ℕ) (v : Words)
    → length ks ≡ t
    → length ws ≡ t
    → rounds ks ws v ≡ variables t ks ws v
unfolding rounds
rounds_lem zero [] ws v h k = unfold variables in refl
rounds_lem zero (c ∷ ks) ws v h k = absurd (omega arith)
rounds_lem (suc t) [] ws v h k = absurd (omega arith)
rounds_lem (suc t) (c ∷ ks) [] v h k = absurd (omega arith)
rounds_lem (suc t) (c ∷ ks) (w ∷ ws) v h k =
    rounds_lem t ks ws (round c w v) (omega arith) (omega arith)
    ∙ ap (variables t ks ws) (step_lem c w v)
    ∙ sym (variables_first t c w ks ws v)

sums_lem : (u v : Words) → added_words u v ≡ sums u v
unfolding added_words sums
sums_lem u v = refl

pub transform_lem :
    (block : Bytes) (s : Words) → length block ≡ 64 → transform block s ≡ compressed block s
unfolding transform compressed
transform_lem block s h =
    let ws = schedule_words 48 (words_of 16 block) in
    let l : length ws ≡ 64 =
      omega (arith, length-schedule_words 48 (words_of 16 block), length-words_of 16 block) in
    sums_lem s (rounds round_constants (schedule block) s)
    ∙ ap (sums s) (
        ap (λ t. rounds round_constants t s) (schedule_lem block h)
        ∙ rounds_lem 64 round_constants ws s refl l
        ∙ ap (λ t. variables 64 t ws s) constants_lem)
