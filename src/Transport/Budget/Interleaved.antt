-- ===== src/Transport/Budget/Interleaved.antt =====
-- Threads that share a budget. A thread takes a charge by one exchange and raises the peak by a later
-- one, and others may run in between.
use kairos_boot.Base.{ℕ, ◌+◌, ◌-◌, ◌≤◌, ◌<◌, ◌≡◌, refl, true, List, [], ◌∷◌, ◌++◌, arith, max}
use kairos_boot.Transport.Budget.{
  Budget, budget, word, has_room, charge, raise_peak, release_charge,
}

-- `live` are the charges of the leases, `pending` the totals that some thread has yet to put into the
-- peak.
pub record Shared : Type 0 where
  pub state : Budget
  pub live : List ℕ
  pub pending : List ℕ

abbrev pub sum : List ℕ → ℕ
sum [] = 0
sum (x ∷ xs) = x + sum xs

abbrev pub start : ℕ → Shared
start limit = record { state = budget limit; live = []; pending = [] }

-- One atomic step of some thread. A lease is released only by its owner, once.
pub data Step : Shared → Shared → Type 0 where
  acquire :
      (s : Shared) (bytes : ℕ)
      → 0 < bytes
      → has_room s.state bytes ≡ true
      → Step s (record {
        state = charge s.state bytes;
        live = bytes ∷ s.live;
        pending = (s.state.used + bytes) ∷ s.pending;
      })
  raise :
      (s : Shared) (before after : List ℕ) (total : ℕ)
      → s.pending ≡ before ++ total ∷ after
      → Step s (record s { state = raise_peak s.state total; pending = before ++ after })
  release :
      (s : Shared) (before after : List ℕ) (bytes : ℕ)
      → s.live ≡ before ++ bytes ∷ after
      → Step s (record s { state = release_charge s.state bytes; live = before ++ after })

pub data Reach (s : Shared) : Shared → Type 0 where
  here : Reach s s
  next : {t u : Shared} → Reach s t → Step t u → Reach s u

abbrev AllLe : ℕ → List ℕ → Type 0
AllLe n [] = Unit {0}
AllLe n (x ∷ xs) = (x ≤ n) × AllLe n xs

-- The largest of a list, and of a number.
abbrev pub highest : ℕ → List ℕ → ℕ
highest n [] = n
highest n (x ∷ xs) = max x (highest n xs)

-- The charges are those of the live leases and fit the limit; no total passes the limit; the peak and
-- the totals on their way to it cover what is in use.
pub record IsAccounted (limit : ℕ) (s : Shared) : Type 0 where
  pub fixed : s.state.limit ≡ limit
  pub word_sized : limit < word
  pub exact : s.state.used ≡ sum s.live
  pub fits : s.state.used ≤ limit
  pub peak_fits : highest s.state.peak s.pending ≤ limit
  pub covered : s.state.used ≤ highest s.state.peak s.pending

sum-middle : (xs ys : List ℕ) (x : ℕ) → sum (xs ++ x ∷ ys) ≡ x + sum (xs ++ ys)
sum-middle [] ys x = refl
sum-middle (z ∷ xs) ys x = omega (arith, sum-middle xs ys x)

highest-max : (n x : ℕ) (xs : List ℕ) → highest (max n x) xs ≡ max x (highest n xs)
highest-max n x [] = omega arith
highest-max n x (z ∷ xs) = omega (arith, highest-max n x xs)

highest-middle :
    (n : ℕ) (xs ys : List ℕ) (x : ℕ) → highest n (xs ++ x ∷ ys) ≡ highest (max n x) (xs ++ ys)
highest-middle n [] ys x = omega (arith, highest-max n x ys)
highest-middle n (z ∷ xs) ys x = omega (arith, highest-middle n xs ys x)

peak-raise_peak : (b : Budget) (total : ℕ) → (raise_peak b total).peak ≡ max b.peak total
unfolding raise_peak
peak-raise_peak b total = ground arith

used-release_charge :
    (b : Budget) (bytes : ℕ)
    → bytes ≤ b.used
    → b.used < word
    → (release_charge b bytes).used ≡ b.used - bytes
unfolding release_charge
used-release_charge b bytes h g = omega arith

has_room-le : (b : Budget) (bytes : ℕ) → has_room b bytes ≡ true → b.used + bytes ≤ b.limit
unfolding has_room
has_room-le b bytes h = ground arith

highest-raise_peak :
    (b : Budget) (xs ys zs : List ℕ) (total : ℕ)
    → xs ≡ ys ++ total ∷ zs
    → highest (raise_peak b total).peak (ys ++ zs) ≡ highest b.peak xs
highest-raise_peak b xs ys zs total e =
    rw (e, peak-raise_peak b total, highest-middle b.peak ys zs total)

sum-remove : (xs ys zs : List ℕ) (x : ℕ) → xs ≡ ys ++ x ∷ zs → sum xs ≡ x + sum (ys ++ zs)
sum-remove xs ys zs x e = rw (e, sum-middle ys zs x)

-- Any step of any thread keeps the account.
Step-IsAccounted : {limit : ℕ} {s t : Shared} → Step s t → IsAccounted limit s → IsAccounted limit t
Step-IsAccounted (acquire s bytes pos room) v =
    unfold charge in omega (arith, has_room-le s.state bytes room)
Step-IsAccounted (raise s before after total e) v =
    let m = highest-raise_peak s.state s.pending before after total e in
    record {
      fixed = unfold raise_peak in v.fixed;
      word_sized = v.word_sized;
      exact = unfold raise_peak in v.exact;
      fits = unfold raise_peak in v.fits;
      peak_fits = rw m v.peak_fits;
      covered = rw m (unfold raise_peak in v.covered);
    }
Step-IsAccounted (release s before after bytes e) v =
    let m = sum-remove s.live before after bytes e in
    let u = used-release_charge s.state bytes (omega arith) (omega arith) in
    record {
      fixed = unfold release_charge in v.fixed;
      word_sized = v.word_sized;
      exact = omega arith;
      fits = omega arith;
      peak_fits = unfold release_charge in v.peak_fits;
      covered = rw u (unfold release_charge in omega arith);
    }

start-IsAccounted : (limit : ℕ) → limit < word → IsAccounted limit (start limit)
start-IsAccounted limit h = omega arith

Reach-IsAccounted :
    {limit : ℕ} {s t : Shared} → IsAccounted limit s → Reach s t → IsAccounted limit t
Reach-IsAccounted v here = v
Reach-IsAccounted v (next r st) = Step-IsAccounted st (Reach-IsAccounted v r)

-- However the threads interleave, what is in use is the sum of the live charges and never passes the
-- limit, no more does the peak, and the peak with the totals on their way to it covers what is in use.
pub Reach_accounted :
    (limit : ℕ) (s : Shared)
    → limit < word
    → Reach (start limit) s
    → (s.state.used ≡ sum s.live)
      × (s.state.used ≤ limit)
      × (s.state.peak ≤ limit)
      × (s.state.used ≤ highest s.state.peak s.pending)
Reach_accounted limit s h r =
    let v = Reach-IsAccounted (start-IsAccounted limit h) r in
    (v.exact, v.fits, peak-le s.state.peak s.pending v.peak_fits, v.covered)
  where
    peak-le : (n : ℕ) (xs : List ℕ) → highest n xs ≤ limit → n ≤ limit
    peak-le n [] g = g
    peak-le n (x ∷ xs) g = peak-le n xs (omega arith)
