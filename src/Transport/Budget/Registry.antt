-- ===== src/Transport/Budget/Registry.antt =====
-- The availability observers of a budget. A registered `weak_ptr` is the number of its owner; which
-- owners have expired is a parameter of each call.
use kairos_boot.Base.{
  ℕ, suc, ◌≤◌, zero, ap, min, ◌≡◌, refl, Bool, false, List, [], ◌∷◌, ◌==◌, if◌then◌else◌, arith,
  take, length, ==_iff,
}

module _ (expired : ℕ → Bool) where
  -- The `while` loop of `observe_availability`: expired entries go until the owner is found.
  unfoldable pub register_loop : ℕ → List ℕ → List ℕ
  register_loop observer [] = observer ∷ []
  register_loop observer (x ∷ xs) =
      let rest = register_loop observer xs in
      if expired x then rest else if x == observer then observer ∷ xs else x ∷ rest

  unfoldable pub observe_availability : ℕ → List ℕ → List ℕ
  observe_availability observer observers =
      if expired observer then observers else register_loop observer observers

  -- `std::erase_if` over the registered observers
  unfoldable pub erase_expired : List ℕ → List ℕ
  erase_expired [] = []
  erase_expired (x ∷ xs) = let rest = erase_expired xs in if expired x then rest else x ∷ rest

  -- The loop that locks each entry and keeps the owners that are alive.
  unfoldable pub living : List ℕ → List ℕ
  living [] = []
  living (x ∷ xs) = let rest = living xs in if expired x then rest else x ∷ rest

  -- `release_charge` calls the observers that are alive, in the order of registration, among as many
  -- as it had counted at its first hold of the lock.
  unfoldable pub notified : ℕ → List ℕ → List ℕ
  notified capacity observers = living (take (min capacity (length observers)) observers)

  -- How often an owner is registered.
  abbrev pub times : ℕ → List ℕ → ℕ
  times o [] = 0
  times o (x ∷ xs) = if x == o then suc (times o xs) else times o xs

  times-register_loop :
      (observer o : ℕ) (xs : List ℕ)
      → expired observer ≡ false
      → expired o ≡ false
      → times observer xs ≤ 1
      → times o (register_loop observer xs) ≡ (if o == observer then 1 else times o xs)
  unfolding register_loop
  times-register_loop observer o [] h g c = ground arith
  times-register_loop observer o (x ∷ xs) h g c =
      ground (arith, times-register_loop observer o xs h g, ==_iff o observer)

  times-erase_expired :
      (o : ℕ) (xs : List ℕ) → times o (erase_expired xs) ≡ (if expired o then 0 else times o xs)
  unfolding erase_expired
  times-erase_expired o [] = ground arith
  times-erase_expired o (x ∷ xs) = ground (arith, times-erase_expired o xs)

  times-living : (o : ℕ) (xs : List ℕ) → times o (living xs) ≡ (if expired o then 0 else times o xs)
  unfolding living
  times-living o [] = ground arith
  times-living o (x ∷ xs) = ground (arith, times-living o xs)

  -- Registering a living observer that was registered at most once leaves it registered exactly once,
  -- and every other living observer as often as before.
  pub times-observe_availability :
      (observer o : ℕ) (xs : List ℕ)
      → expired observer ≡ false
      → expired o ≡ false
      → times observer xs ≤ 1
      → times o (observe_availability observer xs) ≡ (if o == observer then 1 else times o xs)
  unfolding observe_availability
  times-observe_availability observer o xs h g c = rw h (times-register_loop observer o xs h g c)

  take-all : (n : ℕ) (xs : List ℕ) → length xs ≤ n → take n xs ≡ xs
  take-all zero [] h = refl
  take-all (suc n) [] h = refl
  take-all zero (x ∷ xs) h = absurd (omega arith)
  take-all (suc n) (x ∷ xs) h = ap (◌∷◌ x) (take-all n xs (omega arith))

  -- A release with room for every registered observer calls each living one as often as it is
  -- registered, and no expired one; the erasure keeps each living one registered as often, and no expired one.
  pub times-notified :
      (o capacity : ℕ) (xs : List ℕ)
      → length xs ≤ capacity
      → (times o (notified capacity xs) ≡ (if expired o then 0 else times o xs))
        × (times o (erase_expired xs) ≡ (if expired o then 0 else times o xs))
  unfolding notified
  times-notified o capacity xs h = (
    rw (take-all (min capacity (length xs)) xs (omega arith)) (times-living o xs),
    times-erase_expired o xs,
  )
