-- ===== src/Transport/Ring/Tiles.antt =====
-- How the transfers in flight and the successful segments cover the bytes between the watermark and the
-- next offset.
use kairos_boot.Base.{
  ℕ, zero, suc, ◌+◌, ◌≤◌, ◌<◌, ◌≡◌, refl, none, some, List, [], ◌∷◌, ◌++◌, length, arith, ◌==◌,
  ==_iff, Bool-cases, Option-cases, inl, inr,
}
use kairos_boot.Transport.Ring.{
  InFlight, Segment, find_in_flight, erase_in_flight, insert_segment, find_segment, erase_segment,
  advance,
}

-- `Tiles w n lost fs ss`: the transfers `fs` and the segments `ss`, each at least one byte long, follow on
-- one another from `w` to `n`, but for gaps of `lost` bytes altogether.
pub data Tiles : ℕ → ℕ → ℕ → List InFlight → List Segment → Type 0 where
  done : {w n lost : ℕ} → w ≡ n → lost ≡ 0 → Tiles w n lost [] []
  flying :
      {w n lost : ℕ} {fs : List InFlight} {ss : List Segment} (f : InFlight)
      → f.offset ≡ w
      → 0 < f.requested
      → Tiles (w + f.requested) n lost fs ss
      → Tiles w n lost (f ∷ fs) ss
  landed :
      {w n lost : ℕ} {fs : List InFlight} {ss : List Segment} (s : Segment)
      → s.0 ≡ w
      → 0 < s.1
      → Tiles (w + s.1) n lost fs ss
      → Tiles w n lost fs (s ∷ ss)
  gap :
      {w n lost : ℕ} {fs : List InFlight} {ss : List Segment} (k rest : ℕ)
      → 0 < k
      → lost ≡ k + rest
      → Tiles (w + k) n rest fs ss
      → Tiles w n lost fs ss

unfoldable pub requested_bytes : List InFlight → ℕ
requested_bytes [] = 0
requested_bytes (f ∷ fs) = f.requested + requested_bytes fs

unfoldable pub landed_bytes : List Segment → ℕ
landed_bytes [] = 0
landed_bytes (s ∷ ss) = s.1 + landed_bytes ss

-- The bytes add up.
pub Tiles-sum :
    {w n lost : ℕ} {fs : List InFlight} {ss : List Segment}
    → Tiles w n lost fs ss
    → w + requested_bytes fs + landed_bytes ss + lost ≡ n
unfolding requested_bytes landed_bytes
Tiles-sum (done e l) = omega arith
Tiles-sum (flying f e pos t) = omega (arith, Tiles-sum t)
Tiles-sum (landed s e pos t) = omega (arith, Tiles-sum t)
Tiles-sum (gap k rest pos e t) = omega (arith, Tiles-sum t)

-- A transfer from the end on.
pub Tiles-append :
    {w n lost : ℕ} {fs : List InFlight} {ss : List Segment} (f : InFlight)
    → f.offset ≡ n
    → 0 < f.requested
    → Tiles w n lost fs ss
    → Tiles w (n + f.requested) lost (fs ++ f ∷ []) ss
Tiles-append f e pos (done x l) = flying f (omega arith) pos (done (omega arith) l)
Tiles-append f e pos (flying g x p t) = flying g x p (Tiles-append f e pos t)
Tiles-append f e pos (landed s x p t) = landed s x p (Tiles-append f e pos t)
Tiles-append f e pos (gap k rest p x t) = gap k rest p x (Tiles-append f e pos t)

-- Nothing stands before the watermark.
pub Tiles-find_in_flight :
    {w n lost : ℕ} {fs : List InFlight} {ss : List Segment} (id : ℕ) (f : InFlight)
    → Tiles w n lost fs ss
    → find_in_flight id fs ≡ some f
    → (w ≤ f.offset) × (0 < f.requested)
unfolding find_in_flight
Tiles-find_in_flight id f (done e l) h = ground arith
Tiles-find_in_flight id f (flying g e pos t) h = ground (arith, Tiles-find_in_flight id f t)
Tiles-find_in_flight id f (landed s e pos t) h = ground (arith, Tiles-find_in_flight id f t)
Tiles-find_in_flight id f (gap k rest pos e t) h = ground (arith, Tiles-find_in_flight id f t)

Tiles-find_segment :
    {w n lost : ℕ} {fs : List InFlight} {ss : List Segment} (o m : ℕ)
    → Tiles w n lost fs ss
    → find_segment o ss ≡ some m
    → w ≤ o
unfolding find_segment
Tiles-find_segment o m (done e l) h = ground arith
Tiles-find_segment o m (flying g e pos t) h = ground (arith, Tiles-find_segment o m t)
Tiles-find_segment o m (landed s e pos t) h = ground (arith, Tiles-find_segment o m t)
Tiles-find_segment o m (gap k rest pos e t) h = ground (arith, Tiles-find_segment o m t)

-- A segment before all others goes to the front.
Tiles-insert_front :
    {w n lost : ℕ} {fs : List InFlight} {ss : List Segment} (o m : ℕ)
    → Tiles w n lost fs ss
    → o < w
    → insert_segment o m ss ≡ (o, m) ∷ ss
unfolding insert_segment
Tiles-insert_front o m (done e l) h = refl
Tiles-insert_front o m (flying g e pos t) h = Tiles-insert_front o m t (omega arith)
Tiles-insert_front o m (landed s e pos t) h = ground arith
Tiles-insert_front o m (gap k rest pos e t) h = Tiles-insert_front o m t (omega arith)

insert_segment_back :
    (o m : ℕ) (s : Segment) (ss : List Segment)
    → s.0 < o
    → insert_segment o m (s ∷ ss) ≡ s ∷ insert_segment o m ss
unfolding insert_segment
insert_segment_back o m s ss h = ground arith

-- A transfer that has landed.
pub Tiles-insert_segment :
    {w n lost : ℕ} {fs : List InFlight} {ss : List Segment} (id : ℕ) (f : InFlight)
    → Tiles w n lost fs ss
    → find_in_flight id fs ≡ some f
    → Tiles w n lost (erase_in_flight id fs) (insert_segment f.offset f.requested ss)
unfolding find_in_flight erase_in_flight
Tiles-insert_segment id f (done e l) h = absurd (ground arith)
Tiles-insert_segment id f (flying g e pos t) h = elim (Bool-cases (g.id == id)) [
  | inl y ↦
      let same : g ≡ f = ground arith in
      rw (y, ← same, Tiles-insert_front g.offset g.requested t (omega arith))
        (landed (g.offset, g.requested) e pos t)
  | inr y ↦ rw y (flying g e pos (Tiles-insert_segment id f t (ground arith)))
]
Tiles-insert_segment {ss = _ ∷ ss} id f (landed s e pos t) h =
    rw
      (insert_segment_back f.offset f.requested s ss
        (omega (arith, (Tiles-find_in_flight id f t h).0)))
      (landed s e pos (Tiles-insert_segment id f t h))
Tiles-insert_segment id f (gap k rest pos e t) h = gap k rest pos e (Tiles-insert_segment id f t h)

-- A transfer that was lost.
pub Tiles-lose :
    {w n lost : ℕ} {fs : List InFlight} {ss : List Segment} (id : ℕ) (f : InFlight)
    → Tiles w n lost fs ss
    → find_in_flight id fs ≡ some f
    → Tiles w n (lost + f.requested) (erase_in_flight id fs) ss
unfolding find_in_flight erase_in_flight
Tiles-lose id f (done e l) h = absurd (ground arith)
Tiles-lose id f (flying g e pos t) h = elim (Bool-cases (g.id == id)) [
  | inl y ↦
      let same : g ≡ f = ground arith in rw (y, ← same) (gap g.requested _ pos (omega arith) t)
  | inr y ↦ rw y (flying g e pos (Tiles-lose id f t (ground arith)))
]
Tiles-lose id f (landed s e pos t) h = landed s e pos (Tiles-lose id f t h)
Tiles-lose id f (gap k rest pos e t) h =
    gap k (rest + f.requested) pos (omega arith) (Tiles-lose id f t h)

-- A segment found at the watermark is the first.
Tiles-erase_segment :
    {w n lost : ℕ} {fs : List InFlight} {ss : List Segment} (m : ℕ)
    → Tiles w n lost fs ss
    → find_segment w ss ≡ some m
    → Tiles (w + m) n lost fs (erase_segment w ss)
      × (landed_bytes ss ≡ m + landed_bytes (erase_segment w ss))
      × (length ss ≡ suc (length (erase_segment w ss)))
unfolding find_segment erase_segment landed_bytes
Tiles-erase_segment m (done e l) h = absurd (ground arith)
Tiles-erase_segment {w} m (flying f e pos t) h = absurd (omega (arith, Tiles-find_segment w m t h))
Tiles-erase_segment {w} m (landed s e pos t) h =
    let same : s.1 ≡ m = ground (arith, ==_iff s.0 w) in
    rw ((==_iff s.0 w).1 e, ← same) (t, refl, refl)
Tiles-erase_segment {w} m (gap k rest pos e t) h =
    absurd (omega (arith, Tiles-find_segment w m t h))

-- The loop of `record_success` ends where no segment stands at the watermark.
pub Tiles-advance :
    {n lost : ℕ} {fs : List InFlight} (fuel w : ℕ) (ss : List Segment)
    → length ss ≤ fuel
    → Tiles w n lost fs ss
    → Tiles (advance fuel w ss).0 n lost fs (advance fuel w ss).1
      × (find_segment (advance fuel w ss).0 (advance fuel w ss).1 ≡ none)
      × ((advance fuel w ss).0 + landed_bytes (advance fuel w ss).1 ≡ w + landed_bytes ss)
unfolding advance
Tiles-advance zero w [] h t = (t, unfold find_segment in refl, refl)
Tiles-advance zero w (s ∷ ss) h t = absurd (omega arith)
Tiles-advance (suc fuel) w ss h t = elim (Option-cases (find_segment w ss)) [
  | inl e ↦ rw (advance, e) (t, e, refl)
  | inr (m, e) ↦
      let r = Tiles-erase_segment m t e in
      let k = Tiles-advance fuel (w + m) (erase_segment w ss) (omega (arith, r.2)) r.0 in
      rw (advance, e) (k.0, k.1, omega (arith, k.2, r.1))
]

-- With nothing in flight and no bytes lost, a watermark that cannot advance is at the end.
pub Tiles-end : {w n : ℕ} {ss : List Segment} → Tiles w n 0 [] ss → find_segment w ss ≡ none → w ≡ n
unfolding find_segment
Tiles-end (done e l) h = e
Tiles-end (landed s e pos t) h = absurd (ground arith)
Tiles-end (gap k rest pos e t) h = absurd (omega arith)
