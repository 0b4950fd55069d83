-- ===== src/Transport/Ring/Promises.antt =====
-- What a ring promises to its owner: the numbers that it reports, and how it drains.
use kairos_boot.Base.{ℕ, ◌+◌, ◌≤◌, ◌<◌, ◌≡◌, List, [], ◌∷◌, length, arith, true, subst, ap}
use kairos_boot.Transport.Ring.{RingState, completed, RingWorld, InFlight, Ring, is_draining}
use kairos_boot.Transport.Ring.Tiles.{Tiles, requested_bytes, Tiles-sum, Tiles-end}
use kairos_boot.Transport.Ring.Calls.{ring}
use kairos_boot.Transport.Ring.Tiled.{Covers, Stands, is_clean, is_terminal, IsTiled, IsSettled}
use kairos_boot.Transport.Ring.Sound.{Reach, Reach-IsTiled}

pub record IsSound {W : Type 0} (r : Ring W) : Type 0 where
  pub window : length r.in_flight ≤ r.depth
  pub contiguous : r.watermark ≤ r.completed_bytes
  pub submitted : r.completed_bytes + requested_bytes r.in_flight ≤ r.next_offset
  pub within : r.next_offset ≤ r.total_bytes
  pub exact :
      is_clean r.state ≡ true → r.completed_bytes + requested_bytes r.in_flight ≡ r.next_offset
  pub delivered :
      r.state ≡ completed → (r.watermark ≡ r.total_bytes) × (r.completed_bytes ≡ r.total_bytes)
  pub drained : is_terminal r.state ≡ true → length r.in_flight ≡ 0
  pub waiting : is_draining r.state ≡ true → 0 < length r.in_flight

Covers-end :
    {lost : ℕ} {fs : List InFlight} {ss : List (ℕ × ℕ)} {total next completed watermark depth : ℕ}
    → Covers lost fs ss total next completed watermark depth
    → lost ≡ 0
    → length fs ≡ 0
    → watermark ≡ next
Covers-end {fs = []} {ss} {next} {watermark} c l e =
    Tiles-end (subst (λ x. Tiles watermark next x [] ss) l c.tiles) c.stuck
Covers-end {fs = f ∷ fs} c l e = absurd (ground arith)

completed-delivered :
    {lost : ℕ} {state : RingState} {fs : List InFlight} {ss : List (ℕ × ℕ)}
    {total next bytes watermark depth : ℕ}
    → Covers lost fs ss total next bytes watermark depth
    → Stands lost state (length fs) total next
    → state ≡ completed
    → (watermark ≡ total) × (bytes ≡ total)
completed-delivered c s e =
    let l = s.whole (ap is_clean e) in
    let w = Covers-end c l (s.emptied (ap is_terminal e)) in
    (
      omega (arith, w, s.sent e),
      omega (arith, w, s.sent e, Tiles-sum c.tiles, c.counted, s.emptied (ap is_terminal e)),
    )

module _ {W : Type 0} where
  IsTiled-IsSound : (r : Ring W) → IsTiled r → IsSettled r → IsSound r
  IsTiled-IsSound r (lost, c, s) k = record {
    window = c.window;
    contiguous = omega (arith, c.counted);
    submitted = omega (arith, Tiles-sum c.tiles, c.counted);
    within = c.within;
    exact = λ e. omega (arith, Tiles-sum c.tiles, c.counted, s.whole e);
    delivered = λ e. completed-delivered c s e;
    drained = s.emptied;
    waiting = k;
  }

-- However the calls, the completions and the changes of the world follow on one another, the ring is sound:
-- at most `depth` transfers are in flight; the contiguous bytes are among the completed ones, these and the
-- bytes in flight among the submitted ones, and none is counted twice; while nothing failed they are all of them; a
-- completed ring has transferred every byte of its source; a ring in a final state has nothing in flight, and
-- one that drains still waits for a transfer.
pub Reach-IsSound :
    {W : Type 0} {io : RingWorld W} (chunk_size depth : ℕ) (w : W) {t : Ring W}
    → Reach io (ring chunk_size depth w) t
    → IsSound t
Reach-IsSound chunk_size depth w {t} r =
    let h = Reach-IsTiled chunk_size depth w r in IsTiled-IsSound t h.0 h.1
