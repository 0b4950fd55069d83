-- ===== src/Transport/Ring/Sound.antt =====
-- What every ring shows, whatever calls it had.
use kairos_boot.Base.{
  ℕ, ◌≡◌, refl, Option, none, some, length, arith, ◌==◌, Bool, Bool-cases, inl, inr, true, not,
  ◌&&◌, ◌||◌,
}
use kairos_boot.Protocol.Transport.{TransferSource}
use kairos_boot.Transport.Permit.{PermitWaitResult, ready, timeout}
use kairos_boot.Transport.Ring.{RingWorld, Ring, CompletionCode, is_running, is_idle, find_segment}
use kairos_boot.Transport.Ring.Tiles.{landed_bytes, done}
use kairos_boot.Transport.Ring.Calls.{
  ring, pump, start, start_from, start_refused, may_start, after_wait, wait_for_permit_until,
  handle_completion, cancel,
}
use kairos_boot.Transport.Ring.Tiled.{Covers, IsTiled, IsSettled, settle_terminal_state-IsTiled}
use kairos_boot.Transport.Ring.Pumped.{pump-IsTiled}
use kairos_boot.Transport.Ring.Reached.{handle_completion-IsTiled}

module _ {W : Type 0} (io : RingWorld W) where
  cancel-IsTiled :
      (r : Ring W) → IsTiled r → IsSettled r → IsTiled (cancel io r) × IsSettled (cancel io r)
  unfolding cancel
  cancel-IsTiled r (lost, c, s) k = elim (Bool-cases (is_running r.state)) [
    | inl e ↦ rw e (settle_terminal_state-IsTiled io _ (lost, c, ground arith))
    | inr e ↦ rw e ((lost, c, s), k)
  ]

  start_refused-IsTiled :
      (r : Ring W)
      → IsTiled r
      → IsSettled r
      → IsTiled (start_refused io r).1 × IsSettled (start_refused io r).1
  unfolding start_refused
  start_refused-IsTiled r (lost, c, s) k = elim (Bool-cases (is_idle r.state)) [
    | inl e ↦ rw e ((lost, c, ground arith), ground arith)
    | inr e ↦ rw e ((lost, c, s), k)
  ]

  start_from-IsTiled :
      (source : TransferSource) (logical_message_end : Bool) (r : Ring W)
      → is_idle r.state ≡ true
      → IsTiled r
      → IsTiled (start_from io source logical_message_end r).1
        × IsSettled (start_from io source logical_message_end r).1
  unfolding start_from
  start_from-IsTiled source logical_message_end r e (lost, c, s) =
      let c' : Covers lost r.in_flight r.segments source.size r.next_offset r.completed_bytes
          r.watermark r.depth =
        record {
          tiles = c.tiles;
          stuck = c.stuck;
          counted = c.counted;
          within = ground arith;
          window = c.window;
        } in
      elim (Bool-cases (source.size == 0)) [
        | inl z ↦ rw z ((lost, c', ground arith), ground arith)
        | inr z ↦ rw z (pump-IsTiled io _ (lost, c', ground arith) (ground arith))
      ]

  after_wait-IsTiled :
      (answer : PermitWaitResult) (r : Ring W)
      → IsTiled r
      → IsSettled r
      → IsTiled (after_wait io answer r).1 × IsSettled (after_wait io answer r).1
  unfolding after_wait
  after_wait-IsTiled ready r t k = pump-IsTiled io r t k
  after_wait-IsTiled PermitWaitResult.cancelled r t k = (t, k)
  after_wait-IsTiled timeout r t k = (t, k)

  wait-IsTiled :
      (deadline : ℕ) (r : Ring W)
      → IsTiled r
      → IsSettled r
      → IsTiled (wait_for_permit_until io deadline r).1
        × IsSettled (wait_for_permit_until io deadline r).1
  unfolding wait_for_permit_until
  wait-IsTiled deadline r t k =
      elim (Bool-cases
        (not (is_running r.state) || not io.has_provider || not (length r.in_flight == 0))) [
          | inl e ↦ rw e (t, k)
          | inr e ↦
              rw e
                (after_wait-IsTiled (io.wait_for_ready r.wait_generation deadline r.world).0 _ t k)
        ]

  start-IsTiled :
      (source : Option TransferSource) (logical_message_end : Bool) (r : Ring W)
      → IsTiled r
      → IsSettled r
      → IsTiled (start io source logical_message_end r).1
        × IsSettled (start io source logical_message_end r).1
  unfolding start
  start-IsTiled none logical_message_end r t k = start_refused-IsTiled r t k
  start-IsTiled (some source) logical_message_end r t k =
      elim (Bool-cases (is_idle r.state && may_start io r)) [
        | inl e ↦ rw e (start_from-IsTiled source logical_message_end r (ground arith) t)
        | inr e ↦ rw e (start_refused-IsTiled r t k)
      ]

-- A call of the ring, by its owner or for a completion; between calls the world may change by itself.
pub data Step {W : Type 0} (io : RingWorld W) (r : Ring W) : Ring W → Type 0 where
  starts :
      (source : Option TransferSource) (logical_message_end : Bool)
      → Step io r (start io source logical_message_end r).1
  pumps : Step io r (pump io r).1
  waits : (deadline : ℕ) → Step io r (wait_for_permit_until io deadline r).1
  completes :
      (id : ℕ) (code : CompletionCode) (transferred : ℕ)
      → Step io r (handle_completion io id code transferred r).1
  cancels : Step io r (cancel io r)
  moves : (w : W) → Step io r (record r { world = w })

pub data Reach {W : Type 0} (io : RingWorld W) (r : Ring W) : Ring W → Type 0 where
  here : Reach io r r
  later : {t u : Ring W} → Reach io r t → Step io t u → Reach io r u

module _ {W : Type 0} {io : RingWorld W} where
  Step-IsTiled : {r t : Ring W} → Step io r t → IsTiled r × IsSettled r → IsTiled t × IsSettled t
  Step-IsTiled {r} (starts source e) (t, k) = start-IsTiled io source e r t k
  Step-IsTiled {r} pumps (t, k) = pump-IsTiled io r t k
  Step-IsTiled {r} (waits deadline) (t, k) = wait-IsTiled io deadline r t k
  Step-IsTiled {r} (completes id code transferred) (t, k) =
      handle_completion-IsTiled io id code transferred r t k
  Step-IsTiled {r} cancels (t, k) = cancel-IsTiled io r t k
  Step-IsTiled (moves w) h = h

  pub Reach-IsTiled :
      (chunk_size depth : ℕ) (w : W) {t : Ring W}
      → Reach io (ring chunk_size depth w) t
      → IsTiled t × IsSettled t
  unfolding ring
  Reach-IsTiled chunk_size depth w here = (
    (
      0,
      record {
        tiles = done refl refl;
        stuck = unfold find_segment in refl;
        counted = unfold landed_bytes in omega arith;
        within = omega arith;
        window = omega arith;
      },
      ground arith,
    ),
    ground arith,
  )
  Reach-IsTiled chunk_size depth w (later r s) = Step-IsTiled s (Reach-IsTiled chunk_size depth w r)
