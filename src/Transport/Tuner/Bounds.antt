-- ===== src/Transport/Tuner/Bounds.antt =====
-- The tuner's decision, against its bounds and the decision before.
use kairos_boot.Base.{◌+◌, ◌*◌, ◌/◌, ◌≤◌, ◌<◌, ◌≡◌, max, some, arith}
use kairos_boot.Transport.Tuner.{
  TuningBounds, TuningDecision, TuningSample, Doubles, Tuner, doubled_clamped, increase_pipeline,
  apply_multiplicative_decrease, tuner, observe,
}

pub record IsWithin (b : TuningBounds) (x : TuningDecision) : Type 0 where
  pub chunk_pos : 0 < b.minimum_chunk
  pub depth_pos : 0 < b.minimum_depth
  pub chunk_low : b.minimum_chunk ≤ x.chunk_size
  pub chunk_high : x.chunk_size ≤ b.maximum_chunk
  pub depth_low : b.minimum_depth ≤ x.depth
  pub depth_high : x.depth ≤ b.maximum_depth

-- One step of the controller: at most a quarter more depth (or one), twice the chunk; at most halved.
pub record IsNear (x y : TuningDecision) : Type 0 where
  pub depth_up : y.depth ≤ x.depth + max 1 (x.depth / 4)
  pub depth_down : x.depth / 2 ≤ y.depth
  pub chunk_up : y.chunk_size ≤ 2 * x.chunk_size
  pub chunk_down : x.chunk_size / 2 ≤ y.chunk_size

module _ {D : Type 0} (d : Doubles D) where
  -- The constructor either throws or starts within the bounds given.
  pub tuner-IsWithin :
      (b : TuningBounds) (t : Tuner D)
      → tuner d b ≡ some t
      → IsWithin t.bounds t.decision × (t.bounds ≡ b)
  unfolding tuner
  tuner-IsWithin b t h = ground arith

  -- An observation, whatever it says and whatever the doubles compute, keeps the decision within the
  -- bounds and near the one before; the bounds stay.
  pub observe-IsWithin :
      (s : TuningSample) (t : Tuner D)
      → IsWithin t.bounds t.decision
      → IsWithin (observe d s t).1.bounds (observe d s t).1.decision
        × IsNear t.decision (observe d s t).1.decision
        × ((observe d s t).1.bounds ≡ t.bounds)
  unfolding observe doubled_clamped increase_pipeline apply_multiplicative_decrease
  observe-IsWithin s t h = ground arith
