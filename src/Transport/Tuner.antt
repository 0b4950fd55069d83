-- ===== src/Transport/Tuner.antt =====
-- `AdaptiveTransferTuner` of src/transport/adaptive_tuner.hpp and .cpp. `double` and its operations are
-- the parameter `d`: no theorem needs a law of them.
pub mod Bounds
mod Tests
use kairos_boot.Base.{
  ℕ, suc, ◌+◌, ◌-◌, ◌*◌, ◌/◌, Bool, true, false, ◌&&◌, ◌||◌, not, Option, none, some, ltb, leb,
  ◌==◌, min, max, if◌then◌else◌,
}
use kairos_boot.Base.Int.{ℤ, is_positive}
use kairos_boot.Base.Expected.{Expected, value, unexpected}

abbrev default_tuned_chunk : ℕ
default_tuned_chunk = 1024 * 1024

abbrev default_tuned_depth : ℕ
default_tuned_depth = 8

pub record TuningBounds : Type 0 where
  pub minimum_chunk : ℕ
  pub maximum_chunk : ℕ
  pub minimum_depth : ℕ
  pub maximum_depth : ℕ

abbrev pub default_bounds : TuningBounds
default_bounds = record {
  minimum_chunk = 256 * 1024;
  maximum_chunk = 4 * 1024 * 1024;
  minimum_depth = 2;
  maximum_depth = 32;
}

pub record TuningDecision : Type 0 where
  pub chunk_size : ℕ
  pub depth : ℕ

-- `elapsed` in nanoseconds.
pub record TuningSample : Type 0 where
  pub completed_bytes : ℕ
  pub elapsed : ℤ
  pub queue_starved : Bool
  pub memory_pressure : Bool
  pub transport_error : Bool

pub data TuningSampleError : Type 0 where
  empty_sample non_positive_duration : TuningSampleError

-- The type `double`. `decimal m k` is the literal for m / 10 ^ k, and `seconds` the conversion of a
-- duration.
pub record Doubles (D : Type 0) : Type 0 where
  pub of_ℕ : ℕ → D
  pub seconds : ℤ → D
  pub decimal : ℕ → ℕ → D
  pub neg : D → D
  pub add : D → D → D
  pub sub : D → D → D
  pub mul : D → D → D
  pub div : D → D → D
  pub eq : D → D → Bool
  pub le : D → D → Bool

pub record Tuner (D : Type 0) : Type 0 where
  pub bounds : TuningBounds
  pub decision : TuningDecision
  pub throughput_ewma : D
  pub consecutive_improvements : ℕ

unfoldable pub doubled_clamped : ℕ → ℕ → ℕ
doubled_clamped v maximum =
    if leb maximum v || ltb (maximum - v) v then maximum else min maximum (v + v)

abbrev clamp : ℕ → ℕ → ℕ → ℕ
clamp v lo hi = if ltb v lo then lo else if ltb hi v then hi else v

unfoldable pub increase_pipeline : TuningBounds → TuningDecision → TuningDecision
increase_pipeline b x =
    let increment = max 1 (x.depth / 4) in
    if leb b.maximum_depth x.depth || ltb (b.maximum_depth - x.depth) increment
    then record x { depth = b.maximum_depth }
    else record x { depth = x.depth + increment }

unfoldable pub apply_multiplicative_decrease : TuningBounds → Bool → TuningDecision → TuningDecision
apply_multiplicative_decrease b reduce_chunk x = record {
  chunk_size = if reduce_chunk then max b.minimum_chunk (x.chunk_size / 2) else x.chunk_size;
  depth = max b.minimum_depth (x.depth / 2);
}

module _ {D : Type 0} (d : Doubles D) where
  abbrev zero_double : D
  zero_double = d.decimal 0 1

  unfoldable pub reset : Tuner D → Tuner D
  reset t = record t {
    decision = record {
      chunk_size = clamp default_tuned_chunk t.bounds.minimum_chunk t.bounds.maximum_chunk;
      depth = clamp default_tuned_depth t.bounds.minimum_depth t.bounds.maximum_depth;
    };
    throughput_ewma = zero_double;
    consecutive_improvements = 0;
  }

  -- The constructor; `none` where it throws.
  unfoldable pub tuner : TuningBounds → Option (Tuner D)
  unfolding reset
  tuner b =
      if b.minimum_chunk == 0
        || b.minimum_depth == 0
        || ltb b.maximum_chunk b.minimum_chunk
        || ltb b.maximum_depth b.minimum_depth
      then none
      else some (
          reset (record {
            bounds = b;
            decision = record { chunk_size = default_tuned_chunk; depth = default_tuned_depth };
            throughput_ewma = zero_double;
            consecutive_improvements = 0;
          }))

  throughput : TuningSample → D
  throughput s = d.div (d.of_ℕ s.completed_bytes) (d.seconds s.elapsed)

  -- A throughput that rose by three per cent or more.
  improved : Tuner D → Tuner D
  improved t =
      let x = increase_pipeline t.bounds t.decision in
      if leb 2 (suc t.consecutive_improvements)
      then record t {
        decision = record x { chunk_size = doubled_clamped x.chunk_size t.bounds.maximum_chunk };
        consecutive_improvements = 0;
      }
      else record t { decision = x; consecutive_improvements = suc t.consecutive_improvements }

  -- The ladder on the relative change of the throughput.
  adjusted : D → TuningSample → Tuner D → Tuner D
  unfolding improved
  adjusted relative_change s t =
      if d.le (d.decimal 3 2) relative_change
      then improved t
      else if d.le relative_change (d.neg (d.decimal 75 3))
      then record t {
        decision = apply_multiplicative_decrease t.bounds true t.decision;
        consecutive_improvements = 0;
      }
      else if s.queue_starved
      then record t {
        decision = increase_pipeline t.bounds t.decision;
        consecutive_improvements = 0;
      }
      else record t { consecutive_improvements = 0 }

  -- A sample that is neither empty nor an error.
  measured_sample : D → TuningSample → Tuner D → Tuner D
  unfolding adjusted
  measured_sample measured s t =
      if s.memory_pressure
      then record t {
        decision =
            apply_multiplicative_decrease t.bounds (t.decision.depth == t.bounds.minimum_depth)
              t.decision;
        throughput_ewma = measured;
        consecutive_improvements = 0;
      }
      else if d.eq t.throughput_ewma zero_double
      then record t { throughput_ewma = measured }
      else record (adjusted (d.sub (d.div measured t.throughput_ewma) (d.decimal 10 1)) s t) {
        throughput_ewma =
            d.add (d.mul t.throughput_ewma (d.decimal 75 2)) (d.mul measured (d.decimal 25 2));
      }

  -- It gives the new decision, and the new tuner.
  unfoldable pub observe :
      TuningSample → Tuner D → Expected TuningDecision TuningSampleError × Tuner D
  unfolding measured_sample throughput
  observe s t =
      if s.completed_bytes == 0 && not s.transport_error
      then (unexpected empty_sample, t)
      else if not (is_positive s.elapsed) && not s.transport_error
      then (unexpected non_positive_duration, t)
      else if s.transport_error
      then (let x = apply_multiplicative_decrease t.bounds true t.decision in
          (
            value x,
            record t { decision = x; throughput_ewma = zero_double; consecutive_improvements = 0 },
          ))
      else (let t' = measured_sample (throughput s) s t in (value t'.decision, t'))
