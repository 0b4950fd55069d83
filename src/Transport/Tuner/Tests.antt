-- ===== src/Transport/Tuner/Tests.antt =====
-- The tuner over whole numbers in place of doubles: thousandths, with truncating operations.
use kairos_boot.Base.{ℕ, ◌+◌, ◌-◌, ◌*◌, ◌/◌, ◌^◌, ◌≡◌, true, false, ◌==◌, leb, refl, some, arith}
use kairos_boot.Base.Int.{ℤ, pos, negsuc}
use kairos_boot.Base.Expected.{value}
use kairos_boot.Transport.Tuner.{
  Doubles, Tuner, TuningSample, default_bounds, tuner, observe, apply_multiplicative_decrease,
}
use kairos_boot.Transport.Tuner.Bounds.{IsWithin, IsNear, observe-IsWithin}

abbrev whole : ℤ → ℕ
whole (pos n) = n
whole (negsuc n) = 0

abbrev thousandths : Doubles ℕ
thousandths = record {
  of_ℕ = λ n. n * 1000;
  seconds = λ z. whole z / 1000000;
  decimal = λ m k. m * 1000 / 10 ^ k;
  neg = λ a. 0;
  add = λ a b. a + b;
  sub = λ a b. a - b;
  mul = λ a b. a * b / 1000;
  div = λ a b. a * 1000 / b;
  eq = λ a b. a == b;
  le = λ a b. leb a b;
}

abbrev fresh : Tuner ℕ
fresh = record {
  bounds = default_bounds;
  decision = record { chunk_size = 1048576; depth = 8 };
  throughput_ewma = 0;
  consecutive_improvements = 0;
}

fresh_lem : tuner thousandths default_bounds ≡ some fresh
unfolding tuner
fresh_lem = refl

abbrev lost : TuningSample
lost = record {
  completed_bytes = 0;
  elapsed = negsuc 0;
  queue_starved = false;
  memory_pressure = false;
  transport_error = true;
}

lost_halves : (observe thousandths lost fresh).0 ≡ value (record { chunk_size = 524288; depth = 4 })
unfolding observe apply_multiplicative_decrease
lost_halves = refl

observe-IsWithin_example :
    IsWithin (observe thousandths lost fresh).1.bounds (observe thousandths lost fresh).1.decision
    × IsNear fresh.decision (observe thousandths lost fresh).1.decision
    × ((observe thousandths lost fresh).1.bounds ≡ fresh.bounds)
observe-IsWithin_example = observe-IsWithin thousandths lost fresh (omega arith)
