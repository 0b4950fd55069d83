-- ===== src/Transport/Permit.antt =====
-- The permits of src/transport/transfer_ring.hpp: how a permit is settled, and how a wait for one ends. The
-- configuration of the ring goes with them.
use kairos_boot.Base.{ℕ}

pub data Settlement : Type 0 where
  fully_transferred not_submitted partial_or_unknown : Settlement

pub data PermitWaitResult : Type 0 where
  ready cancelled timeout : PermitWaitResult

pub record TransferRingConfig : Type 0 where
  pub chunk_size : ℕ
  pub depth : ℕ
