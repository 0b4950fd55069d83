-- ===== src/Protocol/Transport.antt =====
-- src/protocol/transport_session.hpp: what the session calls. The transports, sources, sinks and
-- observers behind these interfaces are parameters: `World` gives what each call does to a state `W`
-- of everything outside the session.
use kairos_boot.Transport.Permit.{TransferRingConfig}
use kairos_boot.Base.{ℕ, Bytes, Bool, Option, String}

pub data TransportStatus : Type 0 where
  ok timeout cancelled disconnected io_error : TransportStatus

pub data TransferCertainty : Type 0 where
  not_transferred fully_transferred partial_or_unknown : TransferCertainty

-- `native_code` is the bit pattern of the `int`.
pub record TransferResult : Type 0 where
  pub status : TransportStatus
  pub transferred : ℕ
  pub certainty : TransferCertainty
  pub truncated : Bool
  pub detail : String
  pub native_code : ℕ

-- `ITransferSource`; `none` where `read_exact` returns false.
pub record TransferSource : Type 0 where
  pub size : ℕ
  pub read_exact : ℕ → ℕ → Option Bytes

-- What an observer does: it returns one of the two actions, or throws.
pub data ObserverAnswer : Type 0 where
  continue_transfer cancel threw : ObserverAnswer

abbrev pub Observer : Type 0 → Type 0
Observer W = ℕ → ℕ → W → ObserverAnswer × W

-- `ITransportSession` and its two optional capabilities, `ITransferSink`, and the allocation that the
-- session guards. A read gives the bytes that the transport stored in the caller's buffer.
pub record World (W : Type 0) : Type 0 where
  pub write : Bytes → ℕ → W → TransferResult × W
  pub read : ℕ → ℕ → W → TransferResult × Bytes × W
  pub read_data : ℕ → ℕ → W → TransferResult × Bytes × W
  pub write_source : Option (TransferSource → ℕ → Option (Observer W) → W → TransferResult × W)
  pub configure_transfer_permits : Option (ℕ → TransferRingConfig → W → Bool × W)
  pub request_cancel : W → W
  pub close : W → W
  pub sink_write : ℕ → Bytes → W → TransferResult × W
  pub allocates : ℕ → W → Bool
