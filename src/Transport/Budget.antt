-- ===== src/Transport/Budget.antt =====
-- `BufferBudget` of src/transport/buffer_budget.hpp and .cpp. A lease is its charge in bytes. The
-- functions are what one atomic operation, or one hold of the registry's lock, does to the state;
-- Budget/Interleaved runs them for several threads.
pub mod Charges
pub mod Interleaved
pub mod Registry
mod Tests
use kairos_boot.Base.{
  ℕ, ◌+◌, ◌-◌, ◌*◌, ◌/◌, ◌%◌, ◌^◌, Bool, true, false, ◌&&◌, ◌||◌, not, Option, none, some, List, [],
  ltb, leb, ◌==◌, if◌then◌else◌,
}

abbrev pub word : ℕ
word = 2 ^ 64

pub record Budget : Type 0 where
  pub limit : ℕ
  pub used : ℕ
  pub peak : ℕ

abbrev pub budget : ℕ → Budget
budget limit = record { limit = limit; used = 0; peak = 0 }

-- The test of `try_acquire`, against the value that it loaded.
unfoldable pub has_room : Budget → ℕ → Bool
has_room b bytes = not (ltb b.limit b.used || ltb (b.limit - b.used) bytes)

-- The successful exchange of `used`: the charge is taken, and the peak is not raised yet.
unfoldable pub charge : Budget → ℕ → Budget
charge b bytes = record b { used = b.used + bytes }

-- The loop on `peak`, for the total that the exchange has stored.
unfoldable pub raise_peak : Budget → ℕ → Budget
raise_peak b total = record b { peak = if ltb b.peak total then total else b.peak }

-- `try_acquire` with no other thread in between. An empty lease is given at once.
unfoldable pub try_acquire : Budget → ℕ → Option Budget
unfolding has_room charge raise_peak
try_acquire b bytes =
    if bytes == 0
    then some b
    else if has_room b bytes
    then some (raise_peak (charge b bytes) (b.used + bytes))
    else none

-- `used.fetch_sub` of `release_charge`
unfoldable pub release_charge : Budget → ℕ → Budget
release_charge b bytes = record b { used = (b.used + word - bytes) % word }

unfoldable pub available : Budget → ℕ
available b = if leb b.limit b.used then 0 else b.limit - b.used

pub data PhysicalMemoryStatus : Type 0 where
  measured query_failed arithmetic_overflow : PhysicalMemoryStatus

pub record PhysicalMemoryResult : Type 0 where
  pub status : PhysicalMemoryStatus
  pub bytes : ℕ
  pub native_code : ℕ

pub record BudgetInfo : Type 0 where
  pub limit_bytes : ℕ
  pub physical_memory_bytes : ℕ
  pub query_status : PhysicalMemoryStatus
  pub native_code : ℕ
  pub fallback_used : Bool

abbrev pub budget_cap : ℕ
budget_cap = 2 * 1024 * 1024 * 1024

abbrev pub fallback_bytes : ℕ
fallback_bytes = 64 * 1024 * 1024

-- `std::size_t` has 64 bits.
unfoldable pub calculate_process_usb_buffer_budget : ℕ → ℕ
calculate_process_usb_buffer_budget physical =
    let twenty_percent = physical / 5 in
    let capped = if ltb twenty_percent budget_cap then twenty_percent else budget_cap in
    if ltb capped (word - 1) then capped else word - 1

abbrev failed_query : PhysicalMemoryResult
failed_query = record { status = query_failed; bytes = 0; native_code = 0 }

-- What is made of the query's answer.
unfoldable pub resolved : PhysicalMemoryStatus → ℕ → ℕ → BudgetInfo
unfolding calculate_process_usb_buffer_budget
resolved measured bytes native_code =
    if bytes == 0
    then record {
      limit_bytes = fallback_bytes;
      physical_memory_bytes = 0;
      query_status = query_failed;
      native_code = native_code;
      fallback_used = true;
    }
    else record {
      limit_bytes = calculate_process_usb_buffer_budget bytes;
      physical_memory_bytes = bytes;
      query_status = measured;
      native_code = native_code;
      fallback_used = false;
    }
resolved status bytes native_code = record {
  limit_bytes = fallback_bytes;
  physical_memory_bytes = 0;
  query_status = status;
  native_code = native_code;
  fallback_used = true;
}

-- The query of the platform is a parameter; `none` is a null pointer.
unfoldable pub resolve_process_usb_buffer_budget : Option PhysicalMemoryResult → BudgetInfo
unfolding resolved
resolve_process_usb_buffer_budget none =
    resolved failed_query.status failed_query.bytes failed_query.native_code
resolve_process_usb_buffer_budget (some r) = resolved r.status r.bytes r.native_code
