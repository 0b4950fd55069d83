-- ===== src/Transport/Budget/Charges.antt =====
-- The budget in one thread's hands, and the process-wide limit.
use kairos_boot.Base.{min, ◌/◌, ℕ, ◌+◌, ◌≤◌, ◌<◌, ◌≡◌, ◌≢◌, true, false, Option, none, some, arith}
use kairos_boot.Transport.Budget.{
  Budget, word, try_acquire, release_charge, available, BudgetInfo, PhysicalMemoryResult,
  PhysicalMemoryStatus, resolved, calculate_process_usb_buffer_budget, measured, query_failed,
  arithmetic_overflow, resolve_process_usb_buffer_budget, fallback_bytes,
}

-- What a result says of the bytes asked for.
abbrev pub Answers : Budget → ℕ → Option Budget → Type 0
Answers b bytes none = available b < bytes
Answers b bytes (some b') =
    (bytes ≤ available b)
    × (b'.used ≡ b.used + bytes)
    × (b'.used ≤ b'.limit)
    × (b'.limit ≡ b.limit)
    × (b.peak ≤ b'.peak)

-- `try_acquire` succeeds exactly where the bytes are available; then they are in use, within the
-- limit, and the peak has not fallen.
pub try_acquire-Answers :
    (b : Budget) (bytes : ℕ) → b.used ≤ b.limit → Answers b bytes (try_acquire b bytes)
unfolding try_acquire available
try_acquire-Answers b bytes h = ground arith

-- A charge that was taken and released leaves the same bytes in use.
pub release_charge-try_acquire :
    (b b' : Budget) (bytes : ℕ)
    → b.used ≤ b.limit
    → b.limit < word
    → try_acquire b bytes ≡ some b'
    → (b'.used ≡ b.used + bytes) × (b'.used ≤ b'.limit) × ((release_charge b' bytes).used ≡ b.used)
unfolding try_acquire release_charge
release_charge-try_acquire b b' bytes h g e = ground arith

-- The limit for a measurement of some memory.
abbrev pub Measured : ℕ → BudgetInfo → Type 0
Measured bytes info =
    (info.fallback_used ≡ false)
    × (info.query_status ≡ measured)
    × (info.physical_memory_bytes ≡ bytes)
    × (info.limit_bytes ≡ min 2147483648 (bytes / 5))

abbrev pub FellBack : PhysicalMemoryStatus → BudgetInfo → Type 0
FellBack status info =
    (info.fallback_used ≡ true)
    × (info.query_status ≡ status)
    × (info.physical_memory_bytes ≡ 0)
    × (info.limit_bytes ≡ fallback_bytes)

-- What the limit is for each answer of the query, where a measurement of no memory is a failure too.
abbrev pub Resolved : Option PhysicalMemoryResult → BudgetInfo → Type 0
Resolved none info = FellBack query_failed info
Resolved (some r) info =
    (r.status ≡ measured → 0 < r.bytes → Measured r.bytes info)
    × (r.status ≡ measured → r.bytes ≡ 0 → FellBack query_failed info)
    × (r.status ≢ measured → FellBack r.status info)
    × (info.native_code ≡ r.native_code)

resolved_lem :
    (status : PhysicalMemoryStatus) (bytes code : ℕ)
    → Resolved
        (some (record { status = status; bytes = bytes; native_code = code }))
        (resolved status bytes code)
unfolding resolved calculate_process_usb_buffer_budget
resolved_lem measured bytes code = ground arith
resolved_lem query_failed bytes code = ground arith
resolved_lem arithmetic_overflow bytes code = ground arith

-- The process-wide limit is a fifth of the memory that the query measured, or two gigabytes where that
-- is less; where the query gives nothing, no memory or another status, it is the fallback, marked as
-- such, and the status says that the query failed or is the query's own. The query's error number is kept.
pub resolve_process_usb_buffer_budget_lem :
    (query : Option PhysicalMemoryResult) → Resolved query (resolve_process_usb_buffer_budget query)
unfolding resolve_process_usb_buffer_budget resolved
resolve_process_usb_buffer_budget_lem none = ground arith
resolve_process_usb_buffer_budget_lem (some r) = resolved_lem r.status r.bytes r.native_code
