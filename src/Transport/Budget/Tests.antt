-- ===== src/Transport/Budget/Tests.antt =====
-- A budget of ten bytes, used by two leases.
use kairos_boot.Transport.Budget.Charges.{
  Answers, try_acquire-Answers, Resolved, resolve_process_usb_buffer_budget_lem,
}
use kairos_boot.Transport.Budget.Registry.{
  times, observe_availability, notified, erase_expired, times-observe_availability, times-notified,
}
use kairos_boot.Base.{ℕ, Bool, ◌==◌, ◌≤◌, ◌≡◌, refl, some, none, [], ◌∷◌, arith}
use kairos_boot.Transport.Budget.{
  Budget, try_acquire, has_room, charge, resolve_process_usb_buffer_budget, measured,
}
use kairos_boot.Transport.Budget.Interleaved.{
  Shared, start, acquire, Reach, here, next, highest, sum, Reach_accounted,
}

two_leases : try_acquire (record { limit = 10; used = 6; peak = 6 }) 5 ≡ none
unfolding try_acquire
two_leases = refl

abbrev first_charged : Shared
first_charged = record {
  state = record { limit = 10; used = 6; peak = 0 };
  live = 6 ∷ [];
  pending = 6 ∷ [];
}

first_charged-Reach : Reach (start 10) first_charged
unfolding has_room charge
first_charged-Reach = next here (acquire (start 10) 6 (omega arith) refl)

Reach_accounted_example :
    (first_charged.state.used ≡ sum first_charged.live)
    × (first_charged.state.used ≤ 10)
    × (first_charged.state.peak ≤ 10)
    × (first_charged.state.used ≤ highest 0 (6 ∷ []))
Reach_accounted_example = Reach_accounted 10 first_charged (omega arith) first_charged-Reach

abbrev six_used : Budget
six_used = record { limit = 10; used = 6; peak = 6 }

try_acquire-Answers_example : Answers six_used 3 (try_acquire six_used 3)
try_acquire-Answers_example = try_acquire-Answers six_used 3 (omega arith)

resolve_process_usb_buffer_budget_lem_example :
    Resolved (some (record { status = measured; bytes = 8000000000; native_code = 0 })) (
      resolve_process_usb_buffer_budget
        (some (record { status = measured; bytes = 8000000000; native_code = 0 })))
resolve_process_usb_buffer_budget_lem_example =
    resolve_process_usb_buffer_budget_lem
      (some (record { status = measured; bytes = 8000000000; native_code = 0 }))

-- The owner 3 has expired.
abbrev third_expired : ℕ → Bool
third_expired o = o == 3

times-observe_availability_example :
    times third_expired 5 (observe_availability third_expired 4 (3 ∷ 5 ∷ []))
    ≡ times third_expired 5 (3 ∷ 5 ∷ [])
times-observe_availability_example =
    times-observe_availability third_expired 4 5 (3 ∷ 5 ∷ []) refl refl (omega arith)

times-notified_example :
    (times third_expired 3 (notified third_expired 2 (3 ∷ 5 ∷ [])) ≡ 0)
    × (times third_expired 3 (erase_expired third_expired (3 ∷ 5 ∷ [])) ≡ 0)
times-notified_example = times-notified third_expired 3 2 (3 ∷ 5 ∷ []) (omega arith)
