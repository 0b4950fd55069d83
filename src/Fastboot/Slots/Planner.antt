-- ===== src/Fastboot/Slots/Planner.antt =====
-- The queries of `SlotPlanner` and the plans that it makes of the answers.
use kairos_boot.Base.{
  ℕ, ◌-◌, ◌^◌, Bytes, Bool, true, false, not, List, [], ◌∷◌, ◌++◌, ◌==◌, if◌then◌else◌, length,
  codes, bytes_eq,
}
use kairos_boot.Base.Expected.{Expected, value, unexpected}
use kairos_boot.Base.Chars.{from_chars}
use kairos_boot.Fastboot.Slots.{
  invalid_request, unsupported, ambiguous, invalid_device_response, cancelled, timed_out,
  QueryError, SlotError, SlotSelection, current, other, all, explicit, SlotTopology,
  PartitionSlotPlan, SlotWorld, slot_error, slot_query_error, normalize_slot_name,
  parse_legacy_slot_suffixes, parse_slot_selection, counted_topology, legacy_topology,
  is_device_fail, unexposed, has, is_valid_partition_name,
}

abbrev pub Query : Type 0 → Type 0 → Type 0
Query W A = W → Expected A SlotError × W

-- An early return, or the next part with the value.
unfoldable pub continued :
    {W A B : Type 0} → (A → Query W B) → Expected A SlotError → W → Expected B SlotError × W
continued f (value a) w = f a w
continued f (unexpected e) w = (unexpected e, w)

abbrev pub then_with : {W A B : Type 0} → Query W A → (A → Query W B) → W → Expected B SlotError × W
then_with q f w = let r = q w in continued f r.0 r.1

abbrev pub gives : {W A : Type 0} → Expected A SlotError → W → Expected A SlotError × W
gives x w = (x, w)

unfoldable pub replied : Bytes → Expected Bytes QueryError → Expected Bytes SlotError
replied name (value payload) = value payload
replied name (unexpected e) =
    unexpected (slot_query_error (codes "Failed to query Fastboot " ++ name) e)

-- A reply, with the message for a device that refuses the variable.
unfoldable pub exposed : Bytes → Expected Bytes SlotError → Expected Bytes SlotError
exposed message (value payload) = value payload
exposed message (unexpected e) = unexpected (unexposed message e)

unfoldable pub yes_or_no : Bytes → Bytes → Expected Bool SlotError
yes_or_no key payload =
    if bytes_eq payload (codes "yes")
    then value true
    else if bytes_eq payload (codes "no")
    then value false
    else slot_error invalid_device_response
        (codes "Fastboot " ++ key ++ codes " must return exactly 'yes' or 'no'")

unfoldable pub listed_slot : SlotTopology → Expected ℕ SlotError → Expected ℕ SlotError
listed_slot topology (unexpected e) = unexpected e
listed_slot topology (value slot) =
    if has slot topology.slots
    then value slot
    else slot_error invalid_device_response
        (codes "Fastboot current-slot is absent from the discovered slot topology")

-- The other of two.
unfoldable pub other_slot : Bytes → ℕ → ℕ
other_slot (a ∷ b ∷ []) slot = if a == slot then b else a
other_slot _ slot = slot

-- The names of a partition in its slots.
unfoldable pub slot_names : Bytes → Bytes → List Bytes
slot_names partition [] = []
slot_names partition (c ∷ cs) = (partition ++ b'_' ∷ c ∷ []) ∷ slot_names partition cs

module _ {W : Type 0} (io : SlotWorld W) where
  -- `slot_interruption`: the stop token goes before the deadline.
  unfoldable pub unless_interrupted : {A : Type 0} → Bytes → Query W A → Query W A
  unless_interrupted position rest w =
      let stop = io.stop_requested w in
      let late = io.deadline_passed stop.1 in
      let next = rest late.1 in
      if stop.0
      then (slot_error cancelled (codes "Fastboot slot query was cancelled " ++ position), stop.1)
      else if late.0
      then (
        slot_error timed_out (codes "Fastboot slot query deadline expired " ++ position),
        late.1,
      )
      else next

  unfoldable pub query_variable : Bytes → Query W Bytes
  query_variable name = unless_interrupted (codes "before getvar") (λ w.
      let reply = io.getvar name w in
      unless_interrupted (codes "after getvar") (gives (replied name reply.0)) reply.1)

  unfoldable pub query_suffixes : Query W SlotTopology
  query_suffixes w =
      let reply = query_variable (codes "slot-suffixes") w in
      continued (λ payload. gives (legacy_topology (parse_legacy_slot_suffixes payload)))
        (exposed (codes "Device does not expose Fastboot slot-count or slot-suffixes") reply.0)
        reply.1

  -- The legacy variable is asked for only where the device refuses the modern one.
  unfoldable pub topology_from : Expected Bytes SlotError → Query W SlotTopology
  topology_from (value payload) w = (counted_topology (from_chars 10 (2 ^ 32 - 1) payload), w)
  topology_from (unexpected e) w =
      let legacy = query_suffixes w in if is_device_fail e then legacy else (unexpected e, w)

  unfoldable pub query_topology : Query W SlotTopology
  query_topology w =
      let reply = query_variable (codes "slot-count") w in topology_from reply.0 reply.1

  unfoldable pub query_has_slot : Bytes → Query W Bool
  query_has_slot partition w =
      let key = codes "has-slot:" ++ partition in
      let reply = query_variable key w in
      continued (λ payload. gives (yes_or_no key payload))
        (exposed (codes "Device does not expose Fastboot " ++ key) reply.0) reply.1

  unfoldable pub query_current_slot : SlotTopology → Query W ℕ
  query_current_slot topology w =
      let reply = query_variable (codes "current-slot") w in
      continued
        (λ payload. gives (
          listed_slot topology
            (normalize_slot_name payload invalid_device_response (codes "Fastboot current-slot"))))
        (exposed (codes "Device does not expose Fastboot current-slot") reply.0) reply.1

  unfoldable pub resolve_slots : SlotTopology → SlotSelection → Bool → Query W Bytes
  resolve_slots topology (explicit name) allow_all w = (
    if has name topology.slots
        then value (name ∷ [])
        else slot_error invalid_request
            (codes "Requested Fastboot slot does not exist on the device"),
    w,
  )
  resolve_slots topology all allow_all w = (
    if not allow_all
        then slot_error invalid_request
            (codes "Fastboot slot 'all' is not valid for a single-slot operation")
        else value topology.slots,
    w,
  )
  resolve_slots topology current allow_all w =
      then_with (query_current_slot topology) (λ slot. gives (value (slot ∷ []))) w
  resolve_slots topology other allow_all w =
      let resolved =
        then_with (query_current_slot topology)
          (λ slot. gives (value (other_slot topology.slots slot ∷ []))) w in
      if not (length topology.slots == 2)
      then (
        slot_error ambiguous
            (codes "Fastboot slot 'other' is unambiguous only on a two-slot device"),
        w,
      )
      else resolved

  -- The plan for a partition with slots.
  unfoldable pub plan_slots : Bytes → SlotSelection → Query W PartitionSlotPlan
  plan_slots partition selection = then_with query_topology (λ topology.
      then_with (resolve_slots topology selection true) (λ slots. gives (
        value (record {
          slotted = true;
          partition_names = slot_names partition slots;
          slots = slots;
        }))))

  unfoldable pub plan_whole : Bytes → SlotSelection → Expected PartitionSlotPlan SlotError
  plan_whole partition current =
      value (record { slotted = false; partition_names = partition ∷ []; slots = [] })
  plan_whole partition _ =
      slot_error unsupported
        (codes "An explicit Fastboot slot was requested for a non-slotted partition")

  unfoldable pub plan_by_slots : Bytes → SlotSelection → Bool → Query W PartitionSlotPlan
  plan_by_slots partition selection true = plan_slots partition selection
  plan_by_slots partition selection false = gives (plan_whole partition selection)

  unfoldable pub plan_partition : Bytes → Bytes → Query W PartitionSlotPlan
  plan_partition partition requested_slot w =
      let planned =
        continued
          (λ selection. then_with (query_has_slot partition) (plan_by_slots partition selection))
          (parse_slot_selection requested_slot) w in
      if not (is_valid_partition_name partition)
      then (
        slot_error invalid_request
            (codes "Fastboot partition name must use ASCII letters, digits, '.', '-' or '_'"),
        w,
      )
      else planned

  abbrev first_slot : Bytes → ℕ
  first_slot [] = 0
  first_slot (c ∷ cs) = c

  unfoldable pub resolve_single : SlotSelection → Query W ℕ
  resolve_single all =
      gives (slot_error invalid_request (codes "Fastboot set_active cannot target every slot"))
  resolve_single selection = then_with query_topology (λ topology.
      then_with (resolve_slots topology selection false)
        (λ slots. gives (value (first_slot slots))))

  unfoldable pub resolve_active_slot : Bytes → Query W ℕ
  resolve_active_slot requested_slot =
      continued resolve_single (parse_slot_selection requested_slot)
