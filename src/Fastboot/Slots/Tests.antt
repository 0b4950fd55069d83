-- ===== src/Fastboot/Slots/Tests.antt =====
-- A device with two slots, of which b is the current one.
use kairos_boot.Base.{ℕ, ◌≡◌, refl, Bytes, true, false, if◌then◌else◌, [], codes, bytes_eq}
use kairos_boot.Base.Expected.{Expected, value, unexpected}
use kairos_boot.Fastboot.Slots.{
  SlotWorld, QueryError, parse_legacy_slot_suffixes, checked_suffixes, normalized_tokens,
  normalized_with, slot_in_front, split_commas, in_front, normalize_slot_name, one_letter,
  sort_slots, insert_slot, has_adjacent,
}

abbrev refuses : Expected Bytes QueryError
refuses = unexpected (record { device_fail = true; device_message = []; details = 0 })

abbrev variable : Bytes → Expected Bytes QueryError
variable name =
    if bytes_eq name (codes "slot-count")
    then value (codes "2")
    else if bytes_eq name (codes "current-slot")
    then value (codes "_b")
    else if bytes_eq name (codes "has-slot:boot")
    then value (codes "yes")
    else refuses

abbrev device : SlotWorld ℕ
device = record {
  getvar = λ name w. (variable name, w);
  stop_requested = λ w. (false, w);
  deadline_passed = λ w. (false, w);
}

suffixes_sorted : parse_legacy_slot_suffixes (codes "_b,_a") ≡ value (codes "ab")
unfolding parse_legacy_slot_suffixes checked_suffixes normalized_tokens normalized_with
    slot_in_front split_commas in_front normalize_slot_name one_letter sort_slots insert_slot
    has_adjacent
suffixes_sorted = refl
