-- ===== src/Fastboot/Slots.antt =====
-- `SlotPlanner` of src/fastboot/slot_planner.hpp, with its functions in src/fastboot/primitive_service.cpp.
-- A slot is the letter that its name is; texts and messages are bytes. `getvar` of the primitive service,
-- the stop token and the deadline are the functions of `SlotWorld`.
pub mod Planner
pub mod Planned
pub mod Listed
pub mod Plans
mod Tests
use kairos_boot.Base.{
  ℕ, zero, suc, ◌-◌, ◌^◌, Bytes, Bool, true, false, ◌&&◌, ◌||◌, not, Option, none, some, List, [],
  ◌∷◌, ◌++◌, map, ltb, leb, ◌==◌, if◌then◌else◌, length, codes, bytes_eq,
}
use kairos_boot.Base.Expected.{Expected, value, unexpected}
use kairos_boot.Base.Chars.{from_chars, FromChars, parsed, invalid_argument, result_out_of_range}

pub data SlotErrorCode : Type 0 where
  invalid_request unsupported ambiguous invalid_device_response query_failed cancelled timed_out :
      SlotErrorCode

-- `PrimitiveError`: whether its code is that of a device's FAIL, the device's message, and all else.
pub record QueryError : Type 0 where
  pub device_fail : Bool
  pub device_message : Bytes
  pub details : ℕ

pub record SlotError : Type 0 where
  pub code : SlotErrorCode
  pub message : Bytes
  pub query_error : Option QueryError

pub data SlotSelection : Type 0 where
  current other all : SlotSelection
  explicit : ℕ → SlotSelection

pub data TopologySource : Type 0 where
  slot_count legacy_slot_suffixes : TopologySource

pub record SlotTopology : Type 0 where
  pub slots : Bytes
  pub source : TopologySource

pub record PartitionSlotPlan : Type 0 where
  pub slotted : Bool
  pub partition_names : List Bytes
  pub slots : Bytes

pub record SlotWorld (W : Type 0) : Type 0 where
  pub getvar : Bytes → W → Expected Bytes QueryError × W
  pub stop_requested : W → Bool × W
  pub deadline_passed : W → Bool × W

abbrev pub slot_error : {A : Type 0} → SlotErrorCode → Bytes → Expected A SlotError
slot_error code message = unexpected (record { code = code; message = message; query_error = none })

abbrev with_message : Bytes → Bytes → Bytes
with_message context [] = context
with_message context (c ∷ cs) = context ++ codes ": " ++ c ∷ cs

unfoldable pub slot_query_error : Bytes → QueryError → SlotError
slot_query_error context e = record {
  code = if e.device_fail then unsupported else query_failed;
  message = with_message context e.device_message;
  query_error = some e;
}

abbrev pub is_letter : ℕ → Bool
is_letter c = leb b'a' c && leb c b'z'

unfoldable pub one_letter : SlotErrorCode → Bytes → Bytes → Expected ℕ SlotError
one_letter code context (c ∷ []) =
    if is_letter c
    then value c
    else slot_error code
        (context ++ codes " must be one lowercase ASCII letter, optionally prefixed by '_'")
one_letter code context _ =
    slot_error code
      (context ++ codes " must be one lowercase ASCII letter, optionally prefixed by '_'")

unfoldable pub normalize_slot_name : Bytes → SlotErrorCode → Bytes → Expected ℕ SlotError
normalize_slot_name [] code context = one_letter code context []
normalize_slot_name (c ∷ cs) code context =
    if c == b'_' then one_letter code context cs else one_letter code context (c ∷ cs)

unfoldable pub in_front : ℕ → List Bytes → List Bytes
in_front c [] = (c ∷ []) ∷ []
in_front c (p ∷ ps) = (c ∷ p) ∷ ps

-- The tokens between the commas, one at least.
unfoldable pub split_commas : Bytes → List Bytes
split_commas [] = [] ∷ []
split_commas (c ∷ cs) =
    let rest = split_commas cs in if c == b',' then [] ∷ rest else in_front c rest

unfoldable pub slot_in_front : ℕ → Expected Bytes SlotError → Expected Bytes SlotError
slot_in_front c (value cs) = value (c ∷ cs)
slot_in_front c (unexpected e) = unexpected e

unfoldable pub normalized_with :
    Expected ℕ SlotError → Expected Bytes SlotError → Expected Bytes SlotError
normalized_with (value c) rest = slot_in_front c rest
normalized_with (unexpected e) rest = unexpected e

-- The first token that is no slot gives the error.
unfoldable pub normalized_tokens : List Bytes → Expected Bytes SlotError
normalized_tokens [] = value []
normalized_tokens (t ∷ ts) =
    normalized_with
      (normalize_slot_name t invalid_device_response (codes "Fastboot slot-suffixes entry"))
      (normalized_tokens ts)

unfoldable pub insert_slot : ℕ → Bytes → Bytes
insert_slot c [] = c ∷ []
insert_slot c (d ∷ ds) = let rest = insert_slot c ds in if leb c d then c ∷ d ∷ ds else d ∷ rest

unfoldable pub sort_slots : Bytes → Bytes
sort_slots [] = []
sort_slots (c ∷ cs) = insert_slot c (sort_slots cs)

unfoldable pub has_adjacent : Bytes → Bool
has_adjacent [] = false
has_adjacent (c ∷ []) = false
has_adjacent (c ∷ d ∷ cs) = c == d || has_adjacent (d ∷ cs)

unfoldable pub checked_suffixes : Expected Bytes SlotError → Expected Bytes SlotError
checked_suffixes (unexpected e) = unexpected e
checked_suffixes (value slots) =
    if ltb (length slots) 2
    then slot_error unsupported (codes "Fastboot slot-suffixes does not describe an A/B device")
    else if ltb 26 (length slots)
    then slot_error invalid_device_response
        (codes "Fastboot slot-suffixes contains more than 26 slots")
    else if has_adjacent (sort_slots slots)
    then slot_error ambiguous (codes "Fastboot slot-suffixes contains duplicate slot names")
    else value (sort_slots slots)

unfoldable pub parse_legacy_slot_suffixes : Bytes → Expected Bytes SlotError
parse_legacy_slot_suffixes payload = checked_suffixes (normalized_tokens (split_commas payload))

unfoldable pub explicit_selection : Expected ℕ SlotError → Expected SlotSelection SlotError
explicit_selection (value c) = value (explicit c)
explicit_selection (unexpected e) = unexpected e

unfoldable pub parse_slot_selection : Bytes → Expected SlotSelection SlotError
parse_slot_selection [] = value current
parse_slot_selection (c ∷ cs) =
    if bytes_eq (c ∷ cs) (codes "other")
    then value other
    else if bytes_eq (c ∷ cs) (codes "all")
    then value all
    else explicit_selection
        (normalize_slot_name (c ∷ cs) invalid_request (codes "Requested Fastboot slot"))

-- So many letters from one on.
unfoldable pub letters_from : ℕ → ℕ → Bytes
letters_from zero c = []
letters_from (suc n) c = c ∷ letters_from n (suc c)

unfoldable pub counted_topology : FromChars → Expected SlotTopology SlotError
counted_topology (parsed n []) =
    if ltb n 2
    then slot_error unsupported (codes "Fastboot slot-count does not describe an A/B device")
    else if ltb 26 n
    then slot_error invalid_device_response
        (codes "Fastboot slot-count exceeds the supported a-z namespace")
    else value (record { slots = letters_from n b'a'; source = slot_count })
counted_topology _ =
    slot_error invalid_device_response (codes "Fastboot slot-count is not a decimal integer")

unfoldable pub legacy_topology : Expected Bytes SlotError → Expected SlotTopology SlotError
legacy_topology (value slots) = value (record { slots = slots; source = legacy_slot_suffixes })
legacy_topology (unexpected e) = unexpected e

-- The device said FAIL.
abbrev pub is_device_fail : SlotError → Bool
is_device_fail e = elim e.query_error [ none ↦ false | some q ↦ q.device_fail ]

-- The message for a variable that the device refused.
abbrev pub unexposed : Bytes → SlotError → SlotError
unexposed message e = if is_device_fail e then record e { message = message } else e

unfoldable pub has : ℕ → Bytes → Bool
has c [] = false
has c (d ∷ ds) = d == c || has c ds

abbrev is_partition_name_character : ℕ → Bool
is_partition_name_character c =
    (leb b'a' c && leb c b'z')
    || (leb b'A' c && leb c b'Z')
    || (leb b'0' c && leb c b'9')
    || c == b'_'
    || c == b'-'
    || c == b'.'

abbrev all_name_characters : Bytes → Bool
all_name_characters [] = true
all_name_characters (c ∷ cs) = is_partition_name_character c && all_name_characters cs

unfoldable pub is_valid_partition_name : Bytes → Bool
is_valid_partition_name partition =
    not (length partition == 0 || ltb (4096 - 16) (length partition))
    && all_name_characters partition
