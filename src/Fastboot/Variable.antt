-- ===== src/Fastboot/Variable.antt =====
-- `parse_unsigned_variable` of src/fastboot/variable_parser.hpp
pub mod Printed
pub mod Read
mod Tests
use kairos_boot.Base.{
  ℕ, ◌^◌, ◌-◌, Bytes, Bool, true, false, ◌&&◌, ◌||◌, Option, none, some, List, [], ◌∷◌, ◌++◌, ◌==◌,
  leb, if◌then◌else◌,
}
use kairos_boot.Base.Chars.{from_chars, FromChars, parsed, invalid_argument, result_out_of_range}

-- The characters " \t\r\n\f\v"
unfoldable pub is_whitespace : ℕ → Bool
is_whitespace c = c == 32 || (leb 9 c && leb c 13)

-- From the first that is no whitespace on.
unfoldable pub drop_leading : Bytes → Bytes
drop_leading [] = []
drop_leading (c ∷ cs) = if is_whitespace c then drop_leading cs else c ∷ cs

-- `c` in front of what is left of the rest, unless all of it is whitespace.
unfoldable pub keep : ℕ → Bytes → Bytes
keep c [] = if is_whitespace c then [] else c ∷ []
keep c (d ∷ cs) = c ∷ d ∷ cs

-- Up to the last that is no whitespace.
unfoldable pub drop_trailing : Bytes → Bytes
drop_trailing [] = []
drop_trailing (c ∷ cs) = keep c (drop_trailing cs)

-- The base, and the digits behind the prefix "0x" or "0X".
unfoldable pub base_of : Bytes → ℕ × Bytes
base_of (z ∷ x ∷ d ∷ cs) =
    if z == 48 && (x == 120 || x == 88) then (16, d ∷ cs) else (10, z ∷ x ∷ d ∷ cs)
base_of cs = (10, cs)

-- The whole of the text must have been read.
unfoldable pub whole : FromChars → Option ℕ
whole (parsed n []) = some n
whole (parsed n (c ∷ cs)) = none
whole invalid_argument = none
whole (result_out_of_range rest) = none

abbrev pub u64_max : ℕ
u64_max = 2 ^ 64 - 1

-- Behind the trimming.
unfoldable pub parse_trimmed : Bytes → Option ℕ
unfolding base_of whole
parse_trimmed value = let (base, digits) = base_of value in whole (from_chars base u64_max digits)

unfoldable pub parse_unsigned_variable : Bytes → Option ℕ
unfolding parse_trimmed
parse_unsigned_variable value = parse_trimmed (drop_trailing (drop_leading value))
