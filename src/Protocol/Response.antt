-- ===== src/Protocol/Response.antt =====
-- `parse_response` of src/protocol/fastboot_protocol.cpp. A packet is a list of bytes.
pub mod RoundTrip
pub mod Sound
mod Tests
use kairos_boot.Base.{
  ℕ, suc, ◌-◌, ◌^◌, Bytes, Bool, true, false, ◌&&◌, Option, none, some, List, [], ◌∷◌, String, ltb,
  ◌==◌, ◌≡◌, refl, not, if◌then◌else◌, length, drop, codes,
}
use kairos_boot.Base.Chars.{
  FromChars, parsed, invalid_argument, result_out_of_range, from_chars, digit_run, digit_in,
}
use kairos_boot.Base.Expected.{Expected, value, unexpected}

-- `Data` is spelled `data_reply`.
pub data ResponseKind : Type 0 where
  info text okay fail data_reply : ResponseKind

pub record Response : Type 0 where
  pub kind : ResponseKind
  pub payload : Bytes
  pub data_size : Option ℕ

pub data ResponseParseErrorCode : Type 0 where
  zero_length too_short too_long unknown_prefix : ResponseParseErrorCode
  invalid_data_length invalid_data_hex : ResponseParseErrorCode

pub record ResponseParseError : Type 0 where
  pub code : ResponseParseErrorCode
  pub message : String

-- `std::equal` over the prefix; the caller has checked that the packet is long enough.
unfoldable pub has_prefix : Bytes → Bytes → Bool
has_prefix packet [] = true
has_prefix [] (p ∷ ps) = false
has_prefix (b ∷ bs) (p ∷ ps) = p == b && has_prefix bs ps

abbrev pub u32_max : ℕ
u32_max = 2 ^ 32 - 1

abbrev parse_error : ResponseParseErrorCode → String → Expected Response ResponseParseError
parse_error c m = unexpected (record { code = c; message = m })

abbrev plain : ResponseKind → Bytes → Expected Response ResponseParseError
plain k payload = value (record { kind = k; payload = payload; data_size = none })

abbrev hex_error : Expected Response ResponseParseError
hex_error =
    parse_error invalid_data_hex "Fastboot DATA response contains invalid hexadecimal digits"

-- The tests on what `std::from_chars` returned.
unfoldable pub data_response : Bytes → FromChars → Expected Response ResponseParseError
data_response payload (parsed n []) =
    value (record { kind = data_reply; payload = payload; data_size = some n })
data_response payload (parsed n (c ∷ cs)) = hex_error
data_response payload invalid_argument = hex_error
data_response payload (result_out_of_range rest) = hex_error

-- The packet behind its four-byte status prefix.
unfoldable pub parse_prefixed : Bytes → Bytes → Expected Response ResponseParseError
parse_prefixed packet payload =
    if has_prefix packet (codes "INFO")
    then plain info payload
    else if has_prefix packet (codes "TEXT")
    then plain text payload
    else if has_prefix packet (codes "OKAY")
    then plain okay payload
    else if has_prefix packet (codes "FAIL")
    then plain fail payload
    else if not (has_prefix packet (codes "DATA"))
    then parse_error unknown_prefix "Fastboot response has an unknown status prefix"
    else if not (length payload == 8)
    then parse_error invalid_data_length
        "Fastboot DATA response must contain exactly eight hexadecimal digits"
    else data_response payload (from_chars 16 u32_max payload)

unfoldable pub parse_response : Bytes → ℕ → Expected Response ResponseParseError
parse_response packet max_response_bytes =
    if length packet == 0
    then parse_error zero_length "Fastboot logical response is empty"
    else if ltb (length packet) 4
    then parse_error too_short "Fastboot response is shorter than its four-byte status prefix"
    else if ltb max_response_bytes (length packet)
    then parse_error too_long "Fastboot response exceeds the configured response limit"
    else parse_prefixed packet (drop 4 packet)
