-- ===== src/Protocol/Response/Tests.antt =====
-- `parse_response` at concrete packets.
use kairos_boot.Base.{◌≤◌, ◌≡◌, refl, none, some, codes, arith, ◌++◌, length}
use kairos_boot.Base.Chars.{from_chars, digit_run, digit_in}
use kairos_boot.Base.Expected.{value}
use kairos_boot.Protocol.Response.{
  info, data_reply, has_prefix, data_response, parse_prefixed, parse_response,
}
use kairos_boot.Protocol.Response.RoundTrip.{announces, meaning, print, tag, parse_response-print}
use kairos_boot.Protocol.Response.Sound.{HasSize, parse_response_sound}

info_packet :
    parse_response (codes "INFOerasing") 256
    ≡ value (record { kind = info; payload = codes "erasing"; data_size = none })
unfolding parse_response parse_prefixed has_prefix
info_packet = refl

data_packet :
    parse_response (codes "DATA0000A0ff") 256
    ≡ value (record { kind = data_reply; payload = codes "0000A0ff"; data_size = some 41215 })
unfolding parse_response parse_prefixed has_prefix data_response from_chars digit_run digit_in
data_packet = refl

parse_response-print_example :
    parse_response (print (announces 41215)) 256 ≡ value (meaning (announces 41215))
parse_response-print_example = parse_response-print (announces 41215) 256 (omega arith, omega arith)

parse_response_sound_example :
    (codes "DATA0000A0ff" ≡ tag data_reply ++ codes "0000A0ff")
    × (length (codes "DATA0000A0ff") ≤ 256)
    × HasSize data_reply (codes "0000A0ff") (some 41215)
parse_response_sound_example =
    parse_response_sound (codes "DATA0000A0ff") 256
      (record { kind = data_reply; payload = codes "0000A0ff"; data_size = some 41215 }) data_packet
