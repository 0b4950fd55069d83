-- ===== src/Protocol/Response/RoundTrip.antt =====
-- Packets as a device writes them, and `parse_response` reading them back.
use kairos_boot.Base.{ℕ, ◌+◌, ◌^◌, ◌≤◌, ◌<◌, Bytes, none, some, ◌++◌, ◌≡◌, length, codes, arith}
use kairos_boot.Base.Chars.{hex, length-hex, from_chars-hex}
use kairos_boot.Base.Expected.{value}
use kairos_boot.Protocol.Response.{
  ResponseKind, Response, info, text, okay, fail, data_reply, has_prefix, data_response,
  parse_prefixed, parse_response, u32_max,
}

abbrev pub tag : ResponseKind → Bytes
tag info = codes "INFO"
tag text = codes "TEXT"
tag okay = codes "OKAY"
tag fail = codes "FAIL"
tag data_reply = codes "DATA"

-- What a device may say: a text under one of four prefixes, or the length of a data phase.
pub data Reply : Type 0 where
  says : ResponseKind → Bytes → Reply
  announces : ℕ → Reply

abbrev pub print : Reply → Bytes
print (says k payload) = tag k ++ payload
print (announces n) = tag data_reply ++ hex 8 n

abbrev pub meaning : Reply → Response
meaning (says k payload) = record { kind = k; payload = payload; data_size = none }
meaning (announces n) = record { kind = data_reply; payload = hex 8 n; data_size = some n }

-- `DATA` carries a length below 2 ^ 32 and nothing else; a packet is within the limit.
abbrev pub IsSayable : ℕ → Reply → Type 0
IsSayable limit (says data_reply payload) = ⊥
IsSayable limit (says info payload) = 4 + length payload ≤ limit
IsSayable limit (says text payload) = 4 + length payload ≤ limit
IsSayable limit (says okay payload) = 4 + length payload ≤ limit
IsSayable limit (says fail payload) = 4 + length payload ≤ limit
IsSayable limit (announces n) = (n < 2 ^ 32) × (12 ≤ limit)

parse_prefixed-data :
    (n : ℕ)
    → n < 2 ^ 32
    → parse_prefixed (tag data_reply ++ hex 8 n) (hex 8 n) ≡ value (meaning (announces n))
unfolding parse_prefixed has_prefix data_response
parse_prefixed-data n h =
    rw (length-hex 8 n, from_chars-hex 7 n u32_max (omega arith) (omega arith))

parse_response-data :
    (n limit : ℕ)
    → n < 2 ^ 32
    → 12 ≤ limit
    → parse_response (tag data_reply ++ hex 8 n) limit ≡ value (meaning (announces n))
unfolding parse_response
parse_response-data n limit h fits = ground (arith, length-hex 8 n, parse_prefixed-data n h)

-- Every reply that a device may say is read back as it was meant.
pub parse_response-print :
    (r : Reply) (limit : ℕ) → IsSayable limit r → parse_response (print r) limit ≡ value (meaning r)
unfolding parse_response parse_prefixed has_prefix
parse_response-print (says info payload) limit h = ground arith
parse_response-print (says text payload) limit h = ground arith
parse_response-print (says okay payload) limit h = ground arith
parse_response-print (says fail payload) limit h = ground arith
parse_response-print (says data_reply payload) limit h = absurd h
parse_response-print (announces n) limit h = parse_response-data n limit h.0 h.1
