-- ===== src/Protocol/Response/Sound.antt =====
-- What an accepted packet looks like.
use kairos_boot.Base.{
  ℕ, ◌^◌, ◌≤◌, ◌<◌, Bytes, true, none, some, [], ◌∷◌, ◌++◌, ◌≡◌, refl, length, drop, codes, arith,
  Option,
}
use kairos_boot.Base.Chars.{
  FromChars, parsed, invalid_argument, result_out_of_range, from_chars, from_chars-le,
}
use kairos_boot.Base.Chars.Read.{IsNumeral, from_chars-IsNumeral}
use kairos_boot.Base.Expected.{value}
use kairos_boot.Protocol.Response.{
  ResponseKind, Response, info, text, okay, fail, data_reply, has_prefix, data_response,
  parse_prefixed, parse_response, u32_max,
}
use kairos_boot.Protocol.Response.RoundTrip.{tag}

has_prefix-split :
    (packet prefix : Bytes)
    → has_prefix packet prefix ≡ true
    → packet ≡ prefix ++ drop (length prefix) packet
unfolding has_prefix
has_prefix-split packet [] h = refl
has_prefix-split [] (p ∷ ps) h = ground arith
has_prefix-split (b ∷ bs) (p ∷ ps) h = ground (arith, has_prefix-split bs ps)

-- A data phase has a length: the payload is eight hexadecimal digits, and the length is their value,
-- below 2 ^ 32. No other reply has one.
abbrev pub HasSize : ResponseKind → Bytes → Option ℕ → Type 0
HasSize data_reply payload (some n) = (length payload ≡ 8) × IsNumeral 16 n payload × (n < 2 ^ 32)
HasSize data_reply payload none = ⊥
HasSize info payload size = size ≡ none
HasSize text payload size = size ≡ none
HasSize okay payload size = size ≡ none
HasSize fail payload size = size ≡ none

data_response-parsed :
    (payload : Bytes) (f : FromChars) (r : Response)
    → data_response payload f ≡ value r
    → (n : ℕ) × (f ≡ parsed n [])
      × (r ≡ record { kind = data_reply; payload = payload; data_size = some n })
unfolding data_response
data_response-parsed payload (parsed n []) r h = (n, refl, ground arith)
data_response-parsed payload (parsed n (c ∷ cs)) r h = cc
data_response-parsed payload invalid_argument r h = cc
data_response-parsed payload (result_out_of_range rest) r h = cc

data_response-lt :
    (payload : Bytes) (r : Response)
    → length payload ≡ 8
    → data_response payload (from_chars 16 u32_max payload) ≡ value r
    → (r.kind ≡ data_reply) × (r.payload ≡ payload) × HasSize r.kind r.payload r.data_size
data_response-lt payload r l h =
    let (n, e, p) = data_response-parsed payload (from_chars 16 u32_max payload) r h in
    ground (
      arith,
      from_chars-le 16 u32_max payload {n = n} {rest = []} e,
      from_chars-IsNumeral 16 u32_max n payload e,
    )

parse_prefixed_lem :
    (packet : Bytes) (r : Response)
    → parse_prefixed packet (drop 4 packet) ≡ value r
    → (packet ≡ tag r.kind ++ r.payload) × HasSize r.kind r.payload r.data_size
unfolding parse_prefixed
parse_prefixed_lem packet r h = ground (
  arith,
  has_prefix-split packet (codes "INFO"),
  has_prefix-split packet (codes "TEXT"),
  has_prefix-split packet (codes "OKAY"),
  has_prefix-split packet (codes "FAIL"),
  has_prefix-split packet (codes "DATA"),
  data_response-lt (drop 4 packet) r,
)

-- An accepted packet is a prefix and its payload, within the limit. Exactly a `DATA` packet has a
-- length: its payload is eight hexadecimal digits, of either case, and the length is their value, below
-- 2 ^ 32.
pub parse_response_sound :
    (packet : Bytes) (limit : ℕ) (r : Response)
    → parse_response packet limit ≡ value r
    → (packet ≡ tag r.kind ++ r.payload)
      × (length packet ≤ limit)
      × HasSize r.kind r.payload r.data_size
unfolding parse_response
parse_response_sound packet limit r h = ground (arith, parse_prefixed_lem packet r)
