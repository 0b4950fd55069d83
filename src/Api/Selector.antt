-- ===== src/Api/Selector.antt =====
-- `parse_device_selector` and `select_usb_device` of src/api/device_selector.hpp and .cpp. A text is its bytes. The parsers of network endpoints are a
-- parameter, which gives the message of an endpoint that they refuse.
pub mod Selected
pub mod Printed
mod Tests
use Prim.Native.String.{◌++◌ as ◌<>◌}
use kairos_boot.Base.{
  ℕ, zero, suc, ◌+◌, ◌-◌, ◌*◌, ◌^◌, Bytes, Bool, true, false, ◌&&◌, ◌||◌, not, Option, none, some,
  List, [], ◌∷◌, ◌++◌, String, ltb, leb, ◌==◌, if◌then◌else◌, length, take, drop, codes, bytes_eq,
}
use kairos_boot.Base.Expected.{Expected, value, unexpected}
use kairos_boot.Base.Chars.{from_chars, FromChars, parsed, invalid_argument, result_out_of_range}
use kairos_boot.Api.Operation.{Status, e_invalid_argument, e_no_device, e_ambiguous_device}

pub data SelectorKind : Type 0 where
  usb_unique usb_serial usb_path tcp udp : SelectorKind

pub record Selector : Type 0 where
  pub kind : SelectorKind
  pub text : Bytes
  pub usb_bus : ℕ
  pub usb_ports : List ℕ
  pub identifier : Bytes

pub record SelectorError : Type 0 where
  pub status : Status
  pub message : String

abbrev pub invalid : {A : Type 0} → String → Expected A SelectorError
invalid message = unexpected (record { status = e_invalid_argument; message = message })

abbrev pub selection_error : {A : Type 0} → Status → String → Expected A SelectorError
selection_error status message = unexpected (record { status = status; message = message })

abbrev between : ℕ → ℕ → ℕ → Bool
between low high c = leb low c && leb c high

-- What a leading byte asks for: the number of continuations, and the bounds of the first.
unfoldable pub lead_class : ℕ → Option (ℕ × ℕ × ℕ)
lead_class lead =
    if leb lead 0x7F
    then some (0, 0x80, 0xBF)
    else if between 0xC2 0xDF lead
    then some (1, 0x80, 0xBF)
    else if between 0xE0 0xEF lead
    then some (2, if lead == 0xE0 then 0xA0 else 0x80, if lead == 0xED then 0x9F else 0xBF)
    else if between 0xF0 0xF4 lead
    then some (3, if lead == 0xF0 then 0x90 else 0x80, if lead == 0xF4 then 0x8F else 0xBF)
    else none

abbrev all_between : ℕ → ℕ → Bytes → Bool
all_between low high [] = true
all_between low high (c ∷ cs) = between low high c && all_between low high cs

-- The continuations of one character.
unfoldable pub continued : ℕ → ℕ → ℕ → Bytes → Bool
continued zero low high rest = true
continued (suc n) low high [] = false
continued (suc n) low high (c ∷ rest) =
    leb n (length rest) && between low high c && all_between 0x80 0xBF (take n rest)

-- One character after another; there are no more of them than bytes.
unfoldable pub utf8_loop : ℕ → Bytes → Bool
utf8_loop fuel [] = true
utf8_loop zero (lead ∷ rest) = false
utf8_loop (suc fuel) (lead ∷ rest) = elim (lead_class lead) [
  | none ↦ false
  | some (n, low, high) ↦ continued n low high rest && utf8_loop fuel (drop n rest)
]

unfoldable pub valid_utf8 : Bytes → Bool
valid_utf8 bs = utf8_loop (length bs) bs

unfoldable pub hex_digit : ℕ → Option ℕ
hex_digit c =
    if between b'0' b'9' c
    then some (c - b'0')
    else if between b'a' b'f' c
    then some (c - b'a' + 10)
    else if between b'A' b'F' c
    then some (c - b'A' + 10)
    else none

abbrev is_control : ℕ → Bool
is_control c = ltb c 0x20 || c == 0x7F

abbrev pub control_error : Expected Bytes SelectorError
control_error = invalid "USB serial selector decodes to a control character"

-- A byte that was decoded, in front of the rest's.
unfoldable pub decoded_byte : ℕ → Expected Bytes SelectorError → Expected Bytes SelectorError
decoded_byte c (value cs) = if is_control c then control_error else value (c ∷ cs)
decoded_byte c (unexpected e) = if is_control c then control_error else unexpected e

-- The loop of `decode_serial`.
unfoldable pub decode_loop : Bytes → Expected Bytes SelectorError
decode_loop [] = value []
decode_loop (c ∷ []) =
    if c == b'%'
    then invalid "USB serial selector has an incomplete percent escape"
    else decoded_byte c (value [])
decode_loop (c ∷ d ∷ []) =
    if c == b'%'
    then invalid "USB serial selector has an incomplete percent escape"
    else decoded_byte c (decode_loop (d ∷ []))
decode_loop (c ∷ d ∷ e ∷ cs) =
    let plain = decode_loop (d ∷ e ∷ cs) in
    let rest = decode_loop cs in
    if c == b'%'
    then elim (hex_digit d) [
      | none ↦ invalid "USB serial selector has an invalid percent escape"
      | some high ↦ elim (hex_digit e) [
        | none ↦ invalid "USB serial selector has an invalid percent escape"
        | some low ↦ decoded_byte (high * 16 + low) rest
      ]
    ]
    else decoded_byte c plain

unfoldable pub checked_utf8 : Expected Bytes SelectorError → Expected Bytes SelectorError
checked_utf8 (unexpected e) = unexpected e
checked_utf8 (value decoded) =
    if valid_utf8 decoded
    then value decoded
    else invalid "USB serial selector must decode to valid UTF-8"

unfoldable pub decode_serial : Bytes → Expected Bytes SelectorError
decode_serial [] = invalid "USB serial selector must not be empty"
decode_serial (c ∷ cs) = checked_utf8 (decode_loop (c ∷ cs))

-- What stands before the first dash, and what behind it.
unfoldable pub split_dash : Bytes → Bytes × Option Bytes
split_dash [] = ([], none)
split_dash (c ∷ cs) =
    let rest = split_dash cs in if c == b'-' then ([], some cs) else (c ∷ rest.0, rest.1)

unfoldable pub in_front : ℕ → List Bytes → List Bytes
in_front c [] = (c ∷ []) ∷ []
in_front c (p ∷ ps) = (c ∷ p) ∷ ps

-- The pieces between the dots, one at least.
unfoldable pub split_dots : Bytes → List Bytes
split_dots [] = [] ∷ []
split_dots (c ∷ cs) = let rest = split_dots cs in if c == b'.' then [] ∷ rest else in_front c rest

-- The whole was read, as a byte.
unfoldable pub component_value : Bool → FromChars → Option ℕ
component_value allow_zero (parsed n []) =
    if (not allow_zero && n == 0) || ltb 255 n then none else some n
component_value allow_zero _ = none

unfoldable pub parse_component : Bool → Bytes → Option ℕ
parse_component allow_zero [] = none
parse_component allow_zero (c ∷ []) =
    component_value allow_zero (from_chars 10 (2 ^ 32 - 1) (c ∷ []))
parse_component allow_zero (c ∷ d ∷ cs) =
    if c == b'0' then none else component_value allow_zero (from_chars 10 (2 ^ 32 - 1) (c ∷ d ∷ cs))

-- The loop on the ports, with those found before.
unfoldable pub ports_loop : List Bytes → List ℕ → Expected (List ℕ) SelectorError
ports_loop [] ports = value ports
ports_loop (p ∷ ps) ports = elim (parse_component false p) [
  | none ↦ invalid "USB path selector has an invalid port number"
  | some port ↦
      let more = ports ++ port ∷ [] in
      let rest = ports_loop ps more in
      if ltb 7 (length more)
      then invalid "USB path selector exceeds the supported hub depth"
      else rest
]

unfoldable pub usb_path_selector :
    Bytes → ℕ → Expected (List ℕ) SelectorError → Expected Selector SelectorError
usb_path_selector text bus (unexpected e) = unexpected e
usb_path_selector text bus (value ports) = value (record {
  kind = usb_path;
  text = text;
  usb_bus = bus;
  usb_ports = ports;
  identifier = codes "usb:" ++ text;
})

abbrev path_error : Expected Selector SelectorError
path_error = invalid "USB path selector must use usb:<bus>-<port>[.<port>...]"

-- With something on both sides of the dash.
unfoldable pub parse_bus_and_ports : Bytes → Bytes → Bytes → Expected Selector SelectorError
parse_bus_and_ports text [] ports = path_error
parse_bus_and_ports text (c ∷ cs) [] = path_error
parse_bus_and_ports text (c ∷ cs) (p ∷ ps) = elim (parse_component true (c ∷ cs)) [
  | none ↦ invalid "USB path selector has an invalid bus number"
  | some bus ↦ usb_path_selector text bus (ports_loop (split_dots (p ∷ ps)) [])
]

unfoldable pub parse_usb_path : Bytes → Expected Selector SelectorError
parse_usb_path text = elim (split_dash text).1 [
  | none ↦ path_error
  | some ports ↦ parse_bus_and_ports text (split_dash text).0 ports
]

unfoldable pub forbidden_endpoint_character : ℕ → Bool
forbidden_endpoint_character c =
    leb c 0x20 || c == 0x7F || c == b'/' || c == b'?' || c == b'#' || c == b'@' || c == b'\\'

abbrev any_forbidden : Bytes → Bool
any_forbidden [] = false
any_forbidden (c ∷ cs) = forbidden_endpoint_character c || any_forbidden cs

abbrev any_control : Bytes → Bool
any_control [] = false
any_control (c ∷ cs) = is_control c || any_control cs

abbrev any_colon : Bytes → Bool
any_colon [] = false
any_colon (c ∷ cs) = c == b':' || any_colon cs

-- What follows a prefix.
unfoldable pub after_prefix : Bytes → Bytes → Option Bytes
after_prefix [] cs = some cs
after_prefix (p ∷ ps) [] = none
after_prefix (p ∷ ps) (c ∷ cs) = let rest = after_prefix ps cs in if c == p then rest else none

unfoldable pub serial_selector :
    Bytes → Expected Bytes SelectorError → Expected Selector SelectorError
serial_selector identifier (unexpected e) = unexpected e
serial_selector identifier (value serial) = value (record {
  kind = usb_serial;
  text = serial;
  usb_bus = 0;
  usb_ports = [];
  identifier = identifier;
})

-- A selector without a scheme.
unfoldable pub legacy_selector : Bytes → Expected Selector SelectorError
legacy_selector text =
    if any_colon text
    then invalid "device selector uses an unknown scheme"
    else if not (valid_utf8 text)
    then invalid "legacy USB serial selector must be valid UTF-8"
    else if any_control text
    then invalid "legacy USB serial selector contains a control character"
    else serial_selector text (value text)

abbrev pub unique_selector : Selector
unique_selector = record {
  kind = usb_unique;
  text = [];
  usb_bus = 0;
  usb_ports = [];
  identifier = codes "usb:unique";
}

abbrev refused_note : SelectorKind → String
refused_note tcp = "invalid TCP Fastboot endpoint: "
refused_note _ = "invalid UDP Fastboot endpoint: "

-- The parser of the endpoints of a network: the message, where it refuses one.
module _ (refusal : SelectorKind → Bytes → Option String) where
  unfoldable pub network_selector :
      SelectorKind → Bytes → String → Option String → Expected Selector SelectorError
  network_selector kind endpoint scheme (some message) = invalid (refused_note kind <> message)
  network_selector kind endpoint scheme none = value (record {
    kind = kind;
    text = endpoint;
    usb_bus = 0;
    usb_ports = [];
    identifier = codes scheme ++ b':' ∷ endpoint;
  })

  unfoldable pub parse_network : SelectorKind → Bytes → String → Expected Selector SelectorError
  parse_network kind [] scheme = invalid (scheme <> " endpoint must not be empty")
  parse_network kind (c ∷ cs) scheme =
      if any_forbidden (c ∷ cs)
      then invalid (scheme <> " endpoint contains a forbidden character")
      else network_selector kind (c ∷ cs) scheme (refusal kind (c ∷ cs))

  -- By the scheme, the first that fits.
  unfoldable pub parse_text : Bytes → Expected Selector SelectorError
  parse_text text = elim (after_prefix (codes "usb:serial:") text) [
    | some serial ↦ serial_selector text (decode_serial serial)
    | none ↦ elim (after_prefix (codes "usb:") text) [
      | some path ↦ parse_usb_path path
      | none ↦ elim (after_prefix (codes "tcp:") text) [
        | some endpoint ↦ parse_network tcp endpoint "tcp"
        | none ↦ elim (after_prefix (codes "udp:") text) [
          | some endpoint ↦ parse_network udp endpoint "udp"
          | none ↦ legacy_selector text
        ]
      ]
    ]
  ]

  unfoldable pub parse_device_selector : Option Bytes → Expected Selector SelectorError
  parse_device_selector none = value unique_selector
  parse_device_selector (some []) = invalid "explicit device selector must not be empty"
  parse_device_selector (some (c ∷ cs)) = parse_text (c ∷ cs)

-- `UsbDeviceInfo`; `details` stands for the members that no selector reads.
pub record UsbDevice : Type 0 where
  pub bus_number : ℕ
  pub port_path : List ℕ
  pub serial_utf8 : Bytes
  pub details : ℕ

unfoldable pub matches : Selector → UsbDevice → Bool
matches sel d = elim sel.kind [
  | usb_serial ↦ bytes_eq d.serial_utf8 sel.text
  | _ ↦ d.bus_number == sel.usb_bus && bytes_eq d.port_path sel.usb_ports
]

-- The loop, with the match that was found before.
unfoldable pub match_loop :
    Selector → Option UsbDevice → List UsbDevice → Expected UsbDevice SelectorError
match_loop sel none [] = selection_error e_no_device "no Fastboot USB device matches the selector"
match_loop sel (some d) [] = value d
match_loop sel none (d ∷ ds) =
    let found = match_loop sel (some d) ds in
    let rest = match_loop sel none ds in if matches sel d then found else rest
match_loop sel (some m) (d ∷ ds) =
    let rest = match_loop sel (some m) ds in
    if matches sel d
    then selection_error e_ambiguous_device "more than one Fastboot USB device matches the selector"
    else rest

unfoldable pub select_unique : List UsbDevice → Expected UsbDevice SelectorError
select_unique [] = selection_error e_no_device "no Fastboot USB device is available"
select_unique (d ∷ []) = value d
select_unique (d ∷ e ∷ ds) =
    selection_error e_ambiguous_device "more than one Fastboot USB device is available"

unfoldable pub select_usb_device : List UsbDevice → Selector → Expected UsbDevice SelectorError
select_usb_device devices sel = elim sel.kind [
  | usb_unique ↦ select_unique devices
  | usb_serial ↦ match_loop sel none devices
  | usb_path ↦ match_loop sel none devices
  | _ ↦ invalid "network selector cannot select a USB device"
]
