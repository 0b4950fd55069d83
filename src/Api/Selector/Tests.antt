-- ===== src/Api/Selector/Tests.antt =====
-- Selectors of two devices on one hub.
use kairos_boot.Base.{ℕ, ◌≡◌, inl, refl, none, some, [], ◌∷◌, ◌++◌, codes, arith, false}
use kairos_boot.Base.Expected.{value}
use kairos_boot.Api.Operation.{e_ambiguous_device}
use kairos_boot.Api.Selector.{
  Selector, usb_serial, usb_path, UsbDevice, select_usb_device, match_loop, matches, valid_utf8,
  utf8_loop, lead_class, continued, decode_serial, decode_loop, decoded_byte, hex_digit,
  checked_utf8, parse_device_selector,
}
use kairos_boot.Api.Selector.Selected.{
  outcome, answer, candidates, is_network, select_usb_device-answer,
}
use kairos_boot.Api.Selector.Printed.{print_path, parse_device_selector-print_path}

abbrev on_port : ℕ → UsbDevice
on_port p = record { bus_number = 1; port_path = 2 ∷ p ∷ []; serial_utf8 = codes "A1"; details = 0 }

abbrev by_serial : Selector
by_serial = record {
  kind = usb_serial;
  text = codes "A1";
  usb_bus = 0;
  usb_ports = [];
  identifier = codes "A1";
}

both_ambiguous :
    outcome (select_usb_device (on_port 3 ∷ on_port 4 ∷ []) by_serial) ≡ inl e_ambiguous_device
unfolding select_usb_device match_loop matches
both_ambiguous = refl

select_usb_device-answer_example :
    outcome (select_usb_device (on_port 3 ∷ on_port 4 ∷ []) by_serial)
    ≡ answer (is_network by_serial.kind) (candidates by_serial (on_port 3 ∷ on_port 4 ∷ []))
select_usb_device-answer_example = select_usb_device-answer (on_port 3 ∷ on_port 4 ∷ []) by_serial

parse_device_selector-print_path_example :
    parse_device_selector
      (λ kind text. none)
      (some (codes "usb:" ++ print_path 1 2 (10 ∷ 255 ∷ [])))
    ≡ value (record {
      kind = usb_path;
      text = print_path 1 2 (10 ∷ 255 ∷ []);
      usb_bus = 1;
      usb_ports = 2 ∷ 10 ∷ 255 ∷ [];
      identifier = codes "usb:" ++ print_path 1 2 (10 ∷ 255 ∷ []);
    })
parse_device_selector-print_path_example =
    parse_device_selector-print_path (λ kind text. none) 1 2 (10 ∷ 255 ∷ []) (omega arith) refl
      (omega arith)

-- Two escapes make one letter of two bytes.
escaped_letter : decode_serial (codes "x%C3%A9") ≡ value (120 ∷ 0xC3 ∷ 0xA9 ∷ [])
unfolding decode_serial checked_utf8 decode_loop decoded_byte hex_digit valid_utf8 utf8_loop
    lead_class continued
escaped_letter = refl

-- An overlong form is none.
overlong : valid_utf8 (0xE0 ∷ 0x80 ∷ 0x80 ∷ []) ≡ false
unfolding valid_utf8 utf8_loop lead_class continued
overlong = refl
