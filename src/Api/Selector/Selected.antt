-- ===== src/Api/Selector/Selected.antt =====
-- `select_usb_device` and the devices that a selector names.
use kairos_boot.Base.{
  ◌≡◌, ◌⊎◌, refl, ap, Bool, Bool-cases, inl, inr, true, false, none, some, List, [], ◌∷◌,
  if◌then◌else◌, bytes_eq, ◌==◌, ◌&&◌,
}
use kairos_boot.Base.Expected.{Expected, value, unexpected}
use kairos_boot.Api.Operation.{Status, e_invalid_argument, e_no_device, e_ambiguous_device}
use kairos_boot.Api.Selector.{
  SelectorKind, usb_unique, usb_serial, usb_path, tcp, udp, Selector, SelectorError, UsbDevice,
  matches, match_loop, select_unique, select_usb_device,
}

-- The devices that a selector names: all of them where it asks for the only one, none for a network's.
abbrev named : Selector → UsbDevice → Bool
named sel d = elim sel.kind [
  | usb_unique ↦ true
  | usb_serial ↦ bytes_eq d.serial_utf8 sel.text
  | usb_path ↦ d.bus_number == sel.usb_bus && bytes_eq d.port_path sel.usb_ports
  | tcp ↦ false
  | udp ↦ false
]

unfoldable pub candidates : Selector → List UsbDevice → List UsbDevice
candidates sel [] = []
candidates sel (d ∷ ds) = let rest = candidates sel ds in if named sel d then d ∷ rest else rest

abbrev pub is_network : SelectorKind → Bool
is_network tcp = true
is_network udp = true
is_network _ = false

-- The answer for the candidates: the only one, or the status of the error.
unfoldable pub answer : Bool → List UsbDevice → Status ⊎ UsbDevice
answer true ds = inl e_invalid_argument
answer false [] = inl e_no_device
answer false (d ∷ []) = inr d
answer false (d ∷ e ∷ ds) = inl e_ambiguous_device

abbrev pub outcome : Expected UsbDevice SelectorError → Status ⊎ UsbDevice
outcome (value d) = inr d
outcome (unexpected e) = inl e.status

module _ (sel : Selector) where
  -- Behind a match.
  match_loop_second :
      (m : UsbDevice) (ds : List UsbDevice)
      → ((d : UsbDevice) → matches sel d ≡ named sel d)
      → outcome (match_loop sel (some m) ds) ≡ answer false (m ∷ candidates sel ds)
  unfolding match_loop candidates answer
  match_loop_second m [] h = refl
  match_loop_second m (d ∷ ds) h = elim (Bool-cases (matches sel d)) [
    | inl e ↦ rw (← h d, e) refl
    | inr e ↦ rw (← h d, e) (match_loop_second m ds h)
  ]

  match_loop_first :
      (ds : List UsbDevice)
      → ((d : UsbDevice) → matches sel d ≡ named sel d)
      → outcome (match_loop sel none ds) ≡ answer false (candidates sel ds)
  unfolding match_loop candidates answer
  match_loop_first [] h = refl
  match_loop_first (d ∷ ds) h = elim (Bool-cases (matches sel d)) [
    | inl e ↦ rw (← h d, e) (match_loop_second d ds h)
    | inr e ↦ rw (← h d, e) (match_loop_first ds h)
  ]

  candidates_all :
      (ds : List UsbDevice) → ((d : UsbDevice) → named sel d ≡ true) → candidates sel ds ≡ ds
  unfolding candidates
  candidates_all [] h = refl
  candidates_all (d ∷ ds) h = rw (h d) (ap (λ t. d ∷ t) (candidates_all ds h))

select_unique_lem : (ds : List UsbDevice) → outcome (select_unique ds) ≡ answer false ds
unfolding select_unique answer
select_unique_lem [] = refl
select_unique_lem (d ∷ []) = refl
select_unique_lem (d ∷ e ∷ ds) = refl

by_kind :
    (kind : SelectorKind) (ds : List UsbDevice) (sel : Selector)
    → sel.kind ≡ kind
    → outcome (select_usb_device ds sel) ≡ answer (is_network kind) (candidates sel ds)
unfolding select_usb_device matches
by_kind usb_unique ds sel e =
    rw (candidates_all sel ds (λ d. rw e refl), select_usb_device, e) (select_unique_lem ds)
by_kind usb_serial ds sel e = simp (select_usb_device, e) (match_loop_first sel ds (λ d. rw e refl))
by_kind usb_path ds sel e = simp (select_usb_device, e) (match_loop_first sel ds (λ d. rw e refl))
by_kind tcp ds sel e = simp (select_usb_device, e) (unfold answer in refl)
by_kind udp ds sel e = simp (select_usb_device, e) (unfold answer in refl)

-- A device is selected exactly where it is the only one that the selector names, by its serial, by its bus and
-- ports, or as any device; otherwise the error says that there is none or that there are several. A
-- selector of a network is an invalid argument.
pub select_usb_device-answer :
    (ds : List UsbDevice) (sel : Selector)
    → outcome (select_usb_device ds sel) ≡ answer (is_network sel.kind) (candidates sel ds)
select_usb_device-answer ds sel = by_kind sel.kind ds sel refl
