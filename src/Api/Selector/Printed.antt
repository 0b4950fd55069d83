-- ===== src/Api/Selector/Printed.antt =====
-- USB paths as they are printed, and `parse_device_selector` on them.
use kairos_boot.Base.{
  ℕ, zero, suc, ◌+◌, ◌/◌, ◌%◌, ◌≤◌, ◌<◌, ◌≡◌, refl, ap, Bytes, Bool, Bool-cases, inl, inr, true,
  false, ◌&&◌, not, Option, none, some, List, [], ◌∷◌, ◌++◌, length, length-append, codes, arith,
  String, if◌then◌else◌, ltb, ◌==◌, ==_iff,
}
use mathlib.Core.List.{append_assoc}
use kairos_boot.Base.Chars.{from_chars, digit_run, digit_in, digit_value}
use kairos_boot.Base.Expected.{value}
use kairos_boot.Api.Selector.{
  SelectorKind, usb_path, Selector, split_dash, split_dots, in_front, parse_component,
  component_value, ports_loop, usb_path_selector, parse_bus_and_ports, parse_usb_path,
  parse_device_selector, parse_text, after_prefix,
}

abbrev digit : ℕ → ℕ
digit d = 48 + d

-- A byte in decimal, without leading zeros.
unfoldable pub decimal : ℕ → Bytes
decimal n =
    if ltb n 10
    then digit n ∷ []
    else if ltb n 100
    then digit (n / 10) ∷ digit (n % 10) ∷ []
    else digit (n / 100) ∷ digit (n / 10 % 10) ∷ digit (n % 10) ∷ []

-- The ports, with dots between them.
unfoldable pub dotted : ℕ → List ℕ → Bytes
dotted p [] = decimal p
dotted p (q ∷ ps) = decimal p ++ b'.' ∷ dotted q ps

unfoldable pub print_path : ℕ → ℕ → List ℕ → Bytes
print_path bus p ps = decimal bus ++ b'-' ∷ dotted p ps

abbrev is_read : Bool → ℕ → Option ℕ → Bool
is_read allow_zero n none = not allow_zero && n == 0
is_read allow_zero n (some m) = m == n

-- No byte of it is a dash, a dot or the letter s.
abbrev is_plain : Bytes → Bool
is_plain [] = true
is_plain (c ∷ cs) = not (c == b'-') && not (c == b'.') && not (c == b's') && is_plain cs

abbrev all_read : ℕ → Bool
all_read zero = true
all_read (suc n) =
    not (length (decimal n) == 0)
    && is_read true n (parse_component true (decimal n))
    && is_read false n (parse_component false (decimal n))
    && is_plain (decimal n)
    && all_read n

all_bytes_read : all_read 256 ≡ true
unfolding decimal parse_component component_value from_chars digit_run digit_in digit_value
all_bytes_read = refl

all_read_below :
    (m n : ℕ)
    → all_read m ≡ true
    → n < m
    → (not (length (decimal n) == 0) ≡ true)
      × (is_read true n (parse_component true (decimal n)) ≡ true)
      × (is_read false n (parse_component false (decimal n)) ≡ true)
      × (is_plain (decimal n) ≡ true)
all_read_below zero n h l = absurd (omega arith)
all_read_below (suc m) n h l = elim (Bool-cases (n == m)) [
  | inl e ↦ rw ((==_iff n m).0 e) (ground arith)
  | inr e ↦ all_read_below m n (ground arith) (ground arith)
]

read_value :
    (allow_zero : Bool) (n : ℕ) (x : Option ℕ)
    → is_read allow_zero n x ≡ true
    → (not allow_zero && n == 0) ≡ false
    → x ≡ some n
read_value allow_zero n none h z = absurd (ground arith)
read_value allow_zero n (some m) h z = ap some ((==_iff m n).0 h)

pub parse_component-decimal : (n : ℕ) → n < 256 → parse_component true (decimal n) ≡ some n
parse_component-decimal n h = read_value true n _ (all_read_below 256 n all_bytes_read h).1 refl

pub parse_port-decimal : (n : ℕ) → n < 256 → 0 < n → parse_component false (decimal n) ≡ some n
parse_port-decimal n h pos =
    read_value false n _ (all_read_below 256 n all_bytes_read h).2 (ground arith)

split_dash-plain :
    (xs ys : Bytes) → is_plain xs ≡ true → split_dash (xs ++ b'-' ∷ ys) ≡ (xs, some ys)
unfolding split_dash
split_dash-plain [] ys h = refl
split_dash-plain (c ∷ cs) ys h =
    let e : (c == b'-') ≡ false = ground arith in rw (e, split_dash-plain cs ys (ground arith)) refl

split_dots-plain :
    (xs ys : Bytes) → is_plain xs ≡ true → split_dots (xs ++ b'.' ∷ ys) ≡ xs ∷ split_dots ys
unfolding split_dots in_front
split_dots-plain [] ys h = refl
split_dots-plain (c ∷ cs) ys h =
    let e : (c == b'.') ≡ false = ground arith in rw (e, split_dots-plain cs ys (ground arith)) refl

split_dots-last : (xs : Bytes) → is_plain xs ≡ true → split_dots xs ≡ xs ∷ []
unfolding split_dots in_front
split_dots-last [] h = refl
split_dots-last (c ∷ cs) h =
    let e : (c == b'.') ≡ false = ground arith in rw (e, split_dots-last cs (ground arith)) refl

-- Ports: bytes, and not zero.
abbrev pub are_ports : List ℕ → Bool
are_ports [] = true
are_ports (p ∷ ps) = ltb 0 p && ltb p 256 && are_ports ps

ports_loop_step :
    (p : ℕ) (ps : List Bytes) (acc : List ℕ)
    → (ltb 0 p && ltb p 256) ≡ true
    → length acc < 7
    → ports_loop (decimal p ∷ ps) acc ≡ ports_loop ps (acc ++ p ∷ [])
unfolding ports_loop
ports_loop_step p ps acc h l =
    let e : ltb 7 (length (acc ++ p ∷ [])) ≡ false = ground (arith, length-append acc (p ∷ [])) in
    rw (ports_loop, parse_port-decimal p (ground arith) (ground arith), e) refl

ports_loop-dotted :
    (p : ℕ) (ps acc : List ℕ)
    → are_ports (p ∷ ps) ≡ true
    → length acc + suc (length ps) ≤ 7
    → ports_loop (split_dots (dotted p ps)) acc ≡ value (acc ++ p ∷ ps)
unfolding dotted
ports_loop-dotted p [] acc h l =
    rw
      (
        split_dots-last (decimal p) (all_read_below 256 p all_bytes_read (ground arith)).3,
        ports_loop_step p [] acc (ground arith) (omega arith),
      )
      (unfold ports_loop in refl)
ports_loop-dotted p (q ∷ ps) acc h l =
    rw
      (
        split_dots-plain (decimal p) (dotted q ps)
            (all_read_below 256 p all_bytes_read (ground arith)).3,
        ports_loop_step p (split_dots (dotted q ps)) acc (ground arith) (omega arith),
        ports_loop-dotted q ps (acc ++ p ∷ []) (ground arith)
            (omega (arith, length-append acc (p ∷ []))),
        append_assoc acc (p ∷ []) (q ∷ ps),
      )
      refl

abbrev path_selector : ℕ → List ℕ → Bytes → Selector
path_selector bus ports text = record {
  kind = usb_path;
  text = text;
  usb_bus = bus;
  usb_ports = ports;
  identifier = codes "usb:" ++ text;
}

bus_and_ports :
    (text xs ys : Bytes) (bus : ℕ) (ports : List ℕ)
    → not (length xs == 0) ≡ true
    → not (length ys == 0) ≡ true
    → parse_component true xs ≡ some bus
    → ports_loop (split_dots ys) [] ≡ value ports
    → parse_bus_and_ports text xs ys ≡ value (path_selector bus ports text)
unfolding parse_bus_and_ports
bus_and_ports text [] ys bus ports h k b p = absurd (ground arith)
bus_and_ports text (x ∷ xs) [] bus ports h k b p = absurd (ground arith)
bus_and_ports text (x ∷ xs) (y ∷ ys) bus ports h k b p =
    rw (parse_bus_and_ports, b, p) (unfold usb_path_selector in refl)

dotted_nonempty : (p : ℕ) (ps : List ℕ) → p < 256 → not (length (dotted p ps) == 0) ≡ true
unfolding dotted
dotted_nonempty p [] h = (all_read_below 256 p all_bytes_read h).0
dotted_nonempty p (q ∷ ps) h = ground (
  arith,
  (all_read_below 256 p all_bytes_read h).0,
  length-append (decimal p) (b'.' ∷ dotted q ps),
)

parse_usb_path-split_dash :
    (text xs ys : Bytes)
    → split_dash text ≡ (xs, some ys)
    → parse_usb_path text ≡ parse_bus_and_ports text xs ys
unfolding parse_usb_path
parse_usb_path-split_dash text xs ys h =
    let behind : (split_dash text).1 ≡ some ys = ap (λ x. x.1) h in
    let before : (split_dash text).0 ≡ xs = ap (λ x. x.0) h in
    rw (parse_usb_path, behind, before) refl

parse_usb_path-print_path :
    (bus p : ℕ) (ps : List ℕ)
    → bus < 256
    → are_ports (p ∷ ps) ≡ true
    → length ps ≤ 6
    → parse_usb_path (print_path bus p ps)
      ≡ value (path_selector bus (p ∷ ps) (print_path bus p ps))
unfolding print_path
parse_usb_path-print_path bus p ps h k l =
    rw
      (parse_usb_path-split_dash (print_path bus p ps) (decimal bus) (dotted p ps)
        (split_dash-plain (decimal bus) (dotted p ps) (all_read_below 256 bus all_bytes_read h).3))
      (bus_and_ports (decimal bus ++ b'-' ∷ dotted p ps) (decimal bus) (dotted p ps) bus (p ∷ ps)
        (all_read_below 256 bus all_bytes_read h).0 (dotted_nonempty p ps (ground arith))
        (parse_component-decimal bus h) (ports_loop-dotted p ps [] k (omega arith)))

-- Behind "usb:", a text that does not begin with s is no serial.
no_serial :
    (xs ys : Bytes)
    → is_plain xs ≡ true
    → not (length xs == 0) ≡ true
    → after_prefix (codes "usb:serial:") (codes "usb:" ++ (xs ++ ys)) ≡ none
unfolding after_prefix
no_serial [] ys h k = absurd (ground arith)
no_serial (x ∷ xs) ys h k = let e : (x == b's') ≡ false = ground arith in rw e refl

after_usb : (xs : Bytes) → after_prefix (codes "usb:") (codes "usb:" ++ xs) ≡ some xs
unfolding after_prefix
after_usb xs = refl

-- A USB path, of a bus and one to seven ports that are bytes and not zero, is read back from its text.
pub parse_device_selector-print_path :
    (refusal : SelectorKind → Bytes → Option String) (bus p : ℕ) (ps : List ℕ)
    → bus < 256
    → are_ports (p ∷ ps) ≡ true
    → length ps ≤ 6
    → parse_device_selector refusal (some (codes "usb:" ++ print_path bus p ps))
      ≡ value (path_selector bus (p ∷ ps) (print_path bus p ps))
unfolding parse_device_selector parse_text print_path
parse_device_selector-print_path refusal bus p ps h k l =
    let all = all_read_below 256 bus all_bytes_read h in
    let n : after_prefix (codes "usb:serial:") (codes "usb:" ++ print_path bus p ps) ≡ none =
      unfold print_path in no_serial (decimal bus) (b'-' ∷ dotted p ps) all.3 all.0 in
    rw (parse_text, n, after_usb (print_path bus p ps)) (parse_usb_path-print_path bus p ps h k l)
