-- ===== src/Fastboot/Variable/Printed.antt =====
-- The parser of variables on texts with white space around them and on printed numbers.
use kairos_boot.Base.{
  ℕ, zero, suc, ◌^◌, ◌<◌, ◌/◌, ◌%◌, ◌≡◌, refl, ap, ◌∙◌, Bytes, true, false, some, [], ◌∷◌, ◌++◌,
  length, arith, Bool-cases, inl, inr,
}
use kairos_boot.Base.Chars.{
  from_chars, FromChars, parsed, invalid_argument, result_out_of_range, hex, hex_digit,
  from_chars-hex, length-hex,
}
use kairos_boot.Fastboot.Variable.{
  is_whitespace, drop_leading, keep, drop_trailing, base_of, whole, u64_max, parse_trimmed,
  parse_unsigned_variable,
}

abbrev pub AllWhitespace : Bytes → Type 0
AllWhitespace [] = Unit {0}
AllWhitespace (c ∷ cs) = (is_whitespace c ≡ true) × AllWhitespace cs

drop_leading-append : (ws cs : Bytes) → AllWhitespace ws → drop_leading (ws ++ cs) ≡ drop_leading cs
unfolding drop_leading
drop_leading-append [] cs h = refl
drop_leading-append (w ∷ ws) cs h = rw h.0 (drop_leading-append ws cs h.1)

drop_trailing-whitespace : (ws : Bytes) → AllWhitespace ws → drop_trailing ws ≡ []
unfolding drop_trailing keep
drop_trailing-whitespace [] h = refl
drop_trailing-whitespace (w ∷ ws) h = ground (arith, drop_trailing-whitespace ws)

drop_leading-whitespace : (ws : Bytes) → AllWhitespace ws → drop_leading ws ≡ []
unfolding drop_leading
drop_leading-whitespace [] h = refl
drop_leading-whitespace (w ∷ ws) h = rw h.0 (drop_leading-whitespace ws h.1)

drop_trailing-append :
    (cs ws : Bytes) → AllWhitespace ws → drop_trailing (cs ++ ws) ≡ drop_trailing cs
unfolding drop_trailing
drop_trailing-append [] ws h = drop_trailing-whitespace ws h
drop_trailing-append (c ∷ cs) ws h = ap (keep c) (drop_trailing-append cs ws h)

trimmed-append :
    (cs ws : Bytes)
    → AllWhitespace ws
    → drop_trailing (drop_leading (cs ++ ws)) ≡ drop_trailing (drop_leading cs)
unfolding drop_leading
trimmed-append [] ws h = ap drop_trailing (drop_leading-whitespace ws h)
trimmed-append (c ∷ cs) ws h = elim (Bool-cases (is_whitespace c)) [
  | inl e ↦ rw e (trimmed-append cs ws h)
  | inr e ↦ rw e (drop_trailing-append (c ∷ cs) ws h)
]

-- White space before and after a value does not change what is read.
pub parse_unsigned_variable-append :
    (before value after : Bytes)
    → AllWhitespace before
    → AllWhitespace after
    → parse_unsigned_variable (before ++ (value ++ after)) ≡ parse_unsigned_variable value
unfolding parse_unsigned_variable
parse_unsigned_variable-append before value after h k = ap parse_trimmed (
    ap drop_trailing (drop_leading-append before (value ++ after) h) ∙ trimmed-append value after k)

pub whole-parsed : (f : FromChars) (n : ℕ) → whole f ≡ some n → f ≡ parsed n []
unfolding whole
whole-parsed (parsed m []) n h = ground arith
whole-parsed (parsed m (c ∷ cs)) n h = ground arith
whole-parsed invalid_argument n h = ground arith
whole-parsed (result_out_of_range rest) n h = ground arith

AllDigits : Bytes → Type 0
AllDigits [] = Unit {0}
AllDigits (c ∷ cs) = (is_whitespace c ≡ false) × AllDigits cs

AllDigits-append :
    (cs : Bytes) (c : ℕ) → AllDigits cs → is_whitespace c ≡ false → AllDigits (cs ++ c ∷ [])
unfolding AllDigits
AllDigits-append [] c h e = (e, tt)
AllDigits-append (d ∷ cs) c h e = (h.0, AllDigits-append cs c h.1 e)

is_whitespace-hex_digit : (d : ℕ) → d < 16 → is_whitespace (hex_digit d) ≡ false
unfolding is_whitespace hex_digit
is_whitespace-hex_digit d h = ground arith

hex-AllDigits : (k n : ℕ) → AllDigits (hex k n)
unfolding hex AllDigits
hex-AllDigits zero n = tt
hex-AllDigits (suc k) n =
    AllDigits-append (hex k (n / 16)) (hex_digit (n % 16)) (hex-AllDigits k (n / 16))
      (is_whitespace-hex_digit (n % 16) (omega arith))

keep-digit : (c : ℕ) (cs : Bytes) → is_whitespace c ≡ false → keep c cs ≡ c ∷ cs
unfolding keep
keep-digit c [] e = rw e refl
keep-digit c (d ∷ cs) e = refl

drop_trailing-AllDigits : (cs : Bytes) → AllDigits cs → drop_trailing cs ≡ cs
unfolding AllDigits drop_trailing keep
drop_trailing-AllDigits [] h = refl
drop_trailing-AllDigits (c ∷ cs) h = rw (drop_trailing-AllDigits cs h.1) (keep-digit c cs h.0)

base_of-prefix : (cs : Bytes) → 0 < length cs → base_of (48 ∷ 120 ∷ cs) ≡ (16, cs)
unfolding base_of
base_of-prefix [] h = absurd (omega arith)
base_of-prefix (d ∷ cs) h = refl

drop_leading-AllDigits :
    (cs : Bytes) → AllDigits cs → drop_trailing (drop_leading cs) ≡ drop_trailing cs
unfolding AllDigits drop_leading
drop_leading-AllDigits [] h = refl
drop_leading-AllDigits (c ∷ cs) h = rw h.0 refl

parse_trimmed-prefix :
    (cs : Bytes) (n : ℕ)
    → 0 < length cs
    → from_chars 16 u64_max cs ≡ parsed n []
    → parse_trimmed (48 ∷ 120 ∷ cs) ≡ some n
unfolding parse_trimmed whole
parse_trimmed-prefix cs n h e = rw (base_of-prefix cs h, e) refl

-- A number of 64 bits, printed behind 0x with digits enough and put between white space, is read back.
pub parse_unsigned_variable-hex :
    (before after : Bytes) (k n : ℕ)
    → AllWhitespace before
    → AllWhitespace after
    → n < 16 ^ suc k
    → n < 2 ^ 64
    → parse_unsigned_variable (before ++ ((48 ∷ 120 ∷ hex (suc k) n) ++ after)) ≡ some n
unfolding parse_unsigned_variable
parse_unsigned_variable-hex before after k n h g fits small =
    let cs = hex (suc k) n in
    let d : AllDigits (48 ∷ 120 ∷ cs) =
      unfold AllDigits is_whitespace in (refl, (refl, hex-AllDigits (suc k) n)) in
    parse_unsigned_variable-append before (48 ∷ 120 ∷ cs) after h g
    ∙ ap parse_trimmed
        (drop_leading-AllDigits (48 ∷ 120 ∷ cs) d ∙ drop_trailing-AllDigits (48 ∷ 120 ∷ cs) d)
    ∙ parse_trimmed-prefix cs n (omega (arith, length-hex (suc k) n))
        (from_chars-hex k n u64_max fits (omega arith))
