-- ===== src/Fastboot/Variable/Read.antt =====
-- What the parser of variables reads, beside the text between the white space.
use kairos_boot.Base.{
  ℕ, ◌^◌, ◌<◌, ◌≡◌, ◌⊎◌, refl, ap, ◌∙◌, Bytes, some, [], ◌∷◌, ◌++◌, arith, Bool-cases, inl, inr,
  ◌==◌, ◌&&◌, ◌||◌,
}
use kairos_boot.Base.Chars.{from_chars, from_chars-le}
use kairos_boot.Base.Chars.Read.{IsNumeral, from_chars-IsNumeral}
use kairos_boot.Fastboot.Variable.{
  is_whitespace, drop_leading, keep, drop_trailing, base_of, u64_max, parse_trimmed,
  parse_unsigned_variable,
}
use kairos_boot.Fastboot.Variable.Printed.{AllWhitespace, whole-parsed}

-- A number in decimal digits, or in hexadecimal ones behind 0x or 0X.
abbrev pub IsNumber : ℕ → Bytes → Type 0
IsNumber n text =
    IsNumeral 10 n text
    ⊎ ((x : ℕ) × (digits : Bytes) × (text ≡ b'0' ∷ x ∷ digits)
        × ((x ≡ b'x') ⊎ (x ≡ b'X'))
        × IsNumeral 16 n digits)

-- White space around a number that fits in 64 bits.
pub record IsVariable (value : Bytes) (n : ℕ) : Type 0 where
  pub before : Bytes
  pub text : Bytes
  pub after : Bytes
  pub whole : value ≡ before ++ (text ++ after)
  pub blank_before : AllWhitespace before
  pub blank_after : AllWhitespace after
  pub number : IsNumber n text
  pub fits : n < 2 ^ 64

drop_leading-split : (cs : Bytes) → (ws : Bytes) × (cs ≡ ws ++ drop_leading cs) × AllWhitespace ws
unfolding drop_leading
drop_leading-split [] = ([], refl, tt)
drop_leading-split (c ∷ cs) = elim (Bool-cases (is_whitespace c)) [
  | inl e ↦ let (ws, p, h) = drop_leading-split cs in rw e (c ∷ ws, ap (λ t. c ∷ t) p, (e, h))
  | inr e ↦ rw e ([], refl, tt)
]

keep-split :
    (c : ℕ) (cs ws : Bytes)
    → AllWhitespace ws
    → (us : Bytes) × (c ∷ (cs ++ ws) ≡ keep c cs ++ us) × AllWhitespace us
unfolding keep
keep-split c [] ws h = elim (Bool-cases (is_whitespace c)) [
  | inl e ↦ rw e (c ∷ ws, refl, (e, h))
  | inr e ↦ rw e (ws, refl, h)
]
keep-split c (d ∷ cs) ws h = (ws, refl, h)

drop_trailing-split : (cs : Bytes) → (ws : Bytes) × (cs ≡ drop_trailing cs ++ ws) × AllWhitespace ws
unfolding drop_trailing
drop_trailing-split [] = ([], refl, tt)
drop_trailing-split (c ∷ cs) =
    let (ws, p, h) = drop_trailing-split cs in
    let (us, q, k) = keep-split c (drop_trailing cs) ws h in (us, ap (λ t. c ∷ t) p ∙ q, k)

-- The digits that the base is for.
base_of-IsNumber :
    (n : ℕ) (text : Bytes) → IsNumeral (base_of text).0 n (base_of text).1 → IsNumber n text
unfolding base_of
base_of-IsNumber n [] h = inl h
base_of-IsNumber n (z ∷ []) h = inl h
base_of-IsNumber n (z ∷ x ∷ []) h = inl h
base_of-IsNumber n (z ∷ x ∷ d ∷ cs) h = elim (Bool-cases (z == 48 && (x == 120 || x == 88))) [
  | inl e ↦
      let k : IsNumeral 16 n (d ∷ cs) = rw e at h in
      let zero_first : z ≡ 48 = ground arith in
      let prefix : (x ≡ 120) ⊎ (x ≡ 88) = ground arith in
      inr (x, d ∷ cs, rw zero_first refl, prefix, k)
  | inr e ↦ inl (rw e at h)
]

-- What is read is the value of a number of 64 bits that the text is, but for white space around it: digits that are
-- decimal, or hexadecimal behind 0x or 0X, and nothing else.
pub parse_unsigned_variable_sound :
    (value : Bytes) (n : ℕ) → parse_unsigned_variable value ≡ some n → IsVariable value n
unfolding parse_unsigned_variable parse_trimmed
parse_unsigned_variable_sound value n h =
    let text = drop_trailing (drop_leading value) in
    let r = base_of text in
    let e = whole-parsed (from_chars r.0 u64_max r.1) n h in
    let (before, p, blank) = drop_leading-split value in
    let (after, q, clear) = drop_trailing-split (drop_leading value) in
    record {
      before = before;
      text = text;
      after = after;
      whole = p ∙ ap (λ t. before ++ t) q;
      blank_before = blank;
      blank_after = clear;
      number = base_of-IsNumber n text (from_chars-IsNumeral r.0 u64_max n r.1 e);
      fits = omega (arith, from_chars-le r.0 u64_max r.1 e);
    }
