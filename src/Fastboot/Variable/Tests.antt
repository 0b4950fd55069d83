-- ===== src/Fastboot/Variable/Tests.antt =====
-- Values that devices report, read.
use kairos_boot.Base.{◌≡◌, refl, none, some, ◌∷◌, ◌++◌, codes, arith}
use kairos_boot.Base.Chars.{hex, from_chars, digit_run, digit_in}
use kairos_boot.Fastboot.Variable.{
  parse_unsigned_variable, drop_leading, drop_trailing, keep, is_whitespace,
}
use kairos_boot.Fastboot.Variable.Read.{IsVariable, parse_unsigned_variable_sound}
use kairos_boot.Fastboot.Variable.Printed.{
  parse_unsigned_variable-append, parse_unsigned_variable-hex,
}

size : parse_unsigned_variable (codes " 0x1F ") ≡ some 31
unfolding parse_unsigned_variable drop_leading drop_trailing keep is_whitespace from_chars digit_run
    digit_in
size = refl

-- A prefix without digits is no number.
bare_prefix : parse_unsigned_variable (codes "0x") ≡ none
unfolding parse_unsigned_variable drop_leading drop_trailing keep is_whitespace from_chars digit_run
    digit_in
bare_prefix = refl

parse_unsigned_variable-append_example :
    parse_unsigned_variable (codes " " ++ (codes "12" ++ codes " "))
    ≡ parse_unsigned_variable (codes "12")
unfolding is_whitespace
parse_unsigned_variable-append_example =
    parse_unsigned_variable-append (codes " ") (codes "12") (codes " ") (refl, tt) (refl, tt)

parse_unsigned_variable_sound_example : IsVariable (codes " 0x1F ") 31
parse_unsigned_variable_sound_example = parse_unsigned_variable_sound (codes " 0x1F ") 31 size

parse_unsigned_variable-hex_example :
    parse_unsigned_variable (codes " " ++ ((48 ∷ 120 ∷ hex 8 4096) ++ codes " ")) ≡ some 4096
unfolding is_whitespace
parse_unsigned_variable-hex_example =
    parse_unsigned_variable-hex (codes " ") (codes " ") 7 4096 (refl, tt) (refl, tt) (omega arith)
      (omega arith)
