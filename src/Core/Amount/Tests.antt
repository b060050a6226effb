-- ===== src/Core/Amount/Tests.antt =====
-- Exact amounts at concrete inputs.
use decant_fi.Common.{◌≡◌, refl, codes}
use decant_fi.Common.Int.{pos, negsuc, ◌-ℤ◌}
use decant_fi.Core.Amount.{
  to_stroops, from_stroops, ok, err, invalid_amount, trim, trim_start, trim_end, is_space, is_digit,
  skip_digits, skip_char, matches_syntax, is_bare, starts_with_minus, before_point, after_point,
  digits_from, magnitude, signed,
}
use decant_fi.Core.Amount.Roundtrip.{to_stroops-from_stroops}

guard : Unit {0}
unfolding to_stroops from_stroops trim trim_start trim_end is_space is_digit skip_digits skip_char
    matches_syntax is_bare starts_with_minus before_point after_point digits_from magnitude signed
    ◌-ℤ◌
guard = tt

-- The examples of the source's own tests.
decimal : to_stroops (codes "1.5") 7 ≡ ok (pos 15_000_000)
unfolding guard
decimal = refl

cut : to_stroops (codes " -0.12345678 ") 7 ≡ ok (pos 0 -ℤ pos 1_234_567)
unfolding guard
cut = refl

point_only : to_stroops (codes ".") 7 ≡ err (invalid_amount (codes "."))
unfolding guard
point_only = refl

to_stroops-from_stroops_example :
    to_stroops (from_stroops (negsuc 15_000_249) 7) 7 ≡ ok (negsuc 15_000_249)
to_stroops-from_stroops_example = to_stroops-from_stroops (negsuc 15_000_249) 7
