-- ===== src/Core/Amount/Roundtrip.antt =====
-- `toStroops` reads back what `fromStroops` prints.
use native.Mathlib.Nat.{mod-lt, pow-suc, div-add-mod'}
use decant_fi.Common.{
  ℕ, zero, suc, ◌+◌, ◌*◌, ◌/◌, ◌%◌, ◌^◌, ◌<◌, ◌≡◌, refl, sym, subst, true, false, List, [], ◌∷◌,
  ◌++◌, arith, ap, ◌∙◌, length, take, replicate,
}
use decant_fi.Common.Int.{ℤ, pos, negsuc, ◌-ℤ◌}
use decant_fi.Core.Amount.{
  ok, digits_from, magnitude, signed, to_stroops, print, pad_start, strip_zeros, point_before,
  minus_if, from_stroops, skip_char, starts_with_minus,
}
use decant_fi.Core.Amount.Digits.{
  IsDigits, digits_from-print, length-print, print-IsDigits, length-print-pos,
  digits_from-pad_start, length-pad_start, pad_start-IsDigits, strip_zeros-IsDigits,
  take-strip_zeros,
}
use decant_fi.Core.Amount.Body.{
  printed, starts_with_minus-printed, matches_syntax-printed, matches_syntax-minus, is_bare-printed,
  is_bare-minus, trim-printed, trim-minus, before_point-printed, after_point-printed,
}

-- The fraction digits that are printed for a number below `10 ^ d`.
abbrev fraction : ℕ → ℕ → List ℕ
fraction d m = strip_zeros (pad_start d (print m))

fraction-IsDigits : (d m : ℕ) → IsDigits (fraction d m)
fraction-IsDigits d m = strip_zeros-IsDigits _ (pad_start-IsDigits d (print m) (print-IsDigits m))

digits_from-fraction :
    (d m : ℕ) → m < 10 ^ d → digits_from 0 (take d (fraction d m ++ replicate d b'0')) ≡ m
unfolding digits_from
digits_from-fraction zero m h = omega arith
digits_from-fraction (suc k) m h =
    let padded : List ℕ = pad_start (suc k) (print m) in
    let full : length padded ≡ suc k = length-pad_start (suc k) (print m) (length-print m k h) in
    let stripped : take (length padded) (strip_zeros padded ++ replicate (suc k) b'0') ≡ padded =
      take-strip_zeros padded (suc k) (omega arith) in
    ap (digits_from 0)
      (ap (λ n. take n (strip_zeros padded ++ replicate (suc k) b'0')) (sym full) ∙ stripped)
    ∙ digits_from-pad_start (suc k) (print m)
    ∙ digits_from-print m

module _ (c : ℕ) (s : List ℕ) (d m : ℕ) (whole : IsDigits (c ∷ s)) (below : m < 10 ^ d) where
  abbrev body : List ℕ
  body = printed c s (fraction d m)

  magnitude-printed : magnitude body d ≡ digits_from 0 (c ∷ s) * 10 ^ d + m
  unfolding magnitude
  magnitude-printed =
      rw
        (
          before_point-printed c s (fraction d m) whole (fraction-IsDigits d m),
          after_point-printed c s (fraction d m) whole (fraction-IsDigits d m),
          digits_from-fraction d m below,
        )
        refl

  to_stroops-printed : to_stroops body d ≡ ok (pos (digits_from 0 (c ∷ s) * 10 ^ d + m))
  unfolding to_stroops signed
  to_stroops-printed =
      rw
        (
          trim-printed c s (fraction d m) whole frac,
          starts_with_minus-printed c s (fraction d m) whole frac,
          matches_syntax-printed c s (fraction d m) whole frac,
          is_bare-printed c s (fraction d m) whole frac,
          magnitude-printed,
        )
        refl
    where
      frac : IsDigits (fraction d m)
      frac = fraction-IsDigits d m

  to_stroops-minus :
      to_stroops (b'-' ∷ body) d ≡ ok (signed true (digits_from 0 (c ∷ s) * 10 ^ d + m))
  unfolding to_stroops starts_with_minus skip_char
  to_stroops-minus =
      rw
        (
          trim-minus c s (fraction d m) whole frac,
          matches_syntax-minus c s (fraction d m) whole frac,
          is_bare-minus c s (fraction d m) whole frac,
          magnitude-printed,
        )
        refl
    where
      frac : IsDigits (fraction d m)
      frac = fraction-IsDigits d m

signed_plus : (n : ℕ) → signed false n ≡ pos n
unfolding signed
signed_plus n = refl

signed_minus : (n : ℕ) → signed true (suc n) ≡ negsuc n
unfolding signed ◌-ℤ◌
signed_minus n = ground arith

-- The digits of a whole part, with the first one named.
print-cons : (n : ℕ) → (c : ℕ) × (s : List ℕ) × (print n ≡ c ∷ s)
print-cons n = split (print n) (length-print-pos n)
  where
    split : (xs : List ℕ) → 0 < length xs → (c : ℕ) × (s : List ℕ) × (xs ≡ c ∷ s)
    split [] h = elim h [ ]
    split (c ∷ s) h = (c, s, refl)

pow-pos : (d : ℕ) → 0 < 10 ^ d
pow-pos zero = omega arith
pow-pos (suc d) = omega (arith, pow-pos d, pow-suc 10 d)

rejoin : (v d : ℕ) → v / 10 ^ d * 10 ^ d + v % 10 ^ d ≡ v
rejoin v d = div-add-mod' v (10 ^ d)

-- What the two conversions do to a magnitude.
module _ (v d : ℕ) where
  abbrev text : List ℕ
  text = print (v / 10 ^ d) ++ point_before (fraction d (v % 10 ^ d))

  module _ (c : ℕ) (s : List ℕ) (split : print (v / 10 ^ d) ≡ c ∷ s) where
    whole_part : digits_from 0 (c ∷ s) ≡ v / 10 ^ d
    whole_part = ap (digits_from 0) (sym split) ∙ digits_from-print (v / 10 ^ d)

    digits : IsDigits (c ∷ s)
    digits = subst IsDigits split (print-IsDigits (v / 10 ^ d))

    total : digits_from 0 (c ∷ s) * 10 ^ d + v % 10 ^ d ≡ v
    total = ap (λ w. w * 10 ^ d + v % 10 ^ d) whole_part ∙ rejoin v d

    to_stroops-split : to_stroops text d ≡ ok (pos v)
    to_stroops-split = rw split (
        to_stroops-printed c s d (v % 10 ^ d) digits (mod-lt v (pow-pos d))
        ∙ ap (λ w. ok (pos w)) total)

    to_stroops-minus_split : to_stroops (b'-' ∷ text) d ≡ ok (signed true v)
    to_stroops-minus_split = rw split (
        to_stroops-minus c s d (v % 10 ^ d) digits (mod-lt v (pow-pos d))
        ∙ ap (λ w. ok (signed true w)) total)

-- Printing an amount and reading the text gives the amount back, for every integer (negative ones
-- included) and every number of decimals.
pub to_stroops-from_stroops : (v : ℤ) (d : ℕ) → to_stroops (from_stroops v d) d ≡ ok v
unfolding from_stroops minus_if
to_stroops-from_stroops (pos n) d =
    let (c, s, e) = print-cons (n / 10 ^ d) in to_stroops-split n d c s e
to_stroops-from_stroops (negsuc n) d =
    let (c, s, e) = print-cons (suc n / 10 ^ d) in
    to_stroops-minus_split (suc n) d c s e ∙ ap ok (signed_minus n)
