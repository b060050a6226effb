-- ===== src/Core/Amount/Body.antt =====
-- How the scanner of `toStroops` reads a text of the form `digits[.digits]`, with or without a sign.
use decant_fi.Common.{ℕ, ◌≡◌, refl, true, false, List, [], ◌∷◌, ◌++◌, arith, All, ap, ◌∙◌}
use decant_fi.Core.Amount.{
  is_digit, is_space, trim_start, trim_end, trim, skip_digits, skip_char, is_empty, matches_syntax,
  is_bare, starts_with_minus, before_point, after_point, point_before,
}
use decant_fi.Core.Amount.Digits.{IsDigits}

abbrev IsPlain : List ℕ → Type 0
IsPlain s = All (λ c. is_space c ≡ false) s

IsDigits-IsPlain : (s : List ℕ) → IsDigits s → IsPlain s
unfolding is_digit is_space
IsDigits-IsPlain [] h = tt
IsDigits-IsPlain (c ∷ s) h = (ground arith, IsDigits-IsPlain s h.1)

IsPlain-append : (s t : List ℕ) → IsPlain s → IsPlain t → IsPlain (s ++ t)
IsPlain-append [] t h k = k
IsPlain-append (c ∷ s) t h k = (h.0, IsPlain-append s t h.1 k)

point_before-IsPlain : (f : List ℕ) → IsDigits f → IsPlain (point_before f)
unfolding point_before is_space
point_before-IsPlain [] h = tt
point_before-IsPlain (c ∷ f) h = (refl, IsDigits-IsPlain (c ∷ f) h)

trim_start_plain : (s : List ℕ) → IsPlain s → trim_start s ≡ s
unfolding trim_start
trim_start_plain [] h = refl
trim_start_plain (c ∷ s) h = rw (h.0) refl

trim_end_plain : (s : List ℕ) → IsPlain s → trim_end s ≡ s
unfolding trim_end
trim_end_plain [] h = refl
trim_end_plain (c ∷ []) h = rw (h.0) refl
trim_end_plain (c ∷ d ∷ s) h = rw (trim_end_plain (d ∷ s) h.1, trim_end) refl

trim_plain : (s : List ℕ) → IsPlain s → trim s ≡ s
unfolding trim
trim_plain s h = ap trim_end (trim_start_plain s h) ∙ trim_end_plain s h

skip_digits-append : (s t : List ℕ) → IsDigits s → skip_digits (s ++ t) ≡ skip_digits t
unfolding skip_digits
skip_digits-append [] t h = refl
skip_digits-append (c ∷ s) t h = rw (h.0) (skip_digits-append s t h.1)

skip_digits_all : (s : List ℕ) → IsDigits s → skip_digits s ≡ []
unfolding skip_digits
skip_digits_all [] h = refl
skip_digits_all (c ∷ s) h = rw (h.0) (skip_digits_all s h.1)

skip_digits-point :
    (f : List ℕ) → IsDigits f → skip_digits (skip_char b'.' (skip_digits (point_before f))) ≡ []
unfolding skip_digits skip_char point_before
skip_digits-point [] h = refl
skip_digits-point (c ∷ f) h = rw (h.0) (skip_digits_all f h.1)

before_point_all : (s : List ℕ) → IsDigits s → before_point s ≡ s
unfolding before_point is_digit
before_point_all [] h = refl
before_point_all (c ∷ s) h = ground (arith, before_point_all s h.1)

before_point-append : (s f : List ℕ) → IsDigits s → before_point (s ++ point_before f) ≡ s
unfolding before_point point_before is_digit
before_point-append [] [] h = refl
before_point-append [] (d ∷ f) h = refl
before_point-append (c ∷ s) f h = ground (arith, before_point-append s f h.1)

after_point-append :
    (s f : List ℕ) → IsDigits s → IsDigits f → after_point (s ++ point_before f) ≡ f
unfolding after_point point_before is_digit
after_point-append [] [] h k = refl
after_point-append [] (d ∷ f) h k = before_point_all (d ∷ f) k
after_point-append (c ∷ s) f h k = ground (arith, after_point-append s f h.1 k)

abbrev pub printed : ℕ → List ℕ → List ℕ → List ℕ
printed c s f = (c ∷ s) ++ point_before f

-- A printed text: a digit, more digits, and possibly a point with digits behind it.
module _ (c : ℕ) (s f : List ℕ) (whole : IsDigits (c ∷ s)) (frac : IsDigits f) where
  skip_minus : skip_char b'-' (printed c s f) ≡ printed c s f
  unfolding skip_char is_digit
  skip_minus = ground (arith, whole.0)

  pub starts_with_minus-printed : starts_with_minus (printed c s f) ≡ false
  unfolding starts_with_minus is_digit
  starts_with_minus-printed = ground (arith, whole.0)

  unsigned_syntax : is_empty (skip_digits (skip_char b'.' (skip_digits (printed c s f)))) ≡ true
  unsigned_syntax =
      rw (skip_digits-append (c ∷ s) (point_before f) whole, skip_digits-point f frac) refl

  pub matches_syntax-printed : matches_syntax (printed c s f) ≡ true
  unfolding matches_syntax
  matches_syntax-printed = rw skip_minus unsigned_syntax

  pub matches_syntax-minus : matches_syntax (b'-' ∷ printed c s f) ≡ true
  unfolding matches_syntax skip_char
  matches_syntax-minus = unsigned_syntax

  bare_unsigned : is_empty (skip_char b'.' (printed c s f)) ≡ false
  unfolding skip_char is_digit
  bare_unsigned = ground (arith, whole.0)

  pub is_bare-printed : is_bare (printed c s f) ≡ false
  unfolding is_bare
  is_bare-printed = rw skip_minus bare_unsigned

  pub is_bare-minus : is_bare (b'-' ∷ printed c s f) ≡ false
  unfolding is_bare skip_char
  is_bare-minus = bare_unsigned

  printed-IsPlain : IsPlain (printed c s f)
  printed-IsPlain =
      IsPlain-append (c ∷ s) (point_before f) (IsDigits-IsPlain (c ∷ s) whole)
        (point_before-IsPlain f frac)

  pub trim-printed : trim (printed c s f) ≡ printed c s f
  trim-printed = trim_plain (printed c s f) printed-IsPlain

  pub trim-minus : trim (b'-' ∷ printed c s f) ≡ b'-' ∷ printed c s f
  unfolding is_space
  trim-minus = trim_plain (b'-' ∷ printed c s f) (refl, printed-IsPlain)

  pub before_point-printed : before_point (printed c s f) ≡ c ∷ s
  before_point-printed = before_point-append (c ∷ s) f whole

  pub after_point-printed : after_point (printed c s f) ≡ f
  after_point-printed = after_point-append (c ∷ s) f whole frac
