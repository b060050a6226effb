-- ===== src/Core/Amount.antt =====
-- core/amount.ts: exact conversion between decimal texts and stroops. A text is the list of its
-- code points; a `bigint` is an integer over the native numbers. `toStroops` is modelled on its
-- string argument (a JavaScript number is first printed by `humanFromNumber`).
pub mod Digits
pub mod Body
pub mod Roundtrip
mod Tests
use decant_fi.Common.{
  ℕ, zero, suc, ◌+◌, ◌-◌, ◌*◌, ◌/◌, ◌%◌, ◌^◌, Bool, true, false, not, ◌&&◌, ◌||◌, List, [], ◌∷◌,
  ◌++◌, Option, none, some, ltb, leb, ◌==◌, if◌then◌else◌, length, take, replicate,
}
use decant_fi.Common.Int.{ℤ, pos, negsuc, ◌-ℤ◌}

-- What a conversion throws: the message quotes the text.
pub data AmountError : Type 0 where
  invalid_amount : List ℕ → AmountError

pub data Parsed : Type 0 where
  ok : ℤ → Parsed
  err : AmountError → Parsed

pub decimals_default : ℕ
decimals_default = 7

abbrev pub pow10 : ℕ → ℕ
pow10 n = 10 ^ n

unfoldable pub is_digit : ℕ → Bool
is_digit c = leb b'0' c && leb c b'9'

-- The white space that `String.prototype.trim` removes.
unfoldable pub is_space : ℕ → Bool
is_space c =
    (leb 9 c && leb c 13)
    || c == 32
    || c == 0xa0
    || c == 0x1680
    || (leb 0x2000 c && leb c 0x200a)
    || c == 0x2028
    || c == 0x2029
    || c == 0x202f
    || c == 0x205f
    || c == 0x3000
    || c == 0xfeff

unfoldable pub trim_start : List ℕ → List ℕ
trim_start [] = []
trim_start (c ∷ s) = if is_space c then trim_start s else c ∷ s

unfoldable pub trim_end : List ℕ → List ℕ
trim_end [] = []
trim_end (c ∷ s) = elim (trim_end s) [ [] ↦ if is_space c then [] else c ∷ [] | d ∷ r ↦ c ∷ d ∷ r ]

unfoldable pub trim : List ℕ → List ℕ
unfolding trim_start trim_end
trim s = trim_end (trim_start s)

-- What is left behind the longest run of digits.
unfoldable pub skip_digits : List ℕ → List ℕ
unfolding is_digit
skip_digits [] = []
skip_digits (c ∷ s) = if is_digit c then skip_digits s else c ∷ s

unfoldable pub skip_char : ℕ → List ℕ → List ℕ
skip_char c [] = []
skip_char c (d ∷ s) = if d == c then s else d ∷ s

abbrev pub is_empty {ℓ} : {A : Type ℓ} → List A → Bool
is_empty [] = true
is_empty (x ∷ xs) = false

-- `/^-?\d*\.?\d*$/`
unfoldable pub matches_syntax : List ℕ → Bool
unfolding skip_digits skip_char
matches_syntax s = is_empty (skip_digits (skip_char b'.' (skip_digits (skip_char b'-' s))))

unfoldable pub is_bare : List ℕ → Bool
unfolding skip_char
is_bare s = is_empty (skip_char b'.' (skip_char b'-' s))

unfoldable pub starts_with_minus : List ℕ → Bool
starts_with_minus [] = false
starts_with_minus (c ∷ s) = c == b'-'

-- The two sides of the first point; the second side ends at a further point.
unfoldable pub before_point : List ℕ → List ℕ
before_point [] = []
before_point (c ∷ s) = if c == b'.' then [] else c ∷ before_point s

unfoldable pub after_point : List ℕ → List ℕ
unfolding before_point
after_point [] = []
after_point (c ∷ s) = if c == b'.' then before_point s else after_point s

-- `BigInt` of a run of digits, `BigInt('0')` of the empty text.
unfoldable pub digits_from : ℕ → List ℕ → ℕ
digits_from acc [] = acc
digits_from acc (c ∷ s) = digits_from (acc * 10 + (c - b'0')) s

unfoldable pub magnitude : List ℕ → ℕ → ℕ
unfolding digits_from before_point after_point
magnitude body decimals =
    digits_from 0 (before_point body) * pow10 decimals
    + digits_from 0 (take decimals (after_point body ++ replicate decimals b'0'))

unfoldable pub signed : Bool → ℕ → ℤ
signed neg v = if neg then pos 0 -ℤ pos v else pos v

unfoldable pub to_stroops : List ℕ → ℕ → Parsed
to_stroops human decimals =
    let s = trim human in
    let neg = starts_with_minus s in
    let body = if neg then skip_char b'-' s else s in
    if matches_syntax s && not (is_bare s)
    then ok (signed neg (magnitude body decimals))
    else err (invalid_amount human)

-- `BigInt.prototype.toString`, with the digits that follow. The fuel is more than the number, and
-- a division by ten brings it down.
unfoldable pub print_from : ℕ → ℕ → List ℕ → List ℕ
print_from zero n rest = rest
print_from (suc fuel) n rest =
    let more = print_from fuel (n / 10) ((n % 10 + b'0') ∷ rest) in
    if ltb n 10 then (n + b'0') ∷ rest else more

unfoldable pub print : ℕ → List ℕ
unfolding print_from
print n = print_from (suc n) n []

unfoldable pub pad_start : ℕ → List ℕ → List ℕ
pad_start width s = replicate (width - length s) b'0' ++ s

-- `.replace(/0+$/, '')`
unfoldable pub strip_zeros : List ℕ → List ℕ
strip_zeros [] = []
strip_zeros (c ∷ s) = elim (strip_zeros s) [
  | [] ↦ if c == b'0' then [] else c ∷ []
  | d ∷ r ↦ c ∷ d ∷ r
]

unfoldable pub point_before : List ℕ → List ℕ
point_before [] = []
point_before (c ∷ s) = b'.' ∷ c ∷ s

unfoldable pub minus_if : ℤ → List ℕ
minus_if (pos n) = []
minus_if (negsuc n) = b'-' ∷ []

-- `neg ? -s : s`
abbrev pub unsigned : ℤ → ℕ
unsigned (pos n) = n
unsigned (negsuc n) = suc n

unfoldable pub from_stroops : ℤ → ℕ → List ℕ
from_stroops s decimals =
    let v = unsigned s in
    let base = pow10 decimals in
    minus_if s
    ++ (print (v / base) ++ point_before (strip_zeros (pad_start decimals (print (v % base)))))
