-- ===== src/Common/Float.antt =====
-- The operations of JavaScript's `number` type that the program uses on fractions: prices, rates,
-- percentages and human amounts. They are a parameter of what uses them, with no law assumed, so
-- that what is proved holds whatever the rounding is. `fixed` is a value of the interface for
-- examples: decimal fixed point with nine places.
use decant_fi.Common.{
  ℕ, zero, suc, ◌+◌, ◌-◌, ◌*◌, ◌/◌, ◌%◌, ◌^◌, Bool, true, List, [], ◌∷◌, Option, some, String,
  codes, ◌==◌, if◌then◌else◌,
}
use decant_fi.Common.Int.{ℤ, pos, negsuc, ◌+ℤ◌, ◌-ℤ◌, ◌*ℤ◌, ltb_ℤ, leb_ℤ}

pub record Floats : Type 1 where
  pub Num : Type 0
  -- `Number(b)` of a bigint
  pub of_big : ℤ → Num
  -- the literal `m / 10 ** k`
  pub lit : ℕ → ℕ → Num
  pub add : Num → Num → Num
  pub sub : Num → Num → Num
  pub mul : Num → Num → Num
  pub div : Num → Num → Num
  -- `a < b`, false if either is NaN
  pub lt : Num → Num → Bool
  -- `a <= b`, false if either is NaN
  pub le : Num → Num → Bool
  pub is_finite : Num → Bool
  -- `parseFloat(s)`
  pub parse_float : String → Num
  -- `BigInt(Math.ceil(x))`; none where `BigInt` throws
  pub ceil_big : Num → Option ℤ
  -- `x.toFixed(d)`
  pub to_fixed : ℕ → Num → List ℕ

abbrev scale : ℕ
scale = 1_000_000_000

-- An integer divided by a positive number, toward zero.
abbrev shrink : ℤ → ℕ → ℤ
shrink (pos n) k = pos (n / k)
shrink (negsuc n) k = pos 0 -ℤ pos (suc n / k)

abbrev divide : ℤ → ℤ → ℤ
divide a (pos zero) = pos 0
divide a (pos (suc n)) = shrink (a *ℤ pos scale) (suc n)
divide a (negsuc n) = pos 0 -ℤ shrink (a *ℤ pos scale) (suc n)

-- The digits up to a point, then those behind it.
abbrev read_fraction : ℕ → ℕ → List ℕ → ℕ
read_fraction acc zero s = acc
read_fraction acc (suc k) [] = read_fraction (acc * 10) k []
read_fraction acc (suc k) (c ∷ s) = read_fraction (acc * 10 + c % 48) k s

abbrev read_whole : ℕ → List ℕ → ℕ
read_whole acc [] = acc * scale
read_whole acc (c ∷ s) =
    let rest = read_fraction acc 9 s in
    let more = read_whole (acc * 10 + c % 48) s in if c == b'.' then rest else more

abbrev pub fixed : Floats
fixed = record {
  Num = ℤ;
  of_big = λ b. b *ℤ pos scale;
  lit = λ m k. pos (m * scale / 10 ^ k);
  add = ◌+ℤ◌;
  sub = ◌-ℤ◌;
  mul = λ a b. shrink (a *ℤ b) scale;
  div = divide;
  lt = ltb_ℤ;
  le = leb_ℤ;
  is_finite = λ x. true;
  parse_float = λ s. pos (read_whole 0 (codes s));
  ceil_big = λ x. some (shrink (x +ℤ pos (scale - 1)) scale);
  to_fixed = λ d x. [];
}
