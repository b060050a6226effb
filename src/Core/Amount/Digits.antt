-- ===== src/Core/Amount/Digits.antt =====
-- Printing and reading runs of decimal digits.
use native.Mathlib.Nat.{pow-suc}
use decant_fi.Common.{
  ℕ, zero, suc, ◌+◌, ◌-◌, ◌/◌, ◌%◌, ◌^◌, ◌≤◌, ◌<◌, ◌≡◌, refl, true, List, [], ◌∷◌, ◌++◌, arith, ltb,
  ◌==◌, if◌then◌else◌, length, take, replicate, All, Bool-cases, inl, inr, ap, ◌∙◌, length-append,
  length-replicate,
}
use decant_fi.Core.Amount.{is_digit, digits_from, print_from, print, pad_start, strip_zeros}

digits_from-print_from :
    (fuel n : ℕ) (rest : List ℕ)
    → n < fuel
    → digits_from 0 (print_from fuel n rest) ≡ digits_from n rest
unfolding digits_from print_from
digits_from-print_from zero n rest h = elim h [ ]
digits_from-print_from (suc fuel) n rest h = elim (Bool-cases (ltb n 10)) [
  | inl small ↦ rw small (ap (λ k. digits_from k rest) (omega arith))
  | inr large ↦ rw large (
      digits_from-print_from fuel (n / 10) ((n % 10 + b'0') ∷ rest) (ground arith)
      ∙ ap (λ k. digits_from k rest) (omega arith))
]

-- Reading back what `toString` printed.
pub digits_from-print : (n : ℕ) → digits_from 0 (print n) ≡ n
unfolding print digits_from
digits_from-print n = digits_from-print_from (suc n) n [] (omega arith)

length-print_from :
    (fuel n k : ℕ) (rest : List ℕ)
    → n < 10 ^ suc k
    → n < fuel
    → length (print_from fuel n rest) ≤ suc k + length rest
unfolding print_from
length-print_from zero n k rest h f = elim f [ ]
length-print_from (suc fuel) n zero rest h f = ground arith
length-print_from (suc fuel) n (suc k) rest h f = elim (Bool-cases (ltb n 10)) [
  | inl small ↦ rw small (omega arith)
  | inr large ↦
      let small : n / 10 < 10 ^ suc k = omega (arith, pow-suc 10 (suc k)) in
      rw large (
        omega
          (arith, length-print_from fuel (n / 10) k ((n % 10 + b'0') ∷ rest) small (ground arith)))
]

pub length-print : (n k : ℕ) → n < 10 ^ suc k → length (print n) ≤ suc k
unfolding print
length-print n k h = omega (arith, length-print_from (suc n) n k [] h (omega arith))

abbrev pub IsDigits : List ℕ → Type 0
IsDigits s = All (λ c. is_digit c ≡ true) s

print_from-IsDigits :
    (fuel n : ℕ) (rest : List ℕ) → IsDigits rest → IsDigits (print_from fuel n rest)
unfolding print_from is_digit
print_from-IsDigits zero n rest h = h
print_from-IsDigits (suc fuel) n rest h = elim (Bool-cases (ltb n 10)) [
  | inl small ↦ rw small (ground arith, h)
  | inr large ↦ rw large (print_from-IsDigits fuel (n / 10) _ (ground arith, h))
]

pub print-IsDigits : (n : ℕ) → IsDigits (print n)
unfolding print
print-IsDigits n = print_from-IsDigits (suc n) n [] tt

print_from-ne : (fuel n : ℕ) (rest : List ℕ) → 0 < length (print_from (suc fuel) n rest)
unfolding print_from
print_from-ne zero n rest = ground arith
print_from-ne (suc fuel) n rest =
    ground (arith, print_from-ne fuel (n / 10) ((n % 10 + b'0') ∷ rest))

pub length-print-pos : (n : ℕ) → 0 < length (print n)
unfolding print
length-print-pos n = print_from-ne n n []

digits_from-pad : (k : ℕ) (s : List ℕ) → digits_from 0 (replicate k b'0' ++ s) ≡ digits_from 0 s
unfolding digits_from
digits_from-pad zero s = refl
digits_from-pad (suc k) s = digits_from-pad k s

pub digits_from-pad_start :
    (width : ℕ) (s : List ℕ) → digits_from 0 (pad_start width s) ≡ digits_from 0 s
unfolding pad_start
digits_from-pad_start width s = digits_from-pad (width - length s) s

pub length-pad_start :
    (width : ℕ) (s : List ℕ) → length s ≤ width → length (pad_start width s) ≡ width
unfolding pad_start
length-pad_start width s h = omega (
  arith,
  length-append (replicate (width - length s) b'0') s,
  length-replicate {A = ℕ} (width - length s) b'0',
)

append-IsDigits : (k : ℕ) (s : List ℕ) → IsDigits s → IsDigits (replicate k b'0' ++ s)
unfolding is_digit
append-IsDigits zero s h = h
append-IsDigits (suc k) s h = (refl, append-IsDigits k s h)

pub pad_start-IsDigits : (width : ℕ) (s : List ℕ) → IsDigits s → IsDigits (pad_start width s)
unfolding pad_start
pad_start-IsDigits width s h = append-IsDigits (width - length s) s h

pub strip_zeros-IsDigits : (s : List ℕ) → IsDigits s → IsDigits (strip_zeros s)
unfolding strip_zeros
strip_zeros-IsDigits [] h = tt
strip_zeros-IsDigits (c ∷ s) h = step (strip_zeros s) (strip_zeros-IsDigits s h.1)
  where
    step :
        (r : List ℕ)
        → IsDigits r
        → IsDigits (elim r [ [] ↦ if c == b'0' then [] else c ∷ [] | d ∷ r' ↦ c ∷ d ∷ r' ])
    step [] k = ground (arith, h.0)
    step (d ∷ r') k = (h.0, k)

take-zeros :
    (k m : ℕ) → k ≤ m → take {A = ℕ} k (replicate m b'0') ≡ take k (b'0' ∷ replicate m b'0')
take-zeros zero m h = refl
take-zeros (suc k) zero h = elim h [ ]
take-zeros (suc k) (suc m) h = ap (◌∷◌ b'0') (take-zeros k m (omega arith))

-- The zeros that printing strips are those that reading fills in.
pub take-strip_zeros :
    (s : List ℕ) (m : ℕ) → length s ≤ m → take (length s) (strip_zeros s ++ replicate m b'0') ≡ s
unfolding strip_zeros
take-strip_zeros [] m h = refl
take-strip_zeros (c ∷ s) zero h = elim h [ ]
take-strip_zeros (c ∷ s) (suc m) h = step (strip_zeros s) (take-strip_zeros s (suc m) (omega arith))
  where
    step :
        (r : List ℕ)
        → take (length s) (r ++ replicate (suc m) b'0') ≡ s
        → take (suc (length s)) (
            elim r [ [] ↦ if c == b'0' then [] else c ∷ [] | d ∷ r' ↦ c ∷ d ∷ r' ]
            ++ replicate (suc m) b'0')
          ≡ c ∷ s
    step [] e = elim (Bool-cases (c == b'0')) [
      | inl z ↦ rw z (ground (arith, take-zeros (length s) m (omega arith)))
      | inr nz ↦ rw nz (ap (◌∷◌ c) e)
    ]
    step (d ∷ r') e = ap (◌∷◌ c) e
