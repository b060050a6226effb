-- ===== src/Web/Execute/Pick/Errors.antt =====
-- Which of the errors is thrown.
use decant_fi.Common.{
  ℕ, ◌≤◌, ◌≡◌, refl, ap, ◌∙◌, ◌⊎◌, inl, inr, true, false, List, [], ◌∷◌, Option, none, some, arith,
  All, In, here, there, Bool-cases, Option-cases,
}
use decant_fi.Core.Rank.{or_else}
use decant_fi.Web.Execute.{
  ExecCode, trustline, funds, slippage, down, no_route, bad_request, ExecError, exec_error,
}
use decant_fi.Web.Execute.Pick.{code_eq, with_code, prior_error}

abbrev pub priority : ExecCode → ℕ
priority trustline = 0
priority funds = 1
priority slippage = 2
priority down = 3
priority no_route = 4
priority bad_request = 4

-- An error of the highest priority, or `down` where there is none of the four codes.
pub record IsPrior (errors : List ExecError) (e : ExecError) : Type 0 where
  pub found : In e errors ⊎ (e ≡ exec_error down)
  pub first : All (λ (x : ExecError). priority e.code ≤ priority x.code) errors

with_code-some :
    (code : ExecCode) (errors : List ExecError) (e : ExecError)
    → with_code code errors ≡ some e
    → In e errors × (code_eq e.code code ≡ true)
with_code-some code [] e h = cc
with_code-some code (x ∷ xs) e h = elim (Bool-cases (code_eq x.code code)) [
  | inl y ↦
      let q : some x ≡ some e = rw y at h in
      let same : e ≡ x = cc in (here same, ap (λ (z : ExecError). code_eq z.code code) same ∙ y)
  | inr n ↦ let r = with_code-some code xs e (rw n at h) in (there r.0, r.1)
]

with_code-none :
    (code : ExecCode) (errors : List ExecError)
    → with_code code errors ≡ none
    → All (λ (x : ExecError). code_eq x.code code ≡ false) errors
with_code-none code [] h = tt
with_code-none code (x ∷ xs) h = elim (Bool-cases (code_eq x.code code)) [
  | inl y ↦ let q : some x ≡ none = rw y at h in cc
  | inr n ↦ (n, with_code-none code xs (rw n at h))
]

-- Codes that are none of the first ones come later.
later1 : (c : ExecCode) → code_eq c trustline ≡ false → 1 ≤ priority c
later1 trustline h = cc
later1 funds h = omega arith
later1 slippage h = omega arith
later1 down h = omega arith
later1 no_route h = omega arith
later1 bad_request h = omega arith

later2 : (c : ExecCode) → 1 ≤ priority c → code_eq c funds ≡ false → 2 ≤ priority c
later2 trustline p h = absurd (omega arith)
later2 funds p h = cc
later2 slippage p h = omega arith
later2 down p h = omega arith
later2 no_route p h = omega arith
later2 bad_request p h = omega arith

later3 : (c : ExecCode) → 2 ≤ priority c → code_eq c slippage ≡ false → 3 ≤ priority c
later3 trustline p h = absurd (omega arith)
later3 funds p h = absurd (omega arith)
later3 slippage p h = cc
later3 down p h = omega arith
later3 no_route p h = omega arith
later3 bad_request p h = omega arith

priority-of : (c d : ExecCode) → code_eq c d ≡ true → priority c ≡ priority d
priority-of trustline trustline h = refl
priority-of funds funds h = refl
priority-of slippage slippage h = refl
priority-of down down h = refl
priority-of c d h = cc

All-zip :
    {A : Type 0} {P Q R : A → Type 0} (f : (a : A) → P a → Q a → R a) (xs : List A)
    → All P xs
    → All Q xs
    → All R xs
All-zip f [] p q = tt
All-zip f (x ∷ xs) p q = (f x p.0 q.0, All-zip f xs p.1 q.1)

All-any : {A : Type 0} {R : A → Type 0} (f : (a : A) → R a) (xs : List A) → All R xs
All-any f [] = tt
All-any f (x ∷ xs) = (f x, All-any f xs)

abbrev or_down : Option ExecError → ExecError
or_down o = elim o [ none ↦ exec_error down | some e ↦ e ]

-- The first code that some error has.
at_code :
    (code : ExecCode) (errors : List ExecError) (rest : Option ExecError)
    → All (λ (x : ExecError). priority code ≤ priority x.code) errors
    → (All (λ (x : ExecError). code_eq x.code code ≡ false) errors → IsPrior errors (or_down rest))
    → IsPrior errors (or_down (or_else (with_code code errors) rest))
at_code code errors rest h later = elim (Option-cases (with_code code errors)) [
  | inl missing ↦ rw missing (later (with_code-none code errors missing))
  | inr found ↦
      let f = with_code-some code errors (found.0) (found.1) in
      rw (found.1) (record { found = inl f.0; first = rw (priority-of found.0.code code f.1) h })
]

-- An error whose code is at least as late as a number.
abbrev Late : ℕ → ExecError → Type 0
Late n x = n ≤ priority x.code

abbrev Not : ExecCode → ExecError → Type 0
Not code x = code_eq x.code code ≡ false

pub prior_error-IsPrior : (errors : List ExecError) → IsPrior errors (prior_error errors)
unfolding prior_error
prior_error-IsPrior errors =
    at_code trustline errors _ (All-any {R = Late 0} (λ x. omega arith) errors) λ t.
      let h1 : All (Late 1) errors = zip (λ x q r. later1 x.code q) t t in
      at_code funds errors _ h1 λ f.
        let h2 : All (Late 2) errors = zip (λ x p q. later2 x.code p q) h1 f in
        at_code slippage errors _ h2
          λ s. let h3 : All (Late 3) errors = zip (λ x p q. later3 x.code p q) h2 s in last h3
  where
    zip :
        {P Q R : ExecError → Type 0}
        → ((x : ExecError) → P x → Q x → R x)
        → All P errors
        → All Q errors
        → All R errors
    zip f = All-zip f errors

    last : All (Late 3) errors → IsPrior errors (or_down (with_code down errors))
    last h = elim (Option-cases (with_code down errors)) [
      | inl missing ↦ rw missing (record { found = inr refl; first = h })
      | inr found ↦
          let f = with_code-some down errors (found.0) (found.1) in
          rw (found.1)
            (record { found = inl f.0; first = rw (priority-of found.0.code down f.1) h })
    ]
