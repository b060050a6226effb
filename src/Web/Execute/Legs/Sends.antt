-- ===== src/Web/Execute/Legs/Sends.antt =====
-- The reconciliation of the legs, and what the operations send in all.
use decant_fi.Common.{
  ℕ, zero, suc, ◌+◌, ◌≡◌, ◌≢◌, refl, ap, subst, ◌∙◌, inl, inr, true, List, [], ◌∷◌, some, ==_iff,
  arith, length, set, get_elem?, get_elem?-set_ne, length-set, All, Bool-cases,
}
use decant_fi.Common.Int.{ℤ, pos, ◌+ℤ◌, ◌-ℤ◌, ◌≤ℤ◌, ltb_ℤ, leb_ℤ, eq_ℤ, int_laws}
use decant_fi.Web.Execute.{ExecError, no_route, Outcome, ok, refused, broke}
use decant_fi.Web.Execute.Legs.{sum_from, sum, largest_from, or_zero, settle, reconcile_leg_sends}

pub sum_from_lem : (acc : ℤ) (vs : List ℤ) → sum_from acc vs ≡ acc +ℤ sum vs
unfolding sum_from
sum_from_lem acc [] = omega int_laws
sum_from_lem acc (v ∷ vs) =
    rw (sum_from_lem (acc +ℤ v) vs, sum_from_lem (pos 0 +ℤ v) vs) (omega int_laws)

pub sum-cons : (v : ℤ) (vs : List ℤ) → sum (v ∷ vs) ≡ v +ℤ sum vs
unfolding sum_from
sum-cons v vs = rw (sum_from_lem (pos 0 +ℤ v) vs) (omega int_laws)

sum-set :
    (vs : List ℤ) (i : ℕ) (m r : ℤ)
    → get_elem? vs i ≡ some m
    → sum (set vs i (m +ℤ r)) ≡ sum vs +ℤ r
sum-set [] i m r e = cc
sum-set (v ∷ vs) zero m r e =
    let q : v ≡ m = ap or_zero e in rw (sum-cons (m +ℤ r) vs, sum-cons v vs, q) (omega int_laws)
sum-set (v ∷ vs) (suc i) m r e =
    rw (sum-cons v (set vs i (m +ℤ r)), sum-cons v vs, sum-set vs i m r e) (omega int_laws)

-- The index that the loop finds, with the amount there.
largest_lem :
    (full : List ℤ) (best : ℕ) (most : ℤ) (i : ℕ) (vs : List ℤ)
    → get_elem? full best ≡ some most
    → ((j : ℕ) → get_elem? full (i + j) ≡ get_elem? vs j)
    → (m : ℤ) × (get_elem? full (largest_from best most i vs) ≡ some m)
      × (most ≤ℤ m)
      × All (λ v. v ≤ℤ m) vs
unfolding largest_from
largest_lem full best most i [] e h = (most, e, omega arith, tt)
largest_lem full best most i (v ∷ vs) e h = elim (Bool-cases (ltb_ℤ most v)) [
  | inl more ↦
      let at : get_elem? full i ≡ some v =
        subst (λ n. get_elem? full n ≡ some v) (omega arith) (h 0) in
      let (m, found, above, rest) = largest_lem full i v (suc i) vs at later in
      rw more (m, found, ground (arith, more, above), (above, rest))
  | inr less ↦
      let (m, found, above, rest) = largest_lem full best most (suc i) vs e later in
      rw less (m, found, above, (ground (arith, less, above), rest))
]
  where
    later : (j : ℕ) → get_elem? full (suc i + j) ≡ get_elem? vs j
    later j = subst (λ n. get_elem? full n ≡ get_elem? vs j) (omega arith) (h (suc j))

-- What the reconciliation gives: the sum is exact, only a largest leg has changed.
pub record IsReconciled (sends : List ℤ) (total : ℤ) (out : List ℤ) : Type 0 where
  pub exact : sum out ≡ total
  pub same_length : length out ≡ length sends
  pub changed : ℕ
  pub others : (j : ℕ) → changed ≢ j → get_elem? out j ≡ get_elem? sends j
  pub most : ℤ
  pub most_eq : get_elem? sends changed ≡ some most
  pub largest : All (λ v. v ≤ℤ most) sends
  pub kept_positive :
      All (λ v. ltb_ℤ (pos 0) v ≡ true) sends → All (λ v. ltb_ℤ (pos 0) v ≡ true) out

-- The error: the largest leg would fall to zero or below.
pub record IsTooSmall (sends : List ℤ) (total : ℤ) (e : ExecError) : Type 0 where
  pub code_eq : e.code ≡ no_route
  pub most : ℤ
  pub largest : All (λ v. v ≤ℤ most) sends
  pub falls : most +ℤ (total -ℤ sum sends) ≤ℤ pos 0

abbrev pub IsSettled : List ℤ → ℤ → Outcome (List ℤ) → Type 0
IsSettled sends total (ok out) = IsReconciled sends total out
IsSettled sends total (refused e) = IsTooSmall sends total e
IsSettled sends total broke = ⊥

positive-set :
    (vs : List ℤ) (i : ℕ) (w : ℤ)
    → ltb_ℤ (pos 0) w ≡ true
    → All (λ v. ltb_ℤ (pos 0) v ≡ true) vs
    → All (λ v. ltb_ℤ (pos 0) v ≡ true) (set vs i w)
positive-set [] i w p h = tt
positive-set (v ∷ vs) zero w p h = (p, h.1)
positive-set (v ∷ vs) (suc i) w p h = (h.0, positive-set vs i w p h.1)

settle-IsSettled :
    (sends : List ℤ) (total : ℤ) (k : ℕ) (m : ℤ)
    → get_elem? sends k ≡ some m
    → All (λ v. v ≤ℤ m) sends
    → IsSettled sends total (settle sends k (total -ℤ sum sends))
unfolding settle
settle-IsSettled sends total k m e h =
    rw e (elim (Bool-cases (leb_ℤ (m +ℤ (total -ℤ sum sends)) (pos 0))) [
      | inl low ↦
          rw low (record { code_eq = refl; most = m; largest = h; falls = ground (arith, low) })
      | inr high ↦ rw high (record {
        exact = sum-set sends k m (total -ℤ sum sends) e ∙ omega int_laws;
        same_length = length-set sends k _;
        changed = k;
        others = λ j ne. get_elem?-set_ne sends _ ne;
        most = m;
        most_eq = e;
        largest = h;
        kept_positive = positive-set sends k _ (ground (arith, high));
      })
    ])

next_elem : (v : ℤ) (vs : List ℤ) (j : ℕ) → get_elem? (v ∷ vs) (1 + j) ≡ get_elem? vs j
next_elem v vs j = let e : 1 + j ≡ suc j = omega arith in rw e refl

no_residual : (t s : ℤ) → eq_ℤ (t -ℤ s) (pos 0) ≡ true → s ≡ t
no_residual t s h = let e = (==_iff _ _).0 h in omega int_laws

-- A split whose legs do not add up is put right: the legs then add up to the total exactly, each is
-- as large as before but one of the largest, none that was positive is zero or below, and an error
-- is thrown only where the largest leg would fall to zero or below.
pub reconcile_leg_sends-IsSettled :
    (v : ℤ) (vs : List ℤ) (total : ℤ)
    → IsSettled (v ∷ vs) total (reconcile_leg_sends (v ∷ vs) total)
unfolding reconcile_leg_sends
reconcile_leg_sends-IsSettled v vs total =
    let (m, found, above, rest) = largest_lem (v ∷ vs) 0 v 1 vs refl (next_elem v vs) in
    elim (Bool-cases (eq_ℤ (total -ℤ sum (v ∷ vs)) (pos 0))) [
      | inl same ↦ rw same (record {
        exact = no_residual total (sum (v ∷ vs)) same;
        same_length = refl;
        changed = largest_from 0 v 1 vs;
        others = λ j ne. refl;
        most = m;
        most_eq = found;
        largest = (above, rest);
        kept_positive = λ h. h;
      })
      | inr other ↦
          rw other (settle-IsSettled (v ∷ vs) total (largest_from 0 v 1 vs) m found (above, rest))
    ]
