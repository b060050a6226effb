-- ===== src/Web/Execute/Pick/Order.antt =====
-- Which candidate is picked.
use decant_fi.Common.{
  String, ℕ, ◌≡◌, refl, sym, ap, subst, ◌∙◌, ◌⊎◌, inl, inr, Bool, true, List, [], ◌∷◌, Option,
  arith, filter, All, In, here, there, Bool-cases,
}
use decant_fi.Common.Int.{ℤ, ◌≤ℤ◌}
use decant_fi.Common.Float.{Floats}
use decant_fi.Common.Sort.{IsSorted, Precedes}
use decant_fi.Web.Execute.{ExecError, Target, Displayed}
use decant_fi.Web.Execute.Offers.{Candidate, net_of, Picked, Venues, Sell, nets_less}
use decant_fi.Web.Execute.Pick.{
  Attempt, success, failed, PickResult, picked, no_pick, threw, attempt, keep_error, prior_error,
  after_attempt, build_from,
}

module _ {A : Type 0} where
  filter-Precedes :
      (after : A → A → Bool) (q : A → Bool) (x : A) (xs : List A)
      → Precedes after x xs
      → Precedes after x (filter q xs)
  filter-Precedes after q x [] h = tt
  filter-Precedes after q x (y ∷ ys) h = elim (Bool-cases (q y)) [
    | inl e ↦ rw e (h.0, filter-Precedes after q x ys h.1)
    | inr e ↦ rw e (filter-Precedes after q x ys h.1)
  ]

  pub filter-IsSorted :
      (after : A → A → Bool) (q : A → Bool) (xs : List A)
      → IsSorted after xs
      → IsSorted after (filter q xs)
  filter-IsSorted after q [] h = tt
  filter-IsSorted after q (x ∷ xs) h = elim (Bool-cases (q x)) [
    | inl e ↦ rw e (filter-Precedes after q x xs h.0, filter-IsSorted after q xs h.1)
    | inr e ↦ rw e (filter-IsSorted after q xs h.1)
  ]

  pub All-filter :
      (P : A → Type 0) (q : A → Bool) (xs : List A)
      → All P (filter q xs)
      → All (λ x. q x ≡ true → P x) xs
  All-filter P q [] h = tt
  All-filter P q (x ∷ xs) h = elim (Bool-cases (q x)) [
    | inl e ↦ let k = rw e at h in (λ _. k.0, All-filter P q xs k.1)
    | inr e ↦ (λ f. cc, All-filter P q xs (rw e at h))
  ]

  In-later :
      (a x : A) (q : A → Bool) (xs : List A)
      → (In a (filter q xs) → In a xs × (q a ≡ true))
      → q x ≡ true
      → In a (x ∷ filter q xs)
      → In a (x ∷ xs) × (q a ≡ true)
  In-later a x q xs f e (here p) = (here p, ap q p ∙ e)
  In-later a x q xs f e (there m) = let r = f m in (there r.0, r.1)

  pub In-filter : (a : A) (q : A → Bool) (xs : List A) → In a (filter q xs) → In a xs × (q a ≡ true)
  In-filter a q [] m = elim m [ ]
  In-filter a q (x ∷ xs) m = elim (Bool-cases (q x)) [
    | inl e ↦ In-later a x q xs (In-filter a q xs) e (rw e at m)
    | inr e ↦ let r = In-filter a q xs (rw e at m) in (there r.0, r.1)
  ]

module _ (F : Floats) (v : Venues F.Num) (sell : Sell) (target : Target) (amount : ℤ)
    (sender : String) (slippage_bps : ℕ) (displayed : Option (Displayed F.Num))
    (soroswap_configured : Bool) where
  abbrev pub try : Candidate → Attempt F.Num
  try = attempt F v sell target amount sender slippage_bps displayed soroswap_configured

  abbrev pub Fails : Candidate → Type 0
  Fails c = (e : Option ExecError) × (try c ≡ failed e)

  abbrev pub kept : Attempt F.Num → List ExecError → List ExecError
  kept (success p) errors = errors
  kept (failed e) errors = keep_error e errors

  -- The errors that failed attempts leave, in order.
  abbrev pub errors_of : List ExecError → List Candidate → List ExecError
  errors_of errors [] = errors
  errors_of errors (c ∷ cs) = errors_of (kept (try c) errors) cs

  abbrev pub run : List ExecError → List Candidate → PickResult F.Num
  run = build_from F v sell target amount sender slippage_bps displayed soroswap_configured

  -- A candidate that could be built, with no better one that could.
  pub record IsFirst (cs : List Candidate) (p : Picked F.Num) : Type 0 where
    pub chosen : Candidate
    pub member : In chosen cs
    pub builds : try chosen ≡ success p
    pub best : All (λ c. Fails c ⊎ (net_of c ≤ℤ net_of chosen)) cs

  abbrev pub IsRun : List ExecError → List Candidate → PickResult F.Num → Type 0
  IsRun errors cs (picked p) = IsFirst cs p
  IsRun errors cs (no_pick e) = All Fails cs × (e ≡ prior_error (errors_of errors cs))
  IsRun errors cs threw = ⊥

  Attempt-cases :
      (a : Attempt F.Num)
      → ((p : Picked F.Num) × (a ≡ success p)) ⊎ ((e : Option ExecError) × (a ≡ failed e))
  Attempt-cases (success p) = inl (p, refl)
  Attempt-cases (failed e) = inr (e, refl)

  below :
      (c : Candidate) (cs : List Candidate)
      → Precedes nets_less c cs
      → All (λ d. Fails d ⊎ (net_of d ≤ℤ net_of c)) cs
  below c [] h = tt
  below c (d ∷ ds) h = (inr (ground (arith, h.0)), below c ds h.1)

  -- A failure before the others changes only the errors.
  failed_before :
      (c : Candidate) (cs : List Candidate) (errors : List ExecError) (e : Option ExecError)
      → try c ≡ failed e
      → (r : PickResult F.Num) → IsRun (keep_error e errors) cs r
      → IsRun errors (c ∷ cs) r
  failed_before c cs errors e h (picked p) k = record {
    chosen = k.chosen;
    member = there k.member;
    builds = k.builds;
    best = (inl (e, h), k.best);
  }
  failed_before c cs errors e h (no_pick x) k =
      (((e, h), k.0), k.1 ∙ sym (ap (λ a. prior_error (errors_of (kept a errors) cs)) h))
  failed_before c cs errors e h threw k = k

  pub run-IsRun :
      (errors : List ExecError) (cs : List Candidate)
      → IsSorted nets_less cs
      → IsRun errors cs (run errors cs)
  unfolding build_from
  run-IsRun errors [] h = (tt, refl)
  run-IsRun errors (c ∷ cs) h = elim (Attempt-cases (try c)) [
    | inl built ↦
        subst (λ a. IsRun errors (c ∷ cs) (after_attempt a more)) (sym built.1)
          (record {
            chosen = c;
            member = here refl;
            builds = built.1;
            best = (inr (omega arith), below c cs h.0);
          })
    | inr fails ↦
        subst (λ a. IsRun errors (c ∷ cs) (after_attempt a more)) (sym fails.1)
          (failed_before c cs errors fails.0 fails.1 (run (keep_error fails.0 errors) cs)
            (run-IsRun (keep_error fails.0 errors) cs h.1))
  ]
    where
      more : Option ExecError → PickResult F.Num
      more e = run (keep_error e errors) cs
