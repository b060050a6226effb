-- ===== src/Broker/Guard/Decides.antt =====
-- The loop of the guard over the operations of a transaction: what it decides, and what follows.
use decant_fi.Common.{ℕ, suc, ◌≡◌, refl, ◌≢◌, ◌↔◌, List, [], ◌∷◌, Option, none, some, All, subst}
use decant_fi.Common.Int.{ℤ}
use decant_fi.Common.Float.{Floats}
use decant_fi.Broker.Guard.{
  Op, ValidateExpected, Totals, Check, pass, reject, cap_raw, check_op, check_ops, no_totals,
  accepted, rejected, verdict_of, validate_under, validate_streamed_tx, no_operations,
}
use decant_fi.Broker.Guard.Swap.{bind-eq-pass}
use decant_fi.Broker.Guard.Ops.{IsAllowed, Fits, advance, check_op_sound, check_op_complete}

module _ (F : Floats) (e : ValidateExpected F.Num) where
  -- The running totals stay within the limits at every operation.
  abbrev pub FitsAll : ℤ → Totals F → List Op → Type 0
  FitsAll limit t [] = Unit {0}
  FitsAll limit t (op ∷ ops) = Fits F e limit t op × FitsAll limit (advance F e t op) ops

  check_ops_sound :
      (limit : ℤ) (i : ℕ) (t t' : Totals F) (ops : List Op)
      → check_ops F e limit i t ops ≡ pass t'
      → All (IsAllowed F e) ops × FitsAll limit t ops
  unfolding check_ops
  check_ops_sound limit i t t' [] h = (tt, tt)
  check_ops_sound limit i t t' (op ∷ ops) h =
      let (next, passed, rest) = bind-eq-pass (check_op F e limit i t op) _ h in
      let (allowed, fits, moved) = check_op_sound F e limit i t next op passed in
      let (all, within) = check_ops_sound limit (suc i) next t' ops rest in
      ((allowed, all), (fits, subst (λ s. FitsAll limit s ops) moved within))

  check_ops_complete :
      (limit : ℤ) (i : ℕ) (t : Totals F) (ops : List Op)
      → All (IsAllowed F e) ops
      → FitsAll limit t ops
      → (t' : Totals F) × (check_ops F e limit i t ops ≡ pass t')
  unfolding check_ops
  check_ops_complete limit i t [] a fits = (t, refl)
  check_ops_complete limit i t (op ∷ ops) a fits =
      rw (check_op_complete F e limit i t op a.0 fits.0)
        (check_ops_complete limit (suc i) (advance F e t op) ops a.1 fits.1)

  -- What the rules allow.
  pub record IsSafeTx (ops : List Op) : Type 0 where
    pub some_op : ops ≢ []
    pub limit : ℤ
    pub capped : cap_raw F e ≡ some limit
    pub allowed : All (IsAllowed F e) ops
    pub within : FitsAll limit (no_totals F) ops

  verdict-eq-accepted :
      (c : Check (Totals F)) → verdict_of F c ≡ accepted → (t : Totals F) × (c ≡ pass t)
  verdict-eq-accepted (pass t) h = (t, refl)
  verdict-eq-accepted (reject r) h = cc

  validate_under_sound :
      (o : Option ℤ) (op : Op) (ops : List Op)
      → cap_raw F e ≡ o
      → validate_under F e o (op ∷ ops) ≡ accepted
      → IsSafeTx (op ∷ ops)
  validate_under_sound none op ops c h = cc
  validate_under_sound (some limit) op ops c h =
      let (t, passed) = verdict-eq-accepted _ h in
      let (allowed, within) = check_ops_sound limit 0 (no_totals F) t (op ∷ ops) passed in
      record { some_op = λ n. cc; limit = limit; capped = c; allowed = allowed; within = within }

  validate_complete : (ops : List Op) → IsSafeTx ops → validate_streamed_tx F ops e ≡ accepted
  unfolding validate_streamed_tx
  validate_complete [] s = absurd (s.some_op refl)
  validate_complete (op ∷ ops) s =
      let (t, passed) = check_ops_complete s.limit 0 (no_totals F) (op ∷ ops) s.allowed s.within in
      rw (s.capped, passed) refl

  validate_sound : (ops : List Op) → validate_streamed_tx F ops e ≡ accepted → IsSafeTx ops
  unfolding validate_streamed_tx
  validate_sound [] h = cc
  validate_sound (op ∷ ops) h = validate_under_sound (cap_raw F e) op ops refl h

  -- The guard accepts a transaction exactly when it has an operation, the cap can be computed, every
  -- operation is allowed (a `swap` call of the router that sells natural amounts on behalf of the
  -- trader, a payment to the trader within the cap and above the floor, or a strict send to the fee
  -- account), and the running totals sold by the calls and paid as fees never exceed their limits.
  pub validate_streamed_tx_iff :
      (ops : List Op) → (validate_streamed_tx F ops e ≡ accepted) ↔ IsSafeTx ops
  validate_streamed_tx_iff ops = (validate_sound ops, validate_complete ops)

-- A transaction without operations is rejected.
pub validate_streamed_tx_empty :
    (F : Floats) (e : ValidateExpected F.Num) → validate_streamed_tx F [] e ≡ rejected no_operations
unfolding validate_streamed_tx
validate_streamed_tx_empty F e = refl
