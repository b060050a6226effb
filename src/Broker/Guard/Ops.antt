-- ===== src/Broker/Guard/Ops.antt =====
-- What the guard asks of one operation, and of the amounts along the operations.
use decant_fi.Common.{
  ℕ, ◌≡◌, refl, ◌≢◌, ◌↔◌, ◌⊎◌, inl, inr, true, false, not, ◌∷◌, Option, none, some, String, str_eq,
  str_eq_iff, arith, Bool-cases, ap, if◌then◌else◌,
}
use decant_fi.Common.Int.{ℤ, pos, ◌+ℤ◌, ◌≤ℤ◌}
use decant_fi.Common.Float.{Floats}
use decant_fi.Broker.Guard.{
  ArgList, args, routes, Op, path_payment_strict_send, path_payment_strict_receive,
  invoke_host_function, other_op, StrictSend, StrictReceive, Invocation, ValidateExpected, Totals,
  pass, ◌>>=◌, ◌>>◌, require, decoded, or_zero, is_fee_account, self_cap, below_floor, sum_amounts,
  check_invoke, fee_cap_missing, fee_over_cap, check_self_send, check_self_receive, check_fee,
  check_send, check_receive, check_op,
}
use decant_fi.Broker.Guard.Swap.{IsSwap, check_invoke_sound, check_invoke_complete, bind-eq-pass}

module _ (F : Floats) (e : ValidateExpected F.Num) where
  -- Proceeds paid to the trader: the amount sold is not over the cap, and a strict send's minimum
  -- is not below the declared floor.
  abbrev pub IsSelfSend : StrictSend → Type 0
  IsSelfSend s =
      (s.destination ≡ e.trader)
      × (F.lt (self_cap F e) (F.parse_float (or_zero s.send_amount)) ≡ false)
      × (below_floor F e e.min_received_rate (F.parse_float (or_zero s.send_amount)) s.dest_min
          ≡ false)

  -- A fee: a strict send to the configured account, under a configured limit.
  abbrev pub IsFee : StrictSend → Type 0
  IsFee s =
      (s.destination ≢ e.trader)
      × (s.destination ≢ "")
      × (e.fee_account ≡ some s.destination)
      × (e.max_fee_amount ≢ none)

  abbrev pub IsAllowed : Op → Type 0
  IsAllowed (other_op kind) = ⊥
  IsAllowed (invoke_host_function ic) = (rs : _) × IsSwap e.trader e.router_contract_id ic rs
  IsAllowed (path_payment_strict_send s) = IsSelfSend s ⊎ IsFee s
  IsAllowed (path_payment_strict_receive s) =
      (s.destination ≡ e.trader)
      × (F.lt (self_cap F e) (F.parse_float (or_zero s.send_max)) ≡ false)

  -- What a call of the router sells.
  abbrev pub sold_in : ArgList → ℤ
  sold_in (args (x ∷ routes rs ∷ more)) = sum_amounts (pos 0) rs
  sold_in _ = pos 0

  abbrev pub fee_sum : Totals F → StrictSend → F.Num
  fee_sum t s = F.add t.fees (F.parse_float (or_zero s.send_amount))

  -- The totals behind an operation.
  abbrev pub advance : Totals F → Op → Totals F
  advance t (invoke_host_function ic) = record t { sold = t.sold +ℤ sold_in ic.arguments }
  advance t (path_payment_strict_send s) =
      if str_eq s.destination e.trader then t else record t { fees = fee_sum t s }
  advance t (path_payment_strict_receive s) = t
  advance t (other_op kind) = t

  abbrev pub FeeFits : Option F.Num → F.Num → Type 0
  FeeFits none total = ⊥
  FeeFits (some most) total = F.lt most total ≡ false

  -- The totals with the operation stay under the limits.
  abbrev pub Fits : ℤ → Totals F → Op → Type 0
  Fits limit t (invoke_host_function ic) = t.sold +ℤ sold_in ic.arguments ≤ℤ limit
  Fits limit t (path_payment_strict_send s) =
      (s.destination ≡ e.trader) ⊎ FeeFits e.max_fee_amount (fee_sum t s)
  Fits limit t (path_payment_strict_receive s) = Unit {0}
  Fits limit t (other_op kind) = Unit {0}

  check_invoke_case :
      (limit : ℤ) (i : ℕ) (t t' : Totals F) (ic : Invocation)
      → check_op F e limit i t (invoke_host_function ic) ≡ pass t'
      → IsAllowed (invoke_host_function ic)
        × Fits limit t (invoke_host_function ic)
        × (t' ≡ advance t (invoke_host_function ic))
  unfolding check_op
  check_invoke_case limit i t t' ic h =
      let (sold, checked, same) =
        bind-eq-pass (check_invoke e.trader e.router_contract_id limit t.sold i ic) _ h in
      let (rs, swap, total_is, below) = check_invoke_sound _ _ limit t.sold i ic checked in
      (
        (rs, swap),
        rw (ap sold_in swap.layout) (rw (← total_is) below),
        ground (arith, same, total_is, ap sold_in swap.layout),
      )

  -- The part of `checkFee` behind the configured limit.
  fee_core :
      (i : ℕ) (t t' : Totals F) (s : StrictSend) (most : Option F.Num)
      → (do
        fee_limit ← decoded most (fee_cap_missing i)
        require (not (F.lt fee_limit (fee_sum t s))) (fee_over_cap i)
        pass (record t { fees = fee_sum t s }))
        ≡ pass t'
      → (most ≢ none) × FeeFits most (fee_sum t s) × (t' ≡ record t { fees = fee_sum t s })
  fee_core i t t' s none h = cc
  fee_core i t t' s (some most) h = (λ n. cc, ground arith, ground arith)

  is_fee_account_iff :
      (o : Option String) (d : String) → (is_fee_account o d ≡ true) ↔ ((d ≢ "") × (o ≡ some d))
  is_fee_account_iff none d = ground arith
  is_fee_account_iff (some a) d = ground (arith, str_eq_iff a "", str_eq_iff d a, str_eq_iff d "")

  IsSelfSend-iff :
      (i : ℕ) (t t' : Totals F) (s : StrictSend)
      → s.destination ≡ e.trader
      → check_self_send F e i t s ≡ pass t'
      → IsSelfSend s × (t' ≡ t)
  unfolding check_self_send
  IsSelfSend-iff i t t' s d h = ((d, ground arith, ground arith), ground arith)

  fee_part :
      (i : ℕ) (t t' : Totals F) (s : StrictSend)
      → check_fee F e i t s ≡ pass t'
      → (do
        fee_limit ← decoded e.max_fee_amount (fee_cap_missing i)
        require (not (F.lt fee_limit (fee_sum t s))) (fee_over_cap i)
        pass (record t { fees = fee_sum t s }))
        ≡ pass t'
  unfolding check_fee
  fee_part i t t' s h = h

  not_trader : {d : String} → str_eq d e.trader ≡ false → d ≢ e.trader
  not_trader {d} n p = cc (n, (str_eq_iff d e.trader).1 p)

  send_case :
      (i : ℕ) (t t' : Totals F) (s : StrictSend)
      → check_send F e i t s ≡ pass t'
      → (IsSelfSend s ⊎ IsFee s)
        × ((s.destination ≡ e.trader) ⊎ FeeFits e.max_fee_amount (fee_sum t s))
        × (t' ≡ (if str_eq s.destination e.trader then t else record t { fees = fee_sum t s }))
  unfolding check_send
  send_case i t t' s h = elim (Bool-cases (str_eq s.destination e.trader)) [
    | inl own ↦
        let d = (str_eq_iff s.destination e.trader).0 own in
        let (self, same) = IsSelfSend-iff i t t' s d (ground arith) in
        (inl self, inl d, rw own same)
    | inr other ↦ elim (Bool-cases (is_fee_account e.fee_account s.destination)) [
      | inl fee ↦
          let (named, account) = (is_fee_account_iff e.fee_account s.destination).0 fee in
          let (capped, fits, same) =
            fee_core i t t' s e.max_fee_amount (fee_part i t t' s (rw (other, fee) at h)) in
          (inr (not_trader other, named, account, capped), inr fits, rw other same)
      | inr stray ↦ absurd (cc (rw (other, stray) at h))
    ]
  ]

  receive_case :
      (i : ℕ) (t t' : Totals F) (s : StrictReceive)
      → check_receive F e i t s ≡ pass t'
      → ((s.destination ≡ e.trader)
          × (F.lt (self_cap F e) (F.parse_float (or_zero s.send_max)) ≡ false))
        × Unit {0}
        × (t' ≡ t)
  unfolding check_receive check_self_receive
  receive_case i t t' s h =
      ((ground (arith, str_eq_iff s.destination e.trader), ground arith), tt, ground arith)

  -- What passes is allowed, stays within the limits, and moves the totals on.
  pub check_op_sound :
      (limit : ℤ) (i : ℕ) (t t' : Totals F) (op : Op)
      → check_op F e limit i t op ≡ pass t'
      → IsAllowed op × Fits limit t op × (t' ≡ advance t op)
  unfolding check_op
  check_op_sound limit i t t' (invoke_host_function ic) h = check_invoke_case limit i t t' ic h
  check_op_sound limit i t t' (path_payment_strict_send s) h = send_case i t t' s h
  check_op_sound limit i t t' (path_payment_strict_receive s) h = receive_case i t t' s h
  check_op_sound limit i t t' (other_op kind) h = cc

  invoke_complete :
      (limit : ℤ) (i : ℕ) (t : Totals F) (ic : Invocation)
      → IsAllowed (invoke_host_function ic)
      → Fits limit t (invoke_host_function ic)
      → check_op F e limit i t (invoke_host_function ic)
        ≡ pass (advance t (invoke_host_function ic))
  unfolding check_op
  invoke_complete limit i t ic (rs, swap) fits =
      let sold : sold_in ic.arguments ≡ sum_amounts (pos 0) rs = ap sold_in swap.layout in
      rw (check_invoke_complete _ _ limit t.sold i ic rs swap (rw sold at fits)) (rw sold refl)

  fee_core_complete :
      (i : ℕ) (t : Totals F) (s : StrictSend) (most : Option F.Num)
      → FeeFits most (fee_sum t s)
      → (do
        fee_limit ← decoded most (fee_cap_missing i)
        require (not (F.lt fee_limit (fee_sum t s))) (fee_over_cap i)
        pass (record t { fees = fee_sum t s }))
        ≡ pass (record t { fees = fee_sum t s })
  fee_core_complete i t s none f = absurd f
  fee_core_complete i t s (some most) f = rw f refl

  fee_complete :
      (i : ℕ) (t : Totals F) (s : StrictSend)
      → FeeFits e.max_fee_amount (fee_sum t s)
      → check_fee F e i t s ≡ pass (record t { fees = fee_sum t s })
  unfolding check_fee
  fee_complete i t s f = fee_core_complete i t s e.max_fee_amount f

  send_complete :
      (i : ℕ) (t : Totals F) (s : StrictSend)
      → IsSelfSend s ⊎ IsFee s
      → (s.destination ≡ e.trader) ⊎ FeeFits e.max_fee_amount (fee_sum t s)
      → check_send F e i t s
        ≡ pass (if str_eq s.destination e.trader then t else record t { fees = fee_sum t s })
  unfolding check_send check_self_send check_fee
  send_complete i t s (inl (d, small, floor)) fits =
      rw ((str_eq_iff s.destination e.trader).1 d, small, floor) refl
  send_complete i t s (inr (d, named, account, capped)) fits =
      let stranger = differs d in
      rw (stranger, (is_fee_account_iff e.fee_account s.destination).1 (named, account))
        (fee_complete i t s (paid fits))
    where
      differs : s.destination ≢ e.trader → str_eq s.destination e.trader ≡ false
      differs n = ground (arith, str_eq_iff s.destination e.trader)

      paid :
          (s.destination ≡ e.trader) ⊎ FeeFits e.max_fee_amount (fee_sum t s)
          → FeeFits e.max_fee_amount (fee_sum t s)
      paid (inl own) = absurd (d own)
      paid (inr f) = f

  pub check_op_complete :
      (limit : ℤ) (i : ℕ) (t : Totals F) (op : Op)
      → IsAllowed op
      → Fits limit t op
      → check_op F e limit i t op ≡ pass (advance t op)
  unfolding check_op check_receive check_self_receive
  check_op_complete limit i t (invoke_host_function ic) a fits = invoke_complete limit i t ic a fits
  check_op_complete limit i t (path_payment_strict_send s) a fits = send_complete i t s a fits
  check_op_complete limit i t (path_payment_strict_receive s) (d, small) fits =
      rw ((str_eq_iff s.destination e.trader).1 d, small) refl
  check_op_complete limit i t (other_op kind) a fits = absurd a
