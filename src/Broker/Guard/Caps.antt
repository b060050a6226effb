-- ===== src/Broker/Guard/Caps.antt =====
-- What the caps of the guard amount to: no route and no transaction sells more than the cap through
-- the router, whereas payments to the trader are capped one by one.
use decant_fi.Common.{
  ℕ, zero, suc, ◌≡◌, ◌⊎◌, inl, inr, List, [], ◌∷◌, Option, none, some, arith, All, sym, subst,
  Bool-cases, str_eq, replicate,
}
use decant_fi.Common.Int.{ℤ, pos, ◌+ℤ◌, ◌≤ℤ◌, int_laws}
use decant_fi.Common.Float.{Floats}
use decant_fi.Broker.Guard.{
  Op, path_payment_strict_send, path_payment_strict_receive, invoke_host_function, other_op,
  StrictSend, ArgList, args, routes, ValidateExpected, Totals, cap_raw, no_totals, accepted,
  validate_streamed_tx, sum_amounts,
}
use decant_fi.Broker.Guard.Swap.{IsNatural}
use decant_fi.Broker.Guard.Ops.{IsAllowed, IsSelfSend, advance, sold_in}
use decant_fi.Broker.Guard.Decides.{FitsAll, validate_streamed_tx_iff}

sum_amounts-ge : (acc : ℤ) (rs : List (Option ℤ)) → All IsNatural rs → acc ≤ℤ sum_amounts acc rs
unfolding sum_amounts
sum_amounts-ge acc [] n = omega arith
sum_amounts-ge acc (none ∷ rs) n = absurd n.0
sum_amounts-ge acc (some r ∷ rs) n = omega (int_laws, sum_amounts-ge (acc +ℤ r) rs n.1)

-- A route's amount, between nothing and the cap.
abbrev pub InRange : ℤ → Option ℤ → Type 0
InRange limit none = ⊥
InRange limit (some r) = (pos 0 ≤ℤ r) × (r ≤ℤ limit)

routes-InRange :
    (limit acc : ℤ) (rs : List (Option ℤ))
    → All IsNatural rs
    → pos 0 ≤ℤ acc
    → sum_amounts acc rs ≤ℤ limit
    → All (InRange limit) rs
unfolding sum_amounts
routes-InRange limit acc [] n p h = tt
routes-InRange limit acc (none ∷ rs) n p h = absurd n.0
routes-InRange limit acc (some r ∷ rs) n p h = (
  (omega arith, omega (int_laws, sum_amounts-ge (acc +ℤ r) rs n.1)),
  routes-InRange limit (acc +ℤ r) rs n.1 (omega int_laws) h,
)

with_call :
    (limit sold s total : ℤ)
    → pos 0 ≤ℤ s
    → sold +ℤ s ≤ℤ limit
    → (total ≤ℤ pos 0) ⊎ (sold +ℤ s +ℤ total ≤ℤ limit)
    → (s +ℤ total ≤ℤ pos 0) ⊎ (sold +ℤ (s +ℤ total) ≤ℤ limit)
with_call limit sold s total p f (inl none_left) = inr (omega int_laws)
with_call limit sold s total p f (inr below) = inr (omega int_laws)

without_call :
    (limit sold total : ℤ)
    → (total ≤ℤ pos 0) ⊎ (sold +ℤ total ≤ℤ limit)
    → (pos 0 +ℤ total ≤ℤ pos 0) ⊎ (sold +ℤ (pos 0 +ℤ total) ≤ℤ limit)
without_call limit sold total (inl none_left) = inl (omega int_laws)
without_call limit sold total (inr below) = inr (omega int_laws)

final :
    (limit total : ℤ)
    → (total ≤ℤ pos 0) ⊎ (pos 0 +ℤ total ≤ℤ limit)
    → (total ≤ℤ pos 0) ⊎ (total ≤ℤ limit)
final limit total (inl none_left) = inl none_left
final limit total (inr below) = inr (omega int_laws)

module _ (F : Floats) (e : ValidateExpected F.Num) where
  abbrev pub sold_by : Op → ℤ
  sold_by (invoke_host_function ic) = sold_in F e ic.arguments
  sold_by _ = pos 0

  abbrev pub total_sold : List Op → ℤ
  total_sold [] = pos 0
  total_sold (op ∷ ops) = sold_by op +ℤ total_sold ops

  abbrev RoutesOf : (List (Option ℤ) → Type 0) → ArgList → Type 0
  RoutesOf P (args (x ∷ routes rs ∷ more)) = P rs
  RoutesOf P _ = Unit

  -- Every route of a call is in range.
  abbrev pub RoutesInRange : ℤ → Op → Type 0
  RoutesInRange limit (invoke_host_function ic) = RoutesOf (All (InRange limit)) ic.arguments
  RoutesInRange limit _ = Unit

  call-InRange :
      (limit : ℤ) (t : Totals F) (l : ArgList)
      → pos 0 ≤ℤ t.sold
      → RoutesOf (All IsNatural) l
      → t.sold +ℤ sold_in F e l ≤ℤ limit
      → RoutesOf (All (InRange limit)) l × (pos 0 ≤ℤ sold_in F e l)
  call-InRange limit t (args (x ∷ routes rs ∷ more)) p n h =
      let sum = sum_amounts-ge (pos 0) rs n in
      (routes-InRange limit (pos 0) rs n (omega arith) (omega int_laws), sum)
  call-InRange limit t _ p n h = (tt, omega arith)

  -- A payment leaves the sold total alone.
  send_along {ℓ} :
      (limit : ℤ) (ops : List Op) (P : ℤ → Type ℓ) (t : Totals F) (s : StrictSend)
      → ((u : Totals F) → pos 0 ≤ℤ u.sold → FitsAll F e limit u ops → P u.sold)
      → pos 0 ≤ℤ t.sold
      → FitsAll F e limit (advance F e t (path_payment_strict_send s)) ops
      → P t.sold
  send_along limit ops P t s k p f = elim (Bool-cases (str_eq s.destination e.trader)) [
    | inl own ↦ k t p (rw own at f)
    | inr other ↦ k _ p (rw other at f)
  ]

  caps_along :
      (limit : ℤ) (t : Totals F) (ops : List Op)
      → pos 0 ≤ℤ t.sold
      → All (IsAllowed F e) ops
      → FitsAll F e limit t ops
      → All (RoutesInRange limit) ops
        × ((total_sold ops ≤ℤ pos 0) ⊎ (t.sold +ℤ total_sold ops ≤ℤ limit))
  caps_along limit t [] p a f = (tt, inl (omega arith))
  caps_along limit t (invoke_host_function ic ∷ ops) p a f =
      let swap = a.0.1 in
      let natural : RoutesOf (All IsNatural) ic.arguments =
        subst (RoutesOf (All IsNatural)) (sym swap.layout) swap.natural in
      let (ranges, positive) = call-InRange limit t ic.arguments p natural f.0 in
      let (rest, total) =
        caps_along limit (advance F e t (invoke_host_function ic)) ops (omega int_laws) a.1 f.1 in
      ((ranges, rest), with_call limit t.sold _ _ positive f.0 total)
  caps_along limit t (path_payment_strict_send s ∷ ops) p a f =
      let (rest, total) =
        send_along limit ops
          (λ v.
            All (RoutesInRange limit) ops
            × ((total_sold ops ≤ℤ pos 0) ⊎ (v +ℤ total_sold ops ≤ℤ limit)))
          t s (λ u q g. caps_along limit u ops q a.1 g) p f.1 in
      ((tt, rest), without_call limit t.sold _ total)
  caps_along limit t (path_payment_strict_receive s ∷ ops) p a f =
      let (rest, total) = caps_along limit t ops p a.1 f.1 in
      ((tt, rest), without_call limit t.sold _ total)
  caps_along limit t (other_op kind ∷ ops) p a f = absurd a.0

  -- Whatever an accepted transaction sells through the router stays within the cap: each route sells
  -- between zero and the cap, and so do all calls together (a negative route cannot make room for a
  -- larger one), unless nothing at all is sold.
  pub accepted-Caps :
      (ops : List Op)
      → validate_streamed_tx F ops e ≡ accepted
      → (limit : ℤ) × (cap_raw F e ≡ some limit)
        × All (RoutesInRange limit) ops
        × ((total_sold ops ≤ℤ pos 0) ⊎ (total_sold ops ≤ℤ limit))
  accepted-Caps ops h =
      let s = (validate_streamed_tx_iff F e ops).0 h in
      let (ranges, total) = caps_along s.limit (no_totals F) ops (omega arith) s.allowed s.within in
      (s.limit, s.capped, ranges, final s.limit (total_sold ops) total)

  self_of :
      (s : StrictSend)
      → s.destination ≡ e.trader
      → IsAllowed F e (path_payment_strict_send s)
      → IsSelfSend F e s
  self_of s d (inl self) = self
  self_of s d (inr fee) = absurd (fee.0 d)

  repeated :
      (limit : ℤ) (t : Totals F) (s : StrictSend) (n : ℕ)
      → IsSelfSend F e s
      → All (IsAllowed F e) (replicate n (path_payment_strict_send s))
        × FitsAll F e limit t (replicate n (path_payment_strict_send s))
  repeated limit t s zero self = (tt, tt)
  repeated limit t s (suc n) self =
      let (allowed, fits) = repeated limit (advance F e t (path_payment_strict_send s)) s n self in
      ((inl self, allowed), (inl self.0, fits))

  -- Payments to the trader have no cap in aggregate: if the guard accepts one such strict send, it
  -- accepts a transaction of any number of copies of it, whatever they sell together.
  pub self_sends_uncapped :
      (s : StrictSend) (n : ℕ)
      → s.destination ≡ e.trader
      → validate_streamed_tx F (path_payment_strict_send s ∷ []) e ≡ accepted
      → validate_streamed_tx F (replicate (suc n) (path_payment_strict_send s)) e ≡ accepted
  self_sends_uncapped s n d h =
      let one = (validate_streamed_tx_iff F e _).0 h in
      let (allowed, fits) =
        repeated one.limit (no_totals F) s (suc n) (self_of s d one.allowed.0) in
      (validate_streamed_tx_iff F e _).1 (record {
        some_op = λ q. cc;
        limit = one.limit;
        capped = one.capped;
        allowed = allowed;
        within = fits;
      })
