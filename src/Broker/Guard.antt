-- ===== src/Broker/Guard.antt =====
-- core/sources/stellarbroker-guard.ts: `validateStreamedTx`. A transaction is what the Stellar SDK
-- decodes it to; where a decoder of the SDK may throw, the field says so. Human amounts are
-- JavaScript numbers (`Floats`), stroops are integers.
pub mod Swap
pub mod Ops
pub mod Decides
pub mod Caps
mod Tests
use decant_fi.Common.{
  ℕ, zero, suc, ◌+◌, Bool, true, false, not, ◌&&◌, List, [], ◌∷◌, Option, none, some, String,
  str_eq, if◌then◌else◌, length, get_elem?, ltb, any,
}
use decant_fi.Common.Int.{ℤ, pos, ◌+ℤ◌, ltb_ℤ}
use decant_fi.Common.Float.{Floats}

-- `scValToNative` of a contract argument.
pub data Native : Type 0 where
  unreadable : Native
  -- an array; each item's `amount` as a bigint, none where `BigInt` throws
  routes : List (Option ℤ) → Native
  text : String → Native
  other_value : Native

pub data ArgList : Type 0 where
  args_throw args_not_array : ArgList
  args : List Native → ArgList

pub record Invocation : Type 0 where
  -- `StrKey.encodeContract(ic.contractAddress().contractId())`
  pub contract_id : Option String
  pub function_name : Option String
  pub arguments : ArgList

pub record StrictSend : Type 0 where
  pub destination : String
  pub send_amount : Option String
  pub dest_min : Option String

pub record StrictReceive : Type 0 where
  pub destination : String
  pub send_max : Option String

pub data Op : Type 0 where
  path_payment_strict_send : StrictSend → Op
  path_payment_strict_receive : StrictReceive → Op
  invoke_host_function : Invocation → Op
  other_op : String → Op

pub record ValidateExpected (Num : Type 0) : Type 0 where
  pub trader : String
  pub max_sell_amount : Num
  pub router_contract_id : String
  pub fee_account : Option String
  pub max_fee_amount : Option Num
  pub min_received_rate : Option Num

-- Why a transaction is rejected; the index is that of the operation.
pub data Reason : Type 0 where
  no_operations : Reason
  op_type no_router wrong_contract wrong_function few_args : ℕ → Reason
  routes_not_array routes_unreadable negative_amount sold_over_cap : ℕ → Reason
  trader_not_text trader_unreadable wrong_trader decode_failed : ℕ → Reason
  self_over_cap degraded_fill fee_not_strict_send : ℕ → Reason
  fee_cap_missing fee_over_cap drain : ℕ → Reason

pub data Check {ℓ} (A : Type ℓ) : Type ℓ where
  pass : A → Check A
  reject : Reason → Check A

infixl 5 ◌>>=◌ ◌>>◌
abbrev pub ◌>>=◌ {ℓ κ} : {A : Type ℓ} {B : Type κ} → Check A → (A → Check B) → Check B
pass a >>= f = f a
reject r >>= f = reject r

abbrev pub ◌>>◌ {ℓ} : {B : Type ℓ} → Check (Unit {0}) → Check B → Check B
m >> k = m >>= λ _. k

abbrev pub require : Bool → Reason → Check (Unit {0})
require true r = pass tt
require false r = reject r

abbrev pub sb_router_contract : String
sb_router_contract = "CBWP275BNGLHWFTQVB6QHA67MLX7WTX6YZ5LNSUVOK7W2TMKWX7OPYOJ"

abbrev pub is_text : String → Bool
is_text s = not (str_eq s "")

abbrev pub or_zero : Option String → String
or_zero none = "0"
or_zero (some s) = s

-- A value, or the rejection of the `catch` block around its decoder.
abbrev pub decoded {ℓ} : {A : Type ℓ} → Option A → Reason → Check A
decoded none r = reject r
decoded (some a) r = pass a

-- The first negative amount, or one that `BigInt` cannot read, ends the scan of the routes.
pub check_amounts : ℕ → List (Option ℤ) → Check (Unit {0})
check_amounts i [] = pass tt
check_amounts i (none ∷ rs) = reject (decode_failed i)
check_amounts i (some r ∷ rs) =
    let rest = check_amounts i rs in if ltb_ℤ r (pos 0) then reject (negative_amount i) else rest

abbrev pub amount_or_zero : Option ℤ → ℤ
amount_or_zero none = pos 0
amount_or_zero (some r) = r

-- `routes.reduce((acc, r) => acc + BigInt(r.amount), 0n)`
pub sum_amounts : ℤ → List (Option ℤ) → ℤ
sum_amounts acc [] = acc
sum_amounts acc (r ∷ rs) = sum_amounts (acc +ℤ amount_or_zero r) rs

abbrev pub arg_list : ℕ → ArgList → Check (List Native)
arg_list i args_throw = reject (decode_failed i)
arg_list i args_not_array = reject (few_args i)
arg_list i (args xs) = if ltb (length xs) 3 then reject (few_args i) else pass xs

-- `args[1]`
abbrev pub as_routes : ℕ → Option Native → Check (List (Option ℤ))
as_routes i (some (routes rs)) = pass rs
as_routes i (some unreadable) = reject (routes_unreadable i)
as_routes i (some _) = reject (routes_not_array i)
as_routes i none = reject (routes_unreadable i)

-- `args[2]`
abbrev pub as_trader : ℕ → Option Native → Check String
as_trader i (some (text s)) = pass s
as_trader i (some unreadable) = reject (trader_unreadable i)
as_trader i (some _) = reject (trader_not_text i)
as_trader i none = reject (trader_unreadable i)

-- Rule 2 (a) and (b): the contract and the function that are called.
pub check_target : String → ℕ → Invocation → Check (Unit {0})
check_target router i ic = do
  require (is_text router) (no_router i)
  contract ← decoded ic.contract_id (decode_failed i)
  require (str_eq contract router) (wrong_contract i)
  fname ← decoded ic.function_name (decode_failed i)
  require (str_eq fname "swap") (wrong_function i)

-- Rule 2 (c): the routes, and the total sold with them.
pub check_sold : ℤ → ℤ → ℕ → Option Native → Check ℤ
check_sold limit total i arg = do
  rs ← as_routes i arg
  check_amounts i rs
  require (not (ltb_ℤ limit (total +ℤ sum_amounts (pos 0) rs))) (sold_over_cap i)
  pass (total +ℤ sum_amounts (pos 0) rs)

-- Rule 2 (d).
pub check_trader : String → ℕ → Option Native → Check (Unit {0})
check_trader trader i arg = do who ← as_trader i arg; require (str_eq who trader) (wrong_trader i)

-- The arguments of the call. The result is the total sold with it.
pub check_args : String → ℤ → ℤ → ℕ → ArgList → Check ℤ
check_args trader limit total i arguments = do
  xs ← arg_list i arguments
  sold ← check_sold limit total i (get_elem? xs 1)
  check_trader trader i (get_elem? xs 2)
  pass sold

-- Rule 2.
pub check_invoke : String → String → ℤ → ℤ → ℕ → Invocation → Check ℤ
check_invoke trader router limit total i ic = do
  check_target router i ic
  check_args trader limit total i ic.arguments

-- `feeAccount && dest === feeAccount`
abbrev pub is_fee_account : Option String → String → Bool
is_fee_account none dest = false
is_fee_account (some account) dest = is_text account && str_eq dest account

module _ (F : Floats) where
  abbrev pub tolerance : F.Num
  tolerance = F.lit 1001 3

  abbrev pub received_tolerance : F.Num
  received_tolerance = F.lit 9 1

  abbrev pub stroop_scale : F.Num
  stroop_scale = F.lit 10_000_000 0

  pub record Totals : Type 0 where
    pub sold : ℤ
    pub fees : F.Num

  module _ (e : ValidateExpected F.Num) where
    -- The cap on the human amount that one self-delivery may sell.
    abbrev pub self_cap : F.Num
    self_cap = F.mul e.max_sell_amount tolerance

    abbrev pub cap_raw : Option ℤ
    cap_raw = F.ceil_big (F.mul (F.mul e.max_sell_amount tolerance) stroop_scale)

    -- The received-side floor, on a strict send whose parsed amount is given.
    pub below_floor : Option F.Num → F.Num → Option String → Bool
    below_floor none amount dest_min = false
    below_floor (some rate) amount dest_min =
        F.lt (F.lit 0 0) amount
        && F.lt (F.div (F.parse_float (or_zero dest_min)) amount) (F.mul rate received_tolerance)

    pub check_self_send : ℕ → Totals → StrictSend → Check Totals
    check_self_send i t s =
        let amount = F.parse_float (or_zero s.send_amount) in
        do
          require (not (F.lt self_cap amount)) (self_over_cap i)
          require (not (below_floor e.min_received_rate amount s.dest_min)) (degraded_fill i)
          pass t

    pub check_self_receive : ℕ → Totals → StrictReceive → Check Totals
    check_self_receive i t s = do
      require (not (F.lt self_cap (F.parse_float (or_zero s.send_max)))) (self_over_cap i)
      pass t

    pub check_fee : ℕ → Totals → StrictSend → Check Totals
    check_fee i t s = do
      fee_limit ← decoded e.max_fee_amount (fee_cap_missing i)
      let fees = F.add t.fees (F.parse_float (or_zero s.send_amount))
      require (not (F.lt fee_limit fees)) (fee_over_cap i)
      pass (record t { fees = fees })

    pub check_send : ℕ → Totals → StrictSend → Check Totals
    unfolding check_self_send check_fee
    check_send i t s =
        if str_eq s.destination e.trader
        then check_self_send i t s
        else if is_fee_account e.fee_account s.destination
        then check_fee i t s
        else reject (drain i)

    pub check_receive : ℕ → Totals → StrictReceive → Check Totals
    unfolding check_self_receive
    check_receive i t s =
        if str_eq s.destination e.trader
        then check_self_receive i t s
        else if is_fee_account e.fee_account s.destination
        then reject (fee_not_strict_send i)
        else reject (drain i)

    -- One round of the loop over the operations.
    pub check_op : ℤ → ℕ → Totals → Op → Check Totals
    check_op limit i t (other_op kind) = reject (op_type i)
    check_op limit i t (invoke_host_function ic) = do
      sold ← check_invoke e.trader e.router_contract_id limit t.sold i ic
      pass (record t { sold = sold })
    check_op limit i t (path_payment_strict_send s) = check_send i t s
    check_op limit i t (path_payment_strict_receive s) = check_receive i t s

    pub check_ops : ℤ → ℕ → Totals → List Op → Check Totals
    check_ops limit i t [] = pass t
    check_ops limit i t (op ∷ ops) = do t' ← check_op limit i t op; check_ops limit (suc i) t' ops

  abbrev pub no_totals : Totals
  no_totals = record { sold = pos 0; fees = F.lit 0 0 }

  -- The verdict: `threw` where `BigInt` of the cap throws (a cap that is NaN or infinite).
  pub data Verdict : Type 0 where
    accepted : Verdict
    rejected : Reason → Verdict
    threw : Verdict

  abbrev pub verdict_of : Check Totals → Verdict
  verdict_of (pass t) = accepted
  verdict_of (reject r) = rejected r

  abbrev pub validate_under : ValidateExpected F.Num → Option ℤ → List Op → Verdict
  validate_under e none ops = threw
  validate_under e (some limit) ops = verdict_of (check_ops e limit 0 no_totals ops)

  pub validate_streamed_tx : List Op → ValidateExpected F.Num → Verdict
  validate_streamed_tx [] e = rejected no_operations
  validate_streamed_tx (op ∷ ops) e = validate_under e (cap_raw e) (op ∷ ops)
