-- ===== src/Broker/Guard/Tests.antt =====
-- The guard at concrete inputs.
use decant_fi.Common.{◌≡◌, refl, ◌⊎◌, ◌↔◌, List, [], ◌∷◌, none, some, All, replicate}
use decant_fi.Common.Int.{ℤ, pos, ◌+ℤ◌, ◌-ℤ◌, ◌*ℤ◌, ◌≤ℤ◌}
use decant_fi.Common.Float.{fixed}
use decant_fi.Broker.Guard.{
  Op, path_payment_strict_send, invoke_host_function, StrictSend, Invocation, args, routes, text,
  other_value, ValidateExpected, accepted, rejected, drain, validate_streamed_tx, cap_raw,
  check_ops, check_op, check_invoke, check_args, check_trader, check_sold, check_target,
  check_amounts, sum_amounts, check_send, check_receive, check_fee, check_self_send,
  check_self_receive, below_floor,
}
use decant_fi.Broker.Guard.Decides.{IsSafeTx, validate_streamed_tx_iff}
use decant_fi.Broker.Guard.Caps.{accepted-Caps, RoutesInRange, total_sold, self_sends_uncapped}

guard : Unit {0}
unfolding validate_streamed_tx check_ops check_op check_invoke check_args check_trader check_sold
    check_target check_amounts sum_amounts check_send check_receive check_fee check_self_send
    check_self_receive below_floor ◌+ℤ◌ ◌-ℤ◌ ◌*ℤ◌
guard = tt

abbrev expected : ValidateExpected ℤ
expected = record {
  trader = "GTRADER";
  max_sell_amount = fixed.lit 5000 0;
  router_contract_id = "CROUTER";
  fee_account = some "GFEE";
  max_fee_amount = some (fixed.lit 25 0);
  min_received_rate = some (fixed.lit 2 2);
}

abbrev swap_call : Invocation
swap_call = record {
  contract_id = some "CROUTER";
  function_name = some "swap";
  arguments = args (
      other_value
      ∷ routes (some (pos 30_000_000_000) ∷ some (pos 20_000_000_000) ∷ [])
      ∷ text "GTRADER"
      ∷ []);
}

abbrev self_send : StrictSend
self_send = record {
  destination = "GTRADER";
  send_amount = some "5000.0000000";
  dest_min = some "100";
}

abbrev fee_send : StrictSend
fee_send = record { destination = "GFEE"; send_amount = some "1.25"; dest_min = some "0" }

abbrev streamed : List Op
streamed = invoke_host_function swap_call ∷ path_payment_strict_send fee_send ∷ []

streamed-accepted : validate_streamed_tx fixed streamed expected ≡ accepted
unfolding guard
streamed-accepted = refl

self_send-accepted :
    validate_streamed_tx fixed (path_payment_strict_send self_send ∷ []) expected ≡ accepted
unfolding guard
self_send-accepted = refl

-- Sent elsewhere.
drained :
    validate_streamed_tx fixed
      (path_payment_strict_send
          (record { destination = "GTHIEF"; send_amount = some "1"; dest_min = none })
        ∷ [])
      expected
    ≡ rejected (drain 0)
unfolding guard
drained = refl

accepted-Caps_example :
    (limit : ℤ) × (cap_raw fixed expected ≡ some limit)
    × All (RoutesInRange fixed expected limit) streamed
    × ((total_sold fixed expected streamed ≤ℤ pos 0)
        ⊎ (total_sold fixed expected streamed ≤ℤ limit))
accepted-Caps_example = accepted-Caps fixed expected streamed streamed-accepted

validate_streamed_tx_iff_example :
    (validate_streamed_tx fixed streamed expected ≡ accepted) ↔ IsSafeTx fixed expected streamed
validate_streamed_tx_iff_example = validate_streamed_tx_iff fixed expected streamed

self_sends_uncapped_example :
    validate_streamed_tx fixed (replicate 4 (path_payment_strict_send self_send)) expected
    ≡ accepted
self_sends_uncapped_example = self_sends_uncapped fixed expected self_send 3 refl self_send-accepted
