-- ===== src/Web/Execute/Submit/Tests.antt =====
-- A transaction that is fired and polled, and one with a foreign operation.
use decant_fi.Common.{◌≡◌, refl, true, [], ◌∷◌, none, str_eq, if◌then◌else◌}
use decant_fi.Common.Texts.{starts_folded, contains_folded}
use decant_fi.Web.Execute.{
  comet, horizon, ok, refused, exec_error, bad_request, slippage, classify_exec_error,
}
use decant_fi.Web.Execute.Submit.{
  Network, plain, fee_bump, xbull_failed, horizon_threw, replied, pending, is_allowed,
  allowed_op_types, refused_op, assert_allowed_ops, submit, classify_horizon_submit,
}
use decant_fi.Web.Execute.Submit.Allowed.{IsGuarded, submit-IsGuarded}

guard : Unit {0}
unfolding submit assert_allowed_ops refused_op is_allowed allowed_op_types classify_horizon_submit
    contains_folded starts_folded classify_exec_error
guard = tt

abbrev network : Network
network = record {
  decode = λ xdr.
      if str_eq xdr "FOREIGN"
      then plain ("pathPaymentStrictSend" ∷ "accountMerge" ∷ [])
      else fee_bump ("invokeHostFunction" ∷ []);
  xbull_answer = λ id xdr. xbull_failed;
  horizon_answer = λ xdr. horizon_threw ("tx_failed" ∷ "op_under_dest_min" ∷ []) "";
  rpc_send = λ xdr. replied (pending, "abcd");
  soroswap_send = λ xdr. replied ("abcd", true);
}

fired : (submit network none "OWN" comet).0 ≡ ok (record { hash = "abcd"; is_pending = true })
unfolding guard
fired = refl

foreign : submit network none "FOREIGN" comet ≡ (refused (exec_error bad_request), [])
unfolding guard
foreign = refl

moved : (submit network none "OWN" horizon).0 ≡ refused (exec_error slippage)
unfolding guard
moved = refl

submit-IsGuarded_example : IsGuarded network none "OWN" comet (submit network none "OWN" comet)
submit-IsGuarded_example = submit-IsGuarded network none "OWN" comet
