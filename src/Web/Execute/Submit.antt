-- ===== src/Web/Execute/Submit.antt =====
-- web/execute.ts: the submission of a signed transaction (`assertAllowedOps`, `submit`) and its
-- status (`txStatus`). What the SDK decodes and the network answers is an argument; the effects are
-- the calls that reach the network.
pub mod Allowed
mod Tests
use decant_fi.Common.{
  Bool, true, false, not, ◌||◌, List, [], ◌∷◌, Option, none, some, String, str_eq, any, append_text,
  if◌then◌else◌,
}
use decant_fi.Common.Texts.{includes_word}
use decant_fi.Web.Execute.{
  Venue, xbull, soroswap, horizon, aquarius, comet, ultrastellar, ExecCode, slippage, funds,
  trustline, down, bad_request, ExecError, exec_error, Outcome, ok, refused, broke,
  classify_exec_error,
}

pub allowed_op_types : List String
allowed_op_types = "pathPaymentStrictSend" ∷ "invokeHostFunction" ∷ "changeTrust" ∷ []

-- The types of a transaction's operations; a fee bump carries those of the one inside.
pub data Decoded : Type 0 where
  unreadable : Decoded
  plain : List String → Decoded
  fee_bump : List String → Decoded

pub is_allowed : String → Bool
unfolding allowed_op_types
is_allowed type = any (λ t. str_eq t type) allowed_op_types

-- The loop over the operations: the error of the first that is not allowed.
pub refused_op : List String → Option ExecError
refused_op [] = none
refused_op (type ∷ types) =
    let later = refused_op types in if is_allowed type then later else some (exec_error bad_request)

abbrev pub check_types : List String → Option ExecError
check_types [] = some (exec_error bad_request)
check_types (type ∷ types) = refused_op (type ∷ types)

-- `assertAllowedOps`: none where it returns.
pub assert_allowed_ops : Decoded → Option ExecError
assert_allowed_ops unreadable = some (exec_error bad_request)
assert_allowed_ops (plain types) = check_types types
assert_allowed_ops (fee_bump types) = check_types types

-- What is sent, by the service that it goes to.
pub data Call : Type 0 where
  -- the id is what the caller passed
  to_xbull : Option String → String → Call
  to_horizon to_rpc to_soroswap : String → Call

pub data XbullAnswer : Type 0 where
  -- not ok, or no `success`
  xbull_failed : XbullAnswer
  -- the hash, if it is a text
  xbull_sent : Option String → XbullAnswer

pub data HorizonAnswer : Type 0 where
  horizon_sent : String → HorizonAnswer
  -- the result codes, and the message of what was thrown
  horizon_threw : List String → String → HorizonAnswer

pub data SendStatus : Type 0 where
  pending duplicate try_again_later error : SendStatus

-- The reply of an SDK's call that may throw a message.
pub data Answer {ℓ} (A : Type ℓ) : Type ℓ where
  replied : A → Answer A
  threw : String → Answer A

pub record Network : Type 0 where
  pub decode : String → Decoded
  pub xbull_answer : Option String → String → XbullAnswer
  pub horizon_answer : String → HorizonAnswer
  pub rpc_send : String → Answer (SendStatus × String)
  -- the hash, and whether it succeeded
  pub soroswap_send : String → Answer (String × Bool)

pub record Submitted : Type 0 where
  pub hash : String
  -- `status: 'pending'`
  pub is_pending : Bool

abbrev pub done : String → Outcome Submitted
done hash = ok (record { hash = hash; is_pending = false })

abbrev pub failed_with : ExecCode → Outcome Submitted
failed_with code = refused (exec_error code)

abbrev pub xbull_result : XbullAnswer → Outcome Submitted
xbull_result xbull_failed = failed_with down
xbull_result (xbull_sent none) = failed_with down
xbull_result (xbull_sent (some hash)) = if str_eq hash "" then failed_with down else done hash

-- `join(' ')`
abbrev pub join_words : List String → String
join_words [] = ""
join_words (s ∷ []) = s
join_words (s ∷ t ∷ rest) = append_text s (append_text " " (join_words (t ∷ rest)))

unfoldable pub classify_horizon_submit : List String → String → ExecCode
classify_horizon_submit result_codes message =
    let codes = join_words result_codes in
    if includes_word codes "under_dest_min"
      || includes_word codes "too_few_offers"
      || includes_word codes "cross_self"
    then slippage
    else if includes_word codes "no_trust"
        || includes_word codes "no_destination"
        || includes_word codes "not_authorized"
    then trustline
    else if includes_word codes "underfunded"
        || includes_word codes "insufficient"
        || includes_word codes "line_full"
    then funds
    else classify_exec_error (if str_eq codes "" then message else codes)

abbrev pub horizon_result : HorizonAnswer → Outcome Submitted
horizon_result (horizon_sent hash) = done hash
horizon_result (horizon_threw codes message) = failed_with (classify_horizon_submit codes message)

-- The transaction is fired; the client asks for its status.
abbrev pub rpc_result : Answer (SendStatus × String) → Outcome Submitted
rpc_result (replied (pending, hash)) = ok (record { hash = hash; is_pending = true })
rpc_result (replied (duplicate, hash)) = ok (record { hash = hash; is_pending = true })
rpc_result (replied (try_again_later, hash)) = failed_with down
rpc_result (replied (error, hash)) = failed_with down
rpc_result (threw message) = failed_with (classify_exec_error message)

abbrev pub soroswap_result : Answer (String × Bool) → Outcome Submitted
soroswap_result (replied (hash, success)) = if success then done hash else failed_with down
soroswap_result (threw message) = failed_with (classify_exec_error message)

-- The result, with the calls that were made.
abbrev pub Run : Type 0
Run = Outcome Submitted × List Call

module _ (n : Network) (id : Option String) (signed_xdr : String) where
  abbrev pub send_to : Venue → Run
  send_to xbull = (xbull_result (n.xbull_answer id signed_xdr), to_xbull id signed_xdr ∷ [])
  send_to horizon = (horizon_result (n.horizon_answer signed_xdr), to_horizon signed_xdr ∷ [])
  send_to ultrastellar = (horizon_result (n.horizon_answer signed_xdr), to_horizon signed_xdr ∷ [])
  send_to aquarius = (rpc_result (n.rpc_send signed_xdr), to_rpc signed_xdr ∷ [])
  send_to comet = (rpc_result (n.rpc_send signed_xdr), to_rpc signed_xdr ∷ [])
  send_to soroswap = (soroswap_result (n.soroswap_send signed_xdr), to_soroswap signed_xdr ∷ [])

  abbrev pub unless_refused : Option ExecError → Run → Run
  unless_refused (some e) run = (refused e, [])
  unless_refused none run = run

  pub submit : Venue → Run
  submit venue = unless_refused (assert_allowed_ops (n.decode signed_xdr)) (send_to venue)

-- The on-chain status of a hash.
pub data ChainStatus : Type 0 where
  on_chain_success not_found on_chain_failed : ChainStatus

pub data TxStatus : Type 0 where
  success failed still_pending : TxStatus

-- `txStatus`: a service that is down says nothing about the transaction.
pub tx_status : Answer ChainStatus → TxStatus
tx_status (replied on_chain_success) = success
tx_status (replied on_chain_failed) = failed
tx_status (replied not_found) = still_pending
tx_status (threw message) = still_pending
