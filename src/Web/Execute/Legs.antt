-- ===== src/Web/Execute/Legs.antt =====
-- web/execute.ts: the legs of an Ultra Stellar route and the operations built from them.
pub mod Sends
pub mod Built
mod Tests
use decant_fi.Common.{
  ℕ, zero, suc, Bool, true, false, not, ◌&&◌, ◌||◌, List, [], ◌∷◌, Option, none, some, String,
  str_eq, any, map, length, set, get_elem?, if◌then◌else◌, ◌>>=◌,
}
use decant_fi.Common.Int.{ℤ, pos, ◌+ℤ◌, ◌-ℤ◌, ltb_ℤ, leb_ℤ, eq_ℤ}
use decant_fi.Core.Amount.{Parsed, to_stroops, from_stroops}
use decant_fi.Core.Amount
use decant_fi.Core.Types.{Asset}
use decant_fi.Web.Execute.{
  ExecError, exec_error, trustline_missing, funds, no_route, Outcome, ok, refused, broke,
  min_received,
}

pub record PathRecord : Type 0 where
  pub asset_type : Option String
  pub asset_code : Option String
  pub asset_issuer : Option String

pub record UltraLeg : Type 0 where
  pub send_stroops : ℤ
  pub dest_stroops : ℤ
  pub path : List PathRecord

-- An entry of `extended_paths`: amounts that are missing are empty texts, a path that is no array is
-- empty.
pub record ExtendedPath : Type 0 where
  pub source_amount : List ℕ
  pub destination_amount : List ℕ
  pub path : List PathRecord

pub record UltraQuote : Type 0 where
  pub net_out : ℤ
  pub legs : List UltraLeg

-- `reduce((a, b) => a + b, …)`
unfoldable pub sum_from : ℤ → List ℤ → ℤ
sum_from total [] = total
sum_from total (v ∷ vs) = sum_from (total +ℤ v) vs

abbrev pub sum : List ℤ → ℤ
sum = sum_from (pos 0)

abbrev pub parsed : Parsed → Option ℤ
parsed (Amount.ok v) = some v
parsed (Amount.err e) = none

abbrev pub positive_leg : ℤ → ℤ → List PathRecord → List UltraLeg → List UltraLeg
positive_leg send dest path legs =
    if ltb_ℤ (pos 0) send && ltb_ℤ (pos 0) dest
    then record { send_stroops = send; dest_stroops = dest; path = path } ∷ legs
    else legs

abbrev pub leg_before : Option ℤ → Option ℤ → List PathRecord → List UltraLeg → List UltraLeg
leg_before (some send) (some dest) path legs = positive_leg send dest path legs
leg_before _ _ path legs = legs

-- A leg that cannot be read, or of which nothing is sent or received, is skipped.
unfoldable pub legs_of : List ExtendedPath → List UltraLeg
legs_of [] = []
legs_of (p ∷ ps) =
    leg_before (parsed (to_stroops p.source_amount 7)) (parsed (to_stroops p.destination_amount 7))
      p.path (legs_of ps)

abbrev pub quote_of : List UltraLeg → Option UltraQuote
quote_of [] = none
quote_of (leg ∷ legs) = some (record {
  net_out = sum (map (λ (l : UltraLeg). l.dest_stroops) (leg ∷ legs));
  legs = leg ∷ legs;
})

unfoldable pub parse_ultra_quote : List ExtendedPath → Option UltraQuote
parse_ultra_quote paths = quote_of (legs_of paths)

-- The loop for the largest leg: the index and the amount of the largest so far.
unfoldable pub largest_from : ℕ → ℤ → ℕ → List ℤ → ℕ
largest_from best most i [] = best
largest_from best most i (v ∷ vs) =
    largest_from (if ltb_ℤ most v then i else best) (if ltb_ℤ most v then v else most) (suc i) vs

abbrev pub or_zero : Option ℤ → ℤ
or_zero none = pos 0
or_zero (some v) = v

-- The residual goes to the leg at an index.
unfoldable pub settle : List ℤ → ℕ → ℤ → Outcome (List ℤ)
settle sends i residual =
    let settled = or_zero (get_elem? sends i) +ℤ residual in
    if leb_ℤ settled (pos 0) then refused (exec_error no_route) else ok (set sends i settled)

-- `reconcileLegSends`
unfoldable pub reconcile_leg_sends : List ℤ → ℤ → Outcome (List ℤ)
reconcile_leg_sends [] total = ok []
reconcile_leg_sends (v ∷ vs) total =
    let residual = total -ℤ sum (v ∷ vs) in
    if eq_ℤ residual (pos 0) then ok (v ∷ vs) else settle (v ∷ vs) (largest_from 0 v 1 vs) residual

-- The SDK's assets.
pub data SdkAsset : Type 0 where
  native : SdkAsset
  issued : Option String → Option String → SdkAsset

abbrev pub sdk_asset : Asset → SdkAsset
sdk_asset a = if a.native then native else issued (some a.code) a.issuer

abbrev pub is_native : PathRecord → Bool
is_native r = elim r.asset_type [ none ↦ false | some t ↦ str_eq t "native" ]

abbrev pub path_asset : PathRecord → SdkAsset
path_asset r = if is_native r then native else issued r.asset_code r.asset_issuer

-- `pathPaymentStrictSend`
pub record StrictSend : Type 0 where
  pub send_asset : SdkAsset
  pub send_amount : List ℕ
  pub destination : String
  pub dest_asset : SdkAsset
  pub dest_min : List ℕ
  pub path : List SdkAsset

pub record Balance : Type 0 where
  pub code : String
  pub issuer : Option String
  pub balance : List ℕ

abbrev pub same_issuer : Option String → Option String → Bool
same_issuer none none = true
same_issuer (some s) (some t) = str_eq s t
same_issuer _ _ = false

abbrev pub holds : Asset → Balance → Bool
holds a b = str_eq b.code a.code && same_issuer b.issuer a.issuer

module _ (sender : String) (sell buy : Asset) where
  -- The operation of a leg; none where the floor throws.
  abbrev pub leg_op : UltraLeg → ℤ → Option ℤ → Option StrictSend
  leg_op leg send none = none
  leg_op leg send (some minimum) = some (record {
    send_asset = sdk_asset sell;
    send_amount = from_stroops send 7;
    destination = sender;
    dest_asset = sdk_asset buy;
    dest_min = from_stroops minimum 7;
    path = map path_asset leg.path;
  })

  abbrev pub op_before : Option StrictSend → Outcome (List StrictSend) → Outcome (List StrictSend)
  op_before (some op) (ok ops) = ok (op ∷ ops)
  op_before none rest = broke
  op_before (some op) (refused e) = refused e
  op_before (some op) broke = broke

  -- The legs and what each sends, side by side.
  unfoldable pub leg_ops : ℕ → List UltraLeg → List ℤ → Outcome (List StrictSend)
  leg_ops slippage_bps [] sends = ok []
  leg_ops slippage_bps (leg ∷ legs) [] = broke
  leg_ops slippage_bps (leg ∷ legs) (send ∷ sends) =
      op_before (leg_op leg send (min_received leg.dest_stroops slippage_bps))
        (leg_ops slippage_bps legs sends)

  abbrev pub ops_from : ℕ → List UltraLeg → Outcome (List ℤ) → Outcome (List StrictSend)
  ops_from slippage_bps legs (ok sends) = leg_ops slippage_bps legs sends
  ops_from slippage_bps legs (refused e) = refused e
  ops_from slippage_bps legs broke = broke

  abbrev pub has_trustline : List Balance → Bool
  has_trustline balances = buy.native || any (holds buy) balances

  -- The operations of the transaction; the account is none where it cannot be loaded.
  unfoldable pub build_ultra :
      Option (List Balance) → List UltraLeg → ℤ → ℕ → Outcome (List StrictSend)
  build_ultra none legs amount slippage_bps = refused (exec_error funds)
  build_ultra (some balances) legs amount slippage_bps =
      if has_trustline balances
      then ops_from slippage_bps legs
          (reconcile_leg_sends (map (λ (l : UltraLeg). l.send_stroops) legs) amount)
      else refused (trustline_missing buy)
