-- ===== src/Web/Execute.antt =====
-- web/execute.ts: the error of an execution and the amounts that go with it. The texts of messages
-- are left out.
pub mod Legs
pub mod Offers
pub mod Pick
pub mod Submit
use decant_fi.Common.{
  ℕ, suc, ◌+◌, ◌-◌, ◌*◌, ◌/◌, Bool, true, false, ◌||◌, List, [], ◌∷◌, Option, none, some, String,
  str_eq, leb, if◌then◌else◌,
}
use decant_fi.Common.Int.{ℤ, pos, negsuc, ◌-ℤ◌, ◌*ℤ◌, ltb_ℤ}
use decant_fi.Common.Float.{Floats}
use decant_fi.Common.Texts.{includes_word}
use decant_fi.Core.Types.{Asset}
use decant_fi.Core.Rank.{to_number}

pub data Venue : Type 0 where
  xbull soroswap horizon aquarius comet ultrastellar : Venue

pub data ExecCode : Type 0 where
  trustline funds slippage down no_route bad_request : ExecCode

pub record ExecError : Type 0 where
  pub code : ExecCode
  -- the missing asset of a trustline error
  pub asset : Option String

abbrev pub exec_error : ExecCode → ExecError
exec_error code = record { code = code; asset = none }

abbrev pub trustline_missing : Asset → ExecError
trustline_missing buy = record { code = trustline; asset = some buy.code }

-- What a step of the server gives: it may throw an error of its own, or any other.
pub data Outcome {ℓ} (A : Type ℓ) : Type ℓ where
  ok : A → Outcome A
  refused : ExecError → Outcome A
  broke : Outcome A

-- Division of a `bigint` by ten thousand, toward zero.
abbrev pub per_ten_thousand : ℤ → ℤ
per_ten_thousand (pos n) = pos (n / 10_000)
per_ten_thousand (negsuc n) = pos 0 -ℤ pos (suc n / 10_000)

-- The floor under a net amount; none where a RangeError is thrown.
unfoldable pub min_received : ℤ → ℕ → Option ℤ
min_received net slippage_bps =
    if leb 10_000 slippage_bps
    then none
    else some (per_ten_thousand (net *ℤ pos (10_000 - slippage_bps)))

-- `classifyExecError`
unfoldable pub classify_exec_error : String → ExecCode
classify_exec_error message =
    if includes_word message "trust"
    then trustline
    else if includes_word message "fund"
        || includes_word message "balance"
        || includes_word message "enough"
        || includes_word message "insufficient balance"
    then funds
    else if includes_word message "slippage"
        || includes_word message "routerinsufficientoutputamount"
        || includes_word message "output amount"
    then slippage
    else down

pub record Spendable : Type 0 where
  pub exceeds : Bool
  pub spendable_stroops : ℤ

abbrev pub non_negative : ℤ → ℤ
non_negative v = if ltb_ℤ v (pos 0) then pos 0 else v

-- The fee against the balance less the reserve of two entries and the account's own.
pub fee_exceeds_spendable : ℤ → ℤ → ℕ → Spendable
fee_exceeds_spendable max_fee native subentries =
    let spendable = native -ℤ pos ((2 + subentries) * 5_000_000) in
    record { exceeds = ltb_ℤ spendable max_fee; spendable_stroops = non_negative spendable }

pub data Target : Type 0 where
  to_usdc to_eurc : Target

pub data BuildType : Type 0 where
  full restore swap : BuildType

pub record Fidelity (Num : Type 0) : Type 0 where
  pub displayed_winner : String
  pub displayed_winner_net : Num

pub record Gas (Num : Type 0) : Type 0 where
  pub real : Num
  pub max : Num

-- A stop of a displayed route: a symbol, or an address cut to its ends.
pub data Stop : Type 0 where
  named shortened : String → Stop

-- The text of a route: stops joined by arrows, or two assets with the number of legs of a split.
pub data RouteText : Type 0 where
  joined : List Stop → RouteText
  split_sdex : String → String → ℕ → RouteText

pub record ReviewData (Num : Type 0) : Type 0 where
  pub venue : Venue
  pub target : Target
  pub type : BuildType
  pub send_amount : Num
  pub net_out : Num
  pub min_received : Num
  pub slippage_bps : ℕ
  pub route : RouteText
  pub gas : Gas Num
  pub fidelity : Option (Fidelity Num)

pub record Displayed (Num : Type 0) : Type 0 where
  pub winner : Option String
  pub net : Option Num

module _ (F : Floats) where
  -- What was displayed, where it is more than what is executed by over a millionth.
  abbrev pub gap_shown : String → F.Num → F.Num → Option (Fidelity F.Num)
  gap_shown winner shown net =
      if F.lt (F.lit 1 6) (F.sub shown net)
      then some (record { displayed_winner = winner; displayed_winner_net = shown })
      else none

  abbrev pub fidelity_of : Option String → Option F.Num → F.Num → Option (Fidelity F.Num)
  fidelity_of (some winner) (some shown) net =
      if str_eq winner "" then none else gap_shown winner shown net
  fidelity_of _ _ net = none

  abbrev pub shown_of : Option (Displayed F.Num) → F.Num → Option (Fidelity F.Num)
  shown_of none net = none
  shown_of (some d) net = fidelity_of d.winner d.net net

  unfoldable pub review_data :
      Venue
      → Target
      → BuildType
      → ℤ
      → ℤ
      → ℤ
      → ℕ
      → RouteText
      → Gas F.Num
      → Option (Displayed F.Num)
      → ReviewData F.Num
  review_data venue target type send net minimum slippage_bps route gas displayed = record {
    venue = venue;
    target = target;
    type = type;
    send_amount = to_number F send;
    net_out = to_number F net;
    min_received = to_number F minimum;
    slippage_bps = slippage_bps;
    route = route;
    gas = gas;
    fidelity = shown_of displayed (to_number F net);
  }
