-- ===== src/Web/Execute/Pick.antt =====
-- web/execute.ts: the venue that a swap is executed at (`pickExecutableVenue`).
pub mod Errors
pub mod Order
pub mod Choice
pub mod Floors
mod Tests
use decant_fi.Common.{
  ℕ, Bool, true, false, not, ◌&&◌, ◌||◌, List, [], ◌∷◌, ◌++◌, Option, none, some, String, str_eq,
  any, find, filter, map, code, ◌==◌, length, ◌>>=◌, if◌then◌else◌,
}
use decant_fi.Common.Int.{ℤ, pos, ◌+ℤ◌, ltb_ℤ}
use decant_fi.Common.Float.{Floats}
use decant_fi.Common.Sort.{sort_by}
use decant_fi.Core.Amount.{to_stroops}
use decant_fi.Core.Types.{Asset, blnd, usdc, eurc, assets, by_sac}
use decant_fi.Core.Rank.{or_else}
use decant_fi.Web.Execute.{
  Venue, xbull, soroswap, horizon, aquarius, comet, ultrastellar, ExecCode, trustline, funds,
  slippage, down, no_route, ExecError, exec_error, trustline_missing, Outcome, ok, refused, broke,
  min_received, Target, to_usdc, to_eurc, BuildType, swap, Gas, ReviewData, Displayed, review_data,
  Stop, named, shortened, RouteText, joined, split_sdex,
}
use decant_fi.Web.Execute.Legs.{UltraLeg, PathRecord, is_native}
use decant_fi.Web.Execute.Offers.{
  Candidate, at_xbull, at_soroswap, at_horizon, at_aquarius, at_comet, at_ultra, venue_of, net_of,
  venue_eq, target_asset, target_text, Preflight, Simulated, XbullBuild, Picked, Venues, Sell,
  sell_asset, comet_asked, offered, nets_less, aquarius_stop, horizon_stop, soroswap_route,
  at_least_two,
}

-- What an attempt gives: a pick, or the error that is kept.
pub data Attempt (Num : Type 0) : Type 0 where
  success : Picked Num → Attempt Num
  failed : Option ExecError → Attempt Num

pub data PickResult (Num : Type 0) : Type 0 where
  picked : Picked Num → PickResult Num
  no_pick : ExecError → PickResult Num
  threw : PickResult Num

abbrev pub code_eq : ExecCode → ExecCode → Bool
code_eq trustline trustline = true
code_eq funds funds = true
code_eq slippage slippage = true
code_eq down down = true
code_eq _ _ = false

abbrev pub with_code : ExecCode → List ExecError → Option ExecError
with_code code errors = find (λ (e : ExecError). code_eq e.code code) errors

-- The first of the errors by priority, or one of its own.
unfoldable pub prior_error : List ExecError → ExecError
prior_error errors =
    elim (or_else (with_code trustline errors) (
      or_else (with_code funds errors)
        (or_else (with_code slippage errors) (with_code down errors)))) [
          | none ↦ exec_error down
          | some e ↦ e
        ]

abbrev pub keep_error : Option ExecError → List ExecError → List ExecError
keep_error none errors = errors
keep_error (some e) errors = errors ++ e ∷ []

abbrev pub is_missing : Option Bool → Bool
is_missing none = false
is_missing (some found) = not found

-- `return` on success, `continue` on failure.
abbrev pub after_attempt :
    {Num : Type 0} → Attempt Num → (Option ExecError → PickResult Num) → PickResult Num
after_attempt (success p) more = picked p
after_attempt (failed e) more = more e

module _ (F : Floats) (v : Venues F.Num) (sell : Sell) (target : Target) (amount : ℤ)
    (sender : String) (slippage_bps : ℕ) (displayed : Option (Displayed F.Num))
    (soroswap_configured : Bool) where
  abbrev pub pair_route : RouteText
  pair_route = joined (named (sell_asset sell).code ∷ named (target_text target) ∷ [])

  -- The transaction of a venue with its review.
  abbrev pub review_of :
      Venue → BuildType → ℤ → ℤ → RouteText → String → Option String → Picked F.Num
  review_of venue type net minimum route xdr id = record {
    venue = venue;
    xdr = xdr;
    id = id;
    type = type;
    review =
        review_data F venue target type amount net minimum slippage_bps route (v.gas xdr) displayed;
  }

  abbrev pub built_xdr : Venue → ℤ → ℤ → RouteText → Outcome String → Attempt F.Num
  built_xdr venue net minimum route (ok xdr) =
      success (review_of venue swap net minimum route xdr none)
  built_xdr venue net minimum route (refused e) = failed (some e)
  built_xdr venue net minimum route broke = failed none

  abbrev pub built_xbull : ℤ → ℤ → RouteText → Outcome XbullBuild → Attempt F.Num
  built_xbull net minimum route (ok b) =
      success (review_of xbull b.type net minimum route b.xdr (some b.id))
  built_xbull net minimum route (refused e) = failed (some e)
  built_xbull net minimum route broke = failed none

  -- `const minOut = minReceivedStroops(…); const built = await build…`
  abbrev pub with_floor : Option ℤ → (ℤ → Attempt F.Num) → Attempt F.Num
  with_floor none build = failed none
  with_floor (some minimum) build = build minimum

  abbrev pub xbull_net : ℤ → Option Simulated → ℤ
  xbull_net quoted none = quoted
  xbull_net quoted (some s) = s.net

  abbrev pub xbull_route : Option Simulated → RouteText
  xbull_route none = pair_route
  xbull_route (some s) = at_least_two (map named s.route) pair_route

  abbrev pub try_xbull : ℤ → String → Outcome (Option Simulated) → Attempt F.Num
  try_xbull quoted route (ok sim) =
      with_floor (min_received (xbull_net quoted sim) slippage_bps) λ minimum.
        built_xbull (xbull_net quoted sim) minimum (xbull_route sim)
          (v.build_xbull route sender amount minimum)
  try_xbull quoted route (refused e) = failed (some e)
  try_xbull quoted route broke = failed none

  -- `reduce((s, l) => s + minReceivedStroops(…), 0n)`
  unfoldable pub legs_floor : ℤ → List UltraLeg → Option ℤ
  legs_floor total [] = some total
  legs_floor total (leg ∷ legs) =
      min_received leg.dest_stroops slippage_bps >>= λ m. legs_floor (total +ℤ m) legs

  -- The build comes first, then the floor that the review shows.
  abbrev pub try_ultra : ℤ → List UltraLeg → Outcome String → Attempt F.Num
  try_ultra net legs (ok xdr) = with_floor (legs_floor (pos 0) legs) λ minimum. success (
      review_of ultrastellar swap net minimum
        (split_sdex (sell_asset sell).code (target_text target) (length legs)) xdr none)
  try_ultra net legs (refused e) = failed (some e)
  try_ultra net legs broke = failed none

  pub attempt : Candidate → Attempt F.Num
  attempt (at_xbull net route) = try_xbull net route (v.simulate_xbull route amount)
  attempt (at_horizon net path) = with_floor (min_received net slippage_bps) λ minimum.
      built_xdr horizon net minimum
        (joined (
          named (sell_asset sell).code
          ∷ (map horizon_stop path ++ named (target_text target) ∷ [])))
        (v.build_horizon sender (sell_asset sell) (target_asset target) amount minimum path)
  attempt (at_aquarius net chain tokens) = with_floor (min_received net slippage_bps) λ minimum.
      built_xdr aquarius net minimum (at_least_two (map aquarius_stop tokens) pair_route)
        (v.build_aquarius sender (target_asset target) (sell_asset sell).sac amount minimum chain)
  attempt (at_comet net) =
      with_floor (min_received net slippage_bps)
        λ minimum. built_xdr comet net minimum pair_route (v.build_comet sender amount minimum)
  attempt (at_ultra net legs) =
      try_ultra net legs
        (v.build_ultra sender (sell_asset sell) (target_asset target) legs amount slippage_bps)
  attempt (at_soroswap net minimum path quote) =
      if soroswap_configured
      then built_xdr soroswap net minimum (soroswap_route target path)
          (v.build_soroswap quote sender)
      else failed none

  -- The first candidate that can be built, with the errors so far.
  unfoldable pub build_from : List ExecError → List Candidate → PickResult F.Num
  build_from errors [] = no_pick (prior_error errors)
  build_from errors (c ∷ cs) = after_attempt (attempt c) λ e. build_from (keep_error e errors) cs

  abbrev pub at_venue : Option Venue → Candidate → Bool
  at_venue none c = true
  at_venue (some venue) c = venue_eq (venue_of c) venue

  abbrev pub or_no_route : List Candidate → PickResult F.Num
  or_no_route [] = no_pick (exec_error no_route)
  or_no_route (c ∷ cs) = build_from [] (c ∷ cs)

  -- The candidates in the order in which they are tried.
  abbrev pub tried : Option Venue → Option ℤ → List Candidate
  tried forced comet_out = filter (at_venue forced) (sort_by nets_less (offered v comet_out))

  abbrev pub is_short : Option ℤ → Bool
  is_short none = false
  is_short (some liquid) = ltb_ℤ liquid amount

  pub after_quotes : Option Venue → Option ℤ → PickResult F.Num
  after_quotes forced comet_out =
      if is_missing v.preflight.trustline_found
      then no_pick (trustline_missing (target_asset target))
      else if is_short v.preflight.liquid
      then no_pick (exec_error funds)
      else or_no_route (tried forced comet_out)

  abbrev pub when_quoted : Option Venue → Outcome (Option ℤ) → PickResult F.Num
  when_quoted forced (ok comet_out) = after_quotes forced comet_out
  when_quoted forced (refused e) = no_pick e
  when_quoted forced broke = threw

  pub pick_executable_venue : Option Venue → PickResult F.Num
  pick_executable_venue forced = when_quoted forced (comet_asked sell target v.simulate_comet)
