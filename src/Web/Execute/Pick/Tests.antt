-- ===== src/Web/Execute/Pick/Tests.antt =====
-- Horizon offers more than Comet, but its transaction cannot be built.
use decant_fi.Common.{◌≡◌, refl, true, false, [], none, some, Option}
use decant_fi.Common.Int.{ℤ, pos, ◌*ℤ◌}
use decant_fi.Common.Float.{fixed}
use decant_fi.Common.Sort.{sort_by, sort_insert}
use decant_fi.Web.Execute.{
  Venue, horizon, comet, slippage, exec_error, Outcome, ok, refused, broke, to_usdc, swap,
  min_received, review_data,
}
use decant_fi.Web.Execute.Offers.{Venues, Picked, sell_blnd}
use decant_fi.Web.Execute.Pick.{
  PickResult, picked, no_pick, threw, pair_route, prior_error, attempt, build_from, after_quotes,
  pick_executable_venue,
}
use decant_fi.Web.Execute.Pick.Choice.{IsDecided, pick_executable_venue-IsDecided}

guard : Unit {0}
unfolding pick_executable_venue after_quotes build_from attempt prior_error sort_by sort_insert
    min_received review_data ◌*ℤ◌
guard = tt

abbrev venues : Outcome (Option ℤ) → Venues ℤ
venues comet_answer = record {
  preflight = record { trustline_found = some true; liquid = some (pos 900) };
  xbull_quote = none;
  soroswap_quote = none;
  horizon_quote = some (pos 80, []);
  aquarius_quote = none;
  simulate_comet = comet_answer;
  ultra_quote = none;
  simulate_xbull = λ route amount. ok none;
  build_xbull = λ route sender amount minimum. broke;
  build_horizon = λ sender sold bought amount minimum path. refused (exec_error slippage);
  build_aquarius = λ sender bought sac amount minimum chain. broke;
  build_comet = λ sender amount minimum. ok "AAAA";
  build_ultra = λ sender sold bought legs amount bps. broke;
  build_soroswap = λ quote sender. broke;
  gas = λ xdr. record { real = pos 0; max = pos 0 };
}

abbrev venue_picked : PickResult ℤ → Option Venue
venue_picked (picked p) = some p.venue
venue_picked (no_pick e) = none
venue_picked threw = none

abbrev pick : Outcome (Option ℤ) → Option Venue → PickResult ℤ
pick comet_answer forced =
    pick_executable_venue fixed (venues comet_answer) sell_blnd to_usdc (pos 500) "GSENDER" 50 none
      false forced

second : venue_picked (pick (ok (some (pos 75))) none) ≡ some comet
unfolding guard
second = refl

forced_horizon : pick (ok (some (pos 75))) (some horizon) ≡ no_pick (exec_error slippage)
unfolding guard
forced_horizon = refl

-- Where the simulation of Comet throws nothing is picked.
comet_down : pick broke none ≡ threw
unfolding guard
comet_down = refl

pick_executable_venue-IsDecided_example :
    IsDecided fixed
      (venues (ok (some (pos 75))))
      sell_blnd
      to_usdc
      (pos 500)
      "GSENDER"
      50
      none
      false
      none
      (pick (ok (some (pos 75))) none)
pick_executable_venue-IsDecided_example =
    pick_executable_venue-IsDecided fixed (venues (ok (some (pos 75)))) sell_blnd to_usdc (pos 500)
      "GSENDER" 50 none false none

abbrev comet_pick : Picked ℤ
comet_pick = record {
  venue = comet;
  xdr = "AAAA";
  id = none;
  type = swap;
  review =
      review_data fixed comet to_usdc swap (pos 500) (pos 75) (pos 74) 50
        (pair_route fixed (venues broke) sell_blnd to_usdc (pos 500) "GSENDER" 50 none false)
        (record { real = pos 0; max = pos 0 }) none;
}
