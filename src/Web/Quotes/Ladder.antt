-- ===== src/Web/Quotes/Ladder.antt =====
-- web/quote-api.ts: `liveQuote` from the result of the engine: the quote that is shown as the best,
-- and the rows below it.
pub mod Order
pub mod Topped
pub mod Shown
mod Tests
use decant_fi.Web.Quotes.Shapes.{
  CompositeLeg, RawRow, LiveLadderRow, Headline, DownSource, LiveQuote,
}
use decant_fi.Common.{
  ℕ, zero, Bool, true, false, List, [], ◌∷◌, ◌++◌, Option, none, some, String, str_eq, append_text,
  get_key, length, map, if◌then◌else◌,
}
use decant_fi.Common.Int.{ℤ, pos, ltb_ℤ}
use decant_fi.Common.Float.{Floats}
use decant_fi.Common.Sort.{sort_by}
use decant_fi.Core.Types.{NetConfidence, exact, RouteHop, NetRange}
use decant_fi.Core.Rank.{RankedQuote, to_number, is_positive}
use decant_fi.Core.Eurc.{EurcComparison, ViaUsdcResult, Winner, direct, via_usdc}
use decant_fi.Core.Engine.{QuoteAll, QuoteResult}
use decant_fi.Core.Executable.{is_executable_source}
use decant_fi.Core.Prices.{Prices, price_impact_pct, target_evm_per_unit, target_local_per_unit}
use decant_fi.Web.Quotes.Names.{
  display_name, Chip, chip_for, est, route_str, RibbonPart, build_route,
}

-- The quote that is taken for the best one.
pub data Best (Num : Type 0) : Type 0 where
  simple : RankedQuote Num → Best Num
  composite : ViaUsdcResult Num → Best Num

-- The id of a composite.
abbrev pub joined_id : String → String → String
joined_id leg1 leg2 = append_text leg1 (append_text "+" leg2)

-- `r2.split(' → ').slice(1)`
abbrev pub without_first : List String → List String
without_first [] = []
without_first (s ∷ ss) = ss

module _ {Num : Type 0} where
  abbrev pub best_net : Best Num → ℤ
  best_net (simple q) = q.net_out
  best_net (composite v) = v.net_eurc

  abbrev pub simple_of : Option (RankedQuote Num) → Option (Best Num)
  simple_of none = none
  simple_of (some q) = some (simple q)

  abbrev pub eurc_best :
      Option (Best Num)
      → Option Winner
      → Option (ViaUsdcResult Num)
      → Option (RankedQuote Num)
      → Option (Best Num)
  eurc_best ranked (some via_usdc) (some v) d = some (composite v)
  eurc_best ranked (some direct) v (some d) = some (simple d)
  eurc_best ranked _ _ _ = ranked

  abbrev pub compared_best : Option (Best Num) → Option (EurcComparison Num) → Option (Best Num)
  compared_best ranked none = ranked
  compared_best ranked (some c) = eurc_best ranked c.winner c.via c.direct_quote

  abbrev pub positive_best : Option (Best Num) → Option (Best Num)
  positive_best none = none
  positive_best (some b) = if is_positive (best_net b) then some b else none

  abbrev pub nets_less : RawRow Num → RawRow Num → Bool
  nets_less a b = ltb_ℤ a.net_out b.net_out

module _ (F : Floats) (pair : String) (amount : ℤ) (prices : Prices F.Num) where
  abbrev pub composite_impact : ℤ → Option F.Num
  composite_impact net =
      price_impact_pct F amount net prices.blnd_usd (target_evm_per_unit F "EURC" prices)

  abbrev pub composite_local_impact : ℤ → Option F.Num
  composite_local_impact net =
      price_impact_pct F amount net prices.blnd_usd (target_local_per_unit F "EURC" prices)

  abbrev pub row_of : RankedQuote F.Num → RawRow F.Num
  row_of q = record {
    source = q.source;
    net_out = q.net_out;
    conf = q.net_confidence;
    route = route_str q.route q.sell_asset.symbol q.buy_asset.symbol;
    hops = some q.route;
    impact_pct = q.price_impact_pct;
    impact_local_pct = q.price_impact_local_pct;
    legs = none;
    floor = elim q.net_range [ none ↦ none | some range ↦ some (to_number F range.low) ];
  }

  abbrev pub leg_shown : RankedQuote F.Num → String → String → ℤ → ℤ → CompositeLeg F.Num
  leg_shown leg from to spent received = record {
    source_id = leg.source;
    display = display_name leg.source;
    from = from;
    to = to;
    hops = length leg.route;
    route_parts = build_route F leg.route spent received to;
  }

  abbrev pub composite_legs : ViaUsdcResult F.Num → List (CompositeLeg F.Num)
  composite_legs v =
      leg_shown v.leg1 "BLND" "USDC" amount v.leg1.gross_out
      ∷ leg_shown v.leg2 "USDC" "EURC" v.leg1.gross_out v.leg2.net_out
      ∷ []

  abbrev pub composite_row : ViaUsdcResult F.Num → RawRow F.Num
  composite_row v = record {
    source = joined_id v.leg1.source v.leg2.source;
    net_out = v.net_eurc;
    conf = exact;
    route =
        route_str v.leg1.route v.leg1.sell_asset.symbol v.leg1.buy_asset.symbol
        ++ without_first (route_str v.leg2.route v.leg2.sell_asset.symbol v.leg2.buy_asset.symbol);
    hops = none;
    impact_pct = composite_impact v.net_eurc;
    impact_local_pct = composite_local_impact v.net_eurc;
    legs = some (composite_legs v);
    floor = none;
  }

  -- The composite of the comparison, for EURC.
  abbrev pub composite_of : Option (EurcComparison F.Num) → Option (ViaUsdcResult F.Num)
  composite_of none = none
  composite_of (some c) = if str_eq pair "EURC" then c.via else none

  abbrev pub with_composite :
      Option (ViaUsdcResult F.Num) → List (RawRow F.Num) → List (RawRow F.Num)
  with_composite none rows = rows
  with_composite (some v) rows = rows ++ composite_row v ∷ []

  unfoldable pub raw_rows : QuoteResult F → List (RawRow F.Num)
  raw_rows result =
      with_composite (composite_of result.comparison) (map row_of result.ranking.ranked)

  abbrev pub render : F.Num → Bool → RawRow F.Num → LiveLadderRow F.Num
  render top is_first r = record {
    display = display_name r.source;
    route = r.route;
    route_parts = elim r.hops [
      | none ↦ none
      | some hops ↦ some (build_route F hops amount r.net_out pair)
    ];
    net = to_number F r.net_out;
    delta_vs_winner = F.sub (to_number F r.net_out) top;
    chip = chip_for r.conf;
    impact_pct = r.impact_pct;
    impact_local_pct = r.impact_local_pct;
    winner = is_first;
    source_id = r.source;
    executable = is_executable_source r.source;
    legs = r.legs;
    floor = r.floor;
  }

  abbrev pub ladder_of : List (RawRow F.Num) → List (LiveLadderRow F.Num)
  ladder_of [] = []
  ladder_of (r ∷ rs) =
      let top = to_number F r.net_out in render top true r ∷ map (render top false) rs

  abbrev pub choose_best : QuoteResult F → Option (Best F.Num)
  choose_best result =
      let ranked = simple_of result.ranking.best in
      positive_best (if str_eq pair "EURC" then compared_best ranked result.comparison else ranked)

  abbrev pub headline : Best F.Num → Headline F.Num
  headline (simple q) = record {
    display = display_name q.source;
    net = to_number F q.net_out;
    rate =
        if F.lt (F.lit 0 0) (to_number F amount)
        then F.div (to_number F q.net_out) (to_number F amount)
        else F.lit 0 0;
    chip = chip_for q.net_confidence;
    impact_pct = q.price_impact_pct;
    impact_local_pct = q.price_impact_local_pct;
    route = build_route F q.route amount q.net_out pair;
    legs = none;
  }
  headline (composite v) = record {
    display = display_name (joined_id v.leg1.source v.leg2.source);
    net = to_number F v.net_eurc;
    rate =
        if F.lt (F.lit 0 0) (to_number F amount)
        then F.div (to_number F v.net_eurc) (to_number F amount)
        else F.lit 0 0;
    chip = chip_for exact;
    impact_pct = composite_impact v.net_eurc;
    impact_local_pct = composite_local_impact v.net_eurc;
    route = build_route F (v.leg1.route ++ v.leg2.route) amount v.net_eurc pair;
    legs = some (composite_legs v);
  }

  abbrev pub no_headline : Headline F.Num
  no_headline = record {
    display = 0x2014 ∷ [];
    net = F.lit 0 0;
    rate = F.lit 0 0;
    chip = est;
    impact_pct = none;
    impact_local_pct = none;
    route = [];
    legs = none;
  }

  abbrev pub down_source : List (String × String) → String → DownSource
  down_source reasons id = record {
    display = display_name id;
    source_id = id;
    reason = elim (get_key reasons id) [ none ↦ "indisponible" | some reason ↦ reason ];
  }

  abbrev pub quoted : QuoteResult F → Option (Best F.Num) → LiveQuote F.Num
  quoted result none = record {
    best = no_headline;
    ladder = [];
    prices = prices;
    errors = result.main.errors;
    down_sources = map (down_source result.main.error_reasons) result.main.errors;
  }
  quoted result (some b) = record {
    best = headline b;
    ladder = ladder_of (sort_by nets_less (raw_rows result));
    prices = prices;
    errors = result.main.errors;
    down_sources = map (down_source result.main.error_reasons) result.main.errors;
  }

  -- `liveQuote` from the result as it is after the re-simulation.
  unfoldable pub live_quote : QuoteResult F → LiveQuote F.Num
  live_quote result = quoted result (choose_best result)
