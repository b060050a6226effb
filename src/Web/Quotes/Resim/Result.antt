-- ===== src/Web/Quotes/Resim/Result.antt =====
-- web/quote-api.ts: `resimAquariusXbull`, which corrects the ranking and the EURC comparison of a
-- result by what the simulations have shown.
use decant_fi.Common.{
  ℕ, ◌+◌, Bool, ◌||◌, List, [], ◌∷◌, Option, none, some, String, str_eq, is_some, map,
  if◌then◌else◌,
}
use decant_fi.Common.Int.{ℤ, ◌-ℤ◌, ltb_ℤ}
use decant_fi.Common.Float.{Floats}
use decant_fi.Core.Types.{NormalizedQuote, exact}
use decant_fi.Core.Rank.{RankedQuote, Ranking, rank_quotes, or_else}
use decant_fi.Core.Eurc.{EurcComparison, ViaUsdcResult, direct, via_usdc}
use decant_fi.Core.Engine.{QuoteResult}
use decant_fi.Core.Prices.{Prices, price_impact_pct, target_evm_per_unit, target_local_per_unit}
use decant_fi.Web.Quotes.Resim.{
  Simulators, Seen, find_source, aquarius_seen, xbull_seen, broker_seen, downgraded, with_net,
  or_route, observed_fee,
}

pub record Sims : Type 0 where
  pub aquarius : Seen
  pub xbull : Seen
  pub broker : Seen

module _ {Num : Type 0} where
  unfoldable pub simulated : Simulators → ℤ → List (RankedQuote Num) → Sims
  simulated s amount ranked = record {
    aquarius = aquarius_seen s amount (find_source "aquarius" ranked);
    xbull = xbull_seen s amount (find_source "xbull" ranked);
    broker = broker_seen s amount (find_source "stellarbroker" ranked);
  }

abbrev pub has_news : Sims → Bool
has_news sims =
    sims.aquarius.is_observed
    || is_some sims.aquarius.net
    || is_some sims.xbull.net
    || is_some sims.xbull.hops
    || sims.aquarius.has_failed
    || sims.xbull.has_failed
    || is_some sims.broker.net
    || is_some sims.broker.hops

-- `(q.durationMs ?? 0) + ms`
abbrev pub after_ms : Option ℕ → ℕ → Option ℕ
after_ms none ms = some ms
after_ms (some duration) ms = some (duration + ms)

abbrev pub direct_fill : Sims → String → Option ℤ
direct_fill sims source =
    if str_eq source "aquarius"
    then sims.aquarius.net
    else if str_eq source "xbull"
    then sims.xbull.net
    else if str_eq source "stellarbroker"
    then sims.broker.net
    else none

module _ (F : Floats) (s : Simulators) (pair : String) (prices : Prices F.Num) where
  -- With the impact computed again.
  abbrev pub repriced : ℤ → NormalizedQuote F.Num → NormalizedQuote F.Num
  repriced n q = record (with_net n q) {
    price_impact_pct =
        or_else
          (price_impact_pct F q.amount_in n prices.blnd_usd (target_evm_per_unit F pair prices))
          q.price_impact_pct;
    price_impact_local_pct =
        or_else
          (price_impact_pct F q.amount_in n prices.blnd_usd (target_local_per_unit F pair prices))
          q.price_impact_local_pct;
  }

  abbrev pub repriced_if : Option ℤ → NormalizedQuote F.Num → NormalizedQuote F.Num
  repriced_if none q = q
  repriced_if (some n) q = repriced n q

  abbrev pub aquarius_row : Seen → NormalizedQuote F.Num → NormalizedQuote F.Num
  aquarius_row seen q =
      if seen.is_observed
      then record (repriced_if seen.net q) {
        net_confidence = exact;
        duration_ms = after_ms q.duration_ms s.aquarius_ms;
      }
      else if seen.has_failed
      then downgraded q
      else q

  abbrev pub xbull_row : Seen → NormalizedQuote F.Num → NormalizedQuote F.Num
  xbull_row seen q =
      if is_some seen.net || is_some seen.hops
      then record (repriced_if seen.net q) {
        route = or_route seen.hops q.route;
        duration_ms = after_ms q.duration_ms s.xbull_ms;
      }
      else if seen.has_failed
      then downgraded q
      else q

  abbrev pub broker_row : Seen → Option ℤ → NormalizedQuote F.Num → NormalizedQuote F.Num
  broker_row seen none q = q
  broker_row seen (some n) q = record (repriced n q) {
    net_confidence = exact;
    net_range = some (record { low = n; high = n });
    fee_breakdown = observed_fee ∷ [];
    route = or_route seen.hops q.route;
    duration_ms = after_ms q.duration_ms s.broker_ms;
  }

  unfoldable pub corrected : Sims → NormalizedQuote F.Num → NormalizedQuote F.Num
  corrected sims q =
      if str_eq q.source "aquarius"
      then aquarius_row sims.aquarius q
      else if str_eq q.source "xbull"
      then xbull_row sims.xbull q
      else if str_eq q.source "stellarbroker"
      then broker_row sims.broker sims.broker.net q
      else q

  unfoldable pub resim_ranking : Sims → Ranking F.Num → Ranking F.Num
  resim_ranking sims ranking =
      if has_news sims
      then rank_quotes F (map (λ (r : RankedQuote F.Num). corrected sims r.quote) ranking.ranked)
      else ranking

  -- The direct quote at the amount of its simulation, and the winner chosen again.
  abbrev pub rechosen :
      RankedQuote F.Num
      → ℤ
      → Option (ViaUsdcResult F.Num)
      → EurcComparison F.Num
      → EurcComparison F.Num
  rechosen d n none c = record c {
    direct_quote = some (record d { quote = with_net n d.quote });
    winner = some direct;
    best_net_eurc = some n;
    via_usdc_advantage = none;
  }
  rechosen d n (some v) c = record c {
    direct_quote = some (record d { quote = with_net n d.quote });
    winner = some (if ltb_ℤ n v.net_eurc then via_usdc else direct);
    best_net_eurc = some (if ltb_ℤ n v.net_eurc then v.net_eurc else n);
    via_usdc_advantage = some (v.net_eurc -ℤ n);
  }

  abbrev pub with_fill : RankedQuote F.Num → Option ℤ → EurcComparison F.Num → EurcComparison F.Num
  with_fill d none c = c
  with_fill d (some n) c = rechosen d n c.via c

  abbrev pub with_direct :
      Sims → Option (RankedQuote F.Num) → EurcComparison F.Num → EurcComparison F.Num
  with_direct sims none c = c
  with_direct sims (some d) c = with_fill d (direct_fill sims d.source) c

  abbrev pub resim_comparison : Sims → Option (EurcComparison F.Num) → Option (EurcComparison F.Num)
  resim_comparison sims none = none
  resim_comparison sims (some c) =
      some (if str_eq pair "EURC" then with_direct sims c.direct_quote c else c)

  unfoldable pub resim_aquarius_xbull : ℤ → QuoteResult F → QuoteResult F
  resim_aquarius_xbull amount result =
      let sims = simulated s amount result.ranking.ranked in
      record result {
        ranking = resim_ranking sims result.ranking;
        comparison = resim_comparison sims result.comparison;
      }
