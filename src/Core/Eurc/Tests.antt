-- ===== src/Core/Eurc/Tests.antt =====
-- A comparison at concrete quotes.
use decant_fi.Common.{refl, ℕ, List, [], ◌∷◌, none, String}
use decant_fi.Common.Int.{ℤ, pos}
use decant_fi.Common.Float.{fixed}
use decant_fi.Core.Types.{NormalizedQuote, Asset, blnd, usdc, eurc, exact}
use decant_fi.Common.Sort.{sort_by, sort_insert}
use decant_fi.Core.Rank.{RankedQuote, delta, to_number, rank_quotes, number_from}
use decant_fi.Core.Eurc.{
  ViaUsdcResult, EurcQuoters, compare_eurc, via_usdc_of, second_leg, best_leg, join_legs,
}
use decant_fi.Core.Eurc.Choice.{
  IsChoice, IsComposite, direct_net, via_net, compare_eurc-IsChoice, compare_eurc-IsComposite,
}

abbrev quote_of : String → Asset → Asset → ℕ → ℕ → NormalizedQuote ℤ
quote_of source sell buy gross net = record {
  source = source;
  sell_asset = sell;
  buy_asset = buy;
  amount_in = pos 50_000_000_000;
  gross_out = pos gross;
  fee_breakdown = [];
  gas_xlm = pos 100;
  gas_in_target = pos 0;
  net_out = pos net;
  net_confidence = exact;
  net_range = none;
  route = [];
  price_impact_pct = none;
  price_impact_local_pct = none;
  raw = record { swap_chain_xdr = none; route = none };
  duration_ms = none;
}

abbrev leg1_quotes : List (NormalizedQuote ℤ)
leg1_quotes =
    quote_of "horizon" blnd usdc 700 690
    ∷ quote_of "soroswap" blnd usdc 0 0
    ∷ quote_of "xbull" blnd usdc 710 700
    ∷ []

abbrev quoters : EurcQuoters ℤ
quoters = record {
  blnd_to_eurc = λ amount. quote_of "horizon" blnd eurc 600 590 ∷ [];
  blnd_to_usdc = λ amount. leg1_quotes;
  usdc_to_eurc = λ amount. quote_of "aquarius" usdc eurc 650 640 ∷ [];
}

compare_eurc-IsChoice_example :
    let c = compare_eurc fixed quoters none none (pos 50_000_000_000) in
    IsChoice (direct_net fixed c) (via_net fixed c) c.winner c.best_net_eurc c.via_usdc_advantage
compare_eurc-IsChoice_example = compare_eurc-IsChoice fixed quoters none none (pos 50_000_000_000)

guard : Unit {0}
unfolding rank_quotes number_from sort_by sort_insert compare_eurc via_usdc_of second_leg best_leg
    join_legs
guard = tt

abbrev alone : NormalizedQuote ℤ → RankedQuote ℤ
alone q = record {
  quote = q;
  rank = 1;
  delta_vs_best_pct = delta fixed (to_number fixed q.net_out) q;
}

abbrev composite : ViaUsdcResult ℤ
composite = record {
  leg1 = alone (quote_of "xbull" blnd usdc 710 700);
  leg2 = alone (quote_of "aquarius" usdc eurc 650 640);
  usdc_mid = pos 710;
  net_eurc = pos 640;
}

compare_eurc-IsComposite_example :
    IsComposite fixed quoters none none (pos 50_000_000_000) composite
unfolding guard
compare_eurc-IsComposite_example =
    compare_eurc-IsComposite fixed quoters none none (pos 50_000_000_000) composite refl
