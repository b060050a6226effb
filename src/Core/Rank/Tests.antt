-- ===== src/Core/Rank/Tests.antt =====
-- Rankings at concrete inputs.
use decant_fi.Common.{ℕ, List, [], ◌∷◌, none, String}
use decant_fi.Common.Int.{ℤ, pos}
use decant_fi.Common.Float.{fixed}
use decant_fi.Core.Types.{NormalizedQuote, Asset, blnd, usdc, exact}
use decant_fi.Core.Rank.{rank_quotes}
use decant_fi.Core.Rank.Order.{IsRanking, IsBest, rank_quotes-IsRanking, rank_quotes-IsBest}

abbrev quote_of : String → Asset → Asset → ℕ → ℕ → NormalizedQuote ℤ
quote_of source sell buy gross net = record {
  source = source;
  sell_asset = sell;
  buy_asset = buy;
  amount_in = pos 50_000_000_000;
  gross_out = pos gross;
  fee_breakdown = [];
  gas_xlm = pos 100;
  gas_in_target = pos 0;
  net_out = pos net;
  net_confidence = exact;
  net_range = none;
  route = [];
  price_impact_pct = none;
  price_impact_local_pct = none;
  raw = record { swap_chain_xdr = none; route = none };
  duration_ms = none;
}

abbrev leg1_quotes : List (NormalizedQuote ℤ)
leg1_quotes =
    quote_of "horizon" blnd usdc 700 690
    ∷ quote_of "soroswap" blnd usdc 0 0
    ∷ quote_of "xbull" blnd usdc 710 700
    ∷ []

rank_quotes-IsRanking_example : IsRanking fixed leg1_quotes (rank_quotes fixed leg1_quotes).ranked
rank_quotes-IsRanking_example = rank_quotes-IsRanking fixed leg1_quotes

rank_quotes-IsBest_example : IsBest fixed leg1_quotes (rank_quotes fixed leg1_quotes).best
rank_quotes-IsBest_example = rank_quotes-IsBest fixed leg1_quotes
