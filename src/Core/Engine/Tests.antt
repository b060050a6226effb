-- ===== src/Core/Engine/Tests.antt =====
-- The engine at concrete sources: two that quote, one that fails.
use decant_fi.Common.{◌≡◌, refl, ℕ, true, List, [], ◌∷◌, Option, none, some, String}
use decant_fi.Common.Int.{ℤ, pos}
use decant_fi.Common.Float.{fixed}
use decant_fi.Core.Types.{NormalizedQuote, QuoteRequest, blnd, usdc, eurc, exact}
use decant_fi.Core.Prices.{Prices, convert_xlm_to_target}
use decant_fi.Core.Engine.{
  Adapter, Settled, fulfilled, rejected, QuoteAll, QuoteResult, EngineConfig, quote_all, quote,
  settle_all, finalize, request,
}
use decant_fi.Core.Engine.Net.{IsBestGross, quote-IsBestGross}
use decant_fi.Core.Engine.Legs.{HasExecutableLegs, quote-HasExecutableLegs}

abbrev quote_of : String → ℕ → QuoteRequest → NormalizedQuote ℤ
quote_of source gross req = record {
  source = source;
  sell_asset = req.sell_asset;
  buy_asset = req.buy_asset;
  amount_in = req.amount_in;
  gross_out = pos gross;
  fee_breakdown = [];
  gas_xlm = pos 700;
  gas_in_target = pos 0;
  net_out = pos 0;
  net_confidence = exact;
  net_range = none;
  route = [];
  price_impact_pct = none;
  price_impact_local_pct = none;
  raw = record { swap_chain_xdr = none; route = none };
  duration_ms = none;
}

abbrev adapter : String → (QuoteRequest → Settled ℤ) → Adapter ℤ
adapter id settles = record {
  id = id;
  available = true;
  supports = none;
  settles = settles;
  stored_reason = λ req. none;
  duration_ms = λ req. 120;
}

abbrev adapters : List (Adapter ℤ)
adapters =
    adapter "xbull" (λ req. fulfilled (some (quote_of "xbull" 700 req)))
    ∷ adapter "soroswap" (λ req. rejected true)
    ∷ adapter "horizon" (λ req. fulfilled (some (quote_of "horizon" 690 req)))
    ∷ []

-- No price is known.
abbrev prices : Prices ℤ
prices = record { blnd_usd = none; xlm_usd = none; eurc_usd = none; eurc_stellar_mid = none }

abbrev config : EngineConfig fixed
config = record { slippage_bps = none; adapters = adapters; re_sim_leg = none }

abbrev req : QuoteRequest
req = request fixed blnd usdc (pos 50_000_000_000) none

guard : Unit {0}
unfolding quote quote_all settle_all finalize convert_xlm_to_target
guard = tt

abbrev nothing : QuoteAll ℤ
nothing = record { quotes = []; errors = []; error_reasons = [] }

abbrev or_nothing : Option (QuoteAll ℤ) → QuoteAll ℤ
or_nothing none = nothing
or_nothing (some all) = all

abbrev settled : QuoteAll ℤ
settled = or_nothing (quote_all fixed req prices adapters)

failed_source : settled.error_reasons ≡ ("soroswap", "timeout") ∷ []
unfolding guard
failed_source = refl

abbrev result_of : Option (QuoteResult fixed) → QuoteResult fixed
result_of none = record {
  main = nothing;
  ranking = record { ranked = []; best = none; floor_quote = none };
  comparison = none;
}
result_of (some r) = r

abbrev to_usdc : QuoteResult fixed
to_usdc = result_of (quote fixed config prices blnd usdc (pos 50_000_000_000))

quote-IsBestGross_example : IsBestGross fixed to_usdc.main.quotes to_usdc.ranking.best
unfolding guard
quote-IsBestGross_example =
    quote-IsBestGross fixed config prices blnd usdc (pos 50_000_000_000) to_usdc refl

abbrev to_eurc : QuoteResult fixed
to_eurc = result_of (quote fixed config prices blnd eurc (pos 50_000_000_000))

quote-HasExecutableLegs_example : HasExecutableLegs fixed config prices to_eurc.comparison
unfolding guard
quote-HasExecutableLegs_example =
    quote-HasExecutableLegs fixed config prices blnd eurc (pos 50_000_000_000) to_eurc refl
