-- ===== src/Web/Quotes/Live.antt =====
-- web/quote-api.ts: `liveQuote` as a whole: the engine is asked, with the legs of a composite
-- simulated again for EURC, its result is simulated again, and what is left is shown.
mod Tests
use decant_fi.Common.{
  [], ◌∷◌, ◌≡◌, sym, ap, ◌∙◌, Bool, true, false, ◌&&◌, List, Option, none, some, String, str_eq,
  map, ◌>>=◌, if◌then◌else◌,
}
use decant_fi.Common.Int.{ℤ}
use decant_fi.Common.Float.{Floats}
use decant_fi.Core.Types.{Asset, blnd, usdc, eurc}
use decant_fi.Core.Rank.{Ranking, RankedQuote, rank_quotes}
use decant_fi.Core.Prices.{Prices}
use decant_fi.Core.Executable.{is_executable_source}
use decant_fi.Core.Eurc.{EurcComparison}
use decant_fi.Core.Engine.{
  Adapter, QuoteAll, QuoteResult, EngineConfig, quote, quote_all, request, comparison_for,
  eurc_quoters,
}
use decant_fi.Web.Quotes.Resim.{Simulators, make_re_sim_leg}
use decant_fi.Web.Quotes.Resim.Result.{corrected, resim_comparison, resim_aquarius_xbull}
use decant_fi.Web.Quotes.Ladder.{Best, choose_best, live_quote}
use decant_fi.Web.Quotes.Shapes.{LiveQuote}
use decant_fi.Web.Quotes.Ladder.Shown.{IsShown}

module _ (F : Floats) (adapters : List (Adapter F.Num)) (prices : Prices F.Num) (s : Simulators)
    (pair : String) (amount : ℤ) where
  abbrev pub buy_asset : Asset
  buy_asset = if str_eq pair "EURC" then eurc else usdc

  abbrev pub live_config : EngineConfig F
  live_config = record {
    slippage_bps = none;
    adapters = adapters;
    re_sim_leg = if str_eq pair "EURC" then some (make_re_sim_leg s) else none;
  }

  -- The result of the engine after the re-simulation.
  unfoldable pub live_result : Option (QuoteResult F)
  live_result = quote F live_config prices blnd buy_asset amount >>= λ result.
      some (resim_aquarius_xbull F s pair prices amount result)

  unfoldable pub live : Option (LiveQuote F.Num)
  live = live_result >>= λ result. some (live_quote F pair amount prices result)

  abbrev engine_result : QuoteAll F.Num → QuoteResult F
  engine_result main = record {
    main = main;
    ranking = rank_quotes F main.quotes;
    comparison = comparison_for F live_config prices blnd buy_asset amount;
  }

  -- What is shown with the best quote, if there is one.
  abbrev pub ShowsBest : LiveQuote F.Num → QuoteResult F → Option (Best F.Num) → Type 0
  ShowsBest q result none = q.ladder ≡ []
  ShowsBest q result (some b) = IsShown F pair amount prices result b q

  abbrev pub IsShownFor : LiveQuote F.Num → QuoteResult F → Type 0
  IsShownFor q result = ShowsBest q result (choose_best F pair amount prices result)

  abbrev pub IsOfResult : LiveQuote F.Num → Type 0
  IsOfResult q = (result : QuoteResult F) × (live_result ≡ some result) × IsShownFor q result

  asked : Option (QuoteAll F.Num)
  asked = quote_all F (request F blnd buy_asset amount none) prices adapters
