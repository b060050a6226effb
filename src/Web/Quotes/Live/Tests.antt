-- ===== src/Web/Quotes/Live/Tests.antt =====
-- A live quote of two sources, for USDC.
use decant_fi.Common.{◌≡◌, refl, ℕ, true, List, [], ◌∷◌, Option, none, some, String, map}
use decant_fi.Common.Int.{ℤ, pos}
use decant_fi.Common.Float.{fixed}
use decant_fi.Common.Sort.{sort_by, sort_insert}
use decant_fi.Core.Rank.{rank_quotes, number_from}
use decant_fi.Core.Prices.{convert_xlm_to_target}
use decant_fi.Core.Engine.{Adapter, fulfilled, quote, quote_all, settle_all, finalize}
use decant_fi.Web.Quotes.Names.{est}
use decant_fi.Web.Quotes.Resim.Tests.{quote_of, simulators, prices}
use decant_fi.Web.Quotes.Resim.Result.{resim_aquarius_xbull, resim_ranking, corrected, simulated}
use decant_fi.Web.Quotes.Ladder.{live_quote, raw_rows}
use decant_fi.Web.Quotes.Shapes.{LiveQuote, LiveLadderRow}
use decant_fi.Web.Quotes.Live.{live, live_result}

abbrev adapter : String → ℕ → Adapter ℤ
adapter id net = record {
  id = id;
  available = true;
  supports = none;
  settles = λ req. fulfilled (some (quote_of id net));
  stored_reason = λ req. none;
  duration_ms = λ req. 120;
}

abbrev adapters : List (Adapter ℤ)
adapters = adapter "aquarius" 700 ∷ adapter "horizon" 690 ∷ []

abbrev amount : ℤ
amount = pos 50_000_000_000

abbrev nothing : LiveQuote ℤ
nothing = record {
  best = record {
    display = [];
    net = pos 0;
    rate = pos 0;
    chip = est;
    impact_pct = none;
    impact_local_pct = none;
    route = [];
    legs = none;
  };
  ladder = [];
  prices = prices;
  errors = [];
  down_sources = [];
}

abbrev or_nothing : Option (LiveQuote ℤ) → LiveQuote ℤ
or_nothing none = nothing
or_nothing (some q) = q

abbrev shown : LiveQuote ℤ
shown = or_nothing (live fixed adapters prices simulators "USDC" amount)

guard : Unit {0}
unfolding live live_result quote quote_all settle_all finalize convert_xlm_to_target
guard = tt

-- Aquarius fills 600 of the 700 that it quoted, so that Horizon comes first.
sources_shown :
    map (λ (w : LiveLadderRow ℤ). w.source_id) shown.ladder ≡ "horizon" ∷ "aquarius" ∷ []
unfolding guard resim_aquarius_xbull resim_ranking corrected simulated live_quote raw_rows
    rank_quotes number_from sort_by sort_insert
sources_shown = refl
