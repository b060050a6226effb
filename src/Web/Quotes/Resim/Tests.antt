-- ===== src/Web/Quotes/Resim/Tests.antt =====
-- The re-simulation at a concrete result: Aquarius fills less than it quoted.
use decant_fi.Common.{
  ◌≡◌, refl, sym, subst, ℕ, true, List, [], ◌∷◌, none, some, String, here, there, map,
}
use decant_fi.Common.Int.{ℤ, pos}
use decant_fi.Common.Float.{fixed}
use decant_fi.Common.Sort.{sort_by, sort_insert}
use decant_fi.Core.Types.{NormalizedQuote, NetConfidence, blnd, eurc, exact, estimate}
use decant_fi.Core.Rank.{RankedQuote, rank_quotes, number_from}
use decant_fi.Core.Prices.{Prices}
use decant_fi.Core.Eurc.{direct, direct_wins}
use decant_fi.Core.Engine.{QuoteResult}
use decant_fi.Web.Quotes.Resim.{Simulators, replied, threw, find_source, make_re_sim_leg, resim_leg}
use decant_fi.Web.Quotes.Resim.Result.{resim_aquarius_xbull, resim_ranking, corrected, simulated}
use decant_fi.Web.Quotes.Resim.Honest.{HasOneQuoteEach, IsHonest, resim_aquarius_xbull-IsHonest}

abbrev pub quote_of : String → ℕ → NormalizedQuote ℤ
quote_of source net = record {
  source = source;
  sell_asset = blnd;
  buy_asset = eurc;
  amount_in = pos 50_000_000_000;
  gross_out = pos net;
  fee_breakdown = [];
  gas_xlm = pos 100;
  gas_in_target = pos 0;
  net_out = pos net;
  net_confidence = estimate;
  net_range = none;
  route = [];
  price_impact_pct = none;
  price_impact_local_pct = none;
  raw = record { swap_chain_xdr = some "AAAA"; route = some "r1" };
  duration_ms = none;
}

abbrev pub row : String → ℕ → ℕ → RankedQuote ℤ
row source net rank = record { quote = quote_of source net; rank = rank; delta_vs_best_pct = pos 0 }

abbrev rows : List (RankedQuote ℤ)
rows = row "aquarius" 700 1 ∷ row "horizon" 690 2 ∷ row "xbull" 680 3 ∷ []

abbrev pub before : QuoteResult fixed
before = record {
  main = record { quotes = []; errors = []; error_reasons = [] };
  ranking = record { ranked = rows; best = some (row "aquarius" 700 1); floor_quote = none };
  comparison = some (record {
    direct_quote = some (row "aquarius" 700 1);
    via = none;
    winner = some direct;
    best_net_eurc = some (pos 700);
    via_usdc_advantage = none;
    note = direct_wins;
  });
}

abbrev pub simulators : Simulators
simulators = record {
  aquarius = λ xdr amount sac. replied (some (pos 600));
  xbull = λ route amount. threw;
  broker = λ sell buy amount. replied none;
  has_broker_key = true;
  aquarius_ms = 40;
  xbull_ms = 30;
  broker_ms = 20;
}

abbrev pub prices : Prices ℤ
prices = record { blnd_usd = none; xlm_usd = none; eurc_usd = none; eurc_stellar_mid = none }

abbrev pub after : QuoteResult fixed
after = resim_aquarius_xbull fixed simulators "EURC" prices (pos 50_000_000_000) before

corrected_nets :
    map {B = String × ℤ × NetConfidence}
      (λ (r : RankedQuote ℤ). (r.source, r.net_out, r.net_confidence))
      after.ranking.ranked
    ≡ ("horizon", pos 690, estimate)
      ∷ ("xbull", pos 680, estimate)
      ∷ ("aquarius", pos 600, exact)
      ∷ []
unfolding resim_aquarius_xbull resim_ranking corrected simulated rank_quotes number_from sort_by
    sort_insert
corrected_nets = refl

-- A leg of which the simulation finds no route is left out.
legs_left :
    map
      (λ (q : NormalizedQuote ℤ). q.source)
      (make_re_sim_leg
        (record simulators { aquarius = λ xdr amount sac. replied none })
        (quote_of "aquarius" 700 ∷ quote_of "xbull" 680 ∷ [])
        (pos 50_000_000_000))
    ≡ "xbull" ∷ []
unfolding make_re_sim_leg resim_leg
legs_left = refl

one_each : HasOneQuoteEach fixed rows
one_each q (here e) = subst (λ (x : RankedQuote ℤ). find_source x.source rows ≡ some x) (sym e) refl
one_each q (there (here e)) =
    subst (λ (x : RankedQuote ℤ). find_source x.source rows ≡ some x) (sym e) refl
one_each q (there (there (here e))) =
    subst (λ (x : RankedQuote ℤ). find_source x.source rows ≡ some x) (sym e) refl
one_each q (there (there (there i))) = elim i [ ]

resim_aquarius_xbull-IsHonest_example :
    IsHonest fixed simulators "EURC" prices (pos 50_000_000_000) before after
resim_aquarius_xbull-IsHonest_example =
    resim_aquarius_xbull-IsHonest fixed simulators "EURC" prices (pos 50_000_000_000) before
      one_each (refl, refl, refl)
