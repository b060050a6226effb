-- ===== src/Core/Split/Tests.antt =====
-- A split at concrete quotes.
use decant_fi.Common.{refl, if◌then◌else◌, List, [], ◌∷◌, none}
use decant_fi.Common.Int.{ℤ, pos, ◌*ℤ◌, ltb_ℤ}
use decant_fi.Common.Float.{fixed}
use decant_fi.Common.Sort.{sort_by, sort_insert}
use decant_fi.Core.Types.{NormalizedQuote, blnd, usdc, exact}
use decant_fi.Core.Rank.{rank_quotes, number_from}
use decant_fi.Core.Split.{analyze_split, point_at}
use decant_fi.Core.Split.Points.{IsHelpful, analyze_split-IsHelpful}

-- A market in which twice the amount pays out less than twice.
abbrev quote_for : ℤ → List (NormalizedQuote ℤ)
quote_for amount =
    record {
      source = "horizon";
      sell_asset = blnd;
      buy_asset = usdc;
      amount_in = amount;
      gross_out = if ltb_ℤ (pos 600) amount then pos 1500 else pos 800;
      fee_breakdown = [];
      gas_xlm = pos 700;
      gas_in_target = pos 0;
      net_out = if ltb_ℤ (pos 600) amount then pos 1500 else pos 800;
      net_confidence = exact;
      net_range = none;
      route = [];
      price_impact_pct = none;
      price_impact_local_pct = none;
      raw = record { swap_chain_xdr = none; route = none };
      duration_ms = none;
    }
    ∷ []

guard : Unit {0}
unfolding analyze_split point_at rank_quotes number_from sort_by sort_insert ◌*ℤ◌
guard = tt

analyze_split-IsHelpful_example : IsHelpful fixed quote_for (pos 1000) (25 ∷ 50 ∷ 100 ∷ [])
unfolding guard
analyze_split-IsHelpful_example =
    analyze_split-IsHelpful fixed quote_for (pos 1000) (25 ∷ 50 ∷ 100 ∷ []) refl
