-- ===== src/Collector/Rows/Tests.antt =====
-- The rows of a probe for USDC.
use decant_fi.Common.{◌≡◌, [], ◌∷◌, none, str_eq}
use decant_fi.Common.Int.{ℤ, pos}
use decant_fi.Common.Float.{fixed}
use decant_fi.Core.Types.{blnd, usdc, exact}
use decant_fi.Core.Rank.{RankedQuote}
use decant_fi.Core.Prices.{Prices}
use decant_fi.Collector.Rows.{Probe, sym_usdc, probe_for, rows_for_probe}
use decant_fi.Collector.Rows.Winners.{winners, marked_rows, rows_for_probe_marks}

abbrev prices : Prices ℤ
prices = record { blnd_usd = none; xlm_usd = none; eurc_usd = none; eurc_stellar_mid = none }

abbrev probe : Probe
probe = probe_for (pos 50_000_000_000) sym_usdc

abbrev best : RankedQuote ℤ
best = record {
  quote = record {
    source = "horizon";
    sell_asset = blnd;
    buy_asset = usdc;
    amount_in = pos 50_000_000_000;
    gross_out = pos 700;
    fee_breakdown = [];
    gas_xlm = pos 700;
    gas_in_target = pos 0;
    net_out = pos 700;
    net_confidence = exact;
    net_range = none;
    route = [];
    price_impact_pct = none;
    price_impact_local_pct = none;
    raw = record { swap_chain_xdr = none; route = none };
    duration_ms = none;
  };
  rank = 1;
  delta_vs_best_pct = pos 0;
}

rows_for_probe_marks_example :
    winners fixed prices probe (rows_for_probe fixed prices probe (best ∷ best ∷ []) none)
    ≡ marked_rows fixed prices probe (str_eq "USDC" "EURC") (best ∷ best ∷ []) none
rows_for_probe_marks_example = rows_for_probe_marks fixed prices probe (best ∷ best ∷ []) none
