-- ===== src/Collector/Rows.antt =====
-- collector/tick.ts and collector/probes.ts: the probes of a tick and the rows that it stores for
-- each, without the raw JSON.
pub mod Winners
mod Tests
use decant_fi.Common.{
  ℕ, Bool, true, false, List, [], ◌∷◌, ◌++◌, Option, none, some, String, str_eq, map, append_text,
  if◌then◌else◌,
}
use decant_fi.Common.Int.{ℤ, pos, ◌+ℤ◌}
use decant_fi.Common.Float.{Floats}
use decant_fi.Core.Types.{
  Asset, FeeItem, RouteHop, NormalizedQuote, NetConfidence, exact, usdc, eurc,
}
use decant_fi.Core.Rank.{RankedQuote, Ranking}
use decant_fi.Core.Eurc.{Winner, direct, via_usdc, EurcComparison, ViaUsdcResult}
use decant_fi.Core.Prices.{Prices, price_impact_pct, target_evm_per_unit}

pub record Probe : Type 0 where
  pub pair : String
  pub buy : Asset
  pub amount_in : ℤ

pub data Symbol : Type 0 where
  sym_usdc sym_eurc : Symbol

abbrev pub probe_for : ℤ → Symbol → Probe
probe_for amount sym_usdc = record { pair = "BLND->USDC"; buy = usdc; amount_in = amount }
probe_for amount sym_eurc = record { pair = "BLND->EURC"; buy = eurc; amount_in = amount }

-- The sizes times the pairs, the pairs of a size together.
pub build_probes : List ℤ → List Symbol → List Probe
build_probes [] pairs = []
build_probes (amount ∷ sizes) pairs = map (probe_for amount) pairs ++ build_probes sizes pairs

pub record QuoteInsert (Num : Type 0) : Type 0 where
  pub pair : String
  pub amount_in : ℤ
  pub source_id : String
  pub net_out : ℤ
  pub net_confidence : NetConfidence
  pub price_impact_pct : Option Num
  pub gas_in_target : ℤ
  pub fee_total : Option ℤ
  pub route_summary : String
  pub is_winner : Bool
  pub eurc_path : Option String
  pub duration_ms : Option ℕ

abbrev pub or_zero : Option ℤ → ℤ
or_zero none = pos 0
or_zero (some v) = v

abbrev is_asset : String → Option String → Bool
is_asset symbol none = false
is_asset symbol (some a) = str_eq a symbol

abbrev add_fee : String → FeeItem → Option ℤ → Option ℤ → Option ℤ
add_fee symbol fee none sum = sum
add_fee symbol fee (some amount) sum =
    if is_asset symbol fee.asset then some (or_zero sum +ℤ amount) else sum

-- The fees in the target asset; none if there is no such fee.
pub fee_total_from : String → Option ℤ → List FeeItem → Option ℤ
fee_total_from symbol sum [] = sum
fee_total_from symbol sum (fee ∷ fees) =
    fee_total_from symbol (add_fee symbol fee fee.amount sum) fees

pub hops_summary : List RouteHop → String
hops_summary [] = ""
hops_summary (hop ∷ hops) = append_text "->" (append_text hop.buy (hops_summary hops))

module _ {Num : Type 0} where
  pub route_summary_of : NormalizedQuote Num → List RouteHop → String
  route_summary_of q [] = append_text q.sell_asset.symbol (append_text "->" q.buy_asset.symbol)
  route_summary_of q (hop ∷ hops) = append_text hop.sell (hops_summary (hop ∷ hops))

  pub row_from_quote : Probe → NormalizedQuote Num → Bool → Option String → QuoteInsert Num
  row_from_quote probe q winner path = record {
    pair = probe.pair;
    amount_in = probe.amount_in;
    source_id = q.source;
    net_out = q.net_out;
    net_confidence = q.net_confidence;
    price_impact_pct = q.price_impact_pct;
    gas_in_target = q.gas_in_target;
    fee_total = fee_total_from q.buy_asset.symbol none q.fee_breakdown;
    route_summary = route_summary_of q q.route;
    is_winner = winner;
    eurc_path = path;
    duration_ms = q.duration_ms;
  }

  -- A row per ranked quote; the mark goes to the first.
  pub ranked_rows : Probe → Option String → Bool → List (RankedQuote Num) → List (QuoteInsert Num)
  ranked_rows probe path first [] = []
  ranked_rows probe path first (r ∷ rs) =
      row_from_quote probe r.quote first path ∷ ranked_rows probe path false rs

abbrev pub wins_direct : Option Winner → Bool
wins_direct (some direct) = true
wins_direct _ = false

abbrev pub wins_via : Option Winner → Bool
wins_via (some via_usdc) = true
wins_via _ = false

module _ (F : Floats) (prices : Prices F.Num) (probe : Probe) where
  pub composite_row : Option Winner → ViaUsdcResult F.Num → QuoteInsert F.Num
  composite_row winner v = record {
    pair = probe.pair;
    amount_in = probe.amount_in;
    source_id = append_text v.leg1.quote.source (append_text "+" v.leg2.quote.source);
    net_out = v.net_eurc;
    net_confidence = exact;
    price_impact_pct =
        price_impact_pct F probe.amount_in v.net_eurc prices.blnd_usd
          (target_evm_per_unit F "EURC" prices);
    gas_in_target = v.leg1.quote.gas_in_target +ℤ v.leg2.quote.gas_in_target;
    fee_total = none;
    route_summary =
        append_text v.leg1.quote.source
          (append_text ":BLND->USDC | " (append_text v.leg2.quote.source ":USDC->EURC"));
    is_winner = wins_via winner;
    eurc_path = some "via-usdc";
    duration_ms = none;
  }

  abbrev pub composite_rows :
      Option Winner → Option (ViaUsdcResult F.Num) → List (QuoteInsert F.Num)
  composite_rows winner none = []
  composite_rows winner (some v) = composite_row winner v ∷ []

  abbrev pub eurc_rows :
      List (RankedQuote F.Num) → Option (EurcComparison F.Num) → List (QuoteInsert F.Num)
  eurc_rows ranked none = ranked_rows probe (some "direct") false ranked
  eurc_rows ranked (some c) =
      ranked_rows probe (some "direct") (wins_direct c.winner) ranked
      ++ composite_rows c.winner c.via

  pub rows_for_probe :
      List (RankedQuote F.Num) → Option (EurcComparison F.Num) → List (QuoteInsert F.Num)
  rows_for_probe ranked comparison =
      if str_eq probe.buy.symbol "EURC"
      then eurc_rows ranked comparison
      else ranked_rows probe none true ranked
