-- ===== src/Core/Engine.antt =====
-- core/engine.ts: the sources are queried, each quote is completed, the quotes are ranked, and for
-- EURC the direct swap is compared with the composite one.
pub mod Rounds
pub mod Net
pub mod Legs
mod Tests
use decant_fi.Common.{
  ℕ, Bool, true, false, ◌&&◌, List, [], ◌∷◌, Option, none, some, String, str_eq, filter,
  if◌then◌else◌, set_key, ◌++◌, ◌>>=◌,
}
use decant_fi.Common.Int.{ℤ}
use decant_fi.Common.Float.{Floats}
use decant_fi.Core.Amount.{Parsed, ok, err}
use decant_fi.Core.Types.{Asset, QuoteRequest, NormalizedQuote, blnd, usdc, eurc}
use decant_fi.Core.Rank.{Ranking, rank_quotes, or_else}
use decant_fi.Core.Eurc.{EurcComparison, EurcQuoters, compare_eurc}
use decant_fi.Core.Executable.{is_executable_source}
use decant_fi.Core.Prices.{
  Prices, target_evm_per_unit, target_local_per_unit, price_impact_pct, convert_xlm_to_target,
}

-- How a source settles: with a quote, without one, or by an error; and what it has left in its
-- diagnostic store.
pub data Settled (Num : Type 0) : Type 0 where
  fulfilled : Option (NormalizedQuote Num) → Settled Num
  -- whether the error is a `TimeoutError`
  rejected : Bool → Settled Num

pub record Adapter (Num : Type 0) : Type 0 where
  pub id : String
  pub available : Bool
  pub supports : Option (QuoteRequest → Bool)
  pub settles : QuoteRequest → Settled Num
  pub stored_reason : QuoteRequest → Option String
  pub duration_ms : QuoteRequest → ℕ

pub record QuoteAll (Num : Type 0) : Type 0 where
  pub quotes : List (NormalizedQuote Num)
  pub errors : List String
  pub error_reasons : List (String × String)

abbrev pub or_text : Option String → String → String
or_text none b = b
or_text (some a) b = a

module _ (F : Floats) where
  abbrev pub finalized :
      NormalizedQuote F.Num → Prices F.Num → Parsed → Option (NormalizedQuote F.Num)
  finalized q prices (err e) = none
  finalized q prices (ok gas) =
      let t_evm = target_evm_per_unit F q.buy_asset.symbol prices in
      let t_loc = target_local_per_unit F q.buy_asset.symbol prices in
      some (record q {
        gas_in_target = gas;
        net_out = q.gross_out;
        price_impact_pct =
            or_else (price_impact_pct F q.amount_in q.gross_out prices.blnd_usd t_evm)
              q.price_impact_pct;
        price_impact_local_pct =
            or_else (price_impact_pct F q.amount_in q.gross_out prices.blnd_usd t_loc)
              q.price_impact_local_pct;
      })

  -- None where the conversion of the gas throws.
  unfoldable pub finalize : NormalizedQuote F.Num → Prices F.Num → Option (NormalizedQuote F.Num)
  finalize q prices = finalized q prices (
      convert_xlm_to_target F q.gas_xlm prices.xlm_usd
        (target_evm_per_unit F q.buy_asset.symbol prices))

  abbrev supported : QuoteRequest → Option (QuoteRequest → Bool) → Bool
  supported req none = true
  supported req (some f) = f req

  abbrev pub is_queried : QuoteRequest → Adapter F.Num → Bool
  is_queried req a = a.available && supported req a.supports

  abbrev pub timeout_reason : Settled F.Num → Option String
  timeout_reason (rejected true) = some "timeout"
  timeout_reason _ = none

  abbrev pub reason_of : QuoteRequest → Adapter F.Num → String
  reason_of req a =
      or_text (or_else (timeout_reason (a.settles req)) (a.stored_reason req)) "indisponible"

  abbrev pub push_error : QuoteRequest → Adapter F.Num → QuoteAll F.Num → QuoteAll F.Num
  push_error req a acc = record acc {
    errors = acc.errors ++ a.id ∷ [];
    error_reasons = set_key acc.error_reasons a.id (reason_of req a);
  }

  abbrev pub push_quote : Option (NormalizedQuote F.Num) → QuoteAll F.Num → Option (QuoteAll F.Num)
  push_quote none acc = none
  push_quote (some q) acc = some (record acc { quotes = acc.quotes ++ q ∷ [] })

  -- One round of `settled.forEach`.
  abbrev pub push_settled :
      QuoteRequest
      → Prices F.Num
      → Adapter F.Num
      → Settled F.Num
      → QuoteAll F.Num
      → Option (QuoteAll F.Num)
  push_settled req prices a (fulfilled (some q)) acc =
      push_quote (finalize (record q { duration_ms = some (a.duration_ms req) }) prices) acc
  push_settled req prices a (fulfilled none) acc = some (push_error req a acc)
  push_settled req prices a (rejected timeout) acc = some (push_error req a acc)

  unfoldable pub settle_all :
      QuoteRequest → Prices F.Num → List (Adapter F.Num) → QuoteAll F.Num → Option (QuoteAll F.Num)
  settle_all req prices [] acc = some acc
  settle_all req prices (a ∷ rest) acc = do
    next ← push_settled req prices a (a.settles req) acc
    settle_all req prices rest next

  -- None where a conversion of gas throws.
  unfoldable pub quote_all :
      QuoteRequest → Prices F.Num → List (Adapter F.Num) → Option (QuoteAll F.Num)
  quote_all req prices adapters =
      settle_all req prices (filter (is_queried req) adapters)
        (record { quotes = []; errors = []; error_reasons = [] })

  pub record EngineConfig : Type 0 where
    pub slippage_bps : Option ℕ
    pub adapters : List (Adapter F.Num)
    pub re_sim_leg : Option (List (NormalizedQuote F.Num) → ℤ → List (NormalizedQuote F.Num))

  pub record QuoteResult : Type 0 where
    pub main : QuoteAll F.Num
    pub ranking : Ranking F.Num
    pub comparison : Option (EurcComparison F.Num)

  abbrev pub request : Asset → Asset → ℤ → Option ℕ → QuoteRequest
  request sell buy amount slippage = record {
    sell_asset = sell;
    buy_asset = buy;
    amount_in = amount;
    slippage_bps = elim slippage [ none ↦ 50 | some bps ↦ bps ];
  }

  abbrev quotes_or_none : Option (QuoteAll F.Num) → List (NormalizedQuote F.Num)
  quotes_or_none none = []
  quotes_or_none (some all) = all.quotes

  module _ (cfg : EngineConfig) (prices : Prices F.Num) where
    -- `quoteAllFor`. A conversion that throws is taken for no quotes here.
    pub quote_all_for : Asset → Asset → ℤ → List (NormalizedQuote F.Num)
    quote_all_for sell buy amount =
        quotes_or_none (quote_all (request sell buy amount cfg.slippage_bps) prices cfg.adapters)

    abbrev pub eurc_quoters : EurcQuoters F.Num
    eurc_quoters = record {
      blnd_to_eurc = quote_all_for blnd eurc;
      blnd_to_usdc = quote_all_for blnd usdc;
      usdc_to_eurc = quote_all_for usdc eurc;
    }

    abbrev pub comparison_for : Asset → Asset → ℤ → Option (EurcComparison F.Num)
    comparison_for sell buy amount =
        if str_eq buy.symbol "EURC" && str_eq sell.symbol "BLND"
        then some (compare_eurc F eurc_quoters cfg.re_sim_leg (some is_executable_source) amount)
        else none

    -- `quote` without the split analysis, at the prices given.
    unfoldable pub quote : Asset → Asset → ℤ → Option QuoteResult
    quote sell buy amount = do
      main ← quote_all (request sell buy amount cfg.slippage_bps) prices cfg.adapters
      some (record {
        main = main;
        ranking = rank_quotes F main.quotes;
        comparison = comparison_for sell buy amount;
      })
