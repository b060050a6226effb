-- ===== src/Core/Engine/Net.antt =====
-- What the engine makes of the answers of the sources.
use decant_fi.Common.{
  ◌≡◌, refl, true, List, [], ◌∷◌, Option, none, some, All, All-In, In, filter, sym, subst, ◌∙◌,
  ◌>>=◌,
}
use decant_fi.Common.Int.{ltb_ℤ, ℤ, pos, ◌≤ℤ◌}
use decant_fi.Common.Float.{Floats}
use decant_fi.Core.Types.{Asset, QuoteRequest, NormalizedQuote}
use decant_fi.Core.Prices.{Prices}
use decant_fi.Core.Rank.{rank_quotes, RankedQuote}
use decant_fi.Core.Rank.Order.{IsBest, rank_quotes-IsBest}
use decant_fi.Core.Engine.{
  Adapter, QuoteAll, QuoteResult, EngineConfig, is_queried, quote_all, request, quote,
  comparison_for,
}
use decant_fi.Core.Engine.Rounds.{
  NetIsGross, OnSome, quoteless, AreQuotesOf, last_reason, IsSettled, settle_all-SettledFrom,
  or_else-none,
}

module _ (F : Floats) where
  module _ (req : QuoteRequest) (prices : Prices F.Num) where
    pub quote_all-IsSettled :
        (adapters : List (Adapter F.Num)) (all : QuoteAll F.Num)
        → quote_all F req prices adapters ≡ some all
        → IsSettled F req (filter (is_queried F req) adapters) all
    unfolding quote_all
    quote_all-IsSettled adapters all e =
        let h = settle_all-SettledFrom F req prices (filter (is_queried F req) adapters) _ all e in
        record {
          complete = subst (AreQuotesOf F req _) (sym h.quotes) h.complete;
          errors = h.errors;
          reasons = λ id.
              h.reasons id
              ∙ or_else-none F
                  (last_reason F req id (quoteless F req (filter (is_queried F req) adapters)));
        }

  AreQuotesOf-net :
      (req : QuoteRequest) (rest : List (Adapter F.Num)) (qs : List (NormalizedQuote F.Num))
      → AreQuotesOf F req rest qs
      → All (NetIsGross F) qs
  AreQuotesOf-net req [] [] h = tt
  AreQuotesOf-net req (a ∷ rest) (q ∷ qs) h = (h.0.net_is_gross, AreQuotesOf-net req rest qs h.1)
  AreQuotesOf-net req [] (q ∷ qs) h = absurd h
  AreQuotesOf-net req (a ∷ rest) [] h = absurd h

  -- The best quote, by what is received before gas.
  abbrev pub IsBestGross : List (NormalizedQuote F.Num) → Option (RankedQuote F.Num) → Type 0
  IsBestGross quotes none = All (λ q. q.gross_out ≤ℤ pos 0) quotes
  IsBestGross quotes (some b) =
      In b.quote quotes
      × (ltb_ℤ (pos 0) b.quote.gross_out ≡ true)
      × All (λ q. q.gross_out ≤ℤ b.quote.gross_out) quotes

  gross-All :
      (quotes : List (NormalizedQuote F.Num)) (v : ℤ)
      → All (NetIsGross F) quotes
      → All (λ q. q.net_out ≤ℤ v) quotes
      → All (λ q. q.gross_out ≤ℤ v) quotes
  gross-All [] v g h = tt
  gross-All (q ∷ qs) v g h = (subst (λ x. x ≤ℤ v) g.0 h.0, gross-All qs v g.1 h.1)

  best-IsBestGross :
      (quotes : List (NormalizedQuote F.Num)) (o : Option (RankedQuote F.Num))
      → All (NetIsGross F) quotes
      → IsBest F quotes o
      → IsBestGross quotes o
  best-IsBestGross quotes none g h = gross-All quotes (pos 0) g h
  best-IsBestGross quotes (some b) g h = (
    h.0,
    subst (λ v. ltb_ℤ (pos 0) v ≡ true) (All-In (NetIsGross F) h.0 g) h.1,
    gross-All quotes b.quote.gross_out g
        (subst (λ v. All (λ q. q.net_out ≤ℤ v) quotes) (All-In (NetIsGross F) h.0 g) h.2),
  )

  -- The engine's best quote is one that pays out something and that none exceeds, gas not deducted;
  -- there is none exactly when no quote pays out anything.
  pub quote-IsBestGross :
      (cfg : EngineConfig F) (prices : Prices F.Num) (sell buy : Asset) (amount : ℤ)
      (r : QuoteResult F)
      → quote F cfg prices sell buy amount ≡ some r
      → IsBestGross r.main.quotes r.ranking.best
  unfolding quote
  quote-IsBestGross cfg prices sell buy amount r e =
      subst (OnSome F (λ x. IsBestGross x.main.quotes x.ranking.best)) e
        (ranked (quote_all F req prices cfg.adapters) refl)
    where
      req : QuoteRequest
      req = request F sell buy amount cfg.slippage_bps

      ranked :
          (o : Option (QuoteAll F.Num))
          → quote_all F req prices cfg.adapters ≡ o
          → OnSome F
              (λ (x : QuoteResult F). IsBestGross x.main.quotes x.ranking.best)
              (o >>= λ main. some (record {
                main = main;
                ranking = rank_quotes F main.quotes;
                comparison = comparison_for F cfg prices sell buy amount;
              }))
      ranked none k = tt
      ranked (some all) k =
          best-IsBestGross all.quotes _
            (AreQuotesOf-net req _ _ (quote_all-IsSettled req prices cfg.adapters all k).complete)
            (rank_quotes-IsBest F all.quotes)
