-- ===== src/Web/Quotes/Resim/Honest.antt =====
-- What the result of a quote says after the re-simulation.
use decant_fi.Common.{
  [], ◌∷◌, map, here, there, ◌⊎◌, ◌≡◌, refl, sym, ap, ◌∙◌, subst, inl, inr, List, Option, none,
  some, String, In, str_eq, arith, Bool-cases, Option-cases,
}
use decant_fi.Common.Int.{ℤ, ltb_ℤ}
use decant_fi.Common.Float.{Floats}
use decant_fi.Core.Types.{NormalizedQuote}
use decant_fi.Core.Rank.{RankedQuote, Ranking}
use decant_fi.Core.Rank.Order.{
  quotes_of, IsRanking, IsBest, rank_quotes-IsRanking, rank_quotes-IsBest,
}
use decant_fi.Web.Quotes.Resim.Direct.{AreCompared, resim_comparison-AreCompared}
use decant_fi.Core.Eurc.{EurcComparison, ViaUsdcResult}
use decant_fi.Core.Eurc.Choice.{IsChoice, direct_net, via_net}
use decant_fi.Core.Engine.{QuoteResult}
use decant_fi.Core.Prices.{Prices}
use decant_fi.Web.Quotes.Resim.{Simulators, find_source}
use decant_fi.Web.Quotes.Resim.Result.{
  Sims, has_news, simulated, corrected, resim_ranking, direct_fill, rechosen, with_direct,
  resim_comparison, resim_aquarius_xbull,
}
use decant_fi.Web.Quotes.Resim.Rows.{verdict, IsWorth, corrected-IsWorth, corrected_quiet}

module _ (F : Floats) where
  -- The winner of a comparison and its amounts fit the two nets that it holds.
  abbrev pub IsChosen : Option (EurcComparison F.Num) → Type 0
  IsChosen none = Unit
  IsChosen (some c) =
      IsChoice (direct_net F c) (via_net F c) c.winner c.best_net_eurc c.via_usdc_advantage

  -- Each source has one quote.
  abbrev pub HasOneQuoteEach : List (RankedQuote F.Num) → Type 0
  HasOneQuoteEach ranked =
      (q : RankedQuote F.Num) → In q ranked → find_source q.source ranked ≡ some q

  module _ (s : Simulators) (pair : String) (prices : Prices F.Num) where
    corrected_source :
        (sims : Sims) (q : NormalizedQuote F.Num)
        → (corrected F s pair prices sims q).source ≡ q.source
    unfolding corrected
    corrected_source sims q = ground arith

    rechosen-IsChosen :
        (d : RankedQuote F.Num) (n : ℤ) (v : Option (ViaUsdcResult F.Num))
        (c : EurcComparison F.Num)
        → c.via ≡ v
        → IsChosen (some (rechosen F s pair prices d n v c))
    rechosen-IsChosen d n none c e = rw e (refl, refl, refl)
    rechosen-IsChosen d n (some v) c e = elim (Bool-cases (ltb_ℤ n v.net_eurc)) [
      | inl t ↦ simp (e, t) (refl, inl (refl, refl, refl))
      | inr t ↦ simp (e, t) (refl, inr (ground (arith, t), refl, refl))
    ]

    with_direct-IsChosen :
        (sims : Sims) (d : Option (RankedQuote F.Num)) (c : EurcComparison F.Num)
        → IsChosen (some c)
        → IsChosen (some (with_direct F s pair prices sims d c))
    with_direct-IsChosen sims none c h = h
    with_direct-IsChosen sims (some d) c h = elim (Option-cases (direct_fill sims d.source)) [
      | inl e ↦ rw e h
      | inr p ↦ rw p.1 (rechosen-IsChosen d p.0 c.via c refl)
    ]

    pub resim_comparison-IsChosen :
        (sims : Sims) (c : Option (EurcComparison F.Num))
        → IsChosen c
        → IsChosen (resim_comparison F s pair prices sims c)
    resim_comparison-IsChosen sims none h = tt
    resim_comparison-IsChosen sims (some c) h = elim (Bool-cases (str_eq pair "EURC")) [
      | inl e ↦ rw e (with_direct-IsChosen sims c.direct_quote c h)
      | inr e ↦ rw e h
    ]

    module _ (amount : ℤ) where
      -- What a ranked quote has become.
      pub record IsResimulated (q : RankedQuote F.Num) (r : NormalizedQuote F.Num) : Type 0 where
        pub same_source : r.source ≡ q.source
        pub worth : IsWorth (verdict s amount q.quote) q.quote r

      -- In their order.
      abbrev pub AreResimulated : List (RankedQuote F.Num) → List (NormalizedQuote F.Num) → Type 0
      AreResimulated [] [] = Unit {0}
      AreResimulated (q ∷ qs) (r ∷ rs) = IsResimulated q r × AreResimulated qs rs
      AreResimulated _ _ = ⊥

      -- The ranking is as it was, or that of the quotes given.
      abbrev pub AreRanked : Ranking F.Num → List (NormalizedQuote F.Num) → Ranking F.Num → Type 0
      AreRanked before fixed after =
          ((after ≡ before) × (fixed ≡ quotes_of F before.ranked))
          ⊎ (IsRanking F fixed after.ranked × IsBest F fixed after.best)

      module _ (ranking : Ranking F.Num) (each : HasOneQuoteEach ranking.ranked) where
        abbrev sims : Sims
        sims = simulated s amount ranking.ranked

        abbrev fix : RankedQuote F.Num → NormalizedQuote F.Num
        fix r = corrected F s pair prices sims r.quote

        fix-IsResimulated :
            (q : RankedQuote F.Num) (r : NormalizedQuote F.Num)
            → In q ranking.ranked
            → r ≡ fix q
            → IsResimulated q r
        fix-IsResimulated q r i e = record {
          same_source = ap (λ x. x.source) e ∙ corrected_source _ q.quote;
          worth =
              subst (IsWorth (verdict s amount q.quote) q.quote) (sym e)
                (corrected-IsWorth F s pair prices amount q ranking.ranked (each q i));
        }

        all-AreResimulated :
            (g : RankedQuote F.Num → NormalizedQuote F.Num) (qs : List (RankedQuote F.Num))
            → ((q : RankedQuote F.Num) → g q ≡ fix q)
            → ((q : RankedQuote F.Num) → In q qs → In q ranking.ranked)
            → AreResimulated qs (map g qs)
        all-AreResimulated g [] same i = tt
        all-AreResimulated g (q ∷ qs) same i = (
          fix-IsResimulated q (g q) (i q (here refl)) (same q),
          all-AreResimulated g qs same (λ x m. i x (there m)),
        )

        resim_ranking-AreRanked :
            (fixed : List (NormalizedQuote F.Num)) × AreResimulated ranking.ranked fixed
            × AreRanked ranking fixed (resim_ranking F s pair prices sims ranking)
        unfolding resim_ranking
        resim_ranking-AreRanked = elim (Bool-cases (has_news sims)) [
          | inl e ↦ (
            map fix ranking.ranked,
            all-AreResimulated fix ranking.ranked (λ q. refl) (λ q i. i),
            rw e (inr (rank_quotes-IsRanking F _, rank_quotes-IsBest F _)),
          )
          | inr e ↦ (
            quotes_of F ranking.ranked,
            all-AreResimulated (λ q. q.quote) ranking.ranked
                (λ q. sym (corrected_quiet F s pair prices sims q.quote e)) (λ q i. i),
            rw e (inl (refl, refl)),
          )
        ]

      pub record IsHonest (before after : QuoteResult F) : Type 0 where
        pub fixed : List (NormalizedQuote F.Num)
        pub rows : AreResimulated before.ranking.ranked fixed
        pub ranked : AreRanked before.ranking fixed after.ranking
        pub compared :
            AreCompared F s amount before.ranking.ranked pair before.comparison after.comparison
        pub chosen : IsChosen after.comparison

      -- Where each source has one quote, each ranked quote stands after the re-simulation for what its
      -- own simulation says of it: it pays out the amount that was filled, and is exact (xBull's as
      -- sure as before); it is the same quote as an estimate where the simulation of Aquarius or xBull
      -- gave nothing; it keeps its amount where xBull fills nothing positive; and it is the same quote
      -- where it is not simulated, where Aquarius fills nothing positive, or where StellarBroker's
      -- fill was not seen in full or is not positive. The ranking is as it was if nothing has changed,
      -- and otherwise the ranking of all these quotes. For EURC the direct quote that was compared
      -- pays out the fill of its source, where that differs from the amount ranked, and is else the
      -- same, and the composite is kept; for another pair the comparison is the same. A comparison
      -- whose winner, net and advantage fit its two nets still has this afterwards.
      pub resim_aquarius_xbull-IsHonest :
          (result : QuoteResult F)
          → HasOneQuoteEach result.ranking.ranked
          → IsChosen result.comparison
          → IsHonest result (resim_aquarius_xbull F s pair prices amount result)
      unfolding resim_aquarius_xbull
      resim_aquarius_xbull-IsHonest result each h =
          let r = resim_ranking-AreRanked result.ranking each in
          record {
            fixed = r.0;
            rows = r.1;
            ranked = r.2;
            compared =
                resim_comparison-AreCompared F s amount result.ranking.ranked pair prices
                  result.comparison;
            chosen =
                resim_comparison-IsChosen (simulated s amount result.ranking.ranked)
                  result.comparison h;
          }
