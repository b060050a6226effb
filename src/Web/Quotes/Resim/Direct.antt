-- ===== src/Web/Quotes/Resim/Direct.antt =====
-- What the re-simulation makes of the direct quote of an EURC comparison.
use decant_fi.Common.{
  ◌≡◌, refl, sym, subst, ◌⊎◌, inl, inr, true, false, List, Option, none, some, String, str_eq,
  Bool-cases,
}
use decant_fi.Common.Int.{ℤ}
use decant_fi.Common.Float.{Floats}
use decant_fi.Core.Rank.{RankedQuote}
use decant_fi.Core.Eurc.{EurcComparison, ViaUsdcResult}
use decant_fi.Core.Prices.{Prices}
use decant_fi.Web.Quotes.Resim.{Simulators, with_net, find_source}
use decant_fi.Web.Quotes.Resim.Result.{
  simulated, rechosen, with_fill, with_direct, resim_comparison,
}
use decant_fi.Web.Quotes.Resim.Rows.{Verdict, silent, no_answer, unpaid, filled, verdict}
use decant_fi.Web.Quotes.Resim.Fills.{Fills, FillsFor, direct_fill-FillsFor}

module _ (F : Floats) (s : Simulators) (amount : ℤ) (ranked : List (RankedQuote F.Num)) where
  -- The direct quote keeps its source; it pays out what the simulation of its source's ranked quote
  -- has filled, and is the same quote where that gave nothing or the amount that was ranked.
  abbrev pub IsCorrected : Verdict → ℤ → RankedQuote F.Num → RankedQuote F.Num → Type 0
  IsCorrected (filled n c) quoted d e =
      ((e.source ≡ d.source) × (e.net_out ≡ n)) ⊎ ((n ≡ quoted) × (e ≡ d))
  IsCorrected _ quoted d e = e ≡ d

  abbrev pub IsCorrectedBy :
      Option (RankedQuote F.Num) → RankedQuote F.Num → RankedQuote F.Num → Type 0
  IsCorrectedBy none d e = e ≡ d
  IsCorrectedBy (some q) d e = IsCorrected (verdict s amount q.quote) q.net_out d e

  abbrev pub DirectBy :
      Option (RankedQuote F.Num) → RankedQuote F.Num → Option (RankedQuote F.Num) → Type 0
  DirectBy found d none = ⊥
  DirectBy found d (some e) = IsCorrectedBy found d e

  -- A direct quote before and after.
  abbrev pub AreDirect : Option (RankedQuote F.Num) → Option (RankedQuote F.Num) → Type 0
  AreDirect none o = o ≡ none
  AreDirect (some d) o = DirectBy (find_source d.source ranked) d o

  -- A comparison before and after: for EURC the direct quote is corrected and the composite kept.
  abbrev pub AreCompared :
      String → Option (EurcComparison F.Num) → Option (EurcComparison F.Num) → Type 0
  AreCompared pair none none = Unit {0}
  AreCompared pair (some c) (some e) =
      ((str_eq pair "EURC" ≡ false) × (e ≡ c))
      ⊎ ((str_eq pair "EURC" ≡ true) × (e.via ≡ c.via) × AreDirect c.direct_quote e.direct_quote)
  AreCompared pair _ _ = ⊥

  unchanged :
      (v : Verdict) (quoted : ℤ) (d : RankedQuote F.Num)
      → Fills v quoted none
      → IsCorrected v quoted d d
  unchanged (filled n c) quoted d (inl e) = cc
  unchanged (filled n c) quoted d (inr e) = inr (e.0, refl)
  unchanged silent quoted d h = refl
  unchanged no_answer quoted d h = refl
  unchanged unpaid quoted d h = refl

  changed :
      (v : Verdict) (quoted n : ℤ) (d : RankedQuote F.Num)
      → Fills v quoted (some n)
      → IsCorrected v quoted d (record d { quote = with_net n d.quote })
  changed (filled m c) quoted n d (inl e) = inl (refl, cc)
  changed (filled m c) quoted n d (inr e) = let k : some n ≡ none = e.1 in cc
  changed silent quoted n d h = let k : some n ≡ none = h in cc
  changed no_answer quoted n d h = let k : some n ≡ none = h in cc
  changed unpaid quoted n d h = let k : some n ≡ none = h in cc

  module _ (pair : String) (prices : Prices F.Num) where
    kept_via :
        (d : RankedQuote F.Num) (n : ℤ) (v : Option (ViaUsdcResult F.Num))
        (c : EurcComparison F.Num)
        → let after = rechosen F s pair prices d n v c in
          (after.via ≡ c.via)
          × (after.direct_quote ≡ some (record d { quote = with_net n d.quote }))
    kept_via d n none c = (refl, refl)
    kept_via d n (some v) c = (refl, refl)

    by_fill :
        (found : Option (RankedQuote F.Num)) (d : RankedQuote F.Num) (c : EurcComparison F.Num)
        (o : Option ℤ)
        → c.direct_quote ≡ some d
        → FillsFor s amount found o
        → let after = with_fill F s pair prices d o c in
          (after.via ≡ c.via) × DirectBy found d after.direct_quote
    by_fill none d c none e h = (refl, subst (DirectBy none d) (sym e) refl)
    by_fill (some q) d c none e h =
        (refl, subst (DirectBy (some q) d) (sym e) (unchanged (verdict s amount q.quote) _ d h))
    by_fill none d c (some n) e h = let k : some n ≡ none = h in cc
    by_fill (some q) d c (some n) e h =
        let k = kept_via d n c.via c in
        (k.0, subst (DirectBy (some q) d) (sym k.1) (changed (verdict s amount q.quote) _ n d h))

    with_direct-AreDirect :
        (o : Option (RankedQuote F.Num)) (c : EurcComparison F.Num)
        → c.direct_quote ≡ o
        → let after = with_direct F s pair prices (simulated s amount ranked) o c in
          (after.via ≡ c.via) × AreDirect o after.direct_quote
    with_direct-AreDirect none c e = (refl, e)
    with_direct-AreDirect (some d) c e =
        by_fill (find_source d.source ranked) d c _ e
          (direct_fill-FillsFor s amount ranked d.source _ refl)

    pub resim_comparison-AreCompared :
        (o : Option (EurcComparison F.Num))
        → AreCompared pair o (resim_comparison F s pair prices (simulated s amount ranked) o)
    resim_comparison-AreCompared none = tt
    resim_comparison-AreCompared (some c) = elim (Bool-cases (str_eq pair "EURC")) [
      | inl e ↦ let k = with_direct-AreDirect c.direct_quote c refl in rw e (inr (refl, k.0, k.1))
      | inr e ↦ rw e (inl (refl, refl))
    ]
