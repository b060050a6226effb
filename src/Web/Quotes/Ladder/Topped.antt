-- ===== src/Web/Quotes/Ladder/Topped.antt =====
-- The quote that is shown as the best, against the others.
use decant_fi.Common.{
  Bool, true, false, ◌≡◌, refl, subst, inl, inr, true, false, List, Option, none, some, String,
  str_eq, arith, In, All, All-In, All-of_map, Bool-cases,
}
use decant_fi.Common.Int.{ℤ, ◌≤ℤ◌}
use decant_fi.Common.Float.{Floats}
use decant_fi.Core.Types.{NormalizedQuote}
use decant_fi.Core.Rank.{RankedQuote, rank_quotes, is_positive}
use decant_fi.Core.Rank.Order.{IsBest, In-ranked, rank_quotes-IsBest}
use decant_fi.Core.Prices.{Prices}
use decant_fi.Core.Engine.{QuoteResult}
use decant_fi.Core.Eurc.{EurcComparison, ViaUsdcResult, Winner, map_option}
use decant_fi.Core.Eurc.Choice.{IsChoice}
use decant_fi.Web.Quotes.Resim.Honest.{IsChosen}
use decant_fi.Web.Quotes.Ladder.{
  Best, simple, composite, best_net, row_of, raw_rows, composite_of, simple_of, eurc_best,
  positive_best, choose_best,
}

abbrev pub Holds : {A : Type 0} → (A → Type 0) → Option A → Type 0
Holds P none = Unit {0}
Holds P (some a) = P a

module _ {Num : Type 0} where
  abbrev pub PaysNoMore : Best Num → Option (RankedQuote Num) → Option (ViaUsdcResult Num) → Type 0
  PaysNoMore b d v =
      Holds (λ (q : RankedQuote Num). q.net_out ≤ℤ best_net b) d
      × Holds (λ (w : ViaUsdcResult Num). w.net_eurc ≤ℤ best_net b) v

  taken_lem :
      (best : Best Num) {b : Best Num} (d : Option (RankedQuote Num))
      (v : Option (ViaUsdcResult Num))
      → some best ≡ some b
      → PaysNoMore best d v
      → PaysNoMore b d v
  taken_lem best {b = b} d v e h = let same : best ≡ b = cc in subst (λ x. PaysNoMore x d v) same h

  eurc_best-PaysNoMore :
      (ranked : Option (Best Num)) (w : Option Winner) (d : Option (RankedQuote Num))
      (v : Option (ViaUsdcResult Num)) (n a : Option ℤ) (b : Best Num)
      → IsChoice (map_option (λ r. r.net_out) d) (map_option (λ r. r.net_eurc) v) w n a
      → eurc_best ranked w v d ≡ some b
      → PaysNoMore b d v
  eurc_best-PaysNoMore ranked w none none n a b h e = (tt, tt)
  eurc_best-PaysNoMore ranked w (some d) none n a b h e =
      taken_lem (simple d) (some d) none (rw h.0 at e) (omega arith, tt)
  eurc_best-PaysNoMore ranked w none (some v) n a b h e =
      taken_lem (composite v) none (some v) (rw h.0 at e) (tt, omega arith)
  eurc_best-PaysNoMore ranked w (some d) (some v) n a b h e = elim h.1 [
    | inl t ↦
        taken_lem (composite v) (some d) (some v) (rw t.1 at e) (ground (arith, t.0), omega arith)
    | inr t ↦ taken_lem (simple d) (some d) (some v) (rw t.1 at e) (omega arith, t.0)
  ]

  positive_lem : (o : Option (Best Num)) {b : Best Num} → positive_best o ≡ some b → o ≡ some b
  positive_lem none e = e
  positive_lem (some a) e = elim (Bool-cases (is_positive (best_net a))) [
    | inl p ↦ rw p at e
    | inr p ↦ let k : none ≡ some _ = rw p at e in cc
  ]

module _ (F : Floats) (pair : String) (amount : ℤ) (prices : Prices F.Num) (result : QuoteResult F)
    (b : Best F.Num) where
  abbrev pub TopsRows : Type 0
  TopsRows = All (λ r. r.net_out ≤ℤ best_net b) (raw_rows F pair amount prices result)

  -- No row pays more; or, where EURC was compared, neither of the two ways does.
  abbrev pub Tops : Bool → Option (EurcComparison F.Num) → Type 0
  Tops false c = TopsRows
  Tops true none = TopsRows
  Tops true (some c) = PaysNoMore b c.direct_quote c.via

  abbrev pub IsTopped : Type 0
  IsTopped = Tops (str_eq pair "EURC") result.comparison

  module _ (quotes : List (NormalizedQuote F.Num)) (ranked : result.ranking ≡ rank_quotes F quotes)
      (chosen : IsChosen F result.comparison)
      (best : choose_best F pair amount prices result ≡ some b) where
    below :
        (o : Option (RankedQuote F.Num))
        → IsBest F quotes o
        → simple_of o ≡ some b
        → (q : RankedQuote F.Num) → In q (rank_quotes F quotes).ranked
        → q.net_out ≤ℤ best_net b
    below none h e q i = let k : none ≡ some b = e in cc
    below (some t) h e q i =
        let same : simple t ≡ b = cc in
        subst (λ (x : Best F.Num). q.net_out ≤ℤ best_net x) same
          (All-In (λ (x : NormalizedQuote F.Num). x.net_out ≤ℤ t.net_out) (In-ranked F q quotes i)
            h.2)

    plain_lem :
        composite_of F pair amount prices result.comparison ≡ none
        → simple_of result.ranking.best ≡ some b
        → TopsRows
    unfolding raw_rows
    plain_lem no_composite top =
        rw no_composite (All-of_map _ (row_of F pair amount prices) result.ranking.ranked rows)
      where
        rows : (q : RankedQuote F.Num) → In q result.ranking.ranked → q.net_out ≤ℤ best_net b
        rows q i =
            below (rank_quotes F quotes).best (rank_quotes-IsBest F quotes)
              (subst (λ r. simple_of r.best ≡ some b) ranked top) q
              (subst (λ r. In q r.ranked) ranked i)

    topped_lem :
        (t : Bool) (c : Option (EurcComparison F.Num))
        → str_eq pair "EURC" ≡ t
        → result.comparison ≡ c
        → Tops t c
    topped_lem false none n e =
        plain_lem (rw e refl) (positive_lem (simple_of result.ranking.best) (rw n at best))
    topped_lem false (some c) n e =
        plain_lem (simp (e, n) refl) (positive_lem (simple_of result.ranking.best) (rw n at best))
    topped_lem true none y e =
        plain_lem (rw e refl) (positive_lem (simple_of result.ranking.best) (simp (y, e) at best))
    topped_lem true (some c) y e =
        eurc_best-PaysNoMore (simple_of result.ranking.best) c.winner c.direct_quote c.via
          c.best_net_eurc c.via_usdc_advantage b (subst (IsChosen F) e chosen)
          (positive_lem _ (simp (y, e) at best))

    pub best-IsTopped : IsTopped
    best-IsTopped = topped_lem (str_eq pair "EURC") result.comparison refl refl
