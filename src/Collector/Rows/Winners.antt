-- ===== src/Collector/Rows/Winners.antt =====
-- The winner that a tick stores.
use decant_fi.Common.{
  ◌≡◌, refl, inl, inr, Bool, true, false, List, [], ◌∷◌, ◌++◌, Option, none, some, String, str_eq,
  filter, filter-append, Bool-cases, if◌then◌else◌, ap, ◌∙◌,
}
use decant_fi.Common.Float.{Floats}
use decant_fi.Core.Rank.{RankedQuote}
use decant_fi.Core.Eurc.{Winner, direct, via_usdc, EurcComparison, ViaUsdcResult}
use decant_fi.Core.Prices.{Prices}
use decant_fi.Collector.Rows.{
  Probe, QuoteInsert, row_from_quote, ranked_rows, composite_row, composite_rows, eurc_rows,
  rows_for_probe, wins_direct, wins_via,
}

module _ (F : Floats) (prices : Prices F.Num) (probe : Probe) where
  abbrev pub winners : List (QuoteInsert F.Num) → List (QuoteInsert F.Num)
  winners rows = filter (λ (r : QuoteInsert F.Num). r.is_winner) rows

  losers :
      (path : Option String) (rs : List (RankedQuote F.Num))
      → winners (ranked_rows probe path false rs) ≡ []
  unfolding ranked_rows row_from_quote
  losers path [] = refl
  losers path (r ∷ rs) = losers path rs

  abbrev head_row : Option String → List (RankedQuote F.Num) → List (QuoteInsert F.Num)
  head_row path [] = []
  head_row path (r ∷ rs) = row_from_quote probe r.quote true path ∷ []

  first_wins :
      (path : Option String) (rs : List (RankedQuote F.Num))
      → winners (ranked_rows probe path true rs) ≡ head_row path rs
  unfolding ranked_rows row_from_quote
  first_wins path [] = refl
  first_wins path (r ∷ rs) = ap (λ x. row_from_quote probe r.quote true path ∷ x) (losers path rs)

  -- The mark is passed on.
  marked :
      (path : Option String) (first : Bool) (rs : List (RankedQuote F.Num))
      → winners (ranked_rows probe path first rs) ≡ (if first then head_row path rs else [])
  marked path true rs = first_wins path rs
  marked path false rs = losers path rs

  composite_marked :
      (winner : Option Winner) (via : Option (ViaUsdcResult F.Num))
      → winners (composite_rows F prices probe winner via)
        ≡ (if wins_via winner then composite_rows F prices probe winner via else [])
  unfolding composite_row
  composite_marked (some via_usdc) none = refl
  composite_marked (some via_usdc) (some v) = refl
  composite_marked (some direct) none = refl
  composite_marked (some direct) (some v) = refl
  composite_marked none none = refl
  composite_marked none (some v) = refl

  -- The rows that should carry the mark.
  abbrev pub winner_of :
      List (RankedQuote F.Num)
      → Option Winner
      → Option (ViaUsdcResult F.Num)
      → List (QuoteInsert F.Num)
  winner_of ranked none via = []
  winner_of ranked (some direct) via = head_row (some "direct") ranked
  winner_of ranked (some via_usdc) via = composite_rows F prices probe (some via_usdc) via

  abbrev pub marked_rows :
      Bool → List (RankedQuote F.Num) → Option (EurcComparison F.Num) → List (QuoteInsert F.Num)
  marked_rows false ranked comparison = head_row none ranked
  marked_rows true ranked none = []
  marked_rows true ranked (some c) = winner_of ranked c.winner c.via

  eurc_marked :
      (ranked : List (RankedQuote F.Num)) (winner : Option Winner)
      (via : Option (ViaUsdcResult F.Num))
      → (if wins_direct winner then head_row (some "direct") ranked else [])
          ++ (if wins_via winner then composite_rows F prices probe winner via else [])
        ≡ winner_of ranked winner via
  eurc_marked ranked none via = refl
  eurc_marked [] (some direct) via = refl
  eurc_marked (r ∷ rs) (some direct) via = refl
  eurc_marked ranked (some via_usdc) via = refl

  -- Of the rows of a probe, those marked as winner are: for USDC the best quote; for EURC the best
  -- direct quote when the direct swap wins, the composite row when the composite wins, and none
  -- when the comparison has no winner or is missing.
  pub rows_for_probe_marks :
      (ranked : List (RankedQuote F.Num)) (comparison : Option (EurcComparison F.Num))
      → winners (rows_for_probe F prices probe ranked comparison)
        ≡ marked_rows (str_eq probe.buy.symbol "EURC") ranked comparison
  unfolding rows_for_probe
  rows_for_probe_marks ranked comparison = elim (Bool-cases (str_eq probe.buy.symbol "EURC")) [
    | inl e ↦ simp e (of_eurc comparison)
    | inr e ↦ simp e (first_wins none ranked)
  ]
    where
      of_eurc :
          (c : Option (EurcComparison F.Num))
          → winners (eurc_rows F prices probe ranked c) ≡ marked_rows true ranked c
      of_eurc none = losers (some "direct") ranked
      of_eurc (some c) =
          filter-append (λ (r : QuoteInsert F.Num). r.is_winner)
            (ranked_rows probe (some "direct") (wins_direct c.winner) ranked)
            (composite_rows F prices probe c.winner c.via)
          ∙ ap (λ x. x ++ winners (composite_rows F prices probe c.winner c.via))
              (marked (some "direct") (wins_direct c.winner) ranked)
          ∙ ap (λ x. (if wins_direct c.winner then head_row (some "direct") ranked else []) ++ x)
              (composite_marked c.winner c.via)
          ∙ eurc_marked ranked c.winner c.via
