-- ===== src/Core/Split.antt =====
-- core/split.ts: the amount quoted at several fractions of its size. Fractions are whole percents.
pub mod Points
mod Tests
use decant_fi.Common.{
  ℕ, suc, ◌/◌, Bool, true, false, List, [], ◌∷◌, Option, none, some, find, map, if◌then◌else◌, ◌==◌,
}
use decant_fi.Common.Int.{ℤ, pos, negsuc, ◌-ℤ◌, ◌*ℤ◌, ltb_ℤ}
use decant_fi.Common.Float.{Floats}
use decant_fi.Core.Types.{NormalizedQuote}
use decant_fi.Core.Rank.{RankedQuote, rank_quotes, is_positive, to_number}
use decant_fi.Core.Eurc.{map_option}

pub record SplitPoint (Num : Type 0) : Type 0 where
  pub fraction_pct : ℕ
  pub amount_in : ℤ
  pub best : Option (RankedQuote Num)
  pub net_out : Option ℤ
  pub effective_price : Option Num

pub record SplitAnalysis (Num : Type 0) : Type 0 where
  pub points : List (SplitPoint Num)
  pub split_helps : Bool

-- The division of a `bigint` by 100, toward zero.
abbrev pub over_100 : ℤ → ℤ
over_100 (pos n) = pos (n / 100)
over_100 (negsuc n) = pos 0 -ℤ pos (suc n / 100)

module _ (F : Floats) (quote_all : ℤ → List (NormalizedQuote F.Num)) where
  abbrev pub part_of : ℤ → ℕ → ℤ
  part_of total f = over_100 (total *ℤ pos f)

  abbrev pub best_for : ℤ → Option (RankedQuote F.Num)
  best_for amount = if is_positive amount then (rank_quotes F (quote_all amount)).best else none

  pub point_at : ℤ → ℕ → SplitPoint F.Num
  point_at total f =
      let amount = part_of total f in
      let best = best_for amount in
      record {
        fraction_pct = f;
        amount_in = amount;
        best = best;
        net_out = map_option (λ (r : RankedQuote F.Num). r.net_out) best;
        effective_price =
            map_option
              (λ (r : RankedQuote F.Num). F.div (to_number F r.net_out) (to_number F amount)) best;
      }

  -- `points.find((p) => p.fractionPct === f)`
  abbrev pub at_fraction : ℕ → List (SplitPoint F.Num) → Option (SplitPoint F.Num)
  at_fraction f points = find (λ (p : SplitPoint F.Num). p.fraction_pct == f) points

  abbrev pub net_at : Option (SplitPoint F.Num) → Option ℤ
  net_at none = none
  net_at (some p) = p.net_out

  abbrev pub halves_win : Option ℤ → Option ℤ → Bool
  halves_win (some whole) (some half) = ltb_ℤ whole (half *ℤ pos 2)
  halves_win _ _ = false

  pub analyze_split : ℤ → List ℕ → SplitAnalysis F.Num
  analyze_split total fractions =
      let points = map (point_at total) fractions in
      record {
        points = points;
        split_helps = halves_win (net_at (at_fraction 100 points)) (net_at (at_fraction 50 points));
      }
