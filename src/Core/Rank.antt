-- ===== src/Core/Rank.antt =====
-- core/rank.ts: ranking by net amount. `rankQuotes` sorts with the comparator below; the sort is
-- the language's, which is stable.
pub mod Order
mod Tests
use decant_fi.Common.{
  ℕ, zero, suc, ◌+◌, Bool, true, false, List, [], ◌∷◌, Option, none, some, String, str_eq, find,
  filter, if◌then◌else◌,
}
use decant_fi.Common.Int.{ℤ, pos, ltb_ℤ}
use decant_fi.Common.Float.{Floats}
use decant_fi.Common.Sort.{sort_by}
use decant_fi.Core.Types.{NormalizedQuote}

-- core/amount.ts `toNumber`
pub to_number : (F : Floats) → ℤ → F.Num
to_number F s = F.div (F.of_big s) (F.of_big (pos 10_000_000))

pub record RankedQuote (Num : Type 0) : Type 0 where
  pub quote : NormalizedQuote Num
  pub open quote use *
  pub rank : ℕ
  pub delta_vs_best_pct : Num

pub record Ranking (Num : Type 0) : Type 0 where
  pub ranked : List (RankedQuote Num)
  pub best : Option (RankedQuote Num)
  pub floor_quote : Option (NormalizedQuote Num)

abbrev pub is_positive : ℤ → Bool
is_positive v = ltb_ℤ (pos 0) v

-- The option that `?? other` falls back to.
abbrev pub or_else {ℓ} : {A : Type ℓ} → Option A → Option A → Option A
or_else none b = b
or_else (some a) b = some a

abbrev pub head? {ℓ} : {A : Type ℓ} → List A → Option A
head? [] = none
head? (x ∷ xs) = some x

module _ (F : Floats) where
  -- `a.netOut < b.netOut ? 1 : …`: `a` comes after `b`.
  abbrev pub nets_less : NormalizedQuote F.Num → NormalizedQuote F.Num → Bool
  nets_less a b = ltb_ℤ a.net_out b.net_out

  abbrev pub has_net : NormalizedQuote F.Num → Bool
  has_net q = is_positive q.net_out

  pub delta : F.Num → NormalizedQuote F.Num → F.Num
  delta best_num q =
      if F.lt (F.lit 0 0) best_num
      then F.mul (F.div (F.sub (to_number F q.net_out) best_num) best_num) (F.lit 100 0)
      else F.lit 0 0

  -- `sorted.map((q, i) => …)`, from the index `i`.
  unfoldable pub number_from : F.Num → ℕ → List (NormalizedQuote F.Num) → List (RankedQuote F.Num)
  unfolding delta
  number_from best_num i [] = []
  number_from best_num i (q ∷ qs) =
      record { quote = q; rank = i + 1; delta_vs_best_pct = delta best_num q }
      ∷ number_from best_num (suc i) qs

  abbrev pub best_net : List (NormalizedQuote F.Num) → ℤ
  best_net [] = pos 0
  best_net (q ∷ qs) = q.net_out

  unfoldable pub rank_quotes : List (NormalizedQuote F.Num) → Ranking F.Num
  unfolding number_from
  rank_quotes quotes =
      let sorted = sort_by nets_less (filter has_net quotes) in
      let ranked = number_from (to_number F (best_net sorted)) 0 sorted in
      record {
        ranked = ranked;
        best = head? ranked;
        floor_quote =
            or_else (find (λ q. str_eq q.source "horizon") quotes)
              (find (λ q. str_eq q.source "ultrastellar") quotes);
      }
