-- ===== src/Core/Split/Points.antt =====
-- When two halves beat the whole.
use decant_fi.Common.{
  ◌≡◌, refl, inl, inr, ℕ, true, List, [], ◌∷◌, Option, none, some, In, here, there, map, ap, sym,
  subst, Bool-cases, ◌==◌, arith,
}
use decant_fi.Common.Int.{ℤ, pos, ◌*ℤ◌, ltb_ℤ}
use decant_fi.Common.Float.{Floats}
use decant_fi.Core.Types.{NormalizedQuote}
use decant_fi.Core.Rank.{RankedQuote, rank_quotes, is_positive}
use decant_fi.Core.Rank.Order.{IsBest, rank_quotes-IsBest}
use decant_fi.Core.Eurc.{map_option}
use decant_fi.Core.Split.{
  SplitPoint, part_of, point_at, at_fraction, net_at, halves_win, analyze_split,
}

module _ (F : Floats) (quote_all : ℤ → List (NormalizedQuote F.Num)) (total : ℤ) where
  -- The best quote for a fraction of the amount, which is positive.
  pub record IsQuoted (f : ℕ) (net : ℤ) : Type 0 where
    pub best : RankedQuote F.Num
    pub positive : is_positive (part_of F quote_all total f) ≡ true
    pub is_best : IsBest F (quote_all (part_of F quote_all total f)) (some best)
    pub net_eq : net ≡ best.net_out

  abbrev or_zero : Option ℤ → ℤ
  or_zero none = pos 0
  or_zero (some v) = v

  ranked :
      (f : ℕ) (net : ℤ) (o : Option (RankedQuote F.Num))
      → is_positive (part_of F quote_all total f) ≡ true
      → IsBest F (quote_all (part_of F quote_all total f)) o
      → map_option (λ (r : RankedQuote F.Num). r.net_out) o ≡ some net
      → IsQuoted f net
  ranked f net none e b h = cc
  ranked f net (some r) e b h = record {
    best = r;
    positive = e;
    is_best = b;
    net_eq = sym (ap or_zero h);
  }

  quoted : (f : ℕ) (net : ℤ) → (point_at F quote_all total f).net_out ≡ some net → IsQuoted f net
  unfolding point_at
  quoted f net h = elim (Bool-cases (is_positive (part_of F quote_all total f))) [
    | inl e ↦
        ranked f net (rank_quotes F (quote_all (part_of F quote_all total f))).best e
          (rank_quotes-IsBest F _) (rw e at h)
    | inr e ↦ let k : none ≡ some net = rw e at h in cc
  ]

  -- The point that is found is at the fraction looked for.
  at_fraction_lem :
      (f : ℕ) (fractions : List ℕ) (net : ℤ)
      → net_at F quote_all (at_fraction F quote_all f (map (point_at F quote_all total) fractions))
        ≡ some net
      → In f fractions × ((point_at F quote_all total f).net_out ≡ some net)
  unfolding point_at
  at_fraction_lem f [] net h = cc
  at_fraction_lem f (g ∷ gs) net h = elim (Bool-cases (g == f)) [
    | inl e ↦
        let q : g ≡ f = ground (arith, e) in
        (here (sym q), subst (λ n. (point_at F quote_all total n).net_out ≡ some net) q (rw e at h))
    | inr e ↦ let r = at_fraction_lem f gs net (rw e at h) in (there r.0, r.1)
  ]

  -- What it takes for the split to help.
  pub record IsHelpful (fractions : List ℕ) : Type 0 where
    pub half : ℤ
    pub whole : ℤ
    pub has_half : In 50 fractions
    pub has_whole : In 100 fractions
    pub half_quoted : IsQuoted 50 half
    pub whole_quoted : IsQuoted 100 whole
    pub more : ltb_ℤ whole (half *ℤ pos 2) ≡ true

  -- A split is said to help only when the half and the whole were both asked for, each has a best
  -- quote at exactly that fraction of the amount, and twice the net amount of the half exceeds that
  -- of the whole.
  pub analyze_split-IsHelpful :
      (fractions : List ℕ)
      → (analyze_split F quote_all total fractions).split_helps ≡ true
      → IsHelpful fractions
  unfolding analyze_split
  analyze_split-IsHelpful fractions h = ends _ _ refl refl h
    where
      points : List (SplitPoint F.Num)
      points = map (point_at F quote_all total) fractions

      ends :
          (whole half : Option ℤ)
          → net_at F quote_all (at_fraction F quote_all 100 points) ≡ whole
          → net_at F quote_all (at_fraction F quote_all 50 points) ≡ half
          → halves_win F quote_all whole half ≡ true
          → IsHelpful fractions
      ends (some w) (some v) e f k =
          let at_whole = at_fraction_lem 100 fractions w e in
          let at_half = at_fraction_lem 50 fractions v f in
          record {
            half = v;
            whole = w;
            has_half = at_half.0;
            has_whole = at_whole.0;
            half_quoted = quoted 50 v at_half.1;
            whole_quoted = quoted 100 w at_whole.1;
            more = k;
          }
      ends (some w) none e f k = cc
      ends none v e f k = cc
