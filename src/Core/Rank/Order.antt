-- ===== src/Core/Rank/Order.antt =====
-- The order of a ranking, and what its best quote is.
use decant_fi.Common.{
  In-map, subst, ℕ, suc, ◌≡◌, refl, inl, inr, true, false, List, [], ◌∷◌, Option, none, some, Perm,
  map, arith, filter, All, In, here, there, ap, ◌∙◌, Bool-cases,
}
use decant_fi.Common.Int.{ℤ, pos, eq_ℤ, ◌≤ℤ◌}
use decant_fi.Common.Float.{Floats}
use decant_fi.Common.Sort.{
  sort_by, sort_by-perm, sort_by-IsSorted, filter-sort_by, All-sort_by, In-sort_by, IsSorted,
  Precedes,
}
use decant_fi.Core.Types.{NormalizedQuote}
use decant_fi.Core.Rank.{RankedQuote, nets_less, has_net, number_from, rank_quotes, head?}

module _ (F : Floats) where
  abbrev pub quotes_of : List (RankedQuote F.Num) → List (NormalizedQuote F.Num)
  quotes_of = map λ r. r.quote

  quotes_of-number_from :
      (b : F.Num) (i : ℕ) (qs : List (NormalizedQuote F.Num))
      → quotes_of (number_from F b i qs) ≡ qs
  unfolding number_from
  quotes_of-number_from b i [] = refl
  quotes_of-number_from b i (q ∷ qs) = ap (◌∷◌ q) (quotes_of-number_from b (suc i) qs)

  pub quotes_of-rank_quotes :
      (quotes : List (NormalizedQuote F.Num))
      → quotes_of (rank_quotes F quotes).ranked ≡ sort_by (nets_less F) (filter (has_net F) quotes)
  unfolding rank_quotes
  quotes_of-rank_quotes quotes =
      quotes_of-number_from _ 0 (sort_by (nets_less F) (filter (has_net F) quotes))

  -- The ranks count up from one.
  abbrev CountsFrom : ℕ → List (RankedQuote F.Num) → Type 0
  CountsFrom i [] = Unit {0}
  CountsFrom i (r ∷ rs) = (r.rank ≡ i) × CountsFrom (suc i) rs

  number_from-CountsFrom :
      (b : F.Num) (i : ℕ) (qs : List (NormalizedQuote F.Num))
      → CountsFrom (suc i) (number_from F b i qs)
  unfolding number_from
  number_from-CountsFrom b i [] = tt
  number_from-CountsFrom b i (q ∷ qs) = (omega arith, number_from-CountsFrom b (suc i) qs)

  asym : (x y : NormalizedQuote F.Num) → nets_less F x y ≡ true → nets_less F y x ≡ false
  asym x y h = ground arith

  trans :
      (x y z : NormalizedQuote F.Num)
      → nets_less F x y ≡ false
      → nets_less F y z ≡ false
      → nets_less F x z ≡ false
  trans x y z h k = ground arith

  pub record IsRanking (quotes : List (NormalizedQuote F.Num)) (ranked : List (RankedQuote F.Num))
      : Type 0 where
    pub complete : Perm (quotes_of ranked) (filter (has_net F) quotes)
    pub descending : IsSorted (nets_less F) (quotes_of ranked)
    pub stable :
        (v : ℤ)
        → filter (λ q. eq_ℤ q.net_out v) (quotes_of ranked)
          ≡ filter (λ q. eq_ℤ q.net_out v) (filter (has_net F) quotes)
    pub counted : CountsFrom 1 ranked

  -- The ranking is exactly the quotes with a positive net amount, from the largest net amount down,
  -- quotes of equal net amounts in the order in which they were given; and the ranks are 1, 2, 3, ….
  pub rank_quotes-IsRanking :
      (quotes : List (NormalizedQuote F.Num)) → IsRanking quotes (rank_quotes F quotes).ranked
  unfolding rank_quotes
  rank_quotes-IsRanking quotes = record {
    complete = rw same (sort_by-perm (nets_less F) valid);
    descending = rw same (sort_by-IsSorted (nets_less F) asym trans valid);
    stable = λ v. rw same (filter-sort_by (nets_less F) _ (λ x y h k. ground arith) valid);
    counted = number_from-CountsFrom _ 0 (sort_by (nets_less F) valid);
  }
    where
      valid : List (NormalizedQuote F.Num)
      valid = filter (has_net F) quotes

      same : quotes_of (rank_quotes F quotes).ranked ≡ sort_by (nets_less F) valid
      same = quotes_of-rank_quotes quotes

  -- What `best` is worth.
  abbrev pub IsBest : List (NormalizedQuote F.Num) → Option (RankedQuote F.Num) → Type 0
  IsBest quotes none = All (λ q. q.net_out ≤ℤ pos 0) quotes
  IsBest quotes (some b) =
      In b.quote quotes
      × (has_net F b.quote ≡ true)
      × All (λ q. q.net_out ≤ℤ b.net_out) quotes
      × (b.rank ≡ 1)

  All-of_filter :
      (b : ℤ) (quotes : List (NormalizedQuote F.Num))
      → pos 0 ≤ℤ b
      → All (λ q. q.net_out ≤ℤ b) (filter (has_net F) quotes)
      → All (λ q. q.net_out ≤ℤ b) quotes
  All-of_filter b [] p h = tt
  All-of_filter b (q ∷ qs) p h = elim (Bool-cases (has_net F q)) [
    | inl e ↦ let k = rw e at h in (k.0, All-of_filter b qs p k.1)
    | inr e ↦ (ground arith, All-of_filter b qs p (rw e at h))
  ]

  found :
      (a q : NormalizedQuote F.Num) (qs : List (NormalizedQuote F.Num))
      → has_net F q ≡ true
      → (In a (filter (has_net F) qs) → In a qs × (has_net F a ≡ true))
      → In a (q ∷ filter (has_net F) qs)
      → In a (q ∷ qs) × (has_net F a ≡ true)
  found a q qs e rest (here p) = (here p, ap (has_net F) p ∙ e)
  found a q qs e rest (there m) = let r = rest m in (there r.0, r.1)

  pub In-filter :
      (a : NormalizedQuote F.Num) (quotes : List (NormalizedQuote F.Num))
      → In a (filter (has_net F) quotes)
      → In a quotes × (has_net F a ≡ true)
  In-filter a [] h = elim h [ ]
  In-filter a (q ∷ qs) h = elim (Bool-cases (has_net F q)) [
    | inl e ↦ found a q qs e (In-filter a qs) (rw e at h)
    | inr e ↦ let r = In-filter a qs (rw e at h) in (there r.0, r.1)
  ]

  Precedes-All :
      (b : NormalizedQuote F.Num) (qs : List (NormalizedQuote F.Num))
      → Precedes (nets_less F) b qs
      → All (λ q. q.net_out ≤ℤ b.net_out) qs
  Precedes-All b [] h = tt
  Precedes-All b (q ∷ qs) h = (ground arith, Precedes-All b qs h.1)

  number_from-IsBest :
      (quotes sorted : List (NormalizedQuote F.Num)) (n : F.Num)
      → sort_by (nets_less F) (filter (has_net F) quotes) ≡ sorted
      → IsSorted (nets_less F) sorted
      → IsBest quotes (head? (number_from F n 0 sorted))
  unfolding number_from
  number_from-IsBest quotes [] n e s =
      All-of_filter (pos 0) quotes (omega arith)
        (All-sort_by (nets_less F) (λ q. q.net_out ≤ℤ pos 0) valid (rw e tt))
    where
      valid : List (NormalizedQuote F.Num)
      valid = filter (has_net F) quotes
  number_from-IsBest quotes (b ∷ rest) n e s = (
    member.0,
    member.1,
    All-of_filter b.net_out quotes (ground (arith, member.1)) (
        All-sort_by (nets_less F) (λ q. q.net_out ≤ℤ b.net_out) valid
          (rw e (omega arith, Precedes-All b rest s.0))),
    refl,
  )
    where
      valid : List (NormalizedQuote F.Num)
      valid = filter (has_net F) quotes

      member : In b quotes × (has_net F b ≡ true)
      member = In-filter b quotes (In-sort_by (nets_less F) b valid (rw e (here refl)))

  -- The best quote is one of the quotes given, has a positive net amount that none exceeds, and
  -- rank 1; there is none exactly when no quote has a positive net amount.
  pub rank_quotes-IsBest :
      (quotes : List (NormalizedQuote F.Num)) → IsBest quotes (rank_quotes F quotes).best
  unfolding rank_quotes
  rank_quotes-IsBest quotes =
      number_from-IsBest quotes (sort_by (nets_less F) (filter (has_net F) quotes)) _ refl
        (sort_by-IsSorted (nets_less F) asym trans (filter (has_net F) quotes))

  -- A quote that is ranked is one of those given.
  pub In-ranked :
      (a : RankedQuote F.Num) (quotes : List (NormalizedQuote F.Num))
      → In a (rank_quotes F quotes).ranked
      → In a.quote quotes
  In-ranked a quotes h =
      (In-filter a.quote quotes (
        In-sort_by (nets_less F) a.quote (filter (has_net F) quotes)
          (subst (In a.quote) (quotes_of-rank_quotes quotes) (In-map (λ r. r.quote) h)))).0
