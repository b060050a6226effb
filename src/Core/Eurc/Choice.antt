-- ===== src/Core/Eurc/Choice.antt =====
-- Which route wins, and what a composite is made of.
use decant_fi.Common.{
  ◌≡◌, refl, ◌⊎◌, inl, inr, Bool, true, List, Option, none, some, String, arith, subst, Bool-cases,
}
use decant_fi.Common.Int.{ℤ, ◌-ℤ◌, ltb_ℤ, ◌≤ℤ◌}
use decant_fi.Common.Float.{Floats}
use decant_fi.Core.Types.{NormalizedQuote}
use decant_fi.Core.Rank.{RankedQuote, is_positive}
use decant_fi.Core.Rank.Order.{rank_quotes-IsBest, IsBest}
use decant_fi.Core.Eurc.{
  Winner, direct, via_usdc, EurcComparison, EurcQuoters, ViaUsdcResult, choose_winner, choose_net,
  advantage_of, map_option, compare_eurc, via_usdc_of, second_leg, best_leg, join_legs,
  executable_only, resimulated,
}

-- What a comparison of two optional nets must say.
abbrev pub IsChoice : Option ℤ → Option ℤ → Option Winner → Option ℤ → Option ℤ → Type 0
IsChoice none none w n a = (w ≡ none) × (n ≡ none) × (a ≡ none)
IsChoice (some d) none w n a = (w ≡ some direct) × (n ≡ some d) × (a ≡ none)
IsChoice none (some v) w n a = (w ≡ some via_usdc) × (n ≡ some v) × (a ≡ none)
IsChoice (some d) (some v) w n a =
    (a ≡ some (v -ℤ d))
    × (((ltb_ℤ d v ≡ true) × (w ≡ some via_usdc) × (n ≡ some v))
        ⊎ ((v ≤ℤ d) × (w ≡ some direct) × (n ≡ some d)))

choice_lem : (d v : Option ℤ) → IsChoice d v (choose_winner d v) (choose_net d v) (advantage_of d v)
unfolding choose_winner choose_net advantage_of
choice_lem none none = (refl, refl, refl)
choice_lem (some d) none = (refl, refl, refl)
choice_lem none (some v) = (refl, refl, refl)
choice_lem (some d) (some v) = (refl, ground arith)

module _ (F : Floats) where
  abbrev pub direct_net : EurcComparison F.Num → Option ℤ
  direct_net c = map_option (λ r. r.net_out) c.direct_quote

  abbrev pub via_net : EurcComparison F.Num → Option ℤ
  via_net c = map_option (λ r. r.net_eurc) c.via

  module _ (q : EurcQuoters F.Num)
      (sim : Option (List (NormalizedQuote F.Num) → ℤ → List (NormalizedQuote F.Num)))
      (is_executable : Option (String → Bool)) where
    -- The winner is the route with the larger net amount, the direct route (one transaction) on a
    -- tie; the reported net is the winner's, the reported advantage is the difference of the two;
    -- a route that is missing never wins, and there is no winner when both are missing.
    pub compare_eurc-IsChoice :
        (amount : ℤ)
        → let c = compare_eurc F q sim is_executable amount in
          IsChoice (direct_net c) (via_net c) c.winner c.best_net_eurc c.via_usdc_advantage
    unfolding compare_eurc
    compare_eurc-IsChoice amount = choice_lem _ _

    -- The quotes that a leg is chosen from.
    abbrev pub candidates : List (NormalizedQuote F.Num) → ℤ → List (NormalizedQuote F.Num)
    candidates quotes amount = executable_only F is_executable (resimulated F sim quotes amount)

    pub record IsComposite (amount : ℤ) (v : ViaUsdcResult F.Num) : Type 0 where
      pub first : IsBest F (candidates (q.blnd_to_usdc amount) amount) (some v.leg1)
      pub second : IsBest F (candidates (q.usdc_to_eurc v.usdc_mid) v.usdc_mid) (some v.leg2)
      pub received : v.usdc_mid ≡ v.leg1.gross_out
      pub net : v.net_eurc ≡ v.leg2.net_out
      pub positive : (is_positive v.usdc_mid ≡ true) × (is_positive v.net_eurc ≡ true)

    best_leg-IsBest :
        (quotes : List (NormalizedQuote F.Num)) (amount : ℤ) (r : RankedQuote F.Num)
        → best_leg F sim is_executable quotes amount ≡ some r
        → IsBest F (candidates quotes amount) (some r)
    unfolding best_leg
    best_leg-IsBest quotes amount r e =
        subst (IsBest F (candidates quotes amount)) e (rank_quotes-IsBest F _)

    abbrev Composite : ℤ → Option (ViaUsdcResult F.Num) → Type 0
    Composite amount none = Unit {0}
    Composite amount (some v) = IsComposite amount v

    module _ (amount : ℤ) (leg1 : RankedQuote F.Num)
        (first : best_leg F sim is_executable (q.blnd_to_usdc amount) amount ≡ some leg1)
        (paid : is_positive leg1.gross_out ≡ true) where
      join_legs-Composite :
          (o : Option (RankedQuote F.Num))
          → best_leg F sim is_executable (q.usdc_to_eurc leg1.gross_out) leg1.gross_out ≡ o
          → Composite amount (join_legs F leg1 o)
      unfolding join_legs
      join_legs-Composite none e = tt
      join_legs-Composite (some leg2) e = elim (Bool-cases (is_positive leg2.net_out)) [
        | inl p ↦ rw p (record {
          first = best_leg-IsBest _ amount leg1 first;
          second = best_leg-IsBest _ leg1.gross_out leg2 e;
          received = refl;
          net = refl;
          positive = (paid, p);
        })
        | inr n ↦ rw n tt
      ]

    second_leg-Composite :
        (amount : ℤ) (o : Option (RankedQuote F.Num))
        → best_leg F sim is_executable (q.blnd_to_usdc amount) amount ≡ o
        → Composite amount (second_leg F q sim is_executable o)
    unfolding second_leg
    second_leg-Composite amount none e = tt
    second_leg-Composite amount (some leg1) e = elim (Bool-cases (is_positive leg1.gross_out)) [
      | inl p ↦ rw p (join_legs-Composite amount leg1 e p _ refl)
      | inr n ↦ rw n tt
    ]

    -- A composite's second leg is quoted on exactly the USDC that its first leg pays out, each leg is
    -- the best of its re-simulated and executable quotes, and what is received at each step is
    -- positive.
    pub compare_eurc-IsComposite :
        (amount : ℤ) (v : ViaUsdcResult F.Num)
        → (compare_eurc F q sim is_executable amount).via ≡ some v
        → IsComposite amount v
    unfolding compare_eurc via_usdc_of
    compare_eurc-IsComposite amount v e =
        subst (Composite amount) e (second_leg-Composite amount _ refl)
