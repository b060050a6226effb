-- ===== src/Web/Quotes/Ladder/Shown.antt =====
-- What a live quote shows.
use decant_fi.Common.{
  ◌⊎◌, inl, inr, ◌≡◌, refl, Bool, true, false, List, [], ◌∷◌, Option, none, some, String, map,
  arith, Perm, All, All-++,
}
use decant_fi.Common.Int.{ℤ}
use decant_fi.Common.Float.{Floats}
use decant_fi.Common.Sort.{sort_by, sort_by-perm, sort_by-IsSorted, sort_by-All, IsSorted}
use decant_fi.Core.Types.{NormalizedQuote}
use decant_fi.Core.Rank.{RankedQuote, rank_quotes, to_number}
use decant_fi.Core.Executable.{is_executable_source}
use decant_fi.Core.Prices.{Prices}
use decant_fi.Core.Engine.{QuoteResult}
use decant_fi.Core.Eurc.{ViaUsdcResult}
use decant_fi.Web.Quotes.Ladder.{
  Best, simple, composite, best_net, headline, nets_less, choose_best, composite_of, with_composite,
  composite_row, row_of, raw_rows, render, ladder_of, live_quote,
}
use decant_fi.Web.Quotes.Shapes.{RawRow, LiveLadderRow, LiveQuote}
use decant_fi.Web.Quotes.Ladder.Order.{joined_id_not_executable}
use decant_fi.Web.Quotes.Ladder.Topped.{IsTopped, best-IsTopped}
use decant_fi.Web.Quotes.Resim.Honest.{IsChosen}

module _ {Num : Type 0} where
  asym : (x y : RawRow Num) → nets_less x y ≡ true → nets_less y x ≡ false
  asym x y h = ground arith

  trans :
      (x y z : RawRow Num) → nets_less x y ≡ false → nets_less y z ≡ false → nets_less x z ≡ false
  trans x y z h k = ground arith

  -- The first row, and no other, is marked.
  abbrev pub HasWinner : List (LiveLadderRow Num) → Type 0
  HasWinner [] = Unit {0}
  HasWinner (w ∷ ws) = (w.winner ≡ true) × All (λ r. r.winner ≡ false) ws

  -- A row is offered to one click exactly when its source is one that the page executes, and then it
  -- is one transaction.
  pub record IsAtomic (w : LiveLadderRow Num) : Type 0 where
    pub marked : w.executable ≡ is_executable_source w.source_id
    pub whole : (w.executable ≡ false) ⊎ (w.legs ≡ none)

module _ (F : Floats) (pair : String) (amount : ℤ) (prices : Prices F.Num) where
  abbrev RowIsAtomic : RawRow F.Num → Type 0
  RowIsAtomic r = (is_executable_source r.source ≡ false) ⊎ (r.legs ≡ none)

  rows-IsAtomic :
      (qs : List (RankedQuote F.Num)) → All RowIsAtomic (map (row_of F pair amount prices) qs)
  rows-IsAtomic [] = tt
  rows-IsAtomic (q ∷ qs) = (inr refl, rows-IsAtomic qs)

  with_composite-IsAtomic :
      (v : Option (ViaUsdcResult F.Num)) (rows : List (RawRow F.Num))
      → All RowIsAtomic rows
      → All RowIsAtomic (with_composite F pair amount prices v rows)
  with_composite-IsAtomic none rows h = h
  with_composite-IsAtomic (some v) rows h =
      All-++ RowIsAtomic rows (composite_row F pair amount prices v ∷ []) h
        (inl (joined_id_not_executable v.leg1.source v.leg2.source), tt)

  raw_rows-IsAtomic :
      (result : QuoteResult F) → All RowIsAtomic (raw_rows F pair amount prices result)
  unfolding raw_rows
  raw_rows-IsAtomic result =
      with_composite-IsAtomic (composite_of F pair amount prices result.comparison) _
        (rows-IsAtomic result.ranking.ranked)

  module _ (result : QuoteResult F) where
    abbrev rendered : F.Num → Bool → RawRow F.Num → LiveLadderRow F.Num
    rendered = render F pair amount prices

    -- A row shows the net amount, and its distance to the first row's.
    abbrev pub Shows : F.Num → RawRow F.Num → LiveLadderRow F.Num → Type 0
    Shows top r w =
        (w.source_id ≡ r.source)
        × (w.net ≡ to_number F r.net_out)
        × (w.delta_vs_winner ≡ F.sub (to_number F r.net_out) top)
        × (w.legs ≡ r.legs)

    abbrev pub ShowsAll : F.Num → List (RawRow F.Num) → List (LiveLadderRow F.Num) → Type 0
    ShowsAll top [] [] = Unit {0}
    ShowsAll top (r ∷ rs) (w ∷ ws) = Shows top r w × ShowsAll top rs ws
    ShowsAll top _ _ = ⊥

    abbrev pub ShowsRows : List (RawRow F.Num) → List (LiveLadderRow F.Num) → Type 0
    ShowsRows [] ws = ws ≡ []
    ShowsRows (r ∷ rs) ws = ShowsAll (to_number F r.net_out) (r ∷ rs) ws

    rest-ShowsAll :
        (top : F.Num) (rs : List (RawRow F.Num)) → ShowsAll top rs (map (rendered top false) rs)
    rest-ShowsAll top [] = tt
    rest-ShowsAll top (r ∷ rs) = ((refl, refl, refl, refl), rest-ShowsAll top rs)

    rest_marked :
        (top : F.Num) (rs : List (RawRow F.Num))
        → All (λ (w : LiveLadderRow F.Num). w.winner ≡ false) (map (rendered top false) rs)
    rest_marked top [] = tt
    rest_marked top (r ∷ rs) = (refl, rest_marked top rs)

    abbrev laid_out : List (RawRow F.Num) → List (LiveLadderRow F.Num)
    laid_out = ladder_of F pair amount prices

    ladder_of-ShowsRows : (rs : List (RawRow F.Num)) → ShowsRows rs (laid_out rs)
    ladder_of-ShowsRows [] = refl
    ladder_of-ShowsRows (r ∷ rs) = ((refl, refl, refl, refl), rest-ShowsAll _ rs)

    ladder_of-HasWinner : (rs : List (RawRow F.Num)) → HasWinner (laid_out rs)
    ladder_of-HasWinner [] = tt
    ladder_of-HasWinner (r ∷ rs) = (refl, rest_marked _ rs)

    rest-IsAtomic :
        (top : F.Num) (rs : List (RawRow F.Num))
        → All RowIsAtomic rs
        → All IsAtomic (map (rendered top false) rs)
    rest-IsAtomic top [] h = tt
    rest-IsAtomic top (r ∷ rs) h = (record { marked = refl; whole = h.0 }, rest-IsAtomic top rs h.1)

    ladder_of-IsAtomic :
        (rs : List (RawRow F.Num)) → All RowIsAtomic rs → All IsAtomic (laid_out rs)
    ladder_of-IsAtomic [] h = tt
    ladder_of-IsAtomic (r ∷ rs) h = (record { marked = refl; whole = h.0 }, rest-IsAtomic _ rs h.1)

    pub record IsLadder (ladder : List (LiveLadderRow F.Num)) : Type 0 where
      -- the rows in their order
      pub order : List (RawRow F.Num)
      pub complete : Perm order (raw_rows F pair amount prices result)
      pub descending : IsSorted nets_less order
      pub shown : ShowsRows order ladder
      pub one_winner : HasWinner ladder
      pub atomic : All IsAtomic ladder

    sorted : List (RawRow F.Num)
    sorted = sort_by nets_less (raw_rows F pair amount prices result)

    sorted-IsLadder : IsLadder (laid_out sorted)
    unfolding sorted
    sorted-IsLadder = record {
      order = sorted;
      complete = sort_by-perm nets_less (raw_rows F pair amount prices result);
      descending = sort_by-IsSorted nets_less asym trans (raw_rows F pair amount prices result);
      shown = ladder_of-ShowsRows sorted;
      one_winner = ladder_of-HasWinner sorted;
      atomic = ladder_of-IsAtomic sorted (
          sort_by-All nets_less RowIsAtomic (raw_rows F pair amount prices result)
            (raw_rows-IsAtomic result));
    }

    pub record IsShown (b : Best F.Num) (q : LiveQuote F.Num) : Type 0 where
      pub ladder : IsLadder q.ladder
      pub headline : q.best.net ≡ to_number F (best_net b)
      pub topped : IsTopped F pair amount prices result b

    headline_lem :
        (b : Best F.Num) → (headline F pair amount prices b).net ≡ to_number F (best_net b)
    headline_lem (simple q) = refl
    headline_lem (composite v) = refl

    -- What is shown of a result whose ranking is a ranking, and whose comparison fits its two nets:
    -- the ladder lists the ranked quotes and the composite, if there is one, from the largest net
    -- amount down, each with its distance to the first, which alone is marked as the winner; a row
    -- is marked executable exactly when its source is one that one click executes, and such a row has
    -- no legs; the headline shows the net amount of the quote taken for the best; and no row pays
    -- more than that, or for EURC neither the direct quote that was compared nor the composite does.
    pub live_quote-IsShown :
        (quotes : List (NormalizedQuote F.Num)) (b : Best F.Num)
        → result.ranking ≡ rank_quotes F quotes
        → IsChosen F result.comparison
        → choose_best F pair amount prices result ≡ some b
        → IsShown b (live_quote F pair amount prices result)
    unfolding live_quote sorted
    live_quote-IsShown quotes b ranked chosen best = rw best (record {
      ladder = sorted-IsLadder;
      headline = headline_lem b;
      topped = best-IsTopped F pair amount prices result b quotes ranked chosen best;
    })
