-- ===== src/Web/Quotes/Ladder/Tests.antt =====
-- Live quotes of a concrete result.
use decant_fi.Common.{◌≡◌, refl, [], ◌∷◌, map}
use decant_fi.Common.Int.{ℤ, pos}
use decant_fi.Common.Float.{fixed}
use decant_fi.Common.Sort.{sort_by, sort_insert}
use decant_fi.Core.Rank.{rank_quotes, number_from, to_number}
use decant_fi.Web.Quotes.Resim.Tests.{after, prices}
use decant_fi.Web.Quotes.Resim.Result.{resim_aquarius_xbull, resim_ranking, corrected, simulated}
use decant_fi.Web.Quotes.Ladder.{raw_rows, live_quote}
use decant_fi.Web.Quotes.Shapes.{LiveLadderRow}

abbrev amount : ℤ
amount = pos 50_000_000_000

guard : Unit {0}
unfolding rank_quotes number_from sort_by sort_insert
guard = tt

-- The direct quote that is compared stays that of the source which was best before the
-- re-simulation: the headline shows 600, the first row of the ladder 690.
stale_direct :
    let q = live_quote fixed "EURC" amount prices after in
    (q.best.net ≡ to_number fixed (pos 600))
    × (map (λ (w : LiveLadderRow ℤ). w.net) q.ladder
        ≡ to_number fixed (pos 690) ∷ to_number fixed (pos 680) ∷ to_number fixed (pos 600) ∷ [])
unfolding guard resim_aquarius_xbull resim_ranking corrected simulated live_quote raw_rows
stale_direct = (refl, refl)
