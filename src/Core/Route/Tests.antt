-- ===== src/Core/Route/Tests.antt =====
-- A hub-and-spoke chain and a broken one.
use decant_fi.Common.{◌≡◌, refl, List, [], ◌∷◌, ◌++◌, String}
use decant_fi.Common.Int.{ℤ, pos, ◌+ℤ◌, ◌-ℤ◌}
use decant_fi.Core.Route.{
  Transfer, verify_chain, net_of, first_refusal, chained, refused, intermediate,
  route_from_transfers,
}
use decant_fi.Core.Route.Chain.{IsChain, verify_chain-IsChain}
use decant_fi.Core.Route.Steps.{IsRoute, route_from_transfers-IsRoute}

guard : Unit {0}
unfolding verify_chain net_of first_refusal ◌+ℤ◌ ◌-ℤ◌
guard = tt

abbrev move : String → String → String → ℤ → Transfer
move asset from to amount = record { asset = asset; from = from; to = to; amount = amount }

abbrev swap : List Transfer
swap =
    move "BLND" "GUSER" "CHUB" (pos 500)
    ∷ move "BLND" "CHUB" "CPOOL" (pos 500)
    ∷ move "USDC" "CPOOL" "CHUB" (pos 70)
    ∷ move "USDC" "CHUB" "GUSER" (pos 70)
    ∷ []

accepted : verify_chain swap "BLND" "USDC" ≡ chained
unfolding guard
accepted = refl

-- The signer keeps some of an asset in between.
captured :
    verify_chain (swap ++ move "XLM" "CPOOL" "GUSER" (pos 1) ∷ []) "BLND" "USDC"
    ≡ refused (intermediate "XLM")
unfolding guard
captured = refl

verify_chain-IsChain_example : IsChain swap "BLND" "USDC"
verify_chain-IsChain_example = verify_chain-IsChain swap "BLND" "USDC" accepted

route_from_transfers-IsRoute_example : IsRoute swap (route_from_transfers swap)
route_from_transfers-IsRoute_example = route_from_transfers-IsRoute swap
