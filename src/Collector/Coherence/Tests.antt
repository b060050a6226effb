-- ===== src/Collector/Coherence/Tests.antt =====
-- A simulation that pays what was quoted, and one that pays one percent less.
use decant_fi.Common.{◌≡◌, refl, true, false, [], ◌∷◌, List, String, arith}
use decant_fi.Common.Int.{ℤ, pos, ltb_ℤ, ◌+ℤ◌, ◌-ℤ◌}
use decant_fi.Core.Route.{Transfer, verify_chain, net_of, first_refusal}
use decant_fi.Collector.Coherence.{
  evaluate_soroban, net_from_transfers, net_from, gap, delta_bps, delta_bps_suspect,
}
use decant_fi.Collector.Coherence.Verdicts.{IsClose, coherent-IsClose}

guard : Unit {0}
unfolding evaluate_soroban net_from_transfers net_from gap delta_bps delta_bps_suspect verify_chain
    net_of first_refusal ◌+ℤ◌ ◌-ℤ◌
guard = tt

abbrev move : String → String → String → ℤ → Transfer
move asset from to amount = record { asset = asset; from = from; to = to; amount = amount }

abbrev sold : Transfer
sold = move "BLND" "GUSER" "CPOOL" (pos 500)

abbrev paid : List Transfer
paid = move "USDC" "CPOOL" "GUSER" (pos 700) ∷ []

suspect : (evaluate_soroban (sold ∷ paid) (pos 707) "GUSER" "BLND" "USDC").incoherent ≡ true
unfolding guard
suspect = refl

coherent : (evaluate_soroban (sold ∷ paid) (pos 702) "GUSER" "BLND" "USDC").incoherent ≡ false
unfolding guard
coherent = refl

coherent-IsClose_example :
    (ltb_ℤ (pos 0) (net_from_transfers (sold ∷ paid) "USDC" "GUSER") ≡ true)
    × IsClose (net_from_transfers (sold ∷ paid) "USDC" "GUSER") (pos 702)
coherent-IsClose_example =
    coherent-IsClose sold paid (pos 702) "BLND" "USDC" (omega arith, (omega arith, tt)) refl
      coherent
