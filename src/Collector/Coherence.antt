-- ===== src/Collector/Coherence.antt =====
-- collector/coherence.ts: whether a venue's simulated transfers agree with its quote. Reasons are
-- data; the texts of their messages are left out.
pub mod Verdicts
mod Tests
use decant_fi.Common.{
  ℕ, zero, suc, ◌*◌, ◌/◌, Bool, true, false, not, ◌&&◌, ◌||◌, List, [], ◌∷◌, ◌++◌, Option, none,
  some, String, str_eq, ltb, if◌then◌else◌,
}
use decant_fi.Common.Int.{ℤ, pos, negsuc, ◌+ℤ◌, ◌-ℤ◌, ltb_ℤ, pos_part}
use decant_fi.Core.Route.{
  Transfer, Refusal, Verdict, chained, refused, verify_chain, route_from_transfers,
}

pub delta_bps_suspect : ℕ
delta_bps_suspect = 50

-- The loop of `netFromTransfers`, from a sum.
pub net_from : String → String → ℤ → List Transfer → ℤ
net_from buy sender sum [] = sum
net_from buy sender sum (t ∷ ts) =
    net_from buy sender (if str_eq t.asset buy && str_eq t.to sender then sum +ℤ t.amount else sum)
      ts

pub net_from_transfers : List Transfer → String → String → ℤ
net_from_transfers transfers buy sender = net_from buy sender (pos 0) transfers

pub gap : ℤ → ℤ → ℤ
gap simulated quoted = if ltb_ℤ quoted simulated then simulated -ℤ quoted else quoted -ℤ simulated

-- The difference in basis points of the simulated amount; null unless that is positive.
pub delta_bps : ℤ → ℤ → Option ℕ
delta_bps (pos zero) quoted = none
delta_bps (pos (suc n)) quoted = some (pos_part (gap (pos (suc n)) quoted) * 10_000 / suc n)
delta_bps (negsuc n) quoted = none

abbrev pub is_suspect : Option ℕ → Bool
is_suspect none = false
is_suspect (some bps) = ltb delta_bps_suspect bps

pub data Reason : Type 0 where
  broken : Refusal → Reason
  price_gap : ℕ → Reason

abbrev pub chain_reasons : Verdict → List Reason
chain_reasons chained = []
chain_reasons (refused r) = broken r ∷ []

abbrev pub gap_reasons : Option ℕ → List Reason
gap_reasons none = []
gap_reasons (some bps) = if ltb delta_bps_suspect bps then price_gap bps ∷ [] else []

abbrev pub is_refused : Verdict → Bool
is_refused chained = false
is_refused (refused r) = true

pub record Evaluation : Type 0 where
  pub incoherent : Bool
  -- joined by `;`; null if there is none
  pub reasons : List Reason
  pub net_simulated : ℤ
  pub gap_bps : Option ℕ
  pub route : List String

abbrev pub evaluation : List Transfer → Verdict → ℤ → Option ℕ → Evaluation
evaluation transfers check simulated delta = record {
  incoherent = is_refused check || is_suspect delta;
  reasons = chain_reasons check ++ gap_reasons delta;
  net_simulated = simulated;
  gap_bps = delta;
  route = route_from_transfers transfers;
}

-- `evaluateSoroban`
pub evaluate_soroban : List Transfer → ℤ → String → String → String → Evaluation
evaluate_soroban transfers quoted sender sell buy =
    let simulated = net_from_transfers transfers buy sender in
    evaluation transfers (verify_chain transfers sell buy) simulated (delta_bps simulated quoted)
