-- ===== src/Core/Eurc.antt =====
-- core/eurc.ts: the direct BLND→EURC swap against the two swaps BLND→USDC→EURC. The quoters are
-- functions of the amount, the re-simulation and the executability test optional functions, as in
-- the source; the answers of the network are what these functions return.
pub mod Choice
mod Tests
use decant_fi.Common.{
  ℕ, ◌*◌, Bool, true, false, ◌&&◌, List, [], ◌∷◌, Option, none, some, String, filter, if◌then◌else◌,
  leb,
}
use decant_fi.Common.Int.{ℤ, pos, ◌-ℤ◌, ◌*ℤ◌, ltb_ℤ, leb_ℤ, eq_ℤ}
use decant_fi.Common.Float.{Floats}
use decant_fi.Core.Amount.{from_stroops, decimals_default}
use decant_fi.Core.Types.{NormalizedQuote}
use decant_fi.Core.Rank.{RankedQuote, rank_quotes, is_positive}

-- Within 0.1 % of each other.
pub close_enough : ℤ → ℤ → Bool
close_enough a b =
    let diff = if ltb_ℤ b a then a -ℤ b else b -ℤ a in
    if leb_ℤ b (pos 0) then eq_ℤ a b else leb_ℤ (diff *ℤ pos 1000) b

pub record ViaUsdcResult (Num : Type 0) : Type 0 where
  pub leg1 : RankedQuote Num
  pub leg2 : RankedQuote Num
  pub usdc_mid : ℤ
  pub net_eurc : ℤ

pub data Winner : Type 0 where
  direct via_usdc : Winner

-- The sentences of `note`, with the amount that one of them quotes.
pub data Note : Type 0 where
  no_route : Note
  via_wins : List ℕ → Note
  same_market : Note
  direct_wins : Note

pub record EurcComparison (Num : Type 0) : Type 0 where
  pub direct_quote : Option (RankedQuote Num)
  pub via : Option (ViaUsdcResult Num)
  pub winner : Option Winner
  pub best_net_eurc : Option ℤ
  pub via_usdc_advantage : Option ℤ
  pub note : Note

pub record EurcQuoters (Num : Type 0) : Type 0 where
  pub blnd_to_eurc : ℤ → List (NormalizedQuote Num)
  pub blnd_to_usdc : ℤ → List (NormalizedQuote Num)
  pub usdc_to_eurc : ℤ → List (NormalizedQuote Num)

-- The choice between the two nets.
pub choose_winner : Option ℤ → Option ℤ → Option Winner
choose_winner (some d) (some v) = if ltb_ℤ d v then some via_usdc else some direct
choose_winner (some d) none = some direct
choose_winner none (some v) = some via_usdc
choose_winner none none = none

pub choose_net : Option ℤ → Option ℤ → Option ℤ
choose_net (some d) (some v) = if ltb_ℤ d v then some v else some d
choose_net (some d) none = some d
choose_net none (some v) = some v
choose_net none none = none

pub advantage_of : Option ℤ → Option ℤ → Option ℤ
advantage_of (some d) (some v) = some (v -ℤ d)
advantage_of _ _ = none

pub note_for : Option Winner → Option ℤ → Option ℤ → Note
unfolding close_enough
note_for none d v = no_route
note_for (some via_usdc) (some d) (some v) = via_wins (from_stroops (v -ℤ d) decimals_default)
note_for (some via_usdc) _ _ = no_route
note_for (some direct) (some d) (some v) = if close_enough v d then same_market else direct_wins
note_for (some direct) _ _ = direct_wins

abbrev pub map_option {ℓ κ} : {A : Type ℓ} {B : Type κ} → (A → B) → Option A → Option B
map_option f none = none
map_option f (some a) = some (f a)

module _ (F : Floats) where
  abbrev Quotes : Type 0
  Quotes = List (NormalizedQuote F.Num)

  -- `reSimLeg ? await reSimLeg(quotes, amount) : quotes`
  abbrev pub resimulated : Option (Quotes → ℤ → Quotes) → Quotes → ℤ → Quotes
  resimulated none quotes amount = quotes
  resimulated (some sim) quotes amount = sim quotes amount

  abbrev pub executable_only : Option (String → Bool) → Quotes → Quotes
  executable_only none quotes = quotes
  executable_only (some is_executable) quotes = filter (λ q. is_executable q.source) quotes

  -- The best quote of one leg of the composite.
  pub best_leg :
      Option (Quotes → ℤ → Quotes)
      → Option (String → Bool)
      → Quotes
      → ℤ
      → Option (RankedQuote F.Num)
  best_leg sim is_executable quotes amount =
      (rank_quotes F (executable_only is_executable (resimulated sim quotes amount))).best

  -- `netEurc > 0n` is tested twice in the source.
  pub join_legs : RankedQuote F.Num → Option (RankedQuote F.Num) → Option (ViaUsdcResult F.Num)
  join_legs leg1 none = none
  join_legs leg1 (some leg2) =
      if is_positive leg2.net_out
      then some
          (record { leg1 = leg1; leg2 = leg2; usdc_mid = leg1.gross_out; net_eurc = leg2.net_out })
      else none

  module _ (q : EurcQuoters F.Num) (sim : Option (Quotes → ℤ → Quotes))
      (is_executable : Option (String → Bool)) where
    pub second_leg : Option (RankedQuote F.Num) → Option (ViaUsdcResult F.Num)
    second_leg none = none
    second_leg (some leg1) =
        if is_positive leg1.gross_out
        then join_legs leg1
            (best_leg sim is_executable (q.usdc_to_eurc leg1.gross_out) leg1.gross_out)
        else none

    pub via_usdc_of : ℤ → Option (ViaUsdcResult F.Num)
    via_usdc_of amount = second_leg (best_leg sim is_executable (q.blnd_to_usdc amount) amount)

    pub compare_eurc : ℤ → EurcComparison F.Num
    compare_eurc amount =
        let best_direct = (rank_quotes F (q.blnd_to_eurc amount)).best in
        let through = via_usdc_of amount in
        let direct_net = map_option (λ (r : RankedQuote F.Num). r.net_out) best_direct in
        let via_net = map_option (λ (r : ViaUsdcResult F.Num). r.net_eurc) through in
        let winner = choose_winner direct_net via_net in
        record {
          direct_quote = best_direct;
          via = through;
          winner = winner;
          best_net_eurc = choose_net direct_net via_net;
          via_usdc_advantage = advantage_of direct_net via_net;
          note = note_for winner direct_net via_net;
        }
