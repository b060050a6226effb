-- ===== src/Web/Execute/Pick/Floors.antt =====
-- The minimum that the review of a swap shows is the one that the transaction asks for.
use decant_fi.Common.{ℕ, ◌≡◌, refl, Bool, List, [], ◌∷◌, Option, none, some, String}
use decant_fi.Common.Int.{ℤ}
use decant_fi.Common.Float.{Floats}
use decant_fi.Core.Rank.{to_number}
use decant_fi.Web.Execute.{ok, Target, Displayed, min_received}
use decant_fi.Web.Execute.Legs.{UltraLeg, sum}
use decant_fi.Web.Execute.Offers.{
  sell_asset, target_asset, Candidate, at_xbull, at_soroswap, at_horizon, at_aquarius, at_comet,
  at_ultra, Simulated, XbullBuild, Picked, Venues, Sell,
}
use decant_fi.Web.Execute.Pick.{Attempt, success, failed, with_floor}

module _ (F : Floats) (v : Venues F.Num) (sell : Sell) (target : Target) (amount : ℤ)
    (sender : String) (slippage_bps : ℕ) (displayed : Option (Displayed F.Num))
    (soroswap_configured : Bool) where
  -- The floors of the legs, in order.
  abbrev pub AreFloors : List UltraLeg → List ℤ → Type 0
  AreFloors [] [] = Unit {0}
  AreFloors (leg ∷ legs) (m ∷ ms) =
      (min_received leg.dest_stroops slippage_bps ≡ some m) × AreFloors legs ms
  AreFloors _ _ = ⊥

  -- The transaction was built for the sender, the amount and this minimum, which is the floor under
  -- this net amount.
  abbrev pub Enforces : Candidate → ℤ → ℤ → String → Type 0
  Enforces (at_xbull quoted route) net minimum xdr =
      (sim : Option Simulated) × (b : XbullBuild) × (v.simulate_xbull route amount ≡ ok sim)
      × (net ≡ elim sim [ none ↦ quoted | some s ↦ s.net ])
      × (min_received net slippage_bps ≡ some minimum)
      × (v.build_xbull route sender amount minimum ≡ ok b)
      × (b.xdr ≡ xdr)
  Enforces (at_soroswap quoted floor path quote) net minimum xdr =
      (net ≡ quoted) × (minimum ≡ floor) × (v.build_soroswap quote sender ≡ ok xdr)
  Enforces (at_horizon quoted path) net minimum xdr =
      (net ≡ quoted)
      × (min_received net slippage_bps ≡ some minimum)
      × (v.build_horizon sender (sell_asset sell) (target_asset target) amount minimum path
          ≡ ok xdr)
  Enforces (at_aquarius quoted chain tokens) net minimum xdr =
      (net ≡ quoted)
      × (min_received net slippage_bps ≡ some minimum)
      × (v.build_aquarius sender (target_asset target) (sell_asset sell).sac amount minimum chain
          ≡ ok xdr)
  Enforces (at_comet quoted) net minimum xdr =
      (net ≡ quoted)
      × (min_received net slippage_bps ≡ some minimum)
      × (v.build_comet sender amount minimum ≡ ok xdr)
  Enforces (at_ultra quoted legs) net minimum xdr =
      (ms : List ℤ) × (net ≡ quoted)
      × AreFloors legs ms
      × (sum ms ≡ minimum)
      × (v.build_ultra sender (sell_asset sell) (target_asset target) legs amount slippage_bps
          ≡ ok xdr)

  pub record IsEnforced (c : Candidate) (p : Picked F.Num) : Type 0 where
    pub net : ℤ
    pub minimum : ℤ
    pub enforces : Enforces c net minimum p.xdr
    pub net_shown : p.review.net_out ≡ to_number F net
    pub minimum_shown : p.review.min_received ≡ to_number F minimum
    pub send_shown : p.review.send_amount ≡ to_number F amount

  -- What holds of a pick, if an attempt gives one.
  abbrev Succeeds : (Picked F.Num → Type 0) → Attempt F.Num → Type 0
  Succeeds P (success p) = P p
  Succeeds P (failed e) = Unit {0}

  abbrev floor_then :
      (P : Picked F.Num → Type 0) (o : Option ℤ) (f : ℤ → Attempt F.Num)
      → ((m : ℤ) → o ≡ some m → Succeeds P (f m))
      → Succeeds P
          (with_floor F v sell target amount sender slippage_bps displayed soroswap_configured o f)
  floor_then P none f h = tt
  floor_then P (some m) f h = h m refl
