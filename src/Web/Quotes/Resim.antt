-- ===== src/Web/Quotes/Resim.antt =====
-- web/quote-api.ts: the re-simulation of quotes against the chain, of the legs of a composite
-- (`makeReSimLeg`) and of the result of the engine (`resimAquariusXbull`). What the simulations
-- answer and how long they take is an argument.
pub mod Result
pub mod Rows
pub mod Fills
pub mod Direct
pub mod Honest
pub mod Tests
use decant_fi.Common.{
  ℕ, ◌+◌, Bool, true, false, not, ◌&&◌, ◌||◌, List, [], ◌∷◌, Option, none, some, String, str_eq,
  find, is_some, map, if◌then◌else◌,
}
use decant_fi.Common.Int.{ℤ, pos, ◌-ℤ◌, ltb_ℤ, eq_ℤ}
use decant_fi.Common.Float.{Floats}
use decant_fi.Core.Types.{Asset, NormalizedQuote, exact, estimate, RouteHop, FeeItem, aggregator}
use decant_fi.Core.Rank.{RankedQuote, Ranking, rank_quotes, or_else, is_positive}
use decant_fi.Core.Eurc.{EurcComparison, ViaUsdcResult, Winner, direct, via_usdc}
use decant_fi.Core.Engine.{QuoteResult}
use decant_fi.Core.Prices.{Prices, price_impact_pct, target_evm_per_unit, target_local_per_unit}
use decant_fi.Web.Execute.Offers.{Simulated}

-- What a simulation gives within its time limit.
pub data Reply {ℓ} (A : Type ℓ) : Type ℓ where
  replied : A → Reply A
  threw : Reply A

-- `.catch(() => null)`
abbrev pub caught {ℓ} : {A : Type ℓ} → Reply (Option A) → Option A
caught (replied a) = a
caught threw = none

pub record BrokerFill : Type 0 where
  pub net : ℤ
  pub is_exact : Bool
  pub route : List String

pub record Simulators : Type 0 where
  -- swap chain, amount, contract of the asset sold
  pub aquarius : String → ℤ → String → Reply (Option ℤ)
  pub xbull : String → ℤ → Reply (Option Simulated)
  pub broker : Asset → Asset → ℤ → Reply (Option BrokerFill)
  -- whether there is a key of StellarBroker
  pub has_broker_key : Bool
  pub aquarius_ms : ℕ
  pub xbull_ms : ℕ
  pub broker_ms : ℕ

-- A text that is there and is not empty.
abbrev pub given : Option String → Option String
given none = none
given (some t) = if str_eq t "" then none else some t

-- `r.slice(0, -1).map((sell, i) => …)`
unfoldable pub hops_between : String → List String → List RouteHop
hops_between venue [] = []
hops_between venue (a ∷ []) = []
hops_between venue (a ∷ b ∷ rest) =
    record { venue = venue; sell = a; buy = b } ∷ hops_between venue (b ∷ rest)

abbrev pub hops_of : String → List String → Option (List RouteHop)
hops_of venue (a ∷ b ∷ rest) = some (hops_between venue (a ∷ b ∷ rest))
hops_of venue _ = none

abbrev pub or_route : Option (List RouteHop) → List RouteHop → List RouteHop
or_route none route = route
or_route (some hops) route = hops

abbrev pub observed_fee : FeeItem
observed_fee = record {
  kind = aggregator;
  bps = none;
  amount = none;
  asset = none;
  note = some "fill observed via empty-auth Soroban simulation";
}

module _ {Num : Type 0} where
  abbrev pub downgraded : NormalizedQuote Num → NormalizedQuote Num
  downgraded q = record q { net_confidence = estimate }

  -- The amount received, net and gross.
  abbrev pub with_net : ℤ → NormalizedQuote Num → NormalizedQuote Num
  with_net n q = record q { net_out = n; gross_out = n }

  abbrev pub aquarius_leg : NormalizedQuote Num → Reply (Option ℤ) → Option (NormalizedQuote Num)
  aquarius_leg q (replied (some n)) =
      if is_positive n then some (record (with_net n q) { net_confidence = exact }) else none
  aquarius_leg q (replied none) = none
  aquarius_leg q threw = some (downgraded q)

  abbrev pub xbull_leg : NormalizedQuote Num → Option Simulated → Option (NormalizedQuote Num)
  xbull_leg q none = some (downgraded q)
  xbull_leg q (some s) =
      if is_positive s.net && not (eq_ℤ s.net q.net_out) then some (with_net s.net q) else some q

  -- A fill that was observed in full.
  abbrev pub promoted : BrokerFill → NormalizedQuote Num → NormalizedQuote Num
  promoted f q = record (with_net f.net q) {
    net_confidence = exact;
    net_range = some (record { low = f.net; high = f.net });
    fee_breakdown = observed_fee ∷ [];
    route = or_route (hops_of "stellarbroker" f.route) q.route;
  }

  abbrev pub broker_leg : NormalizedQuote Num → Option BrokerFill → Option (NormalizedQuote Num)
  broker_leg q none = some q
  broker_leg q (some f) =
      if is_positive f.net && f.is_exact
      then some (record (promoted f q) { price_impact_pct = none; price_impact_local_pct = none })
      else some q

  module _ (s : Simulators) (amount : ℤ) where
    abbrev pub at_aquarius : NormalizedQuote Num → Option (NormalizedQuote Num)
    at_aquarius q = elim (given q.raw.swap_chain_xdr) [
      | none ↦ some q
      | some xdr ↦ aquarius_leg q (s.aquarius xdr amount q.sell_asset.sac)
    ]

    abbrev pub at_xbull : NormalizedQuote Num → Option (NormalizedQuote Num)
    at_xbull q = elim (given q.raw.route) [
      | none ↦ some q
      | some route ↦ xbull_leg q (caught (s.xbull route amount))
    ]

    -- A leg's quote; none where it is left out.
    unfoldable pub resim_leg : NormalizedQuote Num → Option (NormalizedQuote Num)
    resim_leg q =
        if str_eq q.source "aquarius"
        then at_aquarius q
        else if str_eq q.source "xbull"
        then at_xbull q
        else if str_eq q.source "stellarbroker" && s.has_broker_key
        then broker_leg q (caught (s.broker q.sell_asset q.buy_asset amount))
        else some q

  abbrev pub keep :
      Option (NormalizedQuote Num) → List (NormalizedQuote Num) → List (NormalizedQuote Num)
  keep none qs = qs
  keep (some q) qs = q ∷ qs

  unfoldable pub make_re_sim_leg :
      Simulators → List (NormalizedQuote Num) → ℤ → List (NormalizedQuote Num)
  make_re_sim_leg s [] amount = []
  make_re_sim_leg s (q ∷ qs) amount = keep (resim_leg s amount q) (make_re_sim_leg s qs amount)

-- What the simulation of a source has shown: whether it was seen to fill, the net amount where that
-- differs from the one quoted, the route, and whether it failed.
pub record Seen : Type 0 where
  pub is_observed : Bool
  pub net : Option ℤ
  pub hops : Option (List RouteHop)
  pub has_failed : Bool

abbrev pub unseen : Seen
unseen = record { is_observed = false; net = none; hops = none; has_failed = false }

abbrev pub failed_sim : Seen
failed_sim = record unseen { has_failed = true }

abbrev pub broker_fill : Option BrokerFill → Seen
broker_fill none = unseen
broker_fill (some f) =
    if is_positive f.net && f.is_exact
    then record unseen { net = some f.net; hops = hops_of "stellarbroker" f.route }
    else unseen

module _ {Num : Type 0} where
  abbrev pub find_source : String → List (RankedQuote Num) → Option (RankedQuote Num)
  find_source id ranked = find (λ r. str_eq r.source id) ranked

  abbrev pub aquarius_fill : RankedQuote Num → Option ℤ → Seen
  aquarius_fill q none = failed_sim
  aquarius_fill q (some n) =
      if is_positive n
      then record unseen { is_observed = true; net = if eq_ℤ n q.net_out then none else some n }
      else unseen

  abbrev pub xbull_fill : RankedQuote Num → Option Simulated → Seen
  xbull_fill q none = failed_sim
  xbull_fill q (some s) = record unseen {
    net = if is_positive s.net && not (eq_ℤ s.net q.net_out) then some s.net else none;
    hops = hops_of "xbull" s.route;
  }

  module _ (s : Simulators) (amount : ℤ) where
    abbrev pub aquarius_asked : RankedQuote Num → Option String → Seen
    aquarius_asked q none = unseen
    aquarius_asked q (some xdr) = aquarius_fill q (caught (s.aquarius xdr amount q.sell_asset.sac))

    abbrev pub aquarius_seen : Option (RankedQuote Num) → Seen
    aquarius_seen none = unseen
    aquarius_seen (some q) = aquarius_asked q (given q.quote.raw.swap_chain_xdr)

    abbrev pub xbull_asked : RankedQuote Num → Option String → Seen
    xbull_asked q none = unseen
    xbull_asked q (some route) = xbull_fill q (caught (s.xbull route amount))

    abbrev pub xbull_seen : Option (RankedQuote Num) → Seen
    xbull_seen none = unseen
    xbull_seen (some q) = xbull_asked q (given q.quote.raw.route)

    abbrev pub broker_seen : Option (RankedQuote Num) → Seen
    broker_seen none = unseen
    broker_seen (some q) =
        if s.has_broker_key
        then broker_fill (caught (s.broker q.sell_asset q.buy_asset amount))
        else unseen
