-- ===== src/Web/Execute/Offers.antt =====
-- web/execute.ts: what the venues offer to `pickExecutableVenue`, and how a route is displayed. What
-- they quote, simulate and build is an argument.
use decant_fi.Common.{
  ℕ, Bool, true, false, List, [], ◌∷◌, Option, none, some, String, str_eq, map, code, ◌==◌,
  if◌then◌else◌,
}
use decant_fi.Common.Int.{ℤ, pos, ltb_ℤ}
use decant_fi.Core.Types.{Asset, blnd, usdc, eurc, by_sac}
use decant_fi.Web.Execute.{
  Venue, xbull, soroswap, horizon, aquarius, comet, ultrastellar, Outcome, ok, Target, to_usdc,
  to_eurc, BuildType, Gas, ReviewData, Stop, named, shortened, RouteText, joined,
}
use decant_fi.Web.Execute.Legs.{UltraLeg, PathRecord, is_native}

-- What a candidate was quoted with.
pub data Candidate : Type 0 where
  at_xbull : ℤ → String → Candidate
  -- the floor that the quote carries, the path, the quote itself
  at_soroswap : ℤ → ℤ → Option (List String) → String → Candidate
  at_horizon : ℤ → List PathRecord → Candidate
  -- the swap chain and the tokens
  at_aquarius : ℤ → String → List String → Candidate
  at_comet : ℤ → Candidate
  at_ultra : ℤ → List UltraLeg → Candidate

abbrev pub venue_of : Candidate → Venue
venue_of (at_xbull n r) = xbull
venue_of (at_soroswap n m p q) = soroswap
venue_of (at_horizon n p) = horizon
venue_of (at_aquarius n x t) = aquarius
venue_of (at_comet n) = comet
venue_of (at_ultra n l) = ultrastellar

abbrev pub net_of : Candidate → ℤ
net_of (at_xbull n r) = n
net_of (at_soroswap n m p q) = n
net_of (at_horizon n p) = n
net_of (at_aquarius n x t) = n
net_of (at_comet n) = n
net_of (at_ultra n l) = n

abbrev pub venue_eq : Venue → Venue → Bool
venue_eq xbull xbull = true
venue_eq soroswap soroswap = true
venue_eq horizon horizon = true
venue_eq aquarius aquarius = true
venue_eq comet comet = true
venue_eq ultrastellar ultrastellar = true
venue_eq _ _ = false

abbrev pub target_asset : Target → Asset
target_asset to_usdc = usdc
target_asset to_eurc = eurc

abbrev pub target_text : Target → String
target_text to_usdc = "USDC"
target_text to_eurc = "EURC"

pub record Preflight : Type 0 where
  pub trustline_found : Option Bool
  pub liquid : Option ℤ

pub record Simulated : Type 0 where
  pub net : ℤ
  pub route : List String

pub record XbullBuild : Type 0 where
  pub id : String
  pub xdr : String
  pub type : BuildType

pub record Picked (Num : Type 0) : Type 0 where
  pub venue : Venue
  pub xdr : String
  pub id : Option String
  pub type : BuildType
  pub review : ReviewData Num

-- The answers of the venues: a venue that has no quote answers none. The simulation of Comet, which
-- is its quote, may throw.
pub record Venues (Num : Type 0) : Type 0 where
  pub preflight : Preflight
  pub xbull_quote : Option (ℤ × String)
  pub soroswap_quote : Option (ℤ × ℤ × Option (List String) × String)
  pub horizon_quote : Option (ℤ × List PathRecord)
  pub aquarius_quote : Option (ℤ × String × List String)
  pub simulate_comet : Outcome (Option ℤ)
  pub ultra_quote : Option (ℤ × List UltraLeg)
  -- route and amount; null, or thrown
  pub simulate_xbull : String → ℤ → Outcome (Option Simulated)
  -- route, sender, amount, minimum
  pub build_xbull : String → String → ℤ → ℤ → Outcome XbullBuild
  -- sender, assets sold and bought, amount, minimum, path
  pub build_horizon : String → Asset → Asset → ℤ → ℤ → List PathRecord → Outcome String
  -- sender, asset bought, contract of the asset sold, amount, minimum, swap chain
  pub build_aquarius : String → Asset → String → ℤ → ℤ → String → Outcome String
  -- sender, amount, minimum
  pub build_comet : String → ℤ → ℤ → Outcome String
  -- sender, assets sold and bought, legs, amount, slippage
  pub build_ultra : String → Asset → Asset → List UltraLeg → ℤ → ℕ → Outcome String
  -- quote, sender
  pub build_soroswap : String → String → Outcome String
  pub gas : String → Gas Num

pub data Sell : Type 0 where
  sell_blnd sell_usdc : Sell

abbrev pub sell_asset : Sell → Asset
sell_asset sell_blnd = blnd
sell_asset sell_usdc = usdc

-- `quoteComet`: nothing where nothing is paid out.
abbrev pub comet_quote : Outcome (Option ℤ) → Outcome (Option ℤ)
comet_quote (ok (some out)) = ok (if ltb_ℤ (pos 0) out then some out else none)
comet_quote other = other

-- Comet is asked for BLND against USDC only.
abbrev pub comet_asked : Sell → Target → Outcome (Option ℤ) → Outcome (Option ℤ)
comet_asked sell_blnd to_usdc answer = comet_quote answer
comet_asked _ _ answer = ok none

abbrev pub push {ℓ} : {A : Type ℓ} → Option A → (A → Candidate) → List Candidate → List Candidate
push none f rest = rest
push (some a) f rest = f a ∷ rest

module _ {Num : Type 0} where
  -- In the order of the code, which the sort keeps among equal amounts.
  abbrev pub offered : Venues Num → Option ℤ → List Candidate
  offered v comet_out =
      push v.xbull_quote (λ q. at_xbull q.0 q.1)
        (push v.soroswap_quote (λ q. at_soroswap q.0 q.1 q.2 q.3)
          (push v.horizon_quote (λ q. at_horizon q.0 q.1)
            (push v.aquarius_quote (λ q. at_aquarius q.0 q.1 q.2)
              (push comet_out at_comet (push v.ultra_quote (λ q. at_ultra q.0 q.1) [])))))

abbrev pub nets_less : Candidate → Candidate → Bool
nets_less a b = ltb_ℤ (net_of a) (net_of b)

-- The stops of an Aquarius route.
unfoldable pub before_colon : String → String
before_colon String.[] = ""
before_colon (String.◌∷◌ letter rest) =
    let more = before_colon rest in if code letter == b':' then "" else String.◌∷◌ letter more

abbrev pub aquarius_stop : String → Stop
aquarius_stop token = named (if str_eq token "native" then "XLM" else before_colon token)

abbrev pub horizon_stop : PathRecord → Stop
horizon_stop r =
    named (if is_native r then "XLM" else elim r.asset_code [ none ↦ "?" | some c ↦ c ])

-- `routeLabel` of Soroswap.
abbrev pub sac_stop : String → Stop
sac_stop sac = elim (by_sac sac) [ none ↦ shortened sac | some a ↦ named a.symbol ]

abbrev pub soroswap_route : Target → Option (List String) → RouteText
soroswap_route target none = joined (named "BLND" ∷ named (target_text target) ∷ [])
soroswap_route target (some []) = joined (named "BLND" ∷ named (target_text target) ∷ [])
soroswap_route target (some (sac ∷ sacs)) = joined (map sac_stop (sac ∷ sacs))

-- A route of two stops or more, else the pair.
abbrev pub at_least_two : List Stop → RouteText → RouteText
at_least_two [] pair = pair
at_least_two (s ∷ []) pair = pair
at_least_two (s ∷ t ∷ rest) pair = joined (s ∷ t ∷ rest)
