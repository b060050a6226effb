-- ===== src/Web/Quotes/Names.antt =====
-- web/stats.ts and web/quote-api.ts: how sources, assets and routes are displayed.
use decant_fi.Common.{
  ℕ, ◌-◌, Bool, true, false, ◌&&◌, leb, List, [], ◌∷◌, ◌++◌, Option, none, some, String, codes,
  str_eq, any, ◌==◌, map, if◌then◌else◌,
}
use decant_fi.Common.Int.{ℤ}
use decant_fi.Common.Float.{Floats}
use decant_fi.Core.Amount.{trim}
use decant_fi.Core.Executable.{codes_eq}
use decant_fi.Core.Rank.{to_number}
use decant_fi.Core.Types.{RouteHop, NetConfidence, exact, floor, estimate}

-- A table of texts by their code points.
unfoldable pub get_text : List (String × String) → List ℕ → Option (List ℕ)
get_text [] key = none
get_text (entry ∷ rest) key =
    let later = get_text rest key in
    if codes_eq (codes entry.0) key then some (codes entry.1) else later

abbrev pub display_names : List (String × String)
display_names =
    ("xbull", "xBull")
    ∷ ("soroswap", "Soroswap")
    ∷ ("aquarius", "Aquarius")
    ∷ ("comet", "Comet")
    ∷ ("ultrastellar", "Ultra Stellar")
    ∷ ("stellarbroker", "StellarBroker")
    ∷ ("horizon", "Horizon")
    ∷ []

-- `DISPLAY_NAME[s] ?? s`
abbrev pub name_of : List ℕ → List ℕ
name_of s = elim (get_text display_names s) [ none ↦ s | some name ↦ name ]

abbrev pub push_char : ℕ → List (List ℕ) → List (List ℕ)
push_char c [] = (c ∷ []) ∷ []
push_char c (word ∷ words) = (c ∷ word) ∷ words

-- `split('+')`
unfoldable pub split_plus : List ℕ → List (List ℕ)
split_plus [] = [] ∷ []
split_plus (c ∷ s) = let rest = split_plus s in if c == b'+' then [] ∷ rest else push_char c rest

-- `join(' + ')`
unfoldable pub join_plus : List (List ℕ) → List ℕ
join_plus [] = []
join_plus (word ∷ []) = word
join_plus (word ∷ next ∷ words) = word ++ codes " + " ++ join_plus (next ∷ words)

abbrev pub has_plus : List ℕ → Bool
has_plus s = any (λ c. c == b'+') s

unfoldable pub display_name : String → List ℕ
display_name source =
    if has_plus (codes source)
    then join_plus (map (λ s. name_of (trim s)) (split_plus (codes source)))
    else name_of (codes source)

pub data Chip : Type 0 where
  obs est : Chip

abbrev pub chip_for : NetConfidence → Chip
chip_for exact = obs
chip_for floor = est
chip_for estimate = est

-- `sym`
abbrev pub symbol_shown : String → String
symbol_shown s = if str_eq s "native" then "XLM" else s

-- `routeStr`: the stops that the text joins by arrows.
unfoldable pub route_str : List RouteHop → String → String → List String
route_str [] sell buy = symbol_shown sell ∷ symbol_shown buy ∷ []
route_str (hop ∷ hops) sell buy =
    map symbol_shown (hop.sell ∷ map (λ (h : RouteHop). h.buy) (hop ∷ hops))

abbrev pub venue_labels : List (String × String)
venue_labels =
    ("xbull", "xBull")
    ∷ ("soroswap", "Soroswap")
    ∷ ("aquarius", "Aquarius")
    ∷ ("aqua", "Aquarius")
    ∷ ("comet", "Comet")
    ∷ ("ultrastellar", "Ultra Stellar")
    ∷ ("stellarbroker", "StellarBroker")
    ∷ ("horizon", "Horizon")
    ∷ ("phoenix", "Phoenix")
    ∷ []

-- `toUpperCase` of an ASCII letter.
abbrev pub upper : ℕ → ℕ
upper c = if leb b'a' c && leb c b'z' then c - 32 else c

abbrev pub capitalized : List ℕ → List ℕ
capitalized [] = []
capitalized (c ∷ s) = upper c ∷ s

-- `prettyVenue`
abbrev pub pretty_venue : String → List ℕ
pretty_venue v = elim (get_text venue_labels (codes v)) [
  | none ↦ capitalized (codes v)
  | some name ↦ name
]

pub data RibbonPart (Num : Type 0) : Type 0 where
  -- an asset, the amount if it is shown, and whether it is what comes out
  asset_part : String → Option Num → Bool → RibbonPart Num
  tool_part : List ℕ → RibbonPart Num

module _ (F : Floats) where
  abbrev pub bought : String → F.Num → List RouteHop → RibbonPart F.Num
  bought buy net [] = asset_part (symbol_shown buy) (some net) true
  bought buy net (hop ∷ hops) = asset_part (symbol_shown buy) none false

  unfoldable pub hop_parts : F.Num → List RouteHop → List (RibbonPart F.Num)
  hop_parts net [] = []
  hop_parts net (hop ∷ hops) =
      tool_part (pretty_venue hop.venue) ∷ bought hop.buy net hops ∷ hop_parts net hops

  -- `buildRoute`
  unfoldable pub build_route : List RouteHop → ℤ → ℤ → String → List (RibbonPart F.Num)
  build_route [] amount net pair =
      asset_part "BLND" (some (to_number F amount)) false
      ∷ tool_part (codes "swap")
      ∷ asset_part pair (some (to_number F net)) true
      ∷ []
  build_route (hop ∷ hops) amount net pair =
      asset_part (symbol_shown hop.sell) (some (to_number F amount)) false
      ∷ hop_parts (to_number F net) (hop ∷ hops)
