-- ===== src/Web/Quotes/Shapes.antt =====
-- web/quote-api.ts: what a live quote is made of.
use decant_fi.Common.{ℕ, Bool, List, Option, String}
use decant_fi.Common.Int.{ℤ}
use decant_fi.Core.Types.{NetConfidence, RouteHop}
use decant_fi.Core.Prices.{Prices}
use decant_fi.Web.Quotes.Names.{Chip, RibbonPart}

pub record CompositeLeg (Num : Type 0) : Type 0 where
  pub source_id : String
  pub display : List ℕ
  pub from : String
  pub to : String
  pub hops : ℕ
  pub route_parts : List (RibbonPart Num)

-- An entry of `raw`.
pub record RawRow (Num : Type 0) : Type 0 where
  pub source : String
  pub net_out : ℤ
  pub conf : NetConfidence
  pub route : List String
  pub hops : Option (List RouteHop)
  pub impact_pct : Option Num
  pub impact_local_pct : Option Num
  pub legs : Option (List (CompositeLeg Num))
  pub floor : Option Num

pub record LiveLadderRow (Num : Type 0) : Type 0 where
  pub display : List ℕ
  pub route : List String
  pub route_parts : Option (List (RibbonPart Num))
  pub net : Num
  pub delta_vs_winner : Num
  pub chip : Chip
  pub impact_pct : Option Num
  pub impact_local_pct : Option Num
  pub winner : Bool
  pub source_id : String
  pub executable : Bool
  pub legs : Option (List (CompositeLeg Num))
  pub floor : Option Num

pub record Headline (Num : Type 0) : Type 0 where
  pub display : List ℕ
  pub net : Num
  pub rate : Num
  pub chip : Chip
  pub impact_pct : Option Num
  pub impact_local_pct : Option Num
  pub route : List (RibbonPart Num)
  pub legs : Option (List (CompositeLeg Num))

pub record DownSource : Type 0 where
  pub display : List ℕ
  pub source_id : String
  pub reason : String

pub record LiveQuote (Num : Type 0) : Type 0 where
  pub best : Headline Num
  pub ladder : List (LiveLadderRow Num)
  pub prices : Prices Num
  pub errors : List String
  pub down_sources : List DownSource
