-- ===== src/Core/Prices.antt =====
-- core/prices.ts and core/gas.ts: spot prices, the impact of a swap against them, and gas converted
-- into the target asset. The answers of the price services are an argument.
use decant_fi.Common.{Bool, not, ◌&&◌, ◌||◌, Option, none, some, String, str_eq, if◌then◌else◌}
use decant_fi.Common.Int.{ℤ, pos}
use decant_fi.Common.Float.{Floats}
use decant_fi.Core.Amount.{Parsed, ok, to_stroops}
use decant_fi.Core.Rank.{to_number}

pub record Prices (Num : Type 0) : Type 0 where
  pub blnd_usd : Option Num
  pub xlm_usd : Option Num
  pub eurc_usd : Option Num
  pub eurc_stellar_mid : Option Num

module _ (F : Floats) where
  -- A number that is neither zero nor NaN.
  abbrev truthy : F.Num → Bool
  truthy x = F.lt (F.lit 0 0) x || F.lt x (F.lit 0 0)

  -- `num`: a positive finite price.
  pub num : Option F.Num → Option F.Num
  num none = none
  num (some v) = if F.is_finite v && F.lt (F.lit 0 0) v then some v else none

  abbrev plausible_mid : F.Num → Option F.Num
  plausible_mid mid = if F.lt mid (F.lit 5 1) || F.lt (F.lit 2 0) mid then none else some mid

  -- The mid of the best bid and ask of the order book.
  pub eurc_stellar_mid_of : Option F.Num → Option F.Num → Option F.Num
  eurc_stellar_mid_of (some bid) (some ask) =
      if not (F.is_finite bid)
        || not (F.is_finite ask)
        || F.le bid (F.lit 0 0)
        || F.le ask (F.lit 0 0)
      then none
      else plausible_mid (F.div (F.add bid ask) (F.lit 2 0))
  eurc_stellar_mid_of _ _ = none

  pub target_evm_per_unit : String → Prices F.Num → Option F.Num
  target_evm_per_unit symbol prices =
      if str_eq symbol "USDC"
      then some (F.lit 1 0)
      else if str_eq symbol "EURC"
      then prices.eurc_usd
      else none

  pub target_local_per_unit : String → Prices F.Num → Option F.Num
  target_local_per_unit symbol prices =
      if str_eq symbol "USDC"
      then some (F.lit 1 0)
      else if str_eq symbol "EURC"
      then prices.eurc_stellar_mid
      else none

  abbrev impact_of : F.Num → F.Num → Option F.Num
  impact_of in_usd out_usd =
      if F.le in_usd (F.lit 0 0)
      then none
      else some (F.mul (F.div (F.sub in_usd out_usd) in_usd) (F.lit 100 0))

  pub price_impact_pct : ℤ → ℤ → Option F.Num → Option F.Num → Option F.Num
  price_impact_pct amount_in net_out (some blnd_usd) (some unit) =
      if truthy blnd_usd && truthy unit
      then impact_of (F.mul (to_number F amount_in) blnd_usd) (F.mul (to_number F net_out) unit)
      else none
  price_impact_pct amount_in net_out _ _ = none

  abbrev units_to_stroops : F.Num → Parsed
  units_to_stroops units =
      if not (F.is_finite units) || F.le units (F.lit 0 0)
      then ok (pos 0)
      else to_stroops (F.to_fixed 7 units) 7

  -- `convertXlmToTarget`
  unfoldable pub convert_xlm_to_target : ℤ → Option F.Num → Option F.Num → Parsed
  convert_xlm_to_target gas_xlm (some xlm_usd) (some unit) =
      if not (truthy xlm_usd) || not (truthy unit) || F.le unit (F.lit 0 0)
      then ok (pos 0)
      else units_to_stroops (F.div (F.mul (to_number F gas_xlm) xlm_usd) unit)
  convert_xlm_to_target gas_xlm _ _ = ok (pos 0)
