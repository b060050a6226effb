-- ===== src/Core/Types.antt =====
-- core/sources/types.ts and core/assets.ts: the contract of the quote sources. The type of the
-- numbers that are not integers is a parameter; durations, ranks and basis points are natural
-- numbers. Of a source's raw response the two texts that the program reads back are kept.
use decant_fi.Common.{ℕ, Bool, true, false, List, [], ◌∷◌, Option, none, some, String, str_eq, find}
use decant_fi.Common.Int.{ℤ}

pub record Asset : Type 0 where
  pub symbol : String
  pub code : String
  pub issuer : Option String
  pub sac : String
  pub decimals : ℕ
  pub native : Bool

abbrev pub blnd : Asset
blnd = record {
  symbol = "BLND";
  code = "BLND";
  issuer = some "GDJEHTBE6ZHUXSWFI642DCGLUOECLHPF3KSXHPXTSTJ7E3JF6MQ5EZYY";
  sac = "CD25MNVTZDL4Y3XBCPCJXGXATV5WUHHOWMYFF4YBEGU5FCPGMYTVG5JY";
  decimals = 7;
  native = false;
}

abbrev pub usdc : Asset
usdc = record {
  symbol = "USDC";
  code = "USDC";
  issuer = some "GA5ZSEJYB37JRC5AVCIA5MOP4RHTM335X2KGX3IHOJAPP5RE34K4KZVN";
  sac = "CCW67TSZV3SSS2HXMBQ5JFGCKJNXKZM7UQUWUZPUTHXSTZLEO7SJMI75";
  decimals = 7;
  native = false;
}

abbrev pub eurc : Asset
eurc = record {
  symbol = "EURC";
  code = "EURC";
  issuer = some "GDHU6WRG4IEQXM5NZ4BMPKOXHW76MZM4Y2IEMFDVXBSDP6SJY4ITNPP2";
  sac = "CDTKPWPLOURQA2SGTKTUQOWRCBZEORB4BWBOMJ3D3ZTQQSGE5F6JBQLV";
  decimals = 7;
  native = false;
}

abbrev pub xlm : Asset
xlm = record {
  symbol = "XLM";
  code = "XLM";
  issuer = none;
  sac = "CAS3J7GYLGXMF6TDJBBYYSE3HQ6BBSMLNUQ34T6TZMYMW2EVH34XOWMA";
  decimals = 7;
  native = true;
}

abbrev pub aqua : Asset
aqua = record {
  symbol = "AQUA";
  code = "AQUA";
  issuer = some "GBNZILSTVQZ4R7IKQDGHYGY2QXL5QOFJYQMXPKWRRM5PAV7Y4M67AQUA";
  sac = "CAUIKL3IYGMERDRUN6YSCLWVAKIFG5Q4YJHUKM4S4NJZQIA3BAS6OJPK";
  decimals = 7;
  native = false;
}

abbrev pub assets : List Asset
assets = blnd ∷ usdc ∷ eurc ∷ xlm ∷ aqua ∷ []

unfoldable pub by_sac : String → Option Asset
by_sac sac = find (λ a. str_eq a.sac sac) assets

pub record QuoteRequest : Type 0 where
  pub sell_asset : Asset
  pub buy_asset : Asset
  pub amount_in : ℤ
  pub slippage_bps : ℕ

pub data NetConfidence : Type 0 where
  exact floor estimate : NetConfidence

pub data FeeKind : Type 0 where
  aggregator pool network unknown : FeeKind

pub record FeeItem : Type 0 where
  pub kind : FeeKind
  pub bps : Option ℕ
  pub amount : Option ℤ
  pub asset : Option String
  pub note : Option String

pub record RouteHop : Type 0 where
  pub venue : String
  pub sell : String
  pub buy : String

pub record NetRange : Type 0 where
  pub low : ℤ
  pub high : ℤ

pub record Raw : Type 0 where
  pub swap_chain_xdr : Option String
  pub route : Option String

pub record NormalizedQuote (Num : Type 0) : Type 0 where
  pub source : String
  pub sell_asset : Asset
  pub buy_asset : Asset
  pub amount_in : ℤ
  pub gross_out : ℤ
  pub fee_breakdown : List FeeItem
  pub gas_xlm : ℤ
  pub gas_in_target : ℤ
  pub net_out : ℤ
  pub net_confidence : NetConfidence
  pub net_range : Option NetRange
  pub route : List RouteHop
  pub price_impact_pct : Option Num
  pub price_impact_local_pct : Option Num
  pub raw : Raw
  pub duration_ms : Option ℕ
