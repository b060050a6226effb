-- ===== src/Web/Server/Tests.antt =====
-- Concrete requests to a server.
use decant_fi.Common.{◌≡◌, refl, false, [], ◌∷◌, none, some, String}
use decant_fi.Common.Int.{pos}
use decant_fi.Core.Amount.{is_space}
use decant_fi.App.Choose.{trim_end_text, trim_start_text}
use decant_fi.Web.RequestIp
use decant_fi.Web.RequestIp.{absent, single, api_allowed, client_ip, first_header, trim_text}
use decant_fi.Web.Limits.{rate_limited, limit}
use decant_fi.Web.Execute.{ok, refused, exec_error, funds, to_usdc}
use decant_fi.Web.Server.{text, other, Fields, json, build_args, parse_pair}
use decant_fi.Web.Server.Query.{parse_query, before_letter, after_letter, split_amp, add_parts}
use decant_fi.Web.Server.Routes.{
  Incoming, Services, Server, sent, error_text, refreshing, route_in, strip_prefix,
}
use decant_fi.Web.Server.Serve.{handle, serve}
use decant_fi.Web.Server.Guarded.{IsGuarded, handle-IsGuarded}

abbrev key : String
key = "GDJEHTBE6ZHUXSWFI642DCGLUOECLHPF3KSXHPXTSTJ7E3JF6MQ5EZYY"

abbrev services : Services String
services = record {
  decode = λ s. some s;
  trusts_proxy = false;
  etag = λ name. name;
  icons = "lobstr.png" ∷ [];
  amount_of = λ s. some (pos 50_000_000_000);
  amount_field = λ f. some (pos 50_000_000_000);
  integer = λ f. some (pos 100);
  hours = λ s. pos 0;
  health = λ now. some "health";
  coherence = λ venue now. some "coherence";
  overview = λ pair offset now. some "overview";
  own_amount = some none;
  quote = λ pair amount. some "quote";
  blnd_balance = λ address. some "balance";
  own_balance = some "own balance";
  asset_balance = λ address pair. some "asset balance";
  broker_key = none;
  pick = λ args. ok "picked";
  change_trust = λ pair sender. ok "trustline";
  submit = λ args. refused (exec_error funds);
  tx_status = λ hash. ok "pending";
  tick = some "tick";
}

abbrev fields : Fields
fields = record {
  pair = some (text "USDC");
  sender = some (text key);
  amount = some (text "5000");
  slippage_bps = some (other "100");
  displayed = none;
  venue = none;
  from = none;
  signed_xdr = none;
  id = none;
}

abbrev from_page : RequestIp.Request
from_page = record {
  x_real_ip = absent;
  x_forwarded_for = absent;
  sec_fetch_site = single "same-origin";
  remote_address = some "203.0.113.7";
}

abbrev build_request : Incoming
build_request = record {
  method = "POST";
  url = "/api/build";
  peer = from_page;
  if_none_match = none;
  body = json fields;
}

abbrev server : Server String
server = record {
  buckets = [];
  overview_cache = [];
  health_cache = none;
  last_refresh_at = 0;
  in_flight = false;
}

abbrev refresh_request : Incoming
refresh_request = record build_request { url = "/api/refresh?pair=USDC" }

guard : Unit {0}
unfolding handle serve route_in strip_prefix parse_query before_letter after_letter split_amp
    add_parts build_args parse_pair rate_limited limit api_allowed first_header trim_text
    trim_end_text trim_start_text is_space
guard = tt

handle-IsGuarded_example :
    IsGuarded services 1_000_000 build_request server
      (handle services 1_000_000 build_request server)
handle-IsGuarded_example = handle-IsGuarded services 1_000_000 build_request server

-- A second refresh within fifteen seconds is refused.
refreshed_once : (handle services 1_000_000 refresh_request server).1 ≡ refreshing to_usdc (pos 0)
unfolding guard
refreshed_once = refl

refused_soon :
    (handle services 1_010_000 refresh_request (record server { last_refresh_at = 1_000_000 })).1
    ≡ sent 429 error_text
unfolding guard
refused_soon = refl
