-- ===== src/Web/Server/Routes.antt =====
-- web/server.ts: `handle`. What the services answer is an argument (none where they throw), as are
-- the time and the conversions of JavaScript numbers. The calls that reach the network or start a
-- tick are listed. A refresh is answered when it ends, by `refreshed`.
use decant_fi.Common.{
  ℕ, ◌-◌, drop, Bool, true, false, ◌&&◌, ◌||◌, List, [], ◌∷◌, Option, none, some, String, str_eq,
  codes, all, length, find, ltb, leb, ◌==◌, ◌>>=◌, if◌then◌else◌,
}
use decant_fi.Common.Int.{ℤ}
use decant_fi.Web.RequestIp
use decant_fi.Core.Executable.{codes_eq}
use decant_fi.Web.RequestIp.{client_ip, api_allowed}
use decant_fi.Web.Limits.{Buckets}
use decant_fi.Web.Execute.{ExecError, Outcome, Target}
use decant_fi.Web.Server.{Body, Field, PickArgs, SubmitArgs}

pub record Incoming : Type 0 where
  pub method : String
  pub url : String
  pub peer : RequestIp.Request
  pub if_none_match : Option String
  pub body : Body

pub data Call : Type 0 where
  reads_blnd : String → Call
  reads_asset : String → Target → Call
  reads_own_balance : Call
  quotes : Target → ℤ → Call
  picks : PickArgs → Call
  builds_trustline : Target → String → Call
  submits : SubmitArgs → Call
  asks_status : String → Call
  runs_tick : Call

pub data Payload (D : Type 0) : Type 0 where
  contents : D → Payload D
  error_text : Payload D
  exec_failure : ExecError → Payload D
  -- the refresh and the overview after it
  both : D → D → Payload D

pub data Response (D : Type 0) : Type 0 where
  not_modified : String → Response D
  file : String → Response D
  sent : ℕ → Payload D → Response D
  refreshing : Target → ℤ → Response D

pub record CachedOverview (D : Type 0) : Type 0 where
  pub pair : Target
  pub offset : ℤ
  pub at : ℕ
  pub contents : D

pub record Server (D : Type 0) : Type 0 where
  pub buckets : Buckets
  pub overview_cache : List (CachedOverview D)
  pub health_cache : Option (ℕ × D)
  pub last_refresh_at : ℕ
  pub in_flight : Bool

pub record Services (D : Type 0) : Type 0 where
  pub decode : String → Option String
  pub trusts_proxy : Bool
  pub etag : String → String
  pub icons : List String
  -- `parseAmountStroops`
  pub amount_of : String → Option ℤ
  pub amount_field : Option Field → Option ℤ
  pub integer : Field → Option ℤ
  -- whole hours from -14 to 14, 0 for any other text
  pub hours : String → ℤ
  pub health : ℕ → Option D
  pub coherence : String → ℕ → Option D
  pub overview : Target → ℤ → ℕ → Option D
  -- the amount of the own wallet, if there is one and it is not empty
  pub own_amount : Option (Option ℤ)
  pub quote : Target → ℤ → Option D
  pub blnd_balance : String → Option D
  pub own_balance : Option D
  pub asset_balance : String → Target → Option D
  pub broker_key : Option D
  pub pick : PickArgs → Outcome D
  pub change_trust : Target → String → Outcome D
  pub submit : SubmitArgs → Outcome D
  pub tx_status : String → Outcome D
  pub tick : Option D

pub data Route : Type 0 where
  page : String → Route
  health coherence overview quote balance asset_balance broker_key refresh build build_trustline
        submit tx_status :
      Route

pub record Entry : Type 0 where
  pub method : String
  pub path : String
  pub route : Route

abbrev pub get : String → Route → Entry
get path route = record { method = "GET"; path = path; route = route }

abbrev pub post : String → Route → Entry
post path route = record { method = "POST"; path = path; route = route }

-- The conditions of `handle` in their order; no two paths are the same.
abbrev pub routes : List Entry
routes =
    get "/" (page "index.html")
    ∷ get "/walletkit.js" (page "walletkit.js")
    ∷ get "/sb-mediator.js" (page "sb-mediator.js")
    ∷ get "/app.js" (page "app.js")
    ∷ get "/choose-exec.js" (page "choose-exec.js")
    ∷ get "/composite-leg2-dispatch.js" (page "composite-leg2-dispatch.js")
    ∷ get "/favicon.svg" (page "favicon.svg")
    ∷ get "/logo.svg" (page "logo.svg")
    ∷ get "/robots.txt" (page "robots.txt")
    ∷ get "/api/health" health
    ∷ get "/api/coherence" coherence
    ∷ get "/api/overview" overview
    ∷ get "/api/quote" quote
    ∷ get "/api/balance" balance
    ∷ get "/api/asset-balance" asset_balance
    ∷ get "/api/sb-mediator-key" broker_key
    ∷ post "/api/refresh" refresh
    ∷ post "/api/build" build
    ∷ post "/api/build-trustline" build_trustline
    ∷ post "/api/submit" submit
    ∷ get "/api/tx-status" tx_status
    ∷ []

unfoldable pub route_in : List Entry → String → String → Option Route
route_in [] method path = none
route_in (e ∷ rest) method path =
    let later = route_in rest method path in
    if str_eq method e.method && str_eq path e.path then some e.route else later

-- `path.startsWith(prefix)`, with what is left.
unfoldable pub strip_prefix : List ℕ → List ℕ → Option (List ℕ)
strip_prefix [] s = some s
strip_prefix (c ∷ prefix) [] = none
strip_prefix (c ∷ prefix) (d ∷ s) =
    let rest = strip_prefix prefix s in if c == d then rest else none

abbrev pub starts_with : String → String → Bool
starts_with path prefix = elim (strip_prefix (codes prefix) (codes path)) [
  | none ↦ false
  | some s ↦ true
]

abbrev pub is_icon_char : ℕ → Bool
is_icon_char c =
    (leb b'A' c && leb c b'Z')
    || (leb b'a' c && leb c b'z')
    || (leb b'0' c && leb c b'9')
    || c == b'.'
    || c == b'_'
    || c == b'-'

abbrev pub ends_in_png : List ℕ → Bool
ends_in_png s = codes_eq (drop (length s - 4) s) (codes ".png")

-- `/^[A-Za-z0-9._-]+\.png$/`
abbrev pub is_icon_name : List ℕ → Bool
is_icon_name s = all is_icon_char s && ltb 4 (length s) && ends_in_png s

-- The icon that a path names, if it is there.
abbrev pub icon_at : List String → String → Option String
icon_at icons path = strip_prefix (codes "/wallet-icons/") (codes path) >>= λ name.
    if is_icon_name name then find (λ i. codes_eq (codes i) name) icons else none
