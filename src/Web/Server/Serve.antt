-- ===== src/Web/Server/Serve.antt =====
-- web/server.ts: `handle`, route by route. Its guards come first; what stands behind them is what the
-- services answer.
use decant_fi.Web.Server.Answers.{
  or_text, Handled, is_cached, stored_overview, bad_request, failed_response, of_option, of_outcome,
  without_asset,
}
use decant_fi.Common.{
  ℕ, ◌+◌, Bool, true, false, not, ◌&&◌, List, [], ◌∷◌, ◌++◌, Option, none, some, String, str_eq,
  find, ltb, get_key, ◌>>=◌, if◌then◌else◌,
}
use decant_fi.Common.Int.{ℤ}
use decant_fi.Web.RequestIp.{client_ip, api_allowed}
use decant_fi.Web.Limits.{rate_limited}
use decant_fi.Web.Execute.{Target, to_usdc}
use decant_fi.Web.Server.{
  Body, unreadable, json, Fields, parse_pair, pair_field, pubkey_field, is_stellar_pubkey,
  pubkey_if, PickArgs, build_args, SubmitArgs, submit_args, status_args, is_venue_word,
}
use decant_fi.Web.Server.Query.{parse_query, path_of}
use decant_fi.Web.Server.Routes.{
  Incoming, Call, reads_blnd, reads_asset, reads_own_balance, quotes, picks, builds_trustline,
  submits, asks_status, runs_tick, contents, error_text, both, Response, not_modified, file, sent,
  refreshing, CachedOverview, Server, Services, Route, page, health, coherence, overview, quote,
  balance, asset_balance, broker_key, refresh, build, build_trustline, submit, tx_status, routes,
  route_in, starts_with, icon_at,
}

module _ {D : Type 0} where
  module _ (svc : Services D) (now : ℕ) (req : Incoming) where
    abbrev pub ip : String
    ip = client_ip req.peer svc.trusts_proxy

    abbrev pub param : String → Option String
    param key = get_key (parse_query svc.decode req.url) key

    -- `sendStatic`
    abbrev pub send_static : String → Response D
    send_static name = elim req.if_none_match [
      | none ↦ file name
      | some tag ↦ if str_eq tag (svc.etag name) then not_modified name else file name
    ]

    -- A request within the limit goes on; another is answered by 429.
    abbrev pub within_limit : Server D → ℕ → (Server D → Handled D) → Handled D
    within_limit st max next =
        let r = rate_limited st.buckets now ip max 60_000 in
        if r.0
        then (record st { buckets = r.1 }, sent 429 error_text, [])
        else next (record st { buckets = r.1 })

    abbrev pub fresh_health : Server D → Option D → Handled D
    fresh_health st none = (st, failed_response, [])
    fresh_health st (some d) =
        (record st { health_cache = some (now, d) }, sent 200 (contents d), [])

    abbrev pub cached_health : Server D → Option (ℕ × D) → Handled D
    cached_health st none = fresh_health st (svc.health now)
    cached_health st (some hit) =
        if ltb now (hit.0 + 30_000)
        then (st, sent 200 (contents hit.1), [])
        else fresh_health st (svc.health now)

    abbrev pub serve_coherence : Server D → Handled D
    serve_coherence st =
        let venue = or_text (param "venue") "" in
        if is_venue_word venue
        then (st, of_option (svc.coherence venue now), [])
        else (st, bad_request, [])

    abbrev pub fresh_overview : Server D → Target → ℤ → Option D → Handled D
    fresh_overview st pair offset none = (st, failed_response, [])
    fresh_overview st pair offset (some d) = (
      record st {
        overview_cache =
            stored_overview st.overview_cache
              (record { pair = pair; offset = offset; at = now; contents = d });
      },
      sent 200 (contents d),
      [],
    )

    abbrev pub cached_overview : Server D → Target → ℤ → Option (CachedOverview D) → Handled D
    cached_overview st pair offset none =
        fresh_overview st pair offset (svc.overview pair offset now)
    cached_overview st pair offset (some hit) =
        if ltb now (hit.at + 60_000)
        then (st, sent 200 (contents hit.contents), [])
        else fresh_overview st pair offset (svc.overview pair offset now)

    abbrev pub overview_for : Server D → Option Target → Handled D
    overview_for st none = (st, bad_request, [])
    overview_for st (some pair) =
        let offset = svc.hours (or_text (param "tzoff") "0") in
        cached_overview st pair offset (find (is_cached pair offset) st.overview_cache)

    abbrev pub pair_param : Option Target
    pair_param = parse_pair (or_text (param "pair") "USDC")

    abbrev pub quote_at : Server D → Target → Option ℤ → List Call → Handled D
    quote_at st pair none calls = (st, bad_request, calls)
    quote_at st pair (some amount) calls =
        (st, of_option (svc.quote pair amount), calls ++ quotes pair amount ∷ [])

    -- The amount of the own wallet; none where its balance cannot be read.
    abbrev pub own_quote : Server D → Target → Option (Option ℤ) → Handled D
    own_quote st pair none = (st, failed_response, reads_own_balance ∷ [])
    own_quote st pair (some amount) = quote_at st pair amount (reads_own_balance ∷ [])

    abbrev pub wants_wallet : Option String → Bool
    wants_wallet none = false
    wants_wallet (some s) = str_eq s "1"

    abbrev pub quote_for : Server D → Option Target → Handled D
    quote_for st none = (st, bad_request, [])
    quote_for st (some pair) =
        if wants_wallet (param "wallet")
        then own_quote st pair svc.own_amount
        else quote_at st pair (svc.amount_of (or_text (param "amount") "")) []

    abbrev pub balance_of : Server D → Option String → Handled D
    balance_of st none = (st, of_option svc.own_balance, reads_own_balance ∷ [])
    balance_of st (some address) =
        if is_stellar_pubkey address
        then (st, of_option (svc.blnd_balance address), reads_blnd address ∷ [])
        else (st, bad_request, [])

    abbrev pub asset_balance_of : Server D → Option (String × Target) → Handled D
    asset_balance_of st none = (st, bad_request, [])
    asset_balance_of st (some (address, pair)) =
        (st, of_option (svc.asset_balance address pair), reads_asset address pair ∷ [])

    abbrev pub asset_args : Option (String × Target)
    asset_args = do
      address ← param "address"
      key ← pubkey_if (is_stellar_pubkey address) address
      asset ← param "asset"
      pair ← parse_pair asset
      some (key, pair)

    abbrev pub key_response : Option D → Response D
    key_response none = sent 404 error_text
    key_response (some key) = sent 200 (contents key)

    -- The guards of a refresh, then `manualRefresh` is started.
    abbrev pub start_refresh : Server D → Handled D
    start_refresh st =
        if st.in_flight
        then (st, sent 429 error_text, [])
        else if ltb now (st.last_refresh_at + 15_000)
        then (st, sent 429 error_text, [])
        else (
          record st { last_refresh_at = now; in_flight = true },
          refreshing (elim pair_param [ none ↦ to_usdc | some pair ↦ pair ])
              (svc.hours (or_text (param "tzoff") "0")),
          runs_tick ∷ [],
        )

    abbrev pub build_for : Server D → Option PickArgs → Handled D
    build_for st none = (st, bad_request, [])
    build_for st (some a) = (st, of_outcome (svc.pick a), picks a ∷ [])

    abbrev pub serve_build : Server D → Body → Handled D
    serve_build st unreadable = (st, failed_response, [])
    serve_build st (json b) = build_for st (build_args svc.amount_field svc.integer b)

    abbrev pub trustline_for : Server D → Option (Target × String) → Handled D
    trustline_for st none = (st, bad_request, [])
    trustline_for st (some (pair, sender)) = (
      st,
      of_outcome (without_asset (svc.change_trust pair sender)),
      builds_trustline pair sender ∷ [],
    )

    abbrev pub trustline_args : Fields → Option (Target × String)
    trustline_args b = do
      pair ← pair_field b.pair
      sender ← pubkey_field b.sender
      some (pair, sender)

    abbrev pub serve_trustline : Server D → Body → Handled D
    serve_trustline st unreadable = (st, failed_response, [])
    serve_trustline st (json b) = trustline_for st (trustline_args b)

    abbrev pub submit_for : Server D → Option SubmitArgs → Handled D
    submit_for st none = (st, bad_request, [])
    submit_for st (some a) = (st, of_outcome (without_asset (svc.submit a)), submits a ∷ [])

    abbrev pub serve_submit : Server D → Body → Handled D
    serve_submit st unreadable = (st, failed_response, [])
    serve_submit st (json b) = submit_for st (submit_args b)

    abbrev pub status_for : Server D → Option String → Handled D
    status_for st none = (st, bad_request, [])
    status_for st (some hash) =
        (st, of_outcome (without_asset (svc.tx_status hash)), asks_status hash ∷ [])

    unfoldable pub serve : Server D → Route → Handled D
    serve st (page name) = (st, send_static name, [])
    serve st health = cached_health st st.health_cache
    serve st coherence = serve_coherence st
    serve st overview = overview_for st pair_param
    serve st quote = within_limit st 120 λ st. quote_for st pair_param
    serve st balance = within_limit st 60 λ st. balance_of st (param "address")
    serve st asset_balance = within_limit st 60 λ st. asset_balance_of st asset_args
    serve st broker_key = within_limit st 60 λ st. (st, key_response svc.broker_key, [])
    serve st refresh = start_refresh st
    serve st build = within_limit st 30 λ st. serve_build st req.body
    serve st build_trustline = within_limit st 10 λ st. serve_trustline st req.body
    serve st submit = within_limit st 10 λ st. serve_submit st req.body
    serve st tx_status =
        within_limit st 90 λ st. status_for st (status_args (param "venue") (param "hash"))

    abbrev pub icon_or_404 : Option String → Response D
    icon_or_404 none = sent 404 error_text
    icon_or_404 (some name) = send_static name

    abbrev pub routed : Server D → String → Option Route → Handled D
    routed st path (some route) = serve st route
    routed st path none =
        if str_eq req.method "GET"
        then (st, icon_or_404 (icon_at svc.icons path), [])
        else (st, sent 404 error_text, [])

    unfoldable pub handle : Server D → Handled D
    handle st =
        let path = path_of req.url in
        if starts_with path "/api/" && not (api_allowed req.peer)
        then (st, sent 403 error_text, [])
        else routed st path (route_in routes req.method path)

  -- The end of a refresh: the caches are emptied where its tick was stored.
  abbrev pub after_tick : Server D → Option D → Option D → Server D × Response D
  after_tick st none view = (st, failed_response)
  after_tick st (some d) none =
      (record st { overview_cache = []; health_cache = none }, failed_response)
  after_tick st (some d) (some view) =
      (record st { overview_cache = []; health_cache = none }, sent 200 (both d view))

  pub refreshed : Services D → ℕ → Target → ℤ → Server D → Server D × Response D
  refreshed svc now pair offset st =
      after_tick (record st { in_flight = false }) svc.tick (svc.overview pair offset now)
