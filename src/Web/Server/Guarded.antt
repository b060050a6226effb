-- ===== src/Web/Server/Guarded.antt =====
-- What reaches the network from a request.
use decant_fi.Web.Server.Paths.{is_page, routes-IsApi, route_in_lem}
use decant_fi.Common.{
  Bool, ◌⊎◌, ℕ, ◌≡◌, refl, sym, subst, ◌∙◌, inl, inr, true, false, not, ◌&&◌, [], Option, none,
  some, String, All, str_eq, Bool-cases,
}
use decant_fi.Web.RequestIp.{api_allowed}
use decant_fi.Web.Limits.{Buckets, rate_limited}
use decant_fi.Web.Server.{status_args}
use decant_fi.Web.Server.Query.{path_of}
use decant_fi.Web.Server.Checked.{status_args_lem}
use decant_fi.Web.Server.Routes.{
  Incoming, Server, Services, Route, page, health, coherence, overview, quote, balance,
  asset_balance, broker_key, refresh, build, build_trustline, submit, tx_status, routes, route_in,
  starts_with,
}
use decant_fi.Web.Server.Serve.{
  ip, key_response, param, asset_args, asset_balance_of, balance_of, quote_for, pair_param,
  serve_trustline, serve_build, serve_submit, status_for, serve, routed, handle,
}
use decant_fi.Web.Server.Answers.{Handled}
use decant_fi.Web.Server.Handlers.{
  Checked, CallsChecked, cached_health_lem, serve_coherence_lem, overview_for_lem, within_limit_lem,
  quote_for_lem, balance_of_lem, asset_balance_of_lem, asset_args_lem, start_refresh_lem,
  serve_build_lem, serve_trustline_lem, serve_submit_lem, status_for_lem,
}
use decant_fi.Web.Server.Origin.{limit_of, IsFromHere, api_allowed-IsFromHere}

module _ {D : Type 0} (svc : Services D) (now : ℕ) (req : Incoming) where
  serve_lem : (st : Server D) (r : Route) → CallsChecked svc now req (serve svc now req st r)
  unfolding serve
  serve_lem st (page name) = tt
  serve_lem st health = cached_health_lem svc now req st st.health_cache
  serve_lem st coherence = serve_coherence_lem svc now req st
  serve_lem st overview = overview_for_lem svc now req st (pair_param svc now req)
  serve_lem st quote =
      within_limit_lem svc now req st 120 (λ u. quote_for svc now req u (pair_param svc now req))
        (λ u. quote_for_lem svc now req u (pair_param svc now req))
  serve_lem st balance =
      within_limit_lem svc now req st 60
        (λ u. balance_of svc now req u (param svc now req "address"))
        (λ u. balance_of_lem svc now req u (param svc now req "address"))
  serve_lem st asset_balance =
      within_limit_lem svc now req st 60
        (λ u. asset_balance_of svc now req u (asset_args svc now req))
        (λ u.
          asset_balance_of_lem svc now req u (asset_args svc now req) (asset_args_lem svc now req))
  serve_lem st broker_key =
      within_limit_lem svc now req st 60 (λ u. (u, key_response svc now req svc.broker_key, []))
        (λ u. tt)
  serve_lem st refresh = start_refresh_lem svc now req st
  serve_lem st build =
      within_limit_lem svc now req st 30 (λ u. serve_build svc now req u req.body)
        (λ u. serve_build_lem svc now req u req.body)
  serve_lem st build_trustline =
      within_limit_lem svc now req st 10 (λ u. serve_trustline svc now req u req.body)
        (λ u. serve_trustline_lem svc now req u req.body)
  serve_lem st submit =
      within_limit_lem svc now req st 10 (λ u. serve_submit svc now req u req.body)
        (λ u. serve_submit_lem svc now req u req.body)
  serve_lem st tx_status =
      within_limit_lem svc now req st 90
        (λ u.
          status_for svc now req u
            (status_args (param svc now req "venue") (param svc now req "hash")))
        (λ u.
          status_for_lem svc now req u _
            (λ h e. status_args_lem (param svc now req "venue") (param svc now req "hash") e))

  over :
      {max : ℕ} (buckets : Buckets) (limit : ℕ)
      → some limit ≡ some max
      → (rate_limited buckets now (ip svc now req) max 60_000).0 ≡ true
      → (rate_limited buckets now (ip svc now req) limit 60_000).0 ≡ true
  over {max = max} buckets limit l h =
      let same : limit ≡ max = cc in
      subst (λ m. (rate_limited buckets now (ip svc now req) m 60_000).0 ≡ true) (sym same) h

  -- The requests over the limit of their endpoint.
  serve_limited :
      (st : Server D) (r : Route) (max : ℕ)
      → limit_of r ≡ some max
      → (rate_limited st.buckets now (ip svc now req) max 60_000).0 ≡ true
      → (serve svc now req st r).2 ≡ []
  unfolding serve
  serve_limited st (page name) max l h = refl
  serve_limited st health max l h = let k : none ≡ some max = l in cc
  serve_limited st coherence max l h = let k : none ≡ some max = l in cc
  serve_limited st overview max l h = let k : none ≡ some max = l in cc
  serve_limited st refresh max l h = let k : none ≡ some max = l in cc
  serve_limited st quote max l h = rw (over st.buckets 120 l h) refl
  serve_limited st balance max l h = rw (over st.buckets 60 l h) refl
  serve_limited st asset_balance max l h = rw (over st.buckets 60 l h) refl
  serve_limited st broker_key max l h = rw (over st.buckets 60 l h) refl
  serve_limited st build max l h = rw (over st.buckets 30 l h) refl
  serve_limited st build_trustline max l h = rw (over st.buckets 10 l h) refl
  serve_limited st submit max l h = rw (over st.buckets 10 l h) refl
  serve_limited st tx_status max l h = rw (over st.buckets 90 l h) refl

  served_page : (st : Server D) (r : Route) → is_page r ≡ true → (serve svc now req st r).2 ≡ []
  unfolding serve
  served_page st (page name) h = refl
  served_page st health h = cc
  served_page st coherence h = cc
  served_page st overview h = cc
  served_page st refresh h = cc
  served_page st quote h = cc
  served_page st balance h = cc
  served_page st asset_balance h = cc
  served_page st broker_key h = cc
  served_page st build h = cc
  served_page st build_trustline h = cc
  served_page st submit h = cc
  served_page st tx_status h = cc

  routed_lem :
      (st : Server D) (path : String) (o : Option Route)
      → CallsChecked svc now req (routed svc now req st path o)
  routed_lem st path (some r) = serve_lem st r
  routed_lem st path none = elim (Bool-cases (str_eq req.method "GET")) [
    | inl e ↦ rw e tt
    | inr e ↦ rw e tt
  ]

  unrouted : (st : Server D) (path : String) → (routed svc now req st path none).2 ≡ []
  unrouted st path = elim (Bool-cases (str_eq req.method "GET")) [
    | inl e ↦ rw e refl
    | inr e ↦ rw e refl
  ]

  abbrev path : String
  path = path_of req.url

  abbrev found : Option Route
  found = route_in routes req.method path

  -- A page, or an address of the API.
  outside_api :
      (st : Server D) (o : Option Route)
      → found ≡ o
      → starts_with path "/api/" ≡ false
      → (routed svc now req st path o).2 ≡ []
  outside_api st none e h = unrouted st path
  outside_api st (some r) e h = elim (Bool-cases (is_page r)) [
    | inl p ↦ served_page st r p
    | inr p ↦
        let inside = route_in_lem routes req.method path r routes-IsApi e p in
        let k : true ≡ false = sym inside ∙ h in cc
  ]

  abbrev pub is_over : Server D → ℕ → Bool
  is_over st max = (rate_limited st.buckets now (ip svc now req) max 60_000).0

  -- Within the limit of an endpoint that has one, or without a call.
  abbrev pub WithinMax : Server D → Handled D → Option ℕ → Type 0
  WithinMax st h none = Unit {0}
  WithinMax st h (some max) = (is_over st max ≡ false) ⊎ (h.2 ≡ [])

  abbrev pub WithinLimit : Server D → Handled D → Option Route → Type 0
  WithinLimit st h none = Unit {0}
  WithinLimit st h (some r) = WithinMax st h (limit_of r)

  pub record IsGuarded (st : Server D) (h : Handled D) : Type 0 where
    pub checked : All Checked h.2
    pub gated : IsFromHere req.peer ⊎ (h.2 ≡ [])
    pub limited : WithinLimit st h found

  module _ (st : Server D) where
    handle_checked : CallsChecked svc now req (handle svc now req st)
    unfolding handle
    handle_checked = elim (Bool-cases (starts_with path "/api/" && not (api_allowed req.peer))) [
      | inl e ↦ rw e tt
      | inr e ↦ rw e (routed_lem st path found)
    ]

    handle_gated : api_allowed req.peer ≡ false → (handle svc now req st).2 ≡ []
    unfolding handle
    handle_gated n = elim (Bool-cases (starts_with path "/api/")) [
      | inl e ↦ simp (e, n) refl
      | inr e ↦ simp (e, n) (outside_api st found refl e)
    ]

    handle_limited :
        (r : Route) (max : ℕ)
        → found ≡ some r
        → limit_of r ≡ some max
        → (rate_limited st.buckets now (ip svc now req) max 60_000).0 ≡ true
        → (handle svc now req st).2 ≡ []
    unfolding handle
    handle_limited r max e l h =
        elim (Bool-cases (starts_with path "/api/" && not (api_allowed req.peer))) [
          | inl g ↦ rw g refl
          | inr g ↦ simp (g, e) (serve_limited st r max l h)
        ]

    within_max :
        (r : Route) (m : Option ℕ)
        → found ≡ some r
        → limit_of r ≡ m
        → WithinMax st (handle svc now req st) m
    within_max r none e l = tt
    within_max r (some max) e l = elim (Bool-cases (is_over st max)) [
      | inl h ↦ inr (handle_limited r max e l h)
      | inr h ↦ inl h
    ]

    within_limits : (o : Option Route) → found ≡ o → WithinLimit st (handle svc now req st) o
    within_limits none e = tt
    within_limits (some r) e = within_max r (limit_of r) e refl

    -- What a request makes the server do has been checked: a swap is built only for a sender that
    -- is a key of Stellar (G and 55 characters of the base 32) and with a slippage for which every
    -- floor can be computed, a trustline and a balance only for such a key, a transaction is
    -- submitted only with a length within the bounds and, for xBull, its id, and a status is asked
    -- only of a hash (64 hexadecimal digits). A request makes no call unless it comes from a loopback
    -- address or its Sec-Fetch-Site says same-origin or same-site; and one whose address has reached
    -- the limit of the endpoint makes no call.
    pub handle-IsGuarded : IsGuarded st (handle svc now req st)
    handle-IsGuarded = record {
      checked = handle_checked;
      gated = elim (Bool-cases (api_allowed req.peer)) [
        | inl y ↦ inl (api_allowed-IsFromHere req.peer y)
        | inr n ↦ inr (handle_gated n)
      ];
      limited = within_limits found refl;
    }
