-- ===== src/Web/Server/Handlers.antt =====
-- The calls of each handler are checked.
use decant_fi.Common.{
  bind_some, ℕ, ◌≡◌, refl, subst, ◌∙◌, inl, inr, List, [], ◌∷◌, Option, none, some, String, All,
  All-++, ◌+◌, ltb, Bool-cases,
}
use decant_fi.Common.Int.{ℤ}
use decant_fi.Web.Limits.{rate_limited}
use decant_fi.Web.Execute.{Target}
use decant_fi.Web.Server.{
  Body, unreadable, json, Fields, pair_field, pubkey_field, pubkey_if, parse_pair,
  is_stellar_pubkey, PickArgs, build_args, SubmitArgs, submit_args, is_venue_word,
}
use decant_fi.Web.Server.Checked.{
  IsPubkey, IsHash, is_stellar_pubkey-IsPubkey, given_if, pubkey_field_lem, IsBuildable,
  build_args-IsBuildable, IsSubmittable, submit_args-IsSubmittable,
}
use decant_fi.Web.Server.Routes.{
  Incoming, Call, reads_blnd, reads_asset, reads_own_balance, quotes, picks, builds_trustline,
  submits, asks_status, runs_tick, Server, Services, CachedOverview,
}
use decant_fi.Web.Server.Serve.{
  ip, param, asset_args, asset_balance_of, balance_of, quote_at, quote_for, own_quote, wants_wallet,
  trustline_args, trustline_for, serve_trustline, build_for, serve_build, submit_for, serve_submit,
  status_for, start_refresh, cached_health, fresh_health, overview_for, cached_overview,
  fresh_overview, serve_coherence, within_limit,
}
use decant_fi.Web.Server.Answers.{Handled, or_text}

-- What a call must have been checked for.
abbrev pub Checked : Call → Type 0
Checked (reads_blnd address) = IsPubkey address
Checked (reads_asset address pair) = IsPubkey address
Checked reads_own_balance = Unit {0}
Checked (quotes pair amount) = Unit {0}
Checked (picks a) = IsBuildable a
Checked (builds_trustline pair sender) = IsPubkey sender
Checked (submits a) = IsSubmittable a
Checked (asks_status hash) = IsHash hash
Checked runs_tick = Unit {0}

module _ {D : Type 0} (svc : Services D) (now : ℕ) (req : Incoming) where
  abbrev pub CallsChecked : Handled D → Type 0
  CallsChecked h = All Checked h.2

  pub build_for_lem :
      (st : Server D) (o : Option PickArgs)
      → ((a : PickArgs) → o ≡ some a → IsBuildable a)
      → CallsChecked (build_for svc now req st o)
  build_for_lem st none h = tt
  build_for_lem st (some a) h = (h a refl, tt)

  pub serve_build_lem : (st : Server D) (b : Body) → CallsChecked (serve_build svc now req st b)
  serve_build_lem st unreadable = tt
  serve_build_lem st (json b) =
      build_for_lem st (build_args svc.amount_field svc.integer b)
        (build_args-IsBuildable svc.amount_field svc.integer b)

  submit_for_lem :
      (st : Server D) (o : Option SubmitArgs)
      → ((a : SubmitArgs) → o ≡ some a → IsSubmittable a)
      → CallsChecked (submit_for svc now req st o)
  submit_for_lem st none h = tt
  submit_for_lem st (some a) h = (h a refl, tt)

  pub serve_submit_lem : (st : Server D) (b : Body) → CallsChecked (serve_submit svc now req st b)
  serve_submit_lem st unreadable = tt
  serve_submit_lem st (json b) = submit_for_lem st (submit_args b) (submit_args-IsSubmittable b)

  abbrev pub Keyed : {A : Type 0} → (A → String) → Option A → Type 0
  Keyed {A = A} f o = (a : A) → o ≡ some a → IsPubkey (f a)

  trustline_for_lem :
      (st : Server D) (o : Option (Target × String))
      → Keyed (λ p. p.1) o
      → CallsChecked (trustline_for svc now req st o)
  trustline_for_lem st none h = tt
  trustline_for_lem st (some (pair, sender)) h = (h (pair, sender) refl, tt)

  trustline_args_lem : (b : Fields) → Keyed (λ p. p.1) (trustline_args svc now req b)
  trustline_args_lem b a e =
      let (pair, p, e1) = bind_some (pair_field b.pair) _ e in
      let (sender, s, e2) = bind_some (pubkey_field b.sender) _ e1 in
      subst IsPubkey (unwrap e2) (pubkey_field_lem b.sender s)
    where
      unwrap : {x y : Target × String} → some x ≡ some y → x.1 ≡ y.1
      unwrap h = cc

  pub serve_trustline_lem :
      (st : Server D) (b : Body) → CallsChecked (serve_trustline svc now req st b)
  serve_trustline_lem st unreadable = tt
  serve_trustline_lem st (json b) =
      trustline_for_lem st (trustline_args svc now req b) (trustline_args_lem b)

  pub asset_balance_of_lem :
      (st : Server D) (o : Option (String × Target))
      → Keyed (λ p. p.0) o
      → CallsChecked (asset_balance_of svc now req st o)
  asset_balance_of_lem st none h = tt
  asset_balance_of_lem st (some (address, pair)) h = (h (address, pair) refl, tt)

  pub asset_args_lem : Keyed (λ p. p.0) (asset_args svc now req)
  asset_args_lem a e =
      let (address, p, e1) = bind_some (param svc now req "address") _ e in
      let (key, k, e2) = bind_some (pubkey_if (is_stellar_pubkey address) address) _ e1 in
      let (asset, s, e3) = bind_some (param svc now req "asset") _ e2 in
      let (pair, q, e4) = bind_some (parse_pair asset) _ e3 in
      let g = given_if (is_stellar_pubkey address) address k in
      subst IsPubkey (g.1 ∙ unwrap e4) (is_stellar_pubkey-IsPubkey address g.0)
    where
      unwrap : {x y : String × Target} → some x ≡ some y → x.0 ≡ y.0
      unwrap h = cc

  pub status_for_lem :
      (st : Server D) (o : Option String)
      → ((h : String) → o ≡ some h → IsHash h)
      → CallsChecked (status_for svc now req st o)
  status_for_lem st none h = tt
  status_for_lem st (some hash) h = (h hash refl, tt)

  pub balance_of_lem :
      (st : Server D) (o : Option String) → CallsChecked (balance_of svc now req st o)
  balance_of_lem st none = (tt, tt)
  balance_of_lem st (some address) = elim (Bool-cases (is_stellar_pubkey address)) [
    | inl e ↦ rw e (is_stellar_pubkey-IsPubkey address e, tt)
    | inr e ↦ rw e tt
  ]

  quote_at_lem :
      (st : Server D) (pair : Target) (o : Option ℤ) (calls : List Call)
      → All Checked calls
      → CallsChecked (quote_at svc now req st pair o calls)
  quote_at_lem st pair none calls h = h
  quote_at_lem st pair (some amount) calls h =
      All-++ Checked calls (quotes pair amount ∷ []) h (tt, tt)

  own_quote_lem :
      (st : Server D) (pair : Target) (o : Option (Option ℤ))
      → CallsChecked (own_quote svc now req st pair o)
  own_quote_lem st pair none = (tt, tt)
  own_quote_lem st pair (some amount) =
      quote_at_lem st pair amount (reads_own_balance ∷ []) (tt, tt)

  pub quote_for_lem :
      (st : Server D) (o : Option Target) → CallsChecked (quote_for svc now req st o)
  quote_for_lem st none = tt
  quote_for_lem st (some pair) =
      elim (Bool-cases (wants_wallet svc now req (param svc now req "wallet"))) [
        | inl e ↦ rw e (own_quote_lem st pair svc.own_amount)
        | inr e ↦ rw e (quote_at_lem st pair _ [] tt)
      ]

  pub start_refresh_lem : (st : Server D) → CallsChecked (start_refresh svc now req st)
  start_refresh_lem st = elim (Bool-cases st.in_flight) [
    | inl e ↦ rw e tt
    | inr e ↦ elim (Bool-cases (ltb now (st.last_refresh_at + 15_000))) [
      | inl t ↦ simp (e, t) tt
      | inr t ↦ simp (e, t) (tt, tt)
    ]
  ]

  fresh_health_lem : (st : Server D) (o : Option D) → CallsChecked (fresh_health svc now req st o)
  fresh_health_lem st none = tt
  fresh_health_lem st (some d) = tt

  pub cached_health_lem :
      (st : Server D) (o : Option (ℕ × D)) → CallsChecked (cached_health svc now req st o)
  cached_health_lem st none = fresh_health_lem st (svc.health now)
  cached_health_lem st (some hit) = elim (Bool-cases (ltb now (hit.0 + 30_000))) [
    | inl e ↦ rw e tt
    | inr e ↦ rw e (fresh_health_lem st (svc.health now))
  ]

  pub serve_coherence_lem : (st : Server D) → CallsChecked (serve_coherence svc now req st)
  serve_coherence_lem st =
      elim (Bool-cases (is_venue_word (or_text (param svc now req "venue") ""))) [
        | inl e ↦ rw e tt
        | inr e ↦ rw e tt
      ]

  fresh_overview_lem :
      (st : Server D) (pair : Target) (offset : ℤ) (o : Option D)
      → CallsChecked (fresh_overview svc now req st pair offset o)
  fresh_overview_lem st pair offset none = tt
  fresh_overview_lem st pair offset (some d) = tt

  cached_overview_lem :
      (st : Server D) (pair : Target) (offset : ℤ) (o : Option (CachedOverview D))
      → CallsChecked (cached_overview svc now req st pair offset o)
  cached_overview_lem st pair offset none = fresh_overview_lem st pair offset _
  cached_overview_lem st pair offset (some hit) = elim (Bool-cases (ltb now (hit.at + 60_000))) [
    | inl e ↦ rw e tt
    | inr e ↦ rw e (fresh_overview_lem st pair offset _)
  ]

  pub overview_for_lem :
      (st : Server D) (o : Option Target) → CallsChecked (overview_for svc now req st o)
  overview_for_lem st none = tt
  overview_for_lem st (some pair) = cached_overview_lem st pair _ _

  module _ (st : Server D) (max : ℕ) (next : Server D → Handled D) where
    pub within_limit_lem :
        ((u : Server D) → CallsChecked (next u))
        → CallsChecked (within_limit svc now req st max next)
    within_limit_lem h =
        elim (Bool-cases (rate_limited st.buckets now (ip svc now req) max 60_000).0) [
          | inl e ↦ rw e tt
          | inr e ↦ rw e (h _)
        ]
