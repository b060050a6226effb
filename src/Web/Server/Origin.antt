-- ===== src/Web/Server/Origin.antt =====
-- web/request-ip.ts `apiAllowed`: where a request that may call the API comes from.
use decant_fi.Common.{
  ap, str_eq_iff, ◌⊎◌, ℕ, ◌≡◌, inl, inr, true, Option, none, some, String, str_eq, Bool-cases,
}
use decant_fi.Web.RequestIp.{Request, first_header, is_loopback, is_same_site, api_allowed}
use decant_fi.Web.Server.Routes.{
  Route, quote, balance, asset_balance, broker_key, build, build_trustline, submit, tx_status,
}

-- The requests of an address within a minute that an endpoint takes.
abbrev pub limit_of : Route → Option ℕ
limit_of quote = some 120
limit_of balance = some 60
limit_of asset_balance = some 60
limit_of broker_key = some 60
limit_of build = some 30
limit_of build_trustline = some 10
limit_of submit = some 10
limit_of tx_status = some 90
limit_of _ = none

-- The request comes from the machine itself, or the browser says that it comes from the page.
abbrev pub IsFromHere : Request → Type 0
IsFromHere req =
    ((req.remote_address ≡ some "127.0.0.1")
      ⊎ ((req.remote_address ≡ some "::1") ⊎ (req.remote_address ≡ some "::ffff:127.0.0.1")))
    ⊎ ((first_header req.sec_fetch_site ≡ some "same-origin")
        ⊎ (first_header req.sec_fetch_site ≡ some "same-site"))

named : (s t : String) → str_eq s t ≡ true → some s ≡ some t
named s t h = ap some ((str_eq_iff s t).0 h)

loopback_lem :
    (o : Option String)
    → is_loopback o ≡ true
    → (o ≡ some "127.0.0.1") ⊎ ((o ≡ some "::1") ⊎ (o ≡ some "::ffff:127.0.0.1"))
loopback_lem none h = cc
loopback_lem (some peer) h = elim (Bool-cases (str_eq peer "127.0.0.1")) [
  | inl e ↦ inl (named peer "127.0.0.1" e)
  | inr m ↦ elim (Bool-cases (str_eq peer "::1")) [
    | inl e ↦ inr (inl (named peer "::1" e))
    | inr n ↦ inr (inr (named peer "::ffff:127.0.0.1" (simp (m, n) at h)))
  ]
]

same_site_lem :
    (o : Option String) → is_same_site o ≡ true → (o ≡ some "same-origin") ⊎ (o ≡ some "same-site")
same_site_lem none h = cc
same_site_lem (some site) h = elim (Bool-cases (str_eq site "same-origin")) [
  | inl e ↦ inl (named site "same-origin" e)
  | inr m ↦ inr (named site "same-site" (simp m at h))
]

pub api_allowed-IsFromHere : (req : Request) → api_allowed req ≡ true → IsFromHere req
unfolding api_allowed
api_allowed-IsFromHere req h = elim (Bool-cases (is_loopback req.remote_address)) [
  | inl e ↦ inl (loopback_lem req.remote_address e)
  | inr n ↦ inr (same_site_lem (first_header req.sec_fetch_site) (simp n at h))
]
