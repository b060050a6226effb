-- ===== src/Web/Server/Paths.antt =====
-- The routes of the API stand below `/api/`.
use decant_fi.Common.{
  ◌≡◌, sym, subst, inl, inr, Bool, true, false, ◌&&◌, List, [], ◌∷◌, none, some, String, All,
  str_eq, str_eq_iff, arith, Bool-cases,
}
use decant_fi.Web.Server.Routes.{Route, page, Entry, routes, route_in, strip_prefix, starts_with}

abbrev pub is_page : Route → Bool
is_page (page name) = true
is_page _ = false

abbrev IsApi : Entry → Type 0
IsApi e = is_page e.route ≡ false → starts_with e.path "/api/" ≡ true

pub routes-IsApi : All IsApi routes
unfolding strip_prefix
routes-IsApi = ground arith

pub route_in_lem :
    (es : List Entry) (method path : String) (r : Route)
    → All IsApi es
    → route_in es method path ≡ some r
    → is_page r ≡ false
    → starts_with path "/api/" ≡ true
unfolding route_in
route_in_lem [] method path r g e p = let k : none ≡ some r = e in cc
route_in_lem (x ∷ rest) method path r g e p =
    elim (Bool-cases (str_eq method x.method && str_eq path x.path)) [
      | inl t ↦
          let k : some x.route ≡ some r = rw t at e in
          let same : x.route ≡ r = cc in
          let here : path ≡ x.path = (str_eq_iff path x.path).0 (ground (arith, t)) in
          subst (λ q. starts_with q "/api/" ≡ true) (sym here)
            (g.0 (subst (λ q. is_page q ≡ false) (sym same) p))
      | inr t ↦ route_in_lem rest method path r g.1 (rw t at e) p
    ]
