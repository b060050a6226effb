-- ===== src/Web/Server/Answers.antt =====
-- web/server.ts: the cache of the overviews, and the responses to what a service answers.
use decant_fi.Common.{
  Bool, true, false, ◌&&◌, List, [], ◌∷◌, Option, none, some, String, length, ltb, if◌then◌else◌,
}
use decant_fi.Common.Int.{ℤ, eq_ℤ}
use decant_fi.Web.Execute.{exec_error, Outcome, ok, refused, broke, Target, to_usdc, to_eurc}
use decant_fi.Web.Server.{exec_status}
use decant_fi.Web.Server.Routes.{
  Call, contents, error_text, exec_failure, Response, sent, CachedOverview, Server,
}

abbrev pub same_pair : Target → Target → Bool
same_pair to_usdc to_usdc = true
same_pair to_eurc to_eurc = true
same_pair _ _ = false

abbrev pub or_text : Option String → String → String
or_text none other = other
or_text (some s) other = s

-- The state that is left, the response, and the calls in their order.
abbrev pub Handled : Type 0 → Type 0
Handled D = Server D × Response D × List Call

module _ {D : Type 0} where
  abbrev pub is_cached : Target → ℤ → CachedOverview D → Bool
  is_cached pair offset e = same_pair e.pair pair && eq_ℤ e.offset offset

  unfoldable pub set_overview : List (CachedOverview D) → CachedOverview D → List (CachedOverview D)
  set_overview [] new = new ∷ []
  set_overview (e ∷ rest) new =
      let later = set_overview rest new in
      if is_cached new.pair new.offset e then new ∷ rest else e ∷ later

  abbrev pub stored_overview : List (CachedOverview D) → CachedOverview D → List (CachedOverview D)
  stored_overview cache new = set_overview (if ltb 200 (length cache) then [] else cache) new

  abbrev pub bad_request : Response D
  bad_request = sent 400 error_text

  abbrev pub failed_response : Response D
  failed_response = sent 500 error_text

  abbrev pub of_option : Option D → Response D
  of_option none = failed_response
  of_option (some d) = sent 200 (contents d)

  abbrev pub of_outcome : Outcome D → Response D
  of_outcome (ok d) = sent 200 (contents d)
  of_outcome (refused e) = sent (exec_status e.code) (exec_failure e)
  of_outcome broke = failed_response

  -- Of an error the builds of a swap alone send the asset.
  abbrev pub without_asset : Outcome D → Outcome D
  without_asset (ok d) = ok d
  without_asset (refused e) = refused (exec_error e.code)
  without_asset broke = broke
