-- ===== src/Web/Server/Query.antt =====
-- web/server.ts: the parameters of a URL (`parseQuery`). The decoding of percent escapes is an
-- argument, which is none where it throws.
use decant_fi.Common.{
  ℕ, List, [], ◌∷◌, Option, none, some, String, code, set_key, ◌==◌, if◌then◌else◌,
}

-- What stands behind the first of a letter.
unfoldable pub after_letter : ℕ → String → Option String
after_letter c String.[] = none
after_letter c (String.◌∷◌ letter s) =
    let later = after_letter c s in if code letter == c then some s else later

-- What stands before it, or the whole text.
unfoldable pub before_letter : ℕ → String → String
before_letter c String.[] = ""
before_letter c (String.◌∷◌ letter s) =
    let more = before_letter c s in if code letter == c then "" else String.◌∷◌ letter more

abbrev pub with_first : (String → String) → List String → List String
with_first f [] = f "" ∷ []
with_first f (part ∷ parts) = f part ∷ parts

-- `split('&')`
unfoldable pub split_amp : String → List String
split_amp String.[] = "" ∷ []
split_amp (String.◌∷◌ letter s) =
    let parts = split_amp s in
    if code letter == b'&' then "" ∷ parts else with_first (String.◌∷◌ letter) parts

module _ (decode : String → Option String) where
  abbrev pub with_param :
      Option String → Option String → List (String × String) → List (String × String)
  with_param (some key) (some value) params = set_key params key value
  with_param _ _ params = params

  -- A part without `=`, or that cannot be decoded, is skipped.
  abbrev pub add_part : String → Option String → List (String × String) → List (String × String)
  add_part part none params = params
  add_part part (some value) params =
      with_param (decode (before_letter b'=' part)) (decode value) params

  unfoldable pub add_parts : List String → List (String × String) → List (String × String)
  add_parts [] params = params
  add_parts (part ∷ parts) params = add_parts parts (add_part part (after_letter b'=' part) params)

  abbrev pub params_of : Option String → List (String × String)
  params_of none = []
  params_of (some query) = add_parts (split_amp query) []

  unfoldable pub parse_query : String → List (String × String)
  parse_query url = params_of (after_letter b'?' url)

abbrev pub path_of : String → String
path_of url = before_letter b'?' url
