-- ===== src/Web/RequestIp.antt =====
-- web/request-ip.ts: the address of a client, and who may call the API.
pub mod Spoofing
mod Tests
use decant_fi.Common.{
  ℕ, Bool, true, false, not, ◌&&◌, ◌||◌, List, [], ◌∷◌, Option, none, some, String, str_eq, code,
  ◌==◌, if◌then◌else◌,
}
use decant_fi.Core.Rank.{or_else}
use decant_fi.App.Choose.{trim_start_text, trim_end_text}

pub data Header : Type 0 where
  absent : Header
  single : String → Header
  several : List String → Header

pub record Request : Type 0 where
  pub x_real_ip : Header
  pub x_forwarded_for : Header
  pub sec_fetch_site : Header
  pub remote_address : Option String

unfoldable pub trim_text : String → String
trim_text s = trim_end_text (trim_start_text s)

abbrev pub if_text : String → Option String
if_text s = if str_eq s "" then none else some s

-- `firstHeader`
unfoldable pub first_header : Header → Option String
first_header absent = none
first_header (single s) = if_text (trim_text s)
first_header (several []) = none
first_header (several (s ∷ rest)) = if_text (trim_text s)

unfoldable pub has_comma : String → Bool
has_comma String.[] = false
has_comma (String.◌∷◌ letter rest) =
    let more = has_comma rest in if code letter == b',' then true else more

-- `.split(',').at(-1)`
unfoldable pub last_part : String → String
last_part String.[] = ""
last_part (String.◌∷◌ letter rest) =
    let more = last_part rest in
    if has_comma rest then more else if code letter == b',' then rest else String.◌∷◌ letter rest

abbrev pub last_of : Option String → Option String
last_of none = none
last_of (some forwarded) = if_text (trim_text (last_part forwarded))

abbrev pub or_unknown : Option String → String
or_unknown none = "unknown"
or_unknown (some a) = a

unfoldable pub client_ip : Request → Bool → String
client_ip req false = or_unknown req.remote_address
client_ip req true = or_unknown (
    or_else (first_header req.x_real_ip)
      (or_else (last_of (first_header req.x_forwarded_for)) req.remote_address))

abbrev pub is_loopback : Option String → Bool
is_loopback none = false
is_loopback (some peer) =
    str_eq peer "127.0.0.1" || str_eq peer "::1" || str_eq peer "::ffff:127.0.0.1"

abbrev pub is_same_site : Option String → Bool
is_same_site none = false
is_same_site (some s) = str_eq s "same-origin" || str_eq s "same-site"

unfoldable pub api_allowed : Request → Bool
api_allowed req = is_loopback req.remote_address || is_same_site (first_header req.sec_fetch_site)
