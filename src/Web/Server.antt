-- ===== src/Web/Server.antt =====
-- web/server.ts: what a request says, and the checks of its fields. The texts of the errors are left
-- out, and the length of a text is that of its code points.
pub mod Query
pub mod Routes
pub mod Answers
pub mod Serve
pub mod Checked
pub mod Paths
pub mod Handlers
pub mod Origin
pub mod Guarded
mod Tests
use decant_fi.Common.{
  ℕ, Bool, true, false, not, ◌&&◌, ◌||◌, List, [], ◌∷◌, Option, none, some, String, str_eq, codes,
  all, any, length, ltb, leb, ◌==◌, ◌>>=◌, if◌then◌else◌,
}
use decant_fi.Common.Int.{ℤ, pos, negsuc}
use decant_fi.Web.Execute.{
  Venue, xbull, soroswap, horizon, aquarius, comet, ultrastellar, ExecCode, down, Target, to_usdc,
  to_eurc,
}
use decant_fi.Web.Execute.Offers.{Sell, sell_blnd, sell_usdc}

-- A field of a JSON body: a text, or a value of another type, as its text.
pub data Field : Type 0 where
  text : String → Field
  other : String → Field

-- The fields that the handlers read; none is `undefined`.
pub record Fields : Type 0 where
  pub pair : Option Field
  pub sender : Option Field
  pub amount : Option Field
  pub slippage_bps : Option Field
  pub displayed : Option Field
  pub venue : Option Field
  pub from : Option Field
  pub signed_xdr : Option Field
  pub id : Option Field

-- `readJsonBody`: it throws for a body that is too large or no JSON.
pub data Body : Type 0 where
  unreadable : Body
  json : Fields → Body

-- `parsePair`
unfoldable pub parse_pair : String → Option Target
parse_pair s =
    if str_eq s "USDC" then some to_usdc else if str_eq s "EURC" then some to_eurc else none

abbrev pub pair_field : Option Field → Option Target
pair_field (some (text s)) = parse_pair s
pair_field _ = none

-- `[A-Z2-7]`
abbrev pub is_base32 : ℕ → Bool
is_base32 c = (leb b'A' c && leb c b'Z') || (leb b'2' c && leb c b'7')

abbrev pub is_key : List ℕ → Bool
is_key [] = false
is_key (c ∷ s) = c == b'G' && length s == 55 && all is_base32 s

-- `isStellarPubkey` of a text.
pub is_stellar_pubkey : String → Bool
is_stellar_pubkey s = length (codes s) == 56 && is_key (codes s)

abbrev pub pubkey_if : Bool → String → Option String
pubkey_if ok s = if ok then some s else none

abbrev pub pubkey_field : Option Field → Option String
pubkey_field (some (text s)) = pubkey_if (is_stellar_pubkey s) s
pubkey_field _ = none

-- `isVenue`
unfoldable pub venue_named : String → Option Venue
venue_named s =
    if str_eq s "xbull"
    then some xbull
    else if str_eq s "soroswap"
    then some soroswap
    else if str_eq s "horizon"
    then some horizon
    else if str_eq s "aquarius"
    then some aquarius
    else if str_eq s "comet"
    then some comet
    else if str_eq s "ultrastellar"
    then some ultrastellar
    else none

abbrev pub venue_field : Option Field → Option Venue
venue_field (some (text s)) = venue_named s
venue_field _ = none

-- `execStatus`
pub exec_status : ExecCode → ℕ
exec_status down = 502
exec_status _ = 400

-- What `pickExecutableVenue` is called with.
pub record PickArgs : Type 0 where
  pub pair : Target
  pub amount : ℤ
  pub sender : String
  pub slippage_bps : ℕ
  pub displayed : Option Field
  pub venue : Option Venue
  pub sell : Sell

-- `Number.isInteger(n) && n >= 0 && n <= 5000`
abbrev pub in_cap : Option ℤ → Option ℕ
in_cap (some (pos n)) = if leb n 5000 then some n else none
in_cap _ = none

-- 50 where there is no such field. The integer that a field stands for is an argument.
abbrev pub slippage_field : (Field → Option ℤ) → Option Field → Option ℕ
slippage_field integer none = some 50
slippage_field integer (some f) = in_cap (integer f)

-- A venue that is forced, if any.
abbrev pub forced_field : Option Field → Option (Option Venue)
forced_field none = some none
forced_field (some f) = venue_field (some f) >>= λ v. some (some v)

unfoldable pub sell_named : String → Option Sell
sell_named s =
    if str_eq s "BLND" then some sell_blnd else if str_eq s "USDC" then some sell_usdc else none

abbrev pub from_field : Option Field → Option Sell
from_field none = some sell_blnd
from_field (some (text s)) = sell_named s
from_field (some (other s)) = none

-- `typeof b.displayed === 'object'`
abbrev pub object_field : Option Field → Option Field
object_field (some (other s)) = some (other s)
object_field _ = none

-- The arguments of a build; none where one of the fields is answered by 400.
unfoldable pub build_args :
    (Option Field → Option ℤ) → (Field → Option ℤ) → Fields → Option PickArgs
build_args amount_of integer b = do
  pair ← pair_field b.pair
  sender ← pubkey_field b.sender
  amount ← amount_of b.amount
  slippage_bps ← slippage_field integer b.slippage_bps
  venue ← forced_field b.venue
  sell ← from_field b.from
  some (record {
    pair = pair;
    amount = amount;
    sender = sender;
    slippage_bps = slippage_bps;
    displayed = object_field b.displayed;
    venue = venue;
    sell = sell;
  })

pub record SubmitArgs : Type 0 where
  pub venue : Venue
  pub id : Option String
  pub signed_xdr : String

-- Not empty and of 65536 characters at most.
abbrev pub xdr_field : Option Field → Option String
xdr_field (some (text s)) =
    if ltb 0 (length (codes s)) && leb (length (codes s)) 65_536 then some s else none
xdr_field _ = none

abbrev pub text_field : Option Field → Option String
text_field (some (text s)) = some s
text_field _ = none

-- xBull wants its id; for the others what stands there is passed on.
abbrev pub id_field : Venue → Option Field → Option (Option String)
id_field xbull f = text_field f >>= λ id. some (some id)
id_field _ f = some (text_field f)

unfoldable pub submit_args : Fields → Option SubmitArgs
submit_args b = do
  venue ← venue_field b.venue
  signed_xdr ← xdr_field b.signed_xdr
  id ← id_field venue b.id
  some (record { venue = venue; id = id; signed_xdr = signed_xdr })

-- `/^[0-9a-f]{64}$/i`
abbrev pub is_hex : ℕ → Bool
is_hex c = (leb b'0' c && leb c b'9') || (leb b'a' c && leb c b'f') || (leb b'A' c && leb c b'F')

abbrev pub is_hash : String → Bool
is_hash s = length (codes s) == 64 && all is_hex (codes s)

-- The hash of a transaction at a Soroban venue.
unfoldable pub status_args : Option String → Option String → Option String
status_args (some venue) (some hash) =
    if (str_eq venue "aquarius" || str_eq venue "comet") && is_hash hash then some hash else none
status_args _ _ = none

-- `/^[a-z]{1,20}$/`
abbrev pub is_lower : ℕ → Bool
is_lower c = leb b'a' c && leb c b'z'

pub is_venue_word : String → Bool
is_venue_word s = ltb 0 (length (codes s)) && leb (length (codes s)) 20 && all is_lower (codes s)
