-- ===== src/Web/Execute/Legs/Tests.antt =====
-- A split in two legs that does not add up.
use decant_fi.Common.{◌≡◌, refl, [], ◌∷◌, List, some, String, codes}
use decant_fi.Common.Int.{pos, ◌+ℤ◌, ◌-ℤ◌, ◌*ℤ◌}
use decant_fi.Core.Amount.{
  to_stroops, from_stroops, trim, trim_start, trim_end, is_space, is_digit, skip_digits, skip_char,
  matches_syntax, is_bare, starts_with_minus, before_point, after_point, digits_from, magnitude,
  signed, print_from, print, pad_start, strip_zeros, point_before, minus_if,
}
use decant_fi.Core.Types.{blnd, usdc}
use decant_fi.Web.Execute.{no_route, exec_error, ok, refused, min_received}
use decant_fi.Web.Execute.Legs.{
  ExtendedPath, UltraQuote, Balance, StrictSend, reconcile_leg_sends, settle, largest_from,
  sum_from, parse_ultra_quote, build_ultra, legs_of, leg_ops, sdk_asset,
}
use decant_fi.Web.Execute.Legs.Sends.{IsSettled, reconcile_leg_sends-IsSettled}
use decant_fi.Web.Execute.Legs.Built.{IsSplit, build_ultra-IsSplit}

guard : Unit {0}
unfolding reconcile_leg_sends settle largest_from sum_from ◌+ℤ◌ ◌-ℤ◌ ◌*ℤ◌ to_stroops from_stroops
    trim trim_start trim_end is_space is_digit skip_digits skip_char matches_syntax is_bare
    starts_with_minus before_point after_point digits_from magnitude signed print_from print
    pad_start strip_zeros point_before minus_if parse_ultra_quote legs_of build_ultra leg_ops
    min_received
guard = tt

-- The two that are missing go to the largest leg.
put_right : reconcile_leg_sends (pos 3 ∷ pos 7 ∷ []) (pos 12) ≡ ok (pos 3 ∷ pos 9 ∷ [])
unfolding guard
put_right = refl

too_small : reconcile_leg_sends (pos 3 ∷ pos 7 ∷ []) (pos 2) ≡ refused (exec_error no_route)
unfolding guard
too_small = refl

reconcile_leg_sends-IsSettled_example :
    IsSettled (pos 3 ∷ pos 7 ∷ []) (pos 12) (reconcile_leg_sends (pos 3 ∷ pos 7 ∷ []) (pos 12))
reconcile_leg_sends-IsSettled_example = reconcile_leg_sends-IsSettled (pos 3) (pos 7 ∷ []) (pos 12)

abbrev paths : List ExtendedPath
paths =
    record { source_amount = codes "1.5"; destination_amount = codes "0.02"; path = [] }
    ∷ record { source_amount = codes "x"; destination_amount = codes "1"; path = [] }
    ∷ record { source_amount = codes "0.5"; destination_amount = codes "0.01"; path = [] }
    ∷ []

abbrev split : UltraQuote
split = record {
  net_out = pos 300_000;
  legs =
      record { send_stroops = pos 15_000_000; dest_stroops = pos 200_000; path = [] }
      ∷ record { send_stroops = pos 5_000_000; dest_stroops = pos 100_000; path = [] }
      ∷ [];
}

abbrev account : List Balance
account = record { code = "USDC"; issuer = usdc.issuer; balance = codes "4" } ∷ []

read : parse_ultra_quote paths ≡ some split
unfolding guard
read = refl

abbrev op : String → String → StrictSend
op send minimum = record {
  send_asset = sdk_asset blnd;
  send_amount = codes send;
  destination = "GUSER";
  dest_asset = sdk_asset usdc;
  dest_min = codes minimum;
  path = [];
}

-- The amount to swap is two stroops more than the legs.
built :
    build_ultra "GUSER" blnd usdc (some account) split.legs (pos 20_000_002) 50
    ≡ ok (op "1.5000002" "0.0199" ∷ op "0.5" "0.00995" ∷ [])
unfolding guard
built = refl

build_ultra-IsSplit_example :
    IsSplit "GUSER" 50 split.legs
      (pos 20_000_002)
      (op "1.5000002" "0.0199" ∷ op "0.5" "0.00995" ∷ [])
build_ultra-IsSplit_example =
    build_ultra-IsSplit "GUSER" blnd usdc 50 paths split account (pos 20_000_002)
      (op "1.5000002" "0.0199" ∷ op "0.5" "0.00995" ∷ []) read built
