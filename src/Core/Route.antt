-- ===== src/Core/Route.antt =====
-- core/soroban-route.ts: the route of a simulation's transfers, and whether they are coherent for
-- the signer. The decoding of the events is the Stellar SDK's.
pub mod Steps
pub mod Chain
mod Tests
use decant_fi.Common.{
  is_some, ℕ, zero, suc, Bool, true, false, not, ◌&&◌, List, [], ◌∷◌, ◌++◌, Option, none, some,
  String, str_eq, get_key, set_key, if◌then◌else◌,
}
use decant_fi.Common.Int.{ℤ, pos, ◌+ℤ◌, ◌-ℤ◌, leb_ℤ, eq_ℤ, ltb_ℤ}

pub record Transfer : Type 0 where
  pub asset : String
  pub from : String
  pub to : String
  pub amount : ℤ

abbrev pub is_last : Option String → String → Bool
is_last none asset = false
is_last (some last) asset = str_eq last asset

-- The part of the route behind its last asset so far.
pub route_behind : Option String → List Transfer → List String
route_behind last [] = []
route_behind last (t ∷ ts) =
    let same = route_behind last ts in
    let next = route_behind (some t.asset) ts in
    if is_last last t.asset then same else t.asset ∷ next

pub route_from_transfers : List Transfer → List String
route_from_transfers transfers = route_behind none transfers

abbrev pub or_zero : Option ℤ → ℤ
or_zero none = pos 0
or_zero (some v) = v

-- `net.set(asset, (net.get(asset) ?? 0n) + d)`
abbrev pub add_net : String → ℤ → List (String × ℤ) → List (String × ℤ)
add_net asset d net = set_key net asset (or_zero (get_key net asset) +ℤ d)

abbrev pub credit : String → Transfer → List (String × ℤ) → List (String × ℤ)
credit sender t net = if str_eq t.to sender then add_net t.asset t.amount net else net

abbrev pub debit : String → Transfer → List (String × ℤ) → List (String × ℤ)
debit sender t net = if str_eq t.from sender then add_net t.asset (pos 0 -ℤ t.amount) net else net

-- The net of the signer, per asset in the order of the first transfer.
unfoldable pub net_of : String → List Transfer → List (String × ℤ) → List (String × ℤ)
net_of sender [] net = net
net_of sender (t ∷ ts) net = net_of sender ts (debit sender t (credit sender t net))

pub data Refusal : Type 0 where
  too_few not_in_flow : Refusal
  not_debited not_credited intermediate : String → Refusal

pub data Verdict : Type 0 where
  chained : Verdict
  refused : Refusal → Verdict

abbrev pub entry_refusal : String → String → String → ℤ → Option Refusal
entry_refusal sell buy asset v =
    if str_eq asset sell
    then if leb_ℤ (pos 0) v then some (not_debited asset) else none
    else if str_eq asset buy
    then if leb_ℤ v (pos 0) then some (not_credited asset) else none
    else if eq_ℤ v (pos 0)
    then none
    else some (intermediate asset)

-- The first entry that is refused.
unfoldable pub first_refusal : String → String → List (String × ℤ) → Option Refusal
first_refusal sell buy [] = none
first_refusal sell buy (entry ∷ rest) =
    let later = first_refusal sell buy rest in
    elim (entry_refusal sell buy entry.0 entry.1) [ some r ↦ some r | none ↦ later ]

abbrev pub final_verdict : String → String → List (String × ℤ) → Option Refusal → Verdict
final_verdict sell buy net (some r) = refused r
final_verdict sell buy net none =
    if is_some (get_key net sell) && is_some (get_key net buy) then chained else refused not_in_flow

abbrev pub verdict_for : String → String → List (String × ℤ) → Verdict
verdict_for sell buy net = final_verdict sell buy net (first_refusal sell buy net)

unfoldable pub verify_chain : List Transfer → String → String → Verdict
verify_chain [] sell buy = refused too_few
verify_chain (t ∷ []) sell buy = refused too_few
verify_chain (t ∷ u ∷ ts) sell buy = verdict_for sell buy (net_of t.from (t ∷ u ∷ ts) [])
