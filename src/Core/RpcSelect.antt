-- ===== src/Core/RpcSelect.antt =====
-- core/rpc-select.ts: which RPC endpoint a tick uses.
pub mod Best
pub mod Selected
mod Tests
use decant_fi.Common.{
  ℕ, ◌+◌, Bool, true, false, ◌&&◌, ◌||◌, List, [], ◌∷◌, Option, none, some, String, str_eq, find,
  map, ltb, leb, ◌==◌, if◌then◌else◌,
}

-- What `probeRpc` returns: the ledger is a number exactly where `ok` is true.
pub data Probed : Type 0 where
  -- latency, ledger
  answers : ℕ → ℕ → Probed
  -- latency, error
  fails : ℕ → String → Probed

pub record RpcProbe : Type 0 where
  pub url : String
  pub probed : Probed

pub record RpcSelection : Type 0 where
  pub chosen : String
  pub probes : List RpcProbe

-- An endpoint that answered.
pub record Live : Type 0 where
  pub url : String
  pub latency_ms : ℕ
  pub ledger : ℕ

abbrev pub ledger_lag_tolerance : ℕ
ledger_lag_tolerance = 2

abbrev pub slow_latency_ms : ℕ
slow_latency_ms = 2500

abbrev pub live_first : String → Probed → List Live → List Live
live_first url (answers latency ledger) rest =
    record { url = url; latency_ms = latency; ledger = ledger } ∷ rest
live_first url (fails latency message) rest = rest

-- `probes.filter((p) => p.ok)`
pub ok_probes : List RpcProbe → List Live
ok_probes [] = []
ok_probes (p ∷ ps) = live_first p.url p.probed (ok_probes ps)

-- `Math.max(...)` of the ledgers, which are not negative.
pub max_ledger : List Live → ℕ
max_ledger [] = 0
max_ledger (p ∷ ps) = let rest = max_ledger ps in if ltb rest p.ledger then p.ledger else rest

-- Not too far behind (`p.ledger >= maxLedger - 2`), and not too slow.
abbrev pub is_good : ℕ → Probed → Bool
is_good newest (answers latency ledger) =
    leb newest (ledger + ledger_lag_tolerance) && ltb latency slow_latency_ms
is_good newest (fails latency message) = false

abbrev pub good_probe : ℕ → Option RpcProbe → Bool
good_probe newest none = false
good_probe newest (some p) = is_good newest p.probed

-- The first URL, in their order, whose probe is good.
pub first_good : ℕ → List RpcProbe → List String → Option String
first_good newest probes [] = none
first_good newest probes (url ∷ urls) =
    let rest = first_good newest probes urls in
    if good_probe newest (find (λ (p : RpcProbe). str_eq p.url url) probes) then some url else rest

-- `b.ledger > a.ledger || (b.ledger === a.ledger && b.latencyMs < a.latencyMs)`
abbrev pub is_better : Live → Live → Bool
is_better b a = ltb a.ledger b.ledger || (b.ledger == a.ledger && ltb b.latency_ms a.latency_ms)

pub best_of : Live → List Live → Live
best_of a [] = a
best_of a (b ∷ ps) = best_of (if is_better b a then b else a) ps

abbrev pub choose_among : String → List String → List RpcProbe → List Live → String
choose_among first urls probes [] = first
choose_among first urls probes (p ∷ ps) = elim (first_good (max_ledger (p ∷ ps)) probes urls) [
  | some url ↦ url
  | none ↦ (best_of p ps).url
]

module _ (probe : String → Probed) where
  abbrev pub probe_all : List String → List RpcProbe
  probe_all urls = map (λ url. record { url = url; probed = probe url }) urls

  pub select_rpc : List String → RpcSelection
  select_rpc [] = record { chosen = ""; probes = [] }
  select_rpc (url ∷ []) = record { chosen = url; probes = probe_all (url ∷ []) }
  select_rpc (first ∷ second ∷ rest) =
      let urls = first ∷ second ∷ rest in
      let probes = probe_all urls in
      record { chosen = choose_among first urls probes (ok_probes probes); probes = probes }
