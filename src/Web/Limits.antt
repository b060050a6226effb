-- ===== src/Web/Limits.antt =====
-- web/server.ts: the limit on the requests of an address (`rateLimited`) and the purge of its
-- buckets. The time is an argument.
pub mod Unique
pub mod Purges
pub mod Window
mod Tests
use decant_fi.Common.{
  ℕ, suc, ◌+◌, Bool, true, false, List, [], ◌∷◌, Option, none, some, String, get_key, set_key, ltb,
  leb, if◌then◌else◌,
}

pub record Bucket : Type 0 where
  pub count : ℕ
  pub reset_at : ℕ

abbrev pub Buckets : Type 0
Buckets = List (String × Bucket)

-- Every bucket whose time is over is deleted.
unfoldable pub purge : ℕ → Buckets → Buckets
purge now [] = []
purge now (entry ∷ rest) =
    let kept = purge now rest in if ltb entry.1.reset_at now then kept else entry ∷ kept

-- Whether a request is refused, and the bucket that is written.
unfoldable pub limit : ℕ → ℕ → ℕ → Option Bucket → Bool × Option Bucket
limit now max window none = (false, some (record { count = 1; reset_at = now + window }))
limit now max window (some e) =
    if ltb e.reset_at now
    then (false, some (record { count = 1; reset_at = now + window }))
    else if leb max e.count
    then (true, none)
    else (false, some (record e { count = suc e.count }))

abbrev pub store : Buckets → String → Option Bucket → Buckets
store buckets ip none = buckets
store buckets ip (some e) = set_key buckets ip e

unfoldable pub rate_limited : Buckets → ℕ → String → ℕ → ℕ → Bool × Buckets
unfolding limit
rate_limited buckets now ip max window =
    let decision = limit now max window (get_key buckets ip) in
    (decision.0, store buckets ip decision.1)

-- What happens to the buckets, at its time.
pub data Event : Type 0 where
  -- address, limit, window
  request : String → ℕ → ℕ → Event
  sweep : Event

-- The answers to the requests.
unfoldable pub run : Buckets → List (ℕ × Event) → List Bool
unfolding rate_limited
run buckets [] = []
run buckets ((now, request ip max window) ∷ rest) =
    let r = rate_limited buckets now ip max window in r.0 ∷ run r.1 rest
run buckets ((now, sweep) ∷ rest) = run (purge now buckets) rest
