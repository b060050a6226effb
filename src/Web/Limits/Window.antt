-- ===== src/Web/Limits/Window.antt =====
-- The requests of one address within the window of its bucket.
use decant_fi.Common.{
  ℕ, suc, ◌+◌, ◌≤◌, ◌≡◌, refl, ap, inl, inr, Bool, true, false, List, [], ◌∷◌, none, some, String,
  str_eq_iff, get_key, set_key, get_key-set_key, map, All, ltb, leb, arith, Bool-cases,
  if◌then◌else◌,
}
use decant_fi.Web.Limits.{Bucket, Buckets, limit, rate_limited, Event, request, run}

-- A request: its time, and the limit and the window of the endpoint that it is for.
pub record Ask : Type 0 where
  pub at : ℕ
  pub max : ℕ
  pub window : ℕ

abbrev pub asked_by : String → Ask → ℕ × Event
asked_by ip a = (a.at, request ip a.max a.window)

-- The answers when `n` requests have been accepted: refused are those whose limit is reached.
abbrev pub counted : ℕ → List Ask → List Bool
counted n [] = []
counted n (a ∷ rest) = if leb a.max n then true ∷ counted n rest else false ∷ counted (suc n) rest

stored_lem : (b : Buckets) (ip : String) (e : Bucket) → get_key (set_key b ip e) ip ≡ some e
stored_lem b ip e = ground (arith, get_key-set_key b ip ip e, str_eq_iff ip ip)

within :
    (b : Buckets) (ip : String) (n reset : ℕ) (asks : List Ask)
    → get_key b ip ≡ some (record { count = n; reset_at = reset })
    → All (λ a. a.at ≤ reset) asks
    → run b (map (asked_by ip) asks) ≡ counted n asks
unfolding run rate_limited limit
within b ip n reset [] e h = refl
within b ip n reset (a ∷ rest) e h = elim (Bool-cases (leb a.max n)) [
  | inl full ↦ simp (e, inside, full) (ap (◌∷◌ true) (within b ip n reset rest e h.1))
  | inr free ↦
      simp (e, inside, free)
        (ap (◌∷◌ false) (
          within (set_key b ip (record { count = suc n; reset_at = reset })) ip (suc n) reset rest
            (stored_lem b ip _) h.1))
]
  where
    inside : ltb reset a.at ≡ false
    inside = ground (arith, h.0)

-- The endpoints share the bucket of an address: after its first request, which is accepted, and
-- until the window of that request is over, a request is refused exactly when the requests that
-- were accepted before, for whatever endpoint, are as many as the limit of its own endpoint.
pub run-counted :
    (b : Buckets) (ip : String) (first : Ask) (rest : List Ask)
    → get_key b ip ≡ none
    → All (λ a. a.at ≤ first.at + first.window) rest
    → run b (map (asked_by ip) (first ∷ rest)) ≡ false ∷ counted 1 rest
unfolding run rate_limited limit
run-counted b ip first rest e h = simp e (
    ap (◌∷◌ false)
      (within (set_key b ip bucket) ip 1 (first.at + first.window) rest (stored_lem b ip bucket) h))
  where
    bucket : Bucket
    bucket = record { count = 1; reset_at = first.at + first.window }
