-- ===== src/Web/Limits/Purges.antt =====
-- The purge of the buckets against a memory that is never purged.
use decant_fi.Common.{
  ℕ, ◌≤◌, ◌<◌, ◌≡◌, refl, sym, ap, ◌∙◌, ◌⊎◌, inl, inr, Bool, true, List, [], ◌∷◌, Option, none,
  some, String, str_eq, get_key, get_key-set_key, ltb, arith, Bool-cases, if◌then◌else◌,
}
use decant_fi.Web.Limits.{
  Bucket, Buckets, purge, limit, store, rate_limited, Event, request, sweep, run,
}
use decant_fi.Web.Limits.Unique.{IsUnique, purge-IsUnique, store-IsUnique, get_key-purge}

-- A bucket for every address that was ever seen.
abbrev pub Memory : Type 0
Memory = String → Option Bucket

abbrev pub remember : Memory → String → Option Bucket → Memory
remember f ip none = f
remember f ip (some e) = λ key. if str_eq ip key then some e else f key

-- The answers of a limiter that keeps every bucket.
unfoldable pub remembered_run : Memory → List (ℕ × Event) → List Bool
unfolding limit
remembered_run f [] = []
remembered_run f ((now, request ip max window) ∷ rest) =
    let decision = limit now max window (f ip) in
    decision.0 ∷ remembered_run (remember f ip decision.1) rest
remembered_run f ((now, sweep) ∷ rest) = remembered_run f rest

abbrev pub InOrder : ℕ → List (ℕ × Event) → Type 0
InOrder t [] = Unit {0}
InOrder t (e ∷ es) = (t ≤ e.0) × InOrder e.0 es

-- A bucket that is missing was over.
abbrev Agrees : ℕ → Option Bucket → Option Bucket → Type 0
Agrees t o m = (o ≡ m) ⊎ ((o ≡ none) × ((e : Bucket) × (m ≡ some e) × e.reset_at < t))

record Refines (t : ℕ) (b : Buckets) (f : Memory) : Type 0 where
  unique : IsUnique b
  agrees : (key : String) → Agrees t (get_key b key) (f key)

later_lem : {t u : ℕ} (o m : Option Bucket) → t ≤ u → Agrees t o m → Agrees u o m
later_lem o m h (inl e) = inl e
later_lem o m h (inr (n, (e, p, l))) = inr (n, (e, p, omega (arith, h, l)))

purge-Refines :
    (t now : ℕ) (b : Buckets) (f : Memory) → t ≤ now → Refines t b f → Refines now (purge now b) f
purge-Refines t now b f h r = record {
  unique = purge-IsUnique now b r.unique;
  agrees = λ key. joined key (get_key-purge now b key r.unique) (later_lem _ _ h (r.agrees key));
}
  where
    joined :
        (key : String)
        → ((get_key (purge now b) key ≡ get_key b key)
            ⊎ ((get_key (purge now b) key ≡ none)
                × ((e : Bucket) × (get_key b key ≡ some e) × e.reset_at < now)))
        → Agrees now (get_key b key) (f key)
        → Agrees now (get_key (purge now b) key) (f key)
    joined key (inl same) (inl e) = inl (same ∙ e)
    joined key (inl same) (inr (n, rest)) = inr (same ∙ n, rest)
    joined key (inr (gone, (e, p, l))) (inl q) = inr (gone, (e, sym q ∙ p, l))
    joined key (inr (gone, (e, p, l))) (inr (n, rest)) = inr (gone, rest)

limit_lem :
    (now max window : ℕ) (o m : Option Bucket)
    → Agrees now o m
    → limit now max window o ≡ limit now max window m
unfolding limit
limit_lem now max window o m (inl e) = ap (limit now max window) e
limit_lem now max window o m (inr (n, (e, p, l))) =
    let over : ltb e.reset_at now ≡ true = ground (arith, l) in simp (n, p, over) refl

store-Refines :
    (now : ℕ) (b : Buckets) (f : Memory) (ip : String) (d : Option Bucket)
    → Refines now b f
    → Refines now (store b ip d) (remember f ip d)
store-Refines now b f ip none r = r
store-Refines now b f ip (some e) r = record {
  unique = store-IsUnique b ip (some e) r.unique;
  agrees = λ key.
      rw (get_key-set_key b ip key e) (elim (Bool-cases (str_eq ip key)) [
        | inl t ↦ rw t (inl refl)
        | inr t ↦ rw t (r.agrees key)
      ]);
}

run_lem :
    (t : ℕ) (b : Buckets) (f : Memory) (es : List (ℕ × Event))
    → InOrder t es
    → Refines t b f
    → run b es ≡ remembered_run f es
unfolding run remembered_run rate_limited
run_lem t b f [] o r = refl
run_lem t b f ((now, sweep) ∷ rest) o r =
    run_lem now (purge now b) f rest o.1 (purge-Refines t now b f o.0 r)
run_lem t b f ((now, request ip max window) ∷ rest) o r =
    rw
      (limit_lem now max window (get_key b ip) (f ip)
        (later_lem (get_key b ip) (f ip) o.0 (r.agrees ip)))
      (ap (◌∷◌ decision.0) (
        run_lem now (store b ip decision.1) (remember f ip decision.1) rest o.1 (
          store-Refines now b f ip decision.1 (record {
            unique = r.unique;
            agrees = λ key. later_lem (get_key b key) (f key) o.0 (r.agrees key);
          }))))
  where
    decision : Bool × Option Bucket
    decision = limit now max window (f ip)

-- The purge changes no answer: as long as time does not run backwards, a limiter that purges its
-- buckets at any times answers every sequence of requests as one that keeps a bucket for every
-- address for ever.
pub run-remembered_run :
    (t : ℕ) (es : List (ℕ × Event)) → InOrder t es → run [] es ≡ remembered_run (λ ip. none) es
run-remembered_run t es o =
    run_lem t [] (λ ip. none) es o (record { unique = tt; agrees = λ key. inl refl })
