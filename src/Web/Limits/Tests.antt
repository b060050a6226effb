-- ===== src/Web/Limits/Tests.antt =====
-- Concrete requests.
use decant_fi.Common.{
  arith, ℕ, ◌≡◌, refl, true, false, List, [], ◌∷◌, String, map, replicate, ◌++◌, none,
}
use decant_fi.Web.Limits.{Event, request, sweep, limit, purge, run}
use decant_fi.Web.Limits.Purges.{remembered_run, run-remembered_run}
use decant_fi.Web.Limits.Window.{Ask, asked_by, counted, run-counted}

abbrev ip : String
ip = "203.0.113.7"

abbrev events : List (ℕ × Event)
events =
    (10, request ip 1 100) ∷ (20, request ip 1 100) ∷ (150, sweep) ∷ (160, request ip 1 100) ∷ []

run-remembered_run_example : run [] events ≡ remembered_run (λ address. none) events
run-remembered_run_example = run-remembered_run 0 events (ground arith)

swept_answers : run [] events ≡ false ∷ true ∷ false ∷ []
unfolding run limit purge
swept_answers = refl

-- Ten quotes, of which 120 a minute are allowed, then the submission of a signed transaction.
abbrev quote_ask : Ask
quote_ask = record { at = 1000; max = 120; window = 60_000 }

abbrev submit_ask : Ask
submit_ask = record { at = 2000; max = 10; window = 60_000 }

run-counted_example :
    run [] (map (asked_by ip) (quote_ask ∷ replicate 9 quote_ask ++ submit_ask ∷ []))
    ≡ false ∷ counted 1 (replicate 9 quote_ask ++ submit_ask ∷ [])
run-counted_example =
    run-counted [] ip quote_ask (replicate 9 quote_ask ++ submit_ask ∷ []) refl (ground arith)

submit_refused :
    counted 1 (replicate 9 quote_ask ++ submit_ask ∷ []) ≡ replicate 9 false ++ true ∷ []
submit_refused = refl
