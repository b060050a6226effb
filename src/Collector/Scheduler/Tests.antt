-- ===== src/Collector/Scheduler/Tests.antt =====
-- A stop between the sleep and the tick of the second round.
use decant_fi.Common.{◌≡◌, refl, ℕ, Bool, [], ◌∷◌, none, ◌==◌}
use decant_fi.Collector.Scheduler.{slept, ticked, running, rounds, run_loop}
use decant_fi.Collector.Scheduler.Rounds.{planned, until_stop, end_of, run_loop_lem}

abbrev third : ℕ → Bool
third k = k == 3

abbrev delay : ℕ → ℕ
delay i = 900

cut : (run_loop third delay none 5).events ≡ slept 900 ∷ ticked ∷ slept 900 ∷ []
unfolding run_loop rounds
cut = refl

run_loop_lem_example :
    (let run = run_loop third delay none 5 in
      let plan = planned third delay 5 0 in
      (run.events ≡ until_stop third delay 0 plan)
      × (run.ended ≡ end_of third delay running 0 plan))
run_loop_lem_example = run_loop_lem third delay none 5
