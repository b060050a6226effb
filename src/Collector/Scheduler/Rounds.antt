-- ===== src/Collector/Scheduler/Rounds.antt =====
-- The order of sleeps and ticks.
use decant_fi.Common.{
  ◌≡◌, refl, Option, none, some, inl, inr, ap, ℕ, zero, suc, Bool, List, [], ◌∷◌, some, none,
  Bool-cases, if◌then◌else◌,
}
use decant_fi.Collector.Scheduler.{
  LoopEvent, slept, ticked, LoopEnd, done, stopped, running, rounds, run_loop,
}

module _ (should_stop : ℕ → Bool) (delay_ms : ℕ → ℕ) where
  -- A sleep and a tick for each round.
  abbrev pub planned : ℕ → ℕ → List LoopEvent
  planned zero i = []
  planned (suc n) i = slept (delay_ms i) ∷ ticked ∷ planned n (suc i)

  -- What comes before the first check that says stop, with a check before each event.
  abbrev pub until_stop : ℕ → List LoopEvent → List LoopEvent
  until_stop k [] = []
  until_stop k (e ∷ es) = if should_stop k then [] else e ∷ until_stop (suc k) es

  abbrev pub end_of : LoopEnd → ℕ → List LoopEvent → LoopEnd
  end_of ending k [] = ending
  end_of ending k (e ∷ es) = if should_stop k then stopped else end_of ending (suc k) es

  rounds_lem :
      (ending : LoopEnd) (n k i : ℕ)
      → ((rounds should_stop delay_ms ending n k i).events ≡ until_stop k (planned n i))
        × ((rounds should_stop delay_ms ending n k i).ended ≡ end_of ending k (planned n i))
  unfolding rounds
  rounds_lem ending zero k i = (refl, refl)
  rounds_lem ending (suc n) k i =
      let rest = rounds_lem ending n (suc (suc k)) (suc i) in
      elim (Bool-cases (should_stop k)) [
        | inl a ↦ rw a (refl, refl)
        | inr a ↦ elim (Bool-cases (should_stop (suc k))) [
          | inl b ↦ rw (a, b) (refl, refl)
          | inr b ↦ rw (a, b) (ap (λ es. slept (delay_ms i) ∷ ticked ∷ es) rest.0, rest.1)
        ]
      ]

  abbrev pub round_count : Option ℕ → ℕ → ℕ
  round_count none followed = followed
  round_count (some iterations) followed = iterations

  abbrev pub last_end : Option ℕ → LoopEnd
  last_end none = running
  last_end (some iterations) = done

  -- The loop sleeps and ticks in turn, never two ticks without a sleep in between: as many times as
  -- there are iterations, or as long as it is followed if their number is not given. It is cut before
  -- the first event whose check of `shouldStop` says so, and has then stopped.
  pub run_loop_lem :
      (iterations : Option ℕ) (followed : ℕ)
      → (let run = run_loop should_stop delay_ms iterations followed in
          let plan = planned (round_count iterations followed) 0 in
          (run.events ≡ until_stop 0 plan) × (run.ended ≡ end_of (last_end iterations) 0 plan))
  unfolding run_loop
  run_loop_lem none followed = rounds_lem running followed 0 0
  run_loop_lem (some iterations) followed = rounds_lem done iterations 0 0
