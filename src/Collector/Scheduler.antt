-- ===== src/Collector/Scheduler.antt =====
-- collector/scheduler.ts: `runLoop`. What `shouldStop` and `delayMs` answer is an argument, by the
-- number of the call; a tick that throws is left out. A loop without `iterations` is followed for a
-- number of rounds.
pub mod Rounds
mod Tests
use decant_fi.Common.{
  ℕ, zero, suc, ◌+◌, Bool, true, false, List, [], ◌∷◌, Option, none, some, if◌then◌else◌,
}

pub data LoopEvent : Type 0 where
  slept : ℕ → LoopEvent
  ticked : LoopEvent

pub data LoopEnd : Type 0 where
  done stopped running : LoopEnd

pub record Run : Type 0 where
  pub events : List LoopEvent
  pub ended : LoopEnd

abbrev pub after_event : LoopEvent → Run → Run
after_event e r = record { events = e ∷ r.events; ended = r.ended }

abbrev pub halted : Run
halted = record { events = []; ended = stopped }

module _ (should_stop : ℕ → Bool) (delay_ms : ℕ → ℕ) where
  -- The rounds left, the checks of `shouldStop` so far, the rounds so far.
  pub rounds : LoopEnd → ℕ → ℕ → ℕ → Run
  rounds ending zero checks i = record { events = []; ended = ending }
  rounds ending (suc left) checks i =
      let rest = rounds ending left (suc (suc checks)) (suc i) in
      if should_stop checks
      then halted
      else after_event (slept (delay_ms i))
          (if should_stop (suc checks) then halted else after_event ticked rest)

  pub run_loop : Option ℕ → ℕ → Run
  run_loop none followed = rounds running followed 0 0
  run_loop (some iterations) followed = rounds done iterations 0 0
