-- ===== src/Broker/Flow/Tests.antt =====
-- The mediator flow at concrete inputs.
use decant_fi.Common.{true, ◌≡◌, refl, ◌⊎◌, List, [], ◌∷◌, ◌++◌, none, some, String, All, ◌==◌}
use decant_fi.Common.Float.{fixed}
use decant_fi.Broker.Guard.{no_operations}
use decant_fi.Broker.Guard.Decides.{validate_streamed_tx_empty}
use decant_fi.Broker.Tap.{guarded_tap, tx_frame, other_frame}
use decant_fi.Broker.Flow.{
  Event, connect_done, quote_event, frame_event, finished_event, failed, World, init_done,
  init_failed, execute_sb_mediator_swap, stream, forward_frame, on_event, on_quote, dispose_from,
  failure, init_mediator, expected_for,
}
use decant_fi.Broker.Flow.Session.{stream_blocks, execute_sb_mediator_swap-IsGuarded, IsGuarded}
use decant_fi.Broker.Flow.Funds.{execute_sb_mediator_swap_returns, IsReturned}

abbrev quoted : List Event
quoted = quote_event (some "60.5") none none ∷ frame_event (other_frame "progress") ∷ []

abbrev later : List Event
later = finished_event "done" ∷ frame_event (other_frame "late") ∷ []

abbrev attacked : List Event
attacked = quoted ++ frame_event (tx_frame (some [])) ∷ later

abbrev stuck : World
stuck = record {
  init = init_done "GMEDIATOR";
  setup_error = none;
  events = connect_done ∷ attacked;
  during = λ n. frame_event (other_frame "late") ∷ [];
  waiting = λ n. [];
  dispose_works = λ n. n == 7;
}

guard : Unit {0}
unfolding execute_sb_mediator_swap guarded_tap stream on_event on_quote expected_for dispose_from
guard = tt

stream_blocks_example :
    let s = stream fixed "5000" true (expected_for fixed "5000" "GMEDIATOR") attacked in
    (s.settled ≡ some (failed "guard-blocked"))
    × (s.delivered
        ≡ (stream fixed "5000" true
            (expected_for fixed "5000" "GMEDIATOR")
            (quoted ++ later)).delivered)
unfolding guard
stream_blocks_example =
    stream_blocks fixed "5000" (expected_for fixed "5000" "GMEDIATOR") quoted later [] no_operations
      (refl, (refl, tt)) (validate_streamed_tx_empty fixed _)

-- A frame that arrives after the block is handed over.
handed_over :
    (stream fixed "5000" true (expected_for fixed "5000" "GMEDIATOR") attacked).delivered
    ≡ forward_frame (other_frame "progress") ∷ forward_frame (other_frame "late") ∷ []
unfolding guard
handed_over = stream_blocks_example.1

execute_sb_mediator_swap-IsGuarded_example :
    All (IsGuarded fixed "5000" "GMEDIATOR") (execute_sb_mediator_swap fixed "5000" stuck 3000).1
execute_sb_mediator_swap-IsGuarded_example =
    execute_sb_mediator_swap-IsGuarded fixed "5000" stuck 3000 "GMEDIATOR" refl

execute_sb_mediator_swap_returns_example :
    let run = execute_sb_mediator_swap fixed "5000" stuck 3000 in
    ((m : String) × (stuck.init ≡ init_failed m) × (run ≡ (failure m, init_mediator ∷ [])))
    ⊎ ((address : String) × (stuck.init ≡ init_done address)
        × IsReturned fixed "5000" stuck 3000 address run.0 run.1)
execute_sb_mediator_swap_returns_example = execute_sb_mediator_swap_returns fixed "5000" stuck 3000
