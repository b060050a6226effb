-- ===== src/Broker/Flow.antt =====
-- web/sb-mediator-flow.js `executeSbMediatorSwap`: the mediator account is funded, the swap streams
-- under the guard, and the funds are returned. What the SDK, the socket, the wallet and the timers
-- do is a value of `World`; the calls that the flow makes of them are listed in order. Nothing takes
-- the guard's handler off the socket, so that it handles each frame that arrives from its
-- installation until the flow returns. A frame that arrives before that goes to the SDK's own
-- handler; the quote is asked for only after it.
pub mod Attempts
pub mod Funds
pub mod Session
mod Tests
use decant_fi.Common.{
  ℕ, zero, suc, ◌+◌, ◌*◌, Bool, true, false, not, ◌&&◌, List, [], ◌∷◌, ◌++◌, Option, none, some,
  String, str_eq, if◌then◌else◌, ltb,
}
use decant_fi.Common.Float.{Floats}
use decant_fi.Broker.Guard.{ValidateExpected, sb_router_contract}
use decant_fi.Broker.Tap.{Frame, TapResult, forward, block, crash, guarded_tap}

abbrev pub sb_fee_account : String
sb_fee_account = "GD53CUDUMAIX5BCS4LU5ZZ46RON7B3HCH3JYHR6LLC3OWH3KLRFUQD5I"

-- What can happen once the client exists, in the order in which it happens.
pub data Event : Type 0 where
  -- `client.connect()` resolves, and the handler is installed
  connect_done : Event
  -- `client.connect()` rejects
  connect_failed : String → Event
  -- the timeout of 60 s
  timed_out : Event
  error_event : String → Event
  finished_event : String → Event
  progress_event : Event
  -- a quote: `directTrade.buying`, `quote.directTrade.buying`, and what `confirmQuote` throws
  quote_event : Option String → Option String → Option String → Event
  frame_event : Frame → Event

pub data Settled : Type 0 where
  resolved : String → Settled
  failed : String → Settled

pub record FlowResult : Type 0 where
  pub ok : Bool
  pub blocked : Bool
  pub finished : Option String
  pub error : Option String
  pub needs_recovery : Bool
  pub mediator_address : Option String

pub data Call : Type 0 where
  init_mediator : Call
  forward_frame : Frame → Call
  -- to the SDK's own handler
  raw_frame : Frame → Call
  stop_client : Call
  dispose : ℕ → Call
  wait_ms : ℕ → Call

pub data InitResult : Type 0 where
  init_failed : String → InitResult
  init_done : String → InitResult

pub record World : Type 0 where
  pub init : InitResult
  -- what throws between `init` and the stream: the key pair, the client
  pub setup_error : Option String
  -- until the client is stopped
  pub events : List Event
  -- while the n-th attempt of `dispose` is under way, and in the wait after it
  pub during : ℕ → List Event
  pub waiting : ℕ → List Event
  -- whether the n-th attempt of `dispose` succeeds
  pub dispose_works : ℕ → Bool

abbrev pub failure : String → FlowResult
failure message = record {
  ok = false;
  blocked = false;
  finished = none;
  error = some message;
  needs_recovery = false;
  mediator_address = none;
}

-- The result of the stream.
abbrev pub result_of : Settled → FlowResult
result_of (resolved detail) = record {
  ok = true;
  blocked = false;
  finished = some detail;
  error = none;
  needs_recovery = false;
  mediator_address = none;
}
result_of (failed message) =
    if str_eq message "guard-blocked"
    then record {
      ok = true;
      blocked = true;
      finished = none;
      error = none;
      needs_recovery = false;
      mediator_address = none;
    }
    else failure message

module _ (F : Floats) (amount : String) where
  -- The expectation of the guard for this swap.
  pub expected_for : String → ValidateExpected F.Num
  expected_for mediator_address = record {
    trader = mediator_address;
    max_sell_amount = F.parse_float amount;
    router_contract_id = sb_router_contract;
    fee_account = some sb_fee_account;
    max_fee_amount = some (F.mul (F.parse_float amount) (F.lit 5 3));
    min_received_rate = none;
  }

  abbrev pub is_positive_num : F.Num → Bool
  is_positive_num x = F.is_finite x && F.lt (F.lit 0 0) x

  abbrev first_of : Option String → Option String → Option String
  first_of none b = b
  first_of (some a) b = some a

  abbrev with_rate : ValidateExpected F.Num → Option String → ValidateExpected F.Num
  with_rate e none = e
  with_rate e (some buying) =
      if is_positive_num (F.parse_float buying) && is_positive_num (F.parse_float amount)
      then record e {
        min_received_rate = some (F.div (F.parse_float buying) (F.parse_float amount));
      }
      else e

  -- The declared floor of a quote becomes the received-side floor of the guard.
  pub on_quote : ValidateExpected F.Num → Option String → Option String → ValidateExpected F.Num
  on_quote e buying nested = with_rate e (first_of buying nested)

  abbrev pub settles : Option String → Option Settled
  settles none = none
  settles (some message) = some (failed message)

  -- What an event does: the guard's expectation, the frame that reaches the SDK, and how the promise
  -- settles.
  pub record Effect : Type 0 where
    pub expected : ValidateExpected F.Num
    pub delivered : List Call
    pub settled : Option Settled

  abbrev on_frame : ValidateExpected F.Num → Frame → TapResult → Effect
  on_frame e f forward = record { expected = e; delivered = forward_frame f ∷ []; settled = none }
  on_frame e f (block r) = record {
    expected = e;
    delivered = [];
    settled = some (failed "guard-blocked");
  }
  on_frame e f crash = record { expected = e; delivered = []; settled = none }

  pub on_event : ValidateExpected F.Num → Event → Effect
  on_event e connect_done = record { expected = e; delivered = []; settled = none }
  on_event e (connect_failed m) = record { expected = e; delivered = []; settled = some (failed m) }
  on_event e timed_out = record {
    expected = e;
    delivered = [];
    settled = some (failed "swap timeout");
  }
  on_event e (error_event m) = record { expected = e; delivered = []; settled = some (failed m) }
  on_event e (finished_event d) = record {
    expected = e;
    delivered = [];
    settled = some (resolved d);
  }
  on_event e progress_event = record { expected = e; delivered = []; settled = none }
  on_event e (quote_event buying nested thrown) = record {
    expected = on_quote e buying nested;
    delivered = [];
    settled = settles thrown;
  }
  on_event e (frame_event f) = on_frame e f (guarded_tap F e f)

  -- The first settlement of the promise counts.
  abbrev pub first_settled : Option Settled → Option Settled → Option Settled
  first_settled none later = later
  first_settled (some s) later = some s

  -- A frame goes to the handler only once that is installed.
  abbrev pub at_event : Bool → ValidateExpected F.Num → Event → Effect
  at_event true e ev = on_event e ev
  at_event false e (frame_event f) = record {
    expected = e;
    delivered = raw_frame f ∷ [];
    settled = none;
  }
  at_event false e ev = on_event e ev

  abbrev pub installed_after : Bool → Event → Bool
  installed_after true ev = true
  installed_after false connect_done = true
  installed_after false ev = false

  -- What events come to.
  pub record Streamed : Type 0 where
    pub settled : Option Settled
    pub delivered : List Call
    pub installed : Bool
    pub expected : ValidateExpected F.Num

  -- The events in order. The handler stays on the socket after the promise has settled.
  pub stream : Bool → ValidateExpected F.Num → List Event → Streamed
  stream installed e [] = record {
    settled = none;
    delivered = [];
    installed = installed;
    expected = e;
  }
  stream installed e (ev ∷ evs) =
      let now = at_event installed e ev in
      let later = stream (installed_after installed ev) now.expected evs in
      record {
        settled = first_settled now.settled later.settled;
        delivered = now.delivered ++ later.delivered;
        installed = later.installed;
        expected = later.expected;
      }

  -- Whether the handler is installed, and the guard's expectation; none where there is no client.
  abbrev pub Tap : Type 0
  Tap = Option (Bool × ValidateExpected F.Num)

  -- The frames that reach the SDK.
  abbrev pub heard : Tap → List Event → List Call × Tap
  heard none events = ([], none)
  heard (some (installed, e)) events =
      let s = stream installed e events in (s.delivered, some (s.installed, s.expected))

  -- The attempts of `dispose`, from the given one, with so many left. The first part says whether
  -- one succeeded.
  pub dispose_from : World → ℕ → ℕ → ℕ → Tap → Bool × List Call
  dispose_from w backoff attempt zero tap = (false, [])
  dispose_from w backoff attempt (suc left) tap =
      let late = heard tap (w.during attempt) in
      let pause = heard late.1 (w.waiting attempt) in
      let again = dispose_from w backoff (suc attempt) left pause.1 in
      if w.dispose_works attempt then (true, dispose attempt ∷ late.0) else (
        again.0,
        dispose attempt
            ∷ (late.0
                ++ ((if ltb attempt 3 then wait_ms (backoff * attempt) ∷ pause.0 else [])
                    ++ again.1)),
      )

  abbrev finish : FlowResult → String → Bool → FlowResult
  finish r address true = r
  finish r address false = record r { needs_recovery = true; mediator_address = some address }

  -- Where nothing else has settled the promise, the timeout of 60 s does.
  abbrev pub or_timeout : Option Settled → Settled
  or_timeout none = failed "swap timeout"
  or_timeout (some s) = s

  -- The stream, or what threw before it.
  pub record StreamEnd : Type 0 where
    pub result : FlowResult
    pub calls : List Call
    pub tap : Tap

  abbrev pub streamed : Option String → String → List Event → StreamEnd
  streamed (some message) address events = record {
    result = failure message;
    calls = [];
    tap = none;
  }
  streamed none address events =
      let s = stream false (expected_for address) events in
      record {
        result = result_of (or_timeout s.settled);
        calls = s.delivered ++ stop_client ∷ [];
        tap = some (s.installed, s.expected);
      }

  abbrev run_from : InitResult → World → ℕ → FlowResult × List Call
  run_from (init_failed message) w backoff = (failure message, init_mediator ∷ [])
  run_from (init_done address) w backoff =
      let session = streamed w.setup_error address w.events in
      let (disposed, attempts) = dispose_from w backoff 1 3 session.tap in
      (finish session.result address disposed, init_mediator ∷ (session.calls ++ attempts))

  pub execute_sb_mediator_swap : World → ℕ → FlowResult × List Call
  execute_sb_mediator_swap w backoff = run_from w.init w backoff
