-- ===== src/Broker/Flow/Funds.antt =====
-- Whether the funds of the mediator account come back.
use decant_fi.Common.{
  not, str_eq, str_eq_iff, if◌then◌else◌, ◌≡◌, refl, ap, ◌∙◌, ◌⊎◌, inl, inr, ℕ, Bool, true, false,
  List, [], ◌∷◌, ◌++◌, Option, none, some, String, Bool-cases,
}
use decant_fi.Common.Float.{Floats}
use decant_fi.Broker.Flow.{
  Settled, resolved, failed, result_of, or_timeout, Event, expected_for, FlowResult, Call,
  init_mediator, stop_client, World, InitResult, init_failed, init_done, failure, dispose_from,
  streamed, finish, stream, run_from, execute_sb_mediator_swap,
}
use decant_fi.Broker.Flow.Attempts.{
  Attempts, own_calls, own_calls-append, stops, heard-quiet, attempts_lem,
}

module _ (F : Floats) (amount : String) where
  -- What a result says of the settlement of the promise; none is the timeout.
  abbrev pub Reports : Option Settled → FlowResult → Type 0
  Reports none r = (r.ok ≡ false) × (r.error ≡ some "swap timeout")
  Reports (some (resolved detail)) r =
      (r.ok ≡ true) × (r.blocked ≡ false) × (r.finished ≡ some detail)
  Reports (some (failed message)) r =
      ((message ≡ "guard-blocked") × (r.ok ≡ true) × (r.blocked ≡ true))
      ⊎ ((str_eq message "guard-blocked" ≡ false) × (r.ok ≡ false) × (r.error ≡ some message))

  -- What a result says of the stream, or of what threw before it.
  abbrev pub ReportsStream : Option String → String → List Event → FlowResult → Type 0
  ReportsStream (some message) address events r = (r.ok ≡ false) × (r.error ≡ some message)
  ReportsStream none address events r =
      Reports (stream F amount false (expected_for F amount address) events).settled r

  -- How a funded swap ends: the calls of the flow, and the result.
  pub record IsReturned (w : World) (backoff : ℕ) (address : String) (result : FlowResult)
      (trace : List Call) : Type 0 where
    pub attempts : List Call
    pub disposed : Bool
    pub calls : own_calls trace ≡ init_mediator ∷ (stops w.setup_error ++ attempts)
    pub tried : Attempts w.dispose_works backoff disposed attempts
    pub reported : ReportsStream w.setup_error address w.events result
    pub recovery : result.needs_recovery ≡ not disposed
    pub to_recover : result.mediator_address ≡ (if disposed then none else some address)

  failed_lem :
      (message : String)
      → Reports (some (failed message)) (result_of (failed message))
        × ((result_of (failed message)).needs_recovery ≡ false)
        × ((result_of (failed message)).mediator_address ≡ none)
  failed_lem message = elim (Bool-cases (str_eq message "guard-blocked")) [
    | inl e ↦ rw e (inl ((str_eq_iff message "guard-blocked").0 e, refl, refl), refl, refl)
    | inr e ↦ rw e (inr (refl, refl, refl), refl, refl)
  ]

  settled_lem :
      (o : Option Settled)
      → let r = result_of (or_timeout F amount o) in
        Reports o r × (r.needs_recovery ≡ false) × (r.mediator_address ≡ none)
  settled_lem none = ((refl, refl), refl, refl)
  settled_lem (some (resolved detail)) = ((refl, refl, refl), refl, refl)
  settled_lem (some (failed message)) = failed_lem message

  streamed_lem :
      (setup : Option String) (address : String) (evs : List Event)
      → let r = (streamed F amount setup address evs).result in
        ReportsStream setup address evs r × (r.needs_recovery ≡ false) × (r.mediator_address ≡ none)
  streamed_lem (some message) address evs = ((refl, refl), refl, refl)
  streamed_lem none address evs =
      settled_lem (stream F amount false (expected_for F amount address) evs).settled

  Reports-finish :
      (o : Option Settled) (r : FlowResult) (address : String) (disposed : Bool)
      → Reports o r
      → Reports o (finish F amount r address disposed)
  Reports-finish none r address true h = h
  Reports-finish none r address false h = h
  Reports-finish (some (resolved detail)) r address true h = h
  Reports-finish (some (resolved detail)) r address false h = h
  Reports-finish (some (failed message)) r address true h = h
  Reports-finish (some (failed message)) r address false h = h

  ReportsStream-finish :
      (setup : Option String) (evs : List Event) (r : FlowResult) (address : String)
      (disposed : Bool)
      → ReportsStream setup address evs r
      → ReportsStream setup address evs (finish F amount r address disposed)
  ReportsStream-finish (some message) evs r address true h = h
  ReportsStream-finish (some message) evs r address false h = h
  ReportsStream-finish none evs r address disposed h = Reports-finish _ r address disposed h

  finish_lem :
      (r : FlowResult) (address : String) (disposed : Bool)
      → r.needs_recovery ≡ false
      → r.mediator_address ≡ none
      → let end = finish F amount r address disposed in
        (end.needs_recovery ≡ not disposed)
        × (end.mediator_address ≡ (if disposed then none else some address))
  finish_lem r address true h k = (h, k)
  finish_lem r address false h k = (refl, refl)

  streamed-own :
      (setup : Option String) (address : String) (evs : List Event)
      → own_calls (streamed F amount setup address evs).calls ≡ stops setup
  streamed-own (some message) address evs = refl
  streamed-own none address evs =
      heard-quiet F amount (some (false, expected_for F amount address)) evs (stop_client ∷ [])

  -- When `init` fails, the error is all there is: nothing is streamed and nothing disposed of. Once
  -- it has succeeded, the funds are asked back however the setup and the stream end, after the client
  -- is stopped if there is one, by at most three attempts of which only the last can succeed,
  -- whatever frames arrive meanwhile. The result says what threw before the stream or how the stream
  -- settled first: finished, blocked, an error, or the timeout if nothing settled it; and it asks for
  -- the recovery of the account, with its address, exactly when all three attempts failed.
  pub execute_sb_mediator_swap_returns :
      (w : World) (backoff : ℕ)
      → let run = execute_sb_mediator_swap F amount w backoff in
        ((m : String) × (w.init ≡ init_failed m) × (run ≡ (failure m, init_mediator ∷ [])))
        ⊎ ((address : String) × (w.init ≡ init_done address)
            × IsReturned w backoff address run.0 run.1)
  unfolding execute_sb_mediator_swap
  execute_sb_mediator_swap_returns w backoff = ends w.init refl
    where
      ends :
          (i : InitResult)
          → w.init ≡ i
          → let run = run_from F amount i w backoff in
            ((m : String) × (w.init ≡ init_failed m) × (run ≡ (failure m, init_mediator ∷ [])))
            ⊎ ((address : String) × (w.init ≡ init_done address)
                × IsReturned w backoff address run.0 run.1)
      ends (init_failed m) e = inl (m, e, refl)
      ends (init_done address) e =
          let s = streamed F amount w.setup_error address w.events in
          let d = dispose_from F amount w backoff 1 3 s.tap in
          let came = streamed_lem w.setup_error address w.events in
          inr (
            address,
            e,
            record {
              attempts = own_calls d.1;
              disposed = d.0;
              calls =
                  ap (λ l. init_mediator ∷ l)
                    (own_calls-append s.calls d.1
                      ∙ ap (λ l. l ++ own_calls d.1) (streamed-own w.setup_error address w.events));
              tried = attempts_lem F amount w backoff s.tap;
              reported = ReportsStream-finish w.setup_error w.events s.result address d.0 came.0;
              recovery = (finish_lem s.result address d.0 came.1 came.2).0;
              to_recover = (finish_lem s.result address d.0 came.1 came.2).1;
            },
          )
