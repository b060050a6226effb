-- ===== src/Broker/Flow/Session.antt =====
-- What reaches the SDK while the swap streams.
use decant_fi.Common.{
  Bool, true, false, ◌≡◌, refl, sym, ◌∙◌, ap, subst, inl, inr, List, [], ◌∷◌, ◌++◌, Option, none,
  some, String, All, All-++, Bool-cases, ◌&&◌, ℕ, zero, suc, ltb,
}
use mathlib.Core.List.{append_assoc}
use decant_fi.Common.Float.{Floats}
use decant_fi.Broker.Guard.{ValidateExpected, Reason, Op, validate_streamed_tx, rejected}
use decant_fi.Broker.Tap.{
  Frame, tx_frame, TapResult, forward, block, crash, guarded_tap, guarded_tap_sound,
  guarded_tap_rejects, IsForwardable,
}
use decant_fi.Broker.Flow.{
  connect_done, raw_frame, at_event, installed_after, Tap, Event, connect_failed, timed_out,
  error_event, finished_event, progress_event, quote_event, frame_event, failed, Call,
  forward_frame, stream, on_event, on_frame, on_quote, heard, with_rate, first_of, expected_for,
  World, init_done, dispose_from, streamed, run_from, stop_client, execute_sb_mediator_swap,
  is_positive_num,
}

module _ (F : Floats) (amount : String) where
  -- What the stream hands over under an invariant of the guard's expectation.
  module _ (I : ValidateExpected F.Num → Type 0) (Q : Call → Type 0)
      (keep : (e : _) (b n : Option String) → I e → I (on_quote F amount e b n))
      (raw : (f : Frame) → Q (raw_frame f))
      (handed : (e : _) (f : Frame) → I e → IsForwardable F e f → Q (forward_frame f)) where
    frame-All :
        (e : ValidateExpected F.Num) (f : Frame) (r : TapResult)
        → I e
        → guarded_tap F e f ≡ r
        → All Q (on_frame F amount e f r).delivered
    frame-All e f forward i h = (handed e f i (guarded_tap_sound F e f h), tt)
    frame-All e f (block r) i h = tt
    frame-All e f crash i h = tt

    event-All :
        (e : ValidateExpected F.Num) (ev : Event)
        → I e
        → All Q (on_event F amount e ev).delivered × I (on_event F amount e ev).expected
    unfolding on_event
    event-All e connect_done i = (tt, i)
    event-All e (connect_failed m) i = (tt, i)
    event-All e timed_out i = (tt, i)
    event-All e (error_event m) i = (tt, i)
    event-All e (finished_event m) i = (tt, i)
    event-All e progress_event i = (tt, i)
    event-All e (quote_event b n t) i = (tt, keep e b n i)
    event-All e (frame_event f) i = (frame-All e f _ i refl, kept _)
      where
        kept : (r : TapResult) → I (on_frame F amount e f r).expected
        kept forward = i
        kept (block r) = i
        kept crash = i

    at_event-All :
        (installed : Bool) (e : ValidateExpected F.Num) (ev : Event)
        → I e
        → let now = at_event F amount installed e ev in All Q now.delivered × I now.expected
    at_event-All true e ev i = event-All e ev i
    at_event-All false e (frame_event f) i = ((raw f, tt), i)
    at_event-All false e connect_done i = event-All e connect_done i
    at_event-All false e (connect_failed m) i = event-All e (connect_failed m) i
    at_event-All false e timed_out i = event-All e timed_out i
    at_event-All false e (error_event m) i = event-All e (error_event m) i
    at_event-All false e (finished_event d) i = event-All e (finished_event d) i
    at_event-All false e progress_event i = event-All e progress_event i
    at_event-All false e (quote_event b n t) i = event-All e (quote_event b n t) i

    pub stream-All :
        (installed : Bool) (e : ValidateExpected F.Num) (evs : List Event)
        → I e
        → let s = stream F amount installed e evs in All Q s.delivered × I s.expected
    unfolding stream
    stream-All installed e [] i = (tt, i)
    stream-All installed e (ev ∷ evs) i =
        let now = at_event-All installed e ev i in
        let later =
          stream-All (installed_after F amount installed ev)
            (at_event F amount installed e ev).expected evs now.1 in
        (All-++ Q _ _ now.0 later.0, later.1)

  -- The expectation of the guard, whatever floor the quotes have set.
  abbrev ForAddress : String → ValidateExpected F.Num → Type 0
  ForAddress address e =
      (rate : Option F.Num) × (e
        ≡ record (expected_for F amount address) { min_received_rate = rate })

  with_rate-ForAddress :
      (address : String) (e : _) (o : Option String)
      → ForAddress address e
      → ForAddress address (with_rate F amount e o)
  with_rate-ForAddress address e none h = h
  with_rate-ForAddress address e (some b) h =
      elim (Bool-cases (
        is_positive_num F amount (F.parse_float b)
        && is_positive_num F amount (F.parse_float amount))) [
          | inl p ↦ rw p (
            _,
            ap {A = ValidateExpected F.Num}
                (λ x. record x {
                  min_received_rate = some (F.div (F.parse_float b) (F.parse_float amount));
                })
                h.1,
          )
          | inr n ↦ rw n h
        ]

  -- A call of the SDK's handler is with a frame that the guard accepts for the mediator account.
  abbrev pub IsGuarded : String → Call → Type 0
  IsGuarded address (forward_frame f) =
      (rate : Option F.Num) × IsForwardable F
        (record (expected_for F amount address) { min_received_rate = rate }) f
  IsGuarded address _ = Unit

  on_quote-ForAddress :
      (address : String) (e : _) (b n : Option String)
      → ForAddress address e
      → ForAddress address (on_quote F amount e b n)
  unfolding on_quote
  on_quote-ForAddress address e b n h = with_rate-ForAddress address e (first_of F amount b n) h

  expected_for-ForAddress : (address : String) → ForAddress address (expected_for F amount address)
  unfolding expected_for
  expected_for-ForAddress address = (none, refl)

  stream-IsGuarded :
      (address : String) (installed : Bool) (e : ValidateExpected F.Num) (evs : List Event)
      → ForAddress address e
      → let s = stream F amount installed e evs in
        All (IsGuarded address) s.delivered × ForAddress address s.expected
  stream-IsGuarded address installed e evs h =
      stream-All (ForAddress address) (IsGuarded address) (on_quote-ForAddress address) (λ f. tt)
        (λ x f i ok. (i.0, subst (λ y. IsForwardable F y f) i.1 ok)) installed e evs h

  -- What a run of events leaves behind that settles nothing.
  abbrev IsQuiet : ValidateExpected F.Num → List Event → Type 0
  IsQuiet e [] = Unit
  IsQuiet e (ev ∷ evs) =
      ((on_event F amount e ev).settled ≡ none) × IsQuiet (on_event F amount e ev).expected evs

  abbrev expected_after : ValidateExpected F.Num → List Event → ValidateExpected F.Num
  expected_after e [] = e
  expected_after e (ev ∷ evs) = expected_after (on_event F amount e ev).expected evs

  abbrev delivered_by : ValidateExpected F.Num → List Event → List Call
  delivered_by e [] = []
  delivered_by e (ev ∷ evs) =
      (on_event F amount e ev).delivered ++ delivered_by (on_event F amount e ev).expected evs

  -- Events that settle nothing leave the settlement to those behind them.
  stream-quiet :
      (e : ValidateExpected F.Num) (before rest : List Event)
      → IsQuiet e before
      → (stream F amount true e (before ++ rest)).settled
        ≡ (stream F amount true (expected_after e before) rest).settled
  unfolding stream
  stream-quiet e [] rest q = refl
  stream-quiet e (ev ∷ before) rest q =
      rw q.0 (stream-quiet (on_event F amount e ev).expected before rest q.1)

  -- What the handler hands over of events in a row.
  stream-delivered :
      (e : ValidateExpected F.Num) (before rest : List Event)
      → (stream F amount true e (before ++ rest)).delivered
        ≡ delivered_by e before ++ (stream F amount true (expected_after e before) rest).delivered
  unfolding stream
  stream-delivered e [] rest = refl
  stream-delivered e (ev ∷ before) rest =
      rw (stream-delivered (on_event F amount e ev).expected before rest) (simp append_assoc)

  pub stream_blocks :
      (e : ValidateExpected F.Num) (before after : List Event) (ops : List Op) (r : Reason)
      → IsQuiet e before
      → validate_streamed_tx F ops (expected_after e before) ≡ rejected r
      → let s = stream F amount true e (before ++ frame_event (tx_frame (some ops)) ∷ after) in
        (s.settled ≡ some (failed "guard-blocked"))
        × (s.delivered ≡ (stream F amount true e (before ++ after)).delivered)
  unfolding stream on_event
  stream_blocks e before after ops r q h = (
    rw (stream-quiet e before (frame_event (tx_frame (some ops)) ∷ after) q)
        (rw (guarded_tap_rejects F _ ops r h) refl),
    stream-delivered e before (frame_event (tx_frame (some ops)) ∷ after)
        ∙ rw (guarded_tap_rejects F _ ops r h) (sym (stream-delivered e before after)),
  )

  -- The expectation of the handler, if there is a client.
  abbrev TapFor : String → Tap F amount → Type 0
  TapFor address none = Unit
  TapFor address (some (installed, e)) = ForAddress address e

  heard-IsGuarded :
      (address : String) (tap : Tap F amount) (evs : List Event)
      → TapFor address tap
      → let h = heard F amount tap evs in All (IsGuarded address) h.0 × TapFor address h.1
  heard-IsGuarded address none evs h = (tt, tt)
  heard-IsGuarded address (some (installed, e)) evs h = stream-IsGuarded address installed e evs h

  dispose_from-IsGuarded :
      (address : String) (w : World) (backoff attempt left : ℕ) (tap : Tap F amount)
      → TapFor address tap
      → All (IsGuarded address) (dispose_from F amount w backoff attempt left tap).1
  unfolding dispose_from
  dispose_from-IsGuarded address w backoff attempt zero tap h = tt
  dispose_from-IsGuarded address w backoff attempt (suc left) tap h =
      let late = heard-IsGuarded address tap (w.during attempt) h in
      let pause = heard-IsGuarded address _ (w.waiting attempt) late.1 in
      let ih = dispose_from-IsGuarded address w backoff (suc attempt) left _ pause.1 in
      elim (Bool-cases (w.dispose_works attempt)) [
        | inl p ↦ rw p (tt, late.0)
        | inr n ↦ rw n (
          tt,
          All-++ (IsGuarded address) _ _ late.0 (elim (Bool-cases (ltb attempt 3)) [
            | inl p ↦ rw p (tt, All-++ (IsGuarded address) _ _ pause.0 ih)
            | inr m ↦ rw m ih
          ]),
        )
      ]

  streamed-IsGuarded :
      (setup : Option String) (address : String) (evs : List Event)
      → let s = streamed F amount setup address evs in
        All (IsGuarded address) s.calls × TapFor address s.tap
  streamed-IsGuarded (some message) address evs = (tt, tt)
  streamed-IsGuarded none address evs =
      let s = stream-IsGuarded address false _ evs (expected_for-ForAddress address) in
      (All-++ (IsGuarded address) _ (stop_client ∷ []) s.0 (tt, tt), s.1)

  -- Whatever the service sends and in whatever order, also after the swap has settled and while the
  -- funds are returned: each frame that the guard's handler hands to the SDK before the flow returns,
  -- which then signs with the mediator account's key, is one that the guard accepts for that account
  -- and that amount, or carries no transaction.
  pub execute_sb_mediator_swap-IsGuarded :
      (w : World) (backoff : ℕ) (address : String)
      → w.init ≡ init_done address
      → All (IsGuarded address) (execute_sb_mediator_swap F amount w backoff).1
  unfolding execute_sb_mediator_swap
  execute_sb_mediator_swap-IsGuarded w backoff address e =
      let s = streamed-IsGuarded w.setup_error address w.events in
      subst (λ i. All (IsGuarded address) (run_from F amount i w backoff).1) (sym e)
        (
          tt,
          All-++ (IsGuarded address) _ _ s.0 (dispose_from-IsGuarded address w backoff 1 3 _ s.1),
        )
