-- ===== src/Broker/Flow/Attempts.antt =====
-- The calls that the flow makes itself, and its attempts to return the funds.
use decant_fi.Common.{
  zero, suc, ltb, if◌then◌else◌, ◌≡◌, refl, ap, ◌∙◌, inl, inr, ℕ, Bool, true, false, List, [], ◌∷◌,
  ◌++◌, Option, none, some, String, All, Bool-cases, ◌*◌,
}
use decant_fi.Common.Float.{Floats}
use decant_fi.Broker.Flow.{
  raw_frame, Tap, Event, heard, Call, init_mediator, forward_frame, stop_client, dispose, wait_ms,
  World, dispose_from, stream,
}
use decant_fi.Broker.Flow.Session.{stream-All}

-- What the attempts to empty the account do.
pub data Attempts (works : ℕ → Bool) (backoff : ℕ) : Bool → List Call → Type 0 where
  at_once : works 1 ≡ true → Attempts works backoff true (dispose 1 ∷ [])
  at_second :
      works 1 ≡ false
      → works 2 ≡ true
      → Attempts works backoff true (dispose 1 ∷ wait_ms (backoff * 1) ∷ dispose 2 ∷ [])
  at_third :
      works 1 ≡ false
      → works 2 ≡ false
      → works 3 ≡ true
      → Attempts works backoff true
          (dispose 1 ∷ wait_ms (backoff * 1) ∷ dispose 2 ∷ wait_ms (backoff * 2) ∷ dispose 3 ∷ [])
  never :
      works 1 ≡ false
      → works 2 ≡ false
      → works 3 ≡ false
      → Attempts works backoff false
          (dispose 1 ∷ wait_ms (backoff * 1) ∷ dispose 2 ∷ wait_ms (backoff * 2) ∷ dispose 3 ∷ [])

-- The attempts where no frame arrives.
quiet_from : (ℕ → Bool) → ℕ → ℕ → ℕ → Bool × List Call
quiet_from works backoff attempt zero = (false, [])
quiet_from works backoff attempt (suc left) =
    let again = quiet_from works backoff (suc attempt) left in
    if works attempt then (true, dispose attempt ∷ []) else (
      again.0,
      dispose attempt
          ∷ ((if ltb attempt 3 then wait_ms (backoff * attempt) ∷ [] else []) ++ again.1),
    )

quiet_lem :
    (works : ℕ → Bool) (backoff : ℕ)
    → let d = quiet_from works backoff 1 3 in Attempts works backoff d.0 d.1
unfolding quiet_from
quiet_lem works backoff = elim (Bool-cases (works 1)) [
  | inl a ↦ rw a (at_once a)
  | inr a ↦ elim (Bool-cases (works 2)) [
    | inl b ↦ rw a (rw b (at_second a b))
    | inr b ↦ elim (Bool-cases (works 3)) [
      | inl c ↦ rw a (rw b (rw c (at_third a b c)))
      | inr c ↦ rw a (rw b (rw c (never a b c)))
    ]
  ]
]

-- What the flow does itself: all calls but the frames that reach the SDK.
abbrev pub own_calls : List Call → List Call
own_calls [] = []
own_calls (forward_frame f ∷ calls) = own_calls calls
own_calls (raw_frame f ∷ calls) = own_calls calls
own_calls (init_mediator ∷ calls) = init_mediator ∷ own_calls calls
own_calls (stop_client ∷ calls) = stop_client ∷ own_calls calls
own_calls (dispose n ∷ calls) = dispose n ∷ own_calls calls
own_calls (wait_ms n ∷ calls) = wait_ms n ∷ own_calls calls

pub own_calls-append : (a b : List Call) → own_calls (a ++ b) ≡ own_calls a ++ own_calls b
own_calls-append [] b = refl
own_calls-append (forward_frame f ∷ a) b = own_calls-append a b
own_calls-append (raw_frame f ∷ a) b = own_calls-append a b
own_calls-append (init_mediator ∷ a) b = ap (λ l. init_mediator ∷ l) (own_calls-append a b)
own_calls-append (stop_client ∷ a) b = ap (λ l. stop_client ∷ l) (own_calls-append a b)
own_calls-append (dispose n ∷ a) b = ap (λ l. dispose n ∷ l) (own_calls-append a b)
own_calls-append (wait_ms n ∷ a) b = ap (λ l. wait_ms n ∷ l) (own_calls-append a b)

-- A frame that reaches the SDK.
abbrev IsFrame : Call → Type 0
IsFrame (forward_frame f) = Unit
IsFrame (raw_frame f) = Unit
IsFrame _ = ⊥

own_calls-frames : (a : List Call) → All IsFrame a → own_calls a ≡ []
own_calls-frames [] h = refl
own_calls-frames (forward_frame f ∷ a) h = own_calls-frames a h.1
own_calls-frames (raw_frame f ∷ a) h = own_calls-frames a h.1
own_calls-frames (init_mediator ∷ a) h = absurd h.0
own_calls-frames (stop_client ∷ a) h = absurd h.0
own_calls-frames (dispose n ∷ a) h = absurd h.0
own_calls-frames (wait_ms n ∷ a) h = absurd h.0

-- The client is stopped once it exists.
abbrev pub stops : Option String → List Call
stops (some message) = []
stops none = stop_client ∷ []

module _ (F : Floats) (amount : String) where
  heard-all : (tap : Tap F amount) (evs : List Event) → own_calls (heard F amount tap evs).0 ≡ []
  heard-all none evs = refl
  heard-all (some (installed, e)) evs =
      own_calls-frames _
        (stream-All F amount (λ x. Unit) IsFrame (λ x b n i. tt) (λ f. tt) (λ x f i h. tt) installed
          e evs tt).0

  pub heard-quiet :
      (tap : Tap F amount) (evs : List Event) (rest : List Call)
      → own_calls ((heard F amount tap evs).0 ++ rest) ≡ own_calls rest
  heard-quiet none evs rest = refl
  heard-quiet (some (installed, e)) evs rest =
      own_calls-append (stream F amount installed e evs).delivered rest
      ∙ ap (λ l. l ++ own_calls rest) (heard-all (some (installed, e)) evs)

  own_calls-dispose_from :
      (w : World) (backoff attempt left : ℕ) (tap : Tap F amount)
      → let d = dispose_from F amount w backoff attempt left tap in
        let own = quiet_from w.dispose_works backoff attempt left in
        (d.0 ≡ own.0) × (own_calls d.1 ≡ own.1)
  unfolding dispose_from quiet_from
  own_calls-dispose_from w backoff attempt zero tap = (refl, refl)
  own_calls-dispose_from w backoff attempt (suc left) tap =
      let late = heard F amount tap (w.during attempt) in
      let pause = heard F amount late.1 (w.waiting attempt) in
      let again = own_calls-dispose_from w backoff (suc attempt) left pause.1 in
      let next = (dispose_from F amount w backoff (suc attempt) left pause.1).1 in
      elim (Bool-cases (w.dispose_works attempt)) [
        | inl p ↦ rw p (refl, ap (λ l. dispose attempt ∷ l) (heard-all tap (w.during attempt)))
        | inr n ↦ rw n (
          again.0,
          elim (Bool-cases (ltb attempt 3)) [
            | inl q ↦ rw q (
                ap (λ l. dispose attempt ∷ l)
                  (heard-quiet tap (w.during attempt)
                      (wait_ms (backoff * attempt) ∷ (pause.0 ++ next))
                    ∙ ap (λ l. wait_ms (backoff * attempt) ∷ l)
                        (heard-quiet late.1 (w.waiting attempt) next ∙ again.1)))
            | inr q ↦
                rw q (
                  ap (λ l. dispose attempt ∷ l) (heard-quiet tap (w.during attempt) next ∙ again.1))
          ],
        )
      ]

  pub attempts_lem :
      (w : World) (backoff : ℕ) (tap : Tap F amount)
      → let d = dispose_from F amount w backoff 1 3 tap in
        Attempts w.dispose_works backoff d.0 (own_calls d.1)
  attempts_lem w backoff tap =
      let own = own_calls-dispose_from w backoff 1 3 tap in
      rw own.0 (rw own.1 (quiet_lem w.dispose_works backoff))
