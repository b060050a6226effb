-- ===== src/App/Exec/Confirm.antt =====
-- web/public/app.js `pollTxStatus`, `confirmExecute`: signing, submitting, and what follows once the
-- transaction has landed.
use decant_fi.Common.{
  ℕ, zero, suc, Bool, true, false, [], ◌∷◌, Option, none, some, String, if◌then◌else◌,
}
use decant_fi.Common.Float.{Floats}
use decant_fi.App.State.{
  exec_failed, mapped, thrown, Build, leg1, leg2, Comp, ExecState, signing, submitting, confirming,
  pending, leg1_confirming, done, error, SignReply, signed, sign_threw, SubmitReply, submit_threw,
  submit_refused, submitted, submit_pending, StatusReply, status_success, status_failed,
  status_unknown, Page, World, Effect, show, ask_sign, ask_submit, Outcome, comp_of, build_of,
}
use decant_fi.App.Exec.Composite.{build_composite_leg2, shown_first}
use decant_fi.App.Exec.Start.{do_execute, unchanged}

pub data Polled : Type 0 where
  poll_success poll_failed poll_pending poll_aborted : Polled

pub data UsdcPoll (Num : Type 0) : Type 0 where
  closed : UsdcPoll Num
  -- what arrived, and the first balance that was read
  ended : Option Num → Option Num → UsdcPoll Num

module _ (F : Floats) where
  -- One round of the poll on what the server says.
  abbrev pub after_status : StatusReply F.Num → Polled → Polled
  after_status status_success rest = poll_success
  after_status status_failed rest = poll_failed
  after_status status_unknown rest = rest

  -- From the poll number `i`, with so many left.
  unfoldable pub poll_tx_status : World F.Num → ℕ → ℕ → Polled
  poll_tx_status w i zero = poll_pending
  poll_tx_status w i (suc left) =
      let rest = poll_tx_status w (suc i) left in
      if w.alive i then after_status (w.status i) rest else poll_aborted

  abbrev pub or_num : Option F.Num → F.Num → F.Num
  or_num none b = b
  or_num (some a) b = a

  -- `bal > before + 1e-7`
  abbrev pub arrived : F.Num → F.Num → Bool
  arrived before balance = F.lt (F.add before (F.lit 1 7)) balance

  abbrev pub if_arrived : F.Num → F.Num → F.Num → UsdcPoll F.Num → UsdcPoll F.Num
  if_arrived reference first bal more =
      if arrived reference bal then ended (some (F.sub bal reference)) (some first) else more

  -- One round: the modal is open or not, and a balance is read or not.
  abbrev pub usdc_round :
      Option F.Num
      → Option F.Num
      → Bool
      → Option F.Num
      → UsdcPoll F.Num
      → (F.Num → UsdcPoll F.Num)
      → UsdcPoll F.Num
  usdc_round before initial false reading skipped more = closed
  usdc_round before initial true none skipped more = skipped
  usdc_round before initial true (some bal) skipped more =
      let first = or_num initial bal in if_arrived (or_num before first) first bal (more first)

  -- The poll of the USDC balance after the first leg.
  unfoldable pub poll_usdc : World F.Num → Option F.Num → Option F.Num → ℕ → ℕ → UsdcPoll F.Num
  poll_usdc w before initial i zero = ended none initial
  poll_usdc w before initial i (suc left) =
      usdc_round before initial (w.leg1_open i) (w.usdc_balance i)
        (poll_usdc w before initial (suc i) left)
        (λ first. poll_usdc w before (some first) (suc i) left)

  -- `Math.max(0, d)`
  abbrev pub at_least_zero : F.Num → F.Num
  at_least_zero d = if F.le d (F.lit 0 0) then F.lit 0 0 else d

  -- What the second leg is given.
  abbrev pub received_of : Option F.Num → Option F.Num → Option F.Num → Option F.Num
  received_of (some r) initial before = some r
  received_of none (some initial) (some before) = some (at_least_zero (F.sub initial before))
  received_of none _ _ = none

  -- The poll that fills in the amount received.
  pub poll_executed : World F.Num → F.Num → ℕ → ℕ → Option F.Num
  poll_executed w before i zero = none
  poll_executed w before i (suc left) =
      let rest = poll_executed w before (suc i) left in
      elim (w.dest_balance i) [
        | none ↦ if w.done_open i then rest else none
        | some bal ↦
            if w.done_open i
            then (if arrived before bal then some (F.sub bal before) else rest)
            else none
      ]

  abbrev pub after_shown : ExecState F.Num → Outcome F.Num
  after_shown s = record { state = some s; effects = show s ∷ [] }

  abbrev pub continue_leg2 : Page F.Num → World F.Num → Comp F.Num → UsdcPoll F.Num → Outcome F.Num
  continue_leg2 page w comp closed = record { state = w.elsewhere; effects = [] }
  continue_leg2 page w comp (ended received initial) =
      let next = record comp { usdc_received = received_of received initial comp.usdc_before } in
      shown_first (leg1_confirming next) (build_composite_leg2 page w next)

  -- The first leg has landed.
  abbrev pub leg1_landed : Page F.Num → World F.Num → Comp F.Num → String → Outcome F.Num
  leg1_landed page w comp hash =
      let waiting = record comp { hash1 = some hash } in
      shown_first (leg1_confirming waiting)
        (continue_leg2 page w waiting (poll_usdc w comp.usdc_before none 0 10))

  abbrev pub executed_of : World F.Num → Option F.Num → Option F.Num
  executed_of w none = none
  executed_of w (some before) = poll_executed w before 0 10

  -- A single swap, or the second leg, has landed. The amount received is filled in when it is read.
  abbrev pub all_done : World F.Num → Build → String → Option (Comp F.Num) → Outcome F.Num
  all_done w build hash comp = record {
    state = some (done build hash (executed_of w w.dest_before) comp);
    effects = show (done build hash none comp) ∷ [];
  }

  abbrev pub done_or_leg2 :
      Page F.Num → World F.Num → Build → String → Option (Comp F.Num) → Outcome F.Num
  done_or_leg2 page w build hash none = all_done w build hash none
  done_or_leg2 page w build hash (some comp) = elim comp.leg [
    | leg1 ↦ leg1_landed page w comp hash
    | leg2 ↦ all_done w build hash (some comp)
  ]

  -- A restore is followed by a fresh execution, with the answers `again`.
  abbrev pub landed :
      Page F.Num
      → World F.Num
      → World F.Num
      → Build
      → String
      → Option (Comp F.Num)
      → ExecState F.Num
      → Outcome F.Num
  landed page w again build hash comp now =
      if build.restore
      then do_execute F page again (some now)
      else done_or_leg2 page w build hash comp

  abbrev pub polled :
      Page F.Num
      → World F.Num
      → World F.Num
      → Build
      → String
      → Option (Comp F.Num)
      → Polled
      → Outcome F.Num
  polled page w again build hash comp poll_aborted = record { state = w.elsewhere; effects = [] }
  polled page w again build hash comp poll_failed = after_shown (error exec_failed none none comp)
  polled page w again build hash comp poll_pending = after_shown (pending build hash comp)
  polled page w again build hash comp poll_success =
      landed page w again build hash comp (confirming build hash comp)

  abbrev pub answered :
      Page F.Num
      → World F.Num
      → World F.Num
      → Build
      → Option (Comp F.Num)
      → SubmitReply F.Num
      → Outcome F.Num
  answered page w again build comp (submit_threw m) = after_shown (error (thrown m) none none comp)
  answered page w again build comp (submit_refused code message asset) =
      after_shown (error (mapped code message) code asset comp)
  answered page w again build comp (submitted hash) =
      landed page w again build hash comp (submitting build comp)
  answered page w again build comp (submit_pending hash) =
      shown_first (confirming build hash comp)
        (polled page w again build hash comp (poll_tx_status w 0 20))

  abbrev pub after_effect : Effect F.Num → Outcome F.Num → Outcome F.Num
  after_effect e o = record o { effects = e ∷ o.effects }

  abbrev pub submit_signed :
      Page F.Num
      → World F.Num
      → World F.Num
      → Build
      → Option (Comp F.Num)
      → SignReply F.Num
      → Outcome F.Num
  submit_signed page w again build comp (sign_threw m) =
      after_shown (error (thrown m) none none comp)
  submit_signed page w again build comp (signed xdr) = shown_first (submitting build comp) (
      after_effect (ask_submit build.venue build.id xdr)
        (answered page w again build comp (w.submit build.venue build.id xdr)))

  unfoldable pub confirm_build :
      Page F.Num → World F.Num → World F.Num → Build → Option (Comp F.Num) → Outcome F.Num
  confirm_build page w again build comp =
      shown_first (signing build comp) (
        after_effect (ask_sign build.xdr)
          (submit_signed page w again build comp (w.sign build.xdr)))

  abbrev confirm_with :
      Page F.Num → World F.Num → World F.Num → ExecState F.Num → Option Build → Outcome F.Num
  confirm_with page w again s none = unchanged F (some s)
  confirm_with page w again s (some build) = confirm_build page w again build (comp_of F.Num s)

  unfoldable pub confirm_execute :
      Page F.Num → World F.Num → World F.Num → Option (ExecState F.Num) → Outcome F.Num
  confirm_execute page w again none = unchanged F none
  confirm_execute page w again (some s) = confirm_with page w again s (build_of F.Num s)
