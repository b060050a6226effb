-- ===== src/App/Exec/Buttons.antt =====
-- web/public/app.js `execModal` and the exec row of the simulator: which buttons a state and a
-- ladder offer, and what a click runs.
use decant_fi.Common.{
  Bool, true, false, not, ◌&&◌, List, [], ◌∷◌, ◌++◌, Option, none, some, String, str_eq,
  if◌then◌else◌,
}
use decant_fi.Common.Float.{Floats}
use decant_fi.App.Choose.{Row, choose_exec}
use decant_fi.App.State.{
  target_code, leg1, leg2, Comp, ExecState, review, pending, done, error, sb_recover_needed,
  sb_blocked, sb_done, recovered, trustline_added, Page, World, Outcome,
}
use decant_fi.App.Exec.Broker.{recover_sb_mediators}
use decant_fi.App.Exec.Composite.{retry_composite_leg2, or_text, present}
use decant_fi.App.Exec.Start.{
  do_execute, do_execute_composite, do_execute_sb_direct, do_execute_sb_floor,
}
use decant_fi.App.Exec.Confirm.{confirm_execute}
use decant_fi.App.Exec.Trustline.{add_trustline, cancel_execute, on_modal_backdrop}

-- The `data-act` of a button.
pub data Action : Type 0 where
  click_cancel click_backdrop click_confirm click_recover click_retry : Action
  click_execute click_composite click_mediator click_floor : Action
  click_trustline : String → Action

module _ (F : Floats) where
  -- `comp && comp.leg === 2 && comp.usdcReceived != null`
  abbrev pub is_leg2_with : Option (Comp F.Num) → Bool
  is_leg2_with none = false
  is_leg2_with (some comp) = elim comp.leg [
    | leg1 ↦ false
    | leg2 ↦ elim comp.usdc_received [ none ↦ false | some n ↦ true ]
  ]

  abbrev is_leg1 : Option (Comp F.Num) → Bool
  is_leg1 none = false
  is_leg1 (some comp) = elim comp.leg [ leg1 ↦ true | leg2 ↦ false ]

  -- The button that resumes after a trustline was added.
  abbrev pub resume : Option (Comp F.Num) → Action
  resume comp =
      if is_leg2_with comp
      then click_retry
      else if is_leg1 comp
      then click_composite
      else click_execute

  abbrev pub is_trustline : Option String → Bool
  is_trustline none = false
  is_trustline (some code) = str_eq code "trustline"

  abbrev pub when : Bool → Action → List Action
  when b a = if b then a ∷ [] else []

  -- The enabled buttons of the modal, and its backdrop.
  unfoldable pub buttons : Page F.Num → ExecState F.Num → List Action
  buttons page (review b f c) =
      click_backdrop ∷ click_cancel ∷ when (not b.fee_warning) click_confirm
  buttons page (pending b h c) = click_backdrop ∷ click_cancel ∷ []
  buttons page (sb_recover_needed address c) = click_backdrop ∷ click_recover ∷ click_cancel ∷ []
  buttons page (sb_blocked c) = click_backdrop ∷ click_cancel ∷ []
  buttons page (sb_done finished c) = click_backdrop ∷ click_cancel ∷ []
  buttons page recovered = click_backdrop ∷ click_cancel ∷ []
  buttons page (done b h x c) = click_backdrop ∷ click_cancel ∷ []
  buttons page (trustline_added asset c) = click_backdrop ∷ click_cancel ∷ resume c ∷ []
  buttons page (error m code asset c) =
      let missing = or_text (present asset) (target_code page.target) in
      click_backdrop
      ∷ click_cancel
      ∷ (when (is_trustline code) (click_trustline missing)
          ++ when (is_leg2_with c && not (is_trustline code)) click_retry)
  buttons page _ = click_backdrop ∷ []

  abbrev pub row_legs : Option Row → Bool
  row_legs none = false
  row_legs (some r) = elim r.legs [ none ↦ false | some ls ↦ true ]

  abbrev pub row_is : String → Option Row → Bool
  row_is source none = false
  row_is source (some r) = str_eq r.source_id source

  abbrev pub not_integrated : Option Row → Bool
  not_integrated none = false
  not_integrated (some r) = not r.executable

  -- The buttons of the exec row.
  unfoldable pub exec_row : Page F.Num → List Action
  exec_row page =
      let exec = choose_exec page.selected page.sim in
      if row_legs exec.row
      then click_composite ∷ []
      else if row_is "stellarbroker" exec.row
      then click_mediator ∷ click_floor ∷ []
      else if not_integrated exec.sel_row
      then []
      else click_execute ∷ []

  -- The handler of a button, with the answers it gets and those that follow a restore.
  unfoldable pub run_action :
      Page F.Num → World F.Num → World F.Num → Action → Option (ExecState F.Num) → Outcome F.Num
  run_action page w again click_cancel s = cancel_execute s
  run_action page w again click_backdrop s = on_modal_backdrop s
  run_action page w again click_confirm s = confirm_execute F page w again s
  run_action page w again click_recover s = recover_sb_mediators page w s
  run_action page w again click_retry s = retry_composite_leg2 page w s
  run_action page w again click_execute s = do_execute F page w s
  run_action page w again click_composite s = do_execute_composite F page w s
  run_action page w again click_mediator s = do_execute_sb_direct F page w s
  run_action page w again click_floor s = do_execute_sb_floor F page w s
  run_action page w again (click_trustline asset) s = add_trustline page w (some asset) s
