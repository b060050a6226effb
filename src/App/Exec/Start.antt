-- ===== src/App/Exec/Start.antt =====
-- web/public/app.js `doExecute`, `doExecuteSbFloor`, `doExecuteComposite`, and the button of
-- `doExecuteSbMediator`: how an execution starts.
use decant_fi.Common.{
  Bool, true, false, not, ◌&&◌, List, [], ◌∷◌, Option, none, some, String, str_eq, find,
  if◌then◌else◌,
}
use decant_fi.Common.Float.{Floats}
use decant_fi.App.Choose.{Row, Choice, choose_exec, has_plus, leg_venue, ladder_of}
use decant_fi.App.State.{
  Message, connect_first, err_down, exec_failed, mapped, target_code, ExecState, review, error,
  BuildBody, BuildReply, build_down, build_refused, built, Page, World, show, ask_build, Outcome,
}
use decant_fi.App.Exec.Broker.{do_execute_sb_mediator, blnd_str, target_str}
use decant_fi.App.Exec.Composite.{start_composite_leg1}

module _ (F : Floats) where
  abbrev sim_given : Option (List Row) → Bool
  sim_given none = false
  sim_given (some rows) = true

  -- `!(!simResult || !simActive || simAmt <= 0)`
  abbrev pub can_sell : Page F.Num → Bool
  can_sell page = sim_given page.sim && page.sim_active && not (F.le page.sim_amt (F.lit 0 0))

  abbrev pub unchanged : Option (ExecState F.Num) → Outcome F.Num
  unchanged s = record { state = s; effects = [] }

  abbrev pub fails : Message → Outcome F.Num
  fails m =
      let after = error m none none none in record { state = some after; effects = show after ∷ [] }

  abbrev pub sell_body : Page F.Num → Option String → BuildBody F.Num
  sell_body page venue = record {
    pair = target_code page.target;
    from = none;
    amount = some page.sim_amt;
    sender = page.wallet;
    slippage_bps = page.slippage_bps;
    venue = venue;
  }

  abbrev sell_state : Bool → BuildReply F.Num → ExecState F.Num
  sell_state floor build_down = error err_down none none none
  sell_state floor (build_refused code message asset) = error (mapped code message) code none none
  sell_state floor (built b) = review b floor none

  abbrev pub sell : Page F.Num → World F.Num → Bool → Option String → Outcome F.Num
  sell page w floor venue =
      let body = sell_body page venue in
      let after = sell_state floor (w.build body) in
      record { state = some after; effects = ask_build body ∷ show after ∷ [] }

  abbrev pub executable_row : Option Row → Option Row
  executable_row none = none
  executable_row (some r) = if r.executable then some r else none

  abbrev pub venue_of : Option Row → Option Row → Option String
  venue_of (some r) win = some (leg_venue r.source_id)
  venue_of none none = none
  venue_of none (some r) = some (leg_venue r.source_id)

  -- The venue that is forced: that of the selected row if it is executable, else the winner's.
  abbrev pub forced_venue : Choice → Option String
  forced_venue c = venue_of (executable_row c.sel_row) (executable_row c.win_row)

  abbrev pub direct_mediator : Page F.Num → World F.Num → Outcome F.Num
  direct_mediator page w =
      do_execute_sb_mediator page w blnd_str (target_str page.target) page.sim_text none

  abbrev pub execute_row : Page F.Num → World F.Num → Choice → Option Row → Outcome F.Num
  execute_row page w c none = sell page w false (forced_venue c)
  execute_row page w c (some r) =
      if has_plus r.source_id
      then start_composite_leg1 page w r
      else if str_eq r.source_id "stellarbroker"
      then direct_mediator page w
      else sell page w false (forced_venue c)

  -- The early returns of a handler: the simulation, then the wallet.
  abbrev pub past_guards :
      Bool → Option String → Option (ExecState F.Num) → Outcome F.Num → Outcome F.Num
  past_guards false wallet s o = unchanged s
  past_guards true none s o = fails connect_first
  past_guards true (some address) s o = o

  abbrev pub guarded : Page F.Num → Option (ExecState F.Num) → Outcome F.Num → Outcome F.Num
  guarded page s o = past_guards (can_sell page) page.wallet s o

  unfoldable pub do_execute : Page F.Num → World F.Num → Option (ExecState F.Num) → Outcome F.Num
  do_execute page w s =
      let c = choose_exec page.selected page.sim in guarded page s (execute_row page w c c.row)

  pub do_execute_sb_floor : Page F.Num → World F.Num → Option (ExecState F.Num) → Outcome F.Num
  do_execute_sb_floor page w s = guarded page s (sell page w true (some "horizon"))

  -- The button: `doExecuteSbMediator()` without options.
  pub do_execute_sb_direct : Page F.Num → World F.Num → Option (ExecState F.Num) → Outcome F.Num
  do_execute_sb_direct page w s = guarded page s (direct_mediator page w)

  abbrev has_legs : Row → Bool
  has_legs r = elim r.legs [ none ↦ false | some ls ↦ has_plus r.source_id ]

  abbrev start_row : Page F.Num → World F.Num → Option Row → Outcome F.Num
  start_row page w none = fails exec_failed
  start_row page w (some r) = start_composite_leg1 page w r

  unfoldable pub do_execute_composite :
      Page F.Num → World F.Num → Option (ExecState F.Num) → Outcome F.Num
  do_execute_composite page w s =
      guarded page s (start_row page w (find has_legs (ladder_of page.sim)))
