-- ===== src/App/Exec/Shown.antt =====
-- The Execute button runs the row that is shown.
use decant_fi.Common.{
  ◌≡◌, refl, Bool, true, false, List, [], ◌∷◌, Option, none, some, String, In, here, there, subst,
  sym, ap, ◌∙◌, str_eq, if◌then◌else◌,
}
use decant_fi.Common.Float.{Floats}
use decant_fi.App.Choose.{Row, Choice, choose_exec, has_plus, leg_venue, or_row}
use decant_fi.App.State.{ExecState, Page, World, Outcome}
use decant_fi.App.Exec.Start.{
  do_execute, can_sell, execute_row, past_guards, sell, forced_venue, executable_row, venue_of,
}
use decant_fi.App.Exec.Buttons.{
  click_execute, click_composite, click_mediator, click_floor, exec_row, row_legs, row_is,
  not_integrated,
}

module _ (F : Floats) (page : Page F.Num) where
  -- What the offer of the plain button says of the row.
  offered :
      (row sel : Option Row) (legs broker dead : Bool)
      → In click_execute (
          if legs
          then click_composite ∷ []
          else if broker
          then click_mediator ∷ click_floor ∷ []
          else if dead
          then []
          else click_execute ∷ [])
      → (legs ≡ false) × (broker ≡ false)
  offered row sel true broker dead (here e) = cc
  offered row sel true broker dead (there i) = elim i [ ]
  offered row sel false true dead (here e) = cc
  offered row sel false true dead (there (here e)) = cc
  offered row sel false true dead (there (there i)) = elim i [ ]
  offered row sel false false dead i = (refl, refl)

  forced_lem :
      (sel win : Option Row) (r : Row)
      → or_row sel win ≡ some r
      → r.executable ≡ true
      → venue_of F (executable_row F sel) (executable_row F win) ≡ some (leg_venue r.source_id)
  forced_lem (some x) win r e ready =
      subst
        (λ o. venue_of F (executable_row F o) (executable_row F win) ≡ some (leg_venue r.source_id))
        (sym e) (simp ready refl)
  forced_lem none win r e ready =
      subst (λ o. venue_of F none (executable_row F o) ≡ some (leg_venue r.source_id)) (sym e)
        (simp ready refl)

  plain :
      (w : World F.Num) (c : Choice) (r : Row)
      → has_plus r.source_id ≡ false
      → str_eq r.source_id "stellarbroker" ≡ false
      → execute_row F page w c (some r) ≡ sell F page w false (forced_venue F c)
  plain w c r plus broker = rw plus (rw broker refl)

  guarded_lem :
      (ready : Bool) (wallet : Option String) (s : Option (ExecState F.Num)) (o : Outcome F.Num)
      (address : String)
      → ready ≡ true
      → wallet ≡ some address
      → past_guards F ready wallet s o ≡ o
  guarded_lem true (some a) s o address e f = refl
  guarded_lem true none s o address e f = cc
  guarded_lem false wallet s o address e f = cc

  legs_lem :
      (o : Option (List (Option String)))
      → (elim o [ none ↦ false | some ls ↦ true ]) ≡ false
      → o ≡ none
  legs_lem none h = refl
  legs_lem (some ls) h = cc

  -- When the plain Execute button is offered for an executable row that is shown, a click builds a
  -- swap at that row's source and nothing else, and that source is not the broker, which the server
  -- does not accept.
  pub do_execute_runs_shown :
      (w : World F.Num) (s : Option (ExecState F.Num)) (r : Row) (address : String)
      → can_sell F page ≡ true
      → page.wallet ≡ some address
      → (choose_exec page.selected page.sim).row ≡ some r
      → In click_execute (exec_row F page)
      → (r.legs ≡ none → has_plus r.source_id ≡ false)
      → r.executable ≡ true
      → leg_venue r.source_id ≡ r.source_id
      → (do_execute F page w s ≡ sell F page w false (some r.source_id))
        × (str_eq r.source_id "stellarbroker" ≡ false)
  unfolding do_execute exec_row choose_exec
  do_execute_runs_shown w s r address ready wallet row i legs executable clean =
      let c = choose_exec page.selected page.sim in
      let quiet =
        offered c.row c.sel_row (row_legs F c.row) (row_is F "stellarbroker" c.row)
          (not_integrated F c.sel_row) i in
      let no_plus = legs (legs_lem r.legs (subst (λ o. row_legs F o ≡ false) row quiet.0)) in
      let no_broker : str_eq r.source_id "stellarbroker" ≡ false =
        subst (λ o. row_is F "stellarbroker" o ≡ false) row quiet.1 in
      (
        guarded_lem (can_sell F page) page.wallet s (execute_row F page w c c.row) address ready
              wallet
            ∙ ap (execute_row F page w c) row
            ∙ plain w c r no_plus no_broker
            ∙ ap (sell F page w false)
                (forced_lem c.sel_row c.win_row r row executable ∙ ap some clean),
        no_broker,
      )
