-- ===== src/App/Exec/Restore.antt =====
-- What follows a restore transaction in a composite.
use decant_fi.Common.{
  ◌≡◌, refl, Bool, true, false, ◌∷◌, Option, none, some, String, In, here, there, subst, sym,
}
use decant_fi.Common.Float.{Floats}
use decant_fi.App.Choose.{Row, choose_exec, has_plus, Choice}
use decant_fi.App.State.{
  Build, Comp, ExecState, submitting, signed, submitted, BuildBody, Page, World, Effect, ask_build,
  Outcome,
}
use decant_fi.App.Exec.Composite.{start_composite_leg1}
use decant_fi.App.Exec.Start.{do_execute, can_sell, execute_row, past_guards}
use decant_fi.App.Exec.Confirm.{confirm_build}

module _ (F : Floats) (page : Page F.Num) where
  -- A build that sells the page's amount of BLND for USDC.
  abbrev pub IsBlndSale : BuildBody F.Num → Type 0
  IsBlndSale body = (body.pair ≡ "USDC") × (body.from ≡ none) × (body.amount ≡ some page.sim_amt)

  abbrev pub Sells : Outcome F.Num → Type 0
  Sells o = (body : BuildBody F.Num) × In (ask_build body) o.effects × IsBlndSale body

  leg1-Sells : (w : World F.Num) (r : Row) → Sells (start_composite_leg1 page w r)
  unfolding start_composite_leg1
  leg1-Sells w r = (_, here refl, (refl, refl, refl))

  row-Sells :
      (w : World F.Num) (c : Choice) (r : Row)
      → has_plus r.source_id ≡ true
      → Sells (execute_row F page w c (some r))
  row-Sells w c r e = rw e (leg1-Sells w r)

  after-Sells :
      (first : Effect F.Num) (o : Outcome F.Num)
      → Sells o
      → Sells (record o { effects = first ∷ o.effects })
  after-Sells first o (body, i, sale) = (body, there i, sale)

  guarded-Sells :
      (ready : Bool) (wallet : Option String) (s : Option (ExecState F.Num)) (o : Outcome F.Num)
      (address : String)
      → ready ≡ true
      → wallet ≡ some address
      → Sells o
      → Sells (past_guards F ready wallet s o)
  guarded-Sells true (some a) s o address e f h = h
  guarded-Sells true none s o address e f h = cc
  guarded-Sells false wallet s o address e f h = cc

  do_execute-Sells :
      (w : World F.Num) (s : Option (ExecState F.Num)) (r : Row) (address : String)
      → can_sell F page ≡ true
      → page.wallet ≡ some address
      → (choose_exec page.selected page.sim).row ≡ some r
      → has_plus r.source_id ≡ true
      → Sells (do_execute F page w s)
  unfolding do_execute
  do_execute-Sells w s r address ready wallet row plus =
      let c = choose_exec page.selected page.sim in
      guarded-Sells (can_sell F page) page.wallet s (execute_row F page w c c.row) address ready
        wallet (subst (λ o. Sells (execute_row F page w c o)) (sym row) (row-Sells w c r plus))

  -- A restore transaction that is signed and lands is followed by `doExecute`, whatever the context
  -- was: with a composite chosen, a build that sells the full amount of BLND for USDC is asked for
  -- again, for the user to confirm, even when the context is the second leg, with the USDC of the
  -- first one in hand.
  pub confirm_restore_resells :
      (w again : World F.Num) (b : Build) (comp : Option (Comp F.Num)) (r : Row)
      (address xdr hash : String)
      → b.restore ≡ true
      → w.sign b.xdr ≡ signed xdr
      → w.submit b.venue b.id xdr ≡ submitted hash
      → can_sell F page ≡ true
      → page.wallet ≡ some address
      → (choose_exec page.selected page.sim).row ≡ some r
      → has_plus r.source_id ≡ true
      → Sells (confirm_build F page w again b comp)
  unfolding confirm_build
  confirm_restore_resells w again b comp r address xdr hash restore sign submit ready wallet row
        plus =
      let sells =
        do_execute-Sells again (some (submitting b comp)) r address ready wallet row plus in
      let body = sells.0 in
      simp (sign, submit, restore) (body, there (there (there (there sells.1))), sells.2)
