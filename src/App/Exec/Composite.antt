-- ===== src/App/Exec/Composite.antt =====
-- web/public/app.js `startCompositeLeg1`, `buildCompositeLeg2`, `retryCompositeLeg2`: the two swaps
-- of a composite. Each builds a transaction and shows it for review.
use decant_fi.Common.{
  ℕ, zero, suc, false, List, [], ◌∷◌, Option, none, some, String, if◌then◌else◌, str_eq,
}
use decant_fi.App.Choose.{Row, leg_venue, Dispatch, via_broker, via_server, choose_leg2_dispatch}
use decant_fi.App.State.{
  err_down, mapped, leg1, leg2, Comp, ExecState, review, error, leg1_confirming, BuildBody,
  BuildReply, build_down, build_refused, built, Page, World, show, ask_build, Outcome, comp_of,
}
use decant_fi.App.Exec.Broker.{do_execute_sb_mediator, usdc_str, eurc_str}

-- `compRow.legs && compRow.legs[0] && compRow.legs[0].sourceId`, falsy texts included.
abbrev pub present : Option String → Option String
present none = none
present (some s) = if str_eq s "" then none else some s

abbrev pub leg_source : ℕ → Option (List (Option String)) → Option String
leg_source i none = none
leg_source zero (some (l ∷ ls)) = present l
leg_source (suc zero) (some (_ ∷ l ∷ ls)) = present l
leg_source _ _ = none

abbrev pub or_text : Option String → String → String
or_text none b = b
or_text (some a) b = a

module _ {Num : Type 0} where
  abbrev pub first_comp : World Num → Row → Comp Num
  first_comp w row = record {
    leg = leg1;
    leg1_source = or_text (leg_source 0 row.legs) (leg_venue row.source_id);
    leg2_source = leg_source 1 row.legs;
    usdc_before = w.usdc_before;
    usdc_received = none;
    hash1 = none;
  }

  abbrev pub leg1_body : Page Num → Comp Num → BuildBody Num
  leg1_body page comp = record {
    pair = "USDC";
    from = none;
    amount = some page.sim_amt;
    sender = page.wallet;
    slippage_bps = page.slippage_bps;
    venue = some comp.leg1_source;
  }

  -- An unreachable server loses the context of the first leg.
  abbrev pub leg1_state : Comp Num → BuildReply Num → ExecState Num
  leg1_state comp build_down = error err_down none none none
  leg1_state comp (build_refused code message asset) =
      error (mapped code message) code asset (some comp)
  leg1_state comp (built b) = review b false (some comp)

  unfoldable pub start_composite_leg1 : Page Num → World Num → Row → Outcome Num
  start_composite_leg1 page w row =
      let comp = first_comp w row in
      let body = leg1_body page comp in
      let after = leg1_state comp (w.build body) in
      record { state = some after; effects = ask_build body ∷ show after ∷ [] }

  abbrev pub at_leg2 : Comp Num → Comp Num
  at_leg2 comp = record comp { leg = leg2 }

  abbrev pub leg2_body : Page Num → Comp Num → BuildBody Num
  leg2_body page comp = record {
    pair = "EURC";
    from = some "USDC";
    amount = comp.usdc_received;
    sender = page.wallet;
    slippage_bps = page.slippage_bps;
    venue = none;
  }

  abbrev pub leg2_state : Comp Num → BuildReply Num → ExecState Num
  leg2_state comp build_down = error err_down none none (some comp)
  leg2_state comp (build_refused code message asset) =
      error (mapped code message) code asset (some comp)
  leg2_state comp (built b) = review b false (some comp)

  -- `String(comp.usdcReceived)`
  abbrev amount_text : World Num → Option Num → String
  amount_text w none = "null"
  amount_text w (some n) = w.number_text n

  abbrev pub dispatch_leg2 : Page Num → World Num → Comp Num → Dispatch → Outcome Num
  dispatch_leg2 page w comp via_broker =
      do_execute_sb_mediator page w usdc_str eurc_str (amount_text w comp.usdc_received)
        (some (at_leg2 comp))
  dispatch_leg2 page w comp via_server =
      let body = leg2_body page comp in
      let after = leg2_state (at_leg2 comp) (w.build body) in
      record { state = some after; effects = ask_build body ∷ show after ∷ [] }

  unfoldable pub build_composite_leg2 : Page Num → World Num → Comp Num → Outcome Num
  build_composite_leg2 page w comp =
      dispatch_leg2 page w comp (choose_leg2_dispatch comp.leg2_source)

  abbrev pub shown_first : ExecState Num → Outcome Num → Outcome Num
  shown_first s o = record o { effects = show s ∷ o.effects }

  abbrev pub retry_with :
      Page Num → World Num → Option (ExecState Num) → Option (Comp Num) → Outcome Num
  retry_with page w s none = record { state = s; effects = [] }
  retry_with page w s (some comp) = elim comp.usdc_received [
    | none ↦ record { state = s; effects = [] }
    | some n ↦ shown_first (leg1_confirming comp) (build_composite_leg2 page w comp)
  ]

  abbrev pub comp_in : Option (ExecState Num) → Option (Comp Num)
  comp_in none = none
  comp_in (some s) = comp_of Num s

  unfoldable pub retry_composite_leg2 : Page Num → World Num → Option (ExecState Num) → Outcome Num
  retry_composite_leg2 page w s = retry_with page w s (comp_in s)
