-- ===== src/App/Exec/Tests.antt =====
-- The execution of a composite at concrete answers.
use decant_fi.Common.{
  ◌≡◌, refl, Bool, true, false, [], ◌∷◌, ◌++◌, Option, none, some, String, All, here, there, ◌==◌,
  inl, if◌then◌else◌, str_eq,
}
use decant_fi.Common.Int.{ℤ, pos}
use decant_fi.Common.Float.{fixed}
use decant_fi.Core.Amount.{is_space}
use decant_fi.App.Choose.{
  before_plus, trim_start_text, trim_end_text, Row, choose_exec, has_plus, leg_venue,
}
use decant_fi.App.State.{
  target_eurc, Build, Leg, err_down, leg1, leg2, Comp, ExecState, error, build_refused, built,
  signed, submitted, submit_pending, status_success, status_unknown, key_refused, Page, World,
  Outcome,
}
use decant_fi.App.Exec.Start.{do_execute, sell}
use decant_fi.App.Exec.Confirm.{poll_success, poll_tx_status, confirm_build, leg1_landed}
use decant_fi.App.Exec.Buttons.{click_retry, buttons, run_action, exec_row}
use decant_fi.App.Exec.Landing.{
  IsPolled, poll_tx_status-IsPolled, IsCareful, confirm_build-IsCareful,
}
use decant_fi.App.Exec.Arrival.{IsLeg1End, leg1_landed-IsLeg1End}
use decant_fi.App.Exec.Resell.{IsNoSale, IsHeld}
use decant_fi.App.Exec.Modal.{Clicks, stop, click, Clicks-IsNoSale}
use decant_fi.App.Exec.Restore.{Sells, confirm_restore_resells}
use decant_fi.App.Exec.Shown.{do_execute_runs_shown}

abbrev xbull : Row
xbull = record { source_id = "xbull"; winner = false; executable = true; legs = none }

abbrev composite : Row
composite = record {
  source_id = "xbull+aquarius";
  winner = true;
  executable = false;
  legs = some (some "xbull" ∷ some "aquarius" ∷ []);
}

abbrev page_with : Option String → Page ℤ
page_with selected = record {
  wallet = some "GUSER";
  sim = some (composite ∷ xbull ∷ []);
  sim_active = true;
  sim_amt = pos 5_000_000_000_000;
  sim_text = "5000";
  target = target_eurc;
  selected = selected;
  slippage_bps = 50;
}

abbrev page : Page ℤ
page = page_with none

abbrev build_with : Bool → Build
build_with restore = record {
  venue = "aquarius";
  id = none;
  xdr = "AAAA";
  restore = restore;
  review_target = some "EURC";
  fee_warning = false;
}

-- The transaction is confirmed at the third poll, the USDC is there at the second.
abbrev world : World ℤ
world = record {
  build = λ body. built (build_with false);
  usdc_before = some (pos 1_000_000_000);
  dest_before = none;
  sign = λ xdr. signed "BBBB";
  submit = λ venue id xdr. submit_pending "HASH";
  alive = λ k. true;
  status = λ k. if k == 2 then status_success else status_unknown;
  leg1_open = λ k. true;
  usdc_balance = λ k. if k == 0 then none else some (pos 3_000_000_000);
  done_open = λ k. true;
  dest_balance = λ k. none;
  elsewhere = none;
  broker = λ sell buy amount. key_refused;
  streaming_events = 2;
  build_trustline = λ asset. build_refused none none none;
  recovery_error = none;
  number_text = λ k. "2";
}

abbrev comp_at : Leg → Option ℤ → Comp ℤ
comp_at leg received = record {
  leg = leg;
  leg1_source = "xbull";
  leg2_source = some "aquarius";
  usdc_before = some (pos 1_000_000_000);
  usdc_received = received;
  hash1 = none;
}

guard : Unit {0}
unfolding poll_tx_status confirm_build do_execute choose_exec exec_row buttons has_plus leg_venue
    before_plus trim_start_text trim_end_text is_space
guard = tt

third_poll : poll_tx_status fixed world 0 20 ≡ poll_success
unfolding guard
third_poll = refl

poll_tx_status-IsPolled_example : IsPolled fixed world 0 20 (poll_tx_status fixed world 0 20)
poll_tx_status-IsPolled_example = poll_tx_status-IsPolled fixed world 0 20

confirm_build-IsCareful_example :
    IsCareful fixed world
      (build_with false)
      (confirm_build fixed page world world (build_with false) (some (comp_at leg1 none)))
confirm_build-IsCareful_example =
    confirm_build-IsCareful fixed world page world (build_with false) (some (comp_at leg1 none))

leg1_landed-IsLeg1End_example :
    IsLeg1End fixed page world
      (comp_at leg1 none)
      "HASH"
      (leg1_landed fixed page world (comp_at leg1 none) "HASH")
leg1_landed-IsLeg1End_example = leg1_landed-IsLeg1End fixed page world (comp_at leg1 none) "HASH"

-- The second leg has failed, with USDC in hand.
abbrev failed_leg2 : ExecState ℤ
failed_leg2 = error err_down none none (some (comp_at leg2 (some (pos 2_000_000_000))))

abbrev after_retry : Outcome ℤ
after_retry = run_action fixed page world world click_retry (some failed_leg2)

retried : Clicks fixed (some failed_leg2) (after_retry.effects ++ []) after_retry.state
unfolding guard
retried =
    click page world world failed_leg2 click_retry (there (there (here refl))) (λ b e. cc) refl stop

Clicks-IsNoSale_example :
    All (IsNoSale fixed (pos 2_000_000_000)) (after_retry.effects ++ [])
    × IsHeld fixed (pos 2_000_000_000) after_retry.state
Clicks-IsNoSale_example =
    Clicks-IsNoSale fixed (pos 2_000_000_000) (some failed_leg2) after_retry.state
      (after_retry.effects ++ []) retried (inl (refl, refl))

abbrev direct_world : World ℤ
direct_world = record world { submit = λ venue id xdr. submitted "HASH" }

confirm_restore_resells_example : Sells fixed page (
    confirm_build fixed page direct_world world
      (build_with true)
      (some (comp_at leg2 (some (pos 2_000_000_000)))))
unfolding guard
confirm_restore_resells_example =
    confirm_restore_resells fixed page direct_world world (build_with true)
      (some (comp_at leg2 (some (pos 2_000_000_000)))) composite "GUSER" "BBBB" "HASH" refl refl
      refl refl refl refl refl

do_execute_runs_shown_example :
    (do_execute fixed (page_with (some "xbull")) world none
      ≡ sell fixed (page_with (some "xbull")) world false (some "xbull"))
    × (str_eq "xbull" "stellarbroker" ≡ false)
unfolding guard
do_execute_runs_shown_example =
    do_execute_runs_shown fixed (page_with (some "xbull")) world none xbull "GUSER" refl refl refl
      (here refl) (λ e. refl) refl refl
