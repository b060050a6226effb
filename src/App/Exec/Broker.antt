-- ===== src/App/Exec/Broker.antt =====
-- web/public/app.js `doExecuteSbMediator`: a swap by the broker's mediator flow.
use decant_fi.Common.{[], ◌∷◌, ◌++◌, Option, none, some, String, str_eq, replicate, if◌then◌else◌}
use decant_fi.Broker.Flow.{FlowResult}
use decant_fi.App.State.{
  Target, target_usdc, target_eurc, Message, connect_first, exec_failed, sb_not_configured, plain,
  thrown, Comp, funding, streaming, ExecState, error, sb_mediator, sb_recover_needed, sb_blocked,
  sb_done, BrokerReply, key_refused, broker_threw, swapped, Page, World, show, ask_broker,
  ask_recovery, recovering, recovered, Outcome,
}

abbrev pub blnd_str : String
blnd_str = "BLND-GDJEHTBE6ZHUXSWFI642DCGLUOECLHPF3KSXHPXTSTJ7E3JF6MQ5EZYY"

abbrev pub usdc_str : String
usdc_str = "USDC-GA5ZSEJYB37JRC5AVCIA5MOP4RHTM335X2KGX3IHOJAPP5RE34K4KZVN"

abbrev pub eurc_str : String
eurc_str = "EURC-GDHU6WRG4IEQXM5NZ4BMPKOXHW76MZM4Y2IEMFDVXBSDP6SJY4ITNPP2"

-- `SB_ASSET_STRS[target]`
abbrev pub target_str : Target → String
target_str target_usdc = usdc_str
target_str target_eurc = eurc_str

-- `res.error || t('exec_failed')`
abbrev pub error_or_failed : Option String → Message
error_or_failed none = exec_failed
error_or_failed (some m) = if str_eq m "" then exec_failed else plain m

module _ {Num : Type 0} where
  abbrev pub finished_state : FlowResult → Option String → Option (Comp Num) → ExecState Num
  finished_state res none comp = error (error_or_failed res.error) none none comp
  finished_state res (some detail) comp =
      if res.ok then sb_done detail comp else error (error_or_failed res.error) none none comp

  -- What the result of the flow shows.
  unfoldable pub result_state : FlowResult → Option (Comp Num) → ExecState Num
  result_state res comp =
      if res.needs_recovery
      then sb_recover_needed res.mediator_address comp
      else if res.blocked
      then sb_blocked comp
      else finished_state res res.finished comp

  abbrev pub run_broker :
      World Num → String → String → String → Option (Comp Num) → BrokerReply Num → Outcome Num
  run_broker w sell buy amount comp key_refused =
      let after = error sb_not_configured none none comp in
      record { state = some after; effects = show (sb_mediator funding comp) ∷ show after ∷ [] }
  run_broker w sell buy amount comp (broker_threw m) =
      let after = error (thrown m) none none comp in
      record {
        state = some after;
        effects = show (sb_mediator funding comp) ∷ ask_broker sell buy amount ∷ show after ∷ [];
      }
  run_broker w sell buy amount comp (swapped res) =
      let after = result_state res comp in
      record {
        state = some after;
        effects =
            show (sb_mediator funding comp)
            ∷ ask_broker sell buy amount
            ∷ (replicate w.streaming_events (show (sb_mediator streaming comp)) ++ show after ∷ []);
      }

  abbrev pub with_wallet :
      Option String → World Num → String → String → String → Option (Comp Num) → Outcome Num
  with_wallet none w sell buy amount comp =
      let after = error connect_first none none none in
      record { state = some after; effects = show after ∷ [] }
  with_wallet (some address) w sell buy amount comp =
      run_broker w sell buy amount comp (w.broker sell buy amount)

  -- `doExecuteSbMediator(opts)`, its options given: the second leg of a composite.
  unfoldable pub do_execute_sb_mediator :
      Page Num → World Num → String → String → String → Option (Comp Num) → Outcome Num
  do_execute_sb_mediator page w sell buy amount comp =
      with_wallet page.wallet w sell buy amount comp

  abbrev pub recovery_state : Option String → ExecState Num
  recovery_state none = recovered
  recovery_state (some m) = error (thrown m) none none none

  abbrev pub recover_with : Option String → World Num → Option (ExecState Num) → Outcome Num
  recover_with none w s = record { state = s; effects = [] }
  recover_with (some address) w s =
      let after = recovery_state w.recovery_error in
      record {
        state = some after;
        effects =
            show (recovering funding)
            ∷ show (recovering streaming)
            ∷ ask_recovery
            ∷ show after
            ∷ [];
      }

  -- `recoverSbMediators`
  unfoldable pub recover_sb_mediators : Page Num → World Num → Option (ExecState Num) → Outcome Num
  recover_sb_mediators page w s = recover_with page.wallet w s
