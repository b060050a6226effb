-- ===== src/App/Exec/Resell.antt =====
-- Once the first leg has paid out, the modal never sells BLND again.
use decant_fi.Common.{
  ◌≡◌, refl, ◌⊎◌, inl, inr, ℕ, false, [], ◌∷◌, Option, none, some, String, All, All-++, Bool-cases,
  replicate, zero, suc,
}
use decant_fi.Common.Float.{Floats}
use decant_fi.Broker.Flow.{FlowResult}
use decant_fi.App.Choose.{Dispatch, via_broker, via_server, choose_leg2_dispatch}
use decant_fi.App.State.{
  Build, leg2, Comp, ExecState, error, sb_mediator, recovered, streaming, BuildReply, build_down,
  build_refused, built, SignReply, signed, sign_threw, SubmitReply, submit_threw, submit_refused,
  submitted, submit_pending, BrokerReply, key_refused, broker_threw, swapped, Page, World, Effect,
  show, ask_build, ask_broker, Outcome, comp_of,
}
use decant_fi.App.Exec.Broker.{
  do_execute_sb_mediator, usdc_str, result_state, with_wallet, run_broker, finished_state,
}
use decant_fi.App.Exec.Composite.{
  build_composite_leg2, retry_composite_leg2, dispatch_leg2, leg2_state, at_leg2, retry_with,
}
use decant_fi.App.Exec.Confirm.{
  Polled, poll_success, poll_failed, poll_pending, poll_aborted, confirm_build, answered, polled,
  landed, submit_signed, poll_tx_status, done_or_leg2,
}
use decant_fi.App.Exec.Trustline.{
  add_trustline, cancel_execute, on_modal_backdrop, add_for, asset_to_add, closes_on_backdrop,
  submit_trustline, sign_trustline, build_trustline_then,
}

module _ (F : Floats) (n : F.Num) where
  -- A request that sells USDC, or none that sells.
  abbrev pub IsNoSale : Effect F.Num → Type 0
  IsNoSale (ask_build body) = body.from ≡ some "USDC"
  IsNoSale (ask_broker sell buy amount) = sell ≡ usdc_str
  IsNoSale _ = Unit

  -- The second leg, with the given amount of USDC in hand.
  abbrev pub HoldsUsdc : Option (Comp F.Num) → Type 0
  HoldsUsdc none = ⊥
  HoldsUsdc (some comp) = (comp.leg ≡ leg2) × (comp.usdc_received ≡ some n)

  -- A message that leads nowhere.
  abbrev pub IsIdle : ExecState F.Num → Type 0
  IsIdle (error m none asset none) = Unit
  IsIdle recovered = Unit
  IsIdle _ = ⊥

  abbrev pub IsHeld : Option (ExecState F.Num) → Type 0
  IsHeld none = Unit
  IsHeld (some s) = HoldsUsdc (comp_of F.Num s) ⊎ IsIdle s

  abbrev pub IsSafe : Outcome F.Num → Type 0
  IsSafe o = All IsNoSale o.effects × IsHeld o.state

  streaming-All :
      (k : ℕ) (comp : Option (Comp F.Num))
      → All IsNoSale (replicate k (show (sb_mediator streaming comp)))
  streaming-All zero comp = tt
  streaming-All (suc k) comp = (tt, streaming-All k comp)

  finished-IsHeld :
      (res : FlowResult) (finished : Option String) (comp : Option (Comp F.Num))
      → HoldsUsdc comp
      → IsHeld (some (finished_state res finished comp))
  finished-IsHeld res none comp h = inl h
  finished-IsHeld res (some d) comp h = elim (Bool-cases res.ok) [
    | inl e ↦ rw e (inl h)
    | inr e ↦ rw e (inl h)
  ]

  result-IsHeld :
      (res : FlowResult) (comp : Option (Comp F.Num))
      → HoldsUsdc comp
      → IsHeld (some (result_state res comp))
  unfolding result_state
  result-IsHeld res comp h = elim (Bool-cases res.needs_recovery) [
    | inl e ↦ rw e (inl h)
    | inr e ↦ elim (Bool-cases res.blocked) [
      | inl f ↦ rw e (rw f (inl h))
      | inr f ↦ rw e (rw f (finished-IsHeld res res.finished comp h))
    ]
  ]

  broker-IsSafe :
      (w : World F.Num) (buy amount : String) (comp : Option (Comp F.Num)) (r : BrokerReply F.Num)
      → HoldsUsdc comp
      → IsSafe (run_broker w usdc_str buy amount comp r)
  broker-IsSafe w buy amount comp key_refused h = ((tt, (tt, tt)), inl h)
  broker-IsSafe w buy amount comp (broker_threw m) h = ((tt, (refl, (tt, tt))), inl h)
  broker-IsSafe w buy amount comp (swapped res) h = (
    (
      tt,
      (
        refl,
        All-++ IsNoSale (replicate w.streaming_events (show (sb_mediator streaming comp)))
            (show (result_state res comp) ∷ []) (streaming-All w.streaming_events comp) (tt, tt),
      ),
    ),
    result-IsHeld res comp h,
  )

  wallet-IsSafe :
      (wallet : Option String) (w : World F.Num) (buy amount : String) (comp : Option (Comp F.Num))
      → HoldsUsdc comp
      → IsSafe (with_wallet wallet w usdc_str buy amount comp)
  wallet-IsSafe none w buy amount comp h = ((tt, tt), inr tt)
  wallet-IsSafe (some address) w buy amount comp h = broker-IsSafe w buy amount comp _ h

  leg2_state-IsHeld :
      (comp : Comp F.Num) (r : BuildReply F.Num)
      → HoldsUsdc (some comp)
      → IsHeld (some (leg2_state comp r))
  leg2_state-IsHeld comp build_down h = inl h
  leg2_state-IsHeld comp (build_refused code message asset) h = inl h
  leg2_state-IsHeld comp (built b) h = inl h

  -- The second leg is built from USDC, and the context is kept.
  build_composite_leg2-IsSafe :
      (page : Page F.Num) (w : World F.Num) (comp : Comp F.Num)
      → comp.usdc_received ≡ some n
      → IsSafe (build_composite_leg2 page w comp)
  unfolding build_composite_leg2 do_execute_sb_mediator
  build_composite_leg2-IsSafe page w comp e = dispatched (choose_leg2_dispatch comp.leg2_source)
    where
      dispatched : (d : Dispatch) → IsSafe (dispatch_leg2 page w comp d)
      dispatched via_broker = wallet-IsSafe page.wallet w _ _ (some (at_leg2 comp)) (refl, e)
      dispatched via_server = ((refl, (tt, tt)), leg2_state-IsHeld (at_leg2 comp) _ (refl, e))

  pub retry-IsSafe :
      (page : Page F.Num) (w : World F.Num) (s : ExecState F.Num)
      → HoldsUsdc (comp_of F.Num s)
      → IsSafe (retry_composite_leg2 page w (some s))
  unfolding retry_composite_leg2
  retry-IsSafe page w s h = held (comp_of F.Num s) h
    where
      held : (c : Option (Comp F.Num)) → HoldsUsdc c → IsSafe (retry_with page w (some s) c)
      held none k = elim k [ ]
      held (some comp) k =
          let safe = build_composite_leg2-IsSafe page w comp k.1 in simp k.1 ((tt, safe.0), safe.1)

  module _ (page : Page F.Num) (w again : World F.Num) (b : Build) (comp : Option (Comp F.Num))
      (h : HoldsUsdc comp) (ready : b.restore ≡ false) (gone : w.elsewhere ≡ none) where
    done-IsSafe :
        (hash : String) (c : Option (Comp F.Num))
        → HoldsUsdc c
        → IsSafe (done_or_leg2 F page w b hash c)
    done-IsSafe hash none k = elim k [ ]
    done-IsSafe hash (some c) k = simp k.0 ((tt, tt), inl (refl, k.1))

    landed-IsSafe :
        (hash : String) (now : ExecState F.Num) → IsSafe (landed F page w again b hash comp now)
    landed-IsSafe hash now = simp ready (done-IsSafe hash comp h)

    polled-IsSafe : (hash : String) (r : Polled) → IsSafe (polled F page w again b hash comp r)
    polled-IsSafe hash poll_aborted = (tt, rw gone tt)
    polled-IsSafe hash poll_failed = ((tt, tt), inl h)
    polled-IsSafe hash poll_pending = ((tt, tt), inl h)
    polled-IsSafe hash poll_success = landed-IsSafe hash _

    answered-IsSafe : (r : SubmitReply F.Num) → IsSafe (answered F page w again b comp r)
    answered-IsSafe (submit_threw m) = ((tt, tt), inl h)
    answered-IsSafe (submit_refused code message asset) = ((tt, tt), inl h)
    answered-IsSafe (submitted hash) = landed-IsSafe hash _
    answered-IsSafe (submit_pending hash) =
        let safe = polled-IsSafe hash (poll_tx_status F w 0 20) in ((tt, safe.0), safe.1)

    signed-IsSafe : (r : SignReply F.Num) → IsSafe (submit_signed F page w again b comp r)
    signed-IsSafe (sign_threw m) = ((tt, tt), inl h)
    signed-IsSafe (signed xdr) =
        let safe = answered-IsSafe (w.submit b.venue b.id xdr) in ((tt, (tt, safe.0)), safe.1)

    pub confirm_build-IsSafe : IsSafe (confirm_build F page w again b comp)
    unfolding confirm_build
    confirm_build-IsSafe = let safe = signed-IsSafe (w.sign b.xdr) in ((tt, (tt, safe.0)), safe.1)

  pub trustline-IsSafe :
      (page : Page F.Num) (w : World F.Num) (code : Option String) (s : ExecState F.Num)
      → HoldsUsdc (comp_of F.Num s)
      → IsSafe (add_trustline page w code (some s))
  unfolding add_trustline
  trustline-IsSafe page w code s h = added page.wallet (asset_to_add page code (some s))
    where
      sent :
          (asset xdr signed_xdr : String) (r : SubmitReply F.Num)
          → IsSafe (submit_trustline asset (comp_of F.Num s) xdr signed_xdr r)
      sent asset xdr signed_xdr (submit_threw m) = ((tt, (tt, (tt, tt))), inl h)
      sent asset xdr signed_xdr (submit_refused code message a) = ((tt, (tt, (tt, tt))), inl h)
      sent asset xdr signed_xdr (submitted hash) = ((tt, (tt, (tt, tt))), inl h)
      sent asset xdr signed_xdr (submit_pending hash) = ((tt, (tt, (tt, tt))), inl h)

      signs :
          (asset xdr : String) (r : SignReply F.Num)
          → IsSafe (sign_trustline w asset (comp_of F.Num s) xdr r)
      signs asset xdr (sign_threw m) = ((tt, (tt, tt)), inl h)
      signs asset xdr (signed signed_xdr) =
          sent asset xdr signed_xdr (w.submit "horizon" none signed_xdr)

      builds :
          (asset : String) (r : BuildReply F.Num)
          → IsSafe (build_trustline_then w asset (comp_of F.Num s) r)
      builds asset build_down = ((tt, tt), inl h)
      builds asset (build_refused code message a) = ((tt, tt), inl h)
      builds asset (built b) = signs asset b.xdr (w.sign b.xdr)

      added :
          (wallet : Option String) (asset : String)
          → IsSafe (add_for wallet w asset (comp_of F.Num s))
      added none asset = ((tt, tt), inr tt)
      added (some address) asset =
          let safe = builds asset (w.build_trustline asset) in ((tt, (tt, safe.0)), safe.1)

  pub backdrop-IsSafe :
      (s : ExecState F.Num) → IsHeld (some s) → IsSafe (on_modal_backdrop (some s))
  unfolding on_modal_backdrop cancel_execute
  backdrop-IsSafe s h = elim (Bool-cases (closes_on_backdrop s)) [
    | inl e ↦ rw e (tt, tt)
    | inr e ↦ rw e (tt, h)
  ]
