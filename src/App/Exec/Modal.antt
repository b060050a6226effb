-- ===== src/App/Exec/Modal.antt =====
-- The buttons that the modal offers once the first leg has paid out.
use decant_fi.Common.{
  ◌≡◌, refl, inl, inr, Bool, true, false, not, ◌&&◌, List, [], ◌++◌, Option, none, some, String,
  All, All-++, All-In, In,
}
use decant_fi.Common.Float.{Floats}
use decant_fi.App.State.{
  target_code, Message, Build, Comp, ExecState, review, signing, submitting, confirming, pending,
  leg1_confirming, done, error, sb_mediator, sb_recover_needed, sb_blocked, sb_done, recovering,
  recovered, trustline_adding, trustline_added, Page, World, Effect, comp_of, build_of,
}
use decant_fi.App.Exec.Broker.{recover_sb_mediators, recover_with, recovery_state}
use decant_fi.App.Exec.Composite.{or_text, present}
use decant_fi.App.Exec.Confirm.{confirm_execute}
use decant_fi.App.Exec.Trustline.{cancel_execute}
use decant_fi.App.Exec.Buttons.{
  Action, click_cancel, click_backdrop, click_confirm, click_recover, click_retry, click_trustline,
  buttons, run_action, is_leg2_with, when, resume, is_trustline,
}
use decant_fi.App.Exec.Resell.{
  IsNoSale, HoldsUsdc, IsHeld, IsSafe, backdrop-IsSafe, confirm_build-IsSafe, retry-IsSafe,
  trustline-IsSafe,
}

module _ (F : Floats) (n : F.Num) where
  module _ (page : Page F.Num) (w again : World F.Num) (gone : w.elsewhere ≡ none) where
    abbrev Safe : ExecState F.Num → Action → Type 0
    Safe s a = IsSafe F n (run_action F page w again a (some s))

    when-Safe :
        (s : ExecState F.Num) (b : Bool) (a : Action)
        → (b ≡ true → Safe s a)
        → All (Safe s) (when F b a)
    when-Safe s true a h = (h refl, tt)
    when-Safe s false a h = tt

    closing-Safe :
        (s : ExecState F.Num) → IsHeld F n (some s) → Safe s click_backdrop × Safe s click_cancel
    unfolding run_action cancel_execute
    closing-Safe s h = (backdrop-IsSafe F n s h, (tt, tt))

    review-Safe :
        (b : Build) (f : Bool) (c : Option (Comp F.Num))
        → HoldsUsdc F n c
        → b.restore ≡ false
        → Safe (review b f c) click_confirm
    unfolding run_action confirm_execute
    review-Safe b f c h ready = confirm_build-IsSafe F n page w again b c h ready gone

    recovery_state-IsHeld : (e : Option String) → IsHeld F n (some (recovery_state e))
    recovery_state-IsHeld none = inr tt
    recovery_state-IsHeld (some m) = inr tt

    recover-Safe : (s : ExecState F.Num) → IsHeld F n (some s) → Safe s click_recover
    unfolding run_action recover_sb_mediators
    recover-Safe s h = recovers page.wallet
      where
        recovers : (wallet : Option String) → IsSafe F n (recover_with wallet w (some s))
        recovers none = (tt, h)
        recovers (some address) =
            ((tt, (tt, (tt, (tt, tt)))), recovery_state-IsHeld w.recovery_error)

    resume-Safe :
        (s : ExecState F.Num)
        → HoldsUsdc F n (comp_of F.Num s)
        → Safe s (resume F (comp_of F.Num s))
    unfolding run_action
    resume-Safe s h = resumes (comp_of F.Num s) h
      where
        resumes : (c : Option (Comp F.Num)) → HoldsUsdc F n c → Safe s (resume F c)
        resumes none k = elim k [ ]
        resumes (some c) k = simp (k.0, k.1) (retry-IsSafe F n page w s h)

    error-Safe :
        (m : Message) (code asset : Option String) (c : Option (Comp F.Num))
        → HoldsUsdc F n c
        → All (Safe (error m code asset c)) (buttons F page (error m code asset c))
    unfolding run_action buttons
    error-Safe m code asset c h =
        let s : ExecState F.Num = error m code asset c in
        let close = closing-Safe s (inl h) in
        let missing = or_text (present asset) (target_code page.target) in
        let trust = is_trustline F code in
        let retry = is_leg2_with F c && not trust in
        (
          close.0,
          (
            close.1,
            All-++ (Safe s) (when F trust (click_trustline missing)) (when F retry click_retry)
                (when-Safe s trust (click_trustline missing)
                  (λ e. trustline-IsSafe F n page w (some missing) s h))
                (when-Safe s retry click_retry (λ e. retry-IsSafe F n page w s h)),
          ),
        )

    abbrev IsReady : ExecState F.Num → Type 0
    IsReady s = (b : Build) → build_of F.Num s ≡ some b → b.restore ≡ false

    -- Every enabled button of a held state.
    held-Safe :
        (s : ExecState F.Num) → IsHeld F n (some s) → IsReady s → All (Safe s) (buttons F page s)
    unfolding buttons
    held-Safe (review b f c) (inl h) ready =
        let s : ExecState F.Num = review b f c in
        let close = closing-Safe s (inl h) in
        (
          close.0,
          (
            close.1,
            when-Safe s (not b.fee_warning) click_confirm (λ e. review-Safe b f c h (ready b refl)),
          ),
        )
    held-Safe (review b f c) (inr k) ready = elim k [ ]
    held-Safe (signing b c) h ready = ((closing-Safe (signing b c) h).0, tt)
    held-Safe (submitting b c) h ready = ((closing-Safe (submitting b c) h).0, tt)
    held-Safe (confirming b hash c) h ready = ((closing-Safe (confirming b hash c) h).0, tt)
    held-Safe (leg1_confirming c) h ready = ((closing-Safe (leg1_confirming c) h).0, tt)
    held-Safe (sb_mediator step c) h ready = ((closing-Safe (sb_mediator step c) h).0, tt)
    held-Safe (recovering step) h ready = ((closing-Safe (recovering step) h).0, tt)
    held-Safe (trustline_adding asset c) h ready =
        ((closing-Safe (trustline_adding asset c) h).0, tt)
    held-Safe (pending b hash c) h ready =
        let close = closing-Safe (pending b hash c) h in (close.0, (close.1, tt))
    held-Safe (done b hash x c) h ready =
        let close = closing-Safe (done b hash x c) h in (close.0, (close.1, tt))
    held-Safe (sb_blocked c) h ready =
        let close = closing-Safe (sb_blocked c) h in (close.0, (close.1, tt))
    held-Safe (sb_done d c) h ready =
        let close = closing-Safe (sb_done d c) h in (close.0, (close.1, tt))
    held-Safe recovered h ready = let close = closing-Safe recovered h in (close.0, (close.1, tt))
    held-Safe (sb_recover_needed address c) h ready =
        let s : ExecState F.Num = sb_recover_needed address c in
        let close = closing-Safe s h in (close.0, (recover-Safe s h, (close.1, tt)))
    held-Safe (trustline_added asset c) (inl h) ready =
        let s : ExecState F.Num = trustline_added asset c in
        let close = closing-Safe s (inl h) in (close.0, (close.1, (resume-Safe s h, tt)))
    held-Safe (trustline_added asset c) (inr k) ready = elim k [ ]
    held-Safe (error m code asset c) (inl h) ready = error-Safe m code asset c h
    held-Safe (error m none asset none) (inr k) ready =
        let close = closing-Safe (error m none asset none) (inr k) in (close.0, (close.1, tt))
    held-Safe (error m none asset (some c)) (inr k) ready = elim k [ ]
    held-Safe (error m (some code) asset none) (inr k) ready = elim k [ ]
    held-Safe (error m (some code) asset (some c)) (inr k) ready = elim k [ ]

-- A run of clicks in the modal, with what the handlers do and the state after it: each click is on
-- an enabled button, none confirms a restore, and a poll is only given up for a closed modal.
pub data Clicks (F : Floats)
    : Option (ExecState F.Num) → List (Effect F.Num) → Option (ExecState F.Num) → Type 0 where
  stop : {s : Option (ExecState F.Num)} → Clicks F s [] s
  click :
      {es : List (Effect F.Num)} {end : Option (ExecState F.Num)} (page : Page F.Num)
      (w again : World F.Num) (s : ExecState F.Num) (a : Action)
      → In a (buttons F page s)
      → ((b : Build) → build_of F.Num s ≡ some b → b.restore ≡ false)
      → w.elsewhere ≡ none
      → Clicks F (run_action F page w again a (some s)).state es end
      → Clicks F (some s) ((run_action F page w again a (some s)).effects ++ es) end

module _ (F : Floats) (n : F.Num) where
  -- From a state of the second leg with an amount of USDC in hand, no run of clicks in the modal asks
  -- for a build or a swap that sells anything but USDC, as long as no restore is confirmed; and
  -- until the modal is closed or shows a message that leads nowhere, the amount in hand is kept.
  pub Clicks-IsNoSale :
      (start end : Option (ExecState F.Num)) (es : List (Effect F.Num))
      → Clicks F start es end
      → IsHeld F n start
      → All (IsNoSale F n) es × IsHeld F n end
  Clicks-IsNoSale start end es stop h = (tt, h)
  Clicks-IsNoSale start end es (click {es = more_es} page w again s a i ready gone rest) h =
      let safe =
        All-In (Safe F n page w again gone s) i (held-Safe F n page w again gone s h ready) in
      let after = run_action F page w again a (some s) in
      let more = Clicks-IsNoSale after.state end more_es rest safe.1 in
      (All-++ (IsNoSale F n) after.effects more_es safe.0 more.0, more.1)
