-- ===== src/App/Exec/Trustline.antt =====
-- web/public/app.js `addTrustline`, `cancelExecute`, `onModalBackdrop`.
use decant_fi.Common.{Bool, true, false, List, [], ◌∷◌, Option, none, some, String, if◌then◌else◌}
use decant_fi.App.State.{
  target_code, connect_first, mapped, thrown, exec_failed, Comp, ExecState, error, trustline_adding,
  trustline_added, done, sb_blocked, sb_done, sb_recover_needed, SignReply, signed, sign_threw,
  BuildReply, build_down, build_refused, built, SubmitReply, submit_threw, submit_refused, Page,
  World, Effect, show, ask_sign, ask_submit, ask_trustline, Outcome, asset_of,
}
use decant_fi.App.Exec.Composite.{comp_in, or_text, present}

module _ {Num : Type 0} where
  abbrev asset_in : Option (ExecState Num) → Option String
  asset_in none = none
  asset_in (some s) = asset_of Num s

  -- `assetCode || (execState && execState.asset) || target`
  abbrev pub asset_to_add : Page Num → Option String → Option (ExecState Num) → String
  asset_to_add page code s =
      or_text (present code) (or_text (present (asset_in s)) (target_code page.target))

  abbrev settle : ExecState Num → List (Effect Num) → Outcome Num
  settle s effects = record { state = some s; effects = effects }

  abbrev pub submit_trustline :
      String → Option (Comp Num) → String → String → SubmitReply Num → Outcome Num
  submit_trustline asset comp xdr signed_xdr (submit_threw m) =
      let after = error (thrown m) none (some asset) comp in
      settle after (ask_sign xdr ∷ ask_submit "horizon" none signed_xdr ∷ show after ∷ [])
  submit_trustline asset comp xdr signed_xdr (submit_refused code message a) =
      let after = error (mapped code message) code (some asset) comp in
      settle after (ask_sign xdr ∷ ask_submit "horizon" none signed_xdr ∷ show after ∷ [])
  submit_trustline asset comp xdr signed_xdr _ =
      let after = trustline_added asset comp in
      settle after (ask_sign xdr ∷ ask_submit "horizon" none signed_xdr ∷ show after ∷ [])

  abbrev pub sign_trustline :
      World Num → String → Option (Comp Num) → String → SignReply Num → Outcome Num
  sign_trustline w asset comp xdr (sign_threw m) =
      let after = error (thrown m) none (some asset) comp in
      settle after (ask_sign xdr ∷ show after ∷ [])
  sign_trustline w asset comp xdr (signed signed_xdr) =
      submit_trustline asset comp xdr signed_xdr (w.submit "horizon" none signed_xdr)

  -- An unreachable server is an error that `catch` shows; its text is not modelled.
  abbrev pub build_trustline_then :
      World Num → String → Option (Comp Num) → BuildReply Num → Outcome Num
  build_trustline_then w asset comp build_down =
      let after = error exec_failed none (some asset) comp in settle after (show after ∷ [])
  build_trustline_then w asset comp (build_refused code message a) =
      let after = error (mapped code message) code (some asset) comp in
      settle after (show after ∷ [])
  build_trustline_then w asset comp (built b) = sign_trustline w asset comp b.xdr (w.sign b.xdr)

  abbrev pub add_for : Option String → World Num → String → Option (Comp Num) → Outcome Num
  add_for none w asset comp =
      let after = error connect_first none none none in settle after (show after ∷ [])
  add_for (some address) w asset comp =
      let o = build_trustline_then w asset comp (w.build_trustline asset) in
      record o { effects = show (trustline_adding asset comp) ∷ ask_trustline asset ∷ o.effects }

  unfoldable pub add_trustline :
      Page Num → World Num → Option String → Option (ExecState Num) → Outcome Num
  add_trustline page w code s = add_for page.wallet w (asset_to_add page code s) (comp_in s)

  unfoldable pub cancel_execute : Option (ExecState Num) → Outcome Num
  cancel_execute s = record { state = none; effects = [] }

  abbrev pub closes_on_backdrop : ExecState Num → Bool
  closes_on_backdrop (done b h x c) = true
  closes_on_backdrop (error m code asset c) = true
  closes_on_backdrop (sb_blocked c) = true
  closes_on_backdrop (sb_done finished c) = true
  closes_on_backdrop (sb_recover_needed address c) = true
  closes_on_backdrop _ = false

  unfoldable pub on_modal_backdrop : Option (ExecState Num) → Outcome Num
  on_modal_backdrop none = record { state = none; effects = [] }
  on_modal_backdrop (some s) =
      if closes_on_backdrop s
      then cancel_execute (some s)
      else record { state = some s; effects = [] }
