-- ===== src/Broker/Tap.antt =====
-- web/sb-mediator-flow.js `makeGuardedTap`: which frames of the socket reach the SDK.
use decant_fi.Common.{◌≡◌, refl, List, Option, none, some, String}
use decant_fi.Common.Float.{Floats}
use decant_fi.Broker.Guard.{
  Op, Reason, ValidateExpected, Verdict, accepted, rejected, threw, validate_streamed_tx,
}

-- A frame, after `JSON.parse`. A transaction frame carries what `TransactionBuilder.fromXDR` makes of
-- its XDR, none where that throws.
pub data Frame : Type 0 where
  not_json : Frame
  json_null : Frame
  other_frame : String → Frame
  tx_frame : Option (List Op) → Frame

pub data BlockReason : Type 0 where
  unparseable : BlockReason
  guard_rejected : Reason → BlockReason

-- What the handler does with a frame: it hands it to the SDK, it calls `onBlocked`, or it throws.
pub data TapResult : Type 0 where
  forward : TapResult
  block : BlockReason → TapResult
  crash : TapResult

module _ (F : Floats) where
  abbrev pub tap_verdict : Verdict F → TapResult
  tap_verdict accepted = forward
  tap_verdict (rejected r) = block (guard_rejected r)
  tap_verdict threw = crash

  unfoldable pub guarded_tap : ValidateExpected F.Num → Frame → TapResult
  guarded_tap e not_json = forward
  guarded_tap e json_null = crash
  guarded_tap e (other_frame kind) = forward
  guarded_tap e (tx_frame none) = block unparseable
  guarded_tap e (tx_frame (some ops)) = tap_verdict (validate_streamed_tx F ops e)

  -- What the SDK may see under a guard's expectation.
  abbrev pub IsForwardable : ValidateExpected F.Num → Frame → Type 0
  IsForwardable e json_null = ⊥
  IsForwardable e (tx_frame none) = ⊥
  IsForwardable e (tx_frame (some ops)) = validate_streamed_tx F ops e ≡ accepted
  IsForwardable e _ = Unit

  pub guarded_tap_sound :
      (e : ValidateExpected F.Num) (f : Frame) → guarded_tap e f ≡ forward → IsForwardable e f
  unfolding guarded_tap
  guarded_tap_sound e not_json h = tt
  guarded_tap_sound e json_null h = cc
  guarded_tap_sound e (other_frame kind) h = tt
  guarded_tap_sound e (tx_frame none) h = cc
  guarded_tap_sound e (tx_frame (some ops)) h = verdict (validate_streamed_tx F ops e) h
    where
      verdict : (v : Verdict F) → tap_verdict v ≡ forward → v ≡ accepted
      verdict accepted k = refl
      verdict (rejected r) k = cc
      verdict threw k = cc

  pub guarded_tap_rejects :
      (e : ValidateExpected F.Num) (ops : List Op) (r : Reason)
      → validate_streamed_tx F ops e ≡ rejected r
      → guarded_tap e (tx_frame (some ops)) ≡ block (guard_rejected r)
  unfolding guarded_tap
  guarded_tap_rejects e ops r h = rw h refl
