-- ===== src/App/State.antt =====
-- web/public/app.js `execState`: the state of an execution, what it is shown as, and what the page
-- asks of the server, the wallet and the broker.
use decant_fi.Common.{
  ℕ, ◌+◌, Bool, true, false, ◌&&◌, ◌||◌, List, [], ◌∷◌, Option, none, some, String, codes, leb,
  str_eq, ◌==◌, if◌then◌else◌,
}
use decant_fi.Broker.Flow.{FlowResult}
use decant_fi.App.Choose.{Row}

pub data Target : Type 0 where
  target_usdc target_eurc : Target

abbrev pub target_code : Target → String
target_code target_usdc = "USDC"
target_code target_eurc = "EURC"

pub data Message : Type 0 where
  connect_first err_down exec_failed exec_rejected sb_not_configured : Message
  -- `mapExecError(code, error)`
  mapped : Option String → Option String → Message
  plain : String → Message

-- `/reject/i.test(msg)`
abbrev lower : ℕ → ℕ
lower c = if leb b'A' c && leb c b'Z' then c + 32 else c

pub starts_with : List ℕ → List ℕ → Bool
starts_with [] s = true
starts_with (c ∷ cs) [] = false
starts_with (c ∷ cs) (d ∷ s) = let more = starts_with cs s in if lower d == c then more else false

pub contains : List ℕ → List ℕ → Bool
contains word [] = starts_with word []
contains word (c ∷ s) = starts_with word (c ∷ s) || contains word s

-- What a caught error shows.
pub thrown : String → Message
thrown message =
    if contains (codes "reject") (codes message)
    then exec_rejected
    else if str_eq message ""
    then exec_failed
    else plain message

pub record Build : Type 0 where
  pub venue : String
  pub id : Option String
  pub xdr : String
  -- `type === 'restore'`
  pub restore : Bool
  pub review_target : Option String
  -- `feeWarning` is set
  pub fee_warning : Bool

pub data Leg : Type 0 where
  leg1 leg2 : Leg

module _ (Num : Type 0) where
  -- The context of a composite swap.
  pub record Comp : Type 0 where
    pub leg : Leg
    pub leg1_source : String
    pub leg2_source : Option String
    pub usdc_before : Option Num
    pub usdc_received : Option Num
    pub hash1 : Option String

  pub data SbStep : Type 0 where
    funding streaming : SbStep

  -- A phase with the fields that the code sets in it.
  pub data ExecState : Type 0 where
    review : Build → Bool → Option Comp → ExecState
    signing submitting : Build → Option Comp → ExecState
    confirming pending : Build → String → Option Comp → ExecState
    leg1_confirming : Comp → ExecState
    -- the amount that arrived, once it is read
    done : Build → String → Option Num → Option Comp → ExecState
    error : Message → Option String → Option String → Option Comp → ExecState
    sb_mediator : SbStep → Option Comp → ExecState
    sb_recover_needed : Option String → Option Comp → ExecState
    sb_blocked : Option Comp → ExecState
    sb_done : String → Option Comp → ExecState
    -- the recovery of orphaned accounts: `recover: true` on `sb_mediator` and `sb_done`
    recovering : SbStep → ExecState
    recovered : ExecState
    trustline_adding trustline_added : String → Option Comp → ExecState

  pub record BuildBody : Type 0 where
    pub pair : String
    pub from : Option String
    pub amount : Option Num
    pub sender : Option String
    pub slippage_bps : ℕ
    pub venue : Option String

  pub data BuildReply : Type 0 where
    build_down : BuildReply
    build_refused : Option String → Option String → Option String → BuildReply
    built : Build → BuildReply

  pub data SignReply : Type 0 where
    signed : String → SignReply
    sign_threw : String → SignReply

  pub data SubmitReply : Type 0 where
    submit_threw : String → SubmitReply
    submit_refused : Option String → Option String → Option String → SubmitReply
    submitted submit_pending : String → SubmitReply

  pub data StatusReply : Type 0 where
    status_success status_failed status_unknown : StatusReply

  pub data BrokerReply : Type 0 where
    key_refused : BrokerReply
    broker_threw : String → BrokerReply
    swapped : FlowResult → BrokerReply

  -- What the page holds while an execution runs.
  pub record Page : Type 0 where
    pub wallet : Option String
    pub sim : Option (List Row)
    pub sim_active : Bool
    pub sim_amt : Num
    -- `String(simAmt)`
    pub sim_text : String
    pub target : Target
    pub selected : Option String
    -- `Math.round(execSlippagePct * 100)`
    pub slippage_bps : ℕ

  -- The answers. The n-th poll of a status or of a balance has the number n from 0; `alive`,
  -- `leg1_open` and `done_open` say whether the state is still the one polled for, and `elsewhere` is
  -- the state that the user has moved to when it is not.
  pub record World : Type 0 where
    pub build : BuildBody → BuildReply
    pub usdc_before : Option Num
    pub dest_before : Option Num
    pub sign : String → SignReply
    pub submit : String → Option String → String → SubmitReply
    pub alive : ℕ → Bool
    pub status : ℕ → StatusReply
    pub leg1_open : ℕ → Bool
    pub usdc_balance : ℕ → Option Num
    pub done_open : ℕ → Bool
    pub dest_balance : ℕ → Option Num
    pub elsewhere : Option ExecState
    pub broker : String → String → String → BrokerReply
    -- how many progress events of the broker say that it is streaming
    pub streaming_events : ℕ
    pub build_trustline : String → BuildReply
    -- what the recovery of orphaned accounts throws
    pub recovery_error : Option String
    -- `String(n)`
    pub number_text : Num → String

  pub data Effect : Type 0 where
    show : ExecState → Effect
    ask_build : BuildBody → Effect
    ask_sign : String → Effect
    ask_submit : String → Option String → String → Effect
    ask_broker : String → String → String → Effect
    ask_trustline : String → Effect
    ask_recovery : Effect

  -- The state after a handler, none where the modal is closed, and what it did in order.
  pub record Outcome : Type 0 where
    pub state : Option ExecState
    pub effects : List Effect

  abbrev pub comp_of : ExecState → Option Comp
  comp_of (review b f c) = c
  comp_of (signing b c) = c
  comp_of (submitting b c) = c
  comp_of (confirming b h c) = c
  comp_of (pending b h c) = c
  comp_of (leg1_confirming c) = some c
  comp_of (done b h x c) = c
  comp_of (error m code asset c) = c
  comp_of (sb_mediator step c) = c
  comp_of (sb_recover_needed address c) = c
  comp_of (sb_blocked c) = c
  comp_of (sb_done finished c) = c
  comp_of (recovering step) = none
  comp_of recovered = none
  comp_of (trustline_adding asset c) = c
  comp_of (trustline_added asset c) = c

  abbrev pub build_of : ExecState → Option Build
  build_of (review b f c) = some b
  build_of (signing b c) = some b
  build_of (submitting b c) = some b
  build_of (confirming b h c) = some b
  build_of (pending b h c) = some b
  build_of (done b h x c) = some b
  build_of _ = none

  abbrev pub asset_of : ExecState → Option String
  asset_of (error m code asset c) = asset
  asset_of (trustline_adding asset c) = some asset
  asset_of (trustline_added asset c) = some asset
  asset_of _ = none
