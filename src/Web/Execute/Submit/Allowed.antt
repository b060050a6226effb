-- ===== src/Web/Execute/Submit/Allowed.antt =====
-- What reaches the network.
use decant_fi.Common.{
  ◌≡◌, refl, ◌⊎◌, inl, inr, Bool, true, false, List, [], ◌∷◌, Option, none, some, String, str_eq,
  str_eq_iff, ◌↔◌, arith, subst, All, Bool-cases,
}
use decant_fi.Web.Execute.{
  Venue, xbull, soroswap, horizon, aquarius, comet, ultrastellar, bad_request, exec_error, Outcome,
  ok, refused, broke,
}
use decant_fi.Web.Execute.Submit.{
  Decoded, unreadable, plain, fee_bump, allowed_op_types, is_allowed, refused_op,
  assert_allowed_ops, Call, to_xbull, to_horizon, to_rpc, to_soroswap, XbullAnswer, xbull_failed,
  xbull_sent, HorizonAnswer, horizon_sent, horizon_threw, SendStatus, pending, duplicate,
  try_again_later, error, Answer, replied, threw, Network, Submitted, xbull_result, horizon_result,
  rpc_result, soroswap_result, Run, send_to, submit,
}

-- The one call that carries the transaction to the service of its venue.
abbrev pub call_for : Venue → Option String → String → Call
call_for xbull id xdr = to_xbull id xdr
call_for soroswap id xdr = to_soroswap xdr
call_for horizon id xdr = to_horizon xdr
call_for aquarius id xdr = to_rpc xdr
call_for comet id xdr = to_rpc xdr
call_for ultrastellar id xdr = to_horizon xdr

-- Operations of the kinds that the program builds.
abbrev pub Kind : String → Type 0
Kind type =
    (type ≡ "pathPaymentStrictSend") ⊎ (type ≡ "invokeHostFunction") ⊎ (type ≡ "changeTrust")

abbrev pub IsOwn : Decoded → Type 0
IsOwn unreadable = ⊥
IsOwn (plain []) = ⊥
IsOwn (plain (type ∷ types)) = All Kind (type ∷ types)
IsOwn (fee_bump []) = ⊥
IsOwn (fee_bump (type ∷ types)) = All Kind (type ∷ types)

-- What the venue's service says when it has taken the transaction.
abbrev pub Accepts : Network → Option String → String → Venue → Submitted → Type 0
Accepts n id xdr xbull s =
    (n.xbull_answer id xdr ≡ xbull_sent (some s.hash)) × (s.is_pending ≡ false)
Accepts n id xdr soroswap s =
    (n.soroswap_send xdr ≡ replied (s.hash, true)) × (s.is_pending ≡ false)
Accepts n id xdr horizon s = (n.horizon_answer xdr ≡ horizon_sent s.hash) × (s.is_pending ≡ false)
Accepts n id xdr ultrastellar s =
    (n.horizon_answer xdr ≡ horizon_sent s.hash) × (s.is_pending ≡ false)
Accepts n id xdr aquarius s =
    ((n.rpc_send xdr ≡ replied (pending, s.hash)) ⊎ (n.rpc_send xdr ≡ replied (duplicate, s.hash)))
    × (s.is_pending ≡ true)
Accepts n id xdr comet s =
    ((n.rpc_send xdr ≡ replied (pending, s.hash)) ⊎ (n.rpc_send xdr ≡ replied (duplicate, s.hash)))
    × (s.is_pending ≡ true)

is_allowed_iff : (type : String) → (is_allowed type ≡ true) ↔ Kind type
unfolding is_allowed allowed_op_types
is_allowed_iff type = ground (
  arith,
  str_eq_iff "pathPaymentStrictSend" type,
  str_eq_iff "invokeHostFunction" type,
  str_eq_iff "changeTrust" type,
)

-- The check of the operations is passed exactly by those that the program builds.
refused_op_lem :
    (types : List String)
    → (All Kind types × (refused_op types ≡ none))
      ⊎ (¬ All Kind types × (refused_op types ≡ some (exec_error bad_request)))
unfolding refused_op
refused_op_lem [] = inl (tt, refl)
refused_op_lem (type ∷ types) = elim (Bool-cases (is_allowed type)) [
  | inl yes_it_is ↦ rw yes_it_is (elim (refused_op_lem types) [
    | inl r ↦ inl (((is_allowed_iff type).0 yes_it_is, r.0), r.1)
    | inr r ↦ inr (λ k. r.0 k.1, r.1)
  ])
  | inr not_it_is ↦
      rw not_it_is
        (inr (λ k. let t : is_allowed type ≡ true = (is_allowed_iff type).1 k.0 in cc, refl))
]

assert_lem :
    (d : Decoded)
    → (IsOwn d × (assert_allowed_ops d ≡ none))
      ⊎ (¬ IsOwn d × (assert_allowed_ops d ≡ some (exec_error bad_request)))
unfolding assert_allowed_ops
assert_lem unreadable = inr (λ k. k, refl)
assert_lem (plain []) = inr (λ k. k, refl)
assert_lem (plain (type ∷ types)) = refused_op_lem (type ∷ types)
assert_lem (fee_bump []) = inr (λ k. k, refl)
assert_lem (fee_bump (type ∷ types)) = refused_op_lem (type ∷ types)

module _ (n : Network) (id : Option String) (xdr : String) where
  calls_lem : (venue : Venue) → (send_to n id xdr venue).1 ≡ call_for venue id xdr ∷ []
  calls_lem xbull = refl
  calls_lem soroswap = refl
  calls_lem horizon = refl
  calls_lem aquarius = refl
  calls_lem comet = refl
  calls_lem ultrastellar = refl

  abbrev IfOk : (Submitted → Type 0) → Outcome Submitted → Type 0
  IfOk P (ok s) = P s
  IfOk P (refused e) = Unit {0}
  IfOk P broke = Unit {0}

  xbull_lem :
      (a : XbullAnswer)
      → IfOk (λ s. (a ≡ xbull_sent (some s.hash)) × (s.is_pending ≡ false)) (xbull_result a)
  xbull_lem xbull_failed = tt
  xbull_lem (xbull_sent none) = tt
  xbull_lem (xbull_sent (some hash)) = elim (Bool-cases (str_eq hash "")) [
    | inl e ↦ rw e tt
    | inr e ↦ rw e (refl, refl)
  ]

  horizon_lem :
      (a : HorizonAnswer)
      → IfOk (λ s. (a ≡ horizon_sent s.hash) × (s.is_pending ≡ false)) (horizon_result a)
  horizon_lem (horizon_sent hash) = (refl, refl)
  horizon_lem (horizon_threw codes message) = tt

  rpc_lem :
      (a : Answer (SendStatus × String))
      → IfOk
          (λ s.
            ((a ≡ replied (pending, s.hash)) ⊎ (a ≡ replied (duplicate, s.hash)))
            × (s.is_pending ≡ true))
          (rpc_result a)
  rpc_lem (replied (pending, hash)) = (inl refl, refl)
  rpc_lem (replied (duplicate, hash)) = (inr refl, refl)
  rpc_lem (replied (try_again_later, hash)) = tt
  rpc_lem (replied (error, hash)) = tt
  rpc_lem (threw message) = tt

  soroswap_lem :
      (a : Answer (String × Bool))
      → IfOk (λ s. (a ≡ replied (s.hash, true)) × (s.is_pending ≡ false)) (soroswap_result a)
  soroswap_lem (replied (hash, true)) = (refl, refl)
  soroswap_lem (replied (hash, false)) = tt
  soroswap_lem (threw message) = tt

  accepts_lem : (venue : Venue) → IfOk (Accepts n id xdr venue) (send_to n id xdr venue).0
  accepts_lem xbull = xbull_lem (n.xbull_answer id xdr)
  accepts_lem soroswap = soroswap_lem (n.soroswap_send xdr)
  accepts_lem horizon = horizon_lem (n.horizon_answer xdr)
  accepts_lem aquarius = rpc_lem (n.rpc_send xdr)
  accepts_lem comet = rpc_lem (n.rpc_send xdr)
  accepts_lem ultrastellar = horizon_lem (n.horizon_answer xdr)

  -- A transaction that is sent, or one that is not.
  abbrev pub IsGuarded : Venue → Run → Type 0
  IsGuarded venue run =
      (IsOwn (n.decode xdr)
        × (run.1 ≡ call_for venue id xdr ∷ [])
        × ((s : Submitted) → run.0 ≡ ok s → Accepts n id xdr venue s))
      ⊎ (¬ IsOwn (n.decode xdr) × (run.1 ≡ []) × (run.0 ≡ refused (exec_error bad_request)))

  -- A signed transaction that has an operation, and none but those that the program builds, is sent
  -- once, to the service of its venue, and is reported as sent only if that service has taken it,
  -- with the hash that it gave; as pending at the venues whose transactions are fired and polled.
  -- Any other is refused and nothing is sent.
  pub submit-IsGuarded : (venue : Venue) → IsGuarded venue (submit n id xdr venue)
  unfolding submit
  submit-IsGuarded venue = elim (assert_lem (n.decode xdr)) [
    | inl own ↦ rw (own.1) (
        inl (
          own.0,
          calls_lem venue,
          λ s h. subst (IfOk (Accepts n id xdr venue)) h (accepts_lem venue),
        ))
    | inr other ↦ rw (other.1) (inr (other.0, refl, refl))
  ]
