-- ===== src/App/Exec/Landing.antt =====
-- What the page takes for a transaction that has landed.
use decant_fi.Common.{
  ◌≡◌, refl, ◌⊎◌, inl, inr, ℕ, zero, suc, ◌+◌, ◌<◌, Bool, true, false, ◌∷◌, Option, some, String,
  arith, All, Bool-cases, subst,
}
use decant_fi.Common.Float.{Floats}
use decant_fi.App.State.{
  Build, Comp, ExecState, signing, submitting, confirming, pending, error, SignReply, signed,
  sign_threw, SubmitReply, submit_threw, submit_refused, submitted, submit_pending, StatusReply,
  status_success, status_failed, status_unknown, Page, World, Effect, show, ask_sign, ask_submit,
  ask_build, ask_broker, Outcome,
}
use decant_fi.App.Exec.Confirm.{
  Polled, poll_success, poll_failed, poll_pending, poll_aborted, poll_tx_status, confirm_build,
  answered, polled, submit_signed, after_status,
}

module _ (F : Floats) (w : World F.Num) where
  -- The polls before the k-th, counted from `i`, found the modal open and the server undecided.
  abbrev pub Undecided : ℕ → ℕ → Type 0
  Undecided i zero = Unit
  Undecided i (suc k) = ((w.alive i ≡ true) × (w.status i ≡ status_unknown)) × Undecided (suc i) k

  -- What each outcome of the poll stands for.
  abbrev pub IsPolled : ℕ → ℕ → Polled → Type 0
  IsPolled i left poll_pending = Undecided i left
  IsPolled i left poll_success =
      (k : ℕ) × (k < left)
      × Undecided i k
      × (w.alive (i + k) ≡ true)
      × (w.status (i + k) ≡ status_success)
  IsPolled i left poll_failed =
      (k : ℕ) × (k < left)
      × Undecided i k
      × (w.alive (i + k) ≡ true)
      × (w.status (i + k) ≡ status_failed)
  IsPolled i left poll_aborted = (k : ℕ) × (k < left) × Undecided i k × (w.alive (i + k) ≡ false)

  shift : (i k : ℕ) → suc i + k ≡ i + suc k
  shift i k = omega arith

  right : (i : ℕ) → i ≡ i + 0
  right i = omega arith

  later :
      (i left : ℕ) (r : Polled)
      → w.alive i ≡ true
      → w.status i ≡ status_unknown
      → IsPolled (suc i) left r
      → IsPolled i (suc left) r
  later i left poll_pending a u h = ((a, u), h)
  later i left poll_success a u (k, b, q, o, s) = (
    suc k,
    omega arith,
    ((a, u), q),
    subst (λ n. w.alive n ≡ true) (shift i k) o,
    subst (λ n. w.status n ≡ status_success) (shift i k) s,
  )
  later i left poll_failed a u (k, b, q, o, s) = (
    suc k,
    omega arith,
    ((a, u), q),
    subst (λ n. w.alive n ≡ true) (shift i k) o,
    subst (λ n. w.status n ≡ status_failed) (shift i k) s,
  )
  later i left poll_aborted a u (k, b, q, o) =
      (suc k, omega arith, ((a, u), q), subst (λ n. w.alive n ≡ false) (shift i k) o)

  step :
      (i left : ℕ) (r : StatusReply F.Num) (rest : Polled)
      → w.alive i ≡ true
      → w.status i ≡ r
      → IsPolled (suc i) left rest
      → IsPolled i (suc left) (after_status F r rest)
  step i left status_success rest a e h = (
    0,
    omega arith,
    tt,
    subst (λ n. w.alive n ≡ true) (right i) a,
    subst (λ n. w.status n ≡ status_success) (right i) e,
  )
  step i left status_failed rest a e h = (
    0,
    omega arith,
    tt,
    subst (λ n. w.alive n ≡ true) (right i) a,
    subst (λ n. w.status n ≡ status_failed) (right i) e,
  )
  step i left status_unknown rest a e h = later i left rest a e h

  -- The poll says success or failure when the server does at one of the polls made, all before it
  -- undecided; it gives up exactly when the modal is found closed, and calls the transaction pending
  -- only after every poll was undecided.
  pub poll_tx_status-IsPolled : (i left : ℕ) → IsPolled i left (poll_tx_status F w i left)
  unfolding poll_tx_status
  poll_tx_status-IsPolled i zero = tt
  poll_tx_status-IsPolled i (suc left) = elim (Bool-cases (w.alive i)) [
    | inl a ↦ rw a (step i left (w.status i) _ a refl (poll_tx_status-IsPolled (suc i) left))
    | inr a ↦ rw a (0, omega arith, tt, subst (λ n. w.alive n ≡ false) (right i) a)
  ]

  -- Neither a build nor a swap by the broker is asked for.
  abbrev pub IsNoOrder : Effect F.Num → Type 0
  IsNoOrder (ask_build body) = ⊥
  IsNoOrder (ask_broker sell buy amount) = ⊥
  IsNoOrder _ = Unit

  -- Error or still pending: nothing is taken for executed.
  abbrev pub is_stopped : Option (ExecState F.Num) → Bool
  is_stopped (some (error m code asset c)) = true
  is_stopped (some (pending b h c)) = true
  is_stopped _ = false

  -- The wallet has signed, and the server has answered that the transaction is final, or has
  -- confirmed it at one of twenty polls, at each of which the modal was open, all before it
  -- undecided.
  pub record HasLanded (b : Build) : Type 0 where
    pub xdr : String
    pub signature : w.sign b.xdr ≡ signed xdr
    pub hash : String
    pub final :
        (w.submit b.venue b.id xdr ≡ submitted hash)
        ⊎ ((w.submit b.venue b.id xdr ≡ submit_pending hash) × IsPolled 0 20 poll_success)

  abbrev pub IsCareful : Build → Outcome F.Num → Type 0
  IsCareful b o =
      HasLanded b
      ⊎ (All IsNoOrder o.effects × ((is_stopped o.state ≡ true) ⊎ (o.state ≡ w.elsewhere)))

  IsCareful-map :
      (b : Build) (e : Effect F.Num) (o : Outcome F.Num)
      → IsNoOrder e
      → IsCareful b o
      → IsCareful b (record o { effects = e ∷ o.effects })
  IsCareful-map b e o n (inl h) = inl h
  IsCareful-map b e o n (inr (es, s)) = inr ((n, es), s)

  module _ (page : Page F.Num) (again : World F.Num) (b : Build) (comp : Option (Comp F.Num))
      (xdr : String) (sign : w.sign b.xdr ≡ signed xdr) where
    polled-IsCareful :
        (hash : String)
        → w.submit b.venue b.id xdr ≡ submit_pending hash
        → (r : Polled) → IsPolled 0 20 r
        → IsCareful b (polled F page w again b hash comp r)
    polled-IsCareful hash e poll_aborted h = inr (tt, inr refl)
    polled-IsCareful hash e poll_failed h = inr ((tt, tt), inl refl)
    polled-IsCareful hash e poll_pending h = inr ((tt, tt), inl refl)
    polled-IsCareful hash e poll_success (k, less, before, a, s) = inl (record {
      xdr = xdr;
      signature = sign;
      hash = hash;
      final = inr (e, (k, less, before, a, s));
    })

    answered-IsCareful :
        (r : SubmitReply F.Num)
        → w.submit b.venue b.id xdr ≡ r
        → IsCareful b (answered F page w again b comp r)
    answered-IsCareful (submit_threw m) e = inr ((tt, tt), inl refl)
    answered-IsCareful (submit_refused code message asset) e = inr ((tt, tt), inl refl)
    answered-IsCareful (submitted hash) e =
        inl (record { xdr = xdr; signature = sign; hash = hash; final = inl e })
    answered-IsCareful (submit_pending hash) e =
        IsCareful-map b (show (confirming b hash comp)) (polled F page w again b hash comp _) tt
          (polled-IsCareful hash e _ (poll_tx_status-IsPolled 0 20))

  signed-IsCareful :
      (page : Page F.Num) (again : World F.Num) (b : Build) (comp : Option (Comp F.Num))
      (r : SignReply F.Num)
      → w.sign b.xdr ≡ r
      → IsCareful b (submit_signed F page w again b comp r)
  signed-IsCareful page again b comp (sign_threw m) e = inr ((tt, tt), inl refl)
  signed-IsCareful page again b comp (signed xdr) e =
      let reply = w.submit b.venue b.id xdr in
      let after = answered F page w again b comp reply in
      IsCareful-map b (show (submitting b comp))
        (record after { effects = ask_submit b.venue b.id xdr ∷ after.effects }) tt
        (IsCareful-map b (ask_submit b.venue b.id xdr) after tt
          (answered-IsCareful page again b comp xdr e reply refl))

  -- A transaction that is not signed, refused, found failed, still pending after the polls, or whose
  -- modal was found closed before is never taken for executed: nothing else is then ordered, and the
  -- state is an error, pending, or what the user has moved to. In every other case the wallet has
  -- signed it, and the server has taken it for final or has confirmed it at a poll, with the modal
  -- open at this poll and at all before it, which were undecided.
  pub confirm_build-IsCareful :
      (page : Page F.Num) (again : World F.Num) (b : Build) (comp : Option (Comp F.Num))
      → IsCareful b (confirm_build F page w again b comp)
  unfolding confirm_build
  confirm_build-IsCareful page again b comp =
      let after = submit_signed F page w again b comp (w.sign b.xdr) in
      IsCareful-map b (show (signing b comp))
        (record after { effects = ask_sign b.xdr ∷ after.effects }) tt
        (IsCareful-map b (ask_sign b.xdr) after tt
          (signed-IsCareful page again b comp (w.sign b.xdr) refl))
