-- ===== src/Web/Execute/Pick/Choice.antt =====
-- What the execution of a swap picks, or why it does not.
use decant_fi.Common.{
  String, ◌≢◌, ℕ, ◌≡◌, refl, sym, subst, ◌∙◌, ◌⊎◌, inl, inr, Bool, true, false, List, [], ◌∷◌,
  Option, none, some, arith, All, In, Bool-cases, if◌then◌else◌,
}
use decant_fi.Common.Int.{ℤ, ◌≤ℤ◌, ltb_ℤ}
use decant_fi.Common.Float.{Floats}
use decant_fi.Common.Sort.{sort_by, sort_by-IsSorted, IsSorted, All-sort_by, In-sort_by}
use decant_fi.Web.Execute.{
  Venue, no_route, funds, ExecError, exec_error, trustline_missing, Outcome, ok, refused, broke,
  Target, Displayed,
}
use decant_fi.Web.Execute.Offers.{
  Candidate, net_of, Picked, Venues, Sell, comet_asked, offered, nets_less, target_asset,
}
use decant_fi.Web.Execute.Pick.{
  success, PickResult, picked, no_pick, threw, attempt, build_from, at_venue, or_no_route, tried,
  is_short, is_missing, after_quotes, when_quoted, pick_executable_venue,
}
use decant_fi.Web.Execute.Pick.Errors.{IsPrior, prior_error-IsPrior}
use decant_fi.Web.Execute.Pick.Order.{
  All-filter, In-filter, filter-IsSorted, Fails, errors_of, IsRun, run-IsRun,
}

module _ (F : Floats) (v : Venues F.Num) (sell : Sell) (target : Target) (amount : ℤ)
    (sender : String) (slippage_bps : ℕ) (displayed : Option (Displayed F.Num))
    (soroswap_configured : Bool) (forced : Option Venue) where
  abbrev pub FailsHere : Candidate → Type 0
  FailsHere = Fails F v sell target amount sender slippage_bps displayed soroswap_configured

  abbrev pub errors_left : List Candidate → List ExecError
  errors_left =
      errors_of F v sell target amount sender slippage_bps displayed soroswap_configured []

  abbrev pub asked : Outcome (Option ℤ)
  asked = comet_asked sell target v.simulate_comet

  abbrev pub At : Candidate → Type 0
  At c =
      at_venue F v sell target amount sender slippage_bps displayed soroswap_configured forced c
      ≡ true

  pub record IsPicked (p : Picked F.Num) : Type 0 where
    pub comet_out : Option ℤ
    pub answered : asked ≡ ok comet_out
    pub trusted : v.preflight.trustline_found ≢ some false
    pub funded : (liquid : ℤ) → v.preflight.liquid ≡ some liquid → amount ≤ℤ liquid
    pub chosen : Candidate
    pub member : In chosen (offered v comet_out)
    pub at_forced : At chosen
    pub builds :
        attempt F v sell target amount sender slippage_bps displayed soroswap_configured chosen
        ≡ success p
    pub best : All (λ c. At c → FailsHere c ⊎ (net_of c ≤ℤ net_of chosen)) (offered v comet_out)

  pub data IsRefused (e : ExecError) : Type 0 where
    by_comet : asked ≡ refused e → IsRefused e
    no_trustline :
        (comet_out : Option ℤ)
        → asked ≡ ok comet_out
        → v.preflight.trustline_found ≡ some false
        → e ≡ trustline_missing (target_asset target)
        → IsRefused e
    short_of :
        (comet_out : Option ℤ)
        → asked ≡ ok comet_out
        → (liquid : ℤ) → v.preflight.liquid ≡ some liquid
        → ltb_ℤ liquid amount ≡ true
        → e ≡ exec_error funds
        → IsRefused e
    nothing_offered :
        (comet_out : Option ℤ)
        → asked ≡ ok comet_out
        → All (λ c. ¬ At c) (offered v comet_out)
        → e ≡ exec_error no_route
        → IsRefused e
    all_failed :
        (comet_out : Option ℤ)
        → asked ≡ ok comet_out
        → All (λ c. At c → FailsHere c) (offered v comet_out)
        → IsPrior
            (errors_left (
              tried F v sell target amount sender slippage_bps displayed soroswap_configured forced
                comet_out))
            e
        → IsRefused e

  abbrev pub IsDecided : PickResult F.Num → Type 0
  IsDecided (picked p) = IsPicked p
  IsDecided (no_pick e) = IsRefused e
  IsDecided threw = asked ≡ broke

  module _ (comet_out : Option ℤ) (answered : asked ≡ ok comet_out) where
    abbrev in_order : List Candidate
    in_order =
        tried F v sell target amount sender slippage_bps displayed soroswap_configured forced
          comet_out

    -- What holds of the candidates in the order of the attempts holds of those offered.
    offered_lem :
        (P : Candidate → Type 0) → All P in_order → All (λ c. At c → P c) (offered v comet_out)
    offered_lem P h =
        All-sort_by nets_less (λ c. At c → P c) (offered v comet_out)
          (All-filter P
            (at_venue F v sell target amount sender slippage_bps displayed soroswap_configured
              forced)
            (sort_by nets_less (offered v comet_out)) h)

    decided :
        (r : PickResult F.Num)
        → v.preflight.trustline_found ≢ some false
        → ((liquid : ℤ) → v.preflight.liquid ≡ some liquid → amount ≤ℤ liquid)
        → IsRun F v sell target amount sender slippage_bps displayed soroswap_configured [] in_order
            r
        → IsDecided r
    decided (picked p) t f k =
        let m =
          In-filter k.chosen
            (at_venue F v sell target amount sender slippage_bps displayed soroswap_configured
              forced)
            (sort_by nets_less (offered v comet_out)) k.member in
        record {
          comet_out = comet_out;
          answered = answered;
          trusted = t;
          funded = f;
          chosen = k.chosen;
          member = In-sort_by nets_less k.chosen (offered v comet_out) m.0;
          at_forced = m.1;
          builds = k.builds;
          best = offered_lem (λ c. FailsHere c ⊎ (net_of c ≤ℤ net_of k.chosen)) k.best;
        }
    decided (no_pick e) t f k = all_failed comet_out answered (offered_lem FailsHere k.0) (
        subst (IsPrior (errors_left in_order)) (sym k.1)
          (prior_error-IsPrior (errors_left in_order)))
    decided threw t f k = absurd k

    tried_some :
        v.preflight.trustline_found ≢ some false
        → ((liquid : ℤ) → v.preflight.liquid ≡ some liquid → amount ≤ℤ liquid)
        → (cs : List Candidate) → in_order ≡ cs
        → IsDecided (
            or_no_route F v sell target amount sender slippage_bps displayed soroswap_configured cs)
    tried_some t f [] e =
        nothing_offered comet_out answered (offered_lem (λ c. ⊥) (subst (All (λ c. ⊥)) (sym e) tt))
          refl
    tried_some t f (c ∷ cs) e =
        decided
          (build_from F v sell target amount sender slippage_bps displayed soroswap_configured []
            (c ∷ cs))
          t f
          (subst
            (λ ds.
              IsRun F v sell target amount sender slippage_bps displayed soroswap_configured [] ds (
                build_from F v sell target amount sender slippage_bps displayed soroswap_configured
                  [] (c ∷ cs)))
            (sym e)
            (run-IsRun F v sell target amount sender slippage_bps displayed soroswap_configured []
              (c ∷ cs)
              (subst (IsSorted nets_less) e (
                filter-IsSorted nets_less
                  (at_venue F v sell target amount sender slippage_bps displayed soroswap_configured
                    forced)
                  (sort_by nets_less (offered v comet_out))
                  (sort_by-IsSorted nets_less asym trans (offered v comet_out))))))
      where
        asym : (x y : Candidate) → nets_less x y ≡ true → nets_less y x ≡ false
        asym x y h = ground arith

        trans :
            (x y z : Candidate)
            → nets_less x y ≡ false
            → nets_less y z ≡ false
            → nets_less x z ≡ false
        trans x y z h k = ground arith

    rest : Option ℤ → PickResult F.Num
    rest l =
        if is_short F v sell target amount sender slippage_bps displayed soroswap_configured l
        then no_pick (exec_error funds)
        else or_no_route F v sell target amount sender slippage_bps displayed soroswap_configured
            in_order

    funded_lem :
        v.preflight.trustline_found ≢ some false
        → (l : Option ℤ) → v.preflight.liquid ≡ l
        → IsDecided (rest l)
    unfolding rest
    funded_lem t none e =
        tried_some t (λ l h. let k : none ≡ some l = sym e ∙ h in cc) in_order refl
    funded_lem t (some liquid) e = elim (Bool-cases (ltb_ℤ liquid amount)) [
      | inl short ↦ rw short (short_of comet_out answered liquid e short refl)
      | inr full ↦ rw full (tried_some t (enough full) in_order refl)
    ]
      where
        enough : ltb_ℤ liquid amount ≡ false → (l : ℤ) → v.preflight.liquid ≡ some l → amount ≤ℤ l
        enough full l h =
            let both : some liquid ≡ some l = sym e ∙ h in
            let same : liquid ≡ l = cc in subst (λ x. amount ≤ℤ x) same (ground (arith, full))

    trusted_lem :
        (t : Option Bool)
        → v.preflight.trustline_found ≡ t
        → IsDecided (
            if is_missing t
            then no_pick (trustline_missing (target_asset target))
            else rest v.preflight.liquid)
    trusted_lem none e =
        funded_lem (λ h. let k : none ≡ some false = sym e ∙ h in cc) v.preflight.liquid refl
    trusted_lem (some true) e =
        funded_lem (λ h. let k : some true ≡ some false = sym e ∙ h in cc) v.preflight.liquid refl
    trusted_lem (some false) e = no_trustline comet_out answered e refl

    after_quotes-IsDecided : IsDecided (
        after_quotes F v sell target amount sender slippage_bps displayed soroswap_configured forced
          comet_out)
    unfolding after_quotes rest
    after_quotes-IsDecided = trusted_lem v.preflight.trustline_found refl

  quoted_lem :
      (r : Outcome (Option ℤ))
      → asked ≡ r
      → IsDecided (
          when_quoted F v sell target amount sender slippage_bps displayed soroswap_configured
            forced r)
  quoted_lem (ok comet_out) e = after_quotes-IsDecided comet_out e
  quoted_lem (refused x) e = by_comet e
  quoted_lem broke e = e

  -- A swap is picked only for a sender that is not known to lack the trustline or the amount. What
  -- is picked is the build of a candidate that was offered, at the venue that was asked for if one
  -- was; and every candidate there either could not be built or pays out no more. Otherwise the
  -- error says which of these failed: the trustline, the funds, no candidate there, or, when no
  -- candidate there could be built, an error of the highest priority among those that the builds
  -- left. The call throws what is no such error exactly when the simulation of Comet does.
  pub pick_executable_venue-IsDecided : IsDecided (
      pick_executable_venue F v sell target amount sender slippage_bps displayed soroswap_configured
        forced)
  unfolding pick_executable_venue
  pick_executable_venue-IsDecided = quoted_lem asked refl
