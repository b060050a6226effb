-- ===== src/App/Exec/Arrival.antt =====
-- What the first leg of a composite is taken to have paid out.
use decant_fi.Common.{◌≡◌, refl, ◌⊎◌, inl, inr, [], ◌∷◌, Option, none, some, String}
use decant_fi.Common.Float.{Floats}
use decant_fi.App.State.{Comp, leg1_confirming, Page, World, show, Outcome}
use decant_fi.App.Exec.Composite.{build_composite_leg2, shown_first}
use decant_fi.App.Exec.Confirm.{
  UsdcPoll, closed, ended, poll_usdc, at_least_zero, received_of, leg1_landed, continue_leg2,
}
use decant_fi.App.Exec.Readings.{IsArrival, IsNoArrival, IsClosed, IsUsdcPoll, poll_usdc-IsUsdcPoll}

module _ (F : Floats) where
  -- What the second leg is given for the amount that arrived, at ten polls.
  abbrev pub IsReceived : World F.Num → Option F.Num → Option F.Num → Type 0
  IsReceived w before none =
      (first : Option F.Num) × IsNoArrival F w before none 0 10 first
      × ((before ≡ none) ⊎ (first ≡ none))
  IsReceived w before (some r) =
      ((first : Option F.Num) × IsArrival F w before none 0 10 first r)
      ⊎ ((first known : F.Num) × IsNoArrival F w before none 0 10 (some first)
          × (before ≡ some known)
          × (r ≡ at_least_zero F (F.sub first known)))

  received_of-IsReceived :
      (w : World F.Num) (before received initial : Option F.Num)
      → IsUsdcPoll F w before none 0 10 (ended received initial)
      → IsReceived w before (received_of F received initial before)
  received_of-IsReceived w before (some r) first h = inl (first, h)
  received_of-IsReceived w (some known) none (some first) h = inr (first, known, h, refl, refl)
  received_of-IsReceived w none none (some first) h = (some first, h, inl refl)
  received_of-IsReceived w (some known) none none h = (none, h, inr refl)
  received_of-IsReceived w none none none h = (none, h, inl refl)

  -- The context that the second leg gets.
  abbrev pub with_received : Comp F.Num → String → Option F.Num → Comp F.Num
  with_received comp hash received = record comp { hash1 = some hash; usdc_received = received }

  -- How the first leg ends.
  abbrev pub IsLeg1End : Page F.Num → World F.Num → Comp F.Num → String → Outcome F.Num → Type 0
  IsLeg1End page w comp hash o =
      (IsClosed F w 0 10
        × (o.state ≡ w.elsewhere)
        × (o.effects ≡ show (leg1_confirming (record comp { hash1 = some hash })) ∷ []))
      ⊎ ((received : Option F.Num) × IsReceived w comp.usdc_before received
          × (o
              ≡ shown_first (leg1_confirming (record comp { hash1 = some hash })) (
                  shown_first (leg1_confirming (with_received comp hash received))
                    (build_composite_leg2 page w (with_received comp hash received)))))

  ends :
      (page : Page F.Num) (w : World F.Num) (comp : Comp F.Num) (hash : String) (r : UsdcPoll F.Num)
      → IsUsdcPoll F w comp.usdc_before none 0 10 r
      → IsLeg1End page w comp hash (
          shown_first
            (leg1_confirming (record comp { hash1 = some hash }))
            (continue_leg2 F page w (record comp { hash1 = some hash }) r))
  ends page w comp hash closed h = inl (h, refl, refl)
  ends page w comp hash (ended received initial) h = inr (
    received_of F received initial comp.usdc_before,
    received_of-IsReceived w comp.usdc_before received initial h,
    refl,
  )

  -- Once the first leg has landed, the USDC balance is polled at most ten times. If
  -- the modal is found closed at a poll, nothing is ordered. Otherwise the second leg is built, once,
  -- and the modal was open at each poll made. Its amount is the first balance that exceeds the
  -- reference, less the reference, which is the balance before the swap or, where that was not read,
  -- the first balance read. Where no balance exceeds it, the amount is the first balance read less
  -- the balance before the swap, at least zero; it is unknown exactly when one of the two was not
  -- read.
  pub leg1_landed-IsLeg1End :
      (page : Page F.Num) (w : World F.Num) (comp : Comp F.Num) (hash : String)
      → IsLeg1End page w comp hash (leg1_landed F page w comp hash)
  leg1_landed-IsLeg1End page w comp hash =
      ends page w comp hash (poll_usdc F w comp.usdc_before none 0 10)
        (poll_usdc-IsUsdcPoll F w comp.usdc_before none 0 10)
