-- ===== src/Core/Engine/Legs.antt =====
-- The legs of a composite that the engine offers.
use decant_fi.Common.{
  ℕ, refl, ◌⊎◌, sym, false, String, codes, any, All, arith, ◌≡◌, inl, inr, Bool, true, ◌&&◌, List,
  [], ◌∷◌, Option, none, some, In, here, there, filter, ap, subst, ◌∙◌, Bool-cases, str_eq, ◌>>=◌,
}
use decant_fi.Common.Int.{ℤ}
use decant_fi.Common.Float.{Floats}
use decant_fi.Core.Types.{Asset, NormalizedQuote}
use decant_fi.Core.Prices.{Prices}
use decant_fi.Core.Amount.{trim}
use decant_fi.Web.Execute.{Venue, xbull, soroswap, horizon, aquarius, comet, ultrastellar}
use decant_fi.Web.Server.{venue_named}
use decant_fi.Core.Executable.{executable_sources, codes_eq, is_executable_source}
use decant_fi.Core.Eurc.{EurcQuoters, EurcComparison, ViaUsdcResult, compare_eurc}
use decant_fi.Core.Eurc.Choice.{compare_eurc-IsComposite}
use decant_fi.Core.Rank.{rank_quotes}
use decant_fi.Core.Engine.{
  QuoteAll, QuoteResult, EngineConfig, quote, eurc_quoters, comparison_for, quote_all, request,
}
use decant_fi.Core.Engine.Rounds.{OnSome}

head-In :
    {A : Type 0} (p : A → Bool) (a x : A) (xs : List A)
    → p x ≡ true
    → (In a xs → p a ≡ true)
    → In a (x ∷ xs)
    → p a ≡ true
head-In p a x xs e later (here q) = ap p q ∙ e
head-In p a x xs e later (there j) = later j

In-filter : {A : Type 0} (p : A → Bool) (a : A) (xs : List A) → In a (filter p xs) → p a ≡ true
In-filter p a [] i = elim i [ ]
In-filter p a (x ∷ xs) i = elim (Bool-cases (p x)) [
  | inl e ↦ head-In p a x (filter p xs) e (In-filter p a xs) (rw e at i)
  | inr e ↦ In-filter p a xs (rw e at i)
]

-- A name at which the server builds a swap, or that of StellarBroker, at which it does not.
abbrev pub IsPlace : String → Type 0
IsPlace id =
    ((venue : Venue) × (venue_named id ≡ some venue))
    ⊎ ((id ≡ "stellarbroker") × (venue_named id ≡ none))

-- Without the white space around it, the source is such a name.
pub record IsPlaced (source : String) : Type 0 where
  pub id : String
  pub trimmed : trim (codes source) ≡ codes id
  pub place : IsPlace id

codes_eq-lem : (s t : List ℕ) → codes_eq s t ≡ true → s ≡ t
unfolding codes_eq
codes_eq-lem [] [] h = refl
codes_eq-lem [] (d ∷ t) h = cc
codes_eq-lem (c ∷ s) [] h = cc
codes_eq-lem (c ∷ s) (d ∷ t) h =
    let rest = codes_eq-lem s t (ground (arith, h)) in let first : c ≡ d = ground (arith, h) in cc

among :
    (source : String) (ids : List String)
    → All IsPlace ids
    → any (λ s. codes_eq (codes s) (trim (codes source))) ids ≡ true
    → IsPlaced source
among source [] h e = cc
among source (id ∷ ids) h e = elim (Bool-cases (codes_eq (codes id) (trim (codes source)))) [
  | inl y ↦ record {
    id = id;
    trimmed = sym (codes_eq-lem (codes id) (trim (codes source)) y);
    place = h.0;
  }
  | inr n ↦ among source ids h.1 (rw n at e)
]

executable-places : All IsPlace executable_sources
unfolding venue_named
executable-places = (
  inl (xbull, refl),
  (
    inl (soroswap, refl),
    (
      inl (horizon, refl),
      (
        inl (aquarius, refl),
        (inl (comet, refl), (inl (ultrastellar, refl), (inr (refl, refl), tt))),
      ),
    ),
  ),
)

and-second : (a b : Bool) → a && b ≡ true → b ≡ true
and-second true b h = h
and-second false b h = cc

is_executable_source-IsPlaced :
    (source : String) → is_executable_source source ≡ true → IsPlaced source
unfolding is_executable_source
is_executable_source-IsPlaced source h =
    among source executable_sources executable-places (and-second _ _ h)

module _ (F : Floats) (cfg : EngineConfig F) (prices : Prices F.Num) where
  -- Both legs of a composite are at sources that one click can execute.
  abbrev pub HasExecutableLegs : Option (EurcComparison F.Num) → Type 0
  HasExecutableLegs none = Unit
  HasExecutableLegs (some c) =
      (v : ViaUsdcResult F.Num)
      → c.via ≡ some v
      → IsPlaced v.leg1.quote.source × IsPlaced v.leg2.quote.source

  comparison-HasExecutableLegs :
      (sell buy : Asset) (amount : ℤ)
      → HasExecutableLegs (comparison_for F cfg prices sell buy amount)
  comparison-HasExecutableLegs sell buy amount =
      elim (Bool-cases (str_eq buy.symbol "EURC" && str_eq sell.symbol "BLND")) [
        | inl e ↦ simp e legs
        | inr e ↦ simp e tt
      ]
    where
      quoters : EurcQuoters F.Num
      quoters = eurc_quoters F cfg prices

      legs :
          (v : ViaUsdcResult F.Num)
          → (compare_eurc F quoters cfg.re_sim_leg (some is_executable_source) amount).via ≡ some v
          → IsPlaced v.leg1.quote.source × IsPlaced v.leg2.quote.source
      legs v k =
          let both =
            compare_eurc-IsComposite F quoters cfg.re_sim_leg (some is_executable_source) amount v
              k in
          (
            is_executable_source-IsPlaced v.leg1.quote.source (
                In-filter (λ (q : NormalizedQuote F.Num). is_executable_source q.source)
                  v.leg1.quote _ both.first.0),
            is_executable_source-IsPlaced v.leg2.quote.source (
                In-filter (λ (q : NormalizedQuote F.Num). is_executable_source q.source)
                  v.leg2.quote _ both.second.0),
          )

  -- The source of each leg of a composite that the engine offers is, without the white space around
  -- it, a venue at which the server builds swaps, or StellarBroker, whose name the server does not
  -- take for a venue.
  pub quote-HasExecutableLegs :
      (sell buy : Asset) (amount : ℤ) (r : QuoteResult F)
      → quote F cfg prices sell buy amount ≡ some r
      → HasExecutableLegs r.comparison
  unfolding quote
  quote-HasExecutableLegs sell buy amount r e =
      subst (OnSome F (λ (x : QuoteResult F). HasExecutableLegs x.comparison)) e
        (ends (quote_all F (request F sell buy amount cfg.slippage_bps) prices cfg.adapters))
    where
      ends :
          (o : Option (QuoteAll F.Num))
          → OnSome F
              (λ (x : QuoteResult F). HasExecutableLegs x.comparison)
              (o >>= λ main. some (record {
                main = main;
                ranking = rank_quotes F main.quotes;
                comparison = comparison_for F cfg prices sell buy amount;
              }))
      ends none = tt
      ends (some all) = comparison-HasExecutableLegs sell buy amount
