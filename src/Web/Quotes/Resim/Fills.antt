-- ===== src/Web/Quotes/Resim/Fills.antt =====
-- What the simulation of a source fills for its direct quote.
use decant_fi.Common.{
  ◌≡◌, refl, sym, subst, ◌⊎◌, inl, inr, Bool, true, false, ◌&&◌, List, [], ◌∷◌, Option, none, some,
  String, str_eq, str_eq_iff, arith, Bool-cases,
}
use decant_fi.Common.Int.{ℤ, eq_ℤ, eq_of_parts}
use decant_fi.Core.Rank.{RankedQuote, is_positive}
use decant_fi.Web.Execute.Offers.{Simulated}
use decant_fi.Web.Quotes.Resim.{
  Simulators, caught, given, BrokerFill, find_source, aquarius_asked, xbull_asked, aquarius_fill,
  xbull_fill, broker_fill,
}
use decant_fi.Web.Quotes.Resim.Result.{simulated, direct_fill}
use decant_fi.Web.Quotes.Resim.Rows.{
  Verdict, filled, aquarius_verdict, xbull_verdict, broker_verdict, verdict_by, verdict,
}

-- The amount that a direct quote is corrected by: that of the fill, where it is not the one quoted.
abbrev pub Fills : Verdict → ℤ → Option ℤ → Type 0
Fills (filled n c) quoted o = (o ≡ some n) ⊎ ((n ≡ quoted) × (o ≡ none))
Fills _ quoted o = o ≡ none

module _ {Num : Type 0} (s : Simulators) (amount : ℤ) where
  find_source-source :
      (id : String) (ranked : List (RankedQuote Num)) (q : RankedQuote Num)
      → find_source id ranked ≡ some q
      → str_eq q.source id ≡ true
  find_source-source id [] q h = cc
  find_source-source id (r ∷ ranked) q h = elim (Bool-cases (str_eq r.source id)) [
    | inl e ↦
        let k : some r ≡ some q = rw e at h in
        let same : r ≡ q = cc in subst (λ (x : RankedQuote Num). str_eq x.source id ≡ true) same e
    | inr e ↦ find_source-source id ranked q (rw e at h)
  ]

  module _ (q : RankedQuote Num) where
    aquarius_fill-Fills :
        (a : Option ℤ) → Fills (aquarius_verdict a) q.net_out (aquarius_fill q a).net
    aquarius_fill-Fills none = refl
    aquarius_fill-Fills (some n) = elim (Bool-cases (is_positive n)) [
      | inl p ↦ elim (Bool-cases (eq_ℤ n q.net_out)) [
        | inl e ↦ simp (p, e) (inr (sym (eq_of_parts q.net_out n (ground (arith, e))), refl))
        | inr e ↦ simp (p, e) (inl refl)
      ]
      | inr p ↦ rw p refl
    ]

    xbull_fill-Fills :
        (a : Option Simulated)
        → Fills (xbull_verdict q.net_confidence a) q.net_out (xbull_fill q a).net
    xbull_fill-Fills none = refl
    xbull_fill-Fills (some f) = elim (Bool-cases (is_positive f.net)) [
      | inl p ↦ elim (Bool-cases (eq_ℤ f.net q.net_out)) [
        | inl e ↦ simp (p, e) (inr (sym (eq_of_parts q.net_out f.net (ground (arith, e))), refl))
        | inr e ↦ simp (p, e) (inl refl)
      ]
      | inr p ↦ rw p refl
    ]

    broker_fill-Fills :
        (a : Option BrokerFill) → Fills (broker_verdict a) q.net_out (broker_fill a).net
    broker_fill-Fills none = refl
    broker_fill-Fills (some f) = elim (Bool-cases (is_positive f.net && f.is_exact)) [
      | inl p ↦ rw p (inl refl)
      | inr p ↦ rw p refl
    ]

    aquarius_asked-Fills :
        (t : Option String)
        → Fills
            (verdict_by aquarius_verdict (λ xdr. caught (s.aquarius xdr amount q.sell_asset.sac)) t)
            q.net_out
            (aquarius_asked s amount q t).net
    aquarius_asked-Fills none = refl
    aquarius_asked-Fills (some xdr) =
        aquarius_fill-Fills (caught (s.aquarius xdr amount q.sell_asset.sac))

    xbull_asked-Fills :
        (t : Option String)
        → Fills
            (verdict_by (xbull_verdict q.net_confidence) (λ route. caught (s.xbull route amount)) t)
            q.net_out
            (xbull_asked s amount q t).net
    xbull_asked-Fills none = refl
    xbull_asked-Fills (some route) = xbull_fill-Fills (caught (s.xbull route amount))

  -- What the simulations say of the direct quote, from the ranked quote of its source.
  abbrev pub FillsFor : Option (RankedQuote Num) → Option ℤ → Type 0
  FillsFor none o = o ≡ none
  FillsFor (some q) o = Fills (verdict s amount q.quote) q.net_out o

  module _ (ranked : List (RankedQuote Num)) (source : String) where
    found_as :
        (id : String) (o : Option (RankedQuote Num))
        → str_eq source id ≡ true
        → find_source source ranked ≡ o
        → find_source id ranked ≡ o
    found_as id o h e = subst (λ t. find_source t ranked ≡ o) ((str_eq_iff source id).0 h) e

    of_none :
        find_source source ranked ≡ none → direct_fill (simulated s amount ranked) source ≡ none
    unfolding simulated
    of_none e = elim (Bool-cases (str_eq source "aquarius")) [
      | inl h ↦ simp (h, found_as "aquarius" none h e) refl
      | inr a ↦ elim (Bool-cases (str_eq source "xbull")) [
        | inl h ↦ simp (a, h, found_as "xbull" none h e) refl
        | inr x ↦ elim (Bool-cases (str_eq source "stellarbroker")) [
          | inl h ↦ simp (a, x, h, found_as "stellarbroker" none h e) refl
          | inr b ↦ simp (a, x, b) refl
        ]
      ]
    ]

    of_some :
        (q : RankedQuote Num)
        → find_source source ranked ≡ some q
        → Fills
            (verdict s amount q.quote)
            q.net_out
            (direct_fill (simulated s amount ranked) source)
    unfolding simulated
    of_some q e = elim (Bool-cases (str_eq source "aquarius")) [
      | inl h ↦
          simp (h, found_as "aquarius" (some q) h e, is "aquarius" true h)
            (aquarius_asked-Fills q (given q.quote.raw.swap_chain_xdr))
      | inr a ↦ elim (Bool-cases (str_eq source "xbull")) [
        | inl h ↦
            simp (a, h, found_as "xbull" (some q) h e, is "aquarius" false a, is "xbull" true h)
              (xbull_asked-Fills q (given q.quote.raw.route))
        | inr x ↦ elim (Bool-cases (str_eq source "stellarbroker")) [
          | inl h ↦ elim (Bool-cases s.has_broker_key) [
            | inl k ↦
                simp
                  (
                    a,
                    x,
                    h,
                    k,
                    found_as "stellarbroker" (some q) h e,
                    is "aquarius" false a,
                    is "xbull" false x,
                    is "stellarbroker" true h,
                  )
                  (broker_fill-Fills q (caught (s.broker q.sell_asset q.buy_asset amount)))
            | inr k ↦
                simp
                  (
                    a,
                    x,
                    h,
                    k,
                    found_as "stellarbroker" (some q) h e,
                    is "aquarius" false a,
                    is "xbull" false x,
                    is "stellarbroker" true h,
                  )
                  refl
          ]
          | inr b ↦
              simp (a, x, b, is "aquarius" false a, is "xbull" false x, is "stellarbroker" false b)
                refl
        ]
      ]
    ]
      where
        same : source ≡ q.source
        same = sym ((str_eq_iff q.source source).0 (find_source-source source ranked q e))

        is : (id : String) (b : Bool) → str_eq source id ≡ b → str_eq q.source id ≡ b
        is id b h = subst (λ t. str_eq t id ≡ b) same h

    pub direct_fill-FillsFor :
        (found : Option (RankedQuote Num))
        → find_source source ranked ≡ found
        → FillsFor found (direct_fill (simulated s amount ranked) source)
    direct_fill-FillsFor none e = of_none e
    direct_fill-FillsFor (some q) e = of_some q e
