-- ===== src/Web/Quotes/Resim/Rows.antt =====
-- What a quote is worth after the re-simulation, told from its own simulation alone.
use decant_fi.Common.{
  ◌≡◌, refl, ◌∙◌, subst, inl, inr, Bool, true, false, ◌&&◌, List, Option, none, some, String,
  str_eq, str_eq_iff, is_some, if◌then◌else◌, arith, Bool-cases, Option-cases,
}
use decant_fi.Common.Int.{ℤ, eq_ℤ, eq_of_parts}
use decant_fi.Common.Float.{Floats}
use decant_fi.Core.Types.{NormalizedQuote, NetConfidence, exact, estimate, RouteHop}
use decant_fi.Core.Rank.{RankedQuote, is_positive}
use decant_fi.Core.Prices.{Prices}
use decant_fi.Web.Execute.Offers.{Simulated}
use decant_fi.Web.Quotes.Resim.{
  Simulators, caught, given, BrokerFill, find_source, unseen, hops_of, aquarius_asked, xbull_asked,
  aquarius_fill, xbull_fill, broker_fill,
}
use decant_fi.Web.Quotes.Resim.Result.{
  Sims, has_news, simulated, corrected, aquarius_row, xbull_row, broker_row,
}

-- What a simulation says of a quote.
pub data Verdict : Type 0 where
  -- unpaid: it pays out nothing
  silent no_answer unpaid : Verdict
  -- the amount that is filled, and how sure it is
  filled : ℤ → NetConfidence → Verdict

abbrev pub filled_if : Bool → ℤ → NetConfidence → Verdict
filled_if ok n c = if ok then filled n c else silent

abbrev pub aquarius_verdict : Option ℤ → Verdict
aquarius_verdict none = no_answer
aquarius_verdict (some n) = filled_if (is_positive n) n exact

abbrev pub xbull_verdict : NetConfidence → Option Simulated → Verdict
xbull_verdict c none = no_answer
xbull_verdict c (some s) = if is_positive s.net then filled s.net c else unpaid

abbrev pub broker_verdict : Option BrokerFill → Verdict
broker_verdict none = silent
broker_verdict (some f) = filled_if (is_positive f.net && f.is_exact) f.net exact

abbrev pub verdict_by : {A : Type 0} → (A → Verdict) → (String → A) → Option String → Verdict
verdict_by f ask none = silent
verdict_by f ask (some t) = f (ask t)

module _ {Num : Type 0} where
  abbrev pub verdict : Simulators → ℤ → NormalizedQuote Num → Verdict
  verdict s amount q =
      if str_eq q.source "aquarius"
      then verdict_by aquarius_verdict (λ xdr. caught (s.aquarius xdr amount q.sell_asset.sac))
          (given q.raw.swap_chain_xdr)
      else if str_eq q.source "xbull"
      then verdict_by (xbull_verdict q.net_confidence) (λ route. caught (s.xbull route amount))
          (given q.raw.route)
      else if str_eq q.source "stellarbroker" && s.has_broker_key
      then broker_verdict (caught (s.broker q.sell_asset q.buy_asset amount))
      else silent

  abbrev pub IsWorth : Verdict → NormalizedQuote Num → NormalizedQuote Num → Type 0
  IsWorth silent q r = r ≡ q
  IsWorth no_answer q r = r ≡ record q { net_confidence = estimate }
  IsWorth unpaid q r = (r.net_out ≡ q.net_out) × (r.net_confidence ≡ q.net_confidence)
  IsWorth (filled n c) q r = (r.net_out ≡ n) × (r.net_confidence ≡ c)

module _ (F : Floats) (s : Simulators) (pair : String) (prices : Prices F.Num) (amount : ℤ)
    (q : RankedQuote F.Num) where
  aquarius_fill-IsWorth :
      (a : Option ℤ)
      → IsWorth
          (aquarius_verdict a)
          q.quote
          (aquarius_row F s pair prices (aquarius_fill q a) q.quote)
  aquarius_fill-IsWorth none = refl
  aquarius_fill-IsWorth (some n) = elim (Bool-cases (is_positive n)) [
    | inl p ↦ elim (Bool-cases (eq_ℤ n q.net_out)) [
      | inl e ↦ simp (p, e) (eq_of_parts q.net_out n (ground (arith, e)), refl)
      | inr e ↦ simp (p, e) (refl, refl)
    ]
    | inr p ↦ rw p refl
  ]

  aquarius_asked-IsWorth :
      (t : Option String)
      → IsWorth
          (verdict_by aquarius_verdict (λ xdr. caught (s.aquarius xdr amount q.sell_asset.sac)) t)
          q.quote
          (aquarius_row F s pair prices (aquarius_asked s amount q t) q.quote)
  aquarius_asked-IsWorth none = refl
  aquarius_asked-IsWorth (some xdr) =
      aquarius_fill-IsWorth (caught (s.aquarius xdr amount q.sell_asset.sac))

  xbull_row_lem :
      (net : Option ℤ) (hops : Option (List RouteHop))
      → let r = xbull_row F s pair prices (record unseen { net = net; hops = hops }) q.quote in
        (r.net_out ≡ elim net [ none ↦ q.net_out | some n ↦ n ])
        × (r.net_confidence ≡ q.net_confidence)
  xbull_row_lem none none = (refl, refl)
  xbull_row_lem none (some h) = (refl, refl)
  xbull_row_lem (some n) none = (refl, refl)
  xbull_row_lem (some n) (some h) = (refl, refl)

  xbull_fill-IsWorth :
      (a : Option Simulated)
      → IsWorth
          (xbull_verdict q.net_confidence a)
          q.quote
          (xbull_row F s pair prices (xbull_fill q a) q.quote)
  xbull_fill-IsWorth none = refl
  xbull_fill-IsWorth (some f) = elim (Bool-cases (is_positive f.net)) [
    | inl p ↦ elim (Bool-cases (eq_ℤ f.net q.net_out)) [
      | inl e ↦
          let r = xbull_row_lem none hops in
          simp (p, e) (r.0 ∙ eq_of_parts q.net_out f.net (ground (arith, e)), r.1)
      | inr e ↦ simp (p, e) (xbull_row_lem (some f.net) hops)
    ]
    | inr p ↦ simp p (xbull_row_lem none hops)
  ]
    where
      hops : Option (List RouteHop)
      hops = hops_of "xbull" f.route

  xbull_asked-IsWorth :
      (t : Option String)
      → IsWorth
          (verdict_by (xbull_verdict q.net_confidence) (λ route. caught (s.xbull route amount)) t)
          q.quote
          (xbull_row F s pair prices (xbull_asked s amount q t) q.quote)
  xbull_asked-IsWorth none = refl
  xbull_asked-IsWorth (some route) = xbull_fill-IsWorth (caught (s.xbull route amount))

  broker_fill-IsWorth :
      (a : Option BrokerFill)
      → IsWorth
          (broker_verdict a)
          q.quote
          (broker_row F s pair prices (broker_fill a) (broker_fill a).net q.quote)
  broker_fill-IsWorth none = refl
  broker_fill-IsWorth (some f) = elim (Bool-cases (is_positive f.net && f.is_exact)) [
    | inl p ↦ rw p (refl, refl)
    | inr p ↦ rw p refl
  ]

  -- The row of a quote that is the first of its source.
  pub corrected-IsWorth :
      (ranked : List (RankedQuote F.Num))
      → find_source q.source ranked ≡ some q
      → IsWorth
          (verdict s amount q.quote)
          q.quote
          (corrected F s pair prices (simulated s amount ranked) q.quote)
  unfolding corrected simulated
  corrected-IsWorth ranked first = elim (Bool-cases (str_eq q.source "aquarius")) [
    | inl e ↦ simp (e, known _ e) (aquarius_asked-IsWorth (given q.quote.raw.swap_chain_xdr))
    | inr a ↦ elim (Bool-cases (str_eq q.source "xbull")) [
      | inl e ↦ simp (a, e, known _ e) (xbull_asked-IsWorth (given q.quote.raw.route))
      | inr x ↦ elim (Bool-cases (str_eq q.source "stellarbroker")) [
        | inl e ↦ elim (Bool-cases s.has_broker_key) [
          | inl k ↦
              simp (a, x, e, k, known _ e)
                (broker_fill-IsWorth (caught (s.broker q.sell_asset q.buy_asset amount)))
          | inr k ↦ simp (a, x, e, k, known _ e) refl
        ]
        | inr b ↦ simp (a, x, b) refl
      ]
    ]
  ]
    where
      known : (id : String) → str_eq q.source id ≡ true → find_source id ranked ≡ some q
      known id e = subst (λ t. find_source t ranked ≡ some q) ((str_eq_iff q.source id).0 e) first

module _ (F : Floats) (s : Simulators) (pair : String) (prices : Prices F.Num) where
  -- A simulation that has nothing to say changes nothing.
  pub corrected_quiet :
      (sims : Sims) (q : NormalizedQuote F.Num)
      → has_news sims ≡ false
      → corrected F s pair prices sims q ≡ q
  unfolding corrected
  corrected_quiet sims q h = elim (Bool-cases (str_eq q.source "aquarius")) [
    | inl e ↦ simp (e, observed, failed) refl
    | inr a ↦ elim (Bool-cases (str_eq q.source "xbull")) [
      | inl e ↦ simp (a, e, x_net, x_hops, x_failed) refl
      | inr x ↦ elim (Bool-cases (str_eq q.source "stellarbroker")) [
        | inl e ↦ simp (a, x, e, b_net) refl
        | inr b ↦ simp (a, x, b) refl
      ]
    ]
  ]
    where
      observed : sims.aquarius.is_observed ≡ false
      observed = ground (arith, h)

      failed : sims.aquarius.has_failed ≡ false
      failed = ground (arith, h)

      x_net : is_some sims.xbull.net ≡ false
      x_net = ground (arith, h)

      x_hops : is_some sims.xbull.hops ≡ false
      x_hops = ground (arith, h)

      x_failed : sims.xbull.has_failed ≡ false
      x_failed = ground (arith, h)

      b_net : sims.broker.net ≡ none
      b_net = elim (Option-cases sims.broker.net) [
        | inl e ↦ e
        | inr p ↦ elim (Bool-cases (is_some sims.broker.net)) [
          | inl t ↦ ground (arith, h, t)
          | inr t ↦ ground (arith, p.1, t)
        ]
      ]
