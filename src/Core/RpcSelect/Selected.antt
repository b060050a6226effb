-- ===== src/Core/RpcSelect/Selected.antt =====
-- Which endpoint is chosen.
use decant_fi.Common.{
  ℕ, ◌+◌, ◌≤◌, ◌<◌, ◌≡◌, refl, ◌⊎◌, inl, inr, true, false, List, [], ◌∷◌, Option, none, some,
  String, str_eq, str_eq_iff, find, In, here, there, All, All-In, arith, Bool-cases, ap, sym, subst,
  ◌∙◌,
}
use decant_fi.Core.RpcSelect.{
  Probed, answers, fails, RpcProbe, Live, live_first, ok_probes, max_ledger, is_good, first_good,
  best_of, choose_among, probe_all, select_rpc,
}
use decant_fi.Core.RpcSelect.Best.{Beats, best_of-IsBestOf, max_ledger_lem, max_ledger_least}

module _ (probe : String → Probed) where
  -- An endpoint of the list that answered.
  abbrev pub Answered : List String → Live → Type 0
  Answered urls p = In p.url urls × (probe p.url ≡ answers p.latency_ms p.ledger)

  first-Answered :
      (url : String) (r : Probed) (rest : List Live) (p : Live)
      → In p (live_first url r rest)
      → ((p.url ≡ url) × (r ≡ answers p.latency_ms p.ledger)) ⊎ In p rest
  first-Answered url (answers l g) rest p (here e) =
      inl (ap (λ q. q.url) e, sym (ap (λ q. answers q.latency_ms q.ledger) e))
  first-Answered url (answers l g) rest p (there i) = inr i
  first-Answered url (fails l m) rest p i = inr i

  ok_probes-Answered :
      (urls : List String) (p : Live) → In p (ok_probes (probe_all probe urls)) → Answered urls p
  unfolding ok_probes
  ok_probes-Answered [] p i = elim i [ ]
  ok_probes-Answered (url ∷ urls) p i =
      elim (first-Answered url (probe url) (ok_probes (probe_all probe urls)) p i) [
        | inl e ↦ (here e.0, ap probe e.0 ∙ e.1)
        | inr j ↦ let a = ok_probes-Answered urls p j in (there a.0, a.1)
      ]

  abbrev latency_of : Probed → ℕ
  latency_of (answers l g) = l
  latency_of (fails l m) = l

  abbrev ledger_of : Probed → ℕ
  ledger_of (answers l g) = g
  ledger_of (fails l m) = 0

  Answered-first :
      (url : String) (r : Probed) (rest : List Live) (p : Live)
      → p.url ≡ url
      → r ≡ answers p.latency_ms p.ledger
      → In p (live_first url r rest)
  Answered-first url (answers l g) rest p e f = here (
      ap (λ u. live u p.latency_ms p.ledger) e
      ∙ ap (λ r. live url (latency_of r) (ledger_of r)) (sym f))
    where
      live : String → ℕ → ℕ → Live
      live u latency ledger = record { url = u; latency_ms = latency; ledger = ledger }
  Answered-first url (fails l m) rest p e f = cc

  skip-first :
      (url : String) (r : Probed) (rest : List Live) (p : Live)
      → In p rest
      → In p (live_first url r rest)
  skip-first url (answers l g) rest p i = there i
  skip-first url (fails l m) rest p i = i

  Answered-ok_probes :
      (urls : List String) (p : Live) → Answered urls p → In p (ok_probes (probe_all probe urls))
  unfolding ok_probes
  Answered-ok_probes (url ∷ urls) p (here e, f) =
      Answered-first url (probe url) _ p e (ap probe (sym e) ∙ f)
  Answered-ok_probes (url ∷ urls) p (there i, f) =
      skip-first url (probe url) _ p (Answered-ok_probes urls p (i, f))
  Answered-ok_probes [] p (i, f) = elim i [ ]

  elsewhere :
      (u url : String) (urls : List String) → In url (u ∷ urls) → str_eq u url ≡ false → In url urls
  elsewhere u url urls (here q) e =
      let same : str_eq u url ≡ true = (str_eq_iff u url).1 (sym q) in absurd cc
  elsewhere u url urls (there i) e = i

  find_lem :
      (url : String) (urls : List String)
      → In url urls
      → find (λ (p : RpcProbe). str_eq p.url url) (probe_all probe urls)
        ≡ some (record { url = url; probed = probe url })
  find_lem url (u ∷ urls) i = elim (Bool-cases (str_eq u url)) [
    | inl e ↦ rw e (ap (λ v. some (record { url = v; probed = probe v })) ((str_eq_iff u url).0 e))
    | inr e ↦ rw e (find_lem url urls (elsewhere u url urls i e))
  ]
  find_lem url [] i = elim i [ ]

  -- The endpoint is on the list, answered fast, and is at most two ledgers behind each endpoint that
  -- answered.
  abbrev pub IsGood : List String → String → Type 0
  IsGood urls url =
      (p : Live) × (p.url ≡ url)
      × Answered urls p
      × (p.latency_ms < 2500)
      × ((q : Live) → Answered urls q → q.ledger ≤ p.ledger + 2)

  newest_of : List String → ℕ
  newest_of urls = max_ledger (ok_probes (probe_all probe urls))

  is_good-IsGood :
      (urls : List String) (url : String) (r : Probed)
      → In url urls
      → probe url ≡ r
      → is_good (newest_of urls) r ≡ true
      → IsGood urls url
  unfolding newest_of
  is_good-IsGood urls url (fails l m) i e h = cc
  is_good-IsGood urls url (answers l g) i e h = (
    record { url = url; latency_ms = l; ledger = g },
    refl,
    (i, e),
    ground (arith, h),
    λ q a. newer q (
        All-In (λ p. p.ledger ≤ newest_of urls) (Answered-ok_probes urls q a)
          (max_ledger_lem (ok_probes (probe_all probe urls)))),
  )
    where
      newer : (q : Live) → q.ledger ≤ newest_of urls → q.ledger ≤ g + 2
      newer q k = ground (arith, h, k)

  IsGood-is_good :
      (urls : List String) (url : String)
      → IsGood urls url
      → is_good (newest_of urls) (probe url) ≡ true
  unfolding newest_of
  IsGood-is_good urls url (p, e, a, fast, fresh) =
      let least =
        max_ledger_least (ok_probes (probe_all probe urls)) (p.ledger + 2)
          (λ q i. fresh q (ok_probes-Answered urls q i)) in
      let reply : probe url ≡ answers p.latency_ms p.ledger = ap probe (sym e) ∙ a.1 in
      rw reply (ground (arith, least, fast))

  -- The first good one.
  pub data IsFirstGood (urls : List String) : List String → String → Type 0 where
    first_here :
        {url : String} {rest : List String} → IsGood urls url → IsFirstGood urls (url ∷ rest) url
    first_later :
        {other url : String} {rest : List String}
        → ¬ IsGood urls other
        → IsFirstGood urls rest url
        → IsFirstGood urls (other ∷ rest) url

  IsGood-In : (urls : List String) (url : String) → IsGood urls url → In url urls
  IsGood-In urls url (p, e, a, fast, fresh) = subst (λ u. In u urls) e a.0

  -- Where the loop over the URLs ends.
  abbrev pub IsLoopEnd : List String → List String → Option String → Type 0
  IsLoopEnd urls rest none = All (λ url. ¬ IsGood urls url) rest
  IsLoopEnd urls rest (some url) = IsFirstGood urls rest url

  loop_step :
      (urls : List String) (other : String) (rest : List String) (o : Option String)
      → ¬ IsGood urls other
      → IsLoopEnd urls rest o
      → IsLoopEnd urls (other ∷ rest) o
  loop_step urls other rest none bad h = (bad, h)
  loop_step urls other rest (some url) bad h = first_later bad h

  first_good-IsLoopEnd :
      (urls rest : List String)
      → All (λ url. In url urls) rest
      → IsLoopEnd urls rest (first_good (newest_of urls) (probe_all probe urls) rest)
  unfolding first_good
  first_good-IsLoopEnd urls [] h = tt
  first_good-IsLoopEnd urls (url ∷ rest) h =
      let found = find_lem url urls h.0 in
      let ih = first_good-IsLoopEnd urls rest h.1 in
      elim (Bool-cases (is_good (newest_of urls) (probe url))) [
        | inl e ↦ rw found (rw e (first_here (is_good-IsGood urls url (probe url) h.0 refl e)))
        | inr e ↦ rw found (
            rw e (
              loop_step urls url rest _ (λ g. let good = IsGood-is_good urls url g in absurd cc)
                ih))
      ]

  -- What is chosen from at least two URLs, the first of which is given.
  abbrev pub IsSelected : String → List String → String → Type 0
  IsSelected first urls url =
      (((p : Live) → ¬ Answered urls p) × (url ≡ first))
      ⊎ (IsFirstGood urls urls url
          ⊎ (All (λ u. ¬ IsGood urls u) urls
              × ((p : Live) × (p.url ≡ url)
                  × Answered urls p
                  × ((q : Live) → Answered urls q → Beats p q))))

  everywhere :
      (urls rest : List String) → ((u : String) → In u rest → In u urls) → All (λ u. In u urls) rest
  everywhere urls [] h = tt
  everywhere urls (u ∷ rest) h = (h u (here refl), everywhere urls rest (λ v i. h v (there i)))

  among-IsSelected :
      (first : String) (urls : List String) (live : List Live)
      → ok_probes (probe_all probe urls) ≡ live
      → IsSelected first urls (choose_among first urls (probe_all probe urls) live)
  unfolding newest_of
  among-IsSelected first urls [] e =
      inl ((λ p a. absurd (elim (subst (λ ps. In p ps) e (Answered-ok_probes urls p a)) [ ])), refl)
  among-IsSelected first urls (p ∷ ps) e =
      ends (first_good (max_ledger (p ∷ ps)) (probe_all probe urls) urls) loop
    where
      loop : IsLoopEnd urls urls (first_good (max_ledger (p ∷ ps)) (probe_all probe urls) urls)
      loop =
          subst (λ ps. IsLoopEnd urls urls (first_good (max_ledger ps) (probe_all probe urls) urls))
            e (first_good-IsLoopEnd urls urls (everywhere urls urls (λ u i. i)))

      answered : (q : Live) → In q (p ∷ ps) → Answered urls q
      answered q i = ok_probes-Answered urls q (subst (λ ps. In q ps) (sym e) i)

      ends :
          (o : Option String)
          → IsLoopEnd urls urls o
          → IsSelected first urls (elim o [ some url ↦ url | none ↦ (best_of p ps).url ])
      ends none h =
          let best = best_of-IsBestOf p ps in
          inr (
            inr (
              h,
              (
                best_of p ps,
                refl,
                answered (best_of p ps) best.0,
                λ q a.
                    All-In (Beats (best_of p ps))
                      (subst (λ ps. In q ps) e (Answered-ok_probes urls q a)) best.1,
              ),
            ))
      ends (some url) h = inr (inl h)

  -- With two URLs or more: when none answers, the first one; else the first URL in their order that
  -- answers in less than 2500 ms and is at most two ledgers behind the newest answer; when there is
  -- none, the one that answered from the newest ledger, the fastest of these.
  pub select_rpc-IsSelected :
      (first second : String) (rest : List String)
      → IsSelected first (first ∷ second ∷ rest) (select_rpc probe (first ∷ second ∷ rest)).chosen
  unfolding select_rpc
  select_rpc-IsSelected first second rest =
      among-IsSelected first (first ∷ second ∷ rest)
        (ok_probes (probe_all probe (first ∷ second ∷ rest))) refl
