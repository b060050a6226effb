-- ===== src/Core/RpcSelect/Best.antt =====
-- What the chosen endpoint is.
use decant_fi.Common.{
  ℕ, ◌≤◌, ◌<◌, ◌≡◌, refl, ◌⊎◌, inl, inr, true, false, List, [], ◌∷◌, ltb, if◌then◌else◌, In, here,
  there, All, arith, Bool-cases, subst, ltb→lt, ◌∙◌,
}
use decant_fi.Core.RpcSelect.{Live, max_ledger, is_better, best_of}

-- `a` is at least as new as `b`, and at least as fast at the same ledger.
abbrev pub Beats : Live → Live → Type 0
Beats a b = (b.ledger < a.ledger) ⊎ ((b.ledger ≡ a.ledger) × (a.latency_ms ≤ b.latency_ms))

Beats-trans : (a b c : Live) → Beats a b → Beats b c → Beats a c
Beats-trans a b c (inl h) (inl k) = inl (omega (arith, h, k))
Beats-trans a b c (inl h) (inr k) = inl (omega (arith, h, k.0))
Beats-trans a b c (inr h) (inl k) = inl (omega (arith, h.0, k))
Beats-trans a b c (inr h) (inr k) = inr (omega (arith, h.0, k.0), omega (arith, h.1, k.1))

better-Beats : (a b : Live) → is_better b a ≡ true → Beats b a
better-Beats a b h = ground arith

worse-Beats : (a b : Live) → is_better b a ≡ false → Beats a b
worse-Beats a b h = ground arith

abbrev pub IsBestOf : Live → List Live → Type 0
IsBestOf x ps = In x ps × All (Beats x) ps

abbrev Decided : Live → Live → Live → Type 0
Decided a b c = ((c ≡ b) × Beats b a) ⊎ ((c ≡ a) × Beats a b)

decided : (a b : Live) → Decided a b (if is_better b a then b else a)
decided a b = elim (Bool-cases (is_better b a)) [
  | inl e ↦ inl (rw e refl, better-Beats a b e)
  | inr e ↦ inr (rw e refl, worse-Beats a b e)
]

before_two :
    (a b c x : Live) (ps : List Live)
    → Decided a b c
    → IsBestOf x (c ∷ ps)
    → IsBestOf x (a ∷ b ∷ ps)
before_two a b c x ps (inl (e, h)) (i, (k, ks)) =
    let kb : Beats x b = subst (Beats x) e k in (place i, (Beats-trans x b a kb h, (kb, ks)))
  where
    place : In x (c ∷ ps) → In x (a ∷ b ∷ ps)
    place (here q) = there (here (q ∙ e))
    place (there i) = there (there i)
before_two a b c x ps (inr (e, h)) (i, (k, ks)) =
    let ka : Beats x a = subst (Beats x) e k in (place i, (ka, (Beats-trans x a b ka h, ks)))
  where
    place : In x (c ∷ ps) → In x (a ∷ b ∷ ps)
    place (here q) = here (q ∙ e)
    place (there i) = there (there i)

pub best_of-IsBestOf : (a : Live) (ps : List Live) → IsBestOf (best_of a ps) (a ∷ ps)
unfolding best_of
best_of-IsBestOf a [] = (here refl, (inr (refl, omega arith), tt))
best_of-IsBestOf a (b ∷ ps) =
    before_two a b (if is_better b a then b else a) _ ps (decided a b)
      (best_of-IsBestOf (if is_better b a then b else a) ps)

pub max_ledger_lem : (ps : List Live) → All (λ p. p.ledger ≤ max_ledger ps) ps
unfolding max_ledger
max_ledger_lem ps = all ps (max_ledger ps) (omega arith)
  where
    all : (qs : List Live) (n : ℕ) → max_ledger qs ≤ n → All (λ p. p.ledger ≤ n) qs
    all [] n h = tt
    all (q ∷ qs) n h = elim (Bool-cases (ltb (max_ledger qs) q.ledger)) [
      | inl e ↦ let k : q.ledger ≤ n = rw e at h in (k, all qs n (omega (arith, ltb→lt _ _ e, k)))
      | inr e ↦ let k : max_ledger qs ≤ n = rw e at h in (ground (arith, e, k), all qs n k)
    ]

pub max_ledger_least :
    (ps : List Live) (n : ℕ) → ((q : Live) → In q ps → q.ledger ≤ n) → max_ledger ps ≤ n
unfolding max_ledger
max_ledger_least [] n h = omega arith
max_ledger_least (p ∷ ps) n h = elim (Bool-cases (ltb (max_ledger ps) p.ledger)) [
  | inl e ↦ rw e (h p (here refl))
  | inr e ↦ rw e (max_ledger_least ps n (λ q i. h q (there i)))
]
