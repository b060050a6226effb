-- ===== src/Collector/Coherence/Verdicts.antt =====
-- When a venue is judged coherent.
use native.Mathlib.Nat.{le-div_iff_mul-le}
use decant_fi.Common.{
  ◌≡◌, refl, ◌↔◌, inl, inr, ◌⊎◌, ℕ, zero, suc, ◌*◌, ◌/◌, ◌<◌, Bool, true, false, ◌||◌, ◌&&◌, List,
  [], ◌∷◌, ◌++◌, Option, none, some, String, str_eq, str_eq_iff, ltb, arith, Bool-cases,
  if◌then◌else◌, All, subst,
}
use decant_fi.Common.Int.{ℤ, pos, negsuc, pos_part, ◌+ℤ◌, ◌-ℤ◌, ◌≤ℤ◌, ltb_ℤ, int_laws}
use decant_fi.Core.Route.{Transfer, Verdict, chained, refused, verify_chain, or_zero}
use decant_fi.Core.Route.Chain.{IsChain, verify_chain-IsChain, signer_net, moved}
use decant_fi.Collector.Coherence.{
  net_from, net_from_transfers, gap, delta_bps, delta_bps_suspect, is_suspect, is_refused,
  chain_reasons, gap_reasons, Evaluation, evaluate_soroban,
}

-- The amounts differ by less than 51 basis points of the simulated one; nothing is asked of a
-- simulated amount that is not positive.
abbrev pub IsClose : ℤ → ℤ → Type 0
IsClose (pos zero) quoted = Unit {0}
IsClose (pos (suc n)) quoted = pos_part (gap (pos (suc n)) quoted) * 10_000 < 51 * suc n
IsClose (negsuc n) quoted = Unit {0}

suspect_lem : (x n : ℕ) → (ltb delta_bps_suspect (x / suc n) ≡ false) ↔ (x < 51 * suc n)
unfolding delta_bps_suspect
suspect_lem x n = ground (arith, le-div_iff_mul-le {k = suc n} {x = 51} {y = x} (omega arith))

close_lem : (s q : ℤ) → (is_suspect (delta_bps s q) ≡ false) ↔ IsClose s q
unfolding delta_bps
close_lem (pos zero) q = (λ h. tt, λ h. refl)
close_lem (pos (suc n)) q = suspect_lem (pos_part (gap (pos (suc n)) q) * 10_000) n
close_lem (negsuc n) q = (λ h. tt, λ h. refl)

verdict_lem :
    (check : Verdict) (b : Bool)
    → (is_refused check || b ≡ false) ↔ ((check ≡ chained) × (b ≡ false))
verdict_lem chained b = (λ h. (refl, h), λ h. h.1)
verdict_lem (refused r) b = (λ h. cc, λ h. let k : refused r ≡ chained = h.0 in cc)

abbrev pub has_reason {ℓ} : {A : Type ℓ} → List A → Bool
has_reason [] = false
has_reason (x ∷ xs) = true

explained_lem :
    (check : Verdict) (delta : Option ℕ)
    → has_reason (chain_reasons check ++ gap_reasons delta) ≡ is_refused check || is_suspect delta
explained_lem (refused r) delta = refl
explained_lem chained none = refl
explained_lem chained (some bps) = elim (Bool-cases (ltb delta_bps_suspect bps)) [
  | inl e ↦ rw e refl
  | inr e ↦ rw e refl
]

-- What the code says of the transfers: it gives a reason exactly when it calls them incoherent, and
-- they are coherent exactly when the chain is accepted and the amounts are close.
pub record IsJudged (transfers : List Transfer) (quoted : ℤ) (sender sell buy : String)
    (e : Evaluation) : Type 0 where
  pub explained : has_reason e.reasons ≡ e.incoherent
  pub coherent_iff : (e.incoherent ≡ false) ↔ (
      (verify_chain transfers sell buy ≡ chained)
      × IsClose (net_from_transfers transfers buy sender) quoted)

pub evaluate_soroban-IsJudged :
    (transfers : List Transfer) (quoted : ℤ) (sender sell buy : String)
    → IsJudged transfers quoted sender sell buy (evaluate_soroban transfers quoted sender sell buy)
unfolding evaluate_soroban
evaluate_soroban-IsJudged transfers quoted sender sell buy =
    let s = net_from_transfers transfers buy sender in
    let check = verify_chain transfers sell buy in
    let v = verdict_lem check (is_suspect (delta_bps s quoted)) in
    let c = close_lem s quoted in
    record {
      explained = explained_lem check (delta_bps s quoted);
      coherent_iff = (λ h. let k = v.0 h in (k.0, c.0 k.1), λ h. v.1 (h.0, c.1 h.1));
    }

-- What the signer receives is at least its net amount, if no amount is negative.
credits_lem :
    (sender buy : String) (ts : List Transfer) (o : Option ℤ) (sum v : ℤ)
    → All (λ (t : Transfer). pos 0 ≤ℤ t.amount) ts
    → or_zero o ≤ℤ sum
    → signer_net sender buy ts o ≡ some v
    → v ≤ℤ net_from buy sender sum ts
unfolding signer_net net_from
credits_lem sender buy [] o sum v h le e = subst (λ x. or_zero x ≤ℤ sum) e le
credits_lem sender buy (t ∷ ts) o sum v h le e =
    credits_lem sender buy ts
      (moved (str_eq t.from sender && str_eq t.asset buy) (pos 0 -ℤ t.amount)
        (moved (str_eq t.to sender && str_eq t.asset buy) t.amount o))
      (if str_eq t.asset buy && str_eq t.to sender then sum +ℤ t.amount else sum) v h.1
      (step (str_eq t.asset buy) (str_eq t.from sender) (str_eq t.to sender)) e
  where
    step :
        (a f r : Bool)
        → or_zero (moved (f && a) (pos 0 -ℤ t.amount) (moved (r && a) t.amount o))
          ≤ℤ (if a && r then sum +ℤ t.amount else sum)
    step true true true = omega (int_laws, le, h.0)
    step true true false = omega (int_laws, le, h.0)
    step true false true = omega (int_laws, le, h.0)
    step true false false = le
    step false true true = le
    step false true false = le
    step false false true = le
    step false false false = le

positive :
    (sell buy : String) (v sum : ℤ)
    → str_eq sell buy ≡ false
    → ((sell ≡ buy) ⊎ (ltb_ℤ (pos 0) v ≡ true))
    → v ≤ℤ sum
    → ltb_ℤ (pos 0) sum ≡ true
positive sell buy v sum ne (inl e) le =
    let k : str_eq sell buy ≡ true = (str_eq_iff sell buy).1 e in cc
positive sell buy v sum ne (inr h) le = ground (arith, h, le)

-- A simulation whose transfers have no negative amount, between two different assets, and that is
-- judged coherent for its first payer, credits that payer with a positive sum, which differs from
-- the quote by less than 51 basis points of it.
pub coherent-IsClose :
    (t : Transfer) (ts : List Transfer) (quoted : ℤ) (sell buy : String)
    → All (λ (u : Transfer). pos 0 ≤ℤ u.amount) (t ∷ ts)
    → str_eq sell buy ≡ false
    → (evaluate_soroban (t ∷ ts) quoted t.from sell buy).incoherent ≡ false
    → (ltb_ℤ (pos 0) (net_from_transfers (t ∷ ts) buy t.from) ≡ true)
      × IsClose (net_from_transfers (t ∷ ts) buy t.from) quoted
unfolding net_from_transfers
coherent-IsClose t ts quoted sell buy amounts ne h =
    let both = (evaluate_soroban-IsJudged (t ∷ ts) quoted t.from sell buy).coherent_iff.0 h in
    (credited ts amounts (verify_chain-IsChain (t ∷ ts) sell buy both.0), both.1)
  where
    credited :
        (us : List Transfer)
        → All (λ (u : Transfer). pos 0 ≤ℤ u.amount) (t ∷ us)
        → IsChain (t ∷ us) sell buy
        → ltb_ℤ (pos 0) (net_from_transfers (t ∷ us) buy t.from) ≡ true
    credited [] a c = elim c [ ]
    credited (u ∷ us) a c =
        positive sell buy c.bought (net_from buy t.from (pos 0) (t ∷ u ∷ us)) ne c.received
          (credits_lem t.from buy (t ∷ u ∷ us) none (pos 0) c.bought a (omega arith) c.bought_eq)
