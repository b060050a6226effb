-- ===== src/Core/Route/Chain.antt =====
-- What a coherent chain of transfers does to the signer.
use decant_fi.Common.{
  is_some, ◌≡◌, refl, ◌⊎◌, inl, inr, Bool, true, false, ◌&&◌, List, [], ◌∷◌, Option, none, some,
  String, str_eq, str_eq_iff, arith, get_key, get_key-set_key, Bool-cases, sym, ap, ◌∙◌, subst,
  if◌then◌else◌,
}
use decant_fi.Common.Int.{ℤ, pos, ◌+ℤ◌, ◌-ℤ◌, leb_ℤ, eq_ℤ, ltb_ℤ}
use decant_fi.Core.Route.{
  Transfer, or_zero, add_net, credit, debit, net_of, Refusal, chained, refused, entry_refusal,
  first_refusal, final_verdict, verdict_for, not_debited, not_credited, intermediate, not_in_flow,
  verify_chain,
}

-- What the signer has received of one asset less what was sent, none if it took no part in a
-- transfer of that asset.
abbrev pub moved : Bool → ℤ → Option ℤ → Option ℤ
moved true d o = some (or_zero o +ℤ d)
moved false d o = o

unfoldable pub signer_net : String → String → List Transfer → Option ℤ → Option ℤ
signer_net sender asset [] o = o
signer_net sender asset (t ∷ ts) o =
    let mine = str_eq t.asset asset in
    signer_net sender asset ts (
      moved (str_eq t.from sender && mine) (pos 0 -ℤ t.amount)
        (moved (str_eq t.to sender && mine) t.amount o))

module _ (sender asset : String) where
  add_net_lem :
      (a : String) (d : ℤ) (net : List (String × ℤ))
      → get_key (add_net a d net) asset ≡ moved (str_eq a asset) d (get_key net asset)
  add_net_lem a d net = elim (Bool-cases (str_eq a asset)) [
    | inl e ↦
        let q : a ≡ asset = (str_eq_iff a asset).0 e in
        get_key-set_key net a asset (or_zero (get_key net a) +ℤ d)
        ∙ rw e (ap (λ k. some (or_zero (get_key net k) +ℤ d)) q)
    | inr e ↦ get_key-set_key net a asset (or_zero (get_key net a) +ℤ d) ∙ rw e refl
  ]

  if_lem :
      (b : Bool) (a : String) (d : ℤ) (net : List (String × ℤ))
      → get_key (if b then add_net a d net else net) asset
        ≡ moved (b && str_eq a asset) d (get_key net asset)
  if_lem true a d net = add_net_lem a d net
  if_lem false a d net = refl

  net_of_lem :
      (ts : List Transfer) (net : List (String × ℤ))
      → get_key (net_of sender ts net) asset ≡ signer_net sender asset ts (get_key net asset)
  unfolding net_of signer_net
  net_of_lem [] net = refl
  net_of_lem (t ∷ ts) net =
      net_of_lem ts (debit sender t (credit sender t net))
      ∙ ap (signer_net sender asset ts) (
          if_lem (str_eq t.from sender) t.asset (pos 0 -ℤ t.amount) (credit sender t net)
          ∙ ap (moved (str_eq t.from sender && str_eq t.asset asset) (pos 0 -ℤ t.amount))
              (if_lem (str_eq t.to sender) t.asset t.amount net))

refusal_cases :
    (o later : Option Refusal)
    → (elim o [ some r ↦ some r | none ↦ later ]) ≡ none
    → (o ≡ none) × (later ≡ none)
refusal_cases none later h = (refl, h)
refusal_cases (some r) later h = cc

entry_ok :
    (sell buy : String) (net : List (String × ℤ)) (key : String) (v : ℤ)
    → first_refusal sell buy net ≡ none
    → get_key net key ≡ some v
    → entry_refusal sell buy key v ≡ none
unfolding first_refusal
entry_ok sell buy [] key v h g = cc
entry_ok sell buy (entry ∷ rest) key v h g =
    let both =
      refusal_cases (entry_refusal sell buy entry.0 entry.1) (first_refusal sell buy rest) h in
    elim (Bool-cases (str_eq entry.0 key)) [
      | inl e ↦
          let q : entry.0 ≡ key = (str_eq_iff entry.0 key).0 e in
          let k : some entry.1 ≡ some v = rw e at g in
          subst (λ a. entry_refusal sell buy a v ≡ none) q
            (subst (λ x. entry_refusal sell buy entry.0 x ≡ none) (ap or_zero k) both.0)
      | inr e ↦ entry_ok sell buy rest key v both.1 (rw e at g)
    ]

-- The signer pays in the asset sold, receives the asset bought, and is left with nothing else.
pub record IsChainFor (sender sell buy : String) (ts : List Transfer) : Type 0 where
  pub sold : ℤ
  pub sold_eq : signer_net sender sell ts none ≡ some sold
  pub paid : ltb_ℤ sold (pos 0) ≡ true
  pub bought : ℤ
  pub bought_eq : signer_net sender buy ts none ≡ some bought
  pub received : (sell ≡ buy) ⊎ (ltb_ℤ (pos 0) bought ≡ true)
  pub nothing_else :
      (asset : String) (v : ℤ)
      → str_eq asset sell ≡ false
      → str_eq asset buy ≡ false
      → signer_net sender asset ts none ≡ some v
      → eq_ℤ v (pos 0) ≡ true

sell_ok :
    (sell buy : String) (v : ℤ) → entry_refusal sell buy sell v ≡ none → ltb_ℤ v (pos 0) ≡ true
sell_ok sell buy v h =
    let same : str_eq sell sell ≡ true = (str_eq_iff sell sell).1 refl in
    let k : (if leb_ℤ (pos 0) v then some (not_debited sell) else none) ≡ none = rw same at h in
    elim (Bool-cases (leb_ℤ (pos 0) v)) [
      | inl e ↦ let j : some (not_debited sell) ≡ none = rw e at k in cc
      | inr e ↦ ground (arith, e)
    ]

buy_ok :
    (sell buy : String) (v : ℤ)
    → entry_refusal sell buy buy v ≡ none
    → (sell ≡ buy) ⊎ (ltb_ℤ (pos 0) v ≡ true)
buy_ok sell buy v h = elim (Bool-cases (str_eq buy sell)) [
  | inl e ↦ inl (sym ((str_eq_iff buy sell).0 e))
  | inr e ↦
      let same : str_eq buy buy ≡ true = (str_eq_iff buy buy).1 refl in
      let k : (if leb_ℤ v (pos 0) then some (not_credited buy) else none) ≡ none =
        rw (e, same) at h in
      elim (Bool-cases (leb_ℤ v (pos 0))) [
        | inl f ↦ let j : some (not_credited buy) ≡ none = rw f at k in cc
        | inr f ↦ inr (ground (arith, f))
      ]
]

other_ok :
    (sell buy asset : String) (v : ℤ)
    → str_eq asset sell ≡ false
    → str_eq asset buy ≡ false
    → entry_refusal sell buy asset v ≡ none
    → eq_ℤ v (pos 0) ≡ true
other_ok sell buy asset v e f h =
    let k : (if eq_ℤ v (pos 0) then none else some (intermediate asset)) ≡ none = rw (e, f) at h in
    elim (Bool-cases (eq_ℤ v (pos 0))) [
      | inl g ↦ g
      | inr g ↦ let j : some (intermediate asset) ≡ none = rw g at k in cc
    ]

some_of : {V : Type 0} (o : Option V) → is_some o ≡ true → (v : V) × (o ≡ some v)
some_of none h = cc
some_of (some v) h = (v, refl)

both_true : (a b : Bool) → a && b ≡ true → (a ≡ true) × (b ≡ true)
both_true true b h = (refl, h)
both_true false b h = cc

final_lem :
    (sell buy : String) (net : List (String × ℤ)) (o : Option Refusal)
    → final_verdict sell buy net o ≡ chained
    → (o ≡ none) × (is_some (get_key net sell) && is_some (get_key net buy) ≡ true)
final_lem sell buy net (some r) h = cc
final_lem sell buy net none h =
    elim (Bool-cases (is_some (get_key net sell) && is_some (get_key net buy))) [
      | inl e ↦ (refl, e)
      | inr e ↦ let k : refused not_in_flow ≡ chained = rw e at h in cc
    ]

chain_lem :
    (sender sell buy : String) (ts : List Transfer)
    → verdict_for sell buy (net_of sender ts []) ≡ chained
    → IsChainFor sender sell buy ts
chain_lem sender sell buy ts h =
    let net = net_of sender ts [] in
    let fin = final_lem sell buy net (first_refusal sell buy net) h in
    let has = both_true (is_some (get_key net sell)) (is_some (get_key net buy)) fin.1 in
    let s = some_of (get_key net sell) has.0 in
    let b = some_of (get_key net buy) has.1 in
    record {
      sold = s.0;
      sold_eq = sym (net_of_lem sender sell ts []) ∙ s.1;
      paid = sell_ok sell buy s.0 (entry_ok sell buy net sell s.0 fin.0 s.1);
      bought = b.0;
      bought_eq = sym (net_of_lem sender buy ts []) ∙ b.1;
      received = buy_ok sell buy b.0 (entry_ok sell buy net buy b.0 fin.0 b.1);
      nothing_else = λ asset v e f k.
          other_ok sell buy asset v e f
            (entry_ok sell buy net asset v fin.0 (net_of_lem sender asset ts [] ∙ k));
    }

abbrev pub IsChain : List Transfer → String → String → Type 0
IsChain [] sell buy = ⊥
IsChain (t ∷ []) sell buy = ⊥
IsChain (t ∷ u ∷ ts) sell buy = IsChainFor t.from sell buy (t ∷ u ∷ ts)

-- A chain of transfers that is accepted has two transfers or more; summed over all of them, its
-- signer pays in the asset sold and receives the asset bought, and the net of every other asset that
-- passes through the signer's account is zero.
pub verify_chain-IsChain :
    (ts : List Transfer) (sell buy : String)
    → verify_chain ts sell buy ≡ chained
    → IsChain ts sell buy
unfolding verify_chain
verify_chain-IsChain [] sell buy h = cc
verify_chain-IsChain (t ∷ []) sell buy h = cc
verify_chain-IsChain (t ∷ u ∷ ts) sell buy h = chain_lem t.from sell buy (t ∷ u ∷ ts) h
