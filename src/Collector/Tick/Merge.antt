-- ===== src/Collector/Tick/Merge.antt =====
-- What the merge keeps of the errors.
use decant_fi.Common.{
  is_some, ℕ, ◌≡◌, refl, ◌∙◌, ◌⊎◌, ap, sym, inl, inr, true, false, List, [], ◌∷◌, ◌++◌, Option,
  none, some, String, str_eq, str_eq_iff, get_key, set_key, get_key-set_key, Bool-cases,
  if◌then◌else◌, subst,
}
use decant_fi.Core.Prices.{Prices}
use decant_fi.Core.Rank.{or_else}
use decant_fi.Core.RpcSelect.{RpcSelection}
use decant_fi.Collector.Tick.{ProbeResult, keep_first, all_reasons, assemble}

abbrev only : String × String → String → Option String
only e id = if str_eq e.0 id then some e.1 else none

abbrev keep : String × String → List (String × String) → List (String × String)
keep e reasons = if is_some (get_key reasons e.0) then reasons else set_key reasons e.0 e.1

option_cases : {A : Type 0} (o : Option A) → (o ≡ none) ⊎ ((a : A) × (o ≡ some a))
option_cases none = inl refl
option_cases (some a) = inr (a, refl)

or_none : (o : Option String) → o ≡ or_else o none
or_none none = refl
or_none (some a) = refl

keep_lem :
    (e : String × String) (reasons : List (String × String)) (id : String)
    → get_key (keep e reasons) id ≡ or_else (get_key reasons id) (only e id)
keep_lem e reasons id = elim (option_cases (get_key reasons e.0)) [
  | inl missing ↦ rw missing (
      get_key-set_key reasons e.0 id e.1 ∙ (elim (Bool-cases (str_eq e.0 id)) [
        | inl same ↦
            let k : get_key reasons id ≡ none =
              subst (λ key. get_key reasons key ≡ none) ((str_eq_iff e.0 id).0 same) missing in
            rw (same, k) refl
        | inr other ↦ rw other (or_none (get_key reasons id))
      ]))
  | inr found ↦ rw (found.1) (elim (Bool-cases (str_eq e.0 id)) [
    | inl same ↦
        let k : get_key reasons id ≡ some found.0 =
          subst (λ key. get_key reasons key ≡ some found.0) ((str_eq_iff e.0 id).0 same) found.1 in
        rw (same, k) refl
    | inr other ↦ rw other (or_none (get_key reasons id))
  ])
]

or_assoc : (a b c : Option String) → or_else (or_else a b) c ≡ or_else a (or_else b c)
or_assoc none b c = refl
or_assoc (some x) b c = refl

get_key_head :
    (e : String × String) (es : List (String × String)) (id : String)
    → or_else (only e id) (get_key es id) ≡ get_key (e ∷ es) id
get_key_head e es id = elim (Bool-cases (str_eq e.0 id)) [
  | inl same ↦ rw same refl
  | inr other ↦ rw other refl
]

keep_first_lem :
    (es reasons : List (String × String)) (id : String)
    → get_key (keep_first es reasons) id ≡ or_else (get_key reasons id) (get_key es id)
unfolding keep_first
keep_first_lem [] reasons id = or_none (get_key reasons id)
keep_first_lem (e ∷ es) reasons id =
    keep_first_lem es (keep e reasons) id
    ∙ ap (λ o. or_else o (get_key es id)) (keep_lem e reasons id)
    ∙ or_assoc (get_key reasons id) (only e id) (get_key es id)
    ∙ ap (or_else (get_key reasons id)) (get_key_head e es id)

get_key-append :
    (es fs : List (String × String)) (id : String)
    → get_key (es ++ fs) id ≡ or_else (get_key es id) (get_key fs id)
get_key-append [] fs id = refl
get_key-append (e ∷ es) fs id = elim (Bool-cases (str_eq e.0 id)) [
  | inl same ↦ rw same refl
  | inr other ↦ rw other (get_key-append es fs id)
]

-- Every error of every probe, in order.
abbrev pub all_errors : {Num : Type 0} → List (ProbeResult Num) → List (String × String)
all_errors [] = []
all_errors (p ∷ ps) = p.errors ++ all_errors ps

all_reasons_lem :
    {Num : Type 0} (ps : List (ProbeResult Num)) (reasons : List (String × String)) (id : String)
    → get_key (all_reasons ps reasons) id
      ≡ or_else (get_key reasons id) (get_key (all_errors ps) id)
unfolding all_reasons
all_reasons_lem [] reasons id = or_none (get_key reasons id)
all_reasons_lem (p ∷ ps) reasons id =
    all_reasons_lem ps (keep_first p.errors reasons) id
    ∙ ap (λ o. or_else o (get_key (all_errors ps) id)) (keep_first_lem p.errors reasons id)
    ∙ or_assoc (get_key reasons id) (get_key p.errors id) (get_key (all_errors ps) id)
    ∙ ap (or_else (get_key reasons id)) (sym (get_key-append p.errors (all_errors ps) id))

-- No id stands twice.
abbrev pub IsUnique : List (String × String) → Type 0
IsUnique [] = Unit {0}
IsUnique (e ∷ es) = (get_key es e.0 ≡ none) × IsUnique es

different : (s t : String) → str_eq s t ≡ false → str_eq t s ≡ false
different s t h = elim (Bool-cases (str_eq t s)) [
  | inl e ↦ let k : str_eq s t ≡ true = (str_eq_iff s t).1 (sym ((str_eq_iff t s).0 e)) in cc
  | inr e ↦ e
]

set_key-IsUnique :
    (es : List (String × String)) (id reason : String)
    → get_key es id ≡ none
    → IsUnique es
    → IsUnique (set_key es id reason)
set_key-IsUnique [] id reason h u = (refl, tt)
set_key-IsUnique (e ∷ es) id reason h u = elim (Bool-cases (str_eq e.0 id)) [
  | inl same ↦ let k : some e.1 ≡ none = rw same at h in cc
  | inr other ↦ rw other (
    get_key-set_key es id e.0 reason ∙ rw (different e.0 id other) u.0,
    set_key-IsUnique es id reason (rw other at h) u.1,
  )
]

keep-IsUnique :
    (e : String × String) (reasons : List (String × String))
    → IsUnique reasons
    → IsUnique (keep e reasons)
keep-IsUnique e reasons u = elim (option_cases (get_key reasons e.0)) [
  | inl missing ↦ rw missing (set_key-IsUnique reasons e.0 e.1 missing u)
  | inr found ↦ rw (found.1) u
]

keep_first-IsUnique :
    (es reasons : List (String × String)) → IsUnique reasons → IsUnique (keep_first es reasons)
unfolding keep_first
keep_first-IsUnique [] reasons u = u
keep_first-IsUnique (e ∷ es) reasons u =
    keep_first-IsUnique es (keep e reasons) (keep-IsUnique e reasons u)

all_reasons-IsUnique :
    {Num : Type 0} (ps : List (ProbeResult Num)) (reasons : List (String × String))
    → IsUnique reasons
    → IsUnique (all_reasons ps reasons)
unfolding all_reasons
all_reasons-IsUnique [] reasons u = u
all_reasons-IsUnique (p ∷ ps) reasons u =
    all_reasons-IsUnique ps (keep_first p.errors reasons) (keep_first-IsUnique p.errors reasons u)

-- The errors that a tick stores name each failed source once, with the reason that the first probe
-- in the order of the probes gives for it.
pub assemble_errors-IsUnique :
    {Num : Type 0} (started finished : String) (cadence : ℕ) (default : String)
    (selection : Option RpcSelection) (calls : ℕ) (prices : Prices Num)
    (ps : List (ProbeResult Num))
    → (let stored =
          (assemble started finished cadence default selection calls prices
            ps).tick.source_errors in
        IsUnique stored × ((id : String) → get_key stored id ≡ get_key (all_errors ps) id))
unfolding assemble
assemble_errors-IsUnique started finished cadence default selection calls prices ps =
    (all_reasons-IsUnique ps [] tt, λ id. all_reasons_lem ps [] id)
