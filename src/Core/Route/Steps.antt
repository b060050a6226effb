-- ===== src/Core/Route/Steps.antt =====
-- The assets of a route.
use decant_fi.Common.{
  ◌≡◌, refl, ◌⊎◌, inl, inr, true, false, List, [], ◌∷◌, Option, none, some, String, str_eq,
  str_eq_iff, In, here, there, Bool-cases, sym, ap, ◌∙◌,
}
use decant_fi.Core.Route.{Transfer, is_last, route_behind, route_from_transfers}

-- No asset twice in a row.
abbrev pub HasNoRepeat : Option String → List String → Type 0
HasNoRepeat last [] = Unit {0}
HasNoRepeat last (a ∷ rest) = (is_last last a ≡ false) × HasNoRepeat (some a) rest

route_behind-HasNoRepeat :
    (last : Option String) (ts : List Transfer) → HasNoRepeat last (route_behind last ts)
unfolding route_behind
route_behind-HasNoRepeat last [] = tt
route_behind-HasNoRepeat last (t ∷ ts) = elim (Bool-cases (is_last last t.asset)) [
  | inl e ↦ rw e (route_behind-HasNoRepeat last ts)
  | inr e ↦ rw e (e, route_behind-HasNoRepeat (some t.asset) ts)
]

has_same :
    (last : Option String) (u t : Transfer) (ts : List Transfer)
    → is_last last u.asset ≡ true
    → (In t ts → (is_last last t.asset ≡ true) ⊎ In t.asset (route_behind last ts))
    → In t (u ∷ ts)
    → (is_last last t.asset ≡ true) ⊎ In t.asset (route_behind last ts)
has_same last u t ts e later (here q) = inl (ap (λ x. is_last last x.asset) q ∙ e)
has_same last u t ts e later (there j) = later j

has_next :
    (last : Option String) (u t : Transfer) (route : List String) (ts : List Transfer)
    → (In t ts → (str_eq u.asset t.asset ≡ true) ⊎ In t.asset route)
    → In t (u ∷ ts)
    → (is_last last t.asset ≡ true) ⊎ In t.asset (u.asset ∷ route)
has_next last u t route ts later (here q) = inr (here (ap (λ x. x.asset) q))
has_next last u t route ts later (there j) = elim (later j) [
  | inl e ↦ inr (here (sym ((str_eq_iff u.asset t.asset).0 e)))
  | inr k ↦ inr (there k)
]

-- The asset of a transfer is on the route, or the one before it.
behind_has :
    (last : Option String) (ts : List Transfer) (t : Transfer)
    → In t ts
    → (is_last last t.asset ≡ true) ⊎ In t.asset (route_behind last ts)
unfolding route_behind
behind_has last [] t i = elim i [ ]
behind_has last (u ∷ ts) t i = elim (Bool-cases (is_last last u.asset)) [
  | inl e ↦ rw e (has_same last u t ts e (behind_has last ts t) i)
  | inr e ↦ rw e (has_next last u t _ ts (behind_has (some u.asset) ts t) i)
]

abbrev pub Comes : String → List Transfer → Type 0
Comes asset ts = (t : Transfer) × In t ts × (t.asset ≡ asset)

Comes-later :
    (asset : String) (u : Transfer) (ts : List Transfer) → Comes asset ts → Comes asset (u ∷ ts)
Comes-later asset u ts (t, i, e) = (t, there i, e)

route_behind-Comes :
    (last : Option String) (ts : List Transfer) (asset : String)
    → In asset (route_behind last ts)
    → Comes asset ts
unfolding route_behind
route_behind-Comes last [] asset i = elim i [ ]
route_behind-Comes last (u ∷ ts) asset i = elim (Bool-cases (is_last last u.asset)) [
  | inl e ↦ Comes-later asset u ts (route_behind-Comes last ts asset (rw e at i))
  | inr e ↦ first (route_behind-Comes (some u.asset) ts asset) (rw e at i)
]
  where
    first :
        (In asset (route_behind (some u.asset) ts) → Comes asset ts)
        → In asset (u.asset ∷ route_behind (some u.asset) ts)
        → Comes asset (u ∷ ts)
    first later (here q) = (u, here refl, sym q)
    first later (there j) = Comes-later asset u ts (later j)

pub record IsRoute (ts : List Transfer) (route : List String) : Type 0 where
  pub no_repeat : HasNoRepeat none route
  pub complete : (t : Transfer) → In t ts → In t.asset route
  pub sound : (asset : String) → In asset route → Comes asset ts

-- The route names the asset of every transfer and no other asset, and never one twice in a row.
pub route_from_transfers-IsRoute : (ts : List Transfer) → IsRoute ts (route_from_transfers ts)
unfolding route_from_transfers
route_from_transfers-IsRoute ts = record {
  no_repeat = route_behind-HasNoRepeat none ts;
  complete = λ t i. elim (behind_has none ts t i) [ inl e ↦ absurd cc | inr j ↦ j ];
  sound = λ asset i. route_behind-Comes none ts asset i;
}
