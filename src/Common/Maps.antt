-- ===== src/Common/Maps.antt =====
-- Lists searched by a test, texts compared, and association lists keyed by texts, the model of
-- `Map` and of object literals: insertion keeps the place of a key that is there already.
use Prim.Native.Nat.{ℕ}
use Prim.Native.Char.{code}
use Prim.Native.String.{String}
use mathlib.Core.Path.{◌≡◌, refl, ap, subst, sym}
use mathlib.Core.Logic.{◌↔◌, inl, inr}
use mathlib.Core.Bool.{Bool, true, false, ◌&&◌, ◌||◌}
use mathlib.Core.Option.{Option, none, some}
use mathlib.Core.List.{List, [], ◌∷◌, ◌++◌, map}
use native.Mathlib.Omega.{arith}
use text.Mathlib.Text.{◌==◌}
use text.Mathlib.TextEquality.{eq_iff}
use decant_fi.Common.Tests.{if◌then◌else◌, Bool-cases}

-- `===` on strings.
abbrev pub str_eq : String → String → Bool
str_eq s t = s == t

pub str_eq_iff : (s t : String) → (str_eq s t ≡ true) ↔ (s ≡ t)
str_eq_iff = eq_iff

-- The code points of a text. `String` has its own `[]` and `∷`.
abbrev pub codes : String → List ℕ
codes String.[] = []
codes (String.◌∷◌ letter text) = code letter ∷ codes text

-- A text and another behind it.
abbrev pub append_text : String → String → String
append_text String.[] other = other
append_text (String.◌∷◌ letter rest) other = String.◌∷◌ letter (append_text rest other)

abbrev pub is_some {ℓ} : {A : Type ℓ} → Option A → Bool
is_some none = false
is_some (some a) = true

module _ {ℓ} {A : Type ℓ} where
  -- `Array.prototype.find`
  abbrev pub find : (A → Bool) → List A → Option A
  find p [] = none
  find p (x ∷ xs) = if p x then some x else find p xs

  -- `Array.prototype.filter`
  abbrev pub filter : (A → Bool) → List A → List A
  filter p [] = []
  filter p (x ∷ xs) = if p x then x ∷ filter p xs else filter p xs

  -- `Array.prototype.some`
  pub filter-append :
      (p : A → Bool) (xs ys : List A) → filter p (xs ++ ys) ≡ filter p xs ++ filter p ys
  filter-append p [] ys = refl
  filter-append p (x ∷ xs) ys = elim (Bool-cases (p x)) [
    | inl e ↦ rw e (ap (λ z. x ∷ z) (filter-append p xs ys))
    | inr e ↦ rw e (filter-append p xs ys)
  ]

  abbrev pub any : (A → Bool) → List A → Bool
  any p [] = false
  any p (x ∷ xs) = p x || any p xs

  -- `Array.prototype.every`
  abbrev pub all : (A → Bool) → List A → Bool
  all p [] = true
  all p (x ∷ xs) = p x && all p xs

  -- Membership, as a family that can be matched.
  pub data In (a : A) : List A → Type ℓ where
    here : {x : A} {xs : List A} → a ≡ x → In a (x ∷ xs)
    there : {x : A} {xs : List A} → In a xs → In a (x ∷ xs)

module _ {ℓ κ} {A : Type ℓ} {B : Type κ} (f : A → B) where
  pub In-map : {a : A} {xs : List A} → In a xs → In (f a) (map f xs)
  In-map (here e) = here (ap f e)
  In-map (there i) = there (In-map i)

  -- Where an element of a list that is mapped comes from.
  pub from_map : {b : B} (xs : List A) → In b (map f xs) → (a : A) × In a xs × (b ≡ f a)
  from_map [] i = elim i [ ]
  from_map {b = b} (x ∷ xs) i = elim i [
    | here e ↦ (x, here refl, e)
    | there j ↦ let r = from_map xs j in (r.0, there r.1, r.2)
  ]

module _ {ℓ κ} {A : Type ℓ} (P : A → Type κ) where
  abbrev pub All : List A → Type κ
  All [] = Unit
  All (x ∷ xs) = P x × All xs

  pub All-In : {a : A} {xs : List A} → In a xs → All xs → P a
  All-In (here e) h = subst P (sym e) h.0
  All-In (there i) h = All-In i h.1

  pub All-++ : (xs ys : List A) → All xs → All ys → All (xs ++ ys)
  All-++ [] ys p q = q
  All-++ (x ∷ xs) ys p q = (p.0, All-++ xs ys p.1 q)

module _ {ℓ κ ι} {A : Type ℓ} {B : Type κ} (P : B → Type ι) (f : A → B) where
  pub All-of_map : (xs : List A) → ((a : A) → In a xs → P (f a)) → All P (map f xs)
  All-of_map [] h = tt
  All-of_map (x ∷ xs) h = (h x (here refl), All-of_map xs (λ a i. h a (there i)))

module _ {ℓ} {V : Type ℓ} where
  -- `Map.prototype.get`
  abbrev pub get_key : List (String × V) → String → Option V
  get_key [] key = none
  get_key (entry ∷ rest) key = if str_eq entry.0 key then some entry.1 else get_key rest key

  -- `Map.prototype.set`
  abbrev pub set_key : List (String × V) → String → V → List (String × V)
  set_key [] key value = (key, value) ∷ []
  set_key (entry ∷ rest) key value =
      if str_eq entry.0 key then (entry.0, value) ∷ rest else entry ∷ set_key rest key value

  pub get_key-set_key :
      (entries : List (String × V)) (key other : String) (value : V)
      → get_key (set_key entries key value) other
        ≡ (if str_eq key other then some value else get_key entries other)
  get_key-set_key [] key other value = refl
  get_key-set_key (entry ∷ rest) key other value = ground (
    arith,
    str_eq_iff key other,
    str_eq_iff entry.0 key,
    str_eq_iff entry.0 other,
    get_key-set_key rest key other value,
  )
