-- ===== src/Common/Sort.antt =====
-- `Array.prototype.sort` with a comparator: a stable sort. `after a b` says that the comparator
-- puts `a` behind `b` (its result is positive).
use mathlib.Core.List.Perm
use decant_fi.Common.{
  ◌≡◌, refl, inl, inr, Bool, true, false, List, [], ◌∷◌, Perm, arith, if◌then◌else◌, Bool-cases,
  filter, All, In, here, there,
}

module _ {ℓ} {A : Type ℓ} (after : A → A → Bool) where
  unfoldable pub sort_insert : A → List A → List A
  sort_insert x [] = x ∷ []
  sort_insert x (y ∷ ys) = if after x y then y ∷ sort_insert x ys else x ∷ y ∷ ys

  unfoldable pub sort_by : List A → List A
  unfolding sort_insert
  sort_by [] = []
  sort_by (x ∷ xs) = sort_insert x (sort_by xs)

  sort_insert-perm : (x : A) (ys : List A) → Perm (sort_insert x ys) (x ∷ ys)
  unfolding sort_insert
  sort_insert-perm x [] = Perm.refl _
  sort_insert-perm x (y ∷ ys) = elim (Bool-cases (after x y)) [
    | inl e ↦ rw e (Perm.trans (Perm.cons y (sort_insert-perm x ys)) (Perm.swap x y ys))
    | inr e ↦ rw e (Perm.refl _)
  ]

  pub sort_by-perm : (xs : List A) → Perm (sort_by xs) xs
  unfolding sort_by
  sort_by-perm [] = Perm.nil
  sort_by-perm (x ∷ xs) =
      Perm.trans (sort_insert-perm x (sort_by xs)) (Perm.cons x (sort_by-perm xs))

  -- No element stands before one that it should come after.
  abbrev pub Precedes : A → List A → Type 0
  Precedes x ys = All (λ y. after x y ≡ false) ys

  abbrev pub IsSorted : List A → Type 0
  IsSorted [] = Unit {0}
  IsSorted (x ∷ xs) = Precedes x xs × IsSorted xs

  module _ (asym : (x y : A) → after x y ≡ true → after y x ≡ false)
      (trans : (x y z : A) → after x y ≡ false → after y z ≡ false → after x z ≡ false) where
    Precedes-trans : (x y : A) (zs : List A) → after x y ≡ false → Precedes y zs → Precedes x zs
    Precedes-trans x y [] h p = tt
    Precedes-trans x y (z ∷ zs) h p = (trans x y z h p.0, Precedes-trans x y zs h p.1)

    Precedes-insert :
        (w x : A) (ys : List A) → after w x ≡ false → Precedes w ys → Precedes w (sort_insert x ys)
    unfolding sort_insert
    Precedes-insert w x [] h p = (h, tt)
    Precedes-insert w x (y ∷ ys) h p = elim (Bool-cases (after x y)) [
      | inl e ↦ rw e (p.0, Precedes-insert w x ys h p.1)
      | inr e ↦ rw e (h, p)
    ]

    sort_insert-IsSorted : (x : A) (ys : List A) → IsSorted ys → IsSorted (sort_insert x ys)
    unfolding sort_insert
    sort_insert-IsSorted x [] s = (tt, tt)
    sort_insert-IsSorted x (y ∷ ys) s = elim (Bool-cases (after x y)) [
      | inl e ↦ rw e (Precedes-insert y x ys (asym x y e) s.0, sort_insert-IsSorted x ys s.1)
      | inr e ↦ rw e ((e, Precedes-trans x y ys e s.0), s)
    ]

    pub sort_by-IsSorted : (xs : List A) → IsSorted (sort_by xs)
    unfolding sort_by
    sort_by-IsSorted [] = tt
    sort_by-IsSorted (x ∷ xs) = sort_insert-IsSorted x (sort_by xs) (sort_by-IsSorted xs)

  -- Stability: elements that the comparator ties keep their order.
  module _ (p : A → Bool) (tied : (x y : A) → p x ≡ true → p y ≡ true → after x y ≡ false) where
    filter-sort_insert : (x : A) (ys : List A) → filter p (sort_insert x ys) ≡ filter p (x ∷ ys)
    unfolding sort_insert
    filter-sort_insert x [] = refl
    filter-sort_insert x (y ∷ ys) = ground (arith, filter-sort_insert x ys, tied x y)

    pub filter-sort_by : (xs : List A) → filter p (sort_by xs) ≡ filter p xs
    unfolding sort_by
    filter-sort_by [] = refl
    filter-sort_by (x ∷ xs) = ground (arith, filter-sort_insert x (sort_by xs), filter-sort_by xs)

  -- Sorting keeps the elements.
  module _ {κ} (P : A → Type κ) where
    All-sort_insert : (x : A) (ys : List A) → All P (sort_insert x ys) → P x × All P ys
    unfolding sort_insert
    All-sort_insert x [] h = h
    All-sort_insert x (y ∷ ys) h = elim (Bool-cases (after x y)) [
      | inl e ↦
          let k : P y × All P (sort_insert x ys) = rw e at h in
          let r = All-sort_insert x ys k.1 in (r.0, (k.0, r.1))
      | inr e ↦ rw e at h
    ]

    pub All-sort_by : (xs : List A) → All P (sort_by xs) → All P xs
    unfolding sort_by
    All-sort_by [] h = tt
    All-sort_by (x ∷ xs) h = let r = All-sort_insert x (sort_by xs) h in (r.0, All-sort_by xs r.1)

  In-later :
      (a x y : A) (ys zs : List A) → (In a zs → In a (x ∷ ys)) → In a (y ∷ zs) → In a (x ∷ y ∷ ys)
  In-later a x y ys zs f (here e) = there (here e)
  In-later a x y ys zs f (there m) = swap_in (f m)
    where
      swap_in : In a (x ∷ ys) → In a (x ∷ y ∷ ys)
      swap_in (here e) = here e
      swap_in (there n) = there (there n)

  In-sort_insert : (a x : A) (ys : List A) → In a (sort_insert x ys) → In a (x ∷ ys)
  unfolding sort_insert
  In-sort_insert a x [] h = h
  In-sort_insert a x (y ∷ ys) h = elim (Bool-cases (after x y)) [
    | inl e ↦ In-later a x y ys (sort_insert x ys) (In-sort_insert a x ys) (rw e at h)
    | inr e ↦ rw e at h
  ]

  In-tail : (a x : A) (ys zs : List A) → (In a zs → In a ys) → In a (x ∷ zs) → In a (x ∷ ys)
  In-tail a x ys zs f (here e) = here e
  In-tail a x ys zs f (there m) = there (f m)

  pub In-sort_by : (a : A) (xs : List A) → In a (sort_by xs) → In a xs
  unfolding sort_by
  In-sort_by a [] h = h
  In-sort_by a (x ∷ xs) h =
      In-tail a x xs (sort_by xs) (In-sort_by a xs) (In-sort_insert a x (sort_by xs) h)

  module _ {κ} (P : A → Type κ) where
    sort_insert-All : (x : A) (ys : List A) → P x → All P ys → All P (sort_insert x ys)
    unfolding sort_insert
    sort_insert-All x [] p h = (p, tt)
    sort_insert-All x (y ∷ ys) p h = elim (Bool-cases (after x y)) [
      | inl e ↦ rw e (h.0, sort_insert-All x ys p h.1)
      | inr e ↦ rw e (p, h)
    ]

    pub sort_by-All : (xs : List A) → All P xs → All P (sort_by xs)
    unfolding sort_by
    sort_by-All [] h = tt
    sort_by-All (x ∷ xs) h = sort_insert-All x (sort_by xs) h.0 (sort_by-All xs h.1)
