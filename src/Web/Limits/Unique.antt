-- ===== src/Web/Limits/Unique.antt =====
-- An address has one bucket.
use decant_fi.Common.{
  ℕ, ◌≡◌, refl, ◌⊎◌, inl, inr, true, [], ◌∷◌, Option, none, some, String, str_eq, str_eq_iff,
  get_key, set_key, get_key-set_key, ltb, arith, subst, Bool-cases, ◌<◌,
}
use decant_fi.Web.Limits.{Bucket, Buckets, purge, store}

abbrev pub IsUnique : Buckets → Type 0
IsUnique [] = Unit
IsUnique (entry ∷ rest) = (get_key rest entry.0 ≡ none) × IsUnique rest

pub get_key-purge-none :
    (now : ℕ) (b : Buckets) (key : String) → get_key b key ≡ none → get_key (purge now b) key ≡ none
unfolding purge
get_key-purge-none now [] key h = refl
get_key-purge-none now (entry ∷ rest) key h = elim (Bool-cases (str_eq entry.0 key)) [
  | inl e ↦ let k : some entry.1 ≡ none = rw e at h in cc
  | inr e ↦
      let later = get_key-purge-none now rest key (rw e at h) in
      elim (Bool-cases (ltb entry.1.reset_at now)) [
        | inl t ↦ rw t later
        | inr t ↦ simp (t, e) later
      ]
]

pub purge-IsUnique : (now : ℕ) (b : Buckets) → IsUnique b → IsUnique (purge now b)
unfolding purge
purge-IsUnique now [] u = tt
purge-IsUnique now (entry ∷ rest) u = elim (Bool-cases (ltb entry.1.reset_at now)) [
  | inl t ↦ rw t (purge-IsUnique now rest u.1)
  | inr t ↦ rw t (get_key-purge-none now rest entry.0 u.0, purge-IsUnique now rest u.1)
]

pub set_key-IsUnique :
    (b : Buckets) (key : String) (e : Bucket) → IsUnique b → IsUnique (set_key b key e)
set_key-IsUnique [] key e u = (refl, tt)
set_key-IsUnique (entry ∷ rest) key e u = elim (Bool-cases (str_eq entry.0 key)) [
  | inl t ↦ rw t u
  | inr t ↦ rw t (
    ground (
      arith,
      get_key-set_key rest key entry.0 e,
      str_eq_iff key entry.0,
      str_eq_iff entry.0 key,
      u.0,
      t,
    ),
    set_key-IsUnique rest key e u.1,
  )
]

pub store-IsUnique :
    (b : Buckets) (key : String) (e : Option Bucket) → IsUnique b → IsUnique (store b key e)
store-IsUnique b key none u = u
store-IsUnique b key (some e) u = set_key-IsUnique b key e u

-- A bucket is purged only when its time is over.
pub get_key-purge :
    (now : ℕ) (b : Buckets) (key : String)
    → IsUnique b
    → (get_key (purge now b) key ≡ get_key b key)
      ⊎ ((get_key (purge now b) key ≡ none)
          × ((e : Bucket) × (get_key b key ≡ some e) × e.reset_at < now))
unfolding purge
get_key-purge now [] key u = inl refl
get_key-purge now (entry ∷ rest) key u = elim (Bool-cases (ltb entry.1.reset_at now)) [
  | inl t ↦ elim (Bool-cases (str_eq entry.0 key)) [
    | inl e ↦ simp (t, e) (inr (gone e, (entry.1, refl, ground (arith, t))))
    | inr e ↦ simp (t, e) (get_key-purge now rest key u.1)
  ]
  | inr t ↦ elim (Bool-cases (str_eq entry.0 key)) [
    | inl e ↦ simp (t, e) (inl refl)
    | inr e ↦ simp (t, e) (get_key-purge now rest key u.1)
  ]
]
  where
    gone : str_eq entry.0 key ≡ true → get_key (purge now rest) key ≡ none
    gone e =
        subst (λ k. get_key (purge now rest) k ≡ none) ((str_eq_iff entry.0 key).0 e)
          (get_key-purge-none now rest entry.0 u.0)
