-- ===== src/Web/Server/Checked.antt =====
-- What the checks of a request's fields let through.
use decant_fi.Common.{
  Bool-cases, ◌⊎◌, inl, inr, ap, ◌∙◌, List, [], ◌∷◌, All, all, bind_some, ℕ, ◌<◌, ◌≤◌, ◌≡◌, refl,
  subst, Bool, true, false, ◌&&◌, ◌||◌, Option, none, some, String, codes, length, leb, ltb, str_eq,
  arith, if◌then◌else◌,
}
use decant_fi.Common.Int.{ℤ, pos, negsuc}
use decant_fi.Web.Execute.{
  Venue, xbull, soroswap, horizon, aquarius, comet, ultrastellar, min_received,
}
use decant_fi.Web.Server.{
  is_base32, is_key, is_hex, Field, text, other, Fields, is_stellar_pubkey, pubkey_field,
  pair_field, venue_field, forced_field, from_field, in_cap, slippage_field, PickArgs, build_args,
  xdr_field, text_field, id_field, SubmitArgs, submit_args, is_hash, status_args,
}

-- A value that is given only where a test holds.
pub given_if :
    {A : Type 0} (t : Bool) (x : A) {a : A}
    → (if t then some x else none) ≡ some a
    → (t ≡ true) × (x ≡ a)
given_if true x {a = a} e = let k : some x ≡ some a = e in (refl, cc)
given_if false x {a = a} e = let k : none ≡ some a = e in cc

-- A number within bounds.
abbrev pub Between : ℕ → ℕ → ℕ → Type 0
Between low high c = (low ≤ c) × (c ≤ high)

-- A public key of Stellar: `G` and 55 characters of the base 32.
pub record IsPubkey (s : String) : Type 0 where
  pub rest : List ℕ
  pub starts : codes s ≡ b'G' ∷ rest
  pub size : length rest ≡ 55
  pub base32 : All (λ c. Between b'A' b'Z' c ⊎ Between b'2' b'7' c) rest

-- A hash: 64 hexadecimal digits.
pub record IsHash (s : String) : Type 0 where
  pub size : length (codes s) ≡ 64
  pub hex : All (λ c. Between b'0' b'9' c ⊎ (Between b'a' b'f' c ⊎ Between b'A' b'F' c)) (codes s)

All-test :
    {P : ℕ → Type 0} (test : ℕ → Bool) (f : (c : ℕ) → test c ≡ true → P c) (cs : List ℕ)
    → all test cs ≡ true
    → All P cs
All-test test f [] h = tt
All-test test f (c ∷ cs) h =
    let both : (test c ≡ true) × (all test cs ≡ true) = ground (arith, h) in
    (f c both.0, All-test test f cs both.1)

between_lem : (low high c : ℕ) → leb low c && leb c high ≡ true → Between low high c
between_lem low high c h = (ground (arith, h), ground (arith, h))

either : {P Q : Type 0} (a b : Bool) → (a ≡ true → P) → (b ≡ true → Q) → a || b ≡ true → P ⊎ Q
either true b f g h = inl (f refl)
either false b f g h = inr (g h)

base32_lem : (c : ℕ) → is_base32 c ≡ true → Between b'A' b'Z' c ⊎ Between b'2' b'7' c
base32_lem c = either _ _ (between_lem b'A' b'Z' c) (between_lem b'2' b'7' c)

is_key-IsPubkey : (s : String) (cs : List ℕ) → codes s ≡ cs → is_key cs ≡ true → IsPubkey s
is_key-IsPubkey s [] e h = cc
is_key-IsPubkey s (c ∷ cs) e h = record {
  rest = cs;
  starts = e ∙ ap (λ x. x ∷ cs) first;
  size = ground (arith, h);
  base32 = All-test is_base32 base32_lem cs (ground (arith, h));
}
  where
    first : c ≡ b'G'
    first = ground (arith, h)

pub is_stellar_pubkey-IsPubkey : (s : String) → is_stellar_pubkey s ≡ true → IsPubkey s
unfolding is_stellar_pubkey
is_stellar_pubkey-IsPubkey s h = is_key-IsPubkey s (codes s) refl (ground (arith, h))

hex_lem :
    (c : ℕ) → is_hex c ≡ true → Between b'0' b'9' c ⊎ (Between b'a' b'f' c ⊎ Between b'A' b'F' c)
hex_lem c h = elim (Bool-cases (leb b'0' c && leb c b'9')) [
  | inl e ↦ inl (between_lem b'0' b'9' c e)
  | inr n ↦ inr (
      either (leb b'a' c && leb c b'f') (leb b'A' c && leb c b'F') (between_lem b'a' b'f' c)
        (between_lem b'A' b'F' c) (ground (arith, h, n)))
]

pub is_hash-IsHash : (s : String) → is_hash s ≡ true → IsHash s
is_hash-IsHash s h = record {
  size = ground (arith, h);
  hex = All-test is_hex hex_lem (codes s) (ground (arith, h));
}

pub pubkey_field_lem : (f : Option Field) {s : String} → pubkey_field f ≡ some s → IsPubkey s
pubkey_field_lem none {s = s} e = let k : none ≡ some s = e in cc
pubkey_field_lem (some (other t)) {s = s} e = let k : none ≡ some s = e in cc
pubkey_field_lem (some (text t)) e =
    let g = given_if (is_stellar_pubkey t) t e in
    subst IsPubkey g.1 (is_stellar_pubkey-IsPubkey t g.0)

in_cap_lem : (o : Option ℤ) {n : ℕ} → in_cap o ≡ some n → n ≤ 5000
in_cap_lem none {n = n} e = let k : none ≡ some n = e in cc
in_cap_lem (some (negsuc m)) {n = n} e = let k : none ≡ some n = e in cc
in_cap_lem (some (pos m)) e =
    let g = given_if (leb m 5000) m e in subst (λ n. n ≤ 5000) g.1 (ground (arith, g.0))

slippage_field_lem :
    (integer : Field → Option ℤ) (f : Option Field) {n : ℕ}
    → slippage_field integer f ≡ some n
    → n ≤ 5000
slippage_field_lem integer none {n = n} e =
    let k : some 50 ≡ some n = e in let same : 50 ≡ n = cc in omega (arith, same)
slippage_field_lem integer (some f) e = in_cap_lem (integer f) e

floor_lem : (net : ℤ) (bps : ℕ) → bps ≤ 5000 → (m : ℤ) × (min_received net bps ≡ some m)
unfolding min_received
floor_lem net bps h = let below : leb 10_000 bps ≡ false = ground (arith, h) in rw below (_, refl)

-- The sender is a key, and every floor under a net amount can be computed.
pub record IsBuildable (a : PickArgs) : Type 0 where
  pub sender : IsPubkey a.sender
  pub capped : a.slippage_bps ≤ 5000
  pub floors : (net : ℤ) → (m : ℤ) × (min_received net a.slippage_bps ≡ some m)

pub build_args-IsBuildable :
    (amount_of : Option Field → Option ℤ) (integer : Field → Option ℤ) (b : Fields) (a : PickArgs)
    → build_args amount_of integer b ≡ some a
    → IsBuildable a
unfolding build_args
build_args-IsBuildable amount_of integer b a e =
    let (pair, p, e1) = bind_some (pair_field b.pair) _ e in
    let (sender, s, e2) = bind_some (pubkey_field b.sender) _ e1 in
    let (amount, m, e3) = bind_some (amount_of b.amount) _ e2 in
    let (bps, t, e4) = bind_some (slippage_field integer b.slippage_bps) _ e3 in
    let (venue, v, e5) = bind_some (forced_field b.venue) _ e4 in
    let (sell, l, e6) = bind_some (from_field b.from) _ e5 in
    let cap = slippage_field_lem integer b.slippage_bps t in
    subst IsBuildable (unwrap e6) (record {
      sender = pubkey_field_lem b.sender s;
      capped = cap;
      floors = λ net. floor_lem net bps cap;
    })
  where
    unwrap : {x y : PickArgs} → some x ≡ some y → x ≡ y
    unwrap h = cc

abbrev HasId : Venue → Option String → Type 0
HasId xbull none = ⊥
HasId xbull (some id) = Unit {0}
HasId _ id = Unit {0}

xdr_field_lem :
    (f : Option Field) {s : String}
    → xdr_field f ≡ some s
    → (0 < length (codes s)) × (length (codes s) ≤ 65_536)
xdr_field_lem none {s = s} e = let k : none ≡ some s = e in cc
xdr_field_lem (some (other t)) {s = s} e = let k : none ≡ some s = e in cc
xdr_field_lem (some (text t)) e =
    let g = given_if (ltb 0 (length (codes t)) && leb (length (codes t)) 65_536) t e in
    subst (λ s. (0 < length (codes s)) × (length (codes s) ≤ 65_536)) g.1
      (ground (arith, g.0), ground (arith, g.0))

id_field_lem :
    (venue : Venue) (f : Option Field) {id : Option String}
    → id_field venue f ≡ some id
    → HasId venue id
id_field_lem xbull f e = let b = bind_some (text_field f) _ e in subst (HasId xbull) (unwrap b.2) tt
  where
    unwrap : {x y : Option String} → some x ≡ some y → x ≡ y
    unwrap h = cc
id_field_lem soroswap f e = tt
id_field_lem horizon f e = tt
id_field_lem aquarius f e = tt
id_field_lem comet f e = tt
id_field_lem ultrastellar f e = tt

-- The signed transaction has a length within the bounds, and xBull gets its id.
pub record IsSubmittable (a : SubmitArgs) : Type 0 where
  pub size : (0 < length (codes a.signed_xdr)) × (length (codes a.signed_xdr) ≤ 65_536)
  pub has_id : HasId a.venue a.id

pub submit_args-IsSubmittable :
    (b : Fields) (a : SubmitArgs) → submit_args b ≡ some a → IsSubmittable a
unfolding submit_args
submit_args-IsSubmittable b a e =
    let (venue, v, e1) = bind_some (venue_field b.venue) _ e in
    let (xdr, x, e2) = bind_some (xdr_field b.signed_xdr) _ e1 in
    let (id, i, e3) = bind_some (id_field venue b.id) _ e2 in
    subst IsSubmittable (unwrap e3)
      (record { size = xdr_field_lem b.signed_xdr x; has_id = id_field_lem venue b.id i })
  where
    unwrap : {x y : SubmitArgs} → some x ≡ some y → x ≡ y
    unwrap h = cc

pub status_args_lem :
    (venue hash : Option String) {h : String} → status_args venue hash ≡ some h → IsHash h
unfolding status_args
status_args_lem none hash {h = h} e = let k : none ≡ some h = e in cc
status_args_lem (some v) none {h = h} e = let k : none ≡ some h = e in cc
status_args_lem (some v) (some t) e =
    let g = given_if ((str_eq v "aquarius" || str_eq v "comet") && is_hash t) t e in
    subst IsHash g.1 (is_hash-IsHash t (ground (arith, g.0)))
