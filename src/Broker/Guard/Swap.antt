-- ===== src/Broker/Guard/Swap.antt =====
-- Rule 2 of the guard: what an accepted call of the router is.
use decant_fi.Common.{
  ℕ, ◌≡◌, refl, ◌≢◌, ◌↔◌, true, List, [], ◌∷◌, Option, none, some, String, str_eq, str_eq_iff,
  arith, All,
}
use decant_fi.Common.Int.{ℤ, pos, ◌+ℤ◌, ◌≤ℤ◌}
use decant_fi.Broker.Guard.{
  Native, unreadable, routes, text, other_value, ArgList, args, args_throw, args_not_array,
  Invocation, Check, pass, reject, ◌>>=◌, ◌>>◌, check_amounts, sum_amounts, check_invoke,
  check_target, check_sold, check_trader, check_args, arg_list,
}

pub bind-eq-pass {ℓ κ} :
    {A : Type ℓ} {B : Type κ} (m : Check A) (f : A → Check B) {b : B}
    → (m >>= f) ≡ pass b
    → (a : A) × (m ≡ pass a) × (f a ≡ pass b)
bind-eq-pass (pass a) f h = (a, refl, h)
bind-eq-pass (reject r) f h = cc

abbrev pub IsNatural : Option ℤ → Type 0
IsNatural none = ⊥
IsNatural (some r) = pos 0 ≤ℤ r

pub check_amounts_iff :
    (i : ℕ) (rs : List (Option ℤ)) → (check_amounts i rs ≡ pass tt) ↔ All IsNatural rs
unfolding check_amounts
check_amounts_iff i [] = (λ e. tt, λ a. refl)
check_amounts_iff i (none ∷ rs) = (λ e. cc, λ a. absurd a.0)
check_amounts_iff i (some r ∷ rs) = (
  λ e. (ground arith, (check_amounts_iff i rs).0 (ground arith)),
  λ a. ground (arith, (check_amounts_iff i rs).1 a.1),
)

-- A call of the router's `swap` whose routes sell natural amounts on behalf of the trader.
pub record IsSwap (trader router : String) (ic : Invocation) (sold : List (Option ℤ)) : Type 0 where
  pub router_set : router ≢ ""
  pub contract : ic.contract_id ≡ some router
  pub function : ic.function_name ≡ some "swap"
  pub first : Native
  pub more : List Native
  pub layout : ic.arguments ≡ args (first ∷ routes sold ∷ text trader ∷ more)
  pub natural : All IsNatural sold

check_target_iff :
    (router : String) (i : ℕ) (ic : Invocation)
    → (check_target router i ic ≡ pass tt)
      ↔ ((router ≢ "") × (ic.contract_id ≡ some router) × (ic.function_name ≡ some "swap"))
unfolding check_target
check_target_iff router i ic = (λ h. target h, λ (a, b, c). back a b c)
  where
    texts : (s : Option String) → (t : String) → Type 0
    texts none t = Unit
    texts (some s) t = (str_eq s t ≡ true) ↔ (s ≡ t)

    compared : (s : Option String) (t : String) → texts s t
    compared none t = tt
    compared (some s) t = str_eq_iff s t

    target :
        check_target router i ic ≡ pass tt
        → (router ≢ "") × (ic.contract_id ≡ some router) × (ic.function_name ≡ some "swap")
    target h = ground (
      arith,
      str_eq_iff router "",
      compared ic.contract_id router,
      compared ic.function_name "swap",
    )

    back :
        router ≢ ""
        → ic.contract_id ≡ some router
        → ic.function_name ≡ some "swap"
        → check_target router i ic ≡ pass tt
    back a b c = rw (b, c) (ground (arith, str_eq_iff router "", str_eq_iff router router))

check_sold_sound :
    (limit total : ℤ) (i : ℕ) (arg : Option Native) {sold : ℤ}
    → check_sold limit total i arg ≡ pass sold
    → (rs : List (Option ℤ)) × (arg ≡ some (routes rs))
      × All IsNatural rs
      × (sold ≡ total +ℤ sum_amounts (pos 0) rs)
      × (sold ≤ℤ limit)
unfolding check_sold
check_sold_sound limit total i (some (routes rs)) h =
    (rs, refl, (check_amounts_iff i rs).0 (ground arith), ground arith, ground arith)
check_sold_sound limit total i (some (text x)) h = cc
check_sold_sound limit total i (some unreadable) h = cc
check_sold_sound limit total i (some other_value) h = cc
check_sold_sound limit total i none h = cc

check_sold_complete :
    (limit total : ℤ) (i : ℕ) (rs : List (Option ℤ))
    → All IsNatural rs
    → total +ℤ sum_amounts (pos 0) rs ≤ℤ limit
    → check_sold limit total i (some (routes rs)) ≡ pass (total +ℤ sum_amounts (pos 0) rs)
unfolding check_sold
check_sold_complete limit total i rs n h = ground (arith, (check_amounts_iff i rs).1 n)

check_trader_iff :
    (trader : String) (i : ℕ) (arg : Option Native)
    → (check_trader trader i arg ≡ pass tt) ↔ (arg ≡ some (text trader))
unfolding check_trader
check_trader_iff trader i (some (text who)) = ground (arith, str_eq_iff who trader)
check_trader_iff trader i _ = ground arith

check_args_sound :
    (trader : String) (limit total : ℤ) (i : ℕ) (l : ArgList) {sold : ℤ}
    → check_args trader limit total i l ≡ pass sold
    → (rs : List (Option ℤ)) × (first : Native) × (more : List Native) × (l
        ≡ args (first ∷ routes rs ∷ text trader ∷ more))
      × All IsNatural rs
      × (sold ≡ total +ℤ sum_amounts (pos 0) rs)
      × (sold ≤ℤ limit)
unfolding check_args
check_args_sound trader limit total i args_throw h = cc
check_args_sound trader limit total i args_not_array h = cc
check_args_sound trader limit total i (args []) h = cc
check_args_sound trader limit total i (args (x ∷ [])) h = cc
check_args_sound trader limit total i (args (x ∷ y ∷ [])) h = cc
check_args_sound trader limit total i (args (x ∷ y ∷ z ∷ more)) h =
    let (sold, checked, h1) = bind-eq-pass (check_sold limit total i (some y)) _ (long h) in
    let (_, who, same) = bind-eq-pass (check_trader trader i (some z)) _ h1 in
    let (rs, is_routes, natural, total_is, below) =
      check_sold_sound limit total i (some y) checked in
    let is_trader = (check_trader_iff trader i (some z)).0 who in
    (
      rs,
      x,
      more,
      ground (arith, is_routes, is_trader),
      natural,
      ground (arith, same, total_is),
      ground (arith, same, below),
    )
  where
    long :
        {sold : ℤ}
        → check_args trader limit total i (args (x ∷ y ∷ z ∷ more)) ≡ pass sold
        → (check_sold limit total i (some y) >>= λ sold.
            check_trader trader i (some z) >> pass sold)
          ≡ pass sold
    long e = ground arith

pub check_invoke_sound :
    (trader router : String) (limit total : ℤ) (i : ℕ) (ic : Invocation) {sold : ℤ}
    → check_invoke trader router limit total i ic ≡ pass sold
    → (rs : List (Option ℤ)) × IsSwap trader router ic rs
      × (sold ≡ total +ℤ sum_amounts (pos 0) rs)
      × (sold ≤ℤ limit)
unfolding check_invoke
check_invoke_sound trader router limit total i ic h =
    let (_, target, h1) = bind-eq-pass (check_target router i ic) _ h in
    let (router_set, contract, function) = (check_target_iff router i ic).0 target in
    let (rs, first, more, layout, natural, total_is, below) =
      check_args_sound trader limit total i ic.arguments h1 in
    (
      rs,
      record {
        router_set = router_set;
        contract = contract;
        function = function;
        first = first;
        more = more;
        layout = layout;
        natural = natural;
      },
      total_is,
      below,
    )

arg_list_long :
    (i : ℕ) (x y z : Native) (more : List Native)
    → arg_list i (args (x ∷ y ∷ z ∷ more)) ≡ pass (x ∷ y ∷ z ∷ more)
arg_list_long i x y z more = ground arith

pub check_invoke_complete :
    (trader router : String) (limit total : ℤ) (i : ℕ) (ic : Invocation) (rs : List (Option ℤ))
    → IsSwap trader router ic rs
    → total +ℤ sum_amounts (pos 0) rs ≤ℤ limit
    → check_invoke trader router limit total i ic ≡ pass (total +ℤ sum_amounts (pos 0) rs)
unfolding check_invoke check_args
check_invoke_complete trader router limit total i ic rs s h =
    rw
      (
        (check_target_iff router i ic).1 (s.router_set, s.contract, s.function),
        s.layout,
        arg_list_long i s.first (routes rs) (text trader) s.more,
        check_sold_complete limit total i rs s.natural h,
        (check_trader_iff trader i (some (text trader))).1 refl,
      )
      refl
