-- ===== src/App/Exec/Readings.antt =====
-- app.js: what the polls of the USDC balance after the first leg have seen.
use decant_fi.Common.{
  ◌≡◌, refl, inl, inr, ℕ, zero, suc, ◌+◌, ◌<◌, Bool, true, false, Option, none, some, arith,
  Bool-cases, subst, ap, ◌∙◌, sym,
}
use decant_fi.Common.Float.{Floats}
use decant_fi.App.State.{World}
use decant_fi.App.Exec.Confirm.{
  UsdcPoll, closed, ended, poll_usdc, arrived, or_num, usdc_round, if_arrived,
}

module _ (F : Floats) (w : World F.Num) where
  -- So many polls, counted from `i`, found the modal open.
  abbrev pub IsOpen : ℕ → ℕ → Type 0
  IsOpen i zero = Unit {0}
  IsOpen i (suc n) = (w.leg1_open i ≡ true) × IsOpen (suc i) n

  -- The first balance that so many polls, counted from `i`, have read, if any has; one that is known
  -- before counts as the first.
  abbrev pub first_read : Option F.Num → ℕ → ℕ → Option F.Num
  first_read (some first) i n = some first
  first_read none i zero = none
  first_read none i (suc n) = first_read (w.usdc_balance i) (suc i) n

  -- What is not read exceeds nothing.
  abbrev pub IsBelow : Option F.Num → Option F.Num → Type 0
  IsBelow reference none = Unit {0}
  IsBelow none (some balance) = ⊥
  IsBelow (some reference) (some balance) = arrived F reference balance ≡ false

  -- None of so many readings, counted from `i`, exceeds the reference.
  abbrev pub AreBelow : Option F.Num → ℕ → ℕ → Type 0
  AreBelow reference i zero = Unit {0}
  AreBelow reference i (suc n) = IsBelow reference (w.usdc_balance i) × AreBelow reference (suc i) n

  -- The balance before the swap if that was read, and otherwise the first one read.
  abbrev pub reference : Option F.Num → Option F.Num → Option F.Num
  reference none first = first
  reference (some known) first = some known

  -- The modal is found closed.
  pub record IsClosed (i left : ℕ) : Type 0 where
    pub poll : ℕ
    pub in_time : poll < left
    pub is_open : IsOpen i poll
    pub found : w.leg1_open (i + poll) ≡ false

module _ (F : Floats) (w : World F.Num) (before initial : Option F.Num) where
  -- A poll reads the given balance, the modal open until then, which is the first to exceed the
  -- reference.
  pub record IsArrival (i left : ℕ) (first : Option F.Num) (received : F.Num) : Type 0 where
    pub poll : ℕ
    pub in_time : poll < left
    pub is_open : IsOpen F w i (suc poll)
    pub first_is : first ≡ first_read F w initial i (suc poll)
    pub base : F.Num
    pub base_is : reference F w before first ≡ some base
    pub earlier : AreBelow F w (some base) i poll
    pub balance : F.Num
    pub reading : w.usdc_balance (i + poll) ≡ some balance
    pub exceeds : arrived F base balance ≡ true
    pub difference : received ≡ F.sub balance base

  -- The modal stays open, and no balance read exceeds the reference.
  pub record IsNoArrival (i left : ℕ) (first : Option F.Num) : Type 0 where
    pub is_open : IsOpen F w i left
    pub first_is : first ≡ first_read F w initial i left
    pub below : AreBelow F w (reference F w before first) i left

  abbrev pub IsUsdcPoll : ℕ → ℕ → UsdcPoll F.Num → Type 0
  IsUsdcPoll i left closed = IsClosed F w i left
  IsUsdcPoll i left (ended (some r) first) = IsArrival i left first r
  IsUsdcPoll i left (ended none first) = IsNoArrival i left first

module _ (F : Floats) (w : World F.Num) (before : Option F.Num) where
  abbrev Polls : Option F.Num → ℕ → ℕ → UsdcPoll F.Num → Type 0
  Polls initial = IsUsdcPoll F w before initial

  shift : (i k : ℕ) → suc i + k ≡ i + suc k
  shift i k = omega arith

  -- The first balance after a reading.
  abbrev next : Option F.Num → Option F.Num → Option F.Num
  next initial none = initial
  next initial (some balance) = some (or_num F initial balance)

  first_read-next :
      (initial reading : Option F.Num) (i n : ℕ)
      → w.usdc_balance i ≡ reading
      → first_read F w initial i (suc n) ≡ first_read F w (next initial reading) (suc i) n
  first_read-next (some y) none i n e = refl
  first_read-next (some y) (some b) i n e = refl
  first_read-next none none i n e = ap (λ o. first_read F w o (suc i) n) e
  first_read-next none (some b) i n e = ap (λ o. first_read F w o (suc i) n) e

  -- A poll that is not the last.
  later :
      (initial reading : Option F.Num) (i left : ℕ) (r : UsdcPoll F.Num)
      → w.leg1_open i ≡ true
      → w.usdc_balance i ≡ reading
      → ((first : Option F.Num) (m : ℕ)
          → first ≡ first_read F w (next initial reading) (suc i) m
          → IsBelow F w (reference F w before first) (w.usdc_balance i))
      → Polls (next initial reading) (suc i) left r
      → Polls initial i (suc left) r
  later initial reading i left closed o e below h = record {
    poll = suc h.poll;
    in_time = omega (arith, h.in_time);
    is_open = (o, h.is_open);
    found = subst (λ n. w.leg1_open n ≡ false) (shift i h.poll) h.found;
  }
  later initial reading i left (ended (some r) first) o e below h = record {
    poll = suc h.poll;
    in_time = omega (arith, h.in_time);
    is_open = (o, h.is_open);
    first_is = h.first_is ∙ sym (first_read-next initial reading i (suc h.poll) e);
    base = h.base;
    base_is = h.base_is;
    earlier = (
      subst (λ t. IsBelow F w t (w.usdc_balance i)) h.base_is (below first (suc h.poll) h.first_is),
      h.earlier,
    );
    balance = h.balance;
    reading = subst (λ n. w.usdc_balance n ≡ some h.balance) (shift i h.poll) h.reading;
    exceeds = h.exceeds;
    difference = h.difference;
  }
  later initial reading i left (ended none first) o e below h = record {
    is_open = (o, h.is_open);
    first_is = h.first_is ∙ sym (first_read-next initial reading i left e);
    below = (below first left h.first_is, h.below);
  }

  reference-some :
      (b : Option F.Num) (first : F.Num) → reference F w b (some first) ≡ some (or_num F b first)
  reference-some none first = refl
  reference-some (some known) first = refl

  -- A poll that reads a balance.
  reads :
      (initial : Option F.Num) (bal : F.Num) (i left : ℕ) (more : UsdcPoll F.Num)
      → w.leg1_open i ≡ true
      → w.usdc_balance i ≡ some bal
      → Polls (some (or_num F initial bal)) (suc i) left more
      → let first = or_num F initial bal in
        Polls initial i (suc left) (if_arrived F (or_num F before first) first bal more)
  reads initial bal i left more o e h =
      let first = or_num F initial bal in
      let base = or_num F before first in
      elim (Bool-cases (arrived F base bal)) [
        | inl a ↦
            rw (a, IsUsdcPoll)
              (record {
                poll = 0;
                in_time = omega arith;
                is_open = (o, tt);
                first_is = sym (first_read-next initial (some bal) i 0 e);
                base = base;
                base_is = reference-some before first;
                earlier = tt;
                balance = bal;
                reading = subst (λ n. w.usdc_balance n ≡ some bal) (omega arith) e;
                exceeds = a;
                difference = refl;
              })
        | inr a ↦ rw a (
            later initial (some bal) i left more o e
              (λ f m g.
                subst (λ t. IsBelow F w t (w.usdc_balance i))
                  (sym (
                    ap (reference F w before) (g ∙ known first (suc i) m)
                    ∙ reference-some before first))
                  (subst (IsBelow F w (some base)) (sym e) a))
              h)
      ]
    where
      known : (x : F.Num) (j n : ℕ) → first_read F w (some x) j n ≡ some x
      known x j zero = refl
      known x j (suc n) = refl

  round :
      (initial : Option F.Num) (i left : ℕ) (o : Bool) (reading : Option F.Num)
      (skipped : UsdcPoll F.Num) (more : F.Num → UsdcPoll F.Num)
      → w.leg1_open i ≡ o
      → w.usdc_balance i ≡ reading
      → Polls initial (suc i) left skipped
      → ((first : F.Num) → Polls (some first) (suc i) left (more first))
      → Polls initial i (suc left) (usdc_round F before initial o reading skipped more)
  round initial i left false reading skipped more o e s m = record {
    poll = 0;
    in_time = omega arith;
    is_open = tt;
    found = subst (λ n. w.leg1_open n ≡ false) (omega arith) o;
  }
  round initial i left true none skipped more o e s m =
      later initial none i left skipped o e
        (λ f n g. subst (IsBelow F w (reference F w before f)) (sym e) tt) s
  round initial i left true (some bal) skipped more o e s m =
      reads initial bal i left _ o e (m (or_num F initial bal))

  pub poll_usdc-IsUsdcPoll :
      (initial : Option F.Num) (i left : ℕ)
      → Polls initial i left (poll_usdc F w before initial i left)
  unfolding poll_usdc
  poll_usdc-IsUsdcPoll none i zero = record { is_open = tt; first_is = refl; below = tt }
  poll_usdc-IsUsdcPoll (some x) i zero = record { is_open = tt; first_is = refl; below = tt }
  poll_usdc-IsUsdcPoll initial i (suc left) =
      round initial i left (w.leg1_open i) (w.usdc_balance i) _ _ refl refl
        (poll_usdc-IsUsdcPoll initial (suc i) left)
        (λ first. poll_usdc-IsUsdcPoll (some first) (suc i) left)
