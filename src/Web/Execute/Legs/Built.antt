-- ===== src/Web/Execute/Legs/Built.antt =====
-- What the operations of a split send and ask for.
use decant_fi.Common.{
  ℕ, ◌≡◌, refl, ap, sym, subst, ◌∙◌, inl, inr, Bool, true, false, ◌&&◌, List, [], ◌∷◌, Option, none,
  some, String, map, length, length-map, arith, All, Bool-cases, if◌then◌else◌,
}
use decant_fi.Common.Int.{ℤ, pos, ltb_ℤ}
use decant_fi.Core.Amount.{to_stroops}
use decant_fi.Core.Amount.Roundtrip.{to_stroops-from_stroops}
use decant_fi.Core.Types.{Asset}
use decant_fi.Web.Execute.{trustline_missing, Outcome, ok, refused, broke, min_received}
use decant_fi.Web.Execute.Legs.{
  UltraLeg, UltraQuote, ExtendedPath, legs_of, leg_before, parsed, quote_of, parse_ultra_quote, sum,
  StrictSend, Balance, leg_op, op_before, leg_ops, ops_from, has_trustline, build_ultra,
  reconcile_leg_sends,
}
use decant_fi.Web.Execute.Legs.Sends.{IsSettled, reconcile_leg_sends-IsSettled}

abbrev pub IsPositive : ℤ → Type 0
IsPositive v = ltb_ℤ (pos 0) v ≡ true

abbrev pub AllPositive : List UltraLeg → Type 0
AllPositive legs = All (λ (l : UltraLeg). IsPositive l.send_stroops) legs

both : (a b : Bool) → a && b ≡ true → a ≡ true
both true b h = refl
both false b h = cc

leg_before-AllPositive :
    (p : ExtendedPath) (send dest : Option ℤ) (legs : List UltraLeg)
    → AllPositive legs
    → AllPositive (leg_before send dest p.path legs)
leg_before-AllPositive p (some send) (some dest) legs h =
    elim (Bool-cases (ltb_ℤ (pos 0) send && ltb_ℤ (pos 0) dest)) [
      | inl e ↦ rw e (both (ltb_ℤ (pos 0) send) (ltb_ℤ (pos 0) dest) e, h)
      | inr e ↦ rw e h
    ]
leg_before-AllPositive p (some send) none legs h = h
leg_before-AllPositive p none dest legs h = h

legs_of-AllPositive : (paths : List ExtendedPath) → AllPositive (legs_of paths)
unfolding legs_of
legs_of-AllPositive [] = tt
legs_of-AllPositive (p ∷ ps) =
    leg_before-AllPositive p (parsed (to_stroops p.source_amount 7))
      (parsed (to_stroops p.destination_amount 7)) (legs_of ps) (legs_of-AllPositive ps)

-- What the network reads in an operation.
abbrev pub read : List ℕ → Option ℤ
read text = parsed (to_stroops text 7)

-- The operations pair the legs with what they send.
abbrev pub PaysFor : String → ℕ → List UltraLeg → List ℤ → List StrictSend → Type 0
PaysFor sender bps [] [] [] = Unit {0}
PaysFor sender bps (leg ∷ legs) (send ∷ sends) (op ∷ ops) =
    (read op.send_amount ≡ some send)
    × (read op.dest_min ≡ min_received leg.dest_stroops bps)
    × (op.destination ≡ sender)
    × PaysFor sender bps legs sends ops
PaysFor sender bps _ _ _ = ⊥

module _ (sender : String) (sell buy : Asset) (bps : ℕ) where
  op_before-ok :
      (op : Option StrictSend) (rest : Outcome (List StrictSend)) (ops : List StrictSend)
      → op_before sender sell buy op rest ≡ ok ops
      → (o : StrictSend) × (os : List StrictSend) × (op ≡ some o) × (rest ≡ ok os) × (ops ≡ o ∷ os)
  op_before-ok (some o) (ok os) ops h = (o, os, refl, refl, cc)
  op_before-ok (some o) (refused e) ops h = cc
  op_before-ok (some o) broke ops h = cc
  op_before-ok none rest ops h = cc

  -- The operation of a leg, read back.
  abbrev Reads : Option ℤ → ℤ → Option StrictSend → Type 0
  Reads minimum send none = Unit {0}
  Reads minimum send (some o) =
      (read o.send_amount ≡ some send) × (read o.dest_min ≡ minimum) × (o.destination ≡ sender)

  leg_op-Reads :
      (leg : UltraLeg) (send : ℤ) (minimum : Option ℤ)
      → Reads minimum send (leg_op sender sell buy leg send minimum)
  leg_op-Reads leg send none = tt
  leg_op-Reads leg send (some m) =
      (ap parsed (to_stroops-from_stroops send 7), ap parsed (to_stroops-from_stroops m 7), refl)

  ops-PaysFor :
      (legs : List UltraLeg) (sends : List ℤ) (ops : List StrictSend)
      → length sends ≡ length legs
      → leg_ops sender sell buy bps legs sends ≡ ok ops
      → PaysFor sender bps legs sends ops
  unfolding leg_ops
  ops-PaysFor [] [] [] n h = tt
  ops-PaysFor [] [] (o ∷ ops) n h = cc
  ops-PaysFor [] (s ∷ sends) ops n h = absurd (omega arith)
  ops-PaysFor (leg ∷ legs) [] ops n h = absurd (omega arith)
  ops-PaysFor (leg ∷ legs) (s ∷ sends) ops n h =
      let m = min_received leg.dest_stroops bps in
      let (o, os, built, rest, e) =
        op_before-ok (leg_op sender sell buy leg s m) (leg_ops sender sell buy bps legs sends) ops
          h in
      let r = subst (Reads m s) built (leg_op-Reads leg s m) in
      rw e (r.0, r.1, r.2, ops-PaysFor legs sends os (omega arith) rest)

-- What a split that is built sends, over the legs that it was read from.
pub record IsSplit (sender : String) (bps : ℕ) (legs : List UltraLeg) (total : ℤ)
    (ops : List StrictSend) : Type 0 where
  pub sends : List ℤ
  pub exact : sum sends ≡ total
  pub all_positive : All IsPositive sends
  pub pays : PaysFor sender bps legs sends ops

legs_or_none : Option UltraQuote → List UltraLeg
legs_or_none none = []
legs_or_none (some k) = k.legs

quoted :
    (ls : List UltraLeg) (q : UltraQuote)
    → AllPositive ls
    → quote_of ls ≡ some q
    → (l : UltraLeg) × (rest : List UltraLeg) × (q.legs ≡ l ∷ rest) × AllPositive (l ∷ rest)
unfolding legs_or_none
quoted [] q p e = cc
quoted (l ∷ ls) q p e = (l, ls, sym (ap legs_or_none e), p)

module _ (sender : String) (sell buy : Asset) (bps : ℕ) where
  ops_from-IsSplit :
      (legs : List UltraLeg) (total : ℤ) (r : Outcome (List ℤ)) (ops : List StrictSend)
      → AllPositive legs
      → IsSettled (map (λ (l : UltraLeg). l.send_stroops) legs) total r
      → ops_from sender sell buy bps legs r ≡ ok ops
      → IsSplit sender bps legs total ops
  ops_from-IsSplit legs total (ok sends) ops p s h = record {
    sends = sends;
    exact = s.exact;
    all_positive = s.kept_positive (All-map legs p);
    pays = ops-PaysFor sender sell buy bps legs sends ops (s.same_length ∙ length-map legs _) h;
  }
    where
      All-map :
          (ls : List UltraLeg)
          → AllPositive ls
          → All IsPositive (map (λ (l : UltraLeg). l.send_stroops) ls)
      All-map [] q = tt
      All-map (l ∷ ls) q = (q.0, All-map ls q.1)
  ops_from-IsSplit legs total (refused e) ops p s h = cc
  ops_from-IsSplit legs total broke ops p s h = cc

  -- When a quote of Ultra Stellar is built into a transaction, the amounts that its operations send,
  -- read back from their texts, are positive and add up to exactly the amount to swap; there is one
  -- operation for each leg, it pays the sender, and its minimum, read back, is the floor under that
  -- leg's amount.
  pub build_ultra-IsSplit :
      (paths : List ExtendedPath) (q : UltraQuote) (balances : List Balance) (total : ℤ)
      (ops : List StrictSend)
      → parse_ultra_quote paths ≡ some q
      → build_ultra sender sell buy (some balances) q.legs total bps ≡ ok ops
      → IsSplit sender bps q.legs total ops
  unfolding build_ultra parse_ultra_quote
  build_ultra-IsSplit paths q balances total ops parse h =
      let (l, rest, e, p) = quoted (legs_of paths) q (legs_of-AllPositive paths) parse in
      trusted q.legs l rest e p (has_trustline sender sell buy balances) h
    where
      trusted :
          (legs : List UltraLeg) (l : UltraLeg) (rest : List UltraLeg)
          → legs ≡ l ∷ rest
          → AllPositive (l ∷ rest)
          → (b : Bool)
          → (if b
              then ops_from sender sell buy bps legs
                  (reconcile_leg_sends (map (λ (k : UltraLeg). k.send_stroops) legs) total)
              else refused (trustline_missing buy))
            ≡ ok ops
          → IsSplit sender bps legs total ops
      trusted legs l rest e p false k = cc
      trusted legs l rest e p true k = rw e (
          ops_from-IsSplit (l ∷ rest) total
            (reconcile_leg_sends (map (λ (k : UltraLeg). k.send_stroops) (l ∷ rest)) total) ops p
            (reconcile_leg_sends-IsSettled l.send_stroops
              (map (λ (k : UltraLeg). k.send_stroops) rest) total)
            (rw e at k))
