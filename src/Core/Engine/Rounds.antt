-- ===== src/Core/Engine/Rounds.antt =====
-- core/engine.ts `quoteAll`: what the rounds over the answers of the sources add up to.
use decant_fi.Common.{
  Bool, not, ◌++◌, map, ap, ◌≡◌, refl, true, false, List, [], ◌∷◌, Option, none, some, String,
  filter, sym, subst, ◌∙◌, str_eq, get_key, get_key-set_key, ◌>>=◌, if◌then◌else◌,
}
use mathlib.Core.List.{append_assoc, append-nil}
use decant_fi.Common.Float.{Floats}
use decant_fi.Core.Amount.{Parsed, ok, err}
use decant_fi.Core.Types.{QuoteRequest, NormalizedQuote}
use decant_fi.Core.Prices.{Prices}
use decant_fi.Core.Rank.{or_else}
use decant_fi.Core.Engine.{
  or_text, timeout_reason, Settled, fulfilled, rejected, Adapter, QuoteAll, finalize, finalized,
  push_quote, push_error, push_settled, settle_all, reason_of,
}

module _ (F : Floats) where
  -- The net amount of a completed quote is the gross amount: no gas is deducted.
  abbrev pub NetIsGross : NormalizedQuote F.Num → Type 0
  NetIsGross q = q.net_out ≡ q.gross_out

  abbrev pub OnSome {ℓ} : {A : Type ℓ} → (A → Type 0) → Option A → Type 0
  OnSome P none = Unit
  OnSome P (some a) = P a

  pub or_else-none : (o : Option String) → or_else o none ≡ o
  or_else-none none = refl
  or_else-none (some t) = refl

  some_injective : {A : Type 0} {x y : A} → some x ≡ some y → x ≡ y
  some_injective e = cc

  abbrev pub is_quoting : Settled F.Num → Bool
  is_quoting (fulfilled (some q)) = true
  is_quoting _ = false

  -- The reason for which a source has no quote.
  abbrev pub reason_told : Settled F.Num → Option String → String
  reason_told (rejected true) stored = "timeout"
  reason_told _ (some reason) = reason
  reason_told _ none = "indisponible"

  reason_told_lem :
      (r : Settled F.Num) (stored : Option String)
      → or_text (or_else (timeout_reason F r) stored) "indisponible" ≡ reason_told r stored
  reason_told_lem (rejected true) stored = refl
  reason_told_lem (rejected false) (some t) = refl
  reason_told_lem (rejected false) none = refl
  reason_told_lem (fulfilled q) (some t) = refl
  reason_told_lem (fulfilled q) none = refl

  reason_step :
      (o : Option String) (b : Bool) (x y : String) (k z : Option String)
      → x ≡ y
      → z ≡ (if b then some x else k)
      → or_else o z ≡ or_else (or_else o (if b then some y else none)) k
  reason_step (some t) b x y k z e h = refl
  reason_step none true x y k z e h = h ∙ ap some e
  reason_step none false x y k z e h = h

  module _ (req : QuoteRequest) where
    -- The sources that settle with a quote, and those that do not.
    abbrev pub quoting : List (Adapter F.Num) → List (Adapter F.Num)
    quoting = filter λ a. is_quoting (a.settles req)

    abbrev pub quoteless : List (Adapter F.Num) → List (Adapter F.Num)
    quoteless = filter λ a. not (is_quoting (a.settles req))

    -- The quote of a source, completed.
    pub record IsQuoteOf (a : Adapter F.Num) (q : NormalizedQuote F.Num) : Type 0 where
      pub answer : NormalizedQuote F.Num
      pub settles : a.settles req ≡ fulfilled (some answer)
      pub same_source : q.source ≡ answer.source
      pub same_gross : q.gross_out ≡ answer.gross_out
      pub net_is_gross : NetIsGross q
      pub timed : q.duration_ms ≡ some (a.duration_ms req)

    abbrev pub AreQuotesOf : List (Adapter F.Num) → List (NormalizedQuote F.Num) → Type 0
    AreQuotesOf [] [] = Unit {0}
    AreQuotesOf (a ∷ rest) (q ∷ qs) = IsQuoteOf a q × AreQuotesOf rest qs
    AreQuotesOf _ _ = ⊥

    -- The reason of the last of the sources with the given id, if there is one.
    abbrev pub last_reason : String → List (Adapter F.Num) → Option String
    last_reason id [] = none
    last_reason id (a ∷ rest) =
        or_else (last_reason id rest) (
          if str_eq a.id id then some (reason_told (a.settles req) (a.stored_reason req)) else none)

    -- What a round over some sources adds.
    pub record SettledFrom (before : QuoteAll F.Num) (sources : List (Adapter F.Num))
        (all : QuoteAll F.Num) : Type 0 where
      pub added : List (NormalizedQuote F.Num)
      pub quotes : all.quotes ≡ before.quotes ++ added
      pub complete : AreQuotesOf (quoting sources) added
      pub errors : all.errors ≡ before.errors ++ map (λ a. a.id) (quoteless sources)
      pub reasons :
          (id : String)
          → get_key all.error_reasons id
            ≡ or_else (last_reason id (quoteless sources)) (get_key before.error_reasons id)

    -- The quotes and errors that the sources leave.
    pub record IsSettled (sources : List (Adapter F.Num)) (all : QuoteAll F.Num) : Type 0 where
      pub complete : AreQuotesOf (quoting sources) all.quotes
      pub errors : all.errors ≡ map (λ a. a.id) (quoteless sources)
      pub reasons :
          (id : String) → get_key all.error_reasons id ≡ last_reason id (quoteless sources)

    module _ (prices : Prices F.Num) where
      finalize-IsQuoteOf :
          (a : Adapter F.Num) (given q : NormalizedQuote F.Num)
          → a.settles req ≡ fulfilled (some given)
          → finalize F (record given { duration_ms = some (a.duration_ms req) }) prices ≡ some q
          → IsQuoteOf a q
      unfolding finalize
      finalize-IsQuoteOf a given q e f = ends _ f
        where
          ends :
              (r : Parsed)
              → finalized F (record given { duration_ms = some (a.duration_ms req) }) prices r
                ≡ some q
              → IsQuoteOf a q
          ends (err x) k = let m : none ≡ some q = k in cc
          ends (ok gas) k = subst (IsQuoteOf a) (some_injective k) (record {
            answer = given;
            settles = e;
            same_source = refl;
            same_gross = refl;
            net_is_gross = refl;
            timed = refl;
          })

      module _ (a : Adapter F.Num) (sources : List (Adapter F.Num)) (acc all : QuoteAll F.Num)
          (later : (next : QuoteAll F.Num)
            → settle_all F req prices sources next ≡ some all
            → SettledFrom next sources all) where
        adds_error :
            is_quoting (a.settles req) ≡ false
            → settle_all F req prices sources (push_error F req a acc) ≡ some all
            → SettledFrom acc (a ∷ sources) all
        adds_error n e =
            let h = later _ e in
            record {
              added = h.added;
              quotes = h.quotes;
              complete = rw n h.complete;
              errors = rw n (h.errors ∙ append_assoc acc.errors (a.id ∷ []) _);
              reasons = λ id. rw n (
                  h.reasons id
                  ∙ reason_step (last_reason id (quoteless sources)) (str_eq a.id id) _ _ _ _
                      (reason_told_lem (a.settles req) (a.stored_reason req))
                      (get_key-set_key acc.error_reasons a.id id (reason_of F req a)));
            }

        adds_quote :
            (given : NormalizedQuote F.Num) (o : Option (NormalizedQuote F.Num))
            → a.settles req ≡ fulfilled (some given)
            → finalize F (record given { duration_ms = some (a.duration_ms req) }) prices ≡ o
            → push_quote F o acc >>= settle_all F req prices sources ≡ some all
            → SettledFrom acc (a ∷ sources) all
        adds_quote given none s f e = let m : none ≡ some all = e in cc
        adds_quote given (some q) s f e =
            let h = later _ e in
            record {
              added = q ∷ h.added;
              quotes = h.quotes ∙ append_assoc acc.quotes (q ∷ []) h.added;
              complete = rw s (finalize-IsQuoteOf a given q s f, h.complete);
              errors = rw s h.errors;
              reasons = rw s h.reasons;
            }

        adds :
            (r : Settled F.Num)
            → a.settles req ≡ r
            → push_settled F req prices a r acc >>= settle_all F req prices sources ≡ some all
            → SettledFrom acc (a ∷ sources) all
        adds (fulfilled (some q)) s e = adds_quote q _ s refl e
        adds (fulfilled none) s e = adds_error (ap is_quoting s) e
        adds (rejected t) s e = adds_error (ap is_quoting s) e

      pub settle_all-SettledFrom :
          (sources : List (Adapter F.Num)) (acc all : QuoteAll F.Num)
          → settle_all F req prices sources acc ≡ some all
          → SettledFrom acc sources all
      unfolding settle_all
      settle_all-SettledFrom [] acc all e = subst (SettledFrom acc []) (some_injective e) (record {
        added = [];
        quotes = sym (append-nil acc.quotes);
        complete = tt;
        errors = sym (append-nil acc.errors);
        reasons = λ id. refl;
      })
      settle_all-SettledFrom (a ∷ sources) acc all e =
          adds a sources acc all (λ next. settle_all-SettledFrom sources next all) (a.settles req)
            refl e
