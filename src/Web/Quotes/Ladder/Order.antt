-- ===== src/Web/Quotes/Ladder/Order.antt =====
-- The ladder of a live quote: its order, its winner, and that no composite is offered to one click.
use decant_fi.Common.{ℕ, ◌≡◌, refl, true, false, List, [], ◌∷◌, String, codes, append_text, arith}
use decant_fi.Core.Amount.{is_space, trim_start, trim_end, trim}
use decant_fi.Core.Executable.{is_executable_source}
use decant_fi.Web.Quotes.Names.{has_plus}
use decant_fi.Web.Quotes.Ladder.{joined_id}

has_plus-trim_start : (s : List ℕ) → has_plus s ≡ true → has_plus (trim_start s) ≡ true
unfolding trim_start is_space
has_plus-trim_start [] h = h
has_plus-trim_start (c ∷ s) h = ground (arith, h, has_plus-trim_start s)

ends_lem :
    (c : ℕ) (s r : List ℕ)
    → trim_end s ≡ r
    → (has_plus s ≡ true → has_plus r ≡ true)
    → has_plus (c ∷ s) ≡ true
    → has_plus (trim_end (c ∷ s)) ≡ true
unfolding trim_end is_space
ends_lem c s [] e more h = rw e (ground (arith, h, more))
ends_lem c s (d ∷ r) e more h = rw e (ground (arith, h, more))

has_plus-trim_end : (s : List ℕ) → has_plus s ≡ true → has_plus (trim_end s) ≡ true
unfolding trim_end
has_plus-trim_end [] h = h
has_plus-trim_end (c ∷ s) h = ends_lem c s (trim_end s) refl (has_plus-trim_end s) h

has_plus-append_text :
    (s t : String) → has_plus (codes t) ≡ true → has_plus (codes (append_text s t)) ≡ true
has_plus-append_text String.[] t h = h
has_plus-append_text (String.◌∷◌ letter s) t h = ground (arith, has_plus-append_text s t h)

has_plus-joined_id : (a b : String) → has_plus (codes (joined_id a b)) ≡ true
has_plus-joined_id a b = has_plus-append_text a (append_text "+" b) refl

pub joined_id_not_executable : (a b : String) → is_executable_source (joined_id a b) ≡ false
unfolding is_executable_source trim
joined_id_not_executable a b =
    rw (has_plus-trim_end _ (has_plus-trim_start _ (has_plus-joined_id a b))) refl
