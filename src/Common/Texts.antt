-- ===== src/Common/Texts.antt =====
-- Texts searched without regard to the case of ASCII letters: `/word/i` and `toLowerCase().includes`.
use decant_fi.Common.{
  ℕ, ◌+◌, Bool, true, false, ◌&&◌, ◌||◌, List, [], ◌∷◌, String, codes, leb, ◌==◌, if◌then◌else◌,
}

abbrev pub lower : ℕ → ℕ
lower c = if leb b'A' c && leb c b'Z' then c + 32 else c

unfoldable pub starts_folded : List ℕ → List ℕ → Bool
starts_folded [] text = true
starts_folded (c ∷ pattern) [] = false
starts_folded (c ∷ pattern) (d ∷ text) = c == lower d && starts_folded pattern text

unfoldable pub contains_folded : List ℕ → List ℕ → Bool
unfolding starts_folded
contains_folded word [] = starts_folded word []
contains_folded word (c ∷ text) = starts_folded word (c ∷ text) || contains_folded word text

abbrev pub includes_word : String → String → Bool
includes_word text word = contains_folded (codes word) (codes text)
