-- ===== src/Core/Executable.antt =====
-- core/executable.ts: which sources one click can execute.
use decant_fi.Common.{ℕ, Bool, true, false, not, ◌&&◌, List, [], ◌∷◌, String, codes, ◌==◌, any}
use decant_fi.Core.Amount.{trim}

abbrev pub executable_sources : List String
executable_sources =
    "xbull" ∷ "soroswap" ∷ "horizon" ∷ "aquarius" ∷ "comet" ∷ "ultrastellar" ∷ "stellarbroker" ∷ []

-- Equality of texts given by their code points.
unfoldable pub codes_eq : List ℕ → List ℕ → Bool
codes_eq [] [] = true
codes_eq (c ∷ s) (d ∷ t) = c == d && codes_eq s t
codes_eq _ _ = false

unfoldable pub is_executable_source : String → Bool
unfolding codes_eq
is_executable_source source =
    let trimmed = trim (codes source) in
    not (any (λ c. c == b'+') trimmed) && any (λ s. codes_eq (codes s) trimmed) executable_sources
