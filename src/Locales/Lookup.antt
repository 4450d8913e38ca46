-- ===== src/Locales/Lookup.antt =====
-- The lookup of RFC 4647, section 3.4, which language_tag.rs names for its fallback chain.
use adaptarr_server.Prelude.{
  ℕ, ◌≢◌, ◌⊎◌, ◌==◌, Bool, false, not, List, [], ◌∷◌, length, if◌then◌else◌,
}

-- A letter or a digit: in a range the only other subtag of one character is `*`.
unfoldable pub is_single : List ℕ → Bool
is_single [] = false
is_single (c ∷ []) = not (c == 42)
is_single (c ∷ d ∷ cs) = false

-- What is tried after the last subtag is removed, the subtags listed from the last to the first: a
-- single letter or digit goes at the same time as the subtag that trails it.
unfoldable pub truncations : List (List ℕ) → List (List (List ℕ))
truncations [] = []
truncations (u ∷ rest) =
    let others = truncations rest in if is_single u then others else (u ∷ rest) ∷ others

unfoldable pub lookup : List (List ℕ) → List (List (List ℕ))
lookup [] = []
lookup (t ∷ rest) = (t ∷ rest) ∷ truncations rest

-- The first subtag has several characters, no subtag is `*`, and of two that follow one another one
-- has several characters.
abbrev pub IsRegular : List (List ℕ) → Type 0
IsRegular [] = Unit
IsRegular (t ∷ []) = length t ≢ 1
IsRegular (t ∷ u ∷ rest) = (t ≢ 42 ∷ []) × ((length t ≢ 1) ⊎ (length u ≢ 1)) × IsRegular (u ∷ rest)
