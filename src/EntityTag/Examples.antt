-- ===== src/EntityTag/Examples.antt =====
-- Entity tags at concrete inputs.
use adaptarr_server.Prelude.{
  ℕ, ◌≡◌, ◌≢◌, ◌<◌, ◌↔◌, ◌&&◌, ltb, leb, if◌then◌else◌, Bool, All, true, false, some, ok, arith,
  none, List, [], ◌∷◌, Memᴰ, panic, refl,
}
use adaptarr_server.EntityTag.{
  strong, weak, EntityTag, is_bad, find_bad, split_strength, from_str, one_of, test,
}
use adaptarr_server.EntityTag.Parsing.{from_str-eq-panic}
use adaptarr_server.EntityTag.Header.{IsVisible, list_header, from_request, from_request-test}

abbrev version : EntityTag
version = record { strength = strong; tag = 0x61 ∷ 0x31 ∷ [] }

abbrev weak_version : EntityTag
weak_version = record { strength = weak; tag = 0x61 ∷ 0x31 ∷ [] }

weak_version_valid : find_bad weak_version.tag ≡ none
unfolding find_bad is_bad
weak_version_valid = refl

-- The bytes of `W/"`.
abbrev lone_quote : List ℕ
lone_quote = 0x57 ∷ 0x2f ∷ 0x22 ∷ []

from_str-eq-panic_example :
    (from_str lone_quote ≡ panic) ↔ ((split_strength lone_quote).1 ≡ 0x22 ∷ [])
from_str-eq-panic_example = from_str-eq-panic lone_quote

-- Visible ASCII.
abbrev all_visible : List ℕ → Bool
all_visible [] = true
all_visible (b ∷ bs) = if leb 32 b && ltb b 127 then all_visible bs else false

visible_lem : (bs : List ℕ) → All IsVisible bs → all_visible bs ≡ true
visible_lem [] h = refl
visible_lem (b ∷ bs) (h, hs) =
    let here : (leb 32 b && ltb b 127) ≡ true = ground (arith, h) in rw here (visible_lem bs hs)

from_request-test_example :
    (from_request all_visible (some (list_header weak_version (version ∷ [])))
      ≡ ok (one_of (weak_version ∷ version ∷ [])))
    × ((test (one_of (weak_version ∷ version ∷ [])) version ≡ true)
        ↔ ((strong ≡ strong) × Memᴰ version (weak_version ∷ version ∷ [])))
from_request-test_example =
    from_request-test all_visible visible_lem weak_version (version ∷ [])
      ((weak_version_valid, listed_bytes), ((weak_version_valid, listed_bytes), tt)) version
  where
    listed_bytes : All (λ b. (b < 0x80) × (b ≢ 44)) (0x61 ∷ 0x31 ∷ [])
    listed_bytes = ((omega arith, omega arith), ((omega arith, omega arith), tt))
