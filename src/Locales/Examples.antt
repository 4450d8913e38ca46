-- ===== src/Locales/Examples.antt =====
-- Ranges and locales at concrete inputs.
use adaptarr_server.Prelude.{ℕ, ◌≡◌, ◌⊎◌, inr, List, [], ◌∷◌, All, ok, err, refl}
use adaptarr_server.Locales.{
  expected_subtag, from_str, scan, len_utf8, is_alphanum, fallback_chain, collect, next, shorter,
  rfind, starts_with_dash, Locale, match_locale,
}
use adaptarr_server.Locales.Ranges.{pieces, IsRange}
use adaptarr_server.Locales.Lookup.{is_single, truncations, lookup}
use adaptarr_server.Locales.Choice.{IsUnknown, IsFirst, candidates, match_locale_correct}

-- `de-x-a`
abbrev range : List ℕ
range = 100 ∷ 101 ∷ 45 ∷ 120 ∷ 45 ∷ 97 ∷ []

-- `de--DE`
abbrev gap : List ℕ
gap = 100 ∷ 101 ∷ 45 ∷ 45 ∷ 68 ∷ 69 ∷ []

abbrev german : Locale
german = record { code = 100 ∷ 101 ∷ []; name = 68 ∷ [] }

abbrev english : Locale
english = record { code = 101 ∷ 110 ∷ []; name = 69 ∷ [] }

range-IsRange : IsRange range
unfolding pieces is_alphanum
range-IsRange = (
  inr ((λ e. cc e), (refl, (refl, tt))),
  (inr ((λ e. cc e), (refl, tt)), (inr ((λ e. cc e), (refl, tt)), tt)),
)

chain_test : fallback_chain range ≡ ok (range ∷ (100 ∷ 101 ∷ []) ∷ [])
unfolding fallback_chain collect next shorter rfind starts_with_dash
chain_test = refl

gap_test : from_str gap ≡ err (expected_subtag 3)
unfolding from_str scan is_alphanum len_utf8
gap_test = refl

-- `de-x-ab`
abbrev private_range : List ℕ
private_range = 100 ∷ 101 ∷ 45 ∷ 120 ∷ 45 ∷ 97 ∷ 98 ∷ []

-- In `x-a` the code keeps `x`, which the lookup of the RFC removes.
single_test : fallback_chain (120 ∷ 45 ∷ 97 ∷ []) ≡ ok ((120 ∷ 45 ∷ 97 ∷ []) ∷ (120 ∷ []) ∷ [])
unfolding fallback_chain collect next shorter rfind starts_with_dash
single_test = refl

single_lookup_test : lookup ((97 ∷ []) ∷ (120 ∷ []) ∷ []) ≡ ((97 ∷ []) ∷ (120 ∷ []) ∷ []) ∷ []
unfolding lookup truncations is_single
single_lookup_test = refl

match_locale_correct_example :
    (l : Locale) × (match_locale (english ∷ german ∷ []) (range ∷ []) ≡ ok l)
    × (IsFirst (english ∷ german ∷ []) (candidates (range ∷ [])) l
        ⊎ (All (IsUnknown (english ∷ german ∷ [])) (candidates (range ∷ [])) × (l ≡ english)))
match_locale_correct_example =
    match_locale_correct english (german ∷ []) (range ∷ []) (range-IsRange, tt)
