-- ===== src/Locales.antt =====
-- Language ranges and the choice of a locale: crates/i18n/src/language_tag.rs and locale.rs. A string
-- is the list of its characters.
pub mod Ranges
pub mod Fallback
pub mod Choice
pub mod Lookup
mod Examples
use adaptarr_server.Prelude.{
  ℕ, zero, suc, ◌+◌, ◌-◌, ◌==◌, ◌&&◌, ◌||◌, Bool, true, false, Option, none, some, List, [], ◌∷◌,
  leb, ltb, if◌then◌else◌, Result, ok, err, stuck, index, length, take, drop, ◌>>=◌, ◌>>◌,
}

pub data ParseLanguageTagError : Type 0 where
  expected_subtag expected_alphanum expected_separator : ℕ → ParseLanguageTagError

-- `'0'..='9'`, `'a'..='z'` and `'A'..='Z'`
unfoldable pub is_alphanum : ℕ → Bool
is_alphanum c = (leb 48 c && leb c 57) || ((leb 97 c && leb c 122) || (leb 65 c && leb c 90))

abbrev pub dash : ℕ
dash = 45

abbrev pub star : ℕ
star = 42

-- The bytes of a character in UTF-8; `char_indices` counts them.
unfoldable pub len_utf8 : ℕ → ℕ
len_utf8 c = if ltb c 128 then 1 else (if ltb c 2048 then 2 else (if ltb c 65536 then 3 else 4))

unfoldable pub len_str : List ℕ → ℕ
len_str [] = 0
len_str (c ∷ cs) = len_utf8 c + len_str cs

-- The loops of `from_str`: the outer loop, the inner loop behind a letter or digit, and the match
-- behind an asterisk.
pub data Place : Type 0 where
  outer inner behind_star : Place

-- The number is the index of the next character; behind the last one it is `v.len_str()`.
unfoldable pub scan : Place → ℕ → List ℕ → Result ParseLanguageTagError (Unit {0})
scan outer at [] = err (expected_subtag at)
scan outer at (c ∷ cs) =
    if is_alphanum c
    then scan inner (at + len_utf8 c) cs
    else (if c == star then scan behind_star (at + len_utf8 c) cs else err (expected_subtag at))
scan inner at [] = ok tt
scan inner at (c ∷ cs) =
    if is_alphanum c
    then scan inner (at + len_utf8 c) cs
    else (if c == dash then scan outer (at + len_utf8 c) cs else err (expected_alphanum at))
scan behind_star at [] = ok tt
scan behind_star at (c ∷ cs) =
    if c == dash then scan outer (at + len_utf8 c) cs else err (expected_separator at)

unfoldable pub from_str : List ℕ → Result ParseLanguageTagError (List ℕ)
from_str v = do scan outer 0 v; ok v

-- `rfind('-')`
unfoldable pub rfind : List ℕ → Option ℕ
rfind [] = none
rfind (c ∷ cs) = elim (rfind cs) [
  | some i ↦ some (suc i)
  | none ↦ if c == dash then some 0 else none
]

-- `starts_with('-')`
unfoldable pub starts_with_dash : List ℕ → Bool
starts_with_dash [] = false
starts_with_dash (c ∷ cs) = c == dash

-- What `FallbackChain::next` leaves of a tag.
unfoldable pub shorter : List ℕ → List ℕ
shorter tag = elim (rfind tag) [
  | none ↦ []
  | some inx ↦
      if ltb 2 inx && starts_with_dash (drop (inx - 2) tag)
      then take (inx - 2) tag
      else take inx tag
]

-- `next`: the value, and the tag that is left.
unfoldable pub next : List ℕ → Option (List ℕ × List ℕ)
next [] = none
next (c ∷ cs) = some (c ∷ cs, shorter (c ∷ cs))

-- All items of the iterator, one for each unit of fuel.
unfoldable pub collect : ℕ → List ℕ → Result ⊥ (List (List ℕ))
collect zero tag = stuck
collect (suc fuel) tag = elim (next tag) [
  | none ↦ ok []
  | some (value, rest) ↦ do items ← collect fuel rest; ok (value ∷ items)
]

-- An item has a character at least, and the tag loses one at least with each.
unfoldable pub fallback_chain : List ℕ → Result ⊥ (List (List ℕ))
fallback_chain tag = collect (suc (length tag)) tag

unfoldable pub same_str : List ℕ → List ℕ → Bool
same_str [] [] = true
same_str [] (y ∷ ys) = false
same_str (x ∷ xs) [] = false
same_str (x ∷ xs) (y ∷ ys) = x == y && same_str xs ys

-- A locale, less its messages.
pub record Locale : Type 0 where
  pub code : List ℕ
  pub name : List ℕ

unfoldable pub find_locale : List Locale → List ℕ → Option Locale
find_locale [] code = none
find_locale (l ∷ ls) code = if same_str l.code code then some l else find_locale ls code

-- The two loops inside the loop over the ranges.
unfoldable pub match_patterns : List Locale → List (List ℕ) → Option Locale
match_patterns locales [] = none
match_patterns locales (p ∷ ps) =
    let later = match_patterns locales ps in
    elim (find_locale locales p) [ some l ↦ some l | none ↦ later ]

unfoldable pub match_locale : List Locale → List (List ℕ) → Result ⊥ Locale
match_locale locales [] = index locales 0
match_locale locales (range ∷ ranges) = do
  patterns ← fallback_chain range
  elim (match_patterns locales patterns) [ some l ↦ ok l | none ↦ match_locale locales ranges ]
