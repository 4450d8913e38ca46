-- ===== src/Locales/Ranges.antt =====
-- Which strings are language ranges (language_tag.rs).
use adaptarr_server.Prelude.{
  ℕ, ◌+◌, ◌≤◌, ◌≡◌, ◌≢◌, ◌⊎◌, ◌↔◌, inl, inr, ◌==◌, true, false, Bool-cases, List, [], ◌∷◌, All,
  if◌then◌else◌, Result, ok, err, Decides, Decides-iff, Yields, panic, stuck, ◌>>◌, refl, arith,
}
use adaptarr_server.Locales.{
  ParseLanguageTagError, expected_subtag, expected_alphanum, expected_separator, is_alphanum, dash,
  star, len_utf8, len_str, Place, outer, inner, behind_star, scan, from_str,
}

-- A string cut at its dashes: the first piece and the others.
unfoldable pub pieces : List ℕ → List ℕ × List (List ℕ)
pieces [] = ([], [])
pieces (c ∷ cs) =
    let later = pieces cs in if c == dash then ([], later.0 ∷ later.1) else (c ∷ later.0, later.1)

unfoldable pub position : ParseLanguageTagError → ℕ
position (expected_subtag at) = at
position (expected_alphanum at) = at
position (expected_separator at) = at

abbrev pub AllAlphanum : List ℕ → Type 0
AllAlphanum = All (λ c. is_alphanum c ≡ true)

-- A subtag is one asterisk, or letters and digits, at least one.
abbrev pub IsSubtag : List ℕ → Type 0
IsSubtag t = (t ≡ star ∷ []) ⊎ ((t ≢ []) × AllAlphanum t)

abbrev pub IsRange : List ℕ → Type 0
IsRange v = IsSubtag (pieces v).0 × All IsSubtag (pieces v).1

-- What may follow in each loop.
abbrev Follows : Place → List ℕ → Type 0
Follows outer v = IsRange v
Follows inner v = AllAlphanum (pieces v).0 × All IsSubtag (pieces v).1
Follows behind_star v = ((pieces v).0 ≡ []) × All IsSubtag (pieces v).1

alphanum-dash : (c : ℕ) → is_alphanum c ≡ true → (c == dash) ≡ false
unfolding is_alphanum
alphanum-dash c h = grind (arith, h)

IsSubtag-alphanum : (c : ℕ) (f : List ℕ) → is_alphanum c ≡ true → AllAlphanum f ↔ IsSubtag (c ∷ f)
unfolding is_alphanum
IsSubtag-alphanum c f h = (
  λ a. inr ((λ e. cc e), (h, a)),
  λ t. elim t [ inl e ↦ absurd (grind (arith, e, h)) | inr (ne, (a, as')) ↦ as' ],
)

IsSubtag-star : (c : ℕ) (f : List ℕ) → c ≡ star → (f ≡ []) ↔ IsSubtag (c ∷ f)
unfolding is_alphanum
IsSubtag-star c f h = (
  λ e. inl (cc (e, h)),
  λ t. elim t [ inl e ↦ cc e | inr (ne, (a, as')) ↦ absurd (grind (arith, a, h)) ],
)

IsSubtag-other : (c : ℕ) (f : List ℕ) → is_alphanum c ≡ false → c ≢ star → ¬ IsSubtag (c ∷ f)
IsSubtag-other c f h n t = elim t [ inl e ↦ n (cc e) | inr (ne, (a, as')) ↦ cc (a, h) ]

-- From every loop on, the rest is accepted exactly when it may follow.
scan-Decides : (place : Place) (at : ℕ) (v : List ℕ) → Decides (scan place at v) (Follows place v)
unfolding scan pieces Decides
scan-Decides outer at [] = λ h. elim h.0 [ inl e ↦ cc e | inr (ne, a) ↦ ne refl ]
scan-Decides inner at [] = (tt, tt)
scan-Decides behind_star at [] = (refl, tt)
scan-Decides outer at (c ∷ cs) = elim (Bool-cases (is_alphanum c)) [
  | inl is_in ↦
      let h = IsSubtag-alphanum c (pieces cs).0 is_in in
      rw (is_in, alphanum-dash c is_in)
        (Decides-iff (scan inner (at + len_utf8 c) cs) (λ p. (h.0 p.0, p.1), λ p. (h.1 p.0, p.1))
          (scan-Decides inner (at + len_utf8 c) cs))
  | inr other ↦ elim (Bool-cases (c == star)) [
    | inl is_star ↦
        let e : c ≡ star = grind (arith, is_star) in
        let h = IsSubtag-star c (pieces cs).0 e in
        let no_dash : (c == dash) ≡ false = grind (arith, e) in
        rw (other, is_star, no_dash)
          (Decides-iff (scan behind_star (at + len_utf8 c) cs)
            (λ p. (h.0 p.0, p.1), λ p. (h.1 p.0, p.1))
            (scan-Decides behind_star (at + len_utf8 c) cs))
    | inr none_it ↦
        rw (other, none_it)
          (elim (Bool-cases (c == dash)) [
            | inl is_dash ↦ rw is_dash (λ p. elim p.0 [ inl e ↦ cc e | inr (ne, a) ↦ ne refl ])
            | inr no_dash ↦
                rw no_dash
                  (λ p. IsSubtag-other c (pieces cs).0 other (λ e. grind (arith, e, none_it)) p.0)
          ])
  ]
]
scan-Decides inner at (c ∷ cs) = elim (Bool-cases (is_alphanum c)) [
  | inl is_in ↦
      rw (is_in, alphanum-dash c is_in)
        (Decides-iff (scan inner (at + len_utf8 c) cs) (λ p. ((is_in, p.0), p.1), λ p. (p.0.1, p.1))
          (scan-Decides inner (at + len_utf8 c) cs))
  | inr other ↦ elim (Bool-cases (c == dash)) [
    | inl is_dash ↦
        rw (other, is_dash)
          (Decides-iff (scan outer (at + len_utf8 c) cs) (λ p. (tt, p), λ p. p.1)
            (scan-Decides outer (at + len_utf8 c) cs))
    | inr no_dash ↦ rw (other, no_dash) (λ p. cc (p.0.0, other))
  ]
]
scan-Decides behind_star at (c ∷ cs) = elim (Bool-cases (c == dash)) [
  | inl is_dash ↦ rw is_dash (
      Decides-iff (scan outer (at + len_utf8 c) cs) (λ p. (refl, p), λ p. p.1)
        (scan-Decides outer (at + len_utf8 c) cs))
  | inr no_dash ↦ rw no_dash (λ p. cc (p.0))
]

kept :
    (P : Type 0) (v : List ℕ) (r : Result ParseLanguageTagError (Unit {0}))
    → Decides r P
    → Yields (r >> ok v) P (λ range. range ≡ v)
unfolding Decides Yields
kept P v (ok a) d = (d, refl)
kept P v (err e) d = d
kept P v panic d = d
kept P v stuck d = d

-- A string is accepted exactly when each of the pieces between its dashes is an asterisk or is made
-- of letters and digits, at least one; an accepted string is kept as it is.
pub from_str_correct : (v : List ℕ) → Yields (from_str v) (IsRange v) (λ range. range ≡ v)
unfolding from_str
from_str_correct v = kept (IsRange v) v (scan outer 0 v) (scan-Decides outer 0 v)

scan-bounds :
    (place : Place) (at : ℕ) (v : List ℕ) (e : ParseLanguageTagError)
    → scan place at v ≡ err e
    → (at ≤ position e) × (position e ≤ at + len_str v)
unfolding scan position len_str
scan-bounds outer at [] e h = grind (arith, h)
scan-bounds inner at [] e h = cc h
scan-bounds behind_star at [] e h = cc h
scan-bounds outer at (c ∷ cs) e h = grind (
  arith,
  h,
  scan-bounds inner (at + len_utf8 c) cs e,
  scan-bounds behind_star (at + len_utf8 c) cs e,
)
scan-bounds inner at (c ∷ cs) e h =
    grind
      (arith, h, scan-bounds inner (at + len_utf8 c) cs e, scan-bounds outer (at + len_utf8 c) cs e)
scan-bounds behind_star at (c ∷ cs) e h = grind (arith, h, scan-bounds outer (at + len_utf8 c) cs e)

failed :
    (v : List ℕ) (e : ParseLanguageTagError) (r : Result ParseLanguageTagError (Unit {0}))
    → (r >> ok v) ≡ err e
    → r ≡ err e
failed v e (ok a) h = cc h
failed v e (err d) h = cc h
failed v e panic h = cc h
failed v e stuck h = cc h

-- The position in an error is at most the length of the string in bytes.
pub from_str-bounds :
    (v : List ℕ) (e : ParseLanguageTagError) → from_str v ≡ err e → position e ≤ len_str v
unfolding from_str
from_str-bounds v e h =
    let bounds = scan-bounds outer 0 v e (failed v e (scan outer 0 v) h) in omega (arith, bounds.1)
