-- ===== src/EntityTag/Parsing.antt =====
-- The parser of entity tags: its round trip and its panic (etag.rs).
use adaptarr_server.Prelude.{
  ℕ, suc, ◌-◌, ◌≡◌, ◌↔◌, inl, inr, ◌==◌, ==_iff, ◌||◌, not, true, false, Bool-cases, none, some,
  List, [], ◌∷◌, ◌++◌, ltb, length, take-append, length-append, ok, panic, expect, reject, ◌>>=◌,
  refl, ap, ◌≢◌, arith, Option-cases,
}
use adaptarr_server.EntityTag.{
  TagStrength, strong, weak, EntityTag, find_bad, new, is_weak, split_strength, starts_with_quote,
  ends_with_quote, unquote, from_quoted, from_str, to_bytes,
}

ends_with_quote-append : (xs : List ℕ) → ends_with_quote (xs ++ 0x22 ∷ []) ≡ true
unfolding ends_with_quote
ends_with_quote-append [] = refl
ends_with_quote-append (x ∷ []) = refl
ends_with_quote-append (x ∷ y ∷ xs) = ends_with_quote-append (y ∷ xs)

ends_with_quote-quoted : (xs : List ℕ) → ends_with_quote (0x22 ∷ xs ++ 0x22 ∷ []) ≡ true
ends_with_quote-quoted xs = ends_with_quote-append (0x22 ∷ xs)

unquote-quoted : (xs : List ℕ) → unquote (0x22 ∷ xs ++ 0x22 ∷ []) ≡ some xs
unfolding unquote
unquote-quoted xs =
    let size : length (xs ++ 0x22 ∷ []) ≡ suc (length xs) =
      omega (arith, length-append xs (0x22 ∷ [])) in
    let enough : ltb (suc (length (xs ++ 0x22 ∷ []))) 2 ≡ false = ground (arith, size) in
    let inner : suc (length (xs ++ 0x22 ∷ [])) - 2 ≡ length xs = omega (arith, size) in
    rw (enough, inner, take-append (length xs) xs (0x22 ∷ []) refl)

new-ok :
    (strength : TagStrength) (tag : List ℕ)
    → find_bad tag ≡ none
    → new strength tag ≡ ok (record { strength = strength; tag = tag })
unfolding new
new-ok strength tag h = rw (h, new)

new-ne-panic : (strength : TagStrength) (tag : List ℕ) → new strength tag ≢ panic
unfolding new
new-ne-panic strength tag e = elim (Option-cases (find_bad tag)) [
  | inl fine ↦ cc (rw (fine, new) at e)
  | inr (b, bad) ↦ cc (rw (bad, new) at e)
]

from_quoted_lem :
    (strength : TagStrength) (tag : List ℕ)
    → find_bad tag ≡ none
    → from_quoted strength (0x22 ∷ tag ++ 0x22 ∷ [])
      ≡ ok (record { strength = strength; tag = tag })
unfolding from_quoted starts_with_quote reject expect
from_quoted_lem strength tag h =
    rw (ends_with_quote-quoted tag, unquote-quoted tag, ◌>>=◌, new-ok strength tag h)

split_strength-quote : (xs : List ℕ) → split_strength (0x22 ∷ xs) ≡ (strong, 0x22 ∷ xs)
unfolding split_strength is_weak
split_strength-quote [] = refl
split_strength-quote (x ∷ xs) = refl

from_str-quoted :
    (strength : TagStrength) (tag : List ℕ)
    → find_bad tag ≡ none
    → from_str (to_bytes (record { strength = strength; tag = tag }))
      ≡ ok (record { strength = strength; tag = tag })
unfolding from_str to_bytes
from_str-quoted strong tag h =
    rw (split_strength-quote (tag ++ 0x22 ∷ [])) (from_quoted_lem strong tag h)
from_str-quoted weak tag h = unfold split_strength is_weak in from_quoted_lem weak tag h

-- A tag of valid bytes is read back from its header.
pub from_str-to_bytes : (t : EntityTag) → find_bad t.tag ≡ none → from_str (to_bytes t) ≡ ok t
from_str-to_bytes t h = from_str-quoted t.strength t.tag h

from_quoted-ne-panic :
    (strength : TagStrength) (b c : ℕ) (bs : List ℕ) → from_quoted strength (b ∷ c ∷ bs) ≢ panic
unfolding from_quoted reject unquote expect
from_quoted-ne-panic strength b c bs e =
    elim (Bool-cases (not (starts_with_quote (b ∷ c ∷ bs)) || not (ends_with_quote (b ∷ c ∷ bs)))) [
      | inl bad ↦ cc (rw bad at e)
      | inr fine ↦
          let enough : ltb (suc (suc (length bs))) 2 ≡ false = ground arith in
          new-ne-panic strength _ (rw (fine, enough) at e)
    ]

-- Parsing a tag panics on a lone quotation mark, behind `W/` or not, and on nothing else.
pub from_str-eq-panic :
    (bytes : List ℕ) → (from_str bytes ≡ panic) ↔ ((split_strength bytes).1 ≡ 0x22 ∷ [])
unfolding from_str
from_str-eq-panic bytes = go (split_strength bytes).0 (split_strength bytes).1
  where
    go :
        (strength : TagStrength) (tag : List ℕ)
        → (from_quoted strength tag ≡ panic) ↔ (tag ≡ 0x22 ∷ [])
    go strength [] =
        unfold from_quoted starts_with_quote ends_with_quote reject in (λ e. cc, λ e. cc)
    go strength (b ∷ []) =
        unfold from_quoted starts_with_quote ends_with_quote reject unquote expect in
        elim (Bool-cases (b == 0x22)) [
          | inl quote ↦ (λ e. ap (λ x. x ∷ []) ((==_iff b 0x22).0 quote), λ e. rw quote)
          | inr other ↦ (λ e. absurd (cc (rw other at e)), λ e. absurd (ground (arith, other, e)))
        ]
    go strength (b ∷ c ∷ bs) = (λ e. absurd (from_quoted-ne-panic strength b c bs e), λ e. cc)
