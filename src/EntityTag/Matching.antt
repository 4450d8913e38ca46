-- ===== src/EntityTag/Matching.antt =====
-- The comparison of entity tags, and the If-Match header (etag.rs).
use mathlib.Core.List.Memᴰ
use adaptarr_server.Prelude.{
  ℕ, ◌≡◌, ◌↔◌, inl, inr, ==_iff, true, false, Bool-cases, List, [], ◌∷◌, Memᴰ, refl, ap, sym, arith,
}
use adaptarr_server.EntityTag.{
  TagStrength, strong, weak, TagEquality, equal_strong, equal_weak, different, EntityTag,
  same_bytes, compare_tags, one_of, is_strong, any_strong, test,
}

same_bytes_lem : (xs ys : List ℕ) → (same_bytes xs ys ≡ true) ↔ (xs ≡ ys)
unfolding same_bytes
same_bytes_lem [] [] = (λ _. refl, λ _. refl)
same_bytes_lem [] (y ∷ ys) = (λ e. cc, λ e. cc)
same_bytes_lem (x ∷ xs) [] = (λ e. cc, λ e. cc)
same_bytes_lem (x ∷ xs) (y ∷ ys) = ground (arith, ==_iff x y, same_bytes_lem xs ys)

abbrev tag_of : TagStrength → List ℕ → EntityTag
tag_of strength tag = record { strength = strength; tag = tag }

compare_tags_lem :
    (a b : TagStrength) (xs ys : List ℕ)
    → (compare_tags (tag_of a xs) (tag_of b ys) ≡ equal_strong)
      ↔ ((tag_of a xs ≡ tag_of b ys) × (b ≡ strong))
unfolding compare_tags
compare_tags_lem strong strong xs ys = elim (Bool-cases (same_bytes xs ys)) [
  | inl same ↦ (λ _. (ap (tag_of strong) ((same_bytes_lem xs ys).0 same), refl), λ _. rw same)
  | inr differ ↦ (
    λ e. absurd (cc (rw differ at e)),
    λ h. absurd (cc (differ, (same_bytes_lem xs ys).1 (ap EntityTag.tag h.0))),
  )
]
compare_tags_lem strong weak xs ys = (λ e. absurd (ground (arith, e)), λ h. absurd (cc (h.1)))
compare_tags_lem weak b xs ys =
    (λ e. absurd (ground (arith, e)), λ h. absurd (cc (ap EntityTag.strength h.0, h.1)))

-- Two tags compare as strongly equal exactly when they are one strong tag.
pub compare_tags-eq-equal_strong :
    (s t : EntityTag) → (compare_tags s t ≡ equal_strong) ↔ ((s ≡ t) × (t.strength ≡ strong))
compare_tags-eq-equal_strong s t = compare_tags_lem s.strength t.strength s.tag t.tag

is_strong_lem : (e : TagEquality) → is_strong e ≡ true → e ≡ equal_strong
unfolding is_strong
is_strong_lem equal_strong h = refl
is_strong_lem equal_weak h = cc
is_strong_lem different h = cc

listed_later :
    (s t : EntityTag) (tags : List EntityTag)
    → t.strength ≡ strong
    → Memᴰ t (s ∷ tags)
    → is_strong (compare_tags s t) ≡ false
    → Memᴰ t tags
unfolding is_strong
listed_later s t tags q (Memᴰ.head e) later =
    absurd (cc (later, ap is_strong ((compare_tags-eq-equal_strong s t).1 (sym e, q))))
listed_later s t tags q (Memᴰ.tail m) later = m

-- The header matches a tag exactly when the tag is strong and the header lists it.
pub test-one_of :
    (tags : List EntityTag) (t : EntityTag)
    → (test (one_of tags) t ≡ true) ↔ ((t.strength ≡ strong) × Memᴰ t tags)
unfolding test any_strong
test-one_of [] t = (λ e. cc, λ h. absurd (Memᴰ.not-nil h.1))
test-one_of (s ∷ tags) t = elim (Bool-cases (is_strong (compare_tags s t))) [
  | inl first ↦
      let here = (compare_tags-eq-equal_strong s t).0 (is_strong_lem (compare_tags s t) first) in
      (λ _. (here.1, Memᴰ.head (sym here.0)), λ _. rw first)
  | inr later ↦ (
    λ e. let (q, m) = (test-one_of tags t).0 (rw later at e) in (q, Memᴰ.tail m),
    λ h. rw later ((test-one_of tags t).1 (h.0, listed_later s t tags h.0 h.1 later)),
  )
]
