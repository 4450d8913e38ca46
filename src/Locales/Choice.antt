-- ===== src/Locales/Choice.antt =====
-- The fallback chain of a language range, and the locale that is chosen for ranges (language_tag.rs,
-- locale.rs).
use mathlib.Core.List.{append_assoc, append-nil}
use adaptarr_server.Prelude.{
  ℕ, suc, ◌+◌, ◌<◌, ◌≤◌, ◌≡◌, ◌≢◌, inl, inr, subst, ◌↔◌, ◌⊎◌, ◌==◌, true, Bool-cases, none, some,
  List, [], ◌∷◌, ◌++◌, map, All, length, length-append, ok, index, refl, sym, ap, ◌∙◌, arith,
}
use adaptarr_server.Storage.{In}
use adaptarr_server.Storage.Orders.{All-append}
use adaptarr_server.Locales.{
  same_str, dash, is_alphanum, collect, fallback_chain, Locale, find_locale, match_patterns,
  match_locale,
}
use adaptarr_server.Locales.Ranges.{pieces, IsSubtag, IsRange, AllAlphanum}
use adaptarr_server.Locales.Fallback.{text, shortenings, IsPiece, collect-shortenings}

unfoldable pub reversed_onto : List (List ℕ) → List (List ℕ) → List (List ℕ)
reversed_onto ts [] = ts
reversed_onto ts (x ∷ xs) = reversed_onto (x ∷ ts) xs

-- The subtags of a range, the last one first.
unfoldable pub subtags : List ℕ → List (List ℕ)
unfolding reversed_onto
subtags v = reversed_onto ((pieces v).0 ∷ []) (pieces v).1

abbrev dashed : List (List ℕ) → List ℕ
dashed [] = []
dashed (t ∷ ts) = dash ∷ (t ++ dashed ts)

pieces-dashed : (v : List ℕ) → (pieces v).0 ++ dashed (pieces v).1 ≡ v
unfolding pieces
pieces-dashed [] = refl
pieces-dashed (c ∷ cs) = elim (Bool-cases (c == dash)) [
  | inl cut ↦ let e : c ≡ dash = grind (arith, cut) in rw (cut, pieces-dashed cs) (cc e)
  | inr go_on ↦ rw (go_on, pieces-dashed cs)
]

text-reversed :
    (t : List ℕ) (ts rest : List (List ℕ))
    → text (reversed_onto (t ∷ ts) rest) ≡ text (t ∷ ts) ++ dashed rest
unfolding reversed_onto text
text-reversed t ts [] = sym (append-nil (text (t ∷ ts)))
text-reversed t ts (x ∷ xs) =
    text-reversed x (t ∷ ts) xs ∙ append_assoc (text (t ∷ ts)) (dash ∷ x) (dashed xs)

text-subtags : (v : List ℕ) → text (subtags v) ≡ v
unfolding subtags text
text-subtags v = text-reversed (pieces v).0 [] (pieces v).1 ∙ pieces-dashed v

length-pos : (t : List ℕ) → t ≢ [] → 0 < length t
length-pos [] h = absurd (h refl)
length-pos (c ∷ cs) h = omega arith

no_dash : (t : List ℕ) → AllAlphanum t → All (λ c. c ≢ dash) t
unfolding is_alphanum
no_dash [] h = tt
no_dash (c ∷ cs) h = (λ e. grind (arith, e, h.0), no_dash cs h.1)

IsPiece-of_subtag : (t : List ℕ) → IsSubtag t → IsPiece t
IsPiece-of_subtag t (inl e) =
    subst IsPiece (sym e) ((λ e. cc e), ((λ e. absurd (omega (arith, e))), tt))
IsPiece-of_subtag t (inr (ne, h)) = (ne, no_dash t h)

reversed_onto-All :
    (ts rest : List (List ℕ))
    → All IsPiece ts
    → All IsSubtag rest
    → All IsPiece (reversed_onto ts rest)
unfolding reversed_onto
reversed_onto-All ts [] h k = h
reversed_onto-All ts (x ∷ xs) h k = reversed_onto-All (x ∷ ts) xs (IsPiece-of_subtag x k.0, h) k.1

length-reversed :
    (ts rest : List (List ℕ)) → length (reversed_onto ts rest) ≡ length ts + length rest
unfolding reversed_onto
length-reversed ts [] = omega arith
length-reversed ts (x ∷ xs) = omega (arith, length-reversed (x ∷ ts) xs)

length-dashed : (ts : List (List ℕ)) → length ts ≤ length (dashed ts)
length-dashed [] = omega arith
length-dashed (t ∷ ts) = omega (arith, length-append t (dashed ts), length-dashed ts)

subtags-All : (v : List ℕ) → IsRange v → All IsPiece (subtags v)
unfolding subtags
subtags-All v h =
    reversed_onto-All ((pieces v).0 ∷ []) (pieces v).1 (IsPiece-of_subtag (pieces v).0 h.0, tt) h.1

subtags-few : (v : List ℕ) → IsRange v → length (subtags v) < suc (length v)
unfolding subtags
subtags-few v h =
    let all = ap length (pieces-dashed v) in
    let split = length-append (pieces v).0 (dashed (pieces v).1) in
    let first = length-pos (pieces v).0 (IsPiece-of_subtag (pieces v).0 h.0).0 in
    let rest = length-dashed (pieces v).1 in
    omega (arith, length-reversed ((pieces v).0 ∷ []) (pieces v).1, all, split, first, rest)

-- The fallback chain of a language range ends, and its items are the shortenings of its subtags.
pub fallback_chain-shortenings :
    (v : List ℕ) → IsRange v → fallback_chain v ≡ ok (map text (shortenings (subtags v)))
unfolding fallback_chain
fallback_chain-shortenings v h =
    subst (λ tag. collect (suc (length v)) tag ≡ ok (map text (shortenings (subtags v))))
      (text-subtags v)
      (collect-shortenings (suc (length v)) (subtags v) (subtags-All v h) (subtags-few v h))

-- No locale has this code.
abbrev pub IsUnknown : List Locale → List ℕ → Type 0
IsUnknown locales p = All (λ (l : Locale). l.code ≢ p) locales

same_str_iff : (s t : List ℕ) → (same_str s t ≡ true) ↔ (s ≡ t)
unfolding same_str
same_str_iff [] [] = (λ h. refl, λ h. refl)
same_str_iff [] (y ∷ ys) = (λ h. cc h, λ h. cc h)
same_str_iff (x ∷ xs) [] = (λ h. cc h, λ h. cc h)
same_str_iff (x ∷ xs) (y ∷ ys) = grind (arith, same_str_iff xs ys)

find_locale_lem :
    (locales : List Locale) (p : List ℕ)
    → ((l : Locale) × (find_locale locales p ≡ some l) × In l locales × (l.code ≡ p))
      ⊎ ((find_locale locales p ≡ none) × IsUnknown locales p)
unfolding find_locale
find_locale_lem [] p = inr (refl, tt)
find_locale_lem (l ∷ ls) p = elim (Bool-cases (same_str l.code p)) [
  | inl hit ↦ inl (l, rw hit refl, inl refl, (same_str_iff l.code p).0 hit)
  | inr miss ↦ elim (find_locale_lem ls p) [
    | inl (m, e, here, code) ↦ inl (m, rw (miss, e), inr here, code)
    | inr (e, all) ↦ inr (rw (miss, e), (λ same. cc ((same_str_iff l.code p).1 same, miss), all))
  ]
]

-- The locale is the one for the first of the patterns that is the code of a locale.
abbrev pub IsFirst : List Locale → List (List ℕ) → Locale → Type 0
IsFirst locales patterns l =
    (before after : List (List ℕ)) × (patterns ≡ before ++ l.code ∷ after)
    × All (IsUnknown locales) before
    × In l locales

match_patterns_lem :
    (locales : List Locale) (ps : List (List ℕ))
    → ((l : Locale) × (match_patterns locales ps ≡ some l) × IsFirst locales ps l)
      ⊎ ((match_patterns locales ps ≡ none) × All (IsUnknown locales) ps)
unfolding match_patterns
match_patterns_lem locales [] = inr (refl, tt)
match_patterns_lem locales (p ∷ ps) = elim (find_locale_lem locales p) [
  | inl (l, e, here, code) ↦ inl (l, rw (e, match_patterns), ([], ps, cc code, tt, here))
  | inr (e, unknown) ↦ elim (match_patterns_lem locales ps) [
    | inl (l, f, (before, after, cut, miss, here)) ↦
        inl (l, rw (e, f, match_patterns), (p ∷ before, after, cc cut, (unknown, miss), here))
    | inr (f, all) ↦ inr (rw (e, f, match_patterns), (unknown, all))
  ]
]

-- The patterns that are tried for some ranges, in order.
unfoldable pub candidates : List (List ℕ) → List (List ℕ)
candidates [] = []
candidates (r ∷ rs) = map text (shortenings (subtags r)) ++ candidates rs

module _ (locales : List Locale) (r : List ℕ) (rs own : List (List ℕ)) (l : Locale) where
  hit :
      fallback_chain r ≡ ok own
      → match_patterns locales own ≡ some l
      → match_locale locales (r ∷ rs) ≡ ok l
  unfolding match_locale
  hit chain e = cc (chain, e)

  missed :
      fallback_chain r ≡ ok own
      → match_patterns locales own ≡ none
      → match_locale locales rs ≡ ok l
      → match_locale locales (r ∷ rs) ≡ ok l
  unfolding match_locale
  missed chain e later = cc (chain, e, later)

-- Where there is a locale and the ranges are well formed, `match_locale` ends. It returns the
-- locale for the first pattern that is the code of one, of the shortened ranges in order;
-- where no pattern is, the first locale.
pub match_locale_correct :
    (first : Locale) (others : List Locale) (ranges : List (List ℕ))
    → All IsRange ranges
    → (l : Locale) × (match_locale (first ∷ others) ranges ≡ ok l)
      × (IsFirst (first ∷ others) (candidates ranges) l
          ⊎ (All (IsUnknown (first ∷ others)) (candidates ranges) × (l ≡ first)))
unfolding match_locale candidates index
match_locale_correct first others [] h = (first, refl, inr (tt, refl))
match_locale_correct first others (r ∷ rs) h =
    let own = map text (shortenings (subtags r)) in
    let chain = fallback_chain-shortenings r h.0 in
    elim (match_patterns_lem (first ∷ others) own) [
      | inl (l, e, (before, after, cut, miss, here)) ↦ (
        l,
        hit (first ∷ others) r rs own l chain e,
        inl (
          before,
          after ++ candidates rs,
          ap (λ x. x ++ candidates rs) cut ∙ append_assoc before (l.code ∷ after) (candidates rs),
          miss,
          here,
        ),
      )
      | inr (e, all) ↦
          let (l, run, which) = match_locale_correct first others rs h.1 in
          (
            l,
            missed (first ∷ others) r rs own l chain e run,
            elim which [
              | inl (before, after, cut, miss, here) ↦ inl (
                own ++ before,
                after,
                ap (λ x. own ++ x) cut ∙ sym (append_assoc own before (l.code ∷ after)),
                All-append (IsUnknown (first ∷ others)) own before all miss,
                here,
              )
              | inr (rest, same) ↦
                  inr (All-append (IsUnknown (first ∷ others)) own (candidates rs) all rest, same)
            ],
          )
    ]
