-- ===== src/Locales/Fallback.antt =====
-- The items of a fallback chain (language_tag.rs), told by subtags.
use adaptarr_server.Prelude.{
  ℕ, zero, suc, ◌+◌, ◌-◌, ◌<◌, ◌≡◌, ◌≢◌, inl, inr, ◌==◌, ◌&&◌, Bool, true, false, Bool-cases, none,
  some, List, [], ◌∷◌, ◌++◌, map, All, ltb, if◌then◌else◌, length, length-append, take, drop,
  take-append, ok, refl, ap, arith,
}
use mathlib.Core.List.{append_assoc}
use adaptarr_server.Locales.{dash, rfind, starts_with_dash, shorter, next, collect}

-- The string of subtags that are listed from the last to the first.
unfoldable pub text : List (List ℕ) → List ℕ
text [] = []
text (t ∷ []) = t
text (t ∷ u ∷ rest) = text (u ∷ rest) ++ dash ∷ t

-- How the code shortens a range: the last subtag goes, and a single character before it goes with it
-- unless it comes first.
unfoldable pub shortenings : List (List ℕ) → List (List (List ℕ))
shortenings [] = []
shortenings (t ∷ []) = (t ∷ []) ∷ []
shortenings (t ∷ u ∷ []) = (t ∷ u ∷ []) ∷ (u ∷ []) ∷ []
shortenings (t ∷ u ∷ v ∷ rest) =
    (t ∷ u ∷ v ∷ rest)
    ∷ elim (length u == 1) [ true ↦ shortenings (v ∷ rest) | false ↦ shortenings (u ∷ v ∷ rest) ]

-- A piece between dashes that is not empty.
abbrev pub IsPiece : List ℕ → Type 0
IsPiece t = (t ≢ []) × All (λ c. c ≢ dash) t

rfind-none : (t : List ℕ) → All (λ c. c ≢ dash) t → rfind t ≡ none
unfolding rfind
rfind-none [] h = refl
rfind-none (c ∷ cs) h =
    let no_dash : (c == dash) ≡ false = grind (arith, h.0) in rw (rfind-none cs h.1, no_dash)

rfind-append : (s t : List ℕ) → All (λ c. c ≢ dash) t → rfind (s ++ dash ∷ t) ≡ some (length s)
unfolding rfind
rfind-append [] t h = rw (rfind-none t h)
rfind-append (c ∷ cs) t h = rw (rfind-append cs t h)

-- No dash stands inside a piece.
inside :
    (u w : List ℕ) (n : ℕ)
    → All (λ c. c ≢ dash) u
    → n < length u
    → starts_with_dash (drop n (u ++ w)) ≡ false
unfolding starts_with_dash
inside [] w n h lt = absurd (omega (arith, lt))
inside (c ∷ cs) w zero h lt = grind (arith, h.0)
inside (c ∷ cs) w (suc n) h lt = inside cs w n h.1 (omega (arith, lt))

drop_behind : (s w : List ℕ) (n k : ℕ) → k ≡ length s + n → drop k (s ++ w) ≡ drop n w
drop_behind [] w n k e = ap (λ i. drop i w) (omega (arith, e))
drop_behind (x ∷ xs) w n zero e = absurd (omega (arith, e))
drop_behind (x ∷ xs) w n (suc k) e = drop_behind xs w n k (omega (arith, e))

-- Whether a single character stands before the last subtag, behind other subtags.
abbrev lone : List ℕ → List ℕ → Bool
lone s t = ltb 2 (length s) && starts_with_dash (drop (length s - 2) (s ++ dash ∷ t))

shorter-append :
    (s t : List ℕ)
    → All (λ c. c ≢ dash) t
    → shorter (s ++ dash ∷ t)
      ≡ (if lone s t then take (length s - 2) (s ++ dash ∷ t) else take (length s) (s ++ dash ∷ t))
unfolding shorter
shorter-append s t h = rw (rfind-append s t h, shorter)

length-text : (t : List ℕ) (rest : List (List ℕ)) → t ≢ [] → 0 < length (text (t ∷ rest))
unfolding text
length-text [] rest h = absurd (h refl)
length-text (c ∷ cs) [] h = omega arith
length-text (c ∷ cs) (u ∷ rest) h =
    rw (length-append (text (u ∷ rest)) (dash ∷ c ∷ cs)) (omega arith)

shorter-one : (t : List ℕ) → IsPiece t → shorter t ≡ []
unfolding shorter
shorter-one t h = rw (rfind-none t h.1, shorter)

lone-first : (u t : List ℕ) → IsPiece u → lone u t ≡ false
lone-first u t h = elim (Bool-cases (ltb 2 (length u))) [
  | inr few ↦ rw few
  | inl many ↦ rw many (inside u (dash ∷ t) (length u - 2) h.1 (grind (arith, many)))
]

module _ (s u t : List ℕ) where
  before : length (s ++ dash ∷ u) ≡ length s + suc (length u)
  before = length-append s (dash ∷ u)

  lone-behind : IsPiece u → length u ≢ 1 → lone (s ++ dash ∷ u) t ≡ false
  lone-behind h many = elim (Bool-cases (ltb 2 (length (s ++ dash ∷ u)))) [
    | inr few ↦ rw few
    | inl long ↦
        let some_one : 1 < length u = grind (arith, many, length-text u [] h.0) in
        rw
          (
            long,
            append_assoc s (dash ∷ u) (dash ∷ t),
            drop_behind s (dash ∷ (u ++ dash ∷ t)) (suc (length u - 2)) (length (s ++ dash ∷ u) - 2)
                (omega (arith, before, some_one)),
          )
          (inside u (dash ∷ t) (length u - 2) h.1 (omega (arith, some_one)))
  ]

  lone-single : 0 < length s → length u ≡ 1 → lone (s ++ dash ∷ u) t ≡ true
  unfolding starts_with_dash
  lone-single h one =
      let long : ltb 2 (length (s ++ dash ∷ u)) ≡ true = grind (arith, before, h, one) in
      rw
        (
          long,
          append_assoc s (dash ∷ u) (dash ∷ t),
          drop_behind s (dash ∷ (u ++ dash ∷ t)) 0 (length (s ++ dash ∷ u) - 2)
              (omega (arith, before, one)),
        )
        refl

  take_before : length u ≡ 1 → take (length (s ++ dash ∷ u) - 2) ((s ++ dash ∷ u) ++ dash ∷ t) ≡ s
  take_before one = rw (append_assoc s (dash ∷ u) (dash ∷ t)) (
      take-append (length (s ++ dash ∷ u) - 2) s (dash ∷ (u ++ dash ∷ t))
        (omega (arith, before, one)))

-- The tag that is left is what the shortenings go on with.
shorter-text :
    (t u : List ℕ) (rest : List (List ℕ))
    → All IsPiece (t ∷ u ∷ rest)
    → shorter (text (t ∷ u ∷ rest))
      ≡ text (elim rest [
        | [] ↦ u ∷ []
        | v ∷ r ↦ elim (length u == 1) [ true ↦ v ∷ r | false ↦ u ∷ v ∷ r ]
      ])
unfolding text
shorter-text t u [] (ht, (hu, h)) =
    rw (shorter-append u t ht.1, lone-first u t hu) (take-append (length u) u (dash ∷ t) refl)
shorter-text t u (v ∷ r) (ht, (hu, (hv, h))) = elim (Bool-cases (length u == 1)) [
  | inl one ↦
      let e : length u ≡ 1 = grind (arith, one) in
      rw
        (
          one,
          shorter-append (text (v ∷ r) ++ dash ∷ u) t ht.1,
          lone-single (text (v ∷ r)) u t (length-text v r hv.0) e,
        )
        (take_before (text (v ∷ r)) u t e)
  | inr many ↦
      rw
        (
          many,
          shorter-append (text (v ∷ r) ++ dash ∷ u) t ht.1,
          lone-behind (text (v ∷ r)) u t hu (grind (arith, many)),
        )
        (take-append (length (text (v ∷ r) ++ dash ∷ u)) (text (v ∷ r) ++ dash ∷ u) (dash ∷ t) refl)
]

-- One item of the chain.
collect-text :
    (fuel : ℕ) (t : List ℕ) (rest : List (List ℕ)) (items : List (List ℕ))
    → t ≢ []
    → collect fuel (shorter (text (t ∷ rest))) ≡ ok items
    → collect (suc fuel) (text (t ∷ rest)) ≡ ok (text (t ∷ rest) ∷ items)
unfolding collect next
collect-text fuel t rest items h e = some_next (text (t ∷ rest)) (length-text t rest h) e
  where
    some_next :
        (tag : List ℕ)
        → 0 < length tag
        → collect fuel (shorter tag) ≡ ok items
        → collect (suc fuel) tag ≡ ok (tag ∷ items)
    some_next [] lt e = absurd (omega (arith, lt))
    some_next (c ∷ cs) lt e = rw e

collect-nothing : (fuel : ℕ) → collect (suc fuel) [] ≡ ok []
unfolding collect next
collect-nothing fuel = refl

pub collect-shortenings :
    (fuel : ℕ) (ts : List (List ℕ))
    → All IsPiece ts
    → length ts < fuel
    → collect fuel (text ts) ≡ ok (map text (shortenings ts))
unfolding shortenings text
collect-shortenings zero ts h lt = absurd (omega (arith, lt))
collect-shortenings (suc fuel) [] h lt = collect-nothing fuel
collect-shortenings (suc zero) (t ∷ ts) h lt = absurd (omega (arith, lt))
collect-shortenings (suc (suc fuel)) (t ∷ []) h lt =
    collect-text (suc fuel) t [] [] h.0.0 (rw (shorter-one t h.0) (collect-nothing fuel))
collect-shortenings (suc fuel) (t ∷ u ∷ []) h lt =
    collect-text fuel t (u ∷ []) ((text (u ∷ [])) ∷ []) h.0.0
      (rw (shorter-text t u [] h) (collect-shortenings fuel (u ∷ []) h.1 (omega (arith, lt))))
collect-shortenings (suc fuel) (t ∷ u ∷ v ∷ r) h lt =
    let two = collect-shortenings fuel (v ∷ r) h.1.1 (omega (arith, lt)) in
    let one = collect-shortenings fuel (u ∷ v ∷ r) h.1 (omega (arith, lt)) in
    let left = shorter-text t u (v ∷ r) h in
    elim (Bool-cases (length u == 1)) [
      | inl single ↦ rw single (
          collect-text fuel t (u ∷ v ∷ r) (map text (shortenings (v ∷ r))) h.0.0
            (rw (left, single) two))
      | inr many ↦ rw many (
          collect-text fuel t (u ∷ v ∷ r) (map text (shortenings (u ∷ v ∷ r))) h.0.0
            (rw (left, many) one))
    ]
