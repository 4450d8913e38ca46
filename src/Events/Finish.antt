-- ===== src/Events/Finish.antt =====
-- The end of a rendered message's plain text (events.rs, `finish`). A text is the list of its
-- characters, and an index counts bytes in UTF-8.
use adaptarr_server.Prelude.{
  ℕ, ◌+◌, ◌-◌, ◌≤◌, ◌<◌, ◌≡◌, ◌⊎◌, inl, inr, ◌==◌, Bool, true, false, Bool-cases, Option, none,
  some, List, [], ◌∷◌, ◌++◌, All, ltb, if◌then◌else◌, refl, ap, ◌∙◌, arith,
}
use adaptarr_server.Locales.{len_utf8, len_str}

module _ (is_whitespace : ℕ → Bool) where
  -- `rfind(|c| !c.is_whitespace())`, where the text starts at a byte.
  unfoldable pub rfind_from : ℕ → List ℕ → Option ℕ
  rfind_from at [] = none
  rfind_from at (c ∷ cs) = elim (rfind_from (at + len_utf8 c) cs) [
    | some i ↦ some i
    | none ↦ if is_whitespace c then none else some at
  ]

  -- `map_or(0, |x| x + 1)`
  unfoldable pub end_of : List ℕ → ℕ
  end_of cs = elim (rfind_from 0 cs) [ none ↦ 0 | some x ↦ x + 1 ]

-- `String::truncate`, which panics inside of a character and does nothing behind the end.
unfoldable pub truncate : ℕ → List ℕ → Option (List ℕ)
truncate n [] = some []
truncate n (c ∷ cs) =
    let later = truncate (n - len_utf8 c) cs in
    if n == 0
    then some []
    else if ltb n (len_utf8 c)
    then none
    else elim later [ none ↦ none | some ds ↦ some (c ∷ ds) ]

unfoldable pub finish : (ℕ → Bool) → List ℕ → Option (List ℕ)
finish is_whitespace cs = truncate (end_of is_whitespace cs) cs

len_utf8-pos : (c : ℕ) → 1 ≤ len_utf8 c
unfolding len_utf8
len_utf8-pos c = ground arith

module _ (is_whitespace : ℕ → Bool) where
  blank :
      (at : ℕ) (cs : List ℕ)
      → All (λ c. is_whitespace c ≡ true) cs
      → rfind_from is_whitespace at cs ≡ none
  unfolding rfind_from
  blank at [] h = refl
  blank at (c ∷ cs) h = rw (blank (at + len_utf8 c) cs h.1, h.0) refl

  found :
      (at : ℕ) (ds : List ℕ) (c : ℕ) (cs : List ℕ)
      → is_whitespace c ≡ false
      → All (λ c. is_whitespace c ≡ true) cs
      → rfind_from is_whitespace at (ds ++ c ∷ cs) ≡ some (at + len_str ds)
  unfolding rfind_from len_str
  found at [] c cs h k = rw (blank (at + len_utf8 c) cs k, h) (ap some (omega arith))
  found at (d ∷ ds) c cs h k =
      let later : at + len_utf8 d + len_str ds ≡ at + (len_utf8 d + len_str ds) = omega arith in
      rw (found (at + len_utf8 d) ds c cs h k) (ap some later)

truncate_zero : (cs : List ℕ) → truncate 0 cs ≡ some []
unfolding truncate
truncate_zero [] = refl
truncate_zero (c ∷ cs) = refl

-- One character further.
truncate-cons :
    (n c : ℕ) (cs : List ℕ)
    → truncate (len_utf8 c + n) (c ∷ cs)
      ≡ elim (truncate n cs) [ none ↦ none | some ds ↦ some (c ∷ ds) ]
unfolding truncate
truncate-cons n c cs =
    let pos = len_utf8-pos c in
    let behind : len_utf8 c + n - len_utf8 c ≡ n = omega arith in
    let some_left : ((len_utf8 c + n) == 0) ≡ false = ground (arith, pos) in
    let whole : ltb (len_utf8 c + n) (len_utf8 c) ≡ false = ground arith in
    rw (some_left, whole, behind) refl

cut :
    (ds : List ℕ) (c : ℕ) (cs : List ℕ)
    → len_utf8 c ≡ 1
    → truncate (len_str ds + 1) (ds ++ c ∷ cs) ≡ some (ds ++ c ∷ [])
unfolding len_str
cut [] c cs one =
    let same : 0 + 1 ≡ len_utf8 c + 0 = omega (arith, one) in
    rw (same, truncate-cons 0 c cs, truncate_zero cs) refl
cut (d ∷ ds) c cs one =
    let same : len_utf8 d + len_str ds + 1 ≡ len_utf8 d + (len_str ds + 1) = omega arith in
    rw (same, truncate-cons (len_str ds + 1) d (ds ++ c ∷ cs), cut ds c cs one) refl

inside :
    (ds : List ℕ) (c : ℕ) (cs : List ℕ)
    → 1 < len_utf8 c
    → truncate (len_str ds + 1) (ds ++ c ∷ cs) ≡ none
unfolding len_str truncate
inside [] c cs wide =
    let within : ltb (0 + 1) (len_utf8 c) ≡ true = ground (arith, wide) in rw within refl
inside (d ∷ ds) c cs wide =
    let same : len_utf8 d + len_str ds + 1 ≡ len_utf8 d + (len_str ds + 1) = omega arith in
    rw (same, truncate-cons (len_str ds + 1) d (ds ++ c ∷ cs), inside ds c cs wide) refl

module _ (is_whitespace : ℕ → Bool) where
  end_found :
      (ds : List ℕ) (c : ℕ) (cs : List ℕ)
      → is_whitespace c ≡ false
      → All (λ c. is_whitespace c ≡ true) cs
      → end_of is_whitespace (ds ++ c ∷ cs) ≡ len_str ds + 1
  unfolding end_of
  end_found ds c cs h k =
      let at_end : 0 + len_str ds ≡ len_str ds = omega arith in
      cc (at_end, found is_whitespace 0 ds c cs h k)

  nothing_found : (cs : List ℕ) → All (λ c. is_whitespace c ≡ true) cs → end_of is_whitespace cs ≡ 0
  unfolding end_of
  nothing_found cs h = cc (blank is_whitespace 0 cs h)

  finish_blank :
      (cs : List ℕ) → All (λ c. is_whitespace c ≡ true) cs → finish is_whitespace cs ≡ some []
  unfolding finish
  finish_blank cs h = rw (nothing_found cs h) (truncate_zero cs)

  last-cases :
      (cs : List ℕ)
      → All (λ c. is_whitespace c ≡ true) cs
        ⊎ ((ds : List ℕ) × (c : ℕ) × (spaces : List ℕ) × (cs ≡ ds ++ c ∷ spaces)
            × (is_whitespace c ≡ false)
            × All (λ d. is_whitespace d ≡ true) spaces)
  last-cases [] = inl tt
  last-cases (x ∷ xs) = elim (last-cases xs) [
    | inr (ds, c, spaces, whole, last, rest) ↦
        inr (x ∷ ds, c, spaces, ap (λ ys. x ∷ ys) whole, last, rest)
    | inl spaces ↦ elim (Bool-cases (is_whitespace x)) [
      | inl blank ↦ inl (blank, spaces)
      | inr last ↦ inr ([], x, xs, refl, last, spaces)
    ]
  ]

  len_utf8-cases : (c : ℕ) → (len_utf8 c ≡ 1) ⊎ (1 < len_utf8 c)
  len_utf8-cases c = ground (arith, len_utf8-pos c)

  -- A text of white space alone becomes empty. Another one ends with its last character that is
  -- none, when this has one byte, and when it has more the call panics.
  pub finish_correct :
      (cs : List ℕ)
      → (All (λ c. is_whitespace c ≡ true) cs × (finish is_whitespace cs ≡ some []))
        ⊎ ((ds : List ℕ) × (c : ℕ) × (spaces : List ℕ) × (cs ≡ ds ++ c ∷ spaces)
            × (is_whitespace c ≡ false)
            × All (λ d. is_whitespace d ≡ true) spaces
            × (((len_utf8 c ≡ 1) × (finish is_whitespace cs ≡ some (ds ++ c ∷ [])))
                ⊎ ((1 < len_utf8 c) × (finish is_whitespace cs ≡ none))))
  unfolding finish
  finish_correct cs = elim (last-cases cs) [
    | inl spaces ↦ inl (spaces, finish_blank cs spaces)
    | inr (ds, c, spaces, whole, last, rest) ↦
        let at_end = ap (end_of is_whitespace) whole ∙ end_found ds c spaces last rest in
        inr (
          ds,
          c,
          spaces,
          whole,
          last,
          rest,
          elim (len_utf8-cases c) [
            | inl one ↦ inl (one, rw (at_end, whole) (cut ds c spaces one))
            | inr wide ↦ inr (wide, rw (at_end, whole) (inside ds c spaces wide))
          ],
        )
  ]
