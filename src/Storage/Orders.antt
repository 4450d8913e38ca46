-- ===== src/Storage/Orders.antt =====
-- The first and the last items of a list, and lists in ascending order.
use mathlib.Core.List.{reverse, reverse_aux, reverse-append, reverse-reverse}
use adaptarr_server.Prelude.{
  ℕ, zero, suc, ◌+◌, ◌≤◌, ◌≡◌, ◌⊎◌, inl, inr, List, [], ◌∷◌, ◌++◌, All, take, drop, length, refl,
  sym, ap, ◌∙◌, arith,
}
use adaptarr_server.Storage.{Ascending}

module _ {A : Type 0} where
  length-reverse_aux : (xs ys : List A) → length (reverse_aux xs ys) ≡ length xs + length ys
  length-reverse_aux [] ys = omega arith
  length-reverse_aux (x ∷ xs) ys = omega (arith, length-reverse_aux xs (x ∷ ys))

  pub length-take : (n : ℕ) (xs : List A) → length (take n xs) ≤ n
  length-take zero xs = omega arith
  length-take (suc n) [] = omega arith
  length-take (suc n) (x ∷ xs) = omega (arith, length-take n xs)

  pub take-drop : (n : ℕ) (xs : List A) → take n xs ++ drop n xs ≡ xs
  take-drop zero xs = refl
  take-drop (suc n) [] = refl
  take-drop (suc n) (x ∷ xs) = ap (λ t. x ∷ t) (take-drop n xs)

  -- The last items of a list, at most some number.
  abbrev pub last : ℕ → List A → List A
  last n xs = reverse (take n (reverse xs))

  pub length-last : (n : ℕ) (xs : List A) → length (last n xs) ≤ n
  length-last n xs =
      omega (arith, length-take n (reverse xs), length-reverse_aux (take n (reverse xs)) [])

  -- A list is what comes before its last items, and these.
  pub last_lem : (n : ℕ) (xs : List A) → reverse (drop n (reverse xs)) ++ last n xs ≡ xs
  last_lem n xs =
      sym (reverse-append (take n (reverse xs)) (drop n (reverse xs)))
      ∙ ap reverse (take-drop n (reverse xs))
      ∙ reverse-reverse xs

  pub take-or : (n : ℕ) (xs : List A) → (length (take n xs) ≡ n) ⊎ (drop n xs ≡ [])
  take-or zero xs = inl refl
  take-or (suc n) [] = inr refl
  take-or (suc n) (x ∷ xs) = elim (take-or n xs) [
    | inl all ↦ inl (omega (arith, all))
    | inr end ↦ inr end
  ]

  pub last-or :
      (n : ℕ) (xs : List A) → (length (last n xs) ≡ n) ⊎ (reverse (drop n (reverse xs)) ≡ [])
  last-or n xs = elim (take-or n (reverse xs)) [
    | inl all ↦ inl (omega (arith, all, length-reverse_aux (take n (reverse xs)) []))
    | inr end ↦ inr (ap reverse end)
  ]

  pub All-left : (P : A → Type 0) (xs ys : List A) → All P (xs ++ ys) → All P xs
  All-left P [] ys h = tt
  All-left P (x ∷ xs) ys h = (h.0, All-left P xs ys h.1)

  pub All-right : (P : A → Type 0) (xs ys : List A) → All P (xs ++ ys) → All P ys
  All-right P [] ys h = h
  All-right P (x ∷ xs) ys h = All-right P xs ys h.1

  pub All-append : (P : A → Type 0) (xs ys : List A) → All P xs → All P ys → All P (xs ++ ys)
  All-append P [] ys h k = k
  All-append P (x ∷ xs) ys h k = (h.0, All-append P xs ys h.1 k)

  pub All-map : (P Q : A → Type 0) (xs : List A) → ((x : A) → P x → Q x) → All P xs → All Q xs
  All-map P Q [] f h = tt
  All-map P Q (x ∷ xs) f h = (f x h.0, All-map P Q xs f h.1)

  module _ (by : A → ℕ) where
    pub Ascending-left : (xs ys : List A) → Ascending by (xs ++ ys) → Ascending by xs
    Ascending-left [] ys h = tt
    Ascending-left (x ∷ xs) ys h = (All-left (λ s. by x ≤ by s) xs ys h.0, Ascending-left xs ys h.1)

    pub Ascending-right : (xs ys : List A) → Ascending by (xs ++ ys) → Ascending by ys
    Ascending-right [] ys h = h
    Ascending-right (x ∷ xs) ys h = Ascending-right xs ys h.1

    pub Ascending-append :
        (time : ℕ) (xs ys : List A)
        → Ascending by xs
        → Ascending by ys
        → All (λ x. by x ≤ time) xs
        → All (λ y. time ≤ by y) ys
        → Ascending by (xs ++ ys)
    Ascending-append time [] ys h k low high = k
    Ascending-append time (x ∷ xs) ys h k low high = (
      All-append (λ s. by x ≤ by s) xs ys h.0
          (All-map (λ y. time ≤ by y) (λ y. by x ≤ by y) ys (λ y le. omega (arith, le, low.0))
            high),
      Ascending-append time xs ys h.1 k low.1 high,
    )
