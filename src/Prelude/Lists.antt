-- ===== src/Prelude/Lists.antt =====
-- Lists measured and indexed by native numbers, and predicates by recursion on a list.
use Prim.Native.Nat.{ℕ, zero, suc, ◌+◌, ◌-◌, ◌<◌, ◌≤◌}
use mathlib.Core.Path.{◌≡◌, refl, ap, subst}
use mathlib.Core.Logic.{◌≢◌, ◌⊎◌, inl, inr, ◌↔◌, ⊎_elim}
use mathlib.Core.Option.{Option, none, some}
use mathlib.Core.List.{List, [], ◌∷◌, ◌++◌, map, Memᴰ}
use mathlib.Core.List.Memᴰ
use native.Mathlib.Omega.{arith}

module _ {ℓ} {A : Type ℓ} where
  abbrev pub length : List A → ℕ
  length [] = 0
  length (x ∷ xs) = suc (length xs)

  abbrev pub get_elem? : List A → ℕ → Option A
  get_elem? [] i = none
  get_elem? (x ∷ xs) zero = some x
  get_elem? (x ∷ xs) (suc i) = get_elem? xs i

  abbrev pub get_or : List A → ℕ → A → A
  get_or [] i d = d
  get_or (x ∷ xs) zero d = x
  get_or (x ∷ xs) (suc i) d = get_or xs i d

  -- A write out of bounds changes nothing.
  abbrev pub set : List A → ℕ → A → List A
  set [] i v = []
  set (x ∷ xs) zero v = v ∷ xs
  set (x ∷ xs) (suc i) v = x ∷ set xs i v

  abbrev pub take : ℕ → List A → List A
  take zero xs = []
  take (suc n) [] = []
  take (suc n) (x ∷ xs) = x ∷ take n xs

  abbrev pub drop : ℕ → List A → List A
  drop zero xs = xs
  drop (suc n) [] = []
  drop (suc n) (x ∷ xs) = drop n xs

  abbrev pub replicate : ℕ → A → List A
  replicate zero a = []
  replicate (suc n) a = a ∷ replicate n a

  abbrev pub All {κ} : (A → Type κ) → List A → Type κ
  All P [] = Unit
  All P (x ∷ xs) = P x × All P xs

  -- `P` holds of each element and its position, where the first element stands at `i`.
  abbrev pub AllFrom {κ} : (ℕ → A → Type κ) → ℕ → List A → Type κ
  AllFrom P i [] = Unit
  AllFrom P i (x ∷ xs) = P i x × AllFrom P (suc i) xs

  pub length-append : (xs ys : List A) → length (xs ++ ys) ≡ length xs + length ys
  length-append [] ys = omega arith
  length-append (x ∷ xs) ys = omega (arith, length-append xs ys)

  pub take-append : (n : ℕ) (xs ys : List A) → length xs ≡ n → take n (xs ++ ys) ≡ xs
  take-append zero [] ys h = refl
  take-append zero (x ∷ xs) ys h = absurd (omega arith)
  take-append (suc n) [] ys h = absurd (omega arith)
  take-append (suc n) (x ∷ xs) ys h = ap (λ zs. x ∷ zs) (take-append n xs ys (omega arith))

  pub take_over-append :
      (n m : ℕ) (xs ys : List A) → n ≡ length xs + m → take n (xs ++ ys) ≡ xs ++ take m ys
  take_over-append n m [] ys h = ap (λ k. take k ys) (omega (arith, h))
  take_over-append zero m (x ∷ xs) ys h = absurd (omega arith)
  take_over-append (suc n) m (x ∷ xs) ys h =
      ap (λ t. x ∷ t) (take_over-append n m xs ys (omega arith))

  pub drop_over-append :
      (n m : ℕ) (xs ys : List A) → n ≡ length xs + m → drop n (xs ++ ys) ≡ drop m ys
  drop_over-append n m [] ys h = ap (λ k. drop k ys) (omega (arith, h))
  drop_over-append zero m (x ∷ xs) ys h = absurd (omega arith)
  drop_over-append (suc n) m (x ∷ xs) ys h = drop_over-append n m xs ys (omega arith)

  pub take_all : (n : ℕ) (xs : List A) → length xs ≤ n → take n xs ≡ xs
  take_all zero [] h = refl
  take_all zero (x ∷ xs) h = absurd (omega arith)
  take_all (suc n) [] h = refl
  take_all (suc n) (x ∷ xs) h = ap (λ t. x ∷ t) (take_all n xs (omega arith))

  pub length-drop : (n : ℕ) (xs : List A) → length (drop n xs) ≡ length xs - n
  length-drop zero xs = omega arith
  length-drop (suc n) [] = omega arith
  length-drop (suc n) (x ∷ xs) = omega (arith, length-drop n xs)

  pub drop-append : (n : ℕ) (xs ys : List A) → length xs ≡ n → drop n (xs ++ ys) ≡ ys
  drop-append zero [] ys h = refl
  drop-append zero (x ∷ xs) ys h = absurd (omega arith)
  drop-append (suc n) [] ys h = absurd (omega arith)
  drop-append (suc n) (x ∷ xs) ys h = drop-append n xs ys (omega arith)

  pub length-set : (xs : List A) (i : ℕ) (v : A) → length (set xs i v) ≡ length xs
  length-set [] i v = refl
  length-set (x ∷ xs) zero v = refl
  length-set (x ∷ xs) (suc i) v = ap suc (length-set xs i v)

  pub length-replicate : (n : ℕ) (a : A) → length (replicate n a) ≡ n
  length-replicate zero a = refl
  length-replicate (suc n) a = ap suc (length-replicate n a)

  pub List-cases : (xs : List A) → (xs ≡ []) ⊎ ((x : A) × (rest : List A) × (xs ≡ x ∷ rest))
  List-cases [] = inl refl
  List-cases (x ∷ xs) = inr (x, xs, refl)

  pub Memᴰ-cons : (a x : A) (xs : List A) → Memᴰ a (x ∷ xs) ↔ ((a ≡ x) ⊎ Memᴰ a xs)
  Memᴰ-cons a x xs = (Memᴰ.cases_cons, ⊎_elim Memᴰ.head Memᴰ.tail)

  pub Memᴰ-concat : (a x : A) (xs : List A) → Memᴰ a (xs ++ x ∷ []) ↔ (Memᴰ a xs ⊎ (a ≡ x))
  Memᴰ-concat a x xs = (
    λ m. ⊎_elim inl (λ last. inr (Memᴰ.eq_of_singleton last)) (Memᴰ.append_cases xs m),
    ⊎_elim (Memᴰ.append_left _) (λ e. Memᴰ.append_right xs (Memᴰ.head e)),
  )

  pub get_elem?-lt : (xs : List A) (i : ℕ) → i < length xs → (a : A) × (get_elem? xs i ≡ some a)
  get_elem?-lt [] i h = absurd (omega arith)
  get_elem?-lt (x ∷ xs) zero h = (x, refl)
  get_elem?-lt (x ∷ xs) (suc i) h = get_elem?-lt xs i (omega arith)

  pub lt-length : (xs : List A) (i : ℕ) (a : A) → get_elem? xs i ≡ some a → i < length xs
  lt-length [] i a h = cc
  lt-length (x ∷ xs) zero a h = omega arith
  lt-length (x ∷ xs) (suc i) a h = omega (arith, lt-length xs i a h)

  pub get_or-eq : (xs : List A) (i : ℕ) (a d : A) → get_elem? xs i ≡ some a → get_or xs i d ≡ a
  get_or-eq [] i a d h = cc
  get_or-eq (x ∷ xs) zero a d h = ground arith
  get_or-eq (x ∷ xs) (suc i) a d h = get_or-eq xs i a d h

  pub get_or-set_self :
      (xs : List A) (i : ℕ) (v d : A) → i < length xs → get_or (set xs i v) i d ≡ v
  get_or-set_self [] i v d h = absurd (omega arith)
  get_or-set_self (x ∷ xs) zero v d h = refl
  get_or-set_self (x ∷ xs) (suc i) v d h = get_or-set_self xs i v d (omega arith)

  pub get_or-set_ne :
      (xs : List A) (i j : ℕ) (v d : A) → i ≢ j → get_or (set xs i v) j d ≡ get_or xs j d
  get_or-set_ne [] i j v d h = refl
  get_or-set_ne (x ∷ xs) zero zero v d h = absurd (h refl)
  get_or-set_ne (x ∷ xs) zero (suc j) v d h = refl
  get_or-set_ne (x ∷ xs) (suc i) zero v d h = refl
  get_or-set_ne (x ∷ xs) (suc i) (suc j) v d h = get_or-set_ne xs i j v d (λ e. h (ap suc e))

  pub get_or-replicate : (n : ℕ) (a : A) (i : ℕ) → get_or (replicate n a) i a ≡ a
  get_or-replicate zero a i = refl
  get_or-replicate (suc n) a zero = refl
  get_or-replicate (suc n) a (suc i) = get_or-replicate n a i

pub length-map {ℓ κ} :
    {A : Type ℓ} {B : Type κ} (f : A → B) (xs : List A) → length (map f xs) ≡ length xs
length-map f [] = refl
length-map f (x ∷ xs) = ap suc (length-map f xs)

-- `AllFrom` and `All` by position.
module _ {ℓ} {A : Type ℓ} where
  AllFrom-shift :
      (P : ℕ → A → Type 0) (i : ℕ) (xs : List A) (k : ℕ) (x : A) (j : ℕ)
      → AllFrom P i xs
      → get_elem? xs k ≡ some x
      → i + k ≡ j
      → P j x
  AllFrom-shift P i [] k x j h e q = cc
  AllFrom-shift P i (y ∷ xs) zero x j h e q =
      let same : y ≡ x = cc in
      let at : i ≡ j = omega arith in subst (λ n. P n x) at (subst (P i) same h.0)
  AllFrom-shift P i (y ∷ xs) (suc k) x j h e q =
      AllFrom-shift P (suc i) xs k x j h.1 e (omega arith)

  shift-AllFrom :
      (P : ℕ → A → Type 0) (i : ℕ) (xs : List A)
      → ((k : ℕ) (x : A) (j : ℕ) → get_elem? xs k ≡ some x → i + k ≡ j → P j x)
      → AllFrom P i xs
  shift-AllFrom P i [] f = tt
  shift-AllFrom P i (y ∷ xs) f = (
    f 0 y i refl (omega arith),
    shift-AllFrom P (suc i) xs (λ k x j e q. f (suc k) x j e (omega arith)),
  )

  pub AllFrom-iff :
      (P : ℕ → A → Type 0) (xs : List A)
      → AllFrom P 0 xs ↔ ((k : ℕ) (x : A) → get_elem? xs k ≡ some x → P k x)
  AllFrom-iff P xs = (
    λ h k x e. AllFrom-shift P 0 xs k x k h e (omega arith),
    λ f. shift-AllFrom P 0 xs (λ k x j e q. subst (λ n. P n x) (omega arith) (f k x e)),
  )

  pub All-iff :
      (P : A → Type 0) (xs : List A) → All P xs ↔ ((k : ℕ) (x : A) → get_elem? xs k ≡ some x → P x)
  All-iff P [] = (λ h k x e. cc, λ f. tt)
  All-iff P (y ∷ xs) = let ih = All-iff P xs in (at ih.0, λ f. (f 0 y refl, ih.1 (λ k. f (suc k))))
    where
      at :
          (All P xs → (k : ℕ) (x : A) → get_elem? xs k ≡ some x → P x)
          → All P (y ∷ xs)
          → (k : ℕ) (x : A) → get_elem? (y ∷ xs) k ≡ some x
          → P x
      at ih h zero x e = let same : y ≡ x = cc in subst P same h.0
      at ih h (suc k) x e = ih h.1 k x e

  pub AllFrom-unit : (i : ℕ) (xs : List A) → AllFrom (λ _ _. Unit {0}) i xs
  AllFrom-unit i [] = tt
  AllFrom-unit i (x ∷ xs) = (tt, AllFrom-unit (suc i) xs)
