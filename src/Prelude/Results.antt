-- ===== src/Prelude/Results.antt =====
-- What a call of a Rust function comes to, and what it means that a check decides a property.
use Prim.Native.Nat.{ℕ, suc, ◌<◌}
use mathlib.Core.Path.{◌≡◌, refl}
use mathlib.Core.Logic.{◌↔◌, ◌⊎◌, inl, inr}
use mathlib.Core.Bool.{Bool, true, false}
use mathlib.Core.Option.{Option, none, some}
use mathlib.Core.List.{List, [], ◌∷◌}
use adaptarr_server.Prelude.Lists.{All, AllFrom, get_elem?, length, get_elem?-lt}

-- `Ok`, `Err`, a panic, and `stuck`, which is no Rust outcome: the fuel of the model ran out.
pub data Result {ℓ κ} (E : Type κ) (A : Type ℓ) : Type (ℓ ⊔ κ) where
  ok : A → Result E A
  err : E → Result E A
  panic : Result E A
  stuck : Result E A

infixl 5 ◌>>=◌ ◌>>◌
abbrev pub ◌>>=◌ {ℓ κ μ} :
    {E : Type μ} {A : Type ℓ} {B : Type κ} → Result E A → (A → Result E B) → Result E B
ok a >>= f = f a
err e >>= f = err e
panic >>= f = panic
stuck >>= f = stuck

abbrev pub ◌>>◌ {κ μ} : {E : Type μ} {B : Type κ} → Result E (Unit {0}) → Result E B → Result E B
m >> k = m >>= λ _. k

-- `if (test) { return Err(e); }`
unfoldable pub reject {μ} : {E : Type μ} → Bool → E → Result E (Unit {0})
reject true e = err e
reject false e = ok tt

-- `v[i]`
unfoldable pub index {ℓ μ} : {E : Type μ} {A : Type ℓ} → List A → ℕ → Result E A
index xs i = elim (get_elem? xs i) [ none ↦ panic | some a ↦ ok a ]

-- `.expect(…)`, or a call that panics.
unfoldable pub expect {ℓ μ} : {E : Type μ} {A : Type ℓ} → Option A → Result E A
expect none = panic
expect (some a) = ok a

-- A call with no error of its own, in a function that returns errors.
unfoldable pub no_error {ℓ μ} : {E : Type μ} {A : Type ℓ} → Result ⊥ A → Result E A
no_error (ok a) = ok a
no_error (err e) = absurd e
no_error panic = panic
no_error stuck = stuck

-- `for (i, x) in xs.iter().enumerate() { body }`, where the body may return an error.
unfoldable pub for_each {ℓ μ} :
    {E : Type μ} {A : Type ℓ} → (ℕ → A → Result E (Unit {0})) → ℕ → List A → Result E (Unit {0})
for_each body i [] = ok tt
for_each body i (x ∷ xs) = body i x >> for_each body (suc i) xs

-- The check returns, and it returns `Ok` exactly where `P` holds.
unfoldable pub Decides {μ} : {E : Type μ} → Result E (Unit {0}) → Type 0 → Type 0
Decides (ok a) P = P
Decides (err e) P = ¬ P
Decides panic P = ⊥
Decides stuck P = ⊥

-- The same for a call that computes a value: it is `Ok` exactly where `P` holds, and then its value
-- satisfies `Q`.
unfoldable pub Yields {ℓ μ} :
    {E : Type μ} {A : Type ℓ} → Result E A → Type 0 → (A → Type 0) → Type 0
Yields (ok a) P Q = P × Q a
Yields (err e) P Q = ¬ P
Yields panic P Q = ⊥
Yields stuck P Q = ⊥

module _ {μ} {E : Type μ} where
  pub Decides-iff : {P Q : Type 0} (r : Result E (Unit {0})) → P ↔ Q → Decides r P → Decides r Q
  unfolding Decides
  Decides-iff (ok a) e d = e.0 d
  Decides-iff (err x) e d = λ q. d (e.1 q)
  Decides-iff panic e d = d
  Decides-iff stuck e d = d

  pub Decides->> :
      {P : Type 0} (Q : Type 0) (r k : Result E (Unit {0}))
      → Decides r P
      → (P → Decides k Q)
      → Decides (r >> k) (P × Q)
  unfolding Decides
  Decides->> Q (ok a) (ok b) d f = (d, f d)
  Decides->> Q (ok a) (err x) d f = λ pq. f d pq.1
  Decides->> Q (ok a) panic d f = f d
  Decides->> Q (ok a) stuck d f = f d
  Decides->> Q (err x) k d f = λ pq. d pq.0
  Decides->> Q panic k d f = d
  Decides->> Q stuck k d f = d

  pub Decides-reject : {P : Type 0} (b : Bool) (e : E) → ((b ≡ false) ↔ P) → Decides (reject b e) P
  unfolding reject Decides
  Decides-reject true e h = λ p. cc (h.1 p)
  Decides-reject false e h = h.0 refl

  pub Decides-reject_of :
      {P : Type 0} (b : Bool) (e : E) → ((b ≡ true) ↔ P) → Decides (reject b e) (¬ P)
  unfolding reject Decides
  Decides-reject_of true e h = λ n. n (h.0 refl)
  Decides-reject_of false e h = λ p. cc (h.1 p)

  -- What a decided check returns, without its result in the way.
  pub Decides-cases :
      {P : Type 0} (r : Result E (Unit {0}))
      → Decides r P
      → ((r ≡ ok tt) × P) ⊎ ((e : E) × (r ≡ err e) × (¬ P))
  unfolding Decides
  Decides-cases (ok tt) d = inl (refl, d)
  Decides-cases (err e) d = inr (e, refl, d)
  Decides-cases panic d = absurd d
  Decides-cases stuck d = absurd d

  module _ {ℓ} {A : Type ℓ} (body : ℕ → A → Result E (Unit {0})) (Pre P : ℕ → A → Type 0) where
    pub Decides-for_each :
        ((i : ℕ) (x : A) → Pre i x → Decides (body i x) (P i x))
        → (i : ℕ) (xs : List A) → AllFrom Pre i xs
        → Decides (for_each body i xs) (AllFrom P i xs)
    unfolding for_each Decides
    Decides-for_each f i [] h = tt
    Decides-for_each f i (x ∷ xs) h =
        Decides->> _ (body i x) _ (f i x h.0) (λ _. Decides-for_each f (suc i) xs h.1)

  module _ {ℓ} {A : Type ℓ} (body : ℕ → A → Result E (Unit {0})) (P : A → Type 0) where
    pub Decides-each :
        ((i : ℕ) (x : A) → Decides (body i x) (P x))
        → (i : ℕ) (xs : List A) → Decides (for_each body i xs) (All P xs)
    unfolding for_each Decides
    Decides-each f i [] = tt
    Decides-each f i (x ∷ xs) = Decides->> _ (body i x) _ (f i x) (λ _. Decides-each f (suc i) xs)

Yields-and {κ μ} :
    {E : Type μ} {B : Type κ} {P : Type 0} (R : Type 0) (S : B → Type 0) (r : Result E B)
    → P
    → Yields r R S
    → Yields r (P × R) S
unfolding Yields
Yields-and R S (ok b) p d = ((p, d.0), d.1)
Yields-and R S (err e) p d = λ pr. d pr.1
Yields-and R S panic p d = d
Yields-and R S stuck p d = d

module _ {ℓ μ} {E : Type μ} {A : Type ℓ} where
  pub Decides->>= :
      {P : Type 0} (Q : A → Type 0) (R : Type 0) (m : Result E A) (f : A → Result E (Unit {0}))
      → Yields m P Q
      → ((a : A) → P → Q a → Decides (f a) R)
      → Decides (m >>= f) (P × R)
  unfolding Decides Yields
  Decides->>= Q R (ok a) f d g = Decides->> R (ok tt) (f a) d.0 (λ p. g a p d.1)
  Decides->>= Q R (err e) f d g = λ pr. d pr.0
  Decides->>= Q R panic f d g = d
  Decides->>= Q R stuck f d g = d

  pub Yields->>= {κ} :
      {B : Type κ} {P : Type 0} (Q : A → Type 0) (R : Type 0) (S : B → Type 0) (m : Result E A)
      (f : A → Result E B)
      → Yields m P Q
      → ((a : A) → P → Q a → Yields (f a) R S)
      → Yields (m >>= f) (P × R) S
  unfolding Yields
  Yields->>= Q R S (ok a) f d g = Yields-and R S (f a) d.0 (g a d.0 d.1)
  Yields->>= Q R S (err e) f d g = λ pr. d pr.0
  Yields->>= Q R S panic f d g = d
  Yields->>= Q R S stuck f d g = d

  pub Yields-iff :
      {P R : Type 0} {Q S : A → Type 0} (m : Result E A)
      → P ↔ R
      → ((a : A) → Q a → S a)
      → Yields m P Q
      → Yields m R S
  unfolding Yields
  Yields-iff (ok a) e f d = (e.0 d.0, f a d.1)
  Yields-iff (err x) e f d = λ r. d (e.1 r)
  Yields-iff panic e f d = d
  Yields-iff stuck e f d = d

pub Yields->> {κ μ} :
    {E : Type μ} {B : Type κ} {P : Type 0} (R : Type 0) (S : B → Type 0) (m : Result E (Unit {0}))
    (k : Result E B)
    → Decides m P
    → (P → Yields k R S)
    → Yields (m >> k) (P × R) S
unfolding Decides Yields
Yields->> R S (ok a) k d f = Yields-and R S k d (f d)
Yields->> R S (err e) k d f = λ pr. d pr.0
Yields->> R S panic k d f = d
Yields->> R S stuck k d f = d

pub Yields-ok {ℓ μ} :
    {E : Type μ} {A : Type ℓ} {P : Type 0} (Q : A → Type 0) (r : Result E A)
    → P
    → Yields r P Q
    → (a : A) × (r ≡ ok a) × Q a
unfolding Yields
Yields-ok Q (ok a) p d = (a, refl, d.1)
Yields-ok Q (err e) p d = absurd (d p)
Yields-ok Q panic p d = absurd d
Yields-ok Q stuck p d = absurd d

pub Yields-index {μ} :
    (E : Type μ) {A : Type 0} (xs : List A) (i : ℕ)
    → i < length xs
    → Yields (index {E = E} xs i) (Unit {0}) (λ a. get_elem? xs i ≡ some a)
unfolding index Yields
Yields-index E xs i h = let (a, e) = get_elem?-lt xs i h in rw (e, index) (tt, refl)

-- A chain that succeeds succeeds at each call.
pub >>=-eq-ok {ℓ κ μ} :
    {E : Type μ} {A : Type ℓ} {B : Type κ} (m : Result E A) (f : A → Result E B) (b : B)
    → (m >>= f) ≡ ok b
    → (a : A) × (m ≡ ok a) × (f a ≡ ok b)
>>=-eq-ok (ok a) f b e = (a, refl, e)
>>=-eq-ok (err x) f b e = cc e
>>=-eq-ok panic f b e = cc e
>>=-eq-ok stuck f b e = cc e
