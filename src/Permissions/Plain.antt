-- ===== src/Permissions/Plain.antt =====
-- A plain instance of the operations on flags.
use native.Mathlib.Nat.{div-div-eq-div-mul}
use adaptarr_server.Prelude.{
  ℕ, zero, suc, ◌+◌, ◌*◌, ◌/◌, ◌%◌, ◌^◌, ◌<◌, ◌≡◌, inl, inr, ◌==◌, ◌&&◌, ◌||◌, not, Bool, true,
  false, Bool-cases, Option, none, some, if◌then◌else◌, refl, arith,
}
use adaptarr_server.Permissions.{has, Includes, Bitflags}

unfoldable pub low : ℕ → Bool
low x = not (x % 2 == 0)

has-zero : (x : ℕ) → has x 0 ≡ low x
unfolding has low
has-zero x = ground arith

has-suc : (x k : ℕ) → has x (suc k) ≡ has (x / 2) k
unfolding has
has-suc x k =
    let twice : 2 ^ suc k ≡ 2 * 2 ^ k = omega arith in
    let halves : x / 2 ^ suc k ≡ x / 2 / 2 ^ k =
      rw twice (omega (arith, div-div-eq-div-mul x 2 (2 ^ k))) in
    rw halves refl

low_lem : (t : Bool) (z : ℕ) → low ((if t then 1 else 0) + 2 * z) ≡ t
unfolding low
low_lem true z = ground arith
low_lem false z = ground arith

half_lem : (t : Bool) (z : ℕ) → ((if t then 1 else 0) + 2 * z) / 2 ≡ z
half_lem true z = omega arith
half_lem false z = omega arith

-- Bit by bit.
unfoldable pub zip_bits : (Bool → Bool → Bool) → ℕ → ℕ → ℕ → ℕ
zip_bits op zero a b = 0
zip_bits op (suc n) a b = (if op (low a) (low b) then 1 else 0) + 2 * zip_bits op n (a / 2) (b / 2)

pub zip_bits_lem :
    (op : Bool → Bool → Bool) (n k a b : ℕ)
    → k < n
    → has (zip_bits op n a b) k ≡ op (has a k) (has b k)
unfolding zip_bits
zip_bits_lem op zero k a b lt = absurd (omega arith)
zip_bits_lem op (suc n) zero a b lt =
    rw (has-zero, has-zero, has-zero) (low_lem (op (low a) (low b)) (zip_bits op n (a / 2) (b / 2)))
zip_bits_lem op (suc n) (suc k) a b lt =
    rw (has-suc, has-suc, has-suc)
      (rw (half_lem (op (low a) (low b)) (zip_bits op n (a / 2) (b / 2)))
        (zip_bits_lem op n k (a / 2) (b / 2) (omega arith)))

unfoldable pub includes : ℕ → ℕ → ℕ → Bool
includes zero a b = true
includes (suc n) a b = (not (low b) || low a) && includes n (a / 2) (b / 2)

pub includes_sound :
    (n a b : ℕ) → includes n a b ≡ true → (k : ℕ) → k < n → has b k ≡ true → has a k ≡ true
unfolding includes
includes_sound zero a b h k lt on = absurd (omega arith)
includes_sound (suc n) a b h zero lt on = ground (arith, h, has-zero a, has-zero b, on)
includes_sound (suc n) a b h (suc k) lt on =
    let later : includes n (a / 2) (b / 2) ≡ true = ground (arith, h) in
    rw (has-suc a k)
      (includes_sound n (a / 2) (b / 2) later k (omega arith) (rw (has-suc b k) at on))

pub includes_complete :
    (n a b : ℕ) → ((k : ℕ) → k < n → has b k ≡ true → has a k ≡ true) → includes n a b ≡ true
unfolding includes
includes_complete zero a b h = refl
includes_complete (suc n) a b h =
    let later : includes n (a / 2) (b / 2) ≡ true =
      includes_complete n (a / 2) (b / 2)
        (λ k lt on. rw has-suc at (h (suc k) (omega arith) (rw has-suc on))) in
    let first : low b ≡ true → low a ≡ true =
      λ on. rw has-zero at (h 0 (omega arith) (rw has-zero on)) in
    ground (arith, later, first)

unfoldable pub plain_from_bits : ℕ → ℕ → Option ℕ
plain_from_bits all b = if includes 32 all b then some b else none

pub plain_known : (all b : ℕ) → Includes all b → plain_from_bits all b ≡ some b
unfolding plain_from_bits
plain_known all b h = rw (includes_complete 32 all b h) refl

pub plain_unknown : (all b : ℕ) → ¬ Includes all b → plain_from_bits all b ≡ none
unfolding plain_from_bits
plain_unknown all b h = elim (Bool-cases (includes 32 all b)) [
  | inl held ↦ absurd (h (includes_sound 32 all b held))
  | inr lacks ↦ rw lacks refl
]

unfoldable pub plain : Bitflags
plain = record {
  contains = includes 32;
  union = zip_bits (λ x y. x || y) 32;
  difference = zip_bits (λ x y. x && not y) 32;
  from_bits = plain_from_bits;
  contains_iff = λ a b. (includes_sound 32 a b, includes_complete 32 a b);
  union_bit = λ a b k. zip_bits_lem (λ x y. x || y) 32 k a b;
  difference_bit = λ a b k. zip_bits_lem (λ x y. x && not y) 32 k a b;
  from_bits_known = plain_known;
  from_bits_unknown = plain_unknown;
}
