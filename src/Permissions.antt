-- ===== src/Permissions.antt =====
-- The permissions of a team: crates/models/src/permissions.rs. A set of permissions is its bits.
pub mod Names
pub mod Values
pub mod RoundTrip
pub mod Plain
mod Examples
use adaptarr_server.Prelude.{ℕ, ◌<◌, ◌≡◌, ◌↔◌, Bool, true, not, ◌&&◌, ◌||◌, Option, none, some}
use adaptarr_server.Prelude.Words.{has_bit}

-- Bit `k` of a set; an `i32` has 32 of them.
unfoldable pub has : ℕ → ℕ → Bool
has s k = has_bit s k

-- Every permission of `b` is one of `a`.
abbrev pub Includes : ℕ → ℕ → Type 0
Includes a b = (k : ℕ) → k < 32 → has b k ≡ true → has a k ≡ true

-- The operations of the crate `bitflags` on sets of flags, and their documented behaviour. The first
-- argument of `from_bits` is the union of all flags.
pub record Bitflags : Type 0 where
  pub contains : ℕ → ℕ → Bool
  pub union : ℕ → ℕ → ℕ
  pub difference : ℕ → ℕ → ℕ
  pub from_bits : ℕ → ℕ → Option ℕ
  pub contains_iff : (a b : ℕ) → (contains a b ≡ true) ↔ Includes a b
  pub union_bit : (a b k : ℕ) → k < 32 → has (union a b) k ≡ (has a k || has b k)
  pub difference_bit : (a b k : ℕ) → k < 32 → has (difference a b) k ≡ (has a k && not (has b k))
  pub from_bits_known : (all b : ℕ) → Includes all b → from_bits all b ≡ some b
  pub from_bits_unknown : (all b : ℕ) → ¬ Includes all b → from_bits all b ≡ none
