-- ===== src/Prelude/Words.antt =====
-- Words as native numbers: single bits, and little-endian bytes.
use Prim.Native.Nat.{ℕ, zero, suc, ◌+◌, ◌*◌, ◌/◌, ◌%◌, ◌^◌, ◌<◌}
use mathlib.Core.Path.{◌≡◌, refl, ap}
use mathlib.Core.Bool.{Bool, not}
use mathlib.Core.List.{List, [], ◌∷◌}
use mathlib.Core.WellFounded.{Acc, WellFounded}
use native.Mathlib.Omega.{arith}
use adaptarr_server.Prelude.Lists.{length, All}
use adaptarr_server.Prelude.Tests.{◌==◌, if◌then◌else◌}

abbrev pub IsByte : ℕ → Type 0
IsByte b = b < 256

-- `x & (1 << k) != 0`.
abbrev pub has_bit : ℕ → ℕ → Bool
has_bit x k = not (x / 2 ^ k % 2 == 0)

-- `x | (1 << k)`.
abbrev pub set_bit : ℕ → ℕ → ℕ
set_bit x k = if x / 2 ^ k % 2 == 0 then x + 2 ^ k else x

-- The `n` low bytes of a word, lowest first, and the word of some bytes.
unfoldable pub to_le : ℕ → ℕ → List ℕ
to_le zero v = []
to_le (suc n) v = (v % 256) ∷ to_le n (v / 256)

unfoldable pub from_le : List ℕ → ℕ
from_le [] = 0
from_le (b ∷ bs) = b + 256 * from_le bs

pub length-to_le : (n v : ℕ) → length (to_le n v) ≡ n
unfolding to_le
length-to_le zero v = refl
length-to_le (suc n) v = ap suc (length-to_le n (v / 256))

pub from_le-to_le : (n v : ℕ) → v < 256 ^ n → from_le (to_le n v) ≡ v
unfolding to_le from_le
from_le-to_le zero v h = omega arith
from_le-to_le (suc n) v h = omega (arith, from_le-to_le n (v / 256) (omega arith))

pub to_le-from_le : (bs : List ℕ) → All IsByte bs → to_le (length bs) (from_le bs) ≡ bs
unfolding to_le from_le
to_le-from_le [] h = refl
to_le-from_le (b ∷ bs) h =
    let low : (b + 256 * from_le bs) % 256 ≡ b = omega (arith, h.0) in
    let high : (b + 256 * from_le bs) / 256 ≡ from_le bs = omega (arith, h.0) in
    rw (low, high, to_le-from_le bs h.1)

pub to_le-IsByte : (n v : ℕ) → All IsByte (to_le n v)
unfolding to_le
to_le-IsByte zero v = tt
to_le-IsByte (suc n) v = (omega arith, to_le-IsByte n (v / 256))

Acc-below : (k n : ℕ) → n < k → Acc ◌<◌ n
Acc-below zero n h = absurd (omega arith)
Acc-below (suc k) n h = Acc.intro n (λ m hm. Acc-below k m (omega arith))

unfoldable pub lt_wf : WellFounded ◌<◌
unfolding Acc-below
lt_wf = record { apply = λ n. Acc-below (suc n) n (omega arith) }
