-- ===== src/Wire/Leb128.antt =====
-- `put_leb128` and `get_leb128` of crates/util/src/bytes_ext.rs.
pub mod Buffers
use mathlib.Core.WellFounded.{Acc}
use mathlib.Core.Logic.{dite}
use native.Mathlib.Nat.{div-add-mod}
use native.Mathlib.Numerals.{towards_suc}
use native.Mathlib.Decide.{dec_lt}
use adaptarr_server.Prelude.{
  ℕ, zero, suc, ◌+◌, ◌*◌, ◌/◌, ◌%◌, ◌^◌, ◌<◌, ◌≡◌, ◌≢◌, true, false, Option, none, some, List, [],
  ◌∷◌, ◌++◌, ltb, if◌then◌else◌, expect, Result, ok, err, panic, stuck, ◌>>=◌, ap, Option-cases,
  refl, ◌⊎◌, inl, inr, arith, Option-cases, refl, ◌⊎◌, inl, inr,
}
use adaptarr_server.Prelude.Words.{has_bit, lt_wf}

shift_shrinks : (v : ℕ) → 127 < v → v / 128 < v
shift_shrinks v h = omega arith

-- `while v >= 0x80 { … v >>= 7; }`: the bytes that are appended. In the body `v & 0x7f` is
-- `v % 128`, and its bit 7 is set by adding 128.
put_loop : (v : ℕ) → Acc ◌<◌ v → List ℕ
put_loop v (Acc.intro _ smaller) =
    dite (dec_lt 127 v)
      (λ more. (v % 128 + 128) ∷ put_loop (v / 128) (smaller (v / 128) (shift_shrinks v more)))
      (λ _. v % 256 ∷ [])

unfoldable pub put_leb128 : ℕ → List ℕ
unfolding put_loop shift_shrinks lt_wf dec_lt
put_leb128 v = put_loop v (lt_wf.apply v)

-- `u64::checked_shl` looks at the shift only: bits that are shifted out are lost.
unfoldable pub checked_shl : ℕ → ℕ → Option ℕ
checked_shl x shift = if ltb shift 64 then some (x * 2 ^ shift % 2 ^ 64) else none

unfoldable pub checked_add : ℕ → ℕ → Option ℕ
checked_add a b = if ltb (a + b) (2 ^ 64) then some (a + b) else none

-- The loop is generic in the buffer: `read` is `copy_to_slice` into one byte, and `none` its panic.
module _ {S : Type 0} (read : S → Option (ℕ × S)) where
  unfoldable pub get_loop : ℕ → ℕ → ℕ → S → Result ⊥ (ℕ × S)
  get_loop zero shift v s = stuck
  get_loop (suc fuel) shift v s = do
    (b, s') ← expect (read s)
    byte ← expect (checked_shl (b % 128) shift)
    v' ← expect (checked_add v byte)
    elim (has_bit b 7) [ true ↦ get_loop fuel (shift + 7) v' s' | false ↦ ok (v', s') ]

  -- At the eleventh byte the shift is 70, so the loop panics within 11 rounds.
  unfoldable pub get_leb128 : S → Result ⊥ (ℕ × S)
  get_leb128 s = get_loop 11 0 0 s

-- The lowest group of seven bits and the others, shifted.
split_group : (w s : ℕ) → w * 2 ^ s ≡ w % 128 * 2 ^ s + w / 128 * 2 ^ (s + 7)
split_group w s =
    let seven : 2 ^ (s + 7) ≡ 128 * 2 ^ s = simp towards_suc (omega arith) in
    omega (arith, ap (λ (t : ℕ). t * 2 ^ s) (div-add-mod w 128), ap (λ (t : ℕ). w / 128 * t) seven)

module _ (read : List ℕ → Option (ℕ × List ℕ))
    (read_cons : (b : ℕ) (bs : List ℕ) → read (b ∷ bs) ≡ some (b, bs)) where
  -- One round of the loop, on a last byte and on one with bit 7 set.
  last_byte :
      (w fuel shift acc : ℕ) (rest : List ℕ)
      → w < 128
      → shift < 64
      → acc + w * 2 ^ shift < 2 ^ 64
      → get_loop read (suc fuel) shift acc (w ∷ rest) ≡ ok (acc + w * 2 ^ shift, rest)
  unfolding get_loop expect checked_shl checked_add
  last_byte w fuel shift acc rest hw hs fits = ground (arith, read_cons w rest)

  inner_byte :
      (w fuel shift acc : ℕ) (rest : List ℕ)
      → w < 128
      → shift < 64
      → acc + w * 2 ^ shift < 2 ^ 64
      → get_loop read (suc fuel) shift acc ((w + 128) ∷ rest)
        ≡ get_loop read fuel (shift + 7) (acc + w * 2 ^ shift) rest
  unfolding get_loop expect checked_shl checked_add
  inner_byte w fuel shift acc rest hw hs fits = ground (arith, read_cons (w + 128) rest)

  get_loop-put_loop :
      (k v : ℕ) (w : Acc ◌<◌ v) (shift acc : ℕ) (rest : List ℕ)
      → v < 128 ^ suc k
      → shift + 7 * suc k ≡ 70
      → acc + v * 2 ^ shift < 2 ^ 64
      → get_loop read (suc (suc k)) shift acc (put_loop v w ++ rest)
        ≡ ok (acc + v * 2 ^ shift, rest)
  unfolding put_loop
  get_loop-put_loop zero v (Acc.intro _ smaller) shift acc rest hv hs fits =
      grind (arith, last_byte (v % 256) 1 shift acc rest)
  get_loop-put_loop (suc k) v (Acc.intro _ smaller) shift acc rest hv hs fits = grind (
    arith,
    last_byte (v % 256) (suc (suc k)) shift acc rest,
    split_group v shift,
    λ (q : Acc ◌<◌ (v / 128)).
        inner_byte (v % 128) (suc (suc k)) shift acc (put_loop (v / 128) q ++ rest),
    λ (q : Acc ◌<◌ (v / 128)).
        get_loop-put_loop k (v / 128) q (shift + 7) (acc + v % 128 * 2 ^ shift) rest,
  )

-- What `put_leb128` wrote for a `u64` `get_leb128` reads back, and it leaves what follows: on any
-- byte buffer whose reads take the first byte.
pub get_leb128-put_leb128 :
    (read : List ℕ → Option (ℕ × List ℕ))
    → ((b : ℕ) (bs : List ℕ) → read (b ∷ bs) ≡ some (b, bs))
    → (v : ℕ) (rest : List ℕ) → v < 2 ^ 64
    → get_leb128 read (put_leb128 v ++ rest) ≡ ok (v, rest)
unfolding get_leb128 put_leb128
get_leb128-put_leb128 read read_cons v rest h =
    ground (arith, get_loop-put_loop read read_cons 9 v (lt_wf.apply v) 0 0 rest)

module _ {S : Type 0} (read : S → Option (ℕ × S)) where
  get_loop-ne-stuck :
      (fuel shift acc : ℕ) (s : S)
      → shift + 7 * suc fuel ≡ 77
      → get_loop read (suc fuel) shift acc s ≢ stuck
  unfolding get_loop expect checked_shl checked_add
  get_loop-ne-stuck zero shift acc s hs e = ground arith
  get_loop-ne-stuck (suc fuel) shift acc s hs e = elim (Option-cases (read s)) [
    | inl n ↦ ground (arith, n)
    | inr ((b, s'), r) ↦
        ground
          (arith, r, get_loop-ne-stuck fuel (shift + 7) (acc + b % 128 * 2 ^ shift % 2 ^ 64) s')
  ]

  get_loop-lt :
      (fuel shift acc : ℕ) (s : S) (v : ℕ) (s' : S)
      → get_loop read fuel shift acc s ≡ ok (v, s')
      → v < 2 ^ 64
  unfolding get_loop expect checked_shl checked_add
  get_loop-lt zero shift acc s v s' e = cc
  get_loop-lt (suc fuel) shift acc s v s' e = elim (Option-cases (read s)) [
    | inl n ↦ ground (arith, n)
    | inr ((b, t), r) ↦
        ground (arith, r, get_loop-lt fuel (shift + 7) (acc + b % 128 * 2 ^ shift % 2 ^ 64) t v s')
  ]

  -- On every buffer `get_leb128` ends, by a return or by a panic, and what it returns is a `u64`.
  pub get_leb128_total :
      (s : S)
      → ((v : ℕ) × (rest : S) × (get_leb128 read s ≡ ok (v, rest)) × (v < 2 ^ 64))
        ⊎ (get_leb128 read s ≡ panic)
  unfolding get_leb128
  get_leb128_total s = go (get_loop read 11 0 0 s) refl
    where
      go :
          (r : Result ⊥ (ℕ × S))
          → get_loop read 11 0 0 s ≡ r
          → ((v : ℕ) × (rest : S) × (get_loop read 11 0 0 s ≡ ok (v, rest)) × (v < 2 ^ 64))
            ⊎ (get_loop read 11 0 0 s ≡ panic)
      go (ok (v, rest)) e = inl (v, rest, e, get_loop-lt 11 0 0 s v rest e)
      go (err x) e = absurd x
      go panic e = inr e
      go stuck e = absurd (get_loop-ne-stuck 10 0 0 s (omega arith) e)
