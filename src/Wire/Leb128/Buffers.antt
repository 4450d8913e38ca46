-- ===== src/Wire/Leb128/Buffers.antt =====
-- Reading a number from a buffer that holds some bytes is reading it from the list of those bytes.
use adaptarr_server.Prelude.{
  ℕ, zero, suc, ◌+◌, ◌*◌, ◌%◌, ◌^◌, ◌<◌, ◌≡◌, Option, none, some, List, [], ◌∷◌, ◌++◌, ltb, expect,
  Result, ok, Bool-cases, refl, subst, inl, inr,
}
use adaptarr_server.Prelude.Words.{has_bit}
use adaptarr_server.Wire.Leb128.{
  put_leb128, checked_shl, checked_add, get_loop, get_leb128, get_leb128-put_leb128,
}

pub take_first : List ℕ → Option (ℕ × List ℕ)
take_first [] = none
take_first (b ∷ bs) = some (b, bs)

abbrev done_with : ℕ → List ℕ → Result ⊥ (ℕ × List ℕ)
done_with v bs = ok (v, bs)

module _ {S : Type 0} (read : S → Option (ℕ × S)) (Holds : S → List ℕ → Type 0)
    (read_first : (s : S) (b : ℕ) (bs : List ℕ)
      → Holds s (b ∷ bs)
      → (s' : S) × (read s ≡ some (b, s')) × Holds s' bs) where
  get_loop-Holds :
      (fuel shift acc : ℕ) (s : S) (bs : List ℕ) (v : ℕ) (rest : List ℕ)
      → Holds s bs
      → get_loop take_first fuel shift acc bs ≡ ok (v, rest)
      → (s' : S) × (get_loop read fuel shift acc s ≡ ok (v, s')) × Holds s' rest
  unfolding get_loop expect checked_shl checked_add take_first
  get_loop-Holds zero shift acc s bs v rest h e = cc
  get_loop-Holds (suc fuel) shift acc s [] v rest h e = cc
  get_loop-Holds (suc fuel) shift acc s (b ∷ bs) v rest h e =
      let (s', r, h') = read_first s b bs h in
      let byte = b % 128 * 2 ^ shift % 2 ^ 64 in
      elim (Bool-cases (ltb shift 64)) [
        | inr big ↦ cc big
        | inl small ↦ elim (Bool-cases (ltb (acc + byte) (2 ^ 64))) [
          | inr over ↦ cc (small, over)
          | inl fits ↦ elim (Bool-cases (has_bit b 7)) [
            | inl more ↦
                let e' : get_loop take_first fuel (shift + 7) (acc + byte) bs ≡ ok (v, rest) =
                  rw (small, fits, more) at e in
                let (t, q, k) = get_loop-Holds fuel (shift + 7) (acc + byte) s' bs v rest h' e' in
                (t, rw (r, small, fits, more) q, k)
            | inr last ↦
                let done : done_with (acc + byte) bs ≡ ok (v, rest) = rw (small, fits, last) at e in
                let pair : (acc + byte, bs) ≡ (v, rest) = cc in
                subst
                  (λ (x : ℕ × List ℕ).
                    (t : S) × (get_loop read (suc fuel) shift acc s ≡ ok (x.0, t)) × Holds t x.1)
                  pair (s', rw (r, small, fits, last), h')
          ]
        ]
      ]

  -- A number that the buffer holds in its LEB128 form is read, and the buffer then holds the rest.
  pub get_leb128-Holds :
      (s : S) (v : ℕ) (rest : List ℕ)
      → v < 2 ^ 64
      → Holds s (put_leb128 v ++ rest)
      → (s' : S) × (get_leb128 read s ≡ ok (v, s')) × Holds s' rest
  unfolding get_leb128 take_first
  get_leb128-Holds s v rest lt h =
      get_loop-Holds 11 0 0 s (put_leb128 v ++ rest) v rest h
        (get_leb128-put_leb128 take_first (λ b bs. refl) v rest lt)
