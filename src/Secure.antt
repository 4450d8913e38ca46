-- ===== src/Secure.antt =====
-- Sealing values for a client to keep: crates/util/src/secure.rs. A byte is a number, and randomness is
-- an argument.
use adaptarr_server.Prelude.{
  ℕ, ◌-◌, ◌≡◌, Option, none, some, List, ◌++◌, length, take, drop, replicate, ltb, if◌then◌else◌,
  length-append, take-append, drop-append, Result, ok, err, expect, ◌>>=◌, false, refl, ◌∙◌, ◌==◌,
  arith,
}

-- AES-256-GCM of the crate `ring`, whose keys have 32 bytes, and its documented behaviour: what is
-- sealed with a key and a nonce is opened with them. No additional data is authenticated.
pub record Aead : Type 0 where
  pub seal_in_place_append_tag : List ℕ → List ℕ → List ℕ → List ℕ
  pub open_in_place : List ℕ → List ℕ → List ℕ → Option (List ℕ)
  pub open-seal :
      (key nonce data' : List ℕ)
      → open_in_place key nonce (seal_in_place_append_tag key nonce data') ≡ some data'

-- The crate `rmps` at one type: a value is read from the front of a slice.
pub record Codec (A : Type 0) : Type 0 where
  pub serialize : A → List ℕ
  pub deserialize : List ℕ → Option A
  pub deserialize-serialize : (a : A) (rest : List ℕ) → deserialize (serialize a ++ rest) ≡ some a

pub data UnsealingError : Type 0 where
  serialization crypto too_short : UnsealingError

abbrev max_tag_len : ℕ
max_tag_len = 16

-- `UnboundKey::new` checks the length of the key.
unfoldable pub unbound_key : List ℕ → Option (List ℕ)
unbound_key key = if length key == 32 then some key else none

module _ {A : Type 0} (aead : Aead) (codec : Codec A) where
  -- Serialization of an identifier does not fail; what fails is a panic.
  unfoldable pub seal : List ℕ → List ℕ → A → Result UnsealingError (List ℕ)
  seal key nonce value = expect (unbound_key key) >>= λ key. ok (
      aead.seal_in_place_append_tag key nonce (codec.serialize value ++ replicate max_tag_len 0)
      ++ nonce)

  unfoldable pub open_sealed : List ℕ → List ℕ → List ℕ → Result UnsealingError A
  open_sealed key nonce ciphertext = elim (unbound_key key) [
    | none ↦ err crypto
    | some key ↦ elim (aead.open_in_place key nonce ciphertext) [
      | none ↦ err crypto
      | some decrypted ↦ elim (codec.deserialize decrypted) [
        | none ↦ err serialization
        | some value ↦ ok value
      ]
    ]
  ]

  unfoldable pub unseal : List ℕ → List ℕ → Result UnsealingError A
  unseal key data' =
      if ltb (length data') 12
      then err too_short
      else open_sealed key (drop (length data' - 12) data') (take (length data' - 12) data')

  opened :
      (key nonce : List ℕ) (value : A)
      → length key ≡ 32
      → open_sealed key nonce (
          aead.seal_in_place_append_tag key nonce
            (codec.serialize value ++ replicate max_tag_len 0))
        ≡ ok value
  unfolding open_sealed unbound_key
  opened key nonce value k = cc (
    k,
    aead.open-seal key nonce (codec.serialize value ++ replicate max_tag_len 0),
    codec.deserialize-serialize value (replicate max_tag_len 0),
  )

  split :
      (key ciphertext nonce : List ℕ)
      → length nonce ≡ 12
      → unseal key (ciphertext ++ nonce) ≡ open_sealed key nonce ciphertext
  unfolding unseal
  split key ciphertext nonce n =
      let whole = length-append ciphertext nonce in
      let same : length (ciphertext ++ nonce) - 12 ≡ length ciphertext = omega (arith, whole, n) in
      let long : ltb (length (ciphertext ++ nonce)) 12 ≡ false = grind (arith, whole, n) in
      rw (
        long,
        same,
        drop-append (length ciphertext) ciphertext nonce refl,
        take-append (length ciphertext) ciphertext nonce refl,
      )

  sealed :
      (key nonce : List ℕ) (value : A)
      → length key ≡ 32
      → seal key nonce value
        ≡ ok (
            aead.seal_in_place_append_tag key nonce
              (codec.serialize value ++ replicate max_tag_len 0)
            ++ nonce)
  unfolding seal unbound_key expect
  sealed key nonce value k = cc k

  -- What is sealed with a key of 32 bytes and a nonce of 12 is unsealed with the key.
  pub sealing :
      (key nonce : List ℕ) (value : A)
      → length key ≡ 32
      → length nonce ≡ 12
      → (data' : List ℕ) × (seal key nonce value ≡ ok data') × (unseal key data' ≡ ok value)
  sealing key nonce value k n =
      (_, sealed key nonce value k, split key _ nonce n ∙ opened key nonce value k)
