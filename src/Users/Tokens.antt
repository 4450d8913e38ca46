-- ===== src/Users/Tokens.antt =====
-- Tokens that let a user change a password without signing in (password.rs).
use adaptarr_server.Prelude.{
  ℕ, ◌+◌, ◌*◌, none, some, String, List, Result, ok, err, panic, stuck, ◌>>=◌, ltb, if◌then◌else◌,
}
use adaptarr_server.Secure.{UnsealingError, seal, unseal}
use adaptarr_server.Audit.{user, nothing}
use adaptarr_server.Users.{
  User, PasswordResetToken, Argon2, Sealing, Tables, State, DbError, is_token, with_actor, log_as,
}
use adaptarr_server.Users.Accounts.{ChangePasswordError, by_id, change_password}

pub data FromCodeError : Type 0 where
  expired decoding : FromCodeError
  unsealing : UnsealingError → FromCodeError

pub data ResetPasswordError : Type 0 where
  internal : DbError → ResetPasswordError
  password : ChangePasswordError → ResetPasswordError

-- `From<ChangePasswordError>`
unfoldable pub reset_error : ChangePasswordError → ResetPasswordError
reset_error (ChangePasswordError.internal e) = internal e
reset_error ChangePasswordError.empty_password = password ChangePasswordError.empty_password

-- `?` on the error of another operation.
unfoldable pub convert : {E F A : Type 0} → (E → F) → Result E A → Result F A
convert f (ok a) = ok a
convert f (err e) = err (f e)
convert f panic = panic
convert f stuck = stuck

-- The validity of a token is fifteen minutes.
abbrev pub token_duration : ℕ
token_duration = 15 * 60

-- `get_code` of tokens and invitations: the nonce is random.
unfoldable pub get_code : Sealing → List ℕ → List ℕ → ℕ → Result UnsealingError String
get_code sealing secret nonce id = seal sealing.aead sealing.codec secret nonce id >>= λ sealed.
    ok (sealing.base64.encode_config sealed)

-- The identifier that a code stands for.
unfoldable pub read_code : Sealing → List ℕ → String → Result FromCodeError ℕ
read_code sealing secret code = elim (sealing.base64.decode_config code) [
  | none ↦ err decoding
  | some data' ↦ elim (unseal sealing.aead sealing.codec secret data') [
    | ok id ↦ ok id
    | err e ↦ err (unsealing e)
    | panic ↦ panic
    | stuck ↦ stuck
  ]
]

module _ {db : Tables} where
  unfoldable pub create_token : ℕ → User → State db → PasswordResetToken × State db
  create_token now u s =
      let token : PasswordResetToken = record {
        id = db.tokens.fresh s.tokens;
        user = u.id;
        expires = now + token_duration;
      } in
      (
        token,
        log_as (user u.id) "password-reset-tokens" token.id "create" nothing
            (record s { tokens = db.tokens.insert token s.tokens }),
      )

  unfoldable pub token_from_id : ℕ → ℕ → State db → Result FromCodeError PasswordResetToken
  token_from_id now id s = elim (db.tokens.find (is_token id) s.tokens) [
    | none ↦ err expired
    | some token ↦ if ltb token.expires now then err expired else ok token
  ]

  unfoldable pub token_from_code :
      Sealing → List ℕ → ℕ → String → State db → Result FromCodeError PasswordResetToken
  token_from_code sealing secret now code s =
      read_code sealing secret code >>= λ id. token_from_id now id s

  -- `assert_exists` panics when the user of the token is gone.
  unfoldable pub fulfil_token :
      Argon2
      → List ℕ
      → PasswordResetToken
      → String
      → State db
      → Result ResetPasswordError (User × State db)
  fulfil_token argon2 salt token new_password s = elim (by_id token.user s) [
    | none ↦ panic
    | some u ↦
        convert reset_error (with_actor (user u.id) (change_password argon2 salt u new_password) s)
        >>= λ out. ok (
          out.0,
          log_as (user out.0.id) "password-reset-tokens" token.id "fulfil-password-reset-token"
              nothing out.1,
        )
  ]
