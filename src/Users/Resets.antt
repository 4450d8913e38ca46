-- ===== src/Users/Resets.antt =====
-- A password reset token from its making to its use (password.rs).
use adaptarr_server.Prelude.{
  ℕ, ◌+◌, ◌≤◌, ◌<◌, ◌≡◌, ◌≢◌, ◌↔◌, inl, inr, ==_iff, true, false, some, none, String, List, ok, err,
  length, ltb, refl, ap, ◌∙◌, arith,
}
use adaptarr_server.Storage.Joins.{find-some, find-none}
use adaptarr_server.Secure.{sealing}
use adaptarr_server.Audit.{user, nothing}
use adaptarr_server.Users.{
  User, PasswordResetToken, Argon2, Sealing, Tables, State, is_user, is_token, log_as, with_actor,
}
use adaptarr_server.Users.Accounts.{by_id, by_email, change_password, authenticate}
use adaptarr_server.Users.Tokens.{
  expired, token_duration, convert, get_code, read_code, create_token, token_from_id,
  token_from_code, fulfil_token,
}
use adaptarr_server.Users.Passwords.{
  IsStored, is_user_iff, changed, after_change, change_password-ok, Changed, changed_after,
}

-- The code of an identifier stands for it.
pub read_code-get_code :
    (s : Sealing) (secret nonce : List ℕ) (id : ℕ)
    → length secret ≡ 32
    → length nonce ≡ 12
    → (code : String) × (get_code s secret nonce id ≡ ok code) × (read_code s secret code ≡ ok id)
unfolding get_code read_code
read_code-get_code s secret nonce id k n =
    let (data', e, f) = sealing s.aead s.codec secret nonce id k n in
    (s.base64.encode_config data', cc e, cc (s.base64.decode-encode data', f))

is_token_iff : (id : ℕ) (t : PasswordResetToken) → (is_token id t ≡ true) ↔ (t.id ≡ id)
unfolding is_token
is_token_iff id t = ==_iff t.id id

module _ {db : Tables} where
  pub found_user : (s : State db) (u : User) → IsStored s u → by_id u.id s ≡ some u
  unfolding by_id
  found_user s u (here, only, alone) =
      let (x, e, m, hit) =
        find-some db.users (is_user u.id) s.users u here ((is_user_iff u.id u).1 refl) in
      e ∙ ap some (only x m ((is_user_iff u.id x).0 hit))

  valid :
      (now : ℕ) (id : ℕ) (t : PasswordResetToken) (s : State db)
      → db.tokens.find (is_token id) s.tokens ≡ some t
      → now ≤ t.expires
      → token_from_id now id s ≡ ok t
  unfolding token_from_id
  valid now id t s e h = let late : ltb t.expires now ≡ false = grind (arith, h) in cc (e, late)

  too_late :
      (now : ℕ) (id : ℕ) (t : PasswordResetToken) (s : State db)
      → db.tokens.find (is_token id) s.tokens ≡ some t
      → t.expires < now
      → token_from_id now id s ≡ err expired
  unfolding token_from_id
  too_late now id t s e h = let late : ltb t.expires now ≡ true = grind (arith, h) in cc (e, late)

  no_token :
      (now : ℕ) (id : ℕ) (s : State db)
      → db.tokens.find (is_token id) s.tokens ≡ none
      → token_from_id now id s ≡ err expired
  unfolding token_from_id
  no_token now id s e = cc e

  by_code :
      (sealing : Sealing) (secret : List ℕ) (now : ℕ) (code : String) (id : ℕ) (s : State db)
      → read_code sealing secret code ≡ ok id
      → token_from_code sealing secret now code s ≡ token_from_id now id s
  unfolding token_from_code
  by_code sealing secret now code id s e = rw e refl

  module _ (argon2 : Argon2) (salt : List ℕ) (u : User) (t : PasswordResetToken)
      (s : State db) where
    -- The state in which the password is changed, and the one at the end.
    abbrev as_user : State db
    as_user = record s { audit = record s.audit { actor = some (user u.id) } }

    abbrev pub after_fulfil : String → State db
    after_fulfil password =
        let after = after_change argon2 salt u password (user u.id) as_user in
        log_as (user u.id) "password-reset-tokens" t.id "fulfil-password-reset-token" nothing
          (record after { audit = record after.audit { actor = s.audit.actor } })

    attributed :
        (password : String)
        → password ≢ ""
        → IsStored s u
        → with_actor (user u.id) (change_password argon2 salt u password) s
          ≡ ok (
            changed argon2 salt u password (user u.id) as_user,
            record (after_change argon2 salt u password (user u.id) as_user) {
              audit = record (after_change argon2 salt u password (user u.id) as_user).audit {
                actor = s.audit.actor;
              };
            },
          )
    unfolding with_actor
    attributed password p stored =
        rw (change_password-ok argon2 salt u password (user u.id) as_user p refl stored) refl

    pub fulfil_token-ok :
        (password : String)
        → password ≢ ""
        → t.user ≡ u.id
        → IsStored s u
        → fulfil_token argon2 salt t password s
          ≡ ok (changed argon2 salt u password (user u.id) as_user, after_fulfil password)
    unfolding fulfil_token convert
    fulfil_token-ok password p own stored =
        let owner : by_id t.user s ≡ some u = ap (λ id. by_id id s) own ∙ found_user s u stored in
        cc (owner, attributed password p stored)

  -- The new token, and the state that it is stored in.
  module _ (now : ℕ) (u : User) (s : State db) where
    abbrev pub token : PasswordResetToken
    token = (create_token now u s).0

    abbrev pub issued : State db
    issued = (create_token now u s).1

    only_token :
        (x : PasswordResetToken) → db.tokens.Contains issued.tokens x → x.id ≡ token.id → x ≡ token
    unfolding create_token log_as
    only_token x m same = elim ((db.tokens.insert_iff token s.tokens x).0 m) [
      | inl new ↦ new
      | inr old ↦ absurd (db.tokens.fresh_lem s.tokens x old same)
    ]

    stored_token : db.tokens.Contains issued.tokens token
    unfolding create_token log_as
    stored_token = (db.tokens.insert_iff token s.tokens token).1 (inl refl)

    found_token : db.tokens.find (is_token token.id) issued.tokens ≡ some token
    found_token =
        let (x, e, m, hit) =
          find-some db.tokens (is_token token.id) issued.tokens token stored_token
            ((is_token_iff token.id token).1 refl) in
        e ∙ ap some (only_token x m ((is_token_iff token.id x).0 hit))

    keeps : IsStored s u → IsStored issued u
    unfolding create_token log_as
    keeps stored = stored

    due : token.expires ≡ now + token_duration
    unfolding create_token
    due = refl

    own : token.user ≡ u.id
    unfolding create_token
    own = refl

    module _ (argon2 : Argon2) (salt : List ℕ) (password : String) where
      abbrev pub renewed : User
      renewed = record u { password = argon2.hash_raw password salt; salt = salt }

      abbrev pub done : State db
      done = after_fulfil argon2 salt u token issued password

      changes :
          IsStored s u
          → Changed argon2 salt u password (user u.id) (as_user argon2 salt u token issued)
      changes stored =
          changed_after argon2 salt u password (user u.id) (as_user argon2 salt u token issued)
            (keeps stored)

      gone : IsStored s u → db.tokens.find (is_token token.id) done.tokens ≡ none
      unfolding log_as
      gone stored = find-none db.tokens (is_token token.id) done.tokens (λ r m hit.
          let (old, other) = ((changes stored).tokens r).0 m in
          other
            (ap PasswordResetToken.user (only_token r old ((is_token_iff token.id r).0 hit)) ∙ own))

      same_sign_in :
          IsStored s u
          → (other : String)
          → (authenticate argon2 u.email other done ≡ ok renewed)
            ↔ (argon2.hash_raw password salt ≡ argon2.hash_raw other salt)
      unfolding log_as authenticate by_email
      same_sign_in stored other = (changes stored).signs_in other

      -- A token that is made for a user has a code. For fifteen minutes the code gives the token, and
      -- later the answer is that it has expired. Using the token sets the password that is given,
      -- with which alone the user signs in, and from then on the code has expired at any time.
      pub create_token-fulfil_token :
          (sealing : Sealing) (secret nonce : List ℕ) (soon late ever : ℕ)
          → length secret ≡ 32
          → length nonce ≡ 12
          → soon ≤ now + token_duration
          → now + token_duration < late
          → password ≢ ""
          → IsStored s u
          → (code : String) × (get_code sealing secret nonce token.id ≡ ok code)
            × (token_from_code sealing secret soon code issued ≡ ok token)
            × (token_from_code sealing secret late code issued ≡ err expired)
            × (after : State db) × (fulfil_token argon2 salt token password issued
                ≡ ok (renewed, after))
            × (token_from_code sealing secret ever code after ≡ err expired)
            × ((other : String)
                → (authenticate argon2 u.email other after ≡ ok renewed)
                  ↔ (argon2.hash_raw password salt ≡ argon2.hash_raw other salt))
      create_token-fulfil_token sealing secret nonce soon late ever k n h l p stored =
          let (code, e, f) = read_code-get_code sealing secret nonce token.id k n in
          (
            code,
            e,
            by_code sealing secret soon code token.id issued f
                ∙ valid soon token.id token issued found_token (omega (arith, due, h)),
            by_code sealing secret late code token.id issued f
                ∙ too_late late token.id token issued found_token (omega (arith, due, l)),
            done,
            fulfil_token-ok argon2 salt u token issued password p own (keeps stored),
            by_code sealing secret ever code token.id done f
                ∙ no_token ever token.id done (gone stored),
            same_sign_in stored,
          )
