-- ===== src/Users/SignIn.antt =====
-- Signing in with a password (user.rs).
use adaptarr_server.Prelude.{
  ℕ, ◌≡◌, ◌≢◌, ◌↔◌, inl, inr, Bool, true, false, Option, none, some, Option-cases, String, List,
  Result, ok, err, refl, sym, ap, ◌∙◌, if_true, if◌then◌else◌, subst,
}
use adaptarr_server.Users.{User, Argon2, Tables, State}
use adaptarr_server.Users.Accounts.{
  UserAuthenticateError, not_found, bad_password, check_password, by_email, create_user,
  authenticate,
}
use adaptarr_server.Users.Created.{
  HasAccount, no_account, account, after_create, create_user-ok, newest,
}

module _ {db : Tables} where
  module _ (argon2 : Argon2) (email password : String) (s : State db) where
    unknown : by_email email s ≡ none → authenticate argon2 email password s ≡ err not_found
    unfolding authenticate
    unknown e = cc e

    known :
        (u : User)
        → by_email email s ≡ some u
        → authenticate argon2 email password s
          ≡ (if check_password argon2 u password then ok u else err bad_password)
    unfolding authenticate
    known u e = cc e

    abbrev signed : User → Result UserAuthenticateError User
    signed u = ok u

    by_check :
        (u v : User) (b : Bool)
        → (if b then ok u else err bad_password) ≡ signed v
        → (b ≡ true) × (u ≡ v)
    by_check u v true e = (refl, cc e)
    by_check u v false e = cc e

    -- Signing in succeeds exactly for the user that the lookup of the address gives, when the
    -- password hashes with the salt of the user to what is stored.
    pub authenticate-ok :
        (u : User)
        → (authenticate argon2 email password s ≡ ok u)
          ↔ ((by_email email s ≡ some u) × (u.password ≡ argon2.hash_raw password u.salt))
    unfolding check_password
    authenticate-ok u = (
      λ e. elim (Option-cases (by_email email s)) [
        | inl none_found ↦ cc (e, unknown none_found)
        | inr (v, found) ↦
            let (good, same) =
              by_check v u (check_password argon2 v password) (sym (known v found) ∙ e) in
            (
              found ∙ ap some same,
              subst (λ w. w.password ≡ argon2.hash_raw password w.salt) same
                  ((argon2.verify_raw_iff password v.salt v.password).0 good),
            )
      ],
      λ h. known u h.0 ∙ if_true _ ((argon2.verify_raw_iff password u.salt u.password).1 h.1),
    )

  -- A new user signs in with the password, and with no other that has a different hash.
  pub create_user-authenticate :
      (argon2 : Argon2) (salt : List ℕ) (actor : Option ℕ) (email name password : String)
      (is_super : Bool) (language : String) (s : State db)
      → name ≢ ""
      → password ≢ ""
      → ¬ HasAccount email s
      → (u : User) × (after : State db) × (create_user argon2 salt actor email name password
            is_super language s
          ≡ ok (u, after))
        × ((other : String)
            → (authenticate argon2 email other after ≡ ok u)
              ↔ (argon2.hash_raw password salt ≡ argon2.hash_raw other salt))
  create_user-authenticate argon2 salt actor email name password is_super language s n p free =
      let u = account argon2 salt actor email name password is_super language s in
      let after = after_create argon2 salt actor email name password is_super language s in
      let found = newest argon2 salt actor email name password is_super language s free in
      (
        u,
        after,
        create_user-ok argon2 salt actor email name password is_super language s n p
            ((no_account email s).0 free),
        λ other. (
          λ e. ((authenticate-ok argon2 email other after u).0 e).1,
          λ e. (authenticate-ok argon2 email other after u).1 (found, e),
        ),
      )
