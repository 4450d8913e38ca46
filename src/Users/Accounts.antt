-- ===== src/Users/Accounts.antt =====
-- Accounts of users (user.rs). The salt of a password is random, an argument.
use adaptarr_server.Prelude.{
  ℕ, Bool, Option, none, some, String, List, map, Result, ok, err, reject, ◌>>◌, ◌>>=◌, ◌==◌,
  if◌then◌else◌,
}
use adaptarr_server.Validate.Names.{is_empty}
use adaptarr_server.Drafts.{TeamMember}
use adaptarr_server.Audit.{user, new_user, nothing, text}
use adaptarr_server.Sessions.{or_else}
use adaptarr_server.Users.{
  User, Argon2, Tables, State, DbError, is_user, has_email, is_for, update_one, log_in, log_as,
}

pub data CreateUserError : Type 0 where
  duplicate empty_name empty_password : CreateUserError

pub data UserAuthenticateError : Type 0 where
  not_found bad_password : UserAuthenticateError

pub data ChangePasswordError : Type 0 where
  internal : DbError → ChangePasswordError
  empty_password : ChangePasswordError

unfoldable pub check_password : Argon2 → User → String → Bool
check_password argon2 u password = argon2.verify_raw password u.salt u.password

-- `?` on an error of the database.
unfoldable pub internally : {A : Type 0} → Result DbError A → Result ChangePasswordError A
internally (ok a) = ok a
internally (err e) = err (internal e)
internally Result.panic = Result.panic
internally Result.stuck = Result.stuck

module _ {db : Tables} where
  -- `User::by_email` and `User::by_id`; none is the error `NotFound`.
  unfoldable pub by_email : String → State db → Option User
  by_email email s = db.users.find (has_email email) s.users

  unfoldable pub by_id : ℕ → State db → Option User
  by_id id s = db.users.find (is_user id) s.users

  -- `insert_into(users)`, where the column `email` is unique.
  unfoldable pub insert_user : User → State db → Result CreateUserError (User × State db)
  insert_user u s = elim (by_email u.email s) [
    | some other ↦ err duplicate
    | none ↦ ok (u, record s { users = db.users.insert u s.users })
  ]

  unfoldable pub create_user :
      Argon2
      → List ℕ
      → Option ℕ
      → String
      → String
      → String
      → Bool
      → String
      → State db
      → Result CreateUserError (User × State db)
  create_user argon2 salt actor email name password is_super language s =
      reject (is_empty name) empty_name
      >> reject (is_empty password) CreateUserError.empty_password
      >> insert_user
          (record {
            id = db.users.fresh s.users;
            email = email;
            name = name;
            password = argon2.hash_raw password salt;
            salt = salt;
            is_super = is_super;
            language = language;
          })
          (record s { invites = db.invites.delete (is_for email) s.invites })
      >>= λ out. ok (
        out.0,
        log_as (user (or_else actor out.0.id)) "users" out.0.id "create"
            (new_user email name is_super language) out.1,
      )

  unfoldable pub authenticate :
      Argon2 → String → String → State db → Result UserAuthenticateError User
  authenticate argon2 email password s = elim (by_email email s) [
    | none ↦ err not_found
    | some u ↦ if check_password argon2 u password then ok u else err bad_password
  ]

  unfoldable pub update_user : ℕ → (User → User) → State db → Result DbError (User × State db)
  update_user id f s =
      update_one db.users (is_user id) f s.users >>= λ out. ok (out.0, record s { users = out.1 })

  unfoldable pub change_password :
      Argon2 → List ℕ → User → String → State db → Result ChangePasswordError (User × State db)
  change_password argon2 salt u password s =
      reject (is_empty password) ChangePasswordError.empty_password
      >> log_in "users" u.id "change-password" nothing (record s {
        tokens = db.tokens.delete (λ r. r.user == u.id) s.tokens;
        sessions = db.sessions.delete (λ r. r.user == u.id) s.sessions;
      })
      >>= λ s. internally (
          update_user u.id (λ r. record r { password = argon2.hash_raw password salt; salt = salt })
            s)

  unfoldable pub set_name : User → String → State db → Result DbError (User × State db)
  set_name u name s = update_user u.id (λ r. record r { name = name }) s >>= λ out.
      log_in "users" u.id "set-name" (text name) out.1 >>= λ s. ok (out.0, s)

  unfoldable pub set_language : User → String → State db → Result DbError (User × State db)
  set_language u language s = update_user u.id (λ r. record r { language = language }) s >>= λ out.
      log_in "users" u.id "change-language" (text language) out.1 >>= λ s. ok (out.0, s)

  unfoldable pub get_team_ids : User → State db → List ℕ
  get_team_ids u s =
      map TeamMember.team
        (db.team_members.select (λ r. r.user == u.id) TeamMember.user s.team_members)
