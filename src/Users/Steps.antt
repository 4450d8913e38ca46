-- ===== src/Users/Steps.antt =====
-- What may happen to users, teams and invitations, as steps between states.
use adaptarr_server.Prelude.{ℕ, ◌≡◌, Bool, Option, String, List, ok}
use adaptarr_server.Drafts.{TeamMember}
use adaptarr_server.Users.{User, PasswordResetToken, Team, Role, Argon2, Tables, State, DbError}
use adaptarr_server.Users.Accounts.{create_user, change_password, set_name, set_language}
use adaptarr_server.Users.Teams.{
  add_member, create_team, set_team_name, create_role, delete_role, set_role_name,
  set_role_permissions,
}
use adaptarr_server.Users.Members.{Flags, Member, delete_member, set_permissions, set_role}
use adaptarr_server.Users.Tokens.{create_token, fulfil_token}
use adaptarr_server.Users.Invites.{
  Invitation, create_invite, create_for_existing, delete_invite, fulfil_new, fulfil_existing,
}

-- One call that succeeds; one that fails leaves the state.
pub data Step {db : Tables} (argon2 : Argon2) (flags : Flags) (s : State db)
    : State db → Type 0 where
  register :
      (salt : List ℕ) (actor : Option ℕ) (email name password : String) (is_super : Bool)
      (language : String) (u : User) {t : State db}
      → create_user argon2 salt actor email name password is_super language s ≡ ok (u, t)
      → Step argon2 flags s t
  new_password :
      (salt : List ℕ) (u : User) (password : String) (v : User) {t : State db}
      → change_password argon2 salt u password s ≡ ok (v, t)
      → Step argon2 flags s t
  new_name :
      (u : User) (name : String) (v : User) {t : State db}
      → set_name u name s ≡ ok (v, t)
      → Step argon2 flags s t
  new_language :
      (u : User) (language : String) (v : User) {t : State db}
      → set_language u language s ≡ ok (v, t)
      → Step argon2 flags s t
  request_reset : (now : ℕ) (u : User) → Step argon2 flags s (create_token now u s).1
  reset :
      (salt : List ℕ) (token : PasswordResetToken) (password : String) (v : User) {t : State db}
      → fulfil_token argon2 salt token password s ≡ ok (v, t)
      → Step argon2 flags s t
  invite :
      (now : ℕ) (team : Team) (email : String) (role : Option Role) (permissions : ℕ)
      (i : Invitation) {t : State db}
      → create_invite {E = DbError} now team email role permissions s ≡ ok (i, t)
      → Step argon2 flags s t
  invite_user :
      (now : ℕ) (team : Team) (role : Option Role) (permissions : ℕ) (u : User) (i : Invitation)
      {t : State db}
      → create_for_existing {E = DbError} now team role permissions u s ≡ ok (i, t)
      → Step argon2 flags s t
  withdraw : (i : Invitation) → Step argon2 flags s (delete_invite i s)
  join_new :
      (salt : List ℕ) (i : Invitation) (name password language : String) (u : User) {t : State db}
      → fulfil_new flags argon2 salt i name password language s ≡ ok (u, t)
      → Step argon2 flags s t
  join_existing :
      (i : Invitation) (u : User) {t : State db}
      → fulfil_existing flags i s ≡ ok (u, t)
      → Step argon2 flags s t
  -- The key of the table of members refers to a user.
  join :
      (team : Team) (u : User) (permissions : ℕ) (role : Option Role) (m : TeamMember)
      {t : State db}
      → db.users.Contains s.users u
      → add_member team u permissions role s ≡ ok (m, t)
      → Step argon2 flags s t
  new_permissions :
      (m : Member) (permissions : ℕ) (n : Member) {t : State db}
      → set_permissions m permissions s ≡ ok (n, t)
      → Step argon2 flags s t
  new_role :
      (m : Member) (role : Option Role) (n : Member) {t : State db}
      → set_role m role s ≡ ok (n, t)
      → Step argon2 flags s t
  new_team :
      (name : String) (team : Team) {t : State db}
      → create_team name s ≡ ok (team, t)
      → Step argon2 flags s t
  new_team_name :
      (team : Team) (name : String) (new : Team) {t : State db}
      → set_team_name team name s ≡ ok (new, t)
      → Step argon2 flags s t
  add_role :
      (team : Team) (name : String) (permissions : ℕ) (role : Role) {t : State db}
      → create_role team name permissions s ≡ ok (role, t)
      → Step argon2 flags s t
  remove_role :
      (in_slot : ℕ → Bool) (role : Role) {t : State db}
      → delete_role in_slot role s ≡ ok t
      → Step argon2 flags s t
  new_role_name :
      (role : Role) (name : String) (new : Role) {t : State db}
      → set_role_name role name s ≡ ok (new, t)
      → Step argon2 flags s t
  new_role_permissions :
      (role : Role) (permissions : ℕ) (new : Role) {t : State db}
      → set_role_permissions role permissions s ≡ ok (new, t)
      → Step argon2 flags s t
  leave : (m : Member) → Step argon2 flags s (delete_member m s)

-- Any number of steps.
pub data Reach {db : Tables} (argon2 : Argon2) (flags : Flags) (s : State db)
    : State db → Type 0 where
  start : Reach argon2 flags s s
  later : {t r : State db} → Reach argon2 flags s t → Step argon2 flags t r → Reach argon2 flags s r
