-- ===== src/Users.antt =====
-- Users, their teams, invitations and password reset tokens: the rows of crates/models/src/db/models.rs,
-- and what crates/models/src/models/user.rs, team.rs, team_member.rs, role.rs, invite.rs and
-- password.rs do with them. A time is a number of seconds; a byte is a number.
pub mod Accounts
pub mod Teams
pub mod Members
pub mod Granted
pub mod Tokens
pub mod Invites
pub mod Created
pub mod SignIn
pub mod Updates
pub mod Passwords
pub mod Resets
pub mod Steps
pub mod Valid
pub mod Kept
pub mod Renewed
pub mod Joining
pub mod Regrouped
pub mod Reached
pub mod Admitted
pub mod Invited
mod Examples
use adaptarr_server.Prelude.{
  ℕ, ◌==◌, ◌&&◌, ◌≡◌, ◌↔◌, Bool, true, Option, none, some, String, str_eq, List, Result, ok, err,
  ◌>>=◌,
}
use adaptarr_server.Storage.{Table}
use adaptarr_server.Sessions.{Session}
use adaptarr_server.Drafts.{TeamMember}
use adaptarr_server.Secure.{Aead, Codec}
use adaptarr_server.Audit.{Audit, Actor, Payload, log_db, log_db_actor}

pub record User : Type 0 where
  pub id : ℕ
  pub email : String
  pub name : String
  pub password : List ℕ
  pub salt : List ℕ
  pub is_super : Bool
  pub language : String

pub record Invite : Type 0 where
  pub id : ℕ
  pub email : String
  pub expires : ℕ
  pub role : Option ℕ
  pub team : ℕ
  pub permissions : ℕ
  pub user : Option ℕ

pub record PasswordResetToken : Type 0 where
  pub id : ℕ
  pub user : ℕ
  pub expires : ℕ

pub record Team : Type 0 where
  pub id : ℕ
  pub name : String

pub record Role : Type 0 where
  pub id : ℕ
  pub name : String
  pub permissions : ℕ
  pub team : ℕ

pub record Tables : Type 1 where
  pub users : Table User User.id
  pub sessions : Table Session Session.id
  pub tokens : Table PasswordResetToken PasswordResetToken.id
  pub invites : Table Invite Invite.id
  pub teams : Table Team Team.id
  pub roles : Table Role Role.id
  pub team_members : Table TeamMember TeamMember.user

pub record State (db : Tables) : Type 0 where
  pub users : db.users.Content
  pub sessions : db.sessions.Content
  pub tokens : db.tokens.Content
  pub invites : db.invites.Content
  pub teams : db.teams.Content
  pub roles : db.roles.Content
  pub team_members : db.team_members.Content
  pub audit : Audit

-- The errors of the database that the operations come across: a row that is gone, and a row with
-- a key that there is already.
pub data DbError : Type 0 where
  not_found unique_violation : DbError

-- The crate `argon2` under the configuration `ARGON2_CONFIG`: a password is verified by hashing it
-- with the salt and comparing.
pub record Argon2 : Type 0 where
  pub hash_raw : String → List ℕ → List ℕ
  pub verify_raw : String → List ℕ → List ℕ → Bool
  pub verify_raw_iff :
      (password : String) (salt hash : List ℕ)
      → (verify_raw password salt hash ≡ true) ↔ (hash ≡ hash_raw password salt)

-- The crate `base64` under its configuration for URLs.
pub record Base64 : Type 0 where
  pub encode_config : List ℕ → String
  pub decode_config : String → Option (List ℕ)
  pub decode-encode : (data' : List ℕ) → decode_config (encode_config data') ≡ some data'

-- What identifiers are sealed with.
pub record Sealing : Type 0 where
  pub aead : Aead
  pub codec : Codec ℕ
  pub base64 : Base64

unfoldable pub is_user : ℕ → User → Bool
is_user id r = r.id == id

unfoldable pub has_email : String → User → Bool
has_email email r = str_eq r.email email

unfoldable pub is_invite : ℕ → Invite → Bool
is_invite id r = r.id == id

unfoldable pub is_for : String → Invite → Bool
is_for email r = str_eq r.email email

unfoldable pub is_token : ℕ → PasswordResetToken → Bool
is_token id r = r.id == id

unfoldable pub is_team : ℕ → Team → Bool
is_team id r = r.id == id

unfoldable pub is_role : ℕ → Role → Bool
is_role id r = r.id == id

unfoldable pub is_member : ℕ → ℕ → TeamMember → Bool
is_member team user r = r.team == team && r.user == user

-- `diesel::update(&row).set(…).get_result(db)`
unfoldable pub update_one :
    {Row : Type 0} {key : Row → ℕ} (table : Table Row key)
    → (Row → Bool)
    → (Row → Row)
    → table.Content
    → Result DbError (Row × table.Content)
update_one table p f rows = elim (table.find p (table.update p f rows)) [
  | none ↦ err not_found
  | some r ↦ ok (r, table.update p f rows)
]

module _ {db : Tables} where
  unfoldable pub log_in :
      {E : Type 0} → String → ℕ → String → Payload → State db → Result E (State db)
  log_in context context_id kind payload s =
      log_db context context_id kind payload s.audit >>= λ audit. ok (record s { audit = audit })

  unfoldable pub log_as : Actor → String → ℕ → String → Payload → State db → State db
  log_as actor context context_id kind payload s = record s {
    audit = log_db_actor actor context context_id kind payload s.audit;
  }

  -- `audit::with_actor`; a failed action leaves nothing behind, as the transaction around it ends.
  unfoldable pub with_actor :
      {E A : Type 0}
      → Actor
      → (State db → Result E (A × State db))
      → State db
      → Result E (A × State db)
  with_actor actor f s = f (record s { audit = record s.audit { actor = some actor } }) >>= λ out.
      ok (out.0, record out.1 { audit = record out.1.audit { actor = s.audit.actor } })
