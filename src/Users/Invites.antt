-- ===== src/Users/Invites.antt =====
-- Invitations to a team (invite.rs). The mail that carries the code of an invitation is left out.
use adaptarr_server.Prelude.{
  ℕ, ◌+◌, ◌*◌, Bool, true, false, Option, none, some, String, List, Result, ok, err, expect, ◌>>=◌,
  ltb, if◌then◌else◌,
}
use adaptarr_server.Permissions.Names.{all_flags}
use adaptarr_server.Drafts.{TeamMember}
use adaptarr_server.Audit.{Payload, user, nothing, new_invite, new_team_invite}
use adaptarr_server.Users.{
  User, Invite, Team, Role, Argon2, Sealing, Tables, State, is_invite, is_role, is_team, with_actor,
  log_as, log_in,
}
use adaptarr_server.Users.Accounts.{CreateUserError, by_id, by_email, create_user}
use adaptarr_server.Users.Teams.{AddMemberError, role_id, add_member}
use adaptarr_server.Users.Members.{Flags}
use adaptarr_server.Users.Tokens.{FromCodeError, expired, convert, read_code}

pub data FulfilInviteError : Type 0 where
  from_create : CreateUserError → FulfilInviteError
  from_add : AddMemberError → FulfilInviteError
  no_user : FulfilInviteError

-- An `Invite` of the source: the row, the team, and the user if there is one already.
pub record Invitation : Type 0 where
  pub invite : Invite
  pub team : Team
  pub user : Option User

-- Seven days.
abbrev pub invite_duration : ℕ
invite_duration = 7 * 86400

unfoldable pub user_id : Option User → Option ℕ
user_id none = none
user_id (some u) = some u.id

unfoldable pub is_for_existing : Invitation → Bool
is_for_existing i = elim i.user [ none ↦ false | some u ↦ true ]

module _ {db : Tables} where
  -- `insert_into(invites)`; the payload of the audit log is made from the new row.
  unfoldable pub insert_invite :
      {E : Type 0}
      → ℕ
      → Team
      → String
      → Option Role
      → ℕ
      → Option User
      → (Invite → Payload)
      → State db
      → Result E (Invitation × State db)
  insert_invite now team email role permissions invited payload s =
      let row : Invite = record {
        id = db.invites.fresh s.invites;
        email = email;
        expires = now + invite_duration;
        role = role_id role;
        team = team.id;
        permissions = permissions;
        user = user_id invited;
      } in
      log_in "invites" row.id "create" (payload row)
        (record s { invites = db.invites.insert row s.invites })
      >>= λ s. ok (record { invite = row; team = team; user = invited }, s)

  unfoldable pub create_invite :
      {E : Type 0}
      → ℕ
      → Team
      → String
      → Option Role
      → ℕ
      → State db
      → Result E (Invitation × State db)
  create_invite now team email role permissions s =
      insert_invite now team email role permissions (by_email email s)
        (λ r. new_invite email r.expires r.role) s

  unfoldable pub create_for_existing :
      {E : Type 0} → ℕ → Team → Option Role → ℕ → User → State db → Result E (Invitation × State db)
  create_for_existing now team role permissions u s =
      insert_invite now team u.email role permissions (some u)
        (λ r. new_team_invite r.expires r.role u.id) s

  -- `inner_join(teams).left_join(users)`
  unfoldable pub joined_user : Option ℕ → State db → Option User
  joined_user none s = none
  joined_user (some id) s = by_id id s

  unfoldable pub invite_from_id : ℕ → ℕ → State db → Result FromCodeError Invitation
  invite_from_id now id s = elim (db.invites.find (is_invite id) s.invites) [
    | none ↦ err expired
    | some row ↦ elim (db.teams.find (is_team row.team) s.teams) [
      | none ↦ err expired
      | some team ↦
          if ltb row.expires now
          then err expired
          else ok (record { invite = row; team = team; user = joined_user row.user s })
    ]
  ]

  unfoldable pub invite_from_code :
      Sealing → List ℕ → ℕ → String → State db → Result FromCodeError Invitation
  invite_from_code sealing secret now code s =
      read_code sealing secret code >>= λ id. invite_from_id now id s

  unfoldable pub delete_invite : Invitation → State db → State db
  delete_invite i s = record s { invites = db.invites.delete (is_invite i.invite.id) s.invites }

  -- `Option::<Role>::by_id(…).assert_exists()` panics when the role is gone.
  unfoldable pub invited_role : {E : Type 0} → Option ℕ → State db → Result E (Option Role)
  invited_role none s = ok none
  invited_role (some id) s = expect (db.roles.find (is_role id) s.roles) >>= λ r. ok (some r)

  unfoldable pub invited_user :
      Argon2
      → List ℕ
      → Invitation
      → String
      → String
      → String
      → State db
      → Result FulfilInviteError (User × State db)
  invited_user argon2 salt i name password language s = elim i.invite.user [
    | none ↦
        convert from_create
          (create_user argon2 salt none i.invite.email name password false language s)
    | some id ↦ expect (by_id id s) >>= λ u. ok (u, s)
  ]

  module _ (flags : Flags) where
    -- The user joins the team, inside of `with_actor`.
    unfoldable pub join_team :
        Invitation
        → User
        → Option Role
        → State db
        → Result FulfilInviteError (TeamMember × State db)
    join_team i u role s =
        convert from_add
          (add_member i.team u (flags.from_bits_truncate all_flags i.invite.permissions) role s)

    unfoldable pub join_logged :
        Invitation
        → User
        → Option Role
        → State db
        → Result FulfilInviteError (TeamMember × State db)
    join_logged i u role s = join_team i u role s >>= λ joined.
        log_in "invites" i.invite.id "fulfil" nothing joined.1 >>= λ s. ok (joined.0, s)

    unfoldable pub fulfil_new :
        Argon2
        → List ℕ
        → Invitation
        → String
        → String
        → String
        → State db
        → Result FulfilInviteError (User × State db)
    fulfil_new argon2 salt i name password language s = invited_role i.invite.role s >>= λ role.
        invited_user argon2 salt i name password language s >>= λ out.
        with_actor (user out.0.id) (join_logged i out.0 role) out.1 >>= λ joined.
        ok (out.0, delete_invite i joined.1)

    unfoldable pub fulfil_existing :
        Invitation → State db → Result FulfilInviteError (User × State db)
    fulfil_existing i s = invited_role i.invite.role s >>= λ role. elim i.invite.user [
      | none ↦ err no_user
      | some id ↦ expect (by_id id s) >>= λ u. join_team i u role s >>= λ joined.
          ok (
            u,
            delete_invite i (log_as (user u.id) "invites" i.invite.id "fulfil" nothing joined.1),
          )
    ]
