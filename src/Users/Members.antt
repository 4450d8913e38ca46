-- ===== src/Users/Members.antt =====
-- Members of a team and what they are permitted to do (team_member.rs).
use adaptarr_server.Prelude.{
  ℕ, ◌<◌, ◌≡◌, ◌&&◌, Option, none, some, Result, ok, err, reject, ◌>>◌, ◌>>=◌, ◌==◌, not,
}
use adaptarr_server.Drafts.{TeamMember}
use adaptarr_server.Permissions.{Bitflags, has}
use adaptarr_server.Permissions.Names.{all_flags}
use adaptarr_server.Audit.{set_permissions as log_permissions, set_role as log_role}
use adaptarr_server.Users.{Role, Tables, State, DbError, is_role, is_member, update_one, log_in}
use adaptarr_server.Users.Teams.{role_id, role_team}

pub data SetRoleError : Type 0 where
  database : DbError → SetRoleError
  bad_role : SetRoleError

-- One more operation of the crate `bitflags`: the bits that no flag has are dropped.
pub record Flags : Type 0 where
  pub sets : Bitflags
  pub from_bits_truncate : ℕ → ℕ → ℕ
  pub from_bits_truncate_bit :
      (all b k : ℕ) → k < 32 → has (from_bits_truncate all b) k ≡ (has all k && has b k)

-- A `TeamMember` of the source: the row, and the role that a left join finds.
pub record Member : Type 0 where
  pub member : TeamMember
  pub role : Option Role

-- `?` on an error of the database.
unfoldable pub in_database : {A : Type 0} → Result DbError A → Result SetRoleError A
in_database (ok a) = ok a
in_database (err e) = err (database e)
in_database Result.panic = Result.panic
in_database Result.stuck = Result.stuck

module _ (flags : Flags) where
  unfoldable pub role_permissions : Option Role → ℕ
  role_permissions none = 0
  role_permissions (some role) = flags.from_bits_truncate all_flags role.permissions

  unfoldable pub own_permissions : Member → ℕ
  own_permissions m = flags.from_bits_truncate all_flags m.member.permissions

  unfoldable pub permissions : Member → ℕ
  permissions m = flags.sets.union (own_permissions m) (role_permissions m.role)

module _ {db : Tables} where
  -- `roles.id = team_members.role` of a left join.
  unfoldable pub joined_role : Option ℕ → State db → Option Role
  joined_role none s = none
  joined_role (some id) s = db.roles.find (is_role id) s.roles

  unfoldable pub member_by_id : ℕ → ℕ → State db → Option Member
  member_by_id team user s = elim (db.team_members.find (is_member team user) s.team_members) [
    | none ↦ none
    | some row ↦ some (record { member = row; role = joined_role row.role s })
  ]

  unfoldable pub delete_member : Member → State db → State db
  delete_member m s = record s {
    team_members = db.team_members.delete (is_member m.member.team m.member.user) s.team_members;
  }

  unfoldable pub update_member :
      Member → (TeamMember → TeamMember) → State db → Result DbError (TeamMember × State db)
  update_member m f s =
      update_one db.team_members (is_member m.member.team m.member.user) f s.team_members >>= λ out.
      ok (out.0, record s { team_members = out.1 })

  unfoldable pub set_permissions : Member → ℕ → State db → Result DbError (Member × State db)
  set_permissions m permissions s =
      log_in "teams" m.member.team "set-member-permissions"
        (log_permissions m.member.user permissions) s
      >>= λ s. update_member m (λ r. record r { permissions = permissions }) s >>= λ out.
          ok (record m { member = out.0 }, out.1)

  unfoldable pub set_role :
      Member → Option Role → State db → Result SetRoleError (Member × State db)
  set_role m role s =
      reject (not (role_team role m.member.team == m.member.team)) bad_role
      >> log_in "teams" m.member.team "set-member-role" (log_role m.member.user (role_id role)) s
      >>= λ s. in_database (update_member m (λ r. record r { role = role_id role }) s) >>= λ out.
          ok (record { member = out.0; role = role }, out.1)
