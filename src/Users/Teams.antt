-- ===== src/Users/Teams.antt =====
-- Teams and their roles (team.rs, role.rs).
use adaptarr_server.Prelude.{
  ℕ, Bool, Option, none, some, String, str_eq, List, Result, ok, err, reject, ◌>>◌, ◌>>=◌, ◌==◌,
  ◌&&◌, ◌||◌, not, true, false,
}
use adaptarr_server.Drafts.{TeamMember}
use adaptarr_server.Audit.{nothing, text, bits, new_role, add_member as log_add_member}
use adaptarr_server.Users.{
  User, Team, Role, Tables, State, DbError, unique_violation, is_role, is_team, is_member,
  update_one, log_in,
}

pub data AddMemberError : Type 0 where
  database : DbError → AddMemberError
  bad_role : AddMemberError

pub data CreateRoleError : Type 0 where
  duplicate : CreateRoleError

pub data DeleteRoleError : Type 0 where
  in_use : DeleteRoleError

-- The identifier of a role that may be missing, and the team it belongs to.
unfoldable pub role_id : Option Role → Option ℕ
role_id none = none
role_id (some r) = some r.id

unfoldable pub role_team : Option Role → ℕ → ℕ
role_team none team = team
role_team (some r) team = r.team

unfoldable pub refers_to : ℕ → Option ℕ → Bool
refers_to id none = false
refers_to id (some role) = role == id

abbrev is_some {ℓ} : {A : Type ℓ} → Option A → Bool
is_some none = false
is_some (some a) = true

module _ {db : Tables} where
  unfoldable pub create_team : String → State db → Result DbError (Team × State db)
  create_team name s =
      let team : Team = record { id = db.teams.fresh s.teams; name = name } in
      log_in "teams" team.id "create" (text name)
        (record s { teams = db.teams.insert team s.teams })
      >>= λ s. ok (team, s)

  unfoldable pub get_role : Team → ℕ → State db → Option Role
  get_role team id s = db.roles.find (λ r. r.id == id && r.team == team.id) s.roles

  unfoldable pub get_roles : Team → State db → List Role
  get_roles team s = db.roles.select (λ r. r.team == team.id) Role.id s.roles

  unfoldable pub get_members : Team → State db → List TeamMember
  get_members team s =
      db.team_members.select (λ r. r.team == team.id) TeamMember.user s.team_members

  unfoldable pub set_team_name : Team → String → State db → Result DbError (Team × State db)
  set_team_name team name s = log_in "teams" team.id "set-name" (text name) s >>= λ s.
      update_one db.teams (is_team team.id) (λ r. record r { name = name }) s.teams >>= λ out.
      ok (out.0, record s { teams = out.1 })

  -- `insert_into(team_members)`, whose key is the user and the team.
  unfoldable pub insert_member : TeamMember → State db → Result AddMemberError (State db)
  insert_member r s = elim (db.team_members.find (is_member r.team r.user) s.team_members) [
    | some other ↦ err (database unique_violation)
    | none ↦ ok (record s { team_members = db.team_members.insert r s.team_members })
  ]

  unfoldable pub add_member :
      Team → User → ℕ → Option Role → State db → Result AddMemberError (TeamMember × State db)
  add_member team u permissions role s =
      let member : TeamMember = record {
        team = team.id;
        user = u.id;
        permissions = permissions;
        role = role_id role;
      } in
      reject (not (role_team role team.id == team.id)) bad_role
      >> log_in "teams" team.id "add-member" (log_add_member u.id permissions (role_id role)) s
      >>= λ s. insert_member member s >>= λ s. ok (member, s)

  -- The columns `name` and `team` are unique together.
  unfoldable pub create_role :
      Team → String → ℕ → State db → Result CreateRoleError (Role × State db)
  create_role team name permissions s =
      let role : Role = record {
        id = db.roles.fresh s.roles;
        name = name;
        permissions = permissions;
        team = team.id;
      } in
      elim (db.roles.find (λ r. str_eq r.name name && r.team == team.id) s.roles) [
        | some other ↦ err duplicate
        | none ↦
            log_in "roles" role.id "create" (new_role name permissions)
              (record s { roles = db.roles.insert role s.roles })
            >>= λ s. ok (role, s)
      ]

  -- The database refuses to delete a role that members, invitations or slots of processes refer to;
  -- the argument says whether a slot does.
  unfoldable pub is_in_use : (ℕ → Bool) → ℕ → State db → Bool
  is_in_use in_slot id s =
      is_some (db.team_members.find (λ r. refers_to id r.role) s.team_members)
      || is_some (db.invites.find (λ r. refers_to id r.role) s.invites)
      || in_slot id

  unfoldable pub delete_role : (ℕ → Bool) → Role → State db → Result DeleteRoleError (State db)
  delete_role in_slot role s =
      reject (is_in_use in_slot role.id s) in_use
      >> log_in "roles" role.id "delete" nothing
          (record s { roles = db.roles.delete (is_role role.id) s.roles })

  unfoldable pub set_role_name : Role → String → State db → Result DbError (Role × State db)
  set_role_name role name s =
      update_one db.roles (is_role role.id) (λ r. record r { name = name }) s.roles >>= λ out.
      log_in "roles" role.id "set-name" (text name) (record s { roles = out.1 }) >>= λ s.
      ok (out.0, s)

  unfoldable pub set_role_permissions : Role → ℕ → State db → Result DbError (Role × State db)
  set_role_permissions role permissions s =
      update_one db.roles (is_role role.id) (λ r. record r { permissions = permissions }) s.roles
      >>= λ out.
          log_in "roles" role.id "set-permissions" (bits permissions) (record s { roles = out.1 })
          >>= λ s. ok (out.0, s)
