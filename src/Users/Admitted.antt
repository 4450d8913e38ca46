-- ===== src/Users/Admitted.antt =====
-- A new user joins a team by an invitation (invite.rs, team.rs).
use adaptarr_server.Prelude.{
  ℕ, ◌≡◌, ◌≢◌, false, Option, none, some, String, List, ok, reject, ◌==◌, ==_iff, not, parts, refl,
  ap, ◌∙◌,
}
use adaptarr_server.Storage.Joins.{find-none}
use adaptarr_server.Drafts.{TeamMember}
use adaptarr_server.Permissions.Names.{all_flags}
use adaptarr_server.Audit.{Actor, log_db_actor, user, nothing, add_member as log_add_member}
use adaptarr_server.Users.{User, Team, Role, Argon2, Tables, State, is_member, log_as, with_actor}
use adaptarr_server.Users.Teams.{AddMemberError, role_id, role_team, insert_member, add_member}
use adaptarr_server.Users.Members.{Flags}
use adaptarr_server.Users.Tokens.{convert}
use adaptarr_server.Users.Invites.{
  Invitation, FulfilInviteError, invited_role, invited_user, join_team, join_logged, delete_invite,
  fulfil_new,
}
use adaptarr_server.Users.Created.{HasAccount, no_account, account, after_create, create_user-ok}
use adaptarr_server.Users.Passwords.{log_in-actor}
use adaptarr_server.Users.Valid.{IsValid}

-- The row of a member.
abbrev pub membership : Team → User → ℕ → Option Role → TeamMember
membership team u permissions role = record {
  team = team.id;
  user = u.id;
  permissions = permissions;
  role = role_id role;
}

module _ {db : Tables} where
  module _ (team : Team) (u : User) (permissions : ℕ) (role : Option Role) (actor : Actor)
      (s : State db) where
    abbrev noted : State db
    noted =
        log_as actor "teams" team.id "add-member" (log_add_member u.id permissions (role_id role)) s

    abbrev pub after_add : State db
    after_add = record noted {
      team_members = db.team_members.insert (membership team u permissions role) s.team_members;
    }

    new_member :
        db.team_members.find (is_member team.id u.id) s.team_members ≡ none
        → insert_member (membership team u permissions role) noted ≡ ok after_add
    unfolding log_as insert_member
    new_member free = rw (free, insert_member)

    pub add_member-ok :
        s.audit.actor ≡ some actor
        → role_team role team.id ≡ team.id
        → db.team_members.find (is_member team.id u.id) s.team_members ≡ none
        → add_member team u permissions role s ≡ ok (membership team u permissions role, after_add)
    unfolding add_member reject
    add_member-ok a same free =
        let allowed : not (role_team role team.id == team.id) ≡ false =
          ap not ((==_iff (role_team role team.id) team.id).1 same) in
        let logged =
          log_in-actor {E = AddMemberError} "teams" team.id "add-member"
            (log_add_member u.id permissions (role_id role)) actor s a in
        cc (allowed, logged, new_member free)

  module _ (flags : Flags) (i : Invitation) (u : User) (role : Option Role) (actor : Actor)
      (s : State db) where
    abbrev pub granted : ℕ
    granted = flags.from_bits_truncate all_flags i.invite.permissions

    abbrev pub after_join : State db
    after_join =
        log_as actor "invites" i.invite.id "fulfil" nothing
          (after_add i.team u granted role actor s)

    pub join_team-ok :
        s.audit.actor ≡ some actor
        → role_team role i.team.id ≡ i.team.id
        → db.team_members.find (is_member i.team.id u.id) s.team_members ≡ none
        → join_team flags i u role s
          ≡ ok (membership i.team u granted role, after_add i.team u granted role actor s)
    unfolding join_team convert
    join_team-ok a same free = rw (add_member-ok i.team u granted role actor s a same free) refl

    join_logged-ok :
        s.audit.actor ≡ some actor
        → role_team role i.team.id ≡ i.team.id
        → db.team_members.find (is_member i.team.id u.id) s.team_members ≡ none
        → join_logged flags i u role s ≡ ok (membership i.team u granted role, after_join)
    unfolding join_logged log_as log_db_actor
    join_logged-ok a same free =
        let logged =
          log_in-actor {E = FulfilInviteError} "invites" i.invite.id "fulfil" nothing actor
            (after_add i.team u granted role actor s) a in
        cc (join_team-ok a same free, logged)

  -- A new user is a member of no team.
  no_member :
      (s : State db) (team id : ℕ)
      → IsValid s
      → id ≡ db.users.fresh s.users
      → db.team_members.find (is_member team id) s.team_members ≡ none
  unfolding is_member
  no_member s team id valid new =
      find-none db.team_members (is_member team id) s.team_members (λ m there hit.
        let (u, here, same) = valid.members m there in
        db.users.fresh_lem s.users u here
          (same ∙ (==_iff m.user id).0 (parts (m.team == team) (m.user == id) hit).1 ∙ new))

  module _ (argon2 : Argon2) (flags : Flags) (salt : List ℕ) (i : Invitation)
      (name password language : String) (role : Option Role) (s : State db) where
    abbrev pub newcomer : User
    newcomer = account argon2 salt none i.invite.email name password false language s

    abbrev registered : State db
    registered = after_create argon2 salt none i.invite.email name password false language s

    abbrev as_newcomer : State db
    as_newcomer = record registered {
      audit = record registered.audit { actor = some (user newcomer.id) };
    }

    abbrev pub admitted : State db
    admitted =
        let joined = after_join flags i newcomer role (user newcomer.id) as_newcomer in
        delete_invite i
          (record joined { audit = record joined.audit { actor = registered.audit.actor } })

    created :
        i.invite.user ≡ none
        → name ≢ ""
        → password ≢ ""
        → ¬ HasAccount i.invite.email s
        → invited_user argon2 salt i name password language s ≡ ok (newcomer, registered)
    unfolding invited_user convert
    created new n p free =
        let account_made =
          create_user-ok argon2 salt none i.invite.email name password false language s n p
            ((no_account i.invite.email s).0 free) in
        cc (new, account_made)

    in_name :
        role_team role i.team.id ≡ i.team.id
        → IsValid s
        → with_actor (user newcomer.id) (join_logged flags i newcomer role) registered
          ≡ ok (
            membership i.team newcomer
                (flags.from_bits_truncate all_flags i.invite.permissions)
                role,
            record (after_join flags i newcomer role (user newcomer.id) as_newcomer) {
              audit =
                  record (after_join flags i newcomer role (user newcomer.id) as_newcomer).audit {
                    actor = registered.audit.actor;
                  };
            },
          )
    unfolding with_actor log_as
    in_name same valid =
        rw
          (join_logged-ok flags i newcomer role (user newcomer.id) as_newcomer refl same
            (no_member s i.team.id newcomer.id valid refl))
          refl

    pub fulfil_new-ok :
        i.invite.user ≡ none
        → name ≢ ""
        → password ≢ ""
        → ¬ HasAccount i.invite.email s
        → invited_role {E = FulfilInviteError} i.invite.role s ≡ ok role
        → role_team role i.team.id ≡ i.team.id
        → IsValid s
        → fulfil_new flags argon2 salt i name password language s ≡ ok (newcomer, admitted)
    unfolding fulfil_new
    fulfil_new-ok new n p free known same valid =
        cc (known, created new n p free, in_name same valid)
