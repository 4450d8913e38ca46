-- ===== src/Users/Invited.antt =====
-- An invitation of a new user from its making to its use (invite.rs).
use adaptarr_server.Prelude.{
  ℕ, ◌+◌, ◌≤◌, ◌<◌, ◌≡◌, ◌≢◌, ◌↔◌, inl, inr, ==_iff, true, false, some, none, Option, String, List,
  ok, err, expect, ◌>>=◌, length, ltb, refl, ap, ◌∙◌, arith,
}
use adaptarr_server.Storage.Joins.{find-some, find-none}
use adaptarr_server.Permissions.Names.{all_flags}
use adaptarr_server.Audit.{Actor, new_invite}
use adaptarr_server.Users.{
  User, Invite, Team, Role, Argon2, Sealing, Tables, State, DbError, is_invite, is_team, is_role,
  log_as,
}
use adaptarr_server.Users.Accounts.{by_email, authenticate}
use adaptarr_server.Users.Teams.{role_id, role_team}
use adaptarr_server.Users.Members.{Flags}
use adaptarr_server.Users.Tokens.{expired, get_code, read_code}
use adaptarr_server.Users.Invites.{
  Invitation, FulfilInviteError, invite_duration, user_id, insert_invite, create_invite,
  invite_from_id, invite_from_code, joined_user, invited_role, delete_invite, fulfil_new,
}
use adaptarr_server.Users.Created.{HasAccount, no_account, newest}
use adaptarr_server.Users.SignIn.{authenticate-ok}
use adaptarr_server.Users.Passwords.{log_in-actor}
use adaptarr_server.Users.Resets.{read_code-get_code}
use adaptarr_server.Users.Valid.{IsValid, insert_invite-IsValid}
use adaptarr_server.Users.Steps.{Reach, join_new}
use adaptarr_server.Users.Reached.{Step-IsValid, Reach-IsValid}
use adaptarr_server.Users.Admitted.{newcomer, admitted, membership, fulfil_new-ok}

is_invite_iff : (id : ℕ) (i : Invite) → (is_invite id i ≡ true) ↔ (i.id ≡ id)
unfolding is_invite
is_invite_iff id i = ==_iff i.id id

module _ {db : Tables} where
  module _ (now id : ℕ) (row : Invite) (s : State db) where
    valid :
        (team : Team)
        → db.invites.find (is_invite id) s.invites ≡ some row
        → db.teams.find (is_team row.team) s.teams ≡ some team
        → row.user ≡ none
        → now ≤ row.expires
        → invite_from_id now id s ≡ ok (record { invite = row; team = team; user = none })
    unfolding invite_from_id joined_user
    valid team e f new h =
        let late : ltb row.expires now ≡ false = grind (arith, h) in cc (e, f, late, new)

    too_late :
        (team : Team)
        → db.invites.find (is_invite id) s.invites ≡ some row
        → db.teams.find (is_team row.team) s.teams ≡ some team
        → row.expires < now
        → invite_from_id now id s ≡ err expired
    unfolding invite_from_id
    too_late team e f h =
        let late : ltb row.expires now ≡ true = grind (arith, h) in cc (e, f, late)

  no_invite :
      (now id : ℕ) (s : State db)
      → db.invites.find (is_invite id) s.invites ≡ none
      → invite_from_id now id s ≡ err expired
  unfolding invite_from_id
  no_invite now id s e = cc e

  same_role :
      {E : Type 0} (o : Option ℕ) (s t : State db)
      → s.roles ≡ t.roles
      → invited_role {E = E} o s ≡ invited_role o t
  unfolding invited_role
  same_role none s t e = refl
  same_role (some id) s t e =
      ap (λ rows. expect (db.roles.find (is_role id) rows) >>= λ r. ok (some r)) e

  by_code :
      (sealing : Sealing) (secret : List ℕ) (now : ℕ) (code : String) (id : ℕ) (s : State db)
      → read_code sealing secret code ≡ ok id
      → invite_from_code sealing secret now code s ≡ invite_from_id now id s
  unfolding invite_from_code
  by_code sealing secret now code id s e = rw e refl

  module _ (now : ℕ) (team : Team) (email : String) (role : Option Role) (permissions : ℕ)
      (actor : Actor) (s : State db) where
    abbrev row : Invite
    row = record {
      id = db.invites.fresh s.invites;
      email = email;
      expires = now + invite_duration;
      role = role_id role;
      team = team.id;
      permissions = permissions;
      user = none;
    }

    abbrev pub invitation : Invitation
    invitation = record { invite = row; team = team; user = none }

    abbrev pub issued : State db
    issued =
        log_as actor "invites" row.id "create" (new_invite email row.expires row.role)
          (record s { invites = db.invites.insert row s.invites })

    inserted :
        {E : Type 0}
        → s.audit.actor ≡ some actor
        → insert_invite {E = E} now team email role permissions none
            (λ r. new_invite email r.expires r.role)
            s
          ≡ ok (invitation, issued)
    unfolding insert_invite user_id
    inserted a =
        rw
          (log_in-actor "invites" row.id "create" (new_invite email row.expires row.role) actor
            (record s { invites = db.invites.insert row s.invites }) a)
          refl

    create_invite-ok :
        {E : Type 0}
        → s.audit.actor ≡ some actor
        → ¬ HasAccount email s
        → create_invite {E = E} now team email role permissions s ≡ ok (invitation, issued)
    unfolding create_invite
    create_invite-ok a free = rw ((no_account email s).0 free) (inserted a)

    only_row : (x : Invite) → db.invites.Contains issued.invites x → x.id ≡ row.id → x ≡ row
    unfolding log_as
    only_row x m same = elim ((db.invites.insert_iff row s.invites x).0 m) [
      | inl new ↦ new
      | inr old ↦ absurd (db.invites.fresh_lem s.invites x old same)
    ]

    found_row : db.invites.find (is_invite row.id) issued.invites ≡ some row
    unfolding log_as
    found_row =
        let (x, e, m, hit) =
          find-some db.invites (is_invite row.id) (db.invites.insert row s.invites) row
            ((db.invites.insert_iff row s.invites row).1 (inl refl))
            ((is_invite_iff row.id row).1 refl) in
        e ∙ ap some (only_row x m ((is_invite_iff row.id x).0 hit))

  -- What the end of a new user's invitation leaves.
  module _ (argon2 : Argon2) (flags : Flags) (salt : List ℕ) (i : Invitation)
      (name password language : String) (role : Option Role) (s : State db) where
    abbrev done : State db
    done = admitted argon2 flags salt i name password language role s

    abbrev someone : User
    someone = newcomer argon2 flags salt i name password language role s

    enrolled :
        db.team_members.Contains done.team_members
          (membership i.team someone (flags.from_bits_truncate all_flags i.invite.permissions) role)
    unfolding delete_invite log_as
    enrolled = (db.team_members.insert_iff _ s.team_members _).1 (inl refl)

    used : db.invites.find (is_invite i.invite.id) done.invites ≡ none
    unfolding delete_invite
    used =
        find-none db.invites (is_invite i.invite.id) done.invites
          (λ r m hit. cc (hit, ((db.invites.delete_iff (is_invite i.invite.id) _ r).0 m).1))

    signs_in :
        ¬ HasAccount i.invite.email s
        → (other : String)
        → (authenticate argon2 i.invite.email other done ≡ ok someone)
          ↔ (argon2.hash_raw password salt ≡ argon2.hash_raw other salt)
    unfolding delete_invite log_as by_email
    signs_in free other =
        let found = newest argon2 salt none i.invite.email name password false language s free in
        (
          λ e. ((authenticate-ok argon2 i.invite.email other done someone).0 e).1,
          λ e. (authenticate-ok argon2 i.invite.email other done someone).1 (found, e),
        )

  module _ (argon2 : Argon2) (flags : Flags) (sealing : Sealing) (secret nonce salt : List ℕ)
      (now soon late ever : ℕ) (team : Team) (email : String) (role : Option Role) (permissions : ℕ)
      (name password language : String) (actor : Actor) (s : State db) where
    abbrev end : State db
    end =
        admitted argon2 flags salt (invitation now team email role permissions actor s) name
          password language role (issued now team email role permissions actor s)

    -- Someone without an account is invited to a team, with a role of this team or none. The
    -- invitation has a code, which gives the invitation for seven days and afterwards has expired.
    -- Using it gives an account, a membership of the team with the permissions, less unknown bits,
    -- and the role; the password, and no other with a different hash, signs in; and from then on the
    -- code has expired at any time.
    pub create_invite-fulfil_new :
        length secret ≡ 32
        → length nonce ≡ 12
        → soon ≤ now + invite_duration
        → now + invite_duration < late
        → name ≢ ""
        → password ≢ ""
        → s.audit.actor ≡ some actor
        → IsValid s
        → ¬ HasAccount email s
        → db.teams.find (is_team team.id) s.teams ≡ some team
        → invited_role {E = FulfilInviteError} (role_id role) s ≡ ok role
        → role_team role team.id ≡ team.id
        → (i : Invitation) × (after : State db) × (code : String) × (u : User) × (last : State db)
          × (create_invite {E = DbError} now team email role permissions s ≡ ok (i, after))
          × (get_code sealing secret nonce i.invite.id ≡ ok code)
          × (invite_from_code sealing secret soon code after ≡ ok i)
          × (invite_from_code sealing secret late code after ≡ err expired)
          × (fulfil_new flags argon2 salt i name password language after ≡ ok (u, last))
          × db.team_members.Contains last.team_members
              (membership team u (flags.from_bits_truncate all_flags permissions) role)
          × ((other : String)
              → (authenticate argon2 email other last ≡ ok u)
                ↔ (argon2.hash_raw password salt ≡ argon2.hash_raw other salt))
          × (invite_from_code sealing secret ever code last ≡ err expired)
    unfolding log_as
    create_invite-fulfil_new k n h l named worded a agree free place known same =
        let i = invitation now team email role permissions actor s in
        let after = issued now team email role permissions actor s in
        let found = found_row now team email role permissions actor s in
        let (code, e, f) = read_code-get_code sealing secret nonce i.invite.id k n in
        (
          i,
          after,
          code,
          newcomer argon2 flags salt i name password language role after,
          end,
          create_invite-ok now team email role permissions actor s a free,
          e,
          by_code sealing secret soon code i.invite.id after f
              ∙ valid soon i.invite.id i.invite after team found place refl (omega (arith, h)),
          by_code sealing secret late code i.invite.id after f
              ∙ too_late late i.invite.id i.invite after team found place (omega (arith, l)),
          fulfil_new-ok argon2 flags salt i name password language role after refl named worded free
              (same_role (role_id role) after s refl ∙ known) same
              (insert_invite-IsValid s agree i.invite (inr (λ v m taken. free (v, m, taken)))),
          enrolled argon2 flags salt i name password language role after,
          signs_in argon2 flags salt i name password language role after free,
          by_code sealing secret ever code i.invite.id end f
              ∙ no_invite ever i.invite.id end
                  (used argon2 flags salt i name password language role after),
        )

  -- In every state that calls reach from one in which the tables agree, an invitation of a new user
  -- that is stored is used with success, when name and password are not empty and the role of the
  -- invitation, if it has one, is stored and is of the team; the address is never taken.
  pub Reach-fulfil_new :
      (argon2 : Argon2) (flags : Flags) (salt : List ℕ) (i : Invitation)
      (name password language : String) (role : Option Role) (s t : State db)
      → IsValid s
      → Reach argon2 flags s t
      → db.invites.Contains t.invites i.invite
      → i.invite.user ≡ none
      → name ≢ ""
      → password ≢ ""
      → invited_role {E = FulfilInviteError} i.invite.role t ≡ ok role
      → role_team role i.team.id ≡ i.team.id
      → (u : User) × (last : State db) × (fulfil_new flags argon2 salt i name password language t
          ≡ ok (u, last))
        × IsValid last
  Reach-fulfil_new argon2 flags salt i name password language role s t agree run here new named
        worded known same =
      let before = Reach-IsValid argon2 flags s t run agree in
      let u = newcomer argon2 flags salt i name password language role t in
      let last = admitted argon2 flags salt i name password language role t in
      let used =
        fulfil_new-ok argon2 flags salt i name password language role t new named worded
          (λ taken. before.invites i.invite taken.0 here new taken.1 taken.2) known same before in
      (
        u,
        last,
        used,
        Step-IsValid argon2 flags t last (join_new salt i name password language u used) before,
      )
