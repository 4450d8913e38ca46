-- ===== src/Users/Joining.antt =====
-- Invitations and new members keep the tables agreeing.
use adaptarr_server.Prelude.{
  ℕ, ◌+◌, ◌≡◌, ◌≢◌, ◌⊎◌, inl, inr, Option, none, some, Option-cases, String, ok, reject, ◌>>◌,
  >>=-eq-ok, refl, ap, subst,
}
use adaptarr_server.Drafts.{TeamMember}
use adaptarr_server.Audit.{Payload, log_db, add_member as log_add_member}
use adaptarr_server.Users.{User, Invite, Team, Role, Tables, State, is_member, log_in}
use adaptarr_server.Users.Accounts.{by_email}
use adaptarr_server.Users.Teams.{role_id, insert_member, add_member}
use adaptarr_server.Users.Invites.{
  Invitation, invite_duration, user_id, create_invite, create_for_existing, insert_invite,
}
use adaptarr_server.Users.Created.{no_account}
use adaptarr_server.Users.Valid.{IsValid, insert_invite-IsValid, insert_member-IsValid}
use adaptarr_server.Users.Kept.{log_in-IsValid}

module _ {db : Tables} where
  insert_invite-eq-ok :
      {E : Type 0} (now : ℕ) (team : Team) (email : String) (role : Option Role) (permissions : ℕ)
      (invited : Option User) (payload : Invite → Payload) (s : State db) (i : Invitation)
      (t : State db)
      → (user_id invited ≢ none) ⊎ ((v : User) → db.users.Contains s.users v → v.email ≢ email)
      → IsValid s
      → insert_invite {E = E} now team email role permissions invited payload s ≡ ok (i, t)
      → IsValid t
  unfolding insert_invite
  insert_invite-eq-ok now team email role permissions invited payload s i t free valid e =
      let row : Invite = record {
        id = db.invites.fresh s.invites;
        email = email;
        expires = now + invite_duration;
        role = role_id role;
        team = team.id;
        permissions = permissions;
        user = user_id invited;
      } in
      let (r, f, g) =
        >>=-eq-ok
          (log_in "invites" row.id "create" (payload row)
            (record s { invites = db.invites.insert row s.invites }))
          _ (i, t) e in
      let same : r ≡ t = cc g in
      subst IsValid same (
        log_in-IsValid "invites" row.id "create" (payload row) _ r
          (insert_invite-IsValid s valid row free) f)

  pub create_invite-IsValid :
      {E : Type 0} (now : ℕ) (team : Team) (email : String) (role : Option Role) (permissions : ℕ)
      (s : State db) (i : Invitation) (t : State db)
      → IsValid s
      → create_invite {E = E} now team email role permissions s ≡ ok (i, t)
      → IsValid t
  unfolding create_invite user_id
  create_invite-IsValid now team email role permissions s i t valid e =
      insert_invite-eq-ok now team email role permissions (by_email email s) _ s i t
        (elim (Option-cases (by_email email s)) [
          | inl free ↦ inr (λ v m same. (no_account email s).1 free (v, m, same))
          | inr (u, taken) ↦ inl (λ h. cc (rw taken at h))
        ])
        valid e

  pub create_for_existing-IsValid :
      {E : Type 0} (now : ℕ) (team : Team) (role : Option Role) (permissions : ℕ) (u : User)
      (s : State db) (i : Invitation) (t : State db)
      → IsValid s
      → create_for_existing {E = E} now team role permissions u s ≡ ok (i, t)
      → IsValid t
  unfolding create_for_existing user_id
  create_for_existing-IsValid now team role permissions u s i t valid e =
      insert_invite-eq-ok now team u.email role permissions (some u) _ s i t (inl (λ h. cc h)) valid
        e

  insert_member-eq-ok :
      (m : TeamMember) (u : User) (s t : State db)
      → db.users.Contains s.users u
      → u.id ≡ m.user
      → IsValid s
      → insert_member m s ≡ ok t
      → IsValid t
  unfolding insert_member
  insert_member-eq-ok m u s t here same valid e =
      elim (Option-cases (db.team_members.find (is_member m.team m.user) s.team_members)) [
        | inl free ↦
            let whole : record s { team_members = db.team_members.insert m s.team_members } ≡ t =
              cc (rw (free, insert_member) at e) in
            subst IsValid whole (insert_member-IsValid s valid m u here same)
        | inr (other, taken) ↦ cc (rw (taken, insert_member) at e)
      ]

  -- The users that a log entry leaves are the same.
  log_in-users :
      {E : Type 0} (context : String) (id : ℕ) (kind : String) (payload : Payload) (s t : State db)
      → log_in {E = E} context id kind payload s ≡ ok t
      → s.users ≡ t.users
  unfolding log_in
  log_in-users context id kind payload s t e =
      let (audit, f, g) = >>=-eq-ok (log_db context id kind payload s.audit) _ t e in
      let same : record s { audit = audit } ≡ t = cc g in ap State.users same

  pub add_member-IsValid :
      (team : Team) (u : User) (permissions : ℕ) (role : Option Role) (s : State db)
      (m : TeamMember) (t : State db)
      → db.users.Contains s.users u
      → IsValid s
      → add_member team u permissions role s ≡ ok (m, t)
      → IsValid t
  unfolding add_member
  add_member-IsValid team u permissions role s m t here valid e =
      let member : TeamMember = record {
        team = team.id;
        user = u.id;
        permissions = permissions;
        role = role_id role;
      } in
      let (r, f, g) = >>=-eq-ok (reject _ _ >> log_in _ _ _ _ s) _ (m, t) e in
      let (x, a, b) = >>=-eq-ok (reject _ _) _ r f in
      let (q, h, k) = >>=-eq-ok (insert_member member r) _ (m, t) g in
      let last : q ≡ t = cc k in
      subst IsValid last (
        insert_member-eq-ok member u r q
          (subst (λ us. db.users.Contains us u)
            (log_in-users "teams" team.id "add-member"
              (log_add_member u.id permissions (role_id role)) s r b)
            here)
          refl
          (log_in-IsValid "teams" team.id "add-member"
            (log_add_member u.id permissions (role_id role)) s r valid b)
          h)
