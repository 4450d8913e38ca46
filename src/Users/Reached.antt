-- ===== src/Users/Reached.antt =====
-- Whatever happens to users, teams and invitations, their tables go on agreeing.
use adaptarr_server.Prelude.{
  ℕ, ◌≡◌, inl, inr, Option, none, Option-cases, String, List, ok, expect, >>=-eq-ok, subst,
}
use adaptarr_server.Drafts.{TeamMember}
use adaptarr_server.Audit.{nothing, user}
use adaptarr_server.Users.{
  User, Role, Argon2, Tables, State, is_user, is_invite, is_member, log_in, log_as, with_actor,
}
use adaptarr_server.Users.Accounts.{by_id}
use adaptarr_server.Users.Members.{Flags, Member, delete_member}
use adaptarr_server.Users.Tokens.{create_token}
use adaptarr_server.Users.Invites.{
  Invitation, FulfilInviteError, from_create, from_add, delete_invite, fulfil_new, fulfil_existing,
  invited_role, invited_user, join_team, join_logged,
}
use adaptarr_server.Users.Valid.{IsValid, delete_invite-IsValid, delete_member-IsValid}
use adaptarr_server.Users.Kept.{
  log_in-IsValid, set_name-IsValid, set_language-IsValid, change_password-IsValid,
}
use adaptarr_server.Users.Steps.{Step, Reach, start, later}
use adaptarr_server.Users.Steps
use adaptarr_server.Users.Renewed.{
  convert-eq-ok, with_actor-IsValid, create_user-IsValid, fulfil_token-IsValid,
}
use adaptarr_server.Users.Regrouped.{
  set_permissions-IsValid, set_role-IsValid, create_team-IsValid, set_team_name-IsValid,
  create_role-IsValid, delete_role-IsValid, set_role_name-IsValid, set_role_permissions-IsValid,
}
use adaptarr_server.Users.Joining.{
  create_invite-IsValid, create_for_existing-IsValid, add_member-IsValid,
}

module _ {db : Tables} where
  issued-IsValid :
      (now : ℕ) (u : User) (s : State db) → IsValid s → IsValid (create_token now u s).1
  unfolding create_token log_as
  issued-IsValid now u s valid = valid

  withdrawn-IsValid : (i : Invitation) (s : State db) → IsValid s → IsValid (delete_invite i s)
  unfolding delete_invite
  withdrawn-IsValid i s valid = delete_invite-IsValid s valid (is_invite i.invite.id)

  left-IsValid : (m : Member) (s : State db) → IsValid s → IsValid (delete_member m s)
  unfolding delete_member
  left-IsValid m s valid = delete_member-IsValid s valid (is_member m.member.team m.member.user)

module _ {db : Tables} (argon2 : Argon2) (flags : Flags) where
  join_team-IsValid :
      (i : Invitation) (u : User) (role : Option Role) (s : State db) (m : TeamMember)
      (t : State db)
      → db.users.Contains s.users u
      → IsValid s
      → join_team flags i u role s ≡ ok (m, t)
      → IsValid t
  unfolding join_team
  join_team-IsValid i u role s m t here valid e =
      add_member-IsValid i.team u _ role s m t here valid (convert-eq-ok from_add _ (m, t) e)

  known_user :
      (id : ℕ) (s : State db) (u : User)
      → expect {E = FulfilInviteError} (by_id id s) ≡ ok u
      → db.users.Contains s.users u
  unfolding expect by_id
  known_user id s u e = elim (Option-cases (by_id id s)) [
    | inl gone ↦ cc (rw (gone, expect) at e)
    | inr (v, found) ↦
        let same : v ≡ u = cc (rw (found, expect) at e) in
        subst (db.users.Contains s.users) same (db.users.find_some (is_user id) s.users v found).0
  ]

  invited_user-IsValid :
      (salt : List ℕ) (i : Invitation) (name password language : String) (s : State db) (u : User)
      (t : State db)
      → IsValid s
      → invited_user argon2 salt i name password language s ≡ ok (u, t)
      → IsValid t × db.users.Contains t.users u
  unfolding invited_user
  invited_user-IsValid salt i name password language s u t valid e =
      elim (Option-cases i.invite.user) [
        | inl new ↦
            create_user-IsValid argon2 salt none i.invite.email name password _ language s u t valid
              (convert-eq-ok from_create _ (u, t) (rw (new, invited_user) at e))
        | inr (id, old) ↦
            let (v, f, g) =
              >>=-eq-ok (expect (by_id id s)) _ (u, t) (rw (old, invited_user) at e) in
            let same : v ≡ u = cc g in
            let here : s ≡ t = cc g in
            (
              subst IsValid here valid,
              subst (λ r. db.users.Contains r.users u) here
                  (subst (db.users.Contains s.users) same (known_user id s v f)),
            )
      ]

  join_logged-IsValid :
      (i : Invitation) (u : User) (role : Option Role) (s : State db) (m : TeamMember)
      (t : State db)
      → db.users.Contains s.users u
      → IsValid s
      → join_logged flags i u role s ≡ ok (m, t)
      → IsValid t
  unfolding join_logged
  join_logged-IsValid i u role s m t here valid e =
      let (out, f, g) = >>=-eq-ok (join_team flags i u role s) _ (m, t) e in
      let (r, h, k) = >>=-eq-ok (log_in "invites" i.invite.id "fulfil" nothing out.1) _ (m, t) g in
      let last : r ≡ t = cc k in
      subst IsValid last (
        log_in-IsValid "invites" i.invite.id "fulfil" nothing out.1 r
          (join_team-IsValid i u role s out.0 out.1 here valid f) h)

  admitted-IsValid :
      (i : Invitation) (u : User) (role : Option Role) (s : State db)
      (joined : TeamMember × State db)
      → db.users.Contains s.users u
      → IsValid s
      → with_actor (user u.id) (join_logged flags i u role) s ≡ ok joined
      → IsValid (delete_invite i joined.1)
  unfolding delete_invite
  admitted-IsValid i u role s joined here valid e =
      delete_invite-IsValid joined.1
        (with_actor-IsValid (user u.id) (join_logged flags i u role) s joined.0 joined.1
          (λ r m. join_logged-IsValid i u role _ joined.0 r here valid m) e)
        (is_invite i.invite.id)

  fulfil_new-IsValid :
      (salt : List ℕ) (i : Invitation) (name password language : String) (s : State db) (u : User)
      (t : State db)
      → IsValid s
      → fulfil_new flags argon2 salt i name password language s ≡ ok (u, t)
      → IsValid t
  unfolding fulfil_new
  fulfil_new-IsValid salt i name password language s u t valid e =
      let (role, f, g) = >>=-eq-ok (invited_role i.invite.role s) _ (u, t) e in
      let (out, h, k) =
        >>=-eq-ok (invited_user argon2 salt i name password language s) _ (u, t) g in
      let (joined, j, l) = >>=-eq-ok _ (λ joined. ok (out.0, delete_invite i joined.1)) (u, t) k in
      let (ready, here) =
        invited_user-IsValid salt i name password language s out.0 out.1 valid h in
      let same : delete_invite i joined.1 ≡ t = cc l in
      subst IsValid same (admitted-IsValid i out.0 role out.1 joined here ready j)

  fulfil_existing-IsValid :
      (i : Invitation) (s : State db) (u : User) (t : State db)
      → IsValid s
      → fulfil_existing flags i s ≡ ok (u, t)
      → IsValid t
  unfolding fulfil_existing delete_invite log_as
  fulfil_existing-IsValid i s u t valid e =
      let (role, f, g) = >>=-eq-ok (invited_role i.invite.role s) _ (u, t) e in
      elim (Option-cases i.invite.user) [
        | inl new ↦ cc (g, new)
        | inr (id, old) ↦
            let (v, h, k) = >>=-eq-ok (expect (by_id id s)) _ (u, t) (rw old at g) in
            let (joined, j, l) = >>=-eq-ok (join_team flags i v role s) _ (u, t) k in
            let same : delete_invite i
                  (log_as (user v.id) "invites" i.invite.id "fulfil" nothing joined.1)
                ≡ t =
              cc l in
            subst IsValid same (
              delete_invite-IsValid joined.1
                (join_team-IsValid i v role s joined.0 joined.1 (known_user id s v h) valid j)
                (is_invite i.invite.id))
      ]

  -- Every call that succeeds keeps the tables of users, invitations and members agreeing.
  pub Step-IsValid : (s t : State db) → Step argon2 flags s t → IsValid s → IsValid t
  Step-IsValid s t (Steps.register salt actor email name password is_super language u e) valid =
      (create_user-IsValid argon2 salt actor email name password is_super language s u t valid e).0
  Step-IsValid s t (Steps.new_password salt u password v e) valid =
      change_password-IsValid argon2 salt u password s v t valid e
  Step-IsValid s t (Steps.new_name u name v e) valid = set_name-IsValid u name s v t valid e
  Step-IsValid s t (Steps.new_language u language v e) valid =
      set_language-IsValid u language s v t valid e
  Step-IsValid s t (Steps.request_reset now u) valid = issued-IsValid now u s valid
  Step-IsValid s t (Steps.reset salt token password v e) valid =
      fulfil_token-IsValid argon2 salt token password s v t valid e
  Step-IsValid s t (Steps.invite now team email role permissions i e) valid =
      create_invite-IsValid now team email role permissions s i t valid e
  Step-IsValid s t (Steps.invite_user now team role permissions u i e) valid =
      create_for_existing-IsValid now team role permissions u s i t valid e
  Step-IsValid s t (Steps.withdraw i) valid = withdrawn-IsValid i s valid
  Step-IsValid s t (Steps.join_new salt i name password language u e) valid =
      fulfil_new-IsValid salt i name password language s u t valid e
  Step-IsValid s t (Steps.join_existing i u e) valid = fulfil_existing-IsValid i s u t valid e
  Step-IsValid s t (Steps.join team u permissions role m here e) valid =
      add_member-IsValid team u permissions role s m t here valid e
  Step-IsValid s t (Steps.new_permissions m permissions n e) valid =
      set_permissions-IsValid m permissions s n t valid e
  Step-IsValid s t (Steps.new_role m role n e) valid = set_role-IsValid m role s n t valid e
  Step-IsValid s t (Steps.new_team name team e) valid = create_team-IsValid name s team t valid e
  Step-IsValid s t (Steps.new_team_name team name new e) valid =
      set_team_name-IsValid team name s new t valid e
  Step-IsValid s t (Steps.add_role team name permissions role e) valid =
      create_role-IsValid team name permissions s role t valid e
  Step-IsValid s t (Steps.remove_role in_slot role e) valid =
      delete_role-IsValid in_slot role s t valid e
  Step-IsValid s t (Steps.new_role_name role name new e) valid =
      set_role_name-IsValid role name s new t valid e
  Step-IsValid s t (Steps.new_role_permissions role permissions new e) valid =
      set_role_permissions-IsValid role permissions s new t valid e
  Step-IsValid s t (Steps.leave m) valid = left-IsValid m s valid

  -- In every state that calls on accounts, teams, roles, members and invitations reach from one in which the tables agree they agree.
  pub Reach-IsValid : (s t : State db) → Reach argon2 flags s t → IsValid s → IsValid t
  Reach-IsValid s t start valid = valid
  Reach-IsValid s t (later {t = m} before step) valid =
      Step-IsValid m t step (Reach-IsValid s m before valid)
