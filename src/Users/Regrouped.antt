-- ===== src/Users/Regrouped.antt =====
-- Calls on teams, roles and members leave the tables agreeing (team.rs, role.rs, team_member.rs).
use adaptarr_server.Prelude.{
  ℕ, ◌≡◌, Bool, Option, Option-cases, String, Result, ok, err, panic, stuck, reject, ◌>>◌, str_eq,
  ◌&&◌, ◌==◌, >>=-eq-ok, refl, sym, subst, ap, inl, inr, ◌∙◌, if_true, if_false, Bool-cases,
}
use adaptarr_server.Drafts.{TeamMember}
use adaptarr_server.Users.{
  Team, Role, Tables, State, DbError, is_role, is_member, update_one, log_in,
}
use adaptarr_server.Users.Teams.{
  create_team, set_team_name, create_role, delete_role, set_role_name, set_role_permissions,
}
use adaptarr_server.Users.Members.{Member, in_database, update_member, set_permissions, set_role}
use adaptarr_server.Users.Updates.{update_one-eq-ok}
use adaptarr_server.Users.Valid.{IsValid}
use adaptarr_server.Users.Kept.{log_in-IsValid}

in_database-eq-ok : {A : Type 0} (m : Result DbError A) (a : A) → in_database m ≡ ok a → m ≡ ok a
unfolding in_database
in_database-eq-ok (ok b) a e = cc e
in_database-eq-ok (err x) a e = cc e
in_database-eq-ok panic a e = cc e
in_database-eq-ok stuck a e = cc e

module _ {db : Tables} where
  -- A change of members that keeps their users.
  update_members-IsValid :
      (s : State db) (p : TeamMember → Bool) (f : TeamMember → TeamMember)
      → ((m : TeamMember) → (f m).user ≡ m.user)
      → IsValid s
      → IsValid (record s { team_members = db.team_members.update p f s.team_members })
  update_members-IsValid s p f same valid = record {
    ids = valid.ids;
    emails = valid.emails;
    invites = valid.invites;
    members = λ m there.
        let (x, old, e) = (db.team_members.update_iff p f s.team_members m).0 there in
        let (u, here, id) = valid.members x old in
        let kept : x.user ≡ m.user = elim (Bool-cases (p x)) [
          | inl hit ↦ sym (same x) ∙ ap TeamMember.user (sym (e ∙ if_true x hit))
          | inr miss ↦ ap TeamMember.user (sym (e ∙ if_false (f x) miss))
        ] in
        (u, here, id ∙ kept);
  }

  update_member-IsValid :
      (m : Member) (f : TeamMember → TeamMember) (s : State db) (r : TeamMember) (t : State db)
      → ((m : TeamMember) → (f m).user ≡ m.user)
      → IsValid s
      → update_member m f s ≡ ok (r, t)
      → IsValid t
  unfolding update_member
  update_member-IsValid m f s r t same valid e =
      let test = is_member m.member.team m.member.user in
      let (out, g, h) = >>=-eq-ok (update_one db.team_members test f s.team_members) _ (r, t) e in
      let rows = update_one-eq-ok db.team_members test f s.team_members out.0 out.1 g in
      let last : record s { team_members = out.1 } ≡ t = cc h in
      subst IsValid last (
        subst (λ ms. IsValid (record s { team_members = ms })) (sym rows)
          (update_members-IsValid s test f same valid))

  pub set_permissions-IsValid :
      (m : Member) (permissions : ℕ) (s : State db) (n : Member) (t : State db)
      → IsValid s
      → set_permissions m permissions s ≡ ok (n, t)
      → IsValid t
  unfolding set_permissions
  set_permissions-IsValid m permissions s n t valid e =
      let (r, f, g) = >>=-eq-ok (log_in _ _ _ _ s) _ (n, t) e in
      let (out, h, k) = >>=-eq-ok (update_member m _ r) _ (n, t) g in
      let last : out.1 ≡ t = cc k in
      subst IsValid last
        (update_member-IsValid m _ r out.0 out.1 (λ x. refl) (log_in-IsValid _ _ _ _ s r valid f) h)

  pub set_role-IsValid :
      (m : Member) (role : Option Role) (s : State db) (n : Member) (t : State db)
      → IsValid s
      → set_role m role s ≡ ok (n, t)
      → IsValid t
  unfolding set_role
  set_role-IsValid m role s n t valid e =
      let (r, f, g) = >>=-eq-ok (reject _ _ >> log_in _ _ _ _ _) _ (n, t) e in
      let (x, a, b) = >>=-eq-ok (reject _ _) _ r f in
      let (out, h, k) = >>=-eq-ok (in_database (update_member m _ r)) _ (n, t) g in
      let last : out.1 ≡ t = cc k in
      subst IsValid last (
        update_member-IsValid m _ r out.0 out.1 (λ x. refl) (log_in-IsValid _ _ _ _ s r valid b)
          (in_database-eq-ok _ out h))

  pub create_team-IsValid :
      (name : String) (s : State db) (team : Team) (t : State db)
      → IsValid s
      → create_team name s ≡ ok (team, t)
      → IsValid t
  unfolding create_team
  create_team-IsValid name s team t valid e =
      let (r, f, g) = >>=-eq-ok (log_in _ _ _ _ _) _ (team, t) e in
      let last : r ≡ t = cc g in
      let added = record s {
        teams = db.teams.insert (record { id = db.teams.fresh s.teams; name = name }) s.teams;
      } in
      subst IsValid last (log_in-IsValid _ _ _ _ added r valid f)

  pub set_team_name-IsValid :
      (team : Team) (name : String) (s : State db) (new : Team) (t : State db)
      → IsValid s
      → set_team_name team name s ≡ ok (new, t)
      → IsValid t
  unfolding set_team_name
  set_team_name-IsValid team name s new t valid e =
      let (r, f, g) = >>=-eq-ok (log_in _ _ _ _ s) _ (new, t) e in
      let (out, h, k) = >>=-eq-ok (update_one db.teams _ _ r.teams) _ (new, t) g in
      let last : record r { teams = out.1 } ≡ t = cc k in
      subst IsValid last (log_in-IsValid _ _ _ _ s r valid f)

  pub create_role-IsValid :
      (team : Team) (name : String) (permissions : ℕ) (s : State db) (role : Role) (t : State db)
      → IsValid s
      → create_role team name permissions s ≡ ok (role, t)
      → IsValid t
  unfolding create_role
  create_role-IsValid team name permissions s role t valid e =
      let new : Role = record {
        id = db.roles.fresh s.roles;
        name = name;
        permissions = permissions;
        team = team.id;
      } in
      elim (Option-cases (db.roles.find (λ r. str_eq r.name name && r.team == team.id) s.roles)) [
        | inr (other, found) ↦ cc (rw (found, create_role) at e)
        | inl free ↦
            let (r, f, g) =
              >>=-eq-ok (log_in _ _ _ _ _) _ (role, t) (rw (free, create_role) at e) in
            let last : r ≡ t = cc g in
            subst IsValid last
              (log_in-IsValid _ _ _ _ (record s { roles = db.roles.insert new s.roles }) r valid f)
      ]

  pub delete_role-IsValid :
      (in_slot : ℕ → Bool) (role : Role) (s t : State db)
      → IsValid s
      → delete_role in_slot role s ≡ ok t
      → IsValid t
  unfolding delete_role
  delete_role-IsValid in_slot role s t valid e =
      let (x, a, b) = >>=-eq-ok (reject _ _) _ t e in
      let rows = record s { roles = db.roles.delete (is_role role.id) s.roles } in
      log_in-IsValid _ _ _ _ rows t valid b

  pub set_role_name-IsValid :
      (role : Role) (name : String) (s : State db) (new : Role) (t : State db)
      → IsValid s
      → set_role_name role name s ≡ ok (new, t)
      → IsValid t
  unfolding set_role_name
  set_role_name-IsValid role name s new t valid e =
      let (out, h, k) = >>=-eq-ok (update_one db.roles _ _ s.roles) _ (new, t) e in
      let (r, f, g) = >>=-eq-ok (log_in _ _ _ _ _) _ (new, t) k in
      let last : r ≡ t = cc g in
      subst IsValid last (log_in-IsValid _ _ _ _ (record s { roles = out.1 }) r valid f)

  pub set_role_permissions-IsValid :
      (role : Role) (permissions : ℕ) (s : State db) (new : Role) (t : State db)
      → IsValid s
      → set_role_permissions role permissions s ≡ ok (new, t)
      → IsValid t
  unfolding set_role_permissions
  set_role_permissions-IsValid role permissions s new t valid e =
      let (out, h, k) = >>=-eq-ok (update_one db.roles _ _ s.roles) _ (new, t) e in
      let (r, f, g) = >>=-eq-ok (log_in _ _ _ _ _) _ (new, t) k in
      let last : r ≡ t = cc g in
      subst IsValid last (log_in-IsValid _ _ _ _ (record s { roles = out.1 }) r valid f)
