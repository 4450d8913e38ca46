-- ===== src/Users/Valid.antt =====
-- When the tables of users, invitations and members agree.
use adaptarr_server.Prelude.{
  ℕ, ◌≡◌, ◌≢◌, ◌⊎◌, inl, inr, Bool, Bool-cases, none, refl, eq_iff, sym, ap, ◌∙◌, if_true, if_false,
  if◌then◌else◌,
}
use adaptarr_server.Drafts.{TeamMember}
use adaptarr_server.Users.{User, Invite, Tables, State, is_user, is_for}

-- Three tables that agree.
pub record Agrees (db : Tables) (us : db.users.Content) (is : db.invites.Content)
    (ms : db.team_members.Content) : Type 0 where
  -- No two users have an identifier or an address in common.
  pub ids : (u v : User) → db.users.Contains us u → db.users.Contains us v → u.id ≡ v.id → u ≡ v
  pub emails :
      (u v : User) → db.users.Contains us u → db.users.Contains us v → u.email ≡ v.email → u ≡ v
  -- An invitation that is not for a user is to an address without an account.
  pub invites :
      (i : Invite) (u : User)
      → db.invites.Contains is i
      → i.user ≡ none
      → db.users.Contains us u
      → u.email ≢ i.email
  -- The members of teams are users.
  pub members :
      (m : TeamMember)
      → db.team_members.Contains ms m
      → (u : User) × db.users.Contains us u × (u.id ≡ m.user)

module _ {db : Tables} where
  abbrev pub IsValid : State db → Type 0
  IsValid s = Agrees db s.users s.invites s.team_members

  module _ (s : State db) (valid : IsValid s) where
    -- A change of users that keeps identifiers and addresses.
    pub update-IsValid :
        (id : ℕ) (f : User → User)
        → ((u : User) → (f u).id ≡ u.id)
        → ((u : User) → (f u).email ≡ u.email)
        → IsValid (record s { users = db.users.update (is_user id) f s.users })
    update-IsValid id f ids emails =
        let g : User → User = λ u. if is_user id u then f u else u in
        let same_id : (u : User) → (g u).id ≡ u.id = λ u. elim (Bool-cases (is_user id u)) [
          | inl hit ↦ ap User.id (if_true u hit) ∙ ids u
          | inr miss ↦ ap User.id (if_false (f u) miss)
        ] in
        let same_email : (u : User) → (g u).email ≡ u.email = λ u.
          elim (Bool-cases (is_user id u)) [
            | inl hit ↦ ap User.email (if_true u hit) ∙ emails u
            | inr miss ↦ ap User.email (if_false (f u) miss)
          ] in
        record {
          ids = λ u v m n e.
              let (x, old_x, u_is) = (db.users.update_iff (is_user id) f s.users u).0 m in
              let (y, old_y, v_is) = (db.users.update_iff (is_user id) f s.users v).0 n in
              u_is
              ∙ ap g (
                  valid.ids x y old_x old_y
                    (sym (same_id x) ∙ sym (ap User.id u_is) ∙ e ∙ ap User.id v_is ∙ same_id y))
              ∙ sym v_is;
          emails = λ u v m n e.
              let (x, old_x, u_is) = (db.users.update_iff (is_user id) f s.users u).0 m in
              let (y, old_y, v_is) = (db.users.update_iff (is_user id) f s.users v).0 n in
              u_is
              ∙ ap g (
                  valid.emails x y old_x old_y (
                    sym (same_email x)
                    ∙ sym (ap User.email u_is)
                    ∙ e
                    ∙ ap User.email v_is
                    ∙ same_email y))
              ∙ sym v_is;
          invites = λ i u m e n same.
              let (x, old, u_is) = (db.users.update_iff (is_user id) f s.users u).0 n in
              valid.invites i x m e old (sym (same_email x) ∙ sym (ap User.email u_is) ∙ same);
          members = λ m n.
              let (x, old, e) = valid.members m n in
              (
                g x,
                (db.users.update_iff (is_user id) f s.users (g x)).1 (x, old, refl),
                same_id x ∙ e,
              );
        }

    -- A new user, with a new address, to which no invitation is left.
    pub insert-IsValid :
        (u : User)
        → u.id ≡ db.users.fresh s.users
        → ((v : User) → db.users.Contains s.users v → v.email ≢ u.email)
        → IsValid (record s {
          users = db.users.insert u s.users;
          invites = db.invites.delete (is_for u.email) s.invites;
        })
    unfolding is_for
    insert-IsValid u new free = record {
      ids = λ v w m n e. elim ((db.users.insert_iff u s.users v).0 m) [
        | inl a ↦ elim ((db.users.insert_iff u s.users w).0 n) [
          | inl b ↦ a ∙ sym b
          | inr y ↦ absurd (db.users.fresh_lem s.users w y (sym e ∙ ap User.id a ∙ new))
        ]
        | inr x ↦ elim ((db.users.insert_iff u s.users w).0 n) [
          | inl b ↦ absurd (db.users.fresh_lem s.users v x (e ∙ ap User.id b ∙ new))
          | inr y ↦ valid.ids v w x y e
        ]
      ];
      emails = λ v w m n e. elim ((db.users.insert_iff u s.users v).0 m) [
        | inl a ↦ elim ((db.users.insert_iff u s.users w).0 n) [
          | inl b ↦ a ∙ sym b
          | inr y ↦ absurd (free w y (sym e ∙ ap User.email a))
        ]
        | inr x ↦ elim ((db.users.insert_iff u s.users w).0 n) [
          | inl b ↦ absurd (free v x (e ∙ ap User.email b))
          | inr y ↦ valid.emails v w x y e
        ]
      ];
      invites = λ i v m e n same.
          let (old, miss) = (db.invites.delete_iff (is_for u.email) s.invites i).0 m in
          elim ((db.users.insert_iff u s.users v).0 n) [
            | inl a ↦ cc (miss, (eq_iff i.email u.email).1 (sym same ∙ ap User.email a))
            | inr x ↦ valid.invites i v old e x same
          ];
      members = λ m n.
          let (x, old, e) = valid.members m n in
          (x, (db.users.insert_iff u s.users x).1 (inr old), e);
    }

    pub insert_invite-IsValid :
        (i : Invite)
        → (i.user ≢ none) ⊎ ((v : User) → db.users.Contains s.users v → v.email ≢ i.email)
        → IsValid (record s { invites = db.invites.insert i s.invites })
    insert_invite-IsValid i free = record {
      ids = valid.ids;
      emails = valid.emails;
      members = valid.members;
      invites = λ j v m e n. elim ((db.invites.insert_iff i s.invites j).0 m) [
        | inl a ↦ λ same. elim free [
          | inl other ↦ other (sym (ap Invite.user a) ∙ e)
          | inr none_has ↦ none_has v n (same ∙ ap Invite.email a)
        ]
        | inr old ↦ valid.invites j v old e n
      ];
    }

    pub delete_invite-IsValid :
        (p : Invite → Bool) → IsValid (record s { invites = db.invites.delete p s.invites })
    delete_invite-IsValid p = record {
      ids = valid.ids;
      emails = valid.emails;
      members = valid.members;
      invites = λ j v m. valid.invites j v ((db.invites.delete_iff p s.invites j).0 m).0;
    }

    pub insert_member-IsValid :
        (m : TeamMember) (u : User)
        → db.users.Contains s.users u
        → u.id ≡ m.user
        → IsValid (record s { team_members = db.team_members.insert m s.team_members })
    insert_member-IsValid m u here same = record {
      ids = valid.ids;
      emails = valid.emails;
      invites = valid.invites;
      members = λ n there. elim ((db.team_members.insert_iff m s.team_members n).0 there) [
        | inl a ↦ (u, here, same ∙ sym (ap TeamMember.user a))
        | inr old ↦ valid.members n old
      ];
    }

    pub delete_member-IsValid :
        (p : TeamMember → Bool)
        → IsValid (record s { team_members = db.team_members.delete p s.team_members })
    delete_member-IsValid p = record {
      ids = valid.ids;
      emails = valid.emails;
      invites = valid.invites;
      members =
          λ n there. valid.members n ((db.team_members.delete_iff p s.team_members n).0 there).0;
    }
