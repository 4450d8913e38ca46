-- ===== src/Users/Created.antt =====
-- Creating a user and signing in (user.rs).
use adaptarr_server.Prelude.{
  ℕ, ◌≡◌, ◌≢◌, ◌↔◌, ◌⊎◌, inl, inr, Bool, true, false, Bool-cases, Option, none, some, Option-cases,
  String, eq_iff, List, Result, ok, err, reject, refl, ap, ◌∙◌,
}
use adaptarr_server.Storage.Joins.{find-some, find-none}
use adaptarr_server.Validate.Names.{is_empty, is_empty_iff}
use adaptarr_server.Sessions.{or_else}
use adaptarr_server.Audit.{user, new_user}
use adaptarr_server.Users.{User, Invite, Argon2, Tables, State, has_email, is_for, log_as}
use adaptarr_server.Users.Accounts.{
  CreateUserError, duplicate, empty_name, by_email, insert_user, create_user,
}

pub has_email_iff : (email : String) (u : User) → (has_email email u ≡ true) ↔ (u.email ≡ email)
unfolding has_email
has_email_iff email u = eq_iff u.email email

pub is_for_iff : (email : String) (i : Invite) → (is_for email i ≡ true) ↔ (i.email ≡ email)
unfolding is_for
is_for_iff email i = eq_iff i.email email

pub not_empty : (s : String) → s ≢ "" → is_empty s ≡ false
not_empty s h = elim (Bool-cases (is_empty s)) [
  | inl e ↦ absurd (h ((is_empty_iff s).0 e))
  | inr e ↦ e
]

empty-cases : (s : String) → (s ≡ "") ⊎ (s ≢ "")
empty-cases s = elim (Bool-cases (is_empty s)) [
  | inl e ↦ inl ((is_empty_iff s).0 e)
  | inr e ↦ inr (λ h. cc ((is_empty_iff s).1 h, e))
]

if_not : (b : Bool) → ¬ (b ≡ true) → b ≡ false
if_not true h = absurd (h refl)
if_not false h = refl

module _ {db : Tables} where
  -- A user with the address is stored.
  abbrev pub HasAccount : String → State db → Type 0
  HasAccount email s = (u : User) × db.users.Contains s.users u × (u.email ≡ email)

  pub no_account :
      (email : String) (s : State db) → (¬ HasAccount email s) ↔ (by_email email s ≡ none)
  unfolding by_email
  no_account email s = (
    λ free.
        find-none db.users (has_email email) s.users
          (λ r m hit. free (r, m, (has_email_iff email r).0 hit)),
    λ e h. absurd (
        cc (
          db.users.find_none (has_email email) s.users h.0 e h.1,
          (has_email_iff email h.0).1 h.2,
        )),
  )

  account_of :
      (email : String) (s : State db) (u : User) → by_email email s ≡ some u → HasAccount email s
  unfolding by_email
  account_of email s u e =
      let (here, hit) = db.users.find_some (has_email email) s.users u e in
      (u, here, (has_email_iff email u).0 hit)

  -- An insertion into the table of users, by whether the address is free.
  free_address :
      (u : User) (s : State db)
      → by_email u.email s ≡ none
      → insert_user u s ≡ ok (u, record s { users = db.users.insert u s.users })
  unfolding insert_user
  free_address u s e = rw (e, insert_user)

  taken_address :
      (u other : User) (s : State db)
      → by_email u.email s ≡ some other
      → insert_user u s ≡ err duplicate
  unfolding insert_user
  taken_address u other s e = rw (e, insert_user)

  pub same_address :
      (email : String) (s t : State db) → s.users ≡ t.users → by_email email s ≡ by_email email t
  unfolding by_email
  same_address email s t e = ap (db.users.find (has_email email)) e

  module _ (argon2 : Argon2) (salt : List ℕ) (actor : Option ℕ) (email name password : String)
      (is_super : Bool) (language : String) (s : State db) where
    -- The row of the new user.
    abbrev pub account : User
    account = record {
      id = db.users.fresh s.users;
      email = email;
      name = name;
      password = argon2.hash_raw password salt;
      salt = salt;
      is_super = is_super;
      language = language;
    }

    -- The user is stored, invitations to the address are gone, and the log has an entry.
    abbrev pub after_create : State db
    after_create =
        log_as (user (or_else actor account.id)) "users" account.id "create"
          (new_user email name is_super language)
          (record s {
            users = db.users.insert account s.users;
            invites = db.invites.delete (is_for email) s.invites;
          })

    -- The state in which the row is inserted.
    abbrev swept : State db
    swept = record s { invites = db.invites.delete (is_for email) s.invites }

    abbrev run : Result CreateUserError (User × State db)
    run = create_user argon2 salt actor email name password is_super language s

    pub create_user-ok :
        name ≢ "" → password ≢ "" → by_email email s ≡ none → run ≡ ok (account, after_create)
    unfolding create_user reject
    create_user-ok n p free = rw (
      not_empty name n,
      not_empty password p,
      free_address account swept (same_address email swept s refl ∙ free),
    )

    refused_name : name ≡ "" → run ≡ err empty_name
    unfolding create_user reject
    refused_name e = rw ((is_empty_iff name).1 e)

    refused_password : name ≢ "" → password ≡ "" → run ≡ err CreateUserError.empty_password
    unfolding create_user reject
    refused_password n e = rw (not_empty name n, (is_empty_iff password).1 e)

    refused_email :
        (u : User) → name ≢ "" → password ≢ "" → by_email email s ≡ some u → run ≡ err duplicate
    unfolding create_user reject
    refused_email u n p e = rw (
      not_empty name n,
      not_empty password p,
      taken_address account u swept (same_address email swept s refl ∙ e),
    )

    -- What is stored when the account is new.
    pub record Stored : Type 0 where
      pub users :
          (u : User)
          → db.users.Contains after_create.users u ↔ ((u ≡ account) ⊎ db.users.Contains s.users u)
      pub invites :
          (i : Invite)
          → db.invites.Contains after_create.invites i
            ↔ (db.invites.Contains s.invites i × (i.email ≢ email))

    stored : Stored
    unfolding log_as
    stored = record {
      users = λ u. db.users.insert_iff account s.users u;
      invites = λ i. (
        λ m.
            let d = (db.invites.delete_iff (is_for email) s.invites i).0 m in
            (d.0, λ same. cc (d.1, (is_for_iff email i).1 same)),
        λ h.
            (db.invites.delete_iff (is_for email) s.invites i).1
              (h.0, if_not (is_for email i) (λ hit. h.1 ((is_for_iff email i).0 hit))),
      );
    }

    pub newest : ¬ HasAccount email s → by_email email after_create ≡ some account
    unfolding by_email log_as
    newest free =
        let users = db.users.insert account s.users in
        let (x, e, there, hit) =
          find-some db.users (has_email email) users account ((stored.users account).1 (inl refl))
            ((has_email_iff email account).1 refl) in
        let same : x ≡ account = elim ((stored.users x).0 there) [
          | inl e ↦ e
          | inr old ↦ absurd (free (x, old, (has_email_iff email x).0 hit))
        ] in
        e ∙ ap some same

    -- Creating a user is refused for an empty name, an empty password and an address that has an
    -- account, in this order. Otherwise it gives the new account, which is stored beside the others,
    -- and of the invitations exactly those to other addresses remain.
    pub create_user_correct :
        ((name ≡ "") × (run ≡ err empty_name))
        ⊎ (((name ≢ "") × (password ≡ "") × (run ≡ err CreateUserError.empty_password))
            ⊎ (((name ≢ "") × (password ≢ "") × HasAccount email s × (run ≡ err duplicate))
                ⊎ ((name ≢ "")
                    × (password ≢ "")
                    × (¬ HasAccount email s)
                    × (run ≡ ok (account, after_create))
                    × Stored)))
    create_user_correct = elim (empty-cases name) [
      | inl e ↦ inl (e, refused_name e)
      | inr n ↦ elim (empty-cases password) [
        | inl e ↦ inr (inl (n, e, refused_password n e))
        | inr p ↦ elim (Option-cases (by_email email s)) [
          | inl free ↦
              inr (inr (inr (n, p, (no_account email s).1 free, create_user-ok n p free, stored)))
          | inr (u, taken) ↦
              inr (inr (inl (n, p, account_of email s u taken, refused_email u n p taken)))
        ]
      ]
    ]
