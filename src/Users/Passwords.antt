-- ===== src/Users/Passwords.antt =====
-- Changing a password ends sessions and tokens of the user (user.rs, password.rs).
use adaptarr_server.Prelude.{
  ℕ, ◌≡◌, ◌≢◌, ◌↔◌, inl, inr, ◌==◌, ==_iff, differ, true, some, none, Option, String, List, ok,
  reject, ◌>>=◌, refl, ap, ◌∙◌, expect,
}
use adaptarr_server.Storage.{Table}
use adaptarr_server.Storage.Joins.{find-some, find-none}
use adaptarr_server.Sessions.{Session, is_session, before_request}
use adaptarr_server.Sessions.SignIn.{no_session, same_id}
use adaptarr_server.Audit.{Actor, nothing, log_db, get_actor, Payload}
use adaptarr_server.Users.{
  User, PasswordResetToken, Argon2, Tables, State, is_user, has_email, log_in, log_as,
}
use adaptarr_server.Users.Accounts.{
  internally, by_email, update_user, change_password, authenticate,
}
use adaptarr_server.Users.Created.{has_email_iff, not_empty}
use adaptarr_server.Users.SignIn.{authenticate-ok}
use adaptarr_server.Users.Updates.{update-only, update_one-ok}

pub is_user_iff : (id : ℕ) (u : User) → (is_user id u ≡ true) ↔ (u.id ≡ id)
unfolding is_user
is_user_iff id u = ==_iff u.id id

-- What is left when the rows of a user are deleted.
pub kept_iff :
    {Row : Type 0} {key : Row → ℕ} (table : Table Row key) (owner : Row → ℕ) (id : ℕ)
    (rows : table.Content) (r : Row)
    → table.Contains (table.delete (λ x. owner x == id) rows) r
      ↔ (table.Contains rows r × (owner r ≢ id))
kept_iff table owner id rows r = (
  λ m.
      let (old, miss) = (table.delete_iff (λ x. owner x == id) rows r).0 m in
      (old, λ same. cc (miss, (==_iff (owner r) id).1 same)),
  λ h. (table.delete_iff (λ x. owner x == id) rows r).1 (h.0, differ (owner r) id h.1),
)

module _ {db : Tables} where
  -- The user is stored, and no other row has the identifier or the address.
  abbrev pub IsStored : State db → User → Type 0
  IsStored s u =
      db.users.Contains s.users u
      × ((r : User) → db.users.Contains s.users r → r.id ≡ u.id → r ≡ u)
      × ((r : User) → db.users.Contains s.users r → r.email ≡ u.email → r ≡ u)

  -- With an actor an entry of the log is written in its name.
  pub log_in-actor :
      {E : Type 0} (context : String) (id : ℕ) (kind : String) (payload : Payload) (actor : Actor)
      (s : State db)
      → s.audit.actor ≡ some actor
      → log_in {E = E} context id kind payload s ≡ ok (log_as actor context id kind payload s)
  unfolding log_in log_as log_db get_actor expect
  log_in-actor context id kind payload actor s e = cc e

  pub update_user-ok :
      (u : User) (f : User → User) (s : State db)
      → IsStored s u
      → (f u).id ≡ u.id
      → update_user u.id f s
        ≡ ok (f u, record s { users = db.users.update (is_user u.id) f s.users })
  unfolding update_user
  update_user-ok u f s (here, only, alone) same =
      rw
        (update_one-ok db.users (is_user u.id) f s.users u here ((is_user_iff u.id u).1 refl)
          ((is_user_iff u.id (f u)).1 same) (λ x m hit. only x m ((is_user_iff u.id x).0 hit)))
        refl

  module _ (argon2 : Argon2) (salt : List ℕ) (u : User) (password : String) (actor : Actor)
      (s : State db) where
    abbrev pub changed : User
    changed = record u { password = argon2.hash_raw password salt; salt = salt }

    -- The state in which the row of the user is updated.
    abbrev cleaned : State db
    cleaned = log_as actor "users" u.id "change-password" nothing (record s {
      tokens = db.tokens.delete (λ r. r.user == u.id) s.tokens;
      sessions = db.sessions.delete (λ r. r.user == u.id) s.sessions;
    })

    abbrev pub after_change : State db
    after_change = record cleaned {
      users =
          db.users.update (is_user u.id)
            (λ r. record r { password = argon2.hash_raw password salt; salt = salt }) s.users;
    }

    last_step :
        IsStored s u
        → internally (
            update_user u.id
              (λ r. record r { password = argon2.hash_raw password salt; salt = salt })
              cleaned)
          ≡ ok (changed, after_change)
    unfolding internally log_as
    last_step stored =
        rw
          (update_user-ok u
            (λ r. record r { password = argon2.hash_raw password salt; salt = salt }) cleaned stored
            refl)
          refl

    pub change_password-ok :
        password ≢ ""
        → s.audit.actor ≡ some actor
        → IsStored s u
        → change_password argon2 salt u password s ≡ ok (changed, after_change)
    unfolding change_password reject
    change_password-ok p e stored = rw (not_empty password p) (
        ap
          (λ m. m >>= λ t. internally (
            update_user u.id
              (λ r. record r { password = argon2.hash_raw password salt; salt = salt }) t))
          (log_in-actor "users" u.id "change-password" nothing actor
            (record s {
              tokens = db.tokens.delete (λ r. r.user == u.id) s.tokens;
              sessions = db.sessions.delete (λ r. r.user == u.id) s.sessions;
            })
            e)
        ∙ last_step stored)

    -- The row that the address gives is the changed one.
    found_changed : IsStored s u → by_email u.email after_change ≡ some changed
    unfolding by_email
    found_changed (here, only, alone) =
        let f : User → User =
          λ r. record r { password = argon2.hash_raw password salt; salt = salt } in
        let rows = db.users.update (is_user u.id) f s.users in
        let laws =
          update-only db.users (is_user u.id) f s.users u here ((is_user_iff u.id u).1 refl)
            (λ x m hit. only x m ((is_user_iff u.id x).0 hit)) in
        let (x, e, m, hit) =
          find-some db.users (has_email u.email) rows changed ((laws changed).1 (inl refl))
            ((has_email_iff u.email changed).1 refl) in
        let same : x ≡ changed = elim ((laws x).0 m) [
          | inl alike ↦ alike
          | inr (old, miss) ↦ absurd (
              cc (alone x old ((has_email_iff u.email x).0 hit), (is_user_iff u.id u).1 refl, miss))
        ] in
        e ∙ ap some same

    -- What holds after the change: the tokens and sessions of the user are gone, and of those of
    -- other users none is; the user signs in with the new password.
    pub record Changed : Type 0 where
      pub tokens :
          (r : PasswordResetToken)
          → db.tokens.Contains after_change.tokens r
            ↔ (db.tokens.Contains s.tokens r × (r.user ≢ u.id))
      pub sessions :
          (r : Session)
          → db.sessions.Contains after_change.sessions r
            ↔ (db.sessions.Contains s.sessions r × (r.user ≢ u.id))
      pub signs_in :
          (other : String)
          → (authenticate argon2 u.email other after_change ≡ ok changed)
            ↔ (argon2.hash_raw password salt ≡ argon2.hash_raw other salt)

    pub changed_after : IsStored s u → Changed
    unfolding log_as
    changed_after stored = record {
      tokens = λ r. kept_iff db.tokens PasswordResetToken.user u.id s.tokens r;
      sessions = λ r. kept_iff db.sessions Session.user u.id s.sessions r;
      signs_in = λ other. (
        λ e. ((authenticate-ok argon2 u.email other after_change changed).0 e).1,
        λ e.
            (authenticate-ok argon2 u.email other after_change changed).1 (found_changed stored, e),
      );
    }

    -- A user who is alone with an identifier and an address changes the password to one that is
    -- not empty: then this succeeds.
    pub change_password_correct :
        password ≢ ""
        → s.audit.actor ≡ some actor
        → IsStored s u
        → (change_password argon2 salt u password s ≡ ok (changed, after_change)) × Changed
    change_password_correct p e stored = (change_password-ok p e stored, changed_after stored)

    -- A change of the password signs the user out everywhere: it succeeds, and then a request with
    -- the cookie of a session of the user, whose identifier no other session has, gets no session.
    pub change_password-before_request :
        password ≢ ""
        → s.audit.actor ≡ some actor
        → IsStored s u
        → (unseal : ℕ → Option ℕ) (now cookie : ℕ) (ses : Session) → unseal cookie ≡ some ses.id
        → ses.user ≡ u.id
        → ((r : Session) → db.sessions.Contains s.sessions r → r.id ≡ ses.id → r ≡ ses)
        → (after : State db) × (change_password argon2 salt u password s ≡ ok (changed, after))
          × (before_request db.sessions unseal now
                (some cookie)
                (record { sessions = after.sessions; actor = none })
              ≡ (none, record { sessions = after.sessions; actor = none }))
    change_password-before_request p e stored unseal now cookie ses opens own only = (
      after_change,
      change_password-ok p e stored,
      no_session db.sessions unseal now cookie ses.id
          (record { sessions = after_change.sessions; actor = none }) opens
          (find-none db.sessions (is_session ses.id) after_change.sessions (λ r m hit.
            let (old, other) = ((changed_after stored).sessions r).0 m in
            other (ap Session.user (only r old (same_id db.sessions r ses.id hit)) ∙ own))),
    )
