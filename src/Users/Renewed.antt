-- ===== src/Users/Renewed.antt =====
-- New users and reset passwords keep the tables agreeing.
use adaptarr_server.Prelude.{
  ℕ, ◌≡◌, inl, inr, Bool, Option, some, Option-cases, String, List, Result, ok, err, panic, stuck,
  >>=-eq-ok, refl, sym, subst,
}
use adaptarr_server.Audit.{Actor, nothing, user}
use adaptarr_server.Users.{User, PasswordResetToken, Argon2, Tables, State, log_as, with_actor}
use adaptarr_server.Users.Accounts.{by_id, create_user, change_password}
use adaptarr_server.Users.Tokens.{fulfil_token, convert, reset_error}
use adaptarr_server.Users.Created.{account, after_create, create_user_correct}
use adaptarr_server.Users.Valid.{IsValid, insert-IsValid}
use adaptarr_server.Users.Kept.{change_password-IsValid}

pub convert-eq-ok :
    {E F A : Type 0} (f : E → F) (m : Result E A) (a : A) → convert f m ≡ ok a → m ≡ ok a
unfolding convert
convert-eq-ok f (ok b) a e = cc e
convert-eq-ok f (err x) a e = cc e
convert-eq-ok f panic a e = cc e
convert-eq-ok f stuck a e = cc e

-- An action in the name of another actor.
pub with_actor-IsValid :
    {db : Tables} {E A : Type 0} (actor : Actor) (f : State db → Result E (A × State db))
    (s : State db) (a : A) (t : State db)
    → ((r : State db)
        → f (record s { audit = record s.audit { actor = some actor } }) ≡ ok (a, r)
        → IsValid r)
    → with_actor actor f s ≡ ok (a, t)
    → IsValid t
unfolding with_actor
with_actor-IsValid actor f s a t keeps e =
    let (out, g, h) =
      >>=-eq-ok (f (record s { audit = record s.audit { actor = some actor } })) _ (a, t) e in
    let whole : out.0 ≡ a = cc h in
    let same : record out.1 { audit = record out.1.audit { actor = s.audit.actor } } ≡ t = cc h in
    subst IsValid same (keeps out.1 (cc (g, whole)))

module _ {db : Tables} (argon2 : Argon2) where
  -- A new user is stored, and the tables agree.
  pub create_user-IsValid :
      (salt : List ℕ) (actor : Option ℕ) (email name password : String) (is_super : Bool)
      (language : String) (s : State db) (u : User) (t : State db)
      → IsValid s
      → create_user argon2 salt actor email name password is_super language s ≡ ok (u, t)
      → IsValid t × db.users.Contains t.users u
  unfolding log_as
  create_user-IsValid salt actor email name password is_super language s u t valid e =
      elim (create_user_correct argon2 salt actor email name password is_super language s) [
        | inl (n, refused) ↦ cc (e, refused)
        | inr (inl (n, p, refused)) ↦ cc (e, refused)
        | inr (inr (inl (n, p, taken, refused))) ↦ cc (e, refused)
        | inr (inr (inr (n, p, free, done, stored))) ↦
            let new : account argon2 salt actor email name password is_super language s ≡ u =
              cc (e, done) in
            let same : after_create argon2 salt actor email name password is_super language s ≡ t =
              cc (e, done) in
            (
              subst IsValid same (
                  insert-IsValid s valid
                    (account argon2 salt actor email name password is_super language s) refl
                    (λ v m taken. free (v, m, taken))),
              subst (λ r. db.users.Contains r.users u) same ((stored.users u).1 (inl (sym new))),
            )
      ]

  pub fulfil_token-IsValid :
      (salt : List ℕ) (token : PasswordResetToken) (password : String) (s : State db) (v : User)
      (t : State db)
      → IsValid s
      → fulfil_token argon2 salt token password s ≡ ok (v, t)
      → IsValid t
  unfolding fulfil_token log_as
  fulfil_token-IsValid salt token password s v t valid e =
      elim (Option-cases (by_id token.user s)) [
        | inl gone ↦ cc (rw (gone, fulfil_token) at e)
        | inr (u, found) ↦
            let (out, f, g) = >>=-eq-ok _ _ (v, t) (rw (found, fulfil_token) at e) in
            let same : log_as (user out.0.id) "password-reset-tokens" token.id
                  "fulfil-password-reset-token" nothing out.1
                ≡ t =
              cc g in
            subst IsValid same (
              with_actor-IsValid (user u.id) (change_password argon2 salt u password) s out.0 out.1
                (λ r h. change_password-IsValid argon2 salt u password _ out.0 r valid h)
                (convert-eq-ok reset_error _ out f))
      ]
