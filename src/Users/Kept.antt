-- ===== src/Users/Kept.antt =====
-- The tables of users, invitations and members go on agreeing.
use adaptarr_server.Prelude.{
  ℕ, ◌≡◌, String, List, Result, ok, err, panic, stuck, reject, ◌>>◌, >>=-eq-ok, refl, sym, subst,
}
use adaptarr_server.Audit.{Payload, nothing, text, log_db}
use adaptarr_server.Users.{User, Argon2, Tables, State, DbError, update_one, is_user, log_in}
use adaptarr_server.Users.Accounts.{
  update_user, change_password, internally, set_name, set_language,
}
use adaptarr_server.Users.Updates.{update_one-eq-ok}
use adaptarr_server.Users.Valid.{IsValid, update-IsValid}

internally-eq-ok : {A : Type 0} (m : Result DbError A) (a : A) → internally m ≡ ok a → m ≡ ok a
unfolding internally
internally-eq-ok (ok b) a e = cc e
internally-eq-ok (err x) a e = cc e
internally-eq-ok panic a e = cc e
internally-eq-ok stuck a e = cc e

module _ {db : Tables} where
  -- An entry of the log changes no table.
  pub log_in-IsValid :
      {E : Type 0} (context : String) (id : ℕ) (kind : String) (payload : Payload) (s t : State db)
      → IsValid s
      → log_in {E = E} context id kind payload s ≡ ok t
      → IsValid t
  unfolding log_in
  log_in-IsValid context id kind payload s t valid e =
      let (audit, f, g) = >>=-eq-ok (log_db context id kind payload s.audit) _ t e in
      let same : record s { audit = audit } ≡ t = cc g in subst IsValid same valid

  -- What an update of one user that succeeds leaves.
  update_user-IsValid :
      (id : ℕ) (f : User → User) (s : State db) (u : User) (t : State db)
      → ((v : User) → (f v).id ≡ v.id)
      → ((v : User) → (f v).email ≡ v.email)
      → IsValid s
      → update_user id f s ≡ ok (u, t)
      → IsValid t
  unfolding update_user
  update_user-IsValid id f s u t ids emails valid e =
      let (out, g, h) = >>=-eq-ok (update_one db.users (is_user id) f s.users) _ (u, t) e in
      let rows = update_one-eq-ok db.users (is_user id) f s.users out.0 out.1 g in
      let same : record s { users = out.1 } ≡ t = cc h in
      subst IsValid same (
        subst (λ us. IsValid (record s { users = us })) (sym rows)
          (update-IsValid s valid id f ids emails))

  pub set_name-IsValid :
      (u : User) (name : String) (s : State db) (v : User) (t : State db)
      → IsValid s
      → set_name u name s ≡ ok (v, t)
      → IsValid t
  unfolding set_name
  set_name-IsValid u name s v t valid e =
      let (out, f, g) = >>=-eq-ok (update_user u.id (λ r. record r { name = name }) s) _ (v, t) e in
      let (r, h, k) = >>=-eq-ok (log_in "users" u.id "set-name" (text name) out.1) _ (v, t) g in
      let last : r ≡ t = cc k in
      subst IsValid last (
        log_in-IsValid "users" u.id "set-name" (text name) out.1 r
          (update_user-IsValid u.id _ s out.0 out.1 (λ w. refl) (λ w. refl) valid f) h)

  pub set_language-IsValid :
      (u : User) (language : String) (s : State db) (v : User) (t : State db)
      → IsValid s
      → set_language u language s ≡ ok (v, t)
      → IsValid t
  unfolding set_language
  set_language-IsValid u language s v t valid e =
      let (out, f, g) =
        >>=-eq-ok (update_user u.id (λ r. record r { language = language }) s) _ (v, t) e in
      let (r, h, k) =
        >>=-eq-ok (log_in "users" u.id "change-language" (text language) out.1) _ (v, t) g in
      let last : r ≡ t = cc k in
      subst IsValid last (
        log_in-IsValid "users" u.id "change-language" (text language) out.1 r
          (update_user-IsValid u.id _ s out.0 out.1 (λ w. refl) (λ w. refl) valid f) h)

  pub change_password-IsValid :
      (argon2 : Argon2) (salt : List ℕ) (u : User) (password : String) (s : State db) (v : User)
      (t : State db)
      → IsValid s
      → change_password argon2 salt u password s ≡ ok (v, t)
      → IsValid t
  unfolding change_password
  change_password-IsValid argon2 salt u password s v t valid e =
      let (r, f, g) = >>=-eq-ok (reject _ _ >> log_in _ _ _ _ _) _ (v, t) e in
      let (x, a, b) = >>=-eq-ok (reject _ _) _ r f in
      update_user-IsValid u.id _ r v t (λ w. refl) (λ w. refl)
        (log_in-IsValid "users" u.id "change-password" nothing _ r valid b)
        (internally-eq-ok _ (v, t) g)
