-- ===== src/Sessions/SignIn.antt =====
-- Signing in and out (session.rs).
use adaptarr_server.Prelude.{
  ℕ, ◌+◌, ◌≤◌, ◌≡◌, inl, inr, ◌&&◌, ==_iff, Bool, true, Option, none, some, refl, ◌∙◌, arith,
}
use adaptarr_server.Storage.{Table}
use adaptarr_server.Storage.Joins.{find-none}
use adaptarr_server.Sessions.{
  Session, max_duration, inactivity_expiration, is_session, State, sealed, cleared, create,
  destroy_session, before_request, replaced, closed, after_request,
}
use adaptarr_server.Sessions.Validity.{Stands, before_request_correct, gone}

module _ (table : Table Session Session.id) where
  open table use {Content, Contains, find, insert, insert_iff, fresh, fresh_lem}

  newest :
      (new : Session) (rows : Content) (r : Session)
      → new.id ≡ fresh rows
      → Contains (insert new rows) r
      → r.id ≡ new.id
      → r ≡ new
  newest new rows r first m same = elim ((insert_iff new rows r).0 m) [
    | inl e ↦ e
    | inr old ↦ absurd (fresh_lem rows r old (same ∙ first))
  ]

  signed_in :
      (seal : ℕ → ℕ) (user : ℕ) (is_super is_elevated : Bool) (now : ℕ) (s : State Content)
      → after_request table seal now (some (create user is_super is_elevated now none)) s ≡ (
        some (sealed (seal (fresh s.sessions))),
        record {
          sessions =
              insert
                (record {
                  id = fresh s.sessions;
                  user = user;
                  expires = now + max_duration;
                  last_used = now;
                  is_elevated = is_super && is_elevated;
                })
                s.sessions;
          actor = none;
        },
      )
  unfolding after_request closed replaced create
  signed_in seal user is_super is_elevated now s = refl

  -- Signing in gives the response a cookie. A request with this cookie, within seven days and
  -- before any other, gets a session that is current and is the user's.
  pub create-before_request :
      (seal : ℕ → ℕ) (unseal : ℕ → Option ℕ)
      → ((id : ℕ) → unseal (seal id) ≡ some id)
      → (user : ℕ) (is_super is_elevated : Bool) (now later : ℕ) (s : State Content)
      → later ≤ now + inactivity_expiration
      → (cookie : ℕ) × (after : State Content) × (ses : Session) × (after_request table seal now
            (some (create user is_super is_elevated now none))
            s
          ≡ (some (sealed cookie), after))
        × Stands table later ses (before_request table unseal later (some cookie) after)
        × (ses.user ≡ user)
  create-before_request seal unseal opens user is_super is_elevated now later s soon =
      let new : Session = record {
        id = fresh s.sessions;
        user = user;
        expires = now + max_duration;
        last_used = now;
        is_elevated = is_super && is_elevated;
      } in
      let after : State Content = record { sessions = insert new s.sessions; actor = none } in
      let cookie = seal (fresh s.sessions) in
      elim (before_request_correct table unseal later cookie after new (opens (fresh s.sessions))
        ((insert_iff new s.sessions new).1 (inl refl)) (λ r. newest new s.sessions r refl)) [
          | inl (kept, id, same, as_it_was, live, stands) ↦
              (cookie, after, kept, signed_in seal user is_super is_elevated now s, stands, same)
          | inr (gone, dead) ↦ absurd (dead (omega (arith, soon), omega (arith, soon)))
        ]

  pub same_id : (r : Session) (id : ℕ) → is_session id r ≡ true → r.id ≡ id
  unfolding is_session
  same_id r id hit = (==_iff r.id id).0 hit

  pub no_session :
      (unseal : ℕ → Option ℕ) (now cookie id : ℕ) (s : State Content)
      → unseal cookie ≡ some id
      → find (is_session id) s.sessions ≡ none
      → before_request table unseal now (some cookie) s ≡ (none, s)
  unfolding before_request
  no_session unseal now cookie id s e f = cc (e, f)

  -- After a user signs out the cookie is cleared, and a request with the cookie that was gets no session.
  pub destroy-before_request :
      (seal : ℕ → ℕ) (unseal : ℕ → Option ℕ) (ses : Session) (now later cookie : ℕ)
      (s : State Content)
      → unseal cookie ≡ some ses.id
      → (after : State Content) × (after_request table seal now (some (destroy_session ses)) s
          ≡ (some cleared, after))
        × (before_request table unseal later (some cookie) after ≡ (none, after))
  unfolding after_request closed destroy_session
  destroy-before_request seal unseal ses now later cookie s opens =
      let rows = table.delete (is_session ses.id) s.sessions in
      let after : State Content = record { sessions = rows; actor = none } in
      (
        after,
        refl,
        no_session unseal later cookie ses.id after opens (
            find-none table (is_session ses.id) rows
              (λ r m hit. gone table s.sessions ses.id r m (same_id r ses.id hit))),
      )
