-- ===== src/Sessions/Validity.antt =====
-- Which sessions stand with a request (session.rs).
use adaptarr_server.Prelude.{
  ℕ, ◌+◌, ◌-◌, ◌≤◌, ◌<◌, ◌≡◌, ◌≢◌, ◌⊎◌, inl, inr, ◌==◌, ==_iff, ◌&&◌, true, false, Bool-cases,
  Option, none, some, ltb, if_true, if_false, refl, sym, ap, subst, ◌∙◌, arith,
}
use adaptarr_server.Storage.{Table}
use adaptarr_server.Storage.Joins.{find-some}
use adaptarr_server.Sessions.{
  Session, SessionUpdate, SessionData, pass, reject, update, inactivity_expiration,
  super_expiration, validate_session, or_else, apply, is_session, State, passed, before_request,
}

-- Not expired, used in the last seven days, and elevated only when used in the last fifteen minutes.
abbrev pub IsCurrent : ℕ → Session → Type 0
IsCurrent now ses =
    (now ≤ ses.expires)
    × (now ≤ ses.last_used + inactivity_expiration)
    × ((ses.is_elevated ≡ false) ⊎ (now ≤ ses.last_used + super_expiration))

-- Not expired, and used in the last seven days.
abbrev pub IsLive : ℕ → Session → Type 0
IsLive now ses = (now ≤ ses.expires) × (now ≤ ses.last_used + inactivity_expiration)

-- What is kept of a session: all of it, or all but an elevation unused for more than fifteen minutes.
abbrev pub IsKept : ℕ → Session → Session → Type 0
IsKept now ses kept =
    (kept ≡ ses)
    ⊎ ((kept ≡ record ses { is_elevated = false })
        × (ses.is_elevated ≡ true)
        × (ses.last_used + super_expiration < now))

by_level :
    (ses : Session) (now : ℕ)
    → (ses.is_elevated && ltb super_expiration (now - ses.last_used)) ≡ false
    → (ses.is_elevated ≡ false) ⊎ (now ≤ ses.last_used + super_expiration)
by_level ses now h = elim (Bool-cases ses.is_elevated) [
  | inl high ↦ inr (grind (arith, high, h))
  | inr low ↦ inl low
]

by_time :
    (ses : Session) (now : ℕ)
    → (ses.is_elevated && ltb super_expiration (now - ses.last_used)) ≡ true
    → (ses.is_elevated ≡ true) × (ses.last_used + super_expiration < now)
by_time ses now h = elim (Bool-cases ses.is_elevated) [
  | inl high ↦ (high, grind (arith, high, h))
  | inr low ↦ absurd (grind (arith, low, h))
]

validate_session_lem :
    (now : ℕ) (ses : Session)
    → ((validate_session now ses ≡ reject) × (¬ IsLive now ses))
      ⊎ (((validate_session now ses ≡ pass) × IsCurrent now ses × IsLive now ses)
          ⊎ ((u : SessionUpdate) × (validate_session now ses ≡ update u true)
              × IsCurrent now (apply u ses)
              × ((apply u ses).id ≡ ses.id)
              × ((apply u ses).user ≡ ses.user)
              × IsKept now ses (apply u ses)
              × IsLive now ses))
unfolding validate_session apply or_else
validate_session_lem now ses = elim (Bool-cases (ltb ses.expires now)) [
  | inl old ↦ inl (rw old, λ live. absurd (grind (arith, old, live.0)))
  | inr valid ↦ elim (Bool-cases (ltb inactivity_expiration (now - ses.last_used))) [
    | inl idle ↦ inl (rw (valid, idle), λ live. absurd (grind (arith, idle, live.1)))
    | inr active ↦
        let e : now ≤ ses.expires = grind (arith, valid) in
        let u : now ≤ ses.last_used + inactivity_expiration = grind (arith, active) in
        elim (Bool-cases (ses.is_elevated && ltb super_expiration (now - ses.last_used))) [
          | inl long ↦ inr (
              inr (
                record { expires = none; last_used = none; is_elevated = some false },
                rw (valid, active, long),
                (e, u, inl refl),
                refl,
                refl,
                inr (refl, (by_time ses now long).0, (by_time ses now long).1),
                (e, u),
              ))
          | inr short ↦
              inr (inl (rw (valid, active, short), (e, u, by_level ses now short), (e, u)))
        ]
  ]
]

module _ (table : Table Session Session.id) where
  open table use {
    Content, Contains, find, find_some, insert, insert_iff, update_iff, fresh, fresh_lem,
  }

  -- The row that an update of one session leaves.
  updated :
      (rows : Content) (ses : Session) (u : SessionUpdate)
      → ((r : Session) → Contains rows r → r.id ≡ ses.id → r ≡ ses)
      → Contains rows ses
      → (apply u ses).id ≡ ses.id
      → (find (is_session ses.id) (table.update (is_session ses.id) (apply u) rows)
          ≡ some (apply u ses))
        × Contains (table.update (is_session ses.id) (apply u) rows) (apply u ses)
  unfolding is_session
  updated rows ses u only here same =
      let put =
        (update_iff (is_session ses.id) (apply u) rows (apply u ses)).1
          (ses, here, sym (if_true _ ((==_iff ses.id ses.id).1 refl))) in
      let (x, e, there, test) =
        find-some table (is_session ses.id) (table.update (is_session ses.id) (apply u) rows)
          (apply u ses) put ((==_iff (apply u ses).id ses.id).1 same) in
      let (y, old, f) = (update_iff (is_session ses.id) (apply u) rows x).0 there in
      let whole : x ≡ apply u ses = elim (Bool-cases (y.id == ses.id)) [
        | inl hit ↦ f ∙ if_true _ hit ∙ ap (apply u) (only y old ((==_iff y.id ses.id).0 hit))
        | inr miss ↦ absurd (cc (ap Session.id (f ∙ if_false _ miss), test, miss))
      ] in
      (e ∙ ap some whole, put)

  found_by :
      (ses : Session) (rows : Content)
      → Contains rows ses
      → (x : Session) × (find (is_session ses.id) rows ≡ some x) × Contains rows x × (x.id ≡ ses.id)
  unfolding is_session
  found_by ses rows here =
      let (x, e, there, test) =
        find-some table (is_session ses.id) rows ses here ((==_iff ses.id ses.id).1 refl) in
      (x, e, there, (==_iff x.id ses.id).0 test)

  -- The three ways on.
  abbrev goes_on : ℕ → State Content → Session → Option SessionData × State Content
  goes_on now s ses = elim (validate_session now ses) [
    | pass ↦ passed table (some ses) s.sessions s
    | reject ↦ passed table none (table.delete (is_session ses.id) s.sessions) s
    | update u let_through ↦
        passed table
          (find (is_session ses.id) (table.update (is_session ses.id) (apply u) s.sessions))
          (table.update (is_session ses.id) (apply u) s.sessions) s
  ]

  module _ (now : ℕ) (s : State Content) (ses : Session) where
    kept_whole :
        validate_session now ses ≡ pass
        → goes_on now s ses ≡ (
          some (record { existing = some ses; new = none; destroy = false }),
          record { sessions = s.sessions; actor = some ses.user },
        )
    unfolding passed
    kept_whole e = cc e

    rejected :
        validate_session now ses ≡ reject
        → goes_on now s ses
          ≡ (none, record s { sessions = table.delete (is_session ses.id) s.sessions })
    unfolding passed
    rejected e = cc e

    lowered :
        (u : SessionUpdate)
        → validate_session now ses ≡ update u true
        → find (is_session ses.id) (table.update (is_session ses.id) (apply u) s.sessions)
          ≡ some (apply u ses)
        → goes_on now s ses ≡ (
          some (record { existing = some (apply u ses); new = none; destroy = false }),
          record {
            sessions = table.update (is_session ses.id) (apply u) s.sessions;
            actor = some (apply u ses).user;
          },
        )
    unfolding passed
    lowered u e g = cc (e, g)

  pub gone :
      (rows : Content) (id : ℕ) (r : Session)
      → Contains (table.delete (is_session id) rows) r
      → r.id ≢ id
  unfolding is_session
  gone rows id r m same =
      cc (((table.delete_iff (is_session id) rows r).0 m).1, (==_iff r.id id).1 same)

  -- What stands with a request, when the session of the cookie is found.
  found_session :
      (unseal : ℕ → Option ℕ) (now cookie : ℕ) (s : State Content) (ses : Session)
      → unseal cookie ≡ some ses.id
      → find (is_session ses.id) s.sessions ≡ some ses
      → before_request table unseal now (some cookie) s ≡ goes_on now s ses
  unfolding before_request
  found_session unseal now cookie s ses e f = cc (e, f)

  -- A session stands with the request, in the table and with its user as the actor.
  abbrev pub Stands : ℕ → Session → Option SessionData × State Content → Type 0
  Stands now ses out =
      (out.0 ≡ some (record { existing = some ses; new = none; destroy = false }))
      × Contains out.1.sessions ses
      × (out.1.actor ≡ some ses.user)
      × IsCurrent now ses

  -- No session stands with the request, and its row is gone.
  abbrev pub Dropped : ℕ → Option SessionData × State Content → Type 0
  Dropped id out = (out.0 ≡ none) × ((r : Session) → Contains out.1.sessions r → r.id ≢ id)

  -- A request with the cookie of a session, whose identifier no other session of the table has,
  -- either gets that session: then it had neither expired nor been idle for more than seven days, it
  -- is in the table as it was, except that an elevation unused for more than fifteen minutes is taken
  -- away, and its user is the actor. Or it gets none: then the session had expired or was idle for
  -- more than seven days, and it is deleted.
  pub before_request_correct :
      (unseal : ℕ → Option ℕ) (now cookie : ℕ) (s : State Content) (ses : Session)
      → unseal cookie ≡ some ses.id
      → Contains s.sessions ses
      → ((r : Session) → Contains s.sessions r → r.id ≡ ses.id → r ≡ ses)
      → ((kept : Session) × (kept.id ≡ ses.id)
          × (kept.user ≡ ses.user)
          × IsKept now ses kept
          × IsLive now ses
          × Stands now kept (before_request table unseal now (some cookie) s))
        ⊎ (Dropped ses.id (before_request table unseal now (some cookie) s) × (¬ IsLive now ses))
  before_request_correct unseal now cookie s ses opens here only =
      let (x, e, there, test) = found_by ses s.sessions here in
      let run = found_session unseal now cookie s ses opens (e ∙ ap some (only x there test)) in
      elim (validate_session_lem now ses) [
        | inl (no_more, dead) ↦ inr (
          subst (Dropped ses.id) (sym (run ∙ rejected now s ses no_more))
              (refl, gone s.sessions ses.id),
          dead,
        )
        | inr (inl (ok_now, current, live)) ↦ inl (
          ses,
          refl,
          refl,
          inl refl,
          live,
          subst (Stands now ses) (sym (run ∙ kept_whole now s ses ok_now))
              (refl, here, refl, current),
        )
        | inr (inr (u, lower, current, id, user, kept, live)) ↦
            let (g, put) = updated s.sessions ses u only here id in
            inl (
              apply u ses,
              id,
              user,
              kept,
              live,
              subst (Stands now (apply u ses)) (sym (run ∙ lowered now s ses u lower g))
                  (refl, put, refl, current),
            )
      ]
