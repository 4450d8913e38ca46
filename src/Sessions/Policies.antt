-- ===== src/Sessions/Policies.antt =====
-- The session that a handler is given (session.rs): policies, and the extraction of a session from a
-- request.
use adaptarr_server.Prelude.{
  ℕ, ◌+◌, ◌≤◌, ◌≡◌, ◌⊎◌, inl, inr, true, false, Bool-cases, Option, none, some, Result, ok, err,
  if◌then◌else◌, refl,
}
use adaptarr_server.Storage.{Table}
use adaptarr_server.Sessions.{
  Session, SessionData, Validation, pass, reject, update, super_expiration, apply, is_session,
  State, before_request,
}
use adaptarr_server.Sessions.Validity.{IsLive, IsKept, before_request_correct}

pub data Policy : Type 0 where
  normal elevated : Policy

-- No policy gives an error of its own.
unfoldable pub validate_policy : Policy → Session → Validation
validate_policy normal ses = pass
validate_policy elevated ses = if ses.is_elevated then pass else reject

pub data SessionFromRequestError : Type 0 where
  no_session policy : SessionFromRequestError

unfoldable pub existing_of : Option SessionData → Option Session
existing_of none = none
existing_of (some data') = data'.existing

module _ (table : Table Session Session.id) where
  open table use {Content, Contains}

  unfoldable pub from_request :
      Policy → Option SessionData → Content → Result SessionFromRequestError (Session × Content)
  from_request by data' rows = elim (existing_of data') [
    | none ↦ err no_session
    | some session ↦ elim (validate_policy by session) [
      | pass ↦ ok (session, rows)
      | reject ↦ err policy
      | update u let_through ↦
          if let_through
          then ok (session, table.update (is_session session.id) (apply u) rows)
          else err policy
    ]
  ]

  abbrev data_of : Session → Option SessionData
  data_of ses = some (record { existing = some ses; new = none; destroy = false })

  elevated_passes :
      (ses : Session) (rows : Content)
      → ses.is_elevated ≡ true
      → from_request elevated (data_of ses) rows ≡ ok (ses, rows)
  unfolding from_request existing_of validate_policy
  elevated_passes ses rows high =
      let passes : validate_policy elevated ses ≡ pass = rw high refl in cc passes

  elevated_rejects :
      (ses : Session) (rows : Content)
      → ses.is_elevated ≡ false
      → from_request elevated (data_of ses) rows ≡ err policy
  unfolding from_request existing_of validate_policy
  elevated_rejects ses rows low = rw low refl

  -- What a handler for elevated sessions gets behind the session manager.
  abbrev pub given :
      (ℕ → Option ℕ)
      → ℕ
      → ℕ
      → State Content
      → Policy
      → Result SessionFromRequestError (Session × Content)
  given unseal now cookie s by =
      let out = before_request table unseal now (some cookie) s in
      from_request by out.0 out.1.sessions

  -- A request with the cookie of a session, whose identifier no other session of the table has,
  -- gives a handler for any session that session exactly when it had neither expired nor been idle for
  -- more than seven days: stored, and as it was, except that an elevation unused for more than
  -- fifteen minutes is taken away. A handler for elevated sessions is then given the same one when it
  -- is still elevated, so that it was used in the last fifteen minutes, and refuses it by the policy
  -- otherwise. A session that had expired or was idle for longer is found by neither handler.
  pub before_request-from_request :
      (unseal : ℕ → Option ℕ) (now cookie : ℕ) (s : State Content) (ses : Session)
      → unseal cookie ≡ some ses.id
      → Contains s.sessions ses
      → ((r : Session) → Contains s.sessions r → r.id ≡ ses.id → r ≡ ses)
      → ((r : Session) × (rows : Content) × (given unseal now cookie s normal ≡ ok (r, rows))
          × Contains rows r
          × IsKept now ses r
          × IsLive now ses
          × (r.user ≡ ses.user)
          × (now ≤ r.expires)
          × (((given unseal now cookie s elevated ≡ ok (r, rows))
                × (r.is_elevated ≡ true)
                × (now ≤ r.last_used + super_expiration))
              ⊎ ((given unseal now cookie s elevated ≡ err policy) × (r.is_elevated ≡ false))))
        ⊎ ((given unseal now cookie s normal ≡ err no_session)
            × (given unseal now cookie s elevated ≡ err no_session)
            × (¬ IsLive now ses))
  unfolding from_request existing_of validate_policy
  before_request-from_request unseal now cookie s ses opens here only =
      elim (before_request_correct table unseal now cookie s ses opens here only) [
        | inr ((gone, _), dead) ↦ inr (
          rw (from_request, existing_of, gone) refl,
          rw (from_request, existing_of, gone) refl,
          dead,
        )
        | inl (kept, id, user, same, live, (stands, there, actor, (unexpired, used, level))) ↦ inl (
          kept,
          (before_request table unseal now (some cookie) s).1.sessions,
          rw (from_request, existing_of, stands) refl,
          there,
          same,
          live,
          user,
          unexpired,
          elim (Bool-cases kept.is_elevated) [
            | inl high ↦ inl (
              rw stands (elevated_passes kept _ high),
              high,
              elim level [ inl low ↦ absurd (cc (high, low)) | inr recent ↦ recent ],
            )
            | inr low ↦ inr (rw stands (elevated_rejects kept _ low), low)
          ],
        )
      ]
