-- ===== src/Sessions.antt =====
-- Sessions of users: crates/web/src/session.rs, with the rows of crates/models/src/db/models.rs. A time is
-- a number of seconds, and a cookie is its value.
pub mod Validity
pub mod SignIn
pub mod Policies
mod Examples
use adaptarr_server.Prelude.{
  ℕ, ◌+◌, ◌-◌, ◌*◌, ◌==◌, ◌&&◌, Bool, true, false, Option, none, some, ltb, if◌then◌else◌,
}
use adaptarr_server.Storage.{Table}

pub record Session : Type 0 where
  pub id : ℕ
  pub user : ℕ
  pub expires : ℕ
  pub last_used : ℕ
  pub is_elevated : Bool

pub record NewSession : Type 0 where
  pub user : ℕ
  pub expires : ℕ
  pub last_used : ℕ
  pub is_elevated : Bool

pub record SessionUpdate : Type 0 where
  pub expires : Option ℕ
  pub last_used : Option ℕ
  pub is_elevated : Option Bool

-- Data of the session manager that stands with a request.
pub record SessionData : Type 0 where
  pub existing : Option Session
  pub new : Option NewSession
  pub destroy : Bool

pub data Validation : Type 0 where
  pass reject : Validation
  update : SessionUpdate → Bool → Validation

-- `MAX_DURATION` and `INACTIVITY_EXPIRATION` are days, `SUPER_EXPIRATION` is minutes.
abbrev pub max_duration : ℕ
max_duration = 30 * 86400

abbrev pub inactivity_expiration : ℕ
inactivity_expiration = 7 * 86400

abbrev pub super_expiration : ℕ
super_expiration = 15 * 60

unfoldable pub validate_session : ℕ → Session → Validation
validate_session now ses =
    if ltb ses.expires now
    then reject
    else (if ltb inactivity_expiration (now - ses.last_used)
        then reject
        else (if ses.is_elevated && ltb super_expiration (now - ses.last_used)
            then update (record { expires = none; last_used = none; is_elevated = some false }) true
            else pass))

unfoldable pub or_else : {A : Type 0} → Option A → A → A
or_else none a = a
or_else (some b) a = b

-- `set(update)` changes the columns that are given.
unfoldable pub apply : SessionUpdate → Session → Session
apply u ses = record ses {
  expires = or_else u.expires ses.expires;
  last_used = or_else u.last_used ses.last_used;
  is_elevated = or_else u.is_elevated ses.is_elevated;
}

unfoldable pub is_session : ℕ → Session → Bool
is_session id ses = ses.id == id

-- The table and the actor of the audit log.
pub record State (Content : Type 0) : Type 0 where
  pub sessions : Content
  pub actor : Option ℕ

-- What becomes of the cookie of a response.
pub data Cookie : Type 0 where
  cleared : Cookie
  sealed : ℕ → Cookie

-- `Session::create`: `is_super` and the wish for an elevated session.
unfoldable pub create : ℕ → Bool → Bool → ℕ → Option SessionData → SessionData
create user is_super is_elevated now data' =
    let new : NewSession = record {
      user = user;
      expires = now + max_duration;
      last_used = now;
      is_elevated = is_super && is_elevated;
    } in
    elim data' [
      | none ↦ record { existing = none; new = some new; destroy = false }
      | some session ↦ record session { new = some new }
    ]

-- `Session::destroy`
unfoldable pub destroy_session : Session → SessionData
destroy_session ses = record { existing = some ses; new = none; destroy = true }

module _ (table : Table Session Session.id) where
  open table use {Content, find, delete, insert, fresh}

  unfoldable pub passed :
      Option Session → Content → State Content → Option SessionData × State Content
  passed none rows s = (none, record s { sessions = rows })
  passed (some ses) rows s = (
    some (record { existing = some ses; new = none; destroy = false }),
    record { sessions = rows; actor = some ses.user },
  )

  -- `unseal` is what decoding and unsealing the value of a cookie gives.
  unfoldable pub before_request :
      (ℕ → Option ℕ) → ℕ → Option ℕ → State Content → Option SessionData × State Content
  before_request unseal now none s = (none, s)
  before_request unseal now (some cookie) s = elim (unseal cookie) [
    | none ↦ (none, s)
    | some sesid ↦ elim (find (is_session sesid) s.sessions) [
      | none ↦ (none, s)
      | some session ↦ elim (validate_session now session) [
        | pass ↦ passed (some session) s.sessions s
        | reject ↦ passed none (delete (is_session session.id) s.sessions) s
        | update u let_through ↦
            passed
              (find (is_session session.id)
                (table.update (is_session session.id) (apply u) s.sessions))
              (table.update (is_session session.id) (apply u) s.sessions) s
      ]
    ]
  ]

  -- `insert_into(sessions).values(new)`; `seal` gives the value of a cookie for an identifier.
  unfoldable pub replaced : (ℕ → ℕ) → NewSession → Content → Option Cookie × Content
  replaced seal new rows = (
    some (sealed (seal (fresh rows))),
    insert
        (record {
          id = fresh rows;
          user = new.user;
          expires = new.expires;
          last_used = new.last_used;
          is_elevated = new.is_elevated;
        })
        rows,
  )

  unfoldable pub closed : (ℕ → ℕ) → ℕ → SessionData → Content → Option Cookie × Content
  closed seal now data' rows = elim data'.existing [
    | none ↦ elim data'.new [ none ↦ (none, rows) | some new ↦ replaced seal new rows ]
    | some ses ↦
        if data'.destroy then (some cleared, delete (is_session ses.id) rows) else (elim data'.new [
          | none ↦ (none, table.update (is_session ses.id) (λ r. record r { last_used = now }) rows)
          | some new ↦ replaced seal new (delete (is_session ses.id) rows)
        ])
  ]

  unfoldable pub after_request :
      (ℕ → ℕ) → ℕ → Option SessionData → State Content → Option Cookie × State Content
  after_request seal now none s = (none, s)
  after_request seal now (some data') s =
      let out = closed seal now data' s.sessions in
      (out.0, record { sessions = out.1; actor = none })
