-- ===== src/Audit.antt =====
-- The audit log and its actor: crates/models/src/audit.rs. A task and a thread keep their actor in the
-- same way, so one field of the state stands for both.
use adaptarr_server.Prelude.{
  ℕ, Bool, Option, none, some, String, List, [], ◌∷◌, ◌++◌, Result, ok, expect, ◌>>=◌,
}

pub data Actor : Type 0 where
  system : Actor
  user : ℕ → Actor

unfoldable pub as_db : Actor → Option ℕ
as_db system = none
as_db (user id) = some id

-- What the entries of the log record beside their subject.
pub data Payload : Type 0 where
  nothing : Payload
  text : String → Payload
  bits : ℕ → Payload
  new_user : (email name : String) → (is_super : Bool) → (language : String) → Payload
  new_invite : (email : String) → (expires : ℕ) → (role : Option ℕ) → Payload
  new_team_invite : (expires : ℕ) → (role : Option ℕ) → (user : ℕ) → Payload
  add_member : (user permissions : ℕ) → (role : Option ℕ) → Payload
  set_permissions : (member permissions : ℕ) → Payload
  set_role : (member : ℕ) → (role : Option ℕ) → Payload
  new_role : (name : String) → (permissions : ℕ) → Payload

pub record Entry : Type 0 where
  pub actor : Option ℕ
  pub context : String
  pub context_id : ℕ
  pub kind : String
  pub payload : Payload

-- The actor of the current task, and the rows of the log.
pub record Audit : Type 0 where
  pub actor : Option Actor
  pub log : List Entry

-- The previous actor, and the state with the new one.
unfoldable pub set_actor : Option Actor → Audit → Option Actor × Audit
set_actor actor s = (s.actor, record s { actor = actor })

unfoldable pub get_actor {μ} : {E : Type μ} → Audit → Result E Actor
get_actor s = expect s.actor

unfoldable pub log_db_actor : Actor → String → ℕ → String → Payload → Audit → Audit
log_db_actor actor context context_id kind payload s = record s {
  log =
      s.log
      ++ record {
        actor = as_db actor;
        context = context;
        context_id = context_id;
        kind = kind;
        payload = payload;
      }
        ∷ [];
}

unfoldable pub log_db {μ} : {E : Type μ} → String → ℕ → String → Payload → Audit → Result E Audit
log_db context context_id kind payload s =
    get_actor s >>= λ actor. ok (log_db_actor actor context context_id kind payload s)
