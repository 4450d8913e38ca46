-- ===== src/Sessions/Examples.antt =====
-- Sessions in a table that is a list of rows.
use adaptarr_server.Prelude.{
  ℕ, ◌+◌, ◌≤◌, ◌≡◌, false, ok, err, ◌⊎◌, inl, inr, true, Option, none, some, List, [], ◌∷◌, refl,
  arith,
}
use adaptarr_server.Storage.Lists.{list_table}
use adaptarr_server.Storage.{In, Table}
use adaptarr_server.Sessions.{
  super_expiration, Session, State, sealed, create, before_request, after_request,
}
use adaptarr_server.Sessions.Validity.{IsKept, IsLive, Stands, Dropped, before_request_correct}
use adaptarr_server.Sessions.Policies.{
  normal, elevated, policy, no_session, given, before_request-from_request,
}
use adaptarr_server.Sessions.SignIn.{create-before_request}

abbrev rows : Table Session Session.id
rows = list_table Session Session.id

abbrev session : Session
session = record { id = 4; user = 9; expires = 1000000; last_used = 500; is_elevated = true }

abbrev start : State (List Session)
start = record { sessions = session ∷ []; actor = none }

abbrev unseal : ℕ → Option ℕ
unseal cookie = some cookie

only : (r : Session) → In r (session ∷ []) → r.id ≡ 4 → r ≡ session
only r (inl e) same = e
only r (inr e) same = absurd e

before_request_correct_example :
    ((kept : Session) × (kept.id ≡ 4)
      × (kept.user ≡ 9)
      × IsKept 2000 session kept
      × IsLive 2000 session
      × Stands rows 2000 kept (before_request rows unseal 2000 (some 4) start))
    ⊎ (Dropped rows 4 (before_request rows unseal 2000 (some 4) start) × (¬ IsLive 2000 session))
before_request_correct_example =
    before_request_correct rows unseal 2000 4 start session refl (inl refl) only

create-before_request_example :
    (cookie : ℕ) × (after : State (List Session)) × (ses : Session) × (after_request rows
        (λ id. id)
        600
        (some (create 9 true true 600 none))
        start
      ≡ (some (sealed cookie), after))
    × Stands rows 5000 ses (before_request rows unseal 5000 (some cookie) after)
    × (ses.user ≡ 9)
create-before_request_example =
    create-before_request rows (λ id. id) unseal (λ id. refl) 9 true true 600 5000 start
      (omega arith)

before_request-from_request_example :
    ((r : Session) × (kept : List Session) × (given rows unseal 1000 4 start normal ≡ ok (r, kept))
      × In r kept
      × IsKept 1000 session r
      × IsLive 1000 session
      × (r.user ≡ 9)
      × (1000 ≤ r.expires)
      × (((given rows unseal 1000 4 start elevated ≡ ok (r, kept))
            × (r.is_elevated ≡ true)
            × (1000 ≤ r.last_used + super_expiration))
          ⊎ ((given rows unseal 1000 4 start elevated ≡ err policy) × (r.is_elevated ≡ false))))
    ⊎ ((given rows unseal 1000 4 start normal ≡ err no_session)
        × (given rows unseal 1000 4 start elevated ≡ err no_session)
        × (¬ IsLive 1000 session))
before_request-from_request_example =
    before_request-from_request rows unseal 1000 4 start session refl (inl refl) only
