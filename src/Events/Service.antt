-- ===== src/Events/Service.antt =====
-- The actor that notifies users of events (service.rs), with the rows of
-- crates/models/src/db/models.rs. A time is a number of seconds. Messages to listeners and mails are
-- collected in the state, oldest first, for a failure does not take them back.
use adaptarr_server.Prelude.{
  ℕ, ◌==◌, ◌&&◌, ◌||◌, Bool, true, Option, none, some, String, List, [], ◌∷◌, ◌++◌, ltb, leb,
  if◌then◌else◌,
}
use adaptarr_server.Storage.{Table}
use adaptarr_server.Storage.Joins.{order_by, group_by}
use adaptarr_server.Events.Kinds.{Event, Group, Codecs, kind, kind_from_str, group, serialize_event}

-- A row of `events`.
pub record Row : Type 0 where
  pub id : ℕ
  pub user : ℕ
  pub timestamp : ℕ
  pub kind : String
  pub contents : List ℕ
  pub is_unread : Bool

-- A message to a listener, with its address.
pub record NewEvent : Type 0 where
  pub to : ℕ
  pub id : ℕ
  pub timestamp : ℕ
  pub event : Event

-- `mail/notify` with its groups of expanded events.
pub record Mail (Expanded : Type 0) : Type 0 where
  pub mailbox : String
  pub events : List (Group × List Expanded)

pub record Manager (Content Expanded : Type 0) : Type 0 where
  pub events : Content
  -- The map from users to their listeners.
  pub streams : ℕ → Option ℕ
  pub last_notify : ℕ
  pub sent : List NewEvent
  pub mails : List (Mail Expanded)

pub data Outcome : Type 0 where
  done failed panicked : Outcome

unfoldable pub set_stream : ℕ → Option ℕ → (ℕ → Option ℕ) → ℕ → Option ℕ
set_stream user addr streams u = if u == user then addr else streams u

unfoldable pub to_mail : ℕ → Row → Bool
to_mail last r = leb last r.timestamp && r.is_unread

unfoldable pub is_same_user : Row → Row → Bool
is_same_user a b = a.user == b.user

-- `order((user, timestamp.asc()))`
unfoldable pub is_before : Row → Row → Bool
is_before a b = ltb a.user b.user || (a.user == b.user && leb a.timestamp b.timestamp)

-- The order of the constructors stands for the equality of groups.
unfoldable pub group_number : Group → ℕ
group_number Group.assigned = 0
group_number Group.process_ended = 1
group_number Group.slot_assignment = 2
group_number Group.draft_advanced = 3
group_number Group.conversation = 4
group_number Group.other = 5

unfoldable pub group_of : Row → Group
group_of r = group (kind_from_str r.kind)

unfoldable pub same_group : Row → Row → Bool
same_group a b = group_number (group_of a) == group_number (group_of b)

module _ {Expanded : Type 0} (table : Table Row Row.id) where
  unfoldable pub register : ℕ → ℕ → Manager table.Content Expanded → Manager table.Content Expanded
  register user addr s = record s { streams = set_stream user (some addr) s.streams }

  -- The address in the message is not looked at.
  unfoldable pub unregister :
      ℕ → ℕ → Manager table.Content Expanded → Manager table.Content Expanded
  unregister user addr s = record s { streams = set_stream user none s.streams }

  unfoldable pub notify_one :
      Codecs → ℕ → Event → ℕ → Manager table.Content Expanded → Manager table.Content Expanded
  notify_one codecs now event user s =
      let row : Row = record {
        id = table.fresh s.events;
        user = user;
        timestamp = now;
        kind = kind event;
        contents = serialize_event codecs event;
        is_unread = true;
      } in
      record s {
        events = table.insert row s.events;
        sent = elim (s.streams user) [
          | none ↦ s.sent
          | some addr ↦
              s.sent ++ record { to = addr; id = row.id; timestamp = now; event = event } ∷ []
        ];
      }

  unfoldable pub do_notify :
      Codecs → ℕ → Event → List ℕ → Manager table.Content Expanded → Manager table.Content Expanded
  do_notify codecs now event [] s = s
  do_notify codecs now event (user ∷ users) s =
      do_notify codecs now event users (notify_one codecs now event user s)

-- `mailbox` is the user's in the database, and `expand` what `expand_event` gives for a row.
module _ {Expanded : Type 0} (mailbox : ℕ → Option String) (expand : Row → Option Expanded) where
  -- `map(…).collect::<Result<Vec<_>, _>>()?`
  unfoldable pub expand_all : List Row → Option (List Expanded)
  expand_all [] = some []
  expand_all (r ∷ rs) = elim (expand r) [
    | none ↦ none
    | some x ↦ elim (expand_all rs) [ none ↦ none | some xs ↦ some (x ∷ xs) ]
  ]

  unfoldable pub expand_groups : List (Row × List Row) → Option (List (Group × List Expanded))
  expand_groups [] = some []
  expand_groups ((r, rs) ∷ runs) = elim (expand_all (r ∷ rs)) [
    | none ↦ none
    | some evs ↦ elim (expand_groups runs) [
      | none ↦ none
      | some groups ↦ some ((group_of r, evs) ∷ groups)
    ]
  ]

  unfoldable pub notify_users :
      List (Row × List Row) → List (Mail Expanded) → Outcome × List (Mail Expanded)
  notify_users [] mails = (done, mails)
  notify_users ((r, rs) ∷ runs) mails = elim (mailbox r.user) [
    | none ↦ (panicked, mails)
    | some address ↦ elim (expand_groups (group_by same_group (r ∷ rs))) [
      | none ↦ (failed, mails)
      | some groups ↦
          notify_users runs (mails ++ record { mailbox = address; events = groups } ∷ [])
    ]
  ]

  unfoldable pub send_emails :
      (table : Table Row Row.id)
      → ℕ
      → Manager table.Content Expanded
      → Manager table.Content Expanded
  send_emails table now s =
      let events = order_by is_before (table.select (to_mail s.last_notify) Row.id s.events) in
      let out = notify_users (group_by is_same_user events) s.mails in
      record s {
        last_notify = elim out.0 [ done ↦ now | failed ↦ s.last_notify | panicked ↦ s.last_notify ];
        mails = out.1;
      }
