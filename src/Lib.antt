-- ===== src/Lib.antt =====
-- Verification of adaptarr-server, the server of an editor for textbooks.
--
-- A process of editing is a graph of steps that links join; `validate` decides whether a description
-- of one may be stored. The clients and the server talk over a socket in binary messages.
--
-- `Prelude` holds lists, tests and results. A fallible function returns a `Result`: `ok`, `err`,
-- `panic` (an index out of bounds, a failed `expect`), or `stuck`, the end of the fuel of a loop.
--
-- `Process` is the data of crates/models/src/models/editing/structure.rs, with the steps as a graph
-- (`Process/Graph`) and the rules for a description that may be stored as a predicate
-- (`Process/WellFormed`): those of the documentation, but for the one that a single slot may accept
-- changes, which the code does not check.
-- `Validate` is the function `validate` there, one module for each group of its checks: `Names`, `Ids`,
-- `Grants`, `Search` (what the initial step reaches, and what reaches a final step) and `Flow`
-- (proposals and acceptance of changes). A `usize` is a natural number, and a set of names or slots is
-- a list. The searches run on fuel, one unit for each initial vertex and each edge, since a step is
-- expanded once at most.
--
-- `Wire` is crates/conversations/src/protocol.rs and the numbers of crates/util/src/bytes_ext.rs:
-- `Wire/Leb128`, `Wire/Cookie`, `Wire/Header` (kinds, flags, the frame of a message), `Wire/Body` (the
-- bodies) and `Wire/History` (the body that holds messages, read back in `Wire/History/RoundTrip` and
-- `Wire/History/Seconds`). A byte string is a list of numbers, a
-- string is its bytes, and an `i32` or `i64` stands for its bit pattern. The crates `bytes`,
-- `bitflags` and `chrono` are the parameter `Crates`. `get_leb128` runs on fuel for eleven bytes: the
-- eleventh shift is 70, and `checked_shl` gives up at 64. Capacity hints have no counterpart.
--
-- `Format` is crates/models/src/models/conversation/format.rs with the cursor of bytes_ext.rs:
-- `Format/ReadBytes` (positions and limits of 64 bits, the way they are computed), `Format/Frames`,
-- `Format/Content` (the validation of a message) and `Format/Accepts`. How the crate `bytes` reads from
-- such a cursor while bytes are left is the parameter `Reads`. The loop over frames runs on fuel that
-- the caller gives.
--
-- `Permissions` is crates/models/src/permissions.rs: `Permissions/Names` (flags, names, `require`),
-- `Permissions/Values` (how a set is written and read) and `Permissions/RoundTrip`. A set is its bits;
-- the crate `bitflags` is the parameter `Bitflags`, and what a format of `serde` offers is a `Value`.
--
-- `EntityTag` is crates/web/src/etag.rs: tags on versions of a resource, with `EntityTag/Parsing` and
-- `EntityTag/Matching`, and `EntityTag/Header`, which reads the header of a request.
--
-- `Broker` is crates/conversations/src/broker.rs: the listeners of each conversation, with
-- `Broker/Steps` (connecting and disconnecting), `Broker/Delivery` (the loops that deliver a message)
-- `Broker/Rounds` and `Broker/Delivered` (what they do), `Broker/History`, `Broker/Slices` and
-- `Broker/Chosen` (`GetHistory`, where the increment of a `u16` wraps around), `Broker/Messages` (the handler of a new
-- message, with `new_message_in` of models/conversation/event.rs), `Broker/Reached` (what connecting
-- and disconnecting reach) and `Broker/Posted` (what a new message comes to). The binary search of the
-- standard library is the parameter `Search`, and the database's answer is an argument. The outer loop runs on fuel,
-- one unit for each listener, since a round takes one at least.
--
-- `Client` is crates/conversations/src/client.rs: what a client does with a message of its web socket,
-- with an answer of the broker and with an event; `Client/Answers` is what it is answered, and
-- `Client/Conversed` (new messages) and `Client/Recalled` (the history) compose it with the broker. The
-- pings, and stopping the actor, are left out.
--
-- `Storage` is what the models use of the query builder `diesel` and of the database: a `Table` is a set
-- of rows with the queries on it and their laws, and a parameter of the models. `Storage/Lists` is an
-- instance. A query that the database refuses ends its transaction and is left out, but for the
-- insertions that `Users` names.
--
-- `Books` is crates/models/src/models/bookpart.rs with the rows of crates/models/src/db/models.rs:
-- `Books/Parts` (the operations on a part), `Books/Positions` and `Books/Moves` (distinct positions),
-- `Books/Trees` (`create_tree` and `get_tree`, with `Books/Trees/Read`). An
-- operation takes the table and the audit log, and returns them changed, or an error, when the
-- transaction leaves no trace; a position outside an `i32`, and a key of the table that is broken, are
-- such errors. `get_tree` runs on fuel, one unit for each level of the tree.
--
-- `Locales` is crates/i18n/src/language_tag.rs and locale.rs: `Locales/Ranges` (parsing), `Locales/Fallback`
-- (the iterator over ever shorter tags), `Locales/Choice`, and `Locales/Lookup` (the
-- lookup of RFC 4647). A locale is its code and its name. The
-- chain runs on fuel, one unit for each character and one more, since every item is shorter than the one
-- before.
--
-- `Drafts` is crates/models/src/models/draft.rs with editing/slot.rs and editing/step.rs beside it:
-- `Drafts/Slots` (occupants), `Drafts/Seating` (who sits in the slots of a step), `Drafts/Advance` (the
-- method `advance`), with `Drafts/Checks`, `Drafts/Advanced`, `Drafts/Finished`, `Drafts/Refused`,
-- `Drafts/Journey` (calls one after the other) and `Drafts/Filled`. The tables are the parameter
-- `Tables`; joins are written out over their rows, and `Storage/Joins` and `Storage/Upserts` hold what the
-- queries on joined rows do. The query by which `fill` picks a user is a parameter. Events and requests to
-- other actors are collected in the state, newest first.
--
-- `Xrefs` is crates/models/src/processing/xref_targets.rs: the tree of a document and the loop over it,
-- `Xrefs/Traversal` (the iterator over a tree), `Xrefs/Text` (descriptions), `Xrefs/Document` (the loop and
-- the table), `Xrefs/Contexts` and `Xrefs/Stored` (what the rows are). A document is what the crate `minidom` gives, a text is the list of its
-- characters, and which of them are white is a parameter. The traversal runs on fuel, one unit for each
-- element.
--
-- `Sessions` is crates/web/src/session.rs: what is done before and after a request, with
-- `Sessions/Validity`, `Sessions/SignIn`, and `Sessions/Policies` (what a handler is given). A time is a number of seconds and the present is an argument; how the value of a
-- cookie is sealed and opened is a parameter.
--
-- `Users` is crates/models/src/models/user.rs, team.rs, team_member.rs, role.rs, invite.rs and password.rs:
-- `Users/Accounts`, `Users/Teams`, `Users/Members`, `Users/Tokens` and `Users/Invites` have the operations,
-- and a transaction takes the state and gives it back, or gives an error and leaves it. The insertions
-- that a unique column refuses are written out. `Users/Created`, `Users/SignIn`, `Users/Passwords`,
-- `Users/Resets`, `Users/Admitted` and `Users/Invited` follow a user and the codes it is sent;
-- `Users/Steps` has the calls as steps between states, and `Users/Valid`, `Users/Kept`, `Users/Renewed`,
-- `Users/Joining`, `Users/Regrouped` and `Users/Reached` what every state they reach satisfies. It uses `Audit`
-- (crates/models/src/audit.rs) and `Secure` (crates/util/src/secure.rs). Hashing with argon2, base64 and the
-- cipher are parameters; salts, nonces and the present are arguments.
--
-- `Events` is crates/models/src/events/events.rs and service.rs, with `render` of
-- models/conversation/format.rs beside them: `Events/Renderer` (a message rendered for mail),
-- `Events/Nesting`, `Events/Rendered`, `Events/Meaning`, `Events/Shows` and `Events/Shown` (what its markup
-- shows), `Events/Finish` (the end of its plain text), `Events/Kinds` (kinds, groups, storing and loading),
-- `Events/Service` (the actor), `Events/Mailed` and `Events/Notified`. The frames of a message come
-- decoded: the loops of `render` over them, which end before the first frame, and a failure to read one
-- are left out. The expansion of an event, the look-up of a mailbox, the
-- white space of Unicode and the encoding of the crate `rmps` are parameters. `Storage/Groups` is about
-- the rows that a query orders and a client groups.
--
-- Not modelled: models/module.rs, document.rs, file.rs and conversation.rs and the rest of the drafts,
-- which are queries of a database with little logic of their own, and files on disk;
-- models/processing/import.rs, which unpacks archives with libraries; mail, pages, the command line, the handlers of rest-api and the
-- adapters of the web framework, which decode requests, print and call the models; macros, which make
-- code at compile time.
pub mod Prelude
pub mod Process
pub mod Validate
pub mod Wire
pub mod Audit
pub mod Books
pub mod Broker
pub mod Client
pub mod Drafts
pub mod EntityTag
pub mod Events
pub mod Format
pub mod Locales
pub mod Permissions
pub mod Secure
pub mod Sessions
pub mod Storage
pub mod Users
pub mod Xrefs
