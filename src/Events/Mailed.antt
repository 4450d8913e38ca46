-- ===== src/Events/Mailed.antt =====
-- Unread events are mailed (service.rs).
use mathlib.Core.List.{append_assoc, append-nil}
use adaptarr_server.Prelude.{
  ℕ, ◌≤◌, ◌≡◌, ◌⊎◌, inl, inr, ==_iff, both, true, Option, some, String, List, [], ◌∷◌, ◌++◌, All,
  refl, sym, ap, ◌∙◌, arith,
}
use adaptarr_server.Storage.{In, Table}
use adaptarr_server.Storage.Lists.{All-In, In-All}
use adaptarr_server.Storage.Joins.{order_by, group_by, AllIn, group_by-All}
use adaptarr_server.Storage.Groups.{order_by-In, RunsWith, group_by-In, Uniform, group_by-Uniform}
use adaptarr_server.Events.Kinds.{Group}
use adaptarr_server.Events.Service.{
  Row, Mail, Manager, done, to_mail, is_same_user, is_before, same_group, group_of, expand_all,
  expand_groups, notify_users, send_emails,
}

module _ {Expanded : Type 0} (mailbox : ℕ → Option String) (expand : Row → Option Expanded) where
  -- The user of the row has a mailbox, and the row expands.
  abbrev pub IsSendable : Row → Type 0
  IsSendable r =
      ((address : String) × (mailbox r.user ≡ some address))
      × ((x : Expanded) × (expand r ≡ some x))

  abbrev IsIn : Row → List Expanded → Type 0
  IsIn r xs = (x : Expanded) × (expand r ≡ some x) × In x xs

  abbrev InGroups : Row → List (Group × List Expanded) → Type 0
  InGroups r [] = ⊥
  InGroups r ((g, xs) ∷ gs) = IsIn r xs ⊎ InGroups r gs

  -- A mail to the user of the row has what the row expands to.
  abbrev pub Mailed : Row → List (Mail Expanded) → Type 0
  Mailed r [] = ⊥
  Mailed r (m ∷ ms) = ((mailbox r.user ≡ some m.mailbox) × InGroups r m.events) ⊎ Mailed r ms

  expand_all-ok :
      (rs : List Row)
      → All IsSendable rs
      → (xs : List Expanded) × (expand_all mailbox expand rs ≡ some xs)
        × ((r : Row) → In r rs → IsIn r xs)
  unfolding expand_all
  expand_all-ok [] h = ([], refl, λ r m. absurd m)
  expand_all-ok (r ∷ rs) ((address, (x, e)), h) =
      let (xs, f, all_in) = expand_all-ok rs h in
      (
        x ∷ xs,
        cc (e, f),
        λ q m. elim m [
          | inl same ↦ (x, ap expand same ∙ e, inl refl)
          | inr later ↦ let (y, g, n) = all_in q later in (y, g, inr n)
        ],
      )

  expand_groups-ok :
      (runs : List (Row × List Row))
      → All (AllIn IsSendable) runs
      → (gs : List (Group × List Expanded)) × (expand_groups mailbox expand runs ≡ some gs)
        × ((r : Row) → RunsWith r runs → InGroups r gs)
  unfolding expand_groups
  expand_groups-ok [] h = ([], refl, λ r m. absurd m)
  expand_groups-ok ((r, rs) ∷ runs) (here, h) =
      let (xs, e, all_in) = expand_all-ok (r ∷ rs) here in
      let (gs, f, later) = expand_groups-ok runs h in
      (
        (group_of r, xs) ∷ gs,
        cc (e, f),
        λ q m. elim m [ inl n ↦ inl (all_in q n) | inr n ↦ inr (later q n) ],
      )

  -- The rows of a run are of one user.
  abbrev OneUser : Row × List Row → Type 0
  OneUser run = Uniform (λ a b. a.user ≡ b.user) run

  notify_users-ok :
      (runs : List (Row × List Row)) (mails : List (Mail Expanded))
      → All (AllIn IsSendable) runs
      → All OneUser runs
      → (new : List (Mail Expanded)) × (notify_users mailbox expand runs mails
          ≡ (done, mails ++ new))
        × ((r : Row) → RunsWith r runs → Mailed r new)
  unfolding notify_users
  notify_users-ok [] mails h k =
      ([], ap (λ ms. (done, ms)) (sym (append-nil mails)), λ r m. absurd m)
  notify_users-ok ((r, rs) ∷ runs) mails ((((address, e), x), good), h) (alike, k) =
      let (gs, f, grouped) =
        expand_groups-ok (group_by same_group (r ∷ rs))
          (group_by-All IsSendable same_group (r ∷ rs) (((address, e), x), good)) in
      let mail : Mail Expanded = record { mailbox = address; events = gs } in
      let (new, g, later) = notify_users-ok runs (mails ++ mail ∷ []) h k in
      (
        mail ∷ new,
        cc (e, f, g, append_assoc mails (mail ∷ []) new),
        λ q m. elim m [
          | inl here ↦ inl (
            elim here [
              | inl same ↦ ap mailbox (ap Row.user same) ∙ e
              | inr n ↦ ap mailbox (sym (In-All (λ b. r.user ≡ b.user) rs q alike n)) ∙ e
            ],
            grouped q (group_by-In same_group q (r ∷ rs) here),
          )
          | inr there ↦ inr (later q there)
        ],
      )

  module _ (table : Table Row Row.id) (now : ℕ) (s : Manager table.Content Expanded) where
    abbrev rows : List Row
    rows = table.select (to_mail s.last_notify) Row.id s.events

    mailed_from :
        (new : List (Mail Expanded))
        → notify_users mailbox expand (group_by is_same_user (order_by is_before rows)) s.mails
          ≡ (done, s.mails ++ new)
        → send_emails mailbox expand table now s
          ≡ record s { last_notify = now; mails = s.mails ++ new }
    unfolding send_emails
    mailed_from new e = cc e

    -- Where the users of the events that are due have mailboxes and these events expand, mails are
    -- sent behind those sent before, among them for every unread event since the last time one to
    -- its user that has what it expands to; and the next time starts from now.
    pub send_emails_correct :
        ((r : Row) → table.Contains s.events r → to_mail s.last_notify r ≡ true → IsSendable r)
        → (new : List (Mail Expanded)) × (send_emails mailbox expand table now s
            ≡ record s { last_notify = now; mails = s.mails ++ new })
          × ((r : Row)
              → (table.Contains s.events r × (s.last_notify ≤ r.timestamp) × (r.is_unread ≡ true))
              → Mailed r new)
    unfolding to_mail is_same_user
    send_emails_correct sendable =
        let ordered = order_by is_before rows in
        let due = λ (r : Row). table.select_iff (to_mail s.last_notify) Row.id s.events r in
        let good = All-In IsSendable ordered (λ r m.
          let (here, hit) = (due r).0 ((order_by-In is_before r rows).0 m) in
          sendable r here hit) in
        let (new, e, mailed) =
          notify_users-ok (group_by is_same_user ordered) s.mails
            (group_by-All IsSendable is_same_user ordered good)
            (group_by-Uniform (λ a b. a.user ≡ b.user) is_same_user ordered
              (λ a b hit. (==_iff a.user b.user).0 hit) (λ a b c f g. f ∙ g)) in
        (
          new,
          mailed_from new e,
          λ r (here, recent, unread). mailed r (
              group_by-In is_same_user r ordered (
                (order_by-In is_before r rows).1
                  ((due r).1 (here, both (ground (arith, recent)) unread)))),
        )
