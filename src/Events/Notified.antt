-- ===== src/Events/Notified.antt =====
-- A notified user has the event stored, sent to a listener and mailed (service.rs).
use adaptarr_server.Prelude.{
  ℕ, ◌≤◌, ◌≡◌, ◌⊎◌, inl, inr, true, Option, none, some, Option-cases, String, List, [], ◌∷◌, ◌++◌,
  refl, sym, ap, ◌∙◌, subst,
}
use adaptarr_server.Storage.{In, Table}
use adaptarr_server.Events.Kinds.{Event, Codecs, kind, serialize_event}
use adaptarr_server.Events.Service.{
  Row, Mail, NewEvent, Manager, to_mail, notify_one, do_notify, send_emails,
}
use adaptarr_server.Events.Mailed.{IsSendable, Mailed, send_emails_correct}

In-append : {A : Type 0} (x : A) (xs ys : List A) → (In x xs ⊎ In x ys) → In x (xs ++ ys)
In-append x [] ys (inl m) = absurd m
In-append x [] ys (inr m) = m
In-append x (y ∷ xs) ys (inl (inl e)) = inl e
In-append x (y ∷ xs) ys (inl (inr m)) = inr (In-append x xs ys (inl m))
In-append x (y ∷ xs) ys (inr m) = inr (In-append x xs ys (inr m))

module _ (codecs : Codecs) (now : ℕ) (event : Event) where
  -- A row for the event and the user, unread and new.
  abbrev pub IsEvent : ℕ → Row → Type 0
  IsEvent user r =
      (r.user ≡ user)
      × (r.timestamp ≡ now)
      × (r.kind ≡ kind event)
      × (r.contents ≡ serialize_event codecs event)
      × (r.is_unread ≡ true)

  abbrev pub message : ℕ → ℕ → NewEvent
  message addr id = record { to = addr; id = id; timestamp = now; event = event }

module _ {Expanded : Type 0} (table : Table Row Row.id) (codecs : Codecs) (now : ℕ)
    (event : Event) where
  -- The event of the user is stored, and if the user has a listener it was sent there.
  abbrev pub IsNotified : (ℕ → Option ℕ) → ℕ → Manager table.Content Expanded → Type 0
  IsNotified streams user s =
      (r : Row) × table.Contains s.events r
      × IsEvent codecs now event user r
      × ((streams user ≡ none)
          ⊎ ((addr : ℕ) × (streams user ≡ some addr)
              × In (message codecs now event addr r.id) s.sent))

  -- Nothing that was stored or sent is lost.
  abbrev Extends : Manager table.Content Expanded → Manager table.Content Expanded → Type 0
  Extends s t =
      ((r : Row) → table.Contains s.events r → table.Contains t.events r)
      × ((x : NewEvent) → In x s.sent → In x t.sent)

  module _ (user : ℕ) (s : Manager table.Content Expanded) where
    abbrev one : Manager table.Content Expanded
    one = notify_one table codecs now event user s

    no_listener : s.streams user ≡ none → one.sent ≡ s.sent
    unfolding notify_one
    no_listener e = cc e

    a_listener :
        (addr : ℕ)
        → s.streams user ≡ some addr
        → one.sent ≡ s.sent ++ message codecs now event addr (table.fresh s.events) ∷ []
    unfolding notify_one
    a_listener addr e = cc e

    notify_one-Extends : Extends s one
    unfolding notify_one
    notify_one-Extends = (
      λ r m. (table.insert_iff _ s.events r).1 (inr m),
      λ x m. elim (Option-cases (s.streams user)) [
        | inl e ↦ subst (In x) (sym (no_listener e)) m
        | inr (addr, e) ↦ subst (In x) (sym (a_listener addr e)) (In-append x s.sent _ (inl m))
      ],
    )

    notify_one-IsNotified : IsNotified s.streams user one
    unfolding notify_one
    notify_one-IsNotified = (
      record {
        id = table.fresh s.events;
        user = user;
        timestamp = now;
        kind = kind event;
        contents = serialize_event codecs event;
        is_unread = true;
      },
      (table.insert_iff _ s.events _).1 (inl refl),
      (refl, refl, refl, refl, refl),
      elim (Option-cases (s.streams user)) [
        | inl e ↦ inl e
        | inr (addr, e) ↦ inr (
          addr,
          e,
          subst (In (message codecs now event addr (table.fresh s.events)))
              (sym (a_listener addr e)) (In-append _ s.sent _ (inr (inl refl))),
        )
      ],
    )

    same_manager :
        (one.streams ≡ s.streams) × (one.last_notify ≡ s.last_notify) × (one.mails ≡ s.mails)
    unfolding notify_one
    same_manager = (refl, refl, refl)

  Extends-IsNotified :
      (streams : ℕ → Option ℕ) (user : ℕ) (s t : Manager table.Content Expanded)
      → Extends s t
      → IsNotified streams user s
      → IsNotified streams user t
  Extends-IsNotified streams user s t (rows, sent) (r, here, event_of, told) = (
    r,
    rows r here,
    event_of,
    elim told [ inl e ↦ inl e | inr (addr, e, m) ↦ inr (addr, e, sent _ m) ],
  )

  -- Every user is notified; what was stored and sent before stays, and so do the listeners and the
  -- time of the last mails.
  pub do_notify_correct :
      (users : List ℕ) (s : Manager table.Content Expanded)
      → Extends s (do_notify table codecs now event users s)
        × ((user : ℕ)
            → In user users
            → IsNotified s.streams user (do_notify table codecs now event users s))
        × ((do_notify table codecs now event users s).last_notify ≡ s.last_notify)
        × ((do_notify table codecs now event users s).mails ≡ s.mails)
  unfolding do_notify
  do_notify_correct [] s = ((λ r m. m, λ x m. m), λ user m. absurd m, refl, refl)
  do_notify_correct (u ∷ users) s =
      let t = one u s in
      let (extends, notified, last, mails) = do_notify_correct users t in
      let (rows, sent) = notify_one-Extends u s in
      let (streams, then_last, then_mails) = same_manager u s in
      (
        (λ r m. extends.0 r (rows r m), λ x m. extends.1 x (sent x m)),
        λ user m. elim m [
          | inl same ↦
              subst (λ v. IsNotified s.streams v (do_notify table codecs now event users t))
                (sym same)
                (Extends-IsNotified s.streams u t (do_notify table codecs now event users t) extends
                  (notify_one-IsNotified u s))
          | inr later ↦
              subst (λ f. IsNotified f user (do_notify table codecs now event users t)) streams
                (notified user later)
        ],
        last ∙ then_last,
        mails ∙ then_mails,
      )

  -- Users are notified of an event, at a time not before the last mails. Then for each of them the
  -- event is stored and was sent to the listener, if there is one; and when the mails are next sent,
  -- and all events that are due can be mailed, one to the user has what the row expands to.
  pub do_notify-send_emails :
      (mailbox : ℕ → Option String) (expand : Row → Option Expanded) (later : ℕ) (users : List ℕ)
      (s : Manager table.Content Expanded)
      → s.last_notify ≤ now
      → ((r : Row)
          → table.Contains (do_notify table codecs now event users s).events r
          → to_mail s.last_notify r ≡ true
          → IsSendable mailbox expand r)
      → (user : ℕ) → In user users
      → (after : Manager table.Content Expanded) × (new : List (Mail Expanded)) × (do_notify table
            codecs now event users s
          ≡ after)
        × (send_emails mailbox expand table later after
            ≡ record after { last_notify = later; mails = s.mails ++ new })
        × ((r : Row) × table.Contains after.events r
            × IsEvent codecs now event user r
            × ((s.streams user ≡ none)
                ⊎ ((addr : ℕ) × (s.streams user ≡ some addr)
                    × In (message codecs now event addr r.id) after.sent))
            × Mailed mailbox expand r new)
  do_notify-send_emails mailbox expand later users s due sendable user among =
      let after = do_notify table codecs now event users s in
      let (extends, notified, last, mails) = do_notify_correct users s in
      let (new, run, mailed) =
        send_emails_correct mailbox expand table later after
          (λ r m hit. sendable r m (subst (λ l. to_mail l r ≡ true) last hit)) in
      let (r, here, (own, time, kinds, contents, unread), told) = notified user among in
      (
        after,
        new,
        refl,
        run ∙ ap (λ ms. record after { last_notify = later; mails = ms ++ new }) mails,
        (
          r,
          here,
          (own, time, kinds, contents, unread),
          told,
          mailed r (
            here,
            subst (λ l. l ≤ r.timestamp) (sym last) (subst (λ n. s.last_notify ≤ n) (sym time) due),
            unread,
          ),
        ),
      )
