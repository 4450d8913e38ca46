-- ===== src/Broker/Chosen.antt =====
-- Which events of a conversation a slice of its history holds (broker.rs).
use mathlib.Core.List.{reverse}
use adaptarr_server.Prelude.{
  ℕ, ◌+◌, ◌%◌, ◌^◌, ◌≤◌, ◌<◌, ◌≡◌, ◌↔◌, ◌⊎◌, inl, inr, ◌==◌, ==_iff, Bool, true, none, some,
  Option-cases, List, [], ◌++◌, take, drop, length, min, ok, Result, sym, subst, ap, ◌∙◌, refl,
  arith,
}
use adaptarr_server.Storage.{In, Ascending, Table}
use adaptarr_server.Storage.Orders.{length-take, length-last, last_lem, take-drop, take-or, last-or}
use adaptarr_server.Broker.History.{
  ConversationEvent, GetHistory, History, is_event, is_earlier, is_later, latest, get_history,
  GetHistoryError,
}
use adaptarr_server.Broker.Slices.{whole, unknown, known}

module _ (table : Table ConversationEvent ConversationEvent.id) (c : table.Content) where
  open table use {Contains, select, select_iff, select_ascending, find_some}

  abbrev time : ConversationEvent → ℕ
  time = ConversationEvent.timestamp

  -- Just the events with a property, in the order of their times: `rest` and then `xs`, the last of
  -- them, which are so many unless there are fewer.
  abbrev pub IsLast : (ConversationEvent → Type 0) → ℕ → List ConversationEvent → Type 0
  IsLast Q n xs =
      (rest : List ConversationEvent) × Ascending time (rest ++ xs)
      × ((r : ConversationEvent) → In r (rest ++ xs) ↔ Q r)
      × (length xs ≤ n)
      × ((length xs ≡ n) ⊎ (rest ≡ []))

  -- The first of them.
  abbrev pub IsFirst : (ConversationEvent → Type 0) → ℕ → List ConversationEvent → Type 0
  IsFirst Q n xs =
      (rest : List ConversationEvent) × Ascending time (xs ++ rest)
      × ((r : ConversationEvent) → In r (xs ++ rest) ↔ Q r)
      × (length xs ≤ n)
      × ((length xs ≡ n) ⊎ (rest ≡ []))

  -- Without a reference the last events of the conversation, at most 128. With one the last events
  -- before its time, at most 64, and the first from its time on, one more than asked for as a `u16`
  -- and at most 64.
  abbrev pub IsChosen : GetHistory → History → Type 0
  IsChosen msg h =
      ((msg.from ≡ none)
        × IsLast (λ r. Contains c r × (r.conversation ≡ msg.conversation))
            (min msg.number_before 128) h.before
        × (h.after ≡ []))
      ⊎ ((reference : ConversationEvent) × Contains c reference
          × (reference.conversation ≡ msg.conversation)
          × (msg.from ≡ some reference.id)
          × IsLast
              (λ r.
                Contains c r
                × (r.conversation ≡ msg.conversation)
                × (r.timestamp < reference.timestamp))
              (min msg.number_before 64) h.before
          × IsFirst
              (λ r.
                Contains c r
                × (r.conversation ≡ msg.conversation)
                × (reference.timestamp ≤ r.timestamp))
              (min ((msg.number_after + 1) % 2 ^ 16) 64) h.after)

  module _ (p : ConversationEvent → Bool) (Q : ConversationEvent → Type 0)
      (iff : (r : ConversationEvent) → (Contains c r × (p r ≡ true)) ↔ Q r) (n : ℕ) where
    selected_iff : (r : ConversationEvent) → In r (select p time c) ↔ Q r
    selected_iff r =
        (λ m. (iff r).0 ((select_iff p time c r).0 m), λ q. (select_iff p time c r).1 ((iff r).1 q))

    latest-IsLast : IsLast Q n (reverse (latest table p n c))
    unfolding latest
    latest-IsLast =
        let xs = select p time c in
        let front = reverse (drop n (reverse xs)) in
        (
          front,
          subst (Ascending time) (sym (last_lem n xs)) (select_ascending p time c),
          subst (λ ys. (r : ConversationEvent) → In r ys ↔ Q r) (sym (last_lem n xs)) selected_iff,
          length-last n xs,
          last-or n xs,
        )

    take-IsFirst : IsFirst Q n (take n (select p time c))
    take-IsFirst =
        let xs = select p time c in
        (
          drop n xs,
          subst (Ascending time) (sym (take-drop n xs)) (select_ascending p time c),
          subst (λ ys. (r : ConversationEvent) → In r ys ↔ Q r) (sym (take-drop n xs)) selected_iff,
          length-take n xs,
          take-or n xs,
        )

  of_iff :
      (conversation : ℕ) (r : ConversationEvent)
      → (Contains c r × ((r.conversation == conversation) ≡ true))
        ↔ (Contains c r × (r.conversation ≡ conversation))
  of_iff conversation r = (
    λ h. (h.0, (==_iff r.conversation conversation).0 h.1),
    λ h. (h.0, (==_iff r.conversation conversation).1 h.1),
  )

  earlier_iff :
      (conversation at : ℕ) (r : ConversationEvent)
      → (Contains c r × (is_earlier conversation at r ≡ true))
        ↔ (Contains c r × (r.conversation ≡ conversation) × (r.timestamp < at))
  unfolding is_earlier
  earlier_iff conversation at r =
      (λ h. (h.0, grind (arith, h.1), grind (arith, h.1)), λ h. (h.0, grind (arith, h.1, h.2)))

  later_iff :
      (conversation at : ℕ) (r : ConversationEvent)
      → (Contains c r × (is_later conversation at r ≡ true))
        ↔ (Contains c r × (r.conversation ≡ conversation) × (at ≤ r.timestamp))
  unfolding is_later
  later_iff conversation at r =
      (λ h. (h.0, grind (arith, h.1), grind (arith, h.1)), λ h. (h.0, grind (arith, h.1, h.2)))

  one_history :
      (h k : History) (out : Result GetHistoryError History) → out ≡ ok h → out ≡ ok k → h ≡ k
  one_history h k out e f = cc (e, f)

  pub get_history-IsChosen :
      (msg : GetHistory) (h : History) → get_history table msg c ≡ ok h → IsChosen msg h
  unfolding is_event
  get_history-IsChosen msg h run = elim (Option-cases msg.from) [
    | inl e ↦ subst (IsChosen msg) (one_history _ h _ (whole table c msg e) run) (
        inl (
          e,
          latest-IsLast (λ r. r.conversation == msg.conversation)
              (λ r. Contains c r × (r.conversation ≡ msg.conversation)) (of_iff msg.conversation)
              (min msg.number_before 128),
          refl,
        ))
    | inr (id, e) ↦ elim (Option-cases (table.find (is_event msg.conversation id) c)) [
      | inl gone ↦ absurd (cc (run, unknown table c msg id e gone))
      | inr (reference, f) ↦
          let (here, hit) = find_some (is_event msg.conversation id) c reference f in
          let same : id ≡ reference.id = grind (arith, hit) in
          subst (IsChosen msg) (one_history _ h _ (known table c msg id reference e f) run) (
            inr (
              reference,
              here,
              grind (arith, hit),
              e ∙ ap some same,
              latest-IsLast (is_earlier msg.conversation reference.timestamp) _
                  (earlier_iff msg.conversation reference.timestamp) (min msg.number_before 64),
              take-IsFirst (is_later msg.conversation reference.timestamp) _
                  (later_iff msg.conversation reference.timestamp)
                  (min ((msg.number_after + 1) % 2 ^ 16) 64),
            ))
    ]
  ]
