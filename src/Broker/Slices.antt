-- ===== src/Broker/Slices.antt =====
-- What a slice of a history holds (broker.rs).
use mathlib.Core.List.{reverse, append-nil}
use adaptarr_server.Prelude.{
  ℕ, ◌+◌, ◌%◌, ◌^◌, ◌≤◌, ◌≡◌, ◌⊎◌, inl, inr, ◌==◌, ==_iff, ltb, parts, Bool, true, none, some,
  Option-cases, [], ◌++◌, All, take, drop, length, leb, min, ok, err, sym, subst, arith,
}
use adaptarr_server.Storage.{Ascending, Table}
use adaptarr_server.Storage.Lists.{All-In}
use adaptarr_server.Storage.Orders.{
  length-take, last, length-last, last_lem, All-left, All-right, All-append, All-map,
  Ascending-left, Ascending-right, Ascending-append, take-drop,
}
use adaptarr_server.Broker.History.{
  ConversationEvent, GetHistory, History, is_event, is_earlier, is_later, latest, get_history,
  database,
}

module _ (table : Table ConversationEvent ConversationEvent.id) (c : table.Content) where
  open table use {Contains, select, select_iff, select_ascending}

  abbrev time : ConversationEvent → ℕ
  time = ConversationEvent.timestamp

  abbrev IsOf : ℕ → ConversationEvent → Type 0
  IsOf conversation r = Contains c r × (r.conversation ≡ conversation)

  module _ (p : ConversationEvent → Bool) (P : ConversationEvent → Type 0)
      (h : (r : ConversationEvent) → p r ≡ true → P r) where
    selected : All (λ r. Contains c r × P r) (select p time c)
    selected =
        All-In (λ r. Contains c r × P r) (select p time c)
          (λ r m. let (there, test) = (select_iff p time c r).0 m in (there, h r test))

    latest_lem :
        (n : ℕ)
        → (length (reverse (latest table p n c)) ≤ n)
          × Ascending time (reverse (latest table p n c))
          × All (λ r. Contains c r × P r) (reverse (latest table p n c))
    unfolding latest
    latest_lem n =
        let xs = select p time c in
        let front = reverse (drop n (reverse xs)) in
        (
          length-last n xs,
          Ascending-right time front (last n xs)
              (subst (Ascending time) (sym (last_lem n xs)) (select_ascending p time c)),
          All-right (λ r. Contains c r × P r) front (last n xs)
              (subst (All (λ r. Contains c r × P r)) (sym (last_lem n xs)) selected),
        )

    first_lem :
        (n : ℕ)
        → (length (take n (select p time c)) ≤ n)
          × Ascending time (take n (select p time c))
          × All (λ r. Contains c r × P r) (take n (select p time c))
    first_lem n =
        let xs = select p time c in
        (
          length-take n xs,
          Ascending-left time (take n xs) (drop n xs)
              (subst (Ascending time) (sym (take-drop n xs)) (select_ascending p time c)),
          All-left (λ r. Contains c r × P r) (take n xs) (drop n xs)
              (subst (All (λ r. Contains c r × P r)) (sym (take-drop n xs)) selected),
        )

  -- Events of the conversation, at most so many before the reference and from it on, in the order of
  -- their times.
  abbrev pub IsSlice : ℕ → History → Type 0
  IsSlice conversation h =
      (length h.before ≤ 128)
      × (length h.after ≤ 64)
      × Ascending time (h.before ++ h.after)
      × All (IsOf conversation) (h.before ++ h.after)

  -- The whole slice without a reference.
  recent :
      (conversation n : ℕ)
      → IsSlice conversation (record {
        before = reverse (latest table (λ r. r.conversation == conversation) (min n 128) c);
        after = [];
      })
  recent conversation n =
      let (few, sorted, all) =
        latest_lem (λ r. r.conversation == conversation) (λ r. r.conversation ≡ conversation)
          (λ r hit. (==_iff r.conversation conversation).0 hit) (min n 128) in
      let xs = reverse (latest table (λ r. r.conversation == conversation) (min n 128) c) in
      (
        omega (arith, few),
        omega arith,
        subst (Ascending time) (sym (append-nil xs)) sorted,
        subst (All (IsOf conversation)) (sym (append-nil xs)) all,
      )

  earlier :
      (conversation at : ℕ) (r : ConversationEvent)
      → is_earlier conversation at r ≡ true
      → (r.conversation ≡ conversation) × (r.timestamp ≤ at)
  unfolding is_earlier
  earlier conversation at r h =
      let (same, less) = parts (r.conversation == conversation) (ltb r.timestamp at) h in
      ((==_iff r.conversation conversation).0 same, grind (arith, less))

  later :
      (conversation at : ℕ) (r : ConversationEvent)
      → is_later conversation at r ≡ true
      → (r.conversation ≡ conversation) × (at ≤ r.timestamp)
  unfolding is_later
  later conversation at r h =
      let (same, less) = parts (r.conversation == conversation) (leb at r.timestamp) h in
      ((==_iff r.conversation conversation).0 same, grind (arith, less))

  around :
      (conversation at n m : ℕ)
      → IsSlice conversation (record {
        before = reverse (latest table (is_earlier conversation at) (min n 64) c);
        after = take (min m 64) (select (is_later conversation at) time c);
      })
  around conversation at n m =
      let Before : ConversationEvent → Type 0 =
        λ r. (r.conversation ≡ conversation) × (r.timestamp ≤ at) in
      let After : ConversationEvent → Type 0 =
        λ r. (r.conversation ≡ conversation) × (at ≤ r.timestamp) in
      let (few, sorted, all) =
        latest_lem (is_earlier conversation at) Before (earlier conversation at) (min n 64) in
      let (few', sorted', all') =
        first_lem (is_later conversation at) After (later conversation at) (min m 64) in
      let xs = reverse (latest table (is_earlier conversation at) (min n 64) c) in
      let ys = take (min m 64) (select (is_later conversation at) time c) in
      (
        omega (arith, few),
        omega (arith, few'),
        Ascending-append time at xs ys sorted sorted'
            (All-map (λ r. Contains c r × Before r) (λ r. time r ≤ at) xs (λ r h. h.1.1) all)
            (All-map (λ r. Contains c r × After r) (λ r. at ≤ time r) ys (λ r h. h.1.1) all'),
        All-append (IsOf conversation) xs ys
            (All-map (λ r. Contains c r × Before r) (IsOf conversation) xs (λ r h. (h.0, h.1.0))
              all)
            (All-map (λ r. Contains c r × After r) (IsOf conversation) ys (λ r h. (h.0, h.1.0))
              all'),
      )

  module _ (msg : GetHistory) where
    pub whole :
        msg.from ≡ none
        → get_history table msg c
          ≡ ok (record {
            before = reverse (
                latest table
                  (λ r. r.conversation == msg.conversation)
                  (min msg.number_before 128)
                  c);
            after = [];
          })
    unfolding get_history
    whole e = cc e

    pub unknown :
        (id : ℕ)
        → msg.from ≡ some id
        → table.find (is_event msg.conversation id) c ≡ none
        → get_history table msg c ≡ err database
    unfolding get_history
    unknown id e f = cc (e, f)

    pub known :
        (id : ℕ) (reference : ConversationEvent)
        → msg.from ≡ some id
        → table.find (is_event msg.conversation id) c ≡ some reference
        → get_history table msg c
          ≡ ok (record {
            before = reverse (
                latest table
                  (is_earlier msg.conversation reference.timestamp)
                  (min msg.number_before 64)
                  c);
            after =
                take
                  (min ((msg.number_after + 1) % 2 ^ 16) 64)
                  (select (is_later msg.conversation reference.timestamp) time c);
          })
    unfolding get_history
    known id reference e f = cc (e, f)

  -- A request for a slice of the history fails only for a reference that is no event of the conversation.
  -- Otherwise it gets events of the conversation in the order of their times, at most 128 before the
  -- reference, or the end, and at most 64 from the reference on.
  pub get_history_correct :
      (msg : GetHistory)
      → ((h : History) × (get_history table msg c ≡ ok h) × IsSlice msg.conversation h)
        ⊎ ((id : ℕ) × (msg.from ≡ some id)
            × (get_history table msg c ≡ err database)
            × (table.find (is_event msg.conversation id) c ≡ none))
  get_history_correct msg = elim (Option-cases msg.from) [
    | inl e ↦ inl (_, whole msg e, recent msg.conversation msg.number_before)
    | inr (id, e) ↦ elim (Option-cases (table.find (is_event msg.conversation id) c)) [
      | inl gone ↦ inr (id, e, unknown msg id e gone, gone)
      | inr (reference, f) ↦ inl (
        _,
        known msg id reference e f,
        around msg.conversation reference.timestamp msg.number_before
            ((msg.number_after + 1) % 2 ^ 16),
      )
    ]
  ]
