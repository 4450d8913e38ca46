-- ===== src/Broker/Reached.antt =====
-- What the broker reaches by connecting and disconnecting (broker.rs).
use adaptarr_server.Prelude.{
  ℕ, ◌≡◌, ◌==◌, ==_iff, not, Bool, Bool-cases, Option-cases, Option, none, some, List, [], ◌∷◌, All,
  Memᴰ, take, drop, Result, ok, refl, sym, subst, inl, inr,
}
use adaptarr_server.Storage.Orders.{take-drop}
use adaptarr_server.Broker.{
  Listener, Conversation, Broker, put, Sorted, Search, retain, ConnectError, disconnect, entry_of,
  insert, connect, insert-Sorted, All-between,
}
use adaptarr_server.Broker.Steps.{retain-All, retain-Sorted}

module _ (searching : Search) (load : ℕ → Result ConnectError (List ℕ)) where
  -- Clients connect when they are members, which is checked before a socket is opened.
  pub data Reached : Broker → Type 0 where
    start : Reached (λ k. none)
    connects :
        (user conversation addr : ℕ) (members : List ℕ) (b after : Broker)
        → Reached b
        → load conversation ≡ ok members
        → Memᴰ user members
        → connect searching load user conversation addr b ≡ ok after
        → Reached after
    disconnects :
        (conversation addr : ℕ) (b : Broker) → Reached b → Reached (disconnect conversation addr b)

  -- An open conversation: its members are those in the database, and its listeners are sorted and
  -- members.
  pub record IsOpen (id : ℕ) (c : Conversation) : Type 0 where
    pub sorted : Sorted c.listeners
    pub loaded : load id ≡ ok c.members
    pub among : All (λ (x : Listener). Memᴰ x.user c.members) c.listeners

  abbrev AllOpen : Broker → Type 0
  AllOpen b = (k : ℕ) (c : Conversation) → b k ≡ some c → IsOpen k c

  put-AllOpen :
      (id : ℕ) (entry : Option Conversation) (b : Broker)
      → AllOpen b
      → ((c : Conversation) → entry ≡ some c → IsOpen id c)
      → AllOpen (put id entry b)
  unfolding put
  put-AllOpen id entry b h new k c e = elim (Bool-cases (k == id)) [
    | inl here ↦ subst (λ j. IsOpen j c) (sym ((==_iff k id).0 here)) (new c (rw here at e))
    | inr there ↦ h k c (rw there at e)
  ]

  insert-All :
      (P : Listener → Type 0) (l : Listener) (ls : List Listener)
      → P l
      → All P ls
      → All P (insert searching l ls)
  unfolding insert
  insert-All P l ls h all =
      let inx = searching.search l.user ls in
      All-between P l (take inx ls) (drop inx ls) h (rw (take-drop inx ls) all)

  entry_of-IsOpen :
      (id : ℕ) (members : List ℕ) (b : Broker)
      → AllOpen b
      → load id ≡ ok members
      → (c : Conversation) × (entry_of load id b ≡ ok c) × IsOpen id c
  unfolding entry_of
  entry_of-IsOpen id members b h e = elim (Option-cases (b id)) [
    | inl closed ↦ (
      record { members = members; listeners = [] },
      rw (entry_of, closed, e) refl,
      record { sorted = tt; loaded = e; among = tt },
    )
    | inr (c, found) ↦ (c, rw (entry_of, found) refl, h id c found)
  ]

  connect-AllOpen :
      (user conversation addr : ℕ) (members : List ℕ) (b after : Broker)
      → AllOpen b
      → load conversation ≡ ok members
      → Memᴰ user members
      → connect searching load user conversation addr b ≡ ok after
      → AllOpen after
  unfolding connect
  connect-AllOpen user conversation addr members b after h e member run =
      let (c, entry, opened) = entry_of-IsOpen conversation members b h e in
      let l : Listener = record { user = user; addr = addr } in
      let c' : Conversation = record c { listeners = insert searching l c.listeners } in
      let same_members : members ≡ c.members = cc (e, opened.loaded) in
      let is_open : IsOpen conversation c' = record {
        sorted = insert-Sorted searching l c.listeners opened.sorted;
        loaded = opened.loaded;
        among =
            insert-All (λ (x : Listener). Memᴰ x.user c.members) l c.listeners
              (subst (Memᴰ user) same_members member) opened.among;
      } in
      let same : put conversation (some c') b ≡ after = cc (rw entry at run) in
      subst AllOpen same (
        put-AllOpen conversation (some c') b h
          (λ d q. let is_c : c' ≡ d = cc q in subst (IsOpen conversation) is_c is_open))

  disconnect-AllOpen :
      (conversation addr : ℕ) (b : Broker) → AllOpen b → AllOpen (disconnect conversation addr b)
  unfolding disconnect
  disconnect-AllOpen conversation addr b h = elim (Option-cases (b conversation)) [
    | inl closed ↦ rw (closed, disconnect) h
    | inr (c, found) ↦
        let was = h conversation c found in
        let keep : Listener → Bool = λ l. not (l.addr == addr) in
        rw (found, disconnect)
          (left c (retain keep c.listeners) (record {
            sorted = retain-Sorted keep c.listeners was.sorted;
            loaded = was.loaded;
            among = retain-All (λ (x : Listener). Memᴰ x.user c.members) keep c.listeners was.among;
          }))
  ]
    where
      left :
          (c : Conversation) (ls : List Listener)
          → IsOpen conversation (record c { listeners = ls })
          → AllOpen (elim ls [
            | [] ↦ put conversation none b
            | l ∷ ls ↦ put conversation (some (record c { listeners = l ∷ ls })) b
          ])
      left c [] is_open = put-AllOpen conversation none b h (λ d e. cc)
      left c (l ∷ ls) is_open = put-AllOpen conversation _ b h (λ d e.
          let same : record c { listeners = l ∷ ls } ≡ d = cc e in
          subst (IsOpen conversation) same is_open)

  -- Every conversation that is open in a broker that is reached has the members in the database, and
  -- its listeners are sorted and members.
  pub Reached-IsOpen :
      (b : Broker) → Reached b → (k : ℕ) (c : Conversation) → b k ≡ some c → IsOpen k c
  Reached-IsOpen _ start k c e = cc
  Reached-IsOpen _ (connects user conversation addr members b after r e member run) k c f =
      connect-AllOpen user conversation addr members b after (Reached-IsOpen b r) e member run k c f
  Reached-IsOpen _ (disconnects conversation addr b r) k c f =
      disconnect-AllOpen conversation addr b (Reached-IsOpen b r) k c f
