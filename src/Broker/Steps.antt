-- ===== src/Broker/Steps.antt =====
-- Connecting and disconnecting keep the listeners of every conversation sorted (broker.rs).
use adaptarr_server.Prelude.{
  ℕ, ◌≤◌, ◌≡◌, ◌==◌, not, Bool, Bool-cases, Option-cases, Option, none, some, List, [], ◌∷◌, All,
  Result, ok, err, panic, stuck, ◌>>=◌, refl, subst, inl, inr,
}
use adaptarr_server.Broker.{
  Listener, Conversation, Broker, put, Sorted, Search, retain, ConnectError, disconnect, entry_of,
  insert, connect, insert-Sorted,
}

abbrev pub IsValid : Broker → Type 0
IsValid broker = (k : ℕ) (c : Conversation) → broker k ≡ some c → Sorted c.listeners

put-IsValid :
    (id : ℕ) (entry : Option Conversation) (broker : Broker)
    → IsValid broker
    → ((c : Conversation) → entry ≡ some c → Sorted c.listeners)
    → IsValid (put id entry broker)
unfolding put
put-IsValid id entry broker h new k c e = elim (Bool-cases (k == id)) [
  | inl here ↦ new c (rw here at e)
  | inr there ↦ h k c (rw there at e)
]

pub retain-All :
    (P : Listener → Type 0) (keep : Listener → Bool) (ls : List Listener)
    → All P ls
    → All P (retain keep ls)
unfolding retain
retain-All P keep [] h = tt
retain-All P keep (l ∷ ls) h = elim (Bool-cases (keep l)) [
  | inl kept ↦ rw kept (h.0, retain-All P keep ls h.1)
  | inr gone ↦ rw gone (retain-All P keep ls h.1)
]

pub retain-Sorted :
    (keep : Listener → Bool) (ls : List Listener) → Sorted ls → Sorted (retain keep ls)
unfolding retain
retain-Sorted keep [] h = tt
retain-Sorted keep (l ∷ ls) h = elim (Bool-cases (keep l)) [
  | inl kept ↦
      rw kept
        (retain-All (λ (x : Listener). l.user ≤ x.user) keep ls h.0, retain-Sorted keep ls h.1)
  | inr gone ↦ rw gone (retain-Sorted keep ls h.1)
]

Sorted-of_some : (c d : Conversation) → some c ≡ some d → Sorted c.listeners → Sorted d.listeners
Sorted-of_some c d e h =
    let same : c ≡ d = cc in subst (λ (x : Conversation). Sorted x.listeners) same h

-- A client that disconnects leaves the listeners of every conversation sorted.
pub disconnect-IsValid :
    (conversation addr : ℕ) (broker : Broker)
    → IsValid broker
    → IsValid (disconnect conversation addr broker)
unfolding disconnect
disconnect-IsValid conversation addr broker h = elim (Option-cases (broker conversation)) [
  | inl absent ↦ rw (absent, disconnect) h
  | inr (c, found) ↦
      rw (found, disconnect)
        (left c (retain (λ l. not (l.addr == addr)) c.listeners)
          (retain-Sorted (λ l. not (l.addr == addr)) c.listeners (h conversation c found)))
]
  where
    left :
        (c : Conversation) (ls : List Listener)
        → Sorted ls
        → IsValid (elim ls [
          | [] ↦ put conversation none broker
          | l ∷ ls ↦ put conversation (some (record c { listeners = l ∷ ls })) broker
        ])
    left c [] sorted = put-IsValid conversation none broker h (λ d e. cc)
    left c (l ∷ ls) sorted =
        put-IsValid conversation _ broker h
          (λ d e. Sorted-of_some (record c { listeners = l ∷ ls }) d e sorted)

abbrev opened : List ℕ → Conversation
opened members = record { members = members; listeners = [] }

abbrev opened_ok : List ℕ → Result ConnectError Conversation
opened_ok members = ok (opened members)

entry_of-Sorted :
    (load : ℕ → Result ConnectError (List ℕ)) (conversation : ℕ) (broker : Broker)
    (c : Conversation)
    → IsValid broker
    → entry_of load conversation broker ≡ ok c
    → Sorted c.listeners
unfolding entry_of
entry_of-Sorted load conversation broker c h e = elim (Option-cases (broker conversation)) [
  | inr (d, found) ↦
      let same : d ≡ c = cc (rw (found, entry_of) at e) in
      subst (λ (x : Conversation). Sorted x.listeners) same (h conversation d found)
  | inl absent ↦ fresh (load conversation) (rw (absent, entry_of) at e)
]
  where
    fresh : (r : Result ConnectError (List ℕ)) → (r >>= opened_ok) ≡ ok c → Sorted c.listeners
    fresh (ok members) e' =
        let same : some (opened members) ≡ some c = cc in Sorted-of_some (opened members) c same tt
    fresh (err x) e' = cc
    fresh panic e' = cc
    fresh stuck e' = cc

-- So does a client that connects, whether the conversation was open or not, where the call returns.
pub connect-IsValid :
    (searching : Search) (load : ℕ → Result ConnectError (List ℕ)) (user conversation addr : ℕ)
    (broker after : Broker)
    → IsValid broker
    → connect searching load user conversation addr broker ≡ ok after
    → IsValid after
unfolding connect
connect-IsValid searching load user conversation addr broker after h e =
    joined (entry_of load conversation broker) refl e
  where
    listener : Listener
    listener = record { user = user; addr = addr }

    joined :
        (r : Result ConnectError Conversation)
        → entry_of load conversation broker ≡ r
        → (r >>= λ c. ok (
            put conversation
              (some (record c { listeners = insert searching listener c.listeners }))
              broker))
          ≡ ok after
        → IsValid after
    joined (ok c) found done =
        let next = record c { listeners = insert searching listener c.listeners } in
        let same : put conversation (some next) broker ≡ after = cc in
        let sorted =
          insert-Sorted searching listener c.listeners
            (entry_of-Sorted load conversation broker c h found) in
        subst IsValid same
          (put-IsValid conversation (some next) broker h (λ d e'. Sorted-of_some next d e' sorted))
    joined (err x) found done = cc
    joined panic found done = cc
    joined stuck found done = cc
