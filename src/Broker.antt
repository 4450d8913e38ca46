-- ===== src/Broker.antt =====
-- The broker of conversations: crates/conversations/src/broker.rs. The map of conversations is a
-- function; a recipient is a number; what the database answers is a parameter.
pub mod Steps
pub mod Delivery
pub mod Rounds
pub mod Delivered
pub mod History
pub mod Slices
pub mod Chosen
pub mod Messages
pub mod Reached
pub mod Posted
pub mod Plain
mod Examples
use adaptarr_server.Prelude.{
  ℕ, ◌≤◌, ◌<◌, ◌≡◌, ◌==◌, not, Bool, true, false, Bool-cases, Option, none, some, List, [], ◌∷◌,
  ◌++◌, All, length, take, drop, if◌then◌else◌, Result, ok, err, panic, stuck, ◌>>=◌, refl, ap,
  zero, suc, inl, inr, arith,
}
use adaptarr_server.Storage.Orders.{take-drop}

pub record Listener : Type 0 where
  pub user : ℕ
  pub addr : ℕ

pub record Conversation : Type 0 where
  pub members : List ℕ
  pub listeners : List Listener

abbrev pub Broker : Type 0
Broker = ℕ → Option Conversation

-- `insert` and `remove` of the map.
unfoldable pub put : ℕ → Option Conversation → Broker → Broker
put id entry broker = λ k. if k == id then entry else broker k

abbrev pub Sorted : List Listener → Type 0
Sorted [] = Unit
Sorted (l ∷ ls) = All (λ (x : Listener). l.user ≤ x.user) ls × Sorted ls

-- `binary_search_by_key(&user, |l| l.user)`: in a sorted list it gives a position, behind which the
-- users are not smaller and before which they are not greater.
pub record Search : Type 0 where
  pub search : ℕ → List Listener → ℕ
  pub search_before :
      (user : ℕ) (ls : List Listener)
      → Sorted ls
      → All (λ (x : Listener). x.user ≤ user) (take (search user ls) ls)
  pub search_after :
      (user : ℕ) (ls : List Listener)
      → Sorted ls
      → All (λ (x : Listener). user ≤ x.user) (drop (search user ls) ls)

unfoldable pub retain : (Listener → Bool) → List Listener → List Listener
retain keep [] = []
retain keep (l ∷ ls) = let rest = retain keep ls in if keep l then l ∷ rest else rest

pub data ConnectError : Type 0 where
  database pool not_found : ConnectError

-- The conversation to join, loaded where it is not open: `load` is the pool, `by_id` and
-- `get_members`.
unfoldable pub entry_of :
    (ℕ → Result ConnectError (List ℕ)) → ℕ → Broker → Result ConnectError Conversation
entry_of load conversation broker = elim (broker conversation) [
  | some c ↦ ok c
  | none ↦ do members ← load conversation; ok (record { members = members; listeners = [] })
]

-- `Disconnect`.
unfoldable pub disconnect : ℕ → ℕ → Broker → Broker
disconnect conversation addr broker = elim (broker conversation) [
  | none ↦ broker
  | some c ↦ elim (retain (λ l. not (l.addr == addr)) c.listeners) [
    | [] ↦ put conversation none broker
    | l ∷ ls ↦ put conversation (some (record c { listeners = l ∷ ls })) broker
  ]
]

pub All-between :
    {A : Type 0} (P : A → Type 0) (y : A) (xs ys : List A)
    → P y
    → All P (xs ++ ys)
    → All P (xs ++ y ∷ ys)
All-between P y [] ys h k = (h, k)
All-between P y (x ∷ xs) ys h k = (k.0, All-between P y xs ys h k.1)

Sorted-between :
    (l : Listener) (xs ys : List Listener)
    → Sorted (xs ++ ys)
    → All (λ (x : Listener). x.user ≤ l.user) xs
    → All (λ (x : Listener). l.user ≤ x.user) ys
    → Sorted (xs ++ l ∷ ys)
Sorted-between l [] ys h before after = (after, h)
Sorted-between l (x ∷ xs) ys h before after = (
  All-between (λ (y : Listener). x.user ≤ y.user) l xs ys before.0 h.0,
  Sorted-between l xs ys h.1 before.1 after,
)

module _ (searching : Search) where
  open searching use {search, search_before, search_after}

  unfoldable pub insert : Listener → List Listener → List Listener
  insert listener ls = let inx = search listener.user ls in take inx ls ++ listener ∷ drop inx ls

  -- `Connect`.
  unfoldable pub connect :
      (ℕ → Result ConnectError (List ℕ)) → ℕ → ℕ → ℕ → Broker → Result ConnectError Broker
  connect load user conversation addr broker = do
    c ← entry_of load conversation broker
    let listener : Listener = record { user = user; addr = addr }
    ok (put conversation (some (record c { listeners = insert listener c.listeners })) broker)

  -- Inserting a listener keeps the list sorted.
  pub insert-Sorted : (l : Listener) (ls : List Listener) → Sorted ls → Sorted (insert l ls)
  unfolding insert
  insert-Sorted l ls h =
      let inx = search l.user ls in
      Sorted-between l (take inx ls) (drop inx ls) (rw (take-drop inx ls) h)
        (search_before l.user ls h) (search_after l.user ls h)
