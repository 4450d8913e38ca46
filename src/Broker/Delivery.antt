-- ===== src/Broker/Delivery.antt =====
-- The delivery of a new message (broker.rs): listeners get the event, other members a notification.
use adaptarr_server.Prelude.{
  ℕ, zero, suc, ◌<◌, ◌==◌, ltb, Bool, false, Option, none, some, List, [], ◌∷◌, ◌++◌, map, All,
  drop, if◌then◌else◌, ◌||◌,
}
use adaptarr_server.Broker.{Listener}

-- `EventManager::notify` of a member, and `do_send` to a listener with, where it fails, the
-- `Disconnect` of that listener that is queued.
pub data Action : Type 0 where
  notify : ℕ → Action
  send : Listener → Action

-- `while let Some(&user) = member { if user >= lst.user { break } … }`: whom it notifies, and the
-- members that are left.
unfoldable pub below : ℕ → List ℕ → List ℕ
below limit [] = []
below limit (m ∷ ms) = let rest = below limit ms in if ltb m limit then m ∷ rest else []

unfoldable pub not_below : ℕ → List ℕ → List ℕ
not_below limit [] = []
not_below limit (m ∷ ms) = let rest = not_below limit ms in if ltb m limit then rest else m ∷ ms

-- `while let Some(lst) = listener { if lst.user != user { break; } … }`.
unfoldable pub with_user : ℕ → List Listener → List Listener
with_user user [] = []
with_user user (l ∷ ls) = let rest = with_user user ls in if l.user == user then l ∷ rest else []

unfoldable pub behind_user : ℕ → List Listener → List Listener
behind_user user [] = []
behind_user user (l ∷ ls) =
    let rest = behind_user user ls in if l.user == user then rest else l ∷ ls

-- The outer loop, with fuel; the first listener of a round has the user of the round.
unfoldable pub deliver : ℕ → List Listener → List ℕ → Option (List Action)
deliver fuel [] members = some (map notify members)
deliver zero (l ∷ ls) members = none
deliver (suc fuel) (l ∷ ls) members =
    elim (deliver fuel (behind_user l.user ls) (drop 1 (not_below l.user members))) [
      | none ↦ none
      | some rest ↦
          some (
            map notify (below l.user members)
            ++ (send l ∷ (map send (with_user l.user ls) ++ rest)))
    ]

-- Those that are notified, and the listeners that the event is sent to.
unfoldable pub notified : List Action → List ℕ
notified [] = []
notified (notify u ∷ acts) = u ∷ notified acts
notified (send l ∷ acts) = notified acts

unfoldable pub sent : List Action → List Listener
sent [] = []
sent (notify u ∷ acts) = sent acts
sent (send l ∷ acts) = l ∷ sent acts

unfoldable pub listens : List Listener → ℕ → Bool
listens [] m = false
listens (l ∷ ls) m = l.user == m || listens ls m

-- The members that do not listen.
unfoldable pub absent : List Listener → List ℕ → List ℕ
absent ls [] = []
absent ls (m ∷ ms) = let rest = absent ls ms in if listens ls m then rest else m ∷ rest

abbrev pub Strict : List ℕ → Type 0
Strict [] = Unit
Strict (m ∷ ms) = All (λ x. m < x) ms × Strict ms
