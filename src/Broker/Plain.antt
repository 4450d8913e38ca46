-- ===== src/Broker/Plain.antt =====
-- Instances of what the broker is a function of: a binary search that looks at one listener after the
-- other, and members.
use adaptarr_server.Prelude.{
  ◌≡◌, subst, Result, ok, ℕ, suc, ◌≤◌, ltb, Bool-cases, List, [], ◌∷◌, All, take, drop,
  if◌then◌else◌, inl, inr, arith,
}
use adaptarr_server.Broker.{Listener, Sorted, Search}
use adaptarr_server.Broker.{ConnectError}
use adaptarr_server.Broker.Delivery.{Strict}

unfoldable pub position : ℕ → List Listener → ℕ
position user [] = 0
position user (l ∷ ls) = let later = suc (position user ls) in if ltb l.user user then later else 0

pub position_before :
    (user : ℕ) (ls : List Listener)
    → All (λ (x : Listener). x.user ≤ user) (take (position user ls) ls)
unfolding position
position_before user [] = tt
position_before user (l ∷ ls) = elim (Bool-cases (ltb l.user user)) [
  | inl lt ↦ rw lt (ground (arith, lt), position_before user ls)
  | inr ge ↦ rw ge tt
]

All-above :
    (a b : ℕ) (ls : List Listener)
    → a ≤ b
    → All (λ (x : Listener). b ≤ x.user) ls
    → All (λ (x : Listener). a ≤ x.user) ls
All-above a b [] le h = tt
All-above a b (l ∷ ls) le h = (omega (arith, h.0), All-above a b ls le h.1)

pub position_after :
    (user : ℕ) (ls : List Listener)
    → Sorted ls
    → All (λ (x : Listener). user ≤ x.user) (drop (position user ls) ls)
unfolding position
position_after user [] h = tt
position_after user (l ∷ ls) h = elim (Bool-cases (ltb l.user user)) [
  | inl lt ↦ rw lt (position_after user ls h.1)
  | inr ge ↦
      let le : user ≤ l.user = ground (arith, ge) in rw ge (le, All-above user l.user ls le h.0)
]

abbrev pub searching : Search
searching = record {
  search = position;
  search_before = λ user ls h. position_before user ls;
  search_after = position_after;
}

-- The members of every conversation.
abbrev pub members : List ℕ
members = 1 ∷ 2 ∷ 5 ∷ []

abbrev pub load : ℕ → Result ConnectError (List ℕ)
load conversation = ok members

pub members-Strict : (k : ℕ) (ms : List ℕ) → load k ≡ ok ms → Strict ms
members-Strict k ms e =
    let same : members ≡ ms = cc e in
    subst Strict same ((omega arith, (omega arith, tt)), ((omega arith, tt), (tt, tt)))
