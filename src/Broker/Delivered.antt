-- ===== src/Broker/Delivered.antt =====
-- What the delivery of a message comes to (broker.rs).
use adaptarr_server.Prelude.{
  ℕ, zero, suc, ◌<◌, ◌≤◌, ◌≡◌, ◌==◌, Bool-cases, some, List, [], ◌∷◌, ◌++◌, map, All, length, drop,
  refl, inl, inr, arith, ap, Memᴰ, sym,
}
use adaptarr_server.Broker.{Listener, Sorted}
use adaptarr_server.Broker.Delivery.{
  Action, notify, send, below, not_below, with_user, behind_user, deliver, notified, sent, listens,
  absent, Strict,
}
use adaptarr_server.Broker.Rounds.{absent_round, behind_user-lt, not_below-Strict, not_below-Memᴰ}

sent-notify : (ms : List ℕ) (acts : List Action) → sent (map notify ms ++ acts) ≡ sent acts
unfolding sent
sent-notify [] acts = refl
sent-notify (m ∷ ms) acts = sent-notify ms acts

sent-send : (ls : List Listener) (acts : List Action) → sent (map send ls ++ acts) ≡ ls ++ sent acts
unfolding sent
sent-send [] acts = refl
sent-send (l ∷ ls) acts = ap (λ t. l ∷ t) (sent-send ls acts)

notified-notify :
    (ms : List ℕ) (acts : List Action) → notified (map notify ms ++ acts) ≡ ms ++ notified acts
unfolding notified
notified-notify [] acts = refl
notified-notify (m ∷ ms) acts = ap (λ t. m ∷ t) (notified-notify ms acts)

notified-send :
    (ls : List Listener) (acts : List Action) → notified (map send ls ++ acts) ≡ notified acts
unfolding notified
notified-send [] acts = refl
notified-send (l ∷ ls) acts = notified-send ls acts

sent-all : (ms : List ℕ) → sent (map notify ms) ≡ []
unfolding sent
sent-all [] = refl
sent-all (m ∷ ms) = sent-all ms

notified-all : (ms : List ℕ) → notified (map notify ms) ≡ absent [] ms
unfolding notified absent listens
notified-all [] = refl
notified-all (m ∷ ms) = ap (λ t. m ∷ t) (notified-all ms)

with-behind_user : (u : ℕ) (ls : List Listener) → with_user u ls ++ behind_user u ls ≡ ls
unfolding with_user behind_user
with-behind_user u [] = refl
with-behind_user u (l ∷ ls) = elim (Bool-cases (l.user == u)) [
  | inl same ↦ rw same (ap (λ t. l ∷ t) (with-behind_user u ls))
  | inr other ↦ rw other
]

behind_user-length : (u : ℕ) (ls : List Listener) → length (behind_user u ls) ≤ length ls
unfolding behind_user
behind_user-length u [] = omega arith
behind_user-length u (l ∷ ls) = elim (Bool-cases (l.user == u)) [
  | inl same ↦ rw same (omega (arith, behind_user-length u ls))
  | inr other ↦ rw other (omega arith)
]

behind_user-All :
    (P : Listener → Type 0) (u : ℕ) (ls : List Listener) → All P ls → All P (behind_user u ls)
unfolding behind_user
behind_user-All P u [] h = tt
behind_user-All P u (l ∷ ls) h = elim (Bool-cases (l.user == u)) [
  | inl same ↦ rw same (behind_user-All P u ls h.1)
  | inr other ↦ rw other h
]

-- Listeners above the user of a round that are members are members behind the round.
members_left :
    (u : ℕ) (ls : List Listener) (ms : List ℕ)
    → Strict ms
    → Memᴰ u ms
    → All (λ (x : Listener). Memᴰ x.user ms) ls
    → All (λ (x : Listener). u < x.user) ls
    → All (λ (x : Listener). Memᴰ x.user (drop 1 (not_below u ms))) ls
members_left u [] ms hm hu h above = tt
members_left u (l ∷ ls) ms hm hu h above =
    (not_below-Memᴰ u l.user ms above.0 hm hu h.0, members_left u ls ms hm hu h.1 above.1)

deliver_round :
    (fuel : ℕ) (l : Listener) (ls : List Listener) (ms : List ℕ) (acts : List Action)
    → deliver fuel (behind_user l.user ls) (drop 1 (not_below l.user ms)) ≡ some acts
    → deliver (suc fuel) (l ∷ ls) ms
      ≡ some (map notify (below l.user ms) ++ (send l ∷ (map send (with_user l.user ls) ++ acts)))
unfolding deliver
deliver_round fuel l ls ms acts e = rw (e, deliver)

delivered :
    (fuel : ℕ) (ls : List Listener) (ms : List ℕ)
    → length ls ≤ fuel
    → Sorted ls
    → Strict ms
    → All (λ (x : Listener). Memᴰ x.user ms) ls
    → (acts : List Action) × (deliver fuel ls ms ≡ some acts)
      × (sent acts ≡ ls)
      × (notified acts ≡ absent ls ms)
unfolding deliver
delivered fuel [] ms enough hl hm h = (map notify ms, refl, sent-all ms, notified-all ms)
delivered zero (l ∷ ls) ms enough hl hm h = absurd (omega arith)
delivered (suc fuel) (l ∷ ls) ms enough hl hm h =
    let (above, sorted) = behind_user-lt l.user ls hl.0 hl.1 in
    let left =
      members_left l.user (behind_user l.user ls) ms hm h.0
        (behind_user-All (λ x. Memᴰ x.user ms) l.user ls h.1) above in
    let (acts, e, es, en) =
      delivered fuel (behind_user l.user ls) (drop 1 (not_below l.user ms))
        (omega (arith, behind_user-length l.user ls)) sorted (not_below-Strict l.user ms hm) left in
    (
      map notify (below l.user ms) ++ (send l ∷ (map send (with_user l.user ls) ++ acts)),
      deliver_round fuel l ls ms acts e,
      rw (sent-notify, sent_first, sent-send, es) (ap (λ t. l ∷ t) (with-behind_user l.user ls)),
      rw (notified-notify, notified_first, notified-send, en)
          (sym (absent_round l ls ms hl.0 hm h.0)),
    )
  where
    sent_first : (acts : List Action) → sent (send l ∷ acts) ≡ l ∷ sent acts
    sent_first acts = unfold sent in refl

    notified_first : (acts : List Action) → notified (send l ∷ acts) ≡ notified acts
    notified_first acts = unfold notified in refl

-- With enough fuel the loop ends: every listener gets the event once, in order, and exactly the
-- members that do not listen are notified, once and in order. The listeners are sorted and members.
pub deliver_correct :
    (ls : List Listener) (ms : List ℕ)
    → Sorted ls
    → Strict ms
    → All (λ (x : Listener). Memᴰ x.user ms) ls
    → (acts : List Action) × (deliver (length ls) ls ms ≡ some acts)
      × (sent acts ≡ ls)
      × (notified acts ≡ absent ls ms)
deliver_correct ls ms = delivered (length ls) ls ms (omega arith)
