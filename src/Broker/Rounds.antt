-- ===== src/Broker/Rounds.antt =====
-- One round of the delivery, for one user with listeners (broker.rs).
use mathlib.Core.List.Memᴰ
use adaptarr_server.Prelude.{
  ℕ, ◌<◌, ◌≤◌, ◌≡◌, ◌==◌, ltb, true, false, Bool-cases, List, [], ◌∷◌, ◌++◌, All, drop, refl, inl,
  inr, arith, ap, Memᴰ, subst, ltb_iff, sym,
}
use adaptarr_server.Broker.{Listener, Sorted}
use adaptarr_server.Broker.Delivery.{below, not_below, behind_user, listens, absent, Strict}

All-Memᴰ : {A : Type 0} (P : A → Type 0) (x : A) (xs : List A) → All P xs → Memᴰ x xs → P x
All-Memᴰ P x [] h m = absurd (Memᴰ.not-nil m)
All-Memᴰ P x (y ∷ ys) h (Memᴰ.head e) = subst P (sym e) h.0
All-Memᴰ P x (y ∷ ys) h (Memᴰ.tail m) = All-Memᴰ P x ys h.1 m

listens_later :
    (m : ℕ) (ls : List Listener) → All (λ (x : Listener). m < x.user) ls → listens ls m ≡ false
unfolding listens
listens_later m [] h = refl
listens_later m (l ∷ ls) h = ground (arith, h.0, listens_later m ls h.1)

listens-behind_user :
    (u m : ℕ) (ls : List Listener) → u < m → listens (behind_user u ls) m ≡ listens ls m
unfolding listens behind_user
listens-behind_user u m [] h = refl
listens-behind_user u m (l ∷ ls) h = ground (arith, listens-behind_user u m ls h)

absent-behind_user :
    (l : Listener) (ls : List Listener) (ms : List ℕ)
    → All (λ m. l.user < m) ms
    → absent (l ∷ ls) ms ≡ absent (behind_user l.user ls) ms
unfolding absent listens
absent-behind_user l ls [] h = refl
absent-behind_user l ls (m ∷ ms) h =
    let other : (l.user == m) ≡ false = ground (arith, h.0) in
    rw (other, listens-behind_user l.user m ls h.0, absent-behind_user l ls ms h.1)

All-trans :
    (m u : ℕ) (ls : List Listener)
    → m < u
    → All (λ (x : Listener). u ≤ x.user) ls
    → All (λ (x : Listener). m < x.user) ls
All-trans m u [] lt h = tt
All-trans m u (l ∷ ls) lt h = (omega (arith, h.0), All-trans m u ls lt h.1)

Memᴰ-later : (u n : ℕ) (ms : List ℕ) → n < u → Memᴰ u (n ∷ ms) → Memᴰ u ms
Memᴰ-later u n ms lt (Memᴰ.head e) = absurd (omega (arith, e))
Memᴰ-later u n ms lt (Memᴰ.tail m) = m

Memᴰ-first : (u n : ℕ) (ms : List ℕ) → u ≤ n → All (λ m. n < m) ms → Memᴰ u (n ∷ ms) → u ≡ n
Memᴰ-first u n ms le h (Memᴰ.head e) = e
Memᴰ-first u n ms le h (Memᴰ.tail m) = absurd (omega (arith, All-Memᴰ (λ x. n < x) u ms h m))

-- One round of the loop.
pub absent_round :
    (l : Listener) (ls : List Listener) (ms : List ℕ)
    → All (λ (x : Listener). l.user ≤ x.user) ls
    → Strict ms
    → Memᴰ l.user ms
    → absent (l ∷ ls) ms
      ≡ below l.user ms ++ absent (behind_user l.user ls) (drop 1 (not_below l.user ms))
unfolding absent below not_below
absent_round l ls [] hl hm m = absurd (Memᴰ.not-nil m)
absent_round l ls (n ∷ ms) hl hm m = elim (Bool-cases (ltb n l.user)) [
  | inl lt ↦
      let lt' : n < l.user = (ltb_iff n l.user).0 lt in
      let silent : listens (l ∷ ls) n ≡ false =
        listens_later n (l ∷ ls) (lt', All-trans n l.user ls lt' hl) in
      let later = absent_round l ls ms hl hm.1 (Memᴰ-later l.user n ms lt' m) in
      rw (silent, lt) (ap (λ t. n ∷ t) later)
  | inr ge ↦
      let same : l.user ≡ n = Memᴰ-first l.user n ms (ground (arith, ge)) hm.0 m in
      let heard : listens (l ∷ ls) n ≡ true = unfold listens in ground (arith, same) in
      let above : All (λ x. l.user < x) ms = subst (λ k. All (λ x. k < x) ms) (sym same) hm.0 in
      rw (heard, ge) (absent-behind_user l ls ms above)
]

-- What is left behind a round.
pub behind_user-lt :
    (u : ℕ) (ls : List Listener)
    → All (λ (x : Listener). u ≤ x.user) ls
    → Sorted ls
    → All (λ (x : Listener). u < x.user) (behind_user u ls) × Sorted (behind_user u ls)
unfolding behind_user
behind_user-lt u [] h k = (tt, tt)
behind_user-lt u (l ∷ ls) h k = elim (Bool-cases (l.user == u)) [
  | inl same ↦ rw same (behind_user-lt u ls h.1 k.1)
  | inr other ↦
      let lt : u < l.user = ground (arith, other, h.0) in
      rw other ((lt, All-trans u l.user ls lt k.0), k)
]

pub not_below-Strict : (u : ℕ) (ms : List ℕ) → Strict ms → Strict (drop 1 (not_below u ms))
unfolding not_below
not_below-Strict u [] h = tt
not_below-Strict u (m ∷ ms) h = elim (Bool-cases (ltb m u)) [
  | inl lt ↦ rw lt (not_below-Strict u ms h.1)
  | inr ge ↦ rw ge h.1
]

pub not_below-Memᴰ :
    (u v : ℕ) (ms : List ℕ)
    → u < v
    → Strict ms
    → Memᴰ u ms
    → Memᴰ v ms
    → Memᴰ v (drop 1 (not_below u ms))
unfolding not_below
not_below-Memᴰ u v [] lt h hu hv = absurd (Memᴰ.not-nil hu)
not_below-Memᴰ u v (m ∷ ms) lt h hu hv = elim (Bool-cases (ltb m u)) [
  | inl below_u ↦
      let lt' : m < u = (ltb_iff m u).0 below_u in
      rw below_u (
        not_below-Memᴰ u v ms lt h.1 (Memᴰ-later u m ms lt' hu)
          (Memᴰ-later v m ms (omega (arith, lt', lt)) hv))
  | inr ge ↦
      let same : u ≡ m = Memᴰ-first u m ms (ground (arith, ge)) h.0 hu in
      rw ge (Memᴰ-later v m ms (omega (arith, same, lt)) hv)
]
