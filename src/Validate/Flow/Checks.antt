-- ===== src/Validate/Flow/Checks.antt =====
-- What the loops over proposed and accepted changes accept.
use mathlib.Core.List.Memᴰ
use adaptarr_server.Prelude.{
  ℕ, zero, suc, ◌+◌, ◌≤◌, get_or, ◌<◌, Bool, true, false, some, List, [], ◌∷◌, map, length,
  get_elem?, replicate, index, ◌>>=◌, ◌≡◌, ◌∙◌, ◌↔◌, ◌⊎◌, inl, inr, ⊎_elim, refl, subst, Memᴰ,
  Memᴰ-cons, All, AllFrom, AllFrom-iff, All-iff, Yields, Decides, Yields-iff, Yields->>=, Yields->>,
  Decides-iff, Decides->>=, Decides->>, Decides-reject, Decides-for_each, Bool-cases,
  length-replicate, get_or-replicate, get_or-eq, get_elem?-lt, arith,
}
use adaptarr_server.Process.{SlotPermission, propose_changes, accept_changes, Link, Step}
use adaptarr_server.Process.Graph.{Edge, step_graph, link_targets}
use adaptarr_server.Process.WellFormed.{Grants, GrantsAt, GoodFlow}
use adaptarr_server.Validate.Flow.{
  any_grants, Incoming, accept_follows, check_followed, check_proposals, check_acceptance,
  check_flow,
}
use adaptarr_server.Validate.Flow.Counts.{
  any_grants_iff, part, counter, count_links-Yields, Sends, Tallied, Tallied-nil, Tallied-cons,
  at-of_Sends, Sends-of_at,
}
use adaptarr_server.Validate.Search.Reverse.{InRange}
use adaptarr_server.Validate.Search.Checks.{lt-Edge}

GrantsAt-iff :
    (p : SlotPermission) (steps : List Step) (k : ℕ) (s : Step)
    → get_elem? steps k ≡ some s
    → GrantsAt p steps k ↔ Grants p s
GrantsAt-iff p steps k s e =
    (λ (t, f, g). let same : t ≡ s = cc in subst (Grants p) same g, λ g. (s, e, g))

-- Some of the links leads to a step that grants accept-changes.
abbrev Accepts : List Step → List Link → Type 0
Accepts steps ls = (v : ℕ) × Memᴰ v (map (λ (l : Link). l.to) ls) × GrantsAt accept_changes steps v

Accepts-cons :
    (steps : List Step) (l : Link) (ls : List Link) (next : Step)
    → get_elem? steps l.to ≡ some next
    → Accepts steps (l ∷ ls) ↔ (Grants accept_changes next ⊎ Accepts steps ls)
Accepts-cons steps l ls next e = (
  λ (v, m, g). ⊎_elim (λ q. inl ((at v q).0 g)) (λ q. inr (v, q, g)) ((Memᴰ-cons v l.to _).0 m),
  ⊎_elim (λ g. (l.to, Memᴰ.head refl, (next, e, g))) (λ (v, m, g). (v, Memᴰ.tail m, g)),
)
  where
    at : (v : ℕ) → v ≡ l.to → GrantsAt accept_changes steps v ↔ Grants accept_changes next
    at v q = rw q (GrantsAt-iff accept_changes steps l.to next e)

accept_follows-Yields :
    (steps : List Step) (ls : List Link)
    → All (λ (l : Link). l.to < length steps) ls
    → Yields (accept_follows steps ls) (Unit {0}) (λ b. (b ≡ true) ↔ Accepts steps ls)
unfolding accept_follows Yields index
accept_follows-Yields steps [] h = (tt, (λ e. cc, λ (v, m, g). absurd (Memᴰ.not-nil m)))
accept_follows-Yields steps (l ∷ ls) h =
    let (next, e) = get_elem?-lt steps l.to h.0 in
    let grants = any_grants_iff accept_changes next.slots in
    let more = Accepts-cons steps l ls next e in
    elim (Bool-cases (any_grants accept_changes next.slots)) [
      | inl g ↦ rw (e, index, ◌>>=◌, g) (tt, (λ _. more.1 (inl (grants.0 g)), λ _. refl))
      | inr n ↦
          rw (e, index, ◌>>=◌, n)
            (Yields-iff _ ((λ _. tt), λ _. tt)
              (λ b iff. (
                λ q. more.1 (inr (iff.0 q)),
                λ a. ⊎_elim (λ g. cc (grants.1 g, n)) iff.1 (more.0 a),
              ))
              (accept_follows-Yields steps ls h.1))
    ]

abbrev Followed : List Step → Step → Type 0
Followed steps s = Grants propose_changes s → Accepts steps s.links

check_followed-Decides :
    (steps : List Step) (i : ℕ) (s : Step)
    → All (λ (l : Link). l.to < length steps) s.links
    → Decides (check_followed steps i s) (Followed steps s)
unfolding check_followed
check_followed-Decides steps i s h =
    let proposes = any_grants_iff propose_changes s.slots in
    elim (Bool-cases (any_grants propose_changes s.slots)) [
      | inl yes_propose ↦ rw yes_propose (
          Decides-iff _ ((λ a _. a.1), λ f. (tt, f (proposes.0 yes_propose)))
            (Decides->>= _ _ _ _ (accept_follows-Yields steps s.links h)
              (λ b _ iff. Decides-reject _ _ (ground (arith, iff)))))
      | inr no_propose ↦ rw no_propose (unfold Decides in λ g. cc (proposes.1 g, no_propose))
    ]

check_proposals-Yields :
    (steps : List Step) (i : ℕ) (ss : List Step) (inc : Incoming)
    → length inc ≡ length steps
    → InRange (length steps) ss
    → Yields (check_proposals steps i ss inc) (All (Followed steps) ss) (Tallied inc ss)
unfolding check_proposals
check_proposals-Yields steps i [] inc size h = unfold Yields in (tt, Tallied-nil inc)
check_proposals-Yields steps i (s ∷ ss) inc size h =
    Yields-iff _ ((λ p. p.1), λ p. (tt, p)) (λ out t. t)
      (Yields->>= _ _ _ _ _ (count_links-Yields _ s.links inc (rw size h.0)) (λ mid _ c.
        Yields->> _ _ _ _ (check_followed-Decides steps i s h.0) (λ _.
          Yields-iff _ ((λ p. p), λ p. p) (λ out t. Tallied-cons inc s ss mid out c t)
            (check_proposals-Yields steps (suc i) ss mid (c.size ∙ size) h.1))))

-- What `check_acceptance` asks of a step, by the links into it.
abbrev Preceded : List Step → ℕ → Step → Type 0
Preceded steps i s = Grants accept_changes s → Sends true steps i × (¬ Sends false steps i)

blank_counts : (n : ℕ) (b : Bool) (v : ℕ) → ¬ (0 < counter b (replicate n (0, 0)) v)
blank_counts n b v h = zeros b (rw (get_or-replicate {A = ℕ × ℕ} n (0, 0) v) at h)
  where
    zeros : (b : Bool) → ¬ (0 < part b (0, 0))
    zeros true h = omega arith
    zeros false h = omega arith

tally_iff :
    (steps : List Step) (inc : Incoming)
    → Tallied (replicate (length steps) (0, 0)) steps inc
    → (b : Bool) (v : ℕ) → (0 < counter b inc v) ↔ Sends b steps v
tally_iff steps inc t b v = (
  λ h. ⊎_elim (λ old. absurd (blank_counts (length steps) b v old)) (λ q. q) ((t.counts b v).0 h),
  λ q. (t.counts b v).1 (inr q),
)

check_acceptance-Decides :
    (steps : List Step) (inc : Incoming)
    → Tallied (replicate (length steps) (0, 0)) steps inc
    → (i : ℕ) (s : Step) → i < length steps
    → Decides (check_acceptance inc i s) (Preceded steps i s)
unfolding check_acceptance index
check_acceptance-Decides steps inc t i s h =
    let accepts = any_grants_iff accept_changes s.slots in
    let (c, e) =
      get_elem?-lt inc i (rw (t.size, length-replicate {A = ℕ × ℕ} (length steps) (0, 0)) h) in
    let at = get_or-eq inc i c (0, 0) e in
    let propose = rw at at (tally_iff steps inc t true i) in
    let other = rw at at (tally_iff steps inc t false i) in
    elim (Bool-cases (any_grants accept_changes s.slots)) [
      | inl yes_accept ↦
          rw (yes_accept, e, index, ◌>>=◌)
            (Decides-iff _ ((λ p _. p), λ f. f (accepts.0 yes_accept))
              (Decides->> _ _ _ (Decides-reject _ _ (ground (arith, propose)))
                (λ _. Decides-reject _ _ (ground (arith, other)))))
      | inr no_accept ↦ rw no_accept (unfold Decides in λ g. cc (accepts.1 g, no_accept))
    ]

positions : (n i : ℕ) (ss : List Step) → i + length ss ≤ n → AllFrom (λ k _. k < n) i ss
positions n i [] h = tt
positions n i (s ∷ ss) h = (omega arith, positions n (suc i) ss (omega arith))

graph_at :
    (steps : List Step) (u : ℕ) (s : Step)
    → get_elem? steps u ≡ some s
    → get_or (step_graph steps) u [] ≡ link_targets s
graph_at [] u s e = cc
graph_at (t ∷ steps) zero s e = let same : t ≡ s = cc in rw same
graph_at (t ∷ steps) (suc u) s e = graph_at steps u s e

proposes_at :
    (steps : List Step) (u v : ℕ)
    → ¬ Sends false steps v
    → Edge (step_graph steps) u v
    → GrantsAt propose_changes steps u
proposes_at steps u v no_other m =
    let (s, e) = get_elem?-lt steps u (lt-Edge steps u v m) in
    elim (Bool-cases (any_grants propose_changes s.slots)) [
      | inl g ↦ (s, e, (any_grants_iff propose_changes s.slots).0 g)
      | inr n ↦ absurd (no_other (Sends-of_at false steps u v s m e n))
    ]

GoodFlow-of_checks :
    (steps : List Step)
    → All (Followed steps) steps
    → AllFrom (Preceded steps) 0 steps
    → GoodFlow steps
GoodFlow-of_checks steps h k = record {
  followed = λ u (s, e, g).
      let (v, m, a) = (All-iff (Followed steps) steps).0 h u s e g in
      (v, rw (graph_at steps u s e) m, a);
  preceded = λ v (s, e, g).
      let (u, m, t, at, q) =
        at-of_Sends true steps v ((AllFrom-iff (Preceded steps) steps).0 k v s e g).0 in
      (u, m, (t, at, (any_grants_iff propose_changes t.slots).0 q));
  only = λ u v (s, e, g) m.
      proposes_at steps u v ((AllFrom-iff (Preceded steps) steps).0 k v s e g).1 m;
}

Preceded-of_GoodFlow :
    (steps : List Step)
    → GoodFlow steps
    → (v : ℕ) (s : Step) → get_elem? steps v ≡ some s
    → Preceded steps v s
Preceded-of_GoodFlow steps f v s e g =
    let (u, m, (t, at, q)) = f.preceded v (s, e, g) in
    (
      Sends-of_at true steps u v t m at ((any_grants_iff propose_changes t.slots).1 q),
      λ sends.
          let (w, n, r, here, no_propose) = at-of_Sends false steps v sends in
          let grants = (GrantsAt-iff propose_changes steps w r here).0 (f.only w v (s, e, g) n) in
          cc ((any_grants_iff propose_changes r.slots).1 grants, no_propose),
    )

GoodFlow-iff :
    (steps : List Step)
    → (All (Followed steps) steps × AllFrom (Preceded steps) 0 steps) ↔ GoodFlow steps
GoodFlow-iff steps = (
  λ h. GoodFlow-of_checks steps h.0 h.1,
  λ f. (
    (All-iff (Followed steps) steps).1 (λ u s e g.
        let (v, m, a) = f.followed u (s, e, g) in (v, rw (graph_at steps u s e) at m, a)),
    (AllFrom-iff (Preceded steps) steps).1 (Preceded-of_GoodFlow steps f),
  ),
)

pub check_flow-Decides :
    (steps : List Step) → InRange (length steps) steps → Decides (check_flow steps) (GoodFlow steps)
unfolding check_flow
check_flow-Decides steps h = Decides-iff _ (GoodFlow-iff steps) (
    Decides->>= _ _ _ _
      (check_proposals-Yields steps 0 steps _ (length-replicate {A = ℕ × ℕ} (length steps) (0, 0))
        h)
      (λ inc _ t.
        Decides-for_each (check_acceptance inc) (λ i _. i < length steps) (Preceded steps)
          (check_acceptance-Decides steps inc t) 0 steps
          (positions (length steps) 0 steps (omega arith))))
