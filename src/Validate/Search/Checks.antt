-- ===== src/Validate/Search/Checks.antt =====
-- What the three checks on the graph of a process accept.
use mathlib.Core.List.Memᴰ
use adaptarr_server.Prelude.{
  ℕ, zero, suc, ◌+◌, ◌<◌, Bool, true, List, [], ◌∷◌, map, length, ◌≡◌, ◌↔◌, ◌⊎◌, inl, inr, ⊎_elim,
  refl, subst, Memᴰ, Memᴰ-cons, All, Decides, Decides-iff, Decides-reject_of, Decides->>=,
  length-map, lt-length, List-cases, arith,
}
use adaptarr_server.Process.{Link, Step, unreachable_state, isolated_step}
use adaptarr_server.Process.Graph.{
  Graph, Edge, Reach, source, step, Leads, target, hop, step_graph, link_targets,
}
use adaptarr_server.Process.WellFormed.{IsFinal}
use adaptarr_server.Validate.Search.{
  check_reachable, final_steps, any_eq, check_start, check_isolated,
}
use adaptarr_server.Validate.Search.Walk.{Marks, walk_from-Yields}
use adaptarr_server.Validate.Search.Position.{AllSet, check_all_set-Decides}
use adaptarr_server.Validate.Search.Reverse.{InRange, Turned, reverse_links-Turned}

-- The ends of an edge are steps.
targets_in :
    (n : ℕ) (ls : List Link) (v : ℕ)
    → All (λ (l : Link). l.to < n) ls
    → Memᴰ v (map (λ (l : Link). l.to) ls)
    → v < n
targets_in n [] v h m = absurd (Memᴰ.not-nil m)
targets_in n (l ∷ ls) v h m =
    ⊎_elim (λ e. rw e h.0) (targets_in n ls v h.1) ((Memᴰ-cons v l.to _).0 m)

pub Edge-lt : (n : ℕ) (ss : List Step) → InRange n ss → (u v : ℕ) → Edge (step_graph ss) u v → v < n
Edge-lt n [] h u v m = absurd (Memᴰ.not-nil m)
Edge-lt n (s ∷ ss) h zero v m = targets_in n s.links v h.0 m
Edge-lt n (s ∷ ss) h (suc u) v m = Edge-lt n ss h.1 u v m

pub lt-Edge : (ss : List Step) (u v : ℕ) → Edge (step_graph ss) u v → u < length ss
lt-Edge [] u v m = absurd (Memᴰ.not-nil m)
lt-Edge (s ∷ ss) zero v m = omega arith
lt-Edge (s ∷ ss) (suc u) v m = omega (arith, lt-Edge ss u v m)

-- When a search marks `Reach g ss`, the check of its flags asks that all `n` vertices are reached.
check-Marks :
    (g : Graph) (ss : List ℕ) (n : ℕ) (bs : List Bool)
    → length g ≡ n
    → Marks g ss bs
    → AllSet bs ↔ ((v : ℕ) → v < n → Reach g ss v)
check-Marks g ss n bs e m =
    (λ all v h. (m.1 v).0 (all v (rw (m.0, e) h)), λ all v h. (m.1 v).1 (all v (rw (m.0, e) at h)))

pub check_reachable-Decides :
    (start : ℕ) (steps : List Step)
    → start < length steps
    → InRange (length steps) steps
    → Decides
        (check_reachable start steps)
        ((v : ℕ) → v < length steps → Reach (step_graph steps) (start ∷ []) v)
unfolding check_reachable
check_reachable-Decides start steps h r =
    Decides-iff _ ((λ p. p.1), λ p. (tt, p))
      (Decides->>= _ _ _ _
        (walk_from-Yields g (start ∷ []) (λ u v e. rw size (Edge-lt (length steps) steps r u v e))
          (λ s m. rw (size, Memᴰ.eq_of_singleton m) h))
        (λ bs _ m.
          Decides-iff _ (check-Marks g (start ∷ []) (length steps) bs size m)
            (check_all_set-Decides unreachable_state bs)))
  where
    g : Graph
    g = step_graph steps

    size : length g ≡ length steps
    size = length-map link_targets steps

-- The final ones among the steps `ss`, when the first of them has the index `i`.
abbrev FinalFrom : ℕ → List Step → ℕ → Type 0
FinalFrom i ss k = (j : ℕ) × (k ≡ i + j) × IsFinal ss j

FinalFrom-cons :
    (i k : ℕ) (s : Step) (ss : List Step)
    → FinalFrom i (s ∷ ss) k ↔ ((k ≡ i) × (s.links ≡ []) ⊎ FinalFrom (suc i) ss k)
FinalFrom-cons i k s ss = (λ (j, e, f). apart j e f, ⊎_elim here later)
  where
    apart :
        (j : ℕ) → k ≡ i + j → IsFinal (s ∷ ss) j → (k ≡ i) × (s.links ≡ []) ⊎ FinalFrom (suc i) ss k
    apart zero e (t, at, none) = inl (omega arith, cc)
    apart (suc j) e f = inr (j, omega arith, f)

    here : (k ≡ i) × (s.links ≡ []) → FinalFrom i (s ∷ ss) k
    here (e, none) = (0, omega arith, (s, refl, none))

    later : FinalFrom (suc i) ss k → FinalFrom i (s ∷ ss) k
    later (j, e, f) = (suc j, omega arith, f)

mem-final_steps : (i k : ℕ) (ss : List Step) → Memᴰ k (final_steps i ss) ↔ FinalFrom i ss k
unfolding final_steps
mem-final_steps i k [] = (λ m. absurd (Memᴰ.not-nil m), λ (j, e, f). cc f.1)
mem-final_steps i k (s ∷ ss) = elim (List-cases s.links) [
  | inl none ↦
      rw (none, final_steps)
        (ground (
          arith,
          FinalFrom-cons i k s ss,
          mem-final_steps (suc i) k ss,
          Memᴰ-cons k i (final_steps (suc i) ss),
          none,
        ))
  | inr (l, ls, more) ↦
      rw (more, final_steps)
        (ground (arith, FinalFrom-cons i k s ss, mem-final_steps (suc i) k ss, more))
]

any_eq_iff : (k : ℕ) (fs : List ℕ) → (any_eq k fs ≡ true) ↔ Memᴰ k fs
unfolding any_eq
any_eq_iff k [] = (λ e. cc, λ m. absurd (Memᴰ.not-nil m))
any_eq_iff k (f ∷ fs) = ground (arith, any_eq_iff k fs, Memᴰ-cons k f fs)

mem-IsFinal : (steps : List Step) (k : ℕ) → Memᴰ k (final_steps 0 steps) ↔ IsFinal steps k
mem-IsFinal steps k =
    let e = mem-final_steps 0 k steps in
    (
      λ m. let (j, at, f) = e.0 m in subst (IsFinal steps) (omega arith) f,
      λ f. e.1 (k, omega arith, f),
    )

pub check_start-Decides :
    (start : ℕ) (steps : List Step) → Decides (check_start start steps) (¬ IsFinal steps start)
unfolding check_start
check_start-Decides start steps = Decides-reject_of _ _ (
  λ e. (mem-IsFinal steps start).0 ((any_eq_iff start _).0 e),
  λ f. (any_eq_iff start _).1 ((mem-IsFinal steps start).1 f),
)

module _ (steps : List Step) (links : Graph) (turned : Turned steps links) where
  Leads-of_Reach :
      (v : ℕ) → Reach links (final_steps 0 steps) v → Leads (step_graph steps) (IsFinal steps) v
  Leads-of_Reach v (source m) = target ((mem-IsFinal steps v).0 m)
  Leads-of_Reach v (step {u} r e) = hop ((turned.1 v u).0 e) (Leads-of_Reach u r)

  Reach-of_Leads :
      (v : ℕ) → Leads (step_graph steps) (IsFinal steps) v → Reach links (final_steps 0 steps) v
  Reach-of_Leads v (target f) = source ((mem-IsFinal steps v).1 f)
  Reach-of_Leads v (hop {v = w} e l) = step (Reach-of_Leads w l) ((turned.1 v w).1 e)

pub check_isolated-Decides :
    (steps : List Step)
    → InRange (length steps) steps
    → Decides
        (check_isolated steps)
        ((v : ℕ) → v < length steps → Leads (step_graph steps) (IsFinal steps) v)
unfolding check_isolated
check_isolated-Decides steps r =
    Decides-iff _ ((λ p. p.1.1), λ p. (tt, (tt, p)))
      (Decides->>= _ _ _ _ (reverse_links-Turned steps r) (λ links _ t.
        Decides->>= _ _ _ _
          (walk_from-Yields links (final_steps 0 steps)
            (λ u v e. rw t.0 (lt-Edge steps v u ((t.1 v u).0 e)))
            (λ s m. rw t.0 (final-lt s ((mem-IsFinal steps s).0 m))))
          (λ bs _ m. Decides-iff _ (leads links t bs m) (check_all_set-Decides isolated_step bs))))
  where
    final-lt : (k : ℕ) → IsFinal steps k → k < length steps
    final-lt k (s, at, none) = lt-length steps k s at

    leads :
        (links : Graph) (t : Turned steps links) (bs : List Bool)
        → Marks links (final_steps 0 steps) bs
        → AllSet bs ↔ ((v : ℕ) → v < length steps → Leads (step_graph steps) (IsFinal steps) v)
    leads links t bs m =
        let e = check-Marks links (final_steps 0 steps) (length steps) bs t.0 m in
        (
          λ all v h. Leads-of_Reach steps links t v (e.0 all v h),
          λ all. e.1 (λ v h. Reach-of_Leads steps links t v (all v h)),
        )
