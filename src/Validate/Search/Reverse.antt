-- ===== src/Validate/Search/Reverse.antt =====
-- `reverse_links` returns the graph of the links, turned round.
use mathlib.Core.List.Memᴰ
use adaptarr_server.Prelude.{
  ℕ, zero, suc, ◌+◌, ◌<◌, some, List, [], ◌∷◌, ◌++◌, map, length, set, get_or, get_elem?, replicate,
  ◌==◌, index, ◌≡◌, ◌∙◌, sym, subst, ◌≢◌, ◌↔◌, ◌⊎◌, inl, inr, ⊎_elim, refl, Memᴰ, Memᴰ-cons,
  Memᴰ-concat, All, ok, Yields-ok, Yields, Yields-ok, ok, Yields-iff, Yields->>=, Bool-cases,
  length-set, length-replicate, get_or-replicate, get_elem?-lt, get_or-eq, get_or-set_self,
  get_or-set_ne, arith,
}
use adaptarr_server.Process.{Link, Step}
use adaptarr_server.Process.Graph.{Graph, Edge, step_graph, link_targets}
use adaptarr_server.Validate.Search.{reverse_step, reverse_links}

-- Every link of every step leads to a vertex below `n`.
abbrev pub InRange : ℕ → List Step → Type 0
InRange n ss = All (λ (s : Step). All (λ (l : Link). l.to < n) s.links) ss

-- The edges of the steps `ss`, when the first of them has the index `i`.
abbrev EdgeFrom : ℕ → List Step → ℕ → ℕ → Type 0
EdgeFrom i ss u v = (k : ℕ) × (u ≡ i + k) × Edge (step_graph ss) k v

EdgeFrom-cons :
    (i : ℕ) (s : Step) (ss : List Step) (u v : ℕ)
    → EdgeFrom i (s ∷ ss) u v ↔ ((u ≡ i) × Memᴰ v (link_targets s) ⊎ EdgeFrom (suc i) ss u v)
EdgeFrom-cons i s ss u v =
    (λ (k, e, m). apart k e m, ⊎_elim (λ h. (0, omega (arith, h.0), h.1)) later)
  where
    apart :
        (k : ℕ)
        → u ≡ i + k
        → Edge (step_graph (s ∷ ss)) k v
        → (u ≡ i) × Memᴰ v (link_targets s) ⊎ EdgeFrom (suc i) ss u v
    apart zero e m = inl (omega arith, m)
    apart (suc k) e m = inr (k, omega arith, m)

    later : EdgeFrom (suc i) ss u v → EdgeFrom i (s ∷ ss) u v
    later (k, e, m) = (suc k, omega arith, m)

mem-push :
    (g : Graph) (to i : ℕ) (into : List ℕ) (u v : ℕ)
    → get_elem? g to ≡ some into
    → to < length g
    → Memᴰ u (get_or (set g to (into ++ i ∷ [])) v [])
      ↔ (Memᴰ u (get_or g v []) ⊎ (v ≡ to) × (u ≡ i))
mem-push g to i into u v e h = elim (Bool-cases (to == v)) [
  | inl same ↦
      let eq : v ≡ to = ground arith in
      rw (eq, get_or-set_self g to (into ++ i ∷ []) [] h, get_or-eq g to into [] e)
        (ground (arith, Memᴰ-concat u i into))
  | inr other ↦
      let ne : to ≢ v = ground arith in
      rw (get_or-set_ne g to v (into ++ i ∷ []) [] ne)
        (inl, ⊎_elim (λ m. m) (λ q. absurd (ne (sym q.0))))
]

-- The graph `out` has, besides the edges of `g`, one to `i` from each target of the links.
record Added (g : Graph) (i : ℕ) (ls : List Link) (out : Graph) : Type 0 where
  size : length out ≡ length g
  edges :
      (u v : ℕ)
      → Memᴰ u (get_or out v [])
        ↔ (Memᴰ u (get_or g v []) ⊎ (u ≡ i) × Memᴰ v (map (λ (l : Link). l.to) ls))

Added-cons :
    (g : Graph) (i : ℕ) (l : Link) (ls : List Link) (into : List ℕ) (out : Graph)
    → get_elem? g l.to ≡ some into
    → l.to < length g
    → Added (set g l.to (into ++ i ∷ [])) i ls out
    → Added g i (l ∷ ls) out
Added-cons g i l ls into out e h a = record {
  size = a.size ∙ length-set g l.to _;
  edges = λ u v. ground (
    arith,
    a.edges u v,
    mem-push g l.to i into u v e h,
    Memᴰ-cons v l.to (map (λ (k : Link). k.to) ls),
  );
}

reverse_step-Yields :
    (i : ℕ) (ls : List Link) (g : Graph)
    → All (λ (l : Link). l.to < length g) ls
    → Yields (reverse_step i ls g) (Unit {0}) (Added g i ls)
unfolding reverse_step Yields index
reverse_step-Yields i [] g h = (
  tt,
  record { size = refl; edges = λ u v. (inl, ⊎_elim (λ m. m) (λ q. absurd (Memᴰ.not-nil q.1))) },
)
reverse_step-Yields i (l ∷ ls) g h =
    let (into, e) = get_elem?-lt g l.to h.0 in
    let g' = set g l.to (into ++ i ∷ []) in
    let bound : length g' ≡ length g = length-set g l.to _ in
    let ih = reverse_step-Yields i ls g' (rw bound h.1) in
    rw (e, index) (Yields-iff _ ((λ _. tt), λ _. tt) (λ out. Added-cons g i l ls into out e h.0) ih)

record Reversed (g : Graph) (i : ℕ) (ss : List Step) (out : Graph) : Type 0 where
  size : length out ≡ length g
  edges : (u v : ℕ) → Memᴰ u (get_or out v []) ↔ (Memᴰ u (get_or g v []) ⊎ EdgeFrom i ss u v)

Reversed-cons :
    (g : Graph) (i : ℕ) (s : Step) (ss : List Step) (mid out : Graph)
    → Added g i s.links mid
    → Reversed mid (suc i) ss out
    → Reversed g i (s ∷ ss) out
Reversed-cons g i s ss mid out a r = record {
  size = r.size ∙ a.size;
  edges = λ u v. ground (arith, r.edges u v, a.edges u v, EdgeFrom-cons i s ss u v);
}

reverse_links-Yields :
    (i : ℕ) (ss : List Step) (g : Graph)
    → InRange (length g) ss
    → Yields (reverse_links i ss g) (Unit {0}) (Reversed g i ss)
unfolding reverse_links
reverse_links-Yields i [] g h =
    unfold Yields in
    (
      tt,
      record {
        size = refl;
        edges = λ u v. (inl, ⊎_elim (λ m. m) (λ q. absurd (Memᴰ.not-nil q.2)));
      },
    )
reverse_links-Yields i (s ∷ ss) g h =
    Yields-iff _ ((λ _. tt), λ _. (tt, tt)) (λ out r. r)
      (Yields->>= _ _ _ _ _ (reverse_step-Yields i s.links g h.0) (λ mid _ a.
        Yields-iff _ ((λ _. tt), λ _. tt) (λ out. Reversed-cons g i s ss mid out a)
          (reverse_links-Yields (suc i) ss mid (rw a.size h.1))))

-- The links are turned round: there is an edge from `v` to `u` for each link from `u` to `v`.
abbrev pub Turned : List Step → Graph → Type 0
Turned steps out =
    (length out ≡ length steps) × ((u v : ℕ) → Edge out v u ↔ Edge (step_graph steps) u v)

pub reverse_links-Turned :
    (steps : List Step)
    → InRange (length steps) steps
    → Yields (reverse_links 0 steps (replicate (length steps) [])) (Unit {0}) (Turned steps)
reverse_links-Turned steps h =
    Yields-iff _ ((λ _. tt), λ _. tt)
      (λ out r. (r.size ∙ blank_size, λ u v. (there out r u v, back out r u v)))
      (reverse_links-Yields 0 steps (replicate (length steps) []) (rw blank_size h))
  where
    blank : Graph
    blank = replicate (length steps) []

    blank_size : length blank ≡ length steps
    blank_size = length-replicate (length steps) []

    there :
        (out : Graph)
        → Reversed blank 0 steps out
        → (u v : ℕ) → Edge out v u
        → Edge (step_graph steps) u v
    there out r u v m =
        ⊎_elim
          (λ old.
            absurd (Memᴰ.not-nil (rw (get_or-replicate {A = List ℕ} (length steps) [] v) at old)))
          (λ (k, e, edge). subst (λ x. Edge (step_graph steps) x v) (omega arith) edge)
          ((r.edges u v).0 m)

    back :
        (out : Graph)
        → Reversed blank 0 steps out
        → (u v : ℕ) → Edge (step_graph steps) u v
        → Edge out v u
    back out r u v edge = (r.edges u v).1 (inr (u, omega arith, edge))

-- When every link leads to a step, the array `links` is built without a panic. It has an entry for
-- each step, and the entry of `v` lists `u` exactly when `u` has a link to `v`.
pub reverse_links_correct :
    (steps : List Step)
    → InRange (length steps) steps
    → (out : Graph) × (reverse_links 0 steps (replicate (length steps) []) ≡ ok out)
      × ((length out ≡ length steps) × ((u v : ℕ) → Edge out v u ↔ Edge (step_graph steps) u v))
reverse_links_correct steps h = Yields-ok (Turned steps) _ tt (reverse_links-Turned steps h)
