-- ===== src/Validate/Search/Walk.antt =====
-- `walk_from` returns, and marks exactly the vertices that a walk from the given ones leads to.
use mathlib.Core.List.Memᴰ
use adaptarr_server.Prelude.{
  ℕ, zero, suc, ◌+◌, ◌<◌, ◌≤◌, Bool, true, false, List, [], ◌∷◌, length, set, get_or, get_elem?,
  replicate, ◌≡◌, ◌↔◌, ◌⊎◌, inl, inr, ⊎_elim, some, get_or-eq, refl, Memᴰ, Memᴰ-cons, Yields,
  Yields-ok, ok, index, get_elem?-lt, length-set, length-replicate, get_or-replicate, arith,
}
use adaptarr_server.Process.Graph.{Graph, Edge, Reach, source, step}
use adaptarr_server.Validate.Search.{push_all, walk, walk_from, edge_count}

abbrev pub Marked : List Bool → ℕ → Type 0
Marked bs v = get_or bs v false ≡ true

Marked-set :
    (bs : List Bool) (i v : ℕ) → i < length bs → Marked (set bs i true) v ↔ (Marked bs v ⊎ (v ≡ i))
Marked-set [] i v h = absurd (omega arith)
Marked-set (b ∷ bs) zero zero h = (λ _. inr refl, λ _. refl)
Marked-set (b ∷ bs) zero (suc v) h = ground arith
Marked-set (b ∷ bs) (suc i) zero h = ground arith
Marked-set (b ∷ bs) (suc i) (suc v) h = ground (arith, Marked-set bs i v)

mem-push_all : (v : ℕ) (stack xs : List ℕ) → Memᴰ v (push_all stack xs) ↔ (Memᴰ v stack ⊎ Memᴰ v xs)
unfolding push_all
mem-push_all v stack [] = (inl, ⊎_elim (λ m. m) (λ m. absurd (Memᴰ.not-nil m)))
mem-push_all v stack (x ∷ xs) =
    ground (arith, mem-push_all v (x ∷ stack) xs, Memᴰ-cons v x stack, Memᴰ-cons v x xs)

length-push_all : (stack xs : List ℕ) → length (push_all stack xs) ≡ length stack + length xs
unfolding push_all
length-push_all stack [] = omega arith
length-push_all stack (x ∷ xs) = omega (arith, length-push_all (x ∷ stack) xs)

-- The edges of the vertices that are not Marked yet.
abbrev open_edges : List Bool → Graph → ℕ
open_edges [] g = 0
open_edges (b ∷ bs) [] = 0
open_edges (true ∷ bs) (ns ∷ g) = open_edges bs g
open_edges (false ∷ bs) (ns ∷ g) = length ns + open_edges bs g

open_edges-set :
    (bs : List Bool) (g : Graph) (i : ℕ) (ns : List ℕ)
    → get_elem? bs i ≡ some false
    → get_elem? g i ≡ some ns
    → open_edges (set bs i true) g + length ns ≡ open_edges bs g
open_edges-set [] g i ns e f = cc
open_edges-set (b ∷ bs) [] i ns e f = cc
open_edges-set (b ∷ bs) (ms ∷ g) zero ns e f = ground arith
open_edges-set (true ∷ bs) (ms ∷ g) (suc i) ns e f = open_edges-set bs g i ns e f
open_edges-set (false ∷ bs) (ms ∷ g) (suc i) ns e f = omega (arith, open_edges-set bs g i ns e f)

open_edges-blank : (g : Graph) → open_edges (replicate (length g) false) g ≡ edge_count g
unfolding edge_count
open_edges-blank [] = refl
open_edges-blank (ns ∷ g) = omega (arith, open_edges-blank g)

-- One round of the loop, at a vertex that is Marked, and at one that is not.
module _ (g : Graph) (fuel : ℕ) (bs : List Bool) (node : ℕ) (stack : List ℕ) where
  walk-skip :
      get_elem? bs node ≡ some true → walk g (suc fuel) bs (node ∷ stack) ≡ walk g fuel bs stack
  unfolding walk index
  walk-skip e = rw (e, index)

  walk-expand :
      (ns : List ℕ)
      → get_elem? bs node ≡ some false
      → get_elem? g node ≡ some ns
      → walk g (suc fuel) bs (node ∷ stack) ≡ walk g fuel (set bs node true) (push_all stack ns)
  unfolding walk index
  walk-expand ns e f = rw (e, f, index)

module _ (g : Graph) (ss : List ℕ) where
  record Inv (bs : List Bool) (stack : List ℕ) : Type 0 where
    size : length bs ≡ length g
    bounded : (v : ℕ) → Memᴰ v stack → v < length g
    pending : (v : ℕ) → Memᴰ v stack → Reach g ss v
    sound : (v : ℕ) → Marked bs v → Reach g ss v
    sources : (v : ℕ) → Memᴰ v ss → Marked bs v ⊎ Memᴰ v stack
    closed : (u v : ℕ) → Marked bs u → Edge g u v → Marked bs v ⊎ Memᴰ v stack

  Inv-skip :
      (bs : List Bool) (node : ℕ) (stack : List ℕ)
      → Marked bs node
      → Inv bs (node ∷ stack)
      → Inv bs stack
  Inv-skip bs node stack m h = record {
    size = h.size;
    bounded = λ v q. h.bounded v (Memᴰ.tail q);
    pending = λ v q. h.pending v (Memᴰ.tail q);
    sound = h.sound;
    sources = λ v q. settle v (h.sources v q);
    closed = λ u v p e. settle v (h.closed u v p e);
  }
    where
      settle : (v : ℕ) → Marked bs v ⊎ Memᴰ v (node ∷ stack) → Marked bs v ⊎ Memᴰ v stack
      settle v q = ground (arith, Memᴰ-cons v node stack)

  abbrev pub Marks : List Bool → Type 0
  Marks out = (length out ≡ length g) × ((v : ℕ) → Marked out v ↔ Reach g ss v)

  module _ (in_range : (u v : ℕ) → Edge g u v → v < length g) where
    Inv-expand :
        (bs : List Bool) (node : ℕ) (stack ns : List ℕ)
        → get_elem? g node ≡ some ns
        → Inv bs (node ∷ stack)
        → Inv (set bs node true) (push_all stack ns)
    Inv-expand bs node stack ns e h = record {
      size = rw length-set h.size;
      bounded = λ v q.
          ⊎_elim (λ m. h.bounded v (Memᴰ.tail m)) (λ m. in_range node v (edge v m))
            ((mem-push_all v stack ns).0 q);
      pending = λ v q.
          ⊎_elim (λ m. h.pending v (Memᴰ.tail m)) (λ m. step at_node (edge v m))
            ((mem-push_all v stack ns).0 q);
      sound = λ v m. ⊎_elim (h.sound v) (λ i. rw i at_node) ((Marked-set bs node v here).0 m);
      sources = λ v q. settle v (h.sources v q);
      closed = λ u v m q.
          ⊎_elim (λ o. settle v (h.closed u v o q))
            (λ i. inr ((mem-push_all v stack ns).1 (inr (unedge u v i q))))
            ((Marked-set bs node u here).0 m);
    }
      where
        here : node < length bs
        here = rw h.size (h.bounded node (Memᴰ.head refl))

        at_node : Reach g ss node
        at_node = h.pending node (Memᴰ.head refl)

        edge : (v : ℕ) → Memᴰ v ns → Edge g node v
        edge v m = rw (get_or-eq g node ns [] e) m

        unedge : (u v : ℕ) → u ≡ node → Edge g u v → Memᴰ v ns
        unedge u v i m = rw (i, get_or-eq g node ns [] e) at m

        settle :
            (v : ℕ)
            → Marked bs v ⊎ Memᴰ v (node ∷ stack)
            → Marked (set bs node true) v ⊎ Memᴰ v (push_all stack ns)
        settle v q =
            ground
              (arith, Memᴰ-cons v node stack, Marked-set bs node v here, mem-push_all v stack ns)

    Inv-done : (bs : List Bool) → Inv bs [] → Marks bs
    Inv-done bs h = (h.size, λ v. (h.sound v, complete v))
      where
        now : (v : ℕ) → Marked bs v ⊎ Memᴰ v [] → Marked bs v
        now v q = ⊎_elim (λ m. m) (λ m. absurd (Memᴰ.not-nil m)) q

        complete : (v : ℕ) → Reach g ss v → Marked bs v
        complete v (source m) = now v (h.sources v m)
        complete v (step {u} r e) = now v (h.closed u v (complete u r) e)

    walk-Yields :
        (fuel : ℕ) (bs : List Bool) (stack : List ℕ)
        → length stack + open_edges bs g ≤ fuel
        → Inv bs stack
        → Yields (walk g fuel bs stack) (Unit {0}) Marks
    unfolding Yields
    walk-Yields fuel bs [] f h = unfold walk in (tt, Inv-done bs h)
    walk-Yields zero bs (node ∷ stack) f h = absurd (omega arith)
    walk-Yields (suc fuel) bs (node ∷ stack) f h =
        round (get_elem?-lt bs node here) (get_elem?-lt g node in_graph)
          (λ at.
            walk-Yields fuel bs stack (omega arith)
              (Inv-skip bs node stack (get_or-eq bs node true false at) h))
          (λ ns to at.
            walk-Yields fuel (set bs node true) (push_all stack ns)
              (omega (arith, length-push_all stack ns, open_edges-set bs g node ns at to))
              (Inv-expand bs node stack ns to h))
      where
        in_graph : node < length g
        in_graph = h.bounded node (Memᴰ.head refl)

        here : node < length bs
        here = rw h.size in_graph

        round :
            (b : Bool) × (get_elem? bs node ≡ some b)
            → (ns : List ℕ) × (get_elem? g node ≡ some ns)
            → (get_elem? bs node ≡ some true → Yields (walk g fuel bs stack) (Unit {0}) Marks)
            → ((ns : List ℕ)
                → get_elem? g node ≡ some ns
                → get_elem? bs node ≡ some false
                → Yields (walk g fuel (set bs node true) (push_all stack ns)) (Unit {0}) Marks)
            → Yields (walk g (suc fuel) bs (node ∷ stack)) (Unit {0}) Marks
        round (true, at) (ns, to) skip expand = rw (walk-skip g fuel bs node stack at) (skip at)
        round (false, at) (ns, to) skip expand =
            rw (walk-expand g fuel bs node stack ns at to) (expand ns to at)

    -- The search returns, and marks exactly the vertices that a walk from `ss` leads to.
    pub walk_from-Yields :
        ((s : ℕ) → Memᴰ s ss → s < length g) → Yields (walk_from g ss) (Unit {0}) Marks
    unfolding walk_from
    walk_from-Yields sources_in = walk-Yields _ _ _ enough (record {
      size = length-replicate (length g) false;
      bounded = λ v q. sources_in v (listed v q);
      pending = λ v q. source (listed v q);
      sound = λ v m. cc (m, get_or-replicate (length g) false v);
      sources = λ v q. inr ((mem-push_all v [] ss).1 (inr q));
      closed = λ u v m e. cc (m, get_or-replicate (length g) false u);
    })
      where
        listed : (v : ℕ) → Memᴰ v (push_all [] ss) → Memᴰ v ss
        listed v q = ⊎_elim (λ m. absurd (Memᴰ.not-nil m)) (λ m. m) ((mem-push_all v [] ss).0 q)

        enough :
            length (push_all [] ss) + open_edges (replicate (length g) false) g
            ≤ length ss + edge_count g
        enough = omega (arith, length-push_all [] ss, open_edges-blank g)

-- In a graph whose edges lead to vertices, and from sources that are vertices, the search returns:
-- it neither panics nor runs out of fuel. It returns one flag for each vertex, which is set
-- exactly when a walk leads from one of the sources to that vertex.
pub walk_from_correct :
    (g : Graph) (ss : List ℕ)
    → ((u v : ℕ) → Edge g u v → v < length g)
    → ((s : ℕ) → Memᴰ s ss → s < length g)
    → (out : List Bool) × (walk_from g ss ≡ ok out)
      × ((length out ≡ length g) × ((v : ℕ) → (get_or out v false ≡ true) ↔ Reach g ss v))
walk_from_correct g ss in_range sources_in =
    Yields-ok (Marks g ss) _ tt (walk_from-Yields g ss in_range sources_in)
