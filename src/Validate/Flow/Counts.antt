-- ===== src/Validate/Flow/Counts.antt =====
-- What the counters of `incoming` say: for each step, whether links come in from steps that grant
-- propose-changes, and whether links come in from others.
use mathlib.Core.List.Memᴰ
use adaptarr_server.Prelude.{
  ℕ, zero, suc, ◌<◌, Bool, true, false, ◌==◌, some, List, [], ◌∷◌, map, length, set, get_or,
  get_elem?, index, ◌≡◌, ◌≢◌, ◌∙◌, ◌↔◌, ◌⊎◌, inl, inr, ⊎_elim, refl, sym, Memᴰ, Memᴰ-cons, All,
  Yields, Yields-iff, Bool-cases, length-set, get_elem?-lt, get_or-eq, get_or-set_self,
  get_or-set_ne, arith,
}
use adaptarr_server.Process.{SlotPermission, view, propose_changes, StepSlot, Link, Step}
use adaptarr_server.Process.Graph.{Edge, step_graph, link_targets}
use adaptarr_server.Process.WellFormed.{permission_of}
use adaptarr_server.Validate.Flow.{permission_eq, any_grants, Incoming, add_link, count_links}

permission_eq_iff : (p q : SlotPermission) → (permission_eq p q ≡ true) ↔ (p ≡ q)
unfolding permission_eq
permission_eq_iff view q = ground arith
permission_eq_iff p q = ground arith

pub any_grants_iff :
    (p : SlotPermission) (gs : List StepSlot)
    → (any_grants p gs ≡ true) ↔ Memᴰ p (map permission_of gs)
unfolding any_grants
any_grants_iff p [] = (λ e. cc, λ m. absurd (Memᴰ.not-nil m))
any_grants_iff p (g ∷ gs) = ground (
  arith,
  permission_eq_iff g.permission p,
  any_grants_iff p gs,
  Memᴰ-cons p g.permission (map permission_of gs),
)

-- The counter of the links from steps with `has_propose ≡ b`.
abbrev pub part : Bool → ℕ × ℕ → ℕ
part true counts = counts.0
part false counts = counts.1

abbrev pub counter : Bool → Incoming → ℕ → ℕ
counter b incoming v = part b (get_or incoming v (0, 0))

part-add_link :
    (has b : Bool) (c : ℕ × ℕ) → (0 < part b (add_link has c)) ↔ ((0 < part b c) ⊎ (has ≡ b))
part-add_link true b c = ground arith
part-add_link has b c = ground arith

counter-add_link :
    (has b : Bool) (inc : Incoming) (to v : ℕ) (c : ℕ × ℕ)
    → get_elem? inc to ≡ some c
    → to < length inc
    → (0 < counter b (set inc to (add_link has c)) v)
      ↔ ((0 < counter b inc v) ⊎ (has ≡ b) × (v ≡ to))
counter-add_link has b inc to v c e h = elim (Bool-cases (to == v)) [
  | inl same ↦
      let eq : v ≡ to = ground arith in
      rw (eq, get_or-set_self inc to (add_link has c) (0, 0) h, get_or-eq inc to c (0, 0) e)
        (ground (arith, part-add_link has b c))
  | inr other ↦
      let ne : to ≢ v = ground arith in
      rw (get_or-set_ne inc to v (add_link has c) (0, 0) ne)
        (inl, ⊎_elim (λ q. q) (λ q. absurd (ne (sym q.1))))
]

-- After the links `ls` of a step with `has_propose ≡ has`.
pub record Counted (inc : Incoming) (has : Bool) (ls : List Link) (out : Incoming) : Type 0 where
  pub size : length out ≡ length inc
  counts :
      (b : Bool) (v : ℕ)
      → (0 < counter b out v)
        ↔ ((0 < counter b inc v) ⊎ (has ≡ b) × Memᴰ v (map (λ (l : Link). l.to) ls))

Counted-cons :
    (inc : Incoming) (has : Bool) (l : Link) (ls : List Link) (c : ℕ × ℕ) (out : Incoming)
    → get_elem? inc l.to ≡ some c
    → l.to < length inc
    → Counted (set inc l.to (add_link has c)) has ls out
    → Counted inc has (l ∷ ls) out
Counted-cons inc has l ls c out e h k = record {
  size = k.size ∙ length-set inc l.to _;
  counts = λ b v. ground (
    arith,
    k.counts b v,
    counter-add_link has b inc l.to v c e h,
    Memᴰ-cons v l.to (map (λ (k : Link). k.to) ls),
  );
}

pub count_links-Yields :
    (has : Bool) (ls : List Link) (inc : Incoming)
    → All (λ (l : Link). l.to < length inc) ls
    → Yields (count_links has ls inc) (Unit {0}) (Counted inc has ls)
unfolding count_links Yields index
count_links-Yields has [] inc h = (
  tt,
  record { size = refl; counts = λ b v. (inl, ⊎_elim (λ m. m) (λ q. absurd (Memᴰ.not-nil q.1))) },
)
count_links-Yields has (l ∷ ls) inc h =
    let (c, e) = get_elem?-lt inc l.to h.0 in
    let inc' = set inc l.to (add_link has c) in
    let size : length inc' ≡ length inc = length-set inc l.to _ in
    rw (e, index)
      (Yields-iff _ ((λ _. tt), λ _. tt) (λ out. Counted-cons inc has l ls c out e h.0)
        (count_links-Yields has ls inc' (rw size h.1)))

-- Some step of `ss` with `has_propose ≡ b` has a link to `v`.
abbrev pub Sends : Bool → List Step → ℕ → Type 0
Sends b [] v = ⊥
Sends b (s ∷ ss) v =
    (any_grants propose_changes s.slots ≡ b) × Memᴰ v (link_targets s) ⊎ Sends b ss v

-- After all the links of the steps `ss`.
pub record Tallied (inc : Incoming) (ss : List Step) (out : Incoming) : Type 0 where
  pub size : length out ≡ length inc
  pub counts : (b : Bool) (v : ℕ) → (0 < counter b out v) ↔ ((0 < counter b inc v) ⊎ Sends b ss v)

pub Tallied-nil : (inc : Incoming) → Tallied inc [] inc
Tallied-nil inc = record { size = refl; counts = λ b v. (inl, ⊎_elim (λ m. m) (λ q. absurd q)) }

pub Tallied-cons :
    (inc : Incoming) (s : Step) (ss : List Step) (mid out : Incoming)
    → Counted inc (any_grants propose_changes s.slots) s.links mid
    → Tallied mid ss out
    → Tallied inc (s ∷ ss) out
Tallied-cons inc s ss mid out c t = record {
  size = t.size ∙ c.size;
  counts = λ b v. ground (arith, t.counts b v, c.counts b v);
}

-- The same by the index of the step.
pub at-of_Sends :
    (b : Bool) (ss : List Step) (v : ℕ)
    → Sends b ss v
    → (u : ℕ) × Edge (step_graph ss) u v
      × (s : Step) × (get_elem? ss u ≡ some s)
      × (any_grants propose_changes s.slots ≡ b)
at-of_Sends b [] v q = absurd q
at-of_Sends b (s ∷ ss) v (inl (e, m)) = (0, m, s, refl, e)
at-of_Sends b (s ∷ ss) v (inr q) =
    let (u, m, t, at, e) = at-of_Sends b ss v q in (suc u, m, t, at, e)

pub Sends-of_at :
    (b : Bool) (ss : List Step) (u v : ℕ) (t : Step)
    → Edge (step_graph ss) u v
    → get_elem? ss u ≡ some t
    → any_grants propose_changes t.slots ≡ b
    → Sends b ss v
Sends-of_at b [] u v t m at e = absurd (Memᴰ.not-nil m)
Sends-of_at b (s ∷ ss) zero v t m at e = let same : s ≡ t = cc in inl (rw same e, m)
Sends-of_at b (s ∷ ss) (suc u) v t m at e = inr (Sends-of_at b ss u v t m at e)
