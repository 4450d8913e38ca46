-- ===== src/Process/Graph.antt =====
-- Directed graphs as adjacency lists, and the walks in them.
use adaptarr_server.Prelude.{ℕ, List, [], map, Memᴰ, get_or}
use adaptarr_server.Process.{Step, Link}

abbrev pub Graph : Type 0
Graph = List (List ℕ)

abbrev pub Edge : Graph → ℕ → ℕ → Type 0
Edge g u v = Memᴰ v (get_or g u [])

-- `Reach g ss v`: a walk leads from one of the vertices `ss` to `v`.
pub data Reach (g : Graph) (ss : List ℕ) : ℕ → Type 0 where
  source : {s : ℕ} → Memᴰ s ss → Reach g ss s
  step : {u v : ℕ} → Reach g ss u → Edge g u v → Reach g ss v

-- `Leads g T u`: a walk leads from `u` to a vertex that satisfies `T`.
pub data Leads (g : Graph) (T : ℕ → Type 0) : ℕ → Type 0 where
  target : {t : ℕ} → T t → Leads g T t
  hop : {u v : ℕ} → Edge g u v → Leads g T v → Leads g T u

-- The graph of a process: its steps, with an edge for each link.
abbrev pub link_targets : Step → List ℕ
link_targets s = map (λ (l : Link). l.to) s.links

abbrev pub step_graph : List Step → Graph
step_graph steps = map link_targets steps
