-- ===== src/Validate/Search.antt =====
-- The two searches: every step is reachable from the initial step, and a final step is reachable
-- from every step. A stack is a list with its top first.
pub mod Walk
pub mod Position
pub mod Reverse
pub mod Checks
use adaptarr_server.Prelude.{
  ℕ, zero, suc, ◌+◌, Bool, true, false, ◌||◌, ◌==◌, Option, none, some, List, [], ◌∷◌, ◌++◌, length,
  set, replicate, Result, ok, err, panic, stuck, index, reject, ◌>>=◌, ◌>>◌,
}
use adaptarr_server.Process.{
  Link, Step, ValidateStructureError, unreachable_state, isolated_step, start_is_final,
}
use adaptarr_server.Process.Graph.{Graph, step_graph}
use adaptarr_server.Validate.{Check}

-- `for item in items { stack.push(item) }` and `stack.extend(items)`.
unfoldable pub push_all : List ℕ → List ℕ → List ℕ
push_all stack [] = stack
push_all stack (x ∷ xs) = push_all (x ∷ stack) xs

-- `while let Some(node) = stack.pop()`, with fuel.
unfoldable pub walk : Graph → ℕ → List Bool → List ℕ → Result ValidateStructureError (List Bool)
walk g fuel reachable [] = ok reachable
walk g zero reachable (node ∷ stack) = stuck
walk g (suc fuel) reachable (node ∷ stack) = do
  seen ← index reachable node
  elim seen [
    | true ↦ walk g fuel reachable stack
    | false ↦ do next ← index g node; walk g fuel (set reachable node true) (push_all stack next)
  ]

-- The pushes of the loop: each vertex is expanded once at most.
unfoldable pub edge_count : Graph → ℕ
edge_count [] = 0
edge_count (ns ∷ g) = length ns + edge_count g

unfoldable pub walk_from : Graph → List ℕ → Result ValidateStructureError (List Bool)
walk_from g stack =
    walk g (length stack + edge_count g) (replicate (length g) false) (push_all [] stack)

-- `reachable.iter().position(|reachable| !reachable)`.
unfoldable pub position_unset : ℕ → List Bool → Option ℕ
position_unset i [] = none
position_unset i (false ∷ bs) = some i
position_unset i (true ∷ bs) = position_unset (suc i) bs

unfoldable pub check_all_set : (ℕ → ValidateStructureError) → List Bool → Check
check_all_set error bs = elim (position_unset 0 bs) [ some node ↦ err (error node) | none ↦ ok tt ]

unfoldable pub check_reachable : ℕ → List Step → Check
check_reachable start steps = do
  reachable ← walk_from (step_graph steps) (start ∷ [])
  check_all_set unreachable_state reachable

unfoldable pub final_steps : ℕ → List Step → List ℕ
final_steps i [] = []
final_steps i (s ∷ ss) = elim s.links [
  | [] ↦ i ∷ final_steps (suc i) ss
  | _ ∷ _ ↦ final_steps (suc i) ss
]

unfoldable pub any_eq : ℕ → List ℕ → Bool
any_eq k [] = false
any_eq k (f ∷ fs) = f == k || any_eq k fs

unfoldable pub check_start : ℕ → List Step → Check
check_start start steps = reject (any_eq start (final_steps 0 steps)) start_is_final

-- `for link in &step.links { links[link.to].push(inx); }`
unfoldable pub reverse_step : ℕ → List Link → Graph → Result ValidateStructureError Graph
reverse_step inx [] links = ok links
reverse_step inx (l ∷ ls) links = do
  into ← index links l.to
  reverse_step inx ls (set links l.to (into ++ inx ∷ []))

unfoldable pub reverse_links : ℕ → List Step → Graph → Result ValidateStructureError Graph
reverse_links inx [] links = ok links
reverse_links inx (s ∷ ss) links = do
  links' ← reverse_step inx s.links links
  reverse_links (suc inx) ss links'

unfoldable pub check_isolated : List Step → Check
check_isolated steps = do
  links ← reverse_links 0 steps (replicate (length steps) [])
  reachable ← walk_from links (final_steps 0 steps)
  check_all_set isolated_step reachable
