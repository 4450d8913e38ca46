-- ===== src/Process/WellFormed.antt =====
-- What a description of an editing process has to satisfy, without reference to `validate`.
use adaptarr_server.Prelude.{
  ℕ, ◌<◌, String, ◌≡◌, ◌≢◌, List, [], ◌∷◌, map, Memᴰ, length, get_elem?, some, All, AllFrom,
}
use adaptarr_server.Process.{SlotPermission, Slot, StepSlot, Link, Step, Process}
use adaptarr_server.Process.{edit, propose_changes, accept_changes}
use adaptarr_server.Process.Graph.{Edge, Reach, Leads, step_graph}

abbrev pub Distinct : List String → Type 0
Distinct [] = Unit
Distinct (n ∷ ns) = All (λ m. n ≢ m) ns × Distinct ns

-- Names are not empty, and no two are equal.
abbrev pub GoodNames : List String → Type 0
GoodNames ns = All (λ n. n ≢ "") ns × Distinct ns

abbrev pub slot_name : Slot → String
slot_name s = s.name

abbrev pub link_name : Link → String
link_name l = l.name

abbrev pub step_name : Step → String
step_name s = s.name

-- The links of one step have good names.
abbrev pub GoodLinkNames : Step → Type 0
GoodLinkNames s = GoodNames (map link_name s.links)

abbrev pub permission_of : StepSlot → SlotPermission
permission_of g = g.permission

abbrev pub Grants : SlotPermission → Step → Type 0
Grants p s = Memᴰ p (map permission_of s.slots)

-- The permission is granted to one slot at most.
abbrev pub AtMostOne : SlotPermission → List StepSlot → Type 0
AtMostOne p [] = Unit
AtMostOne p (g ∷ gs) = (g.permission ≡ p → ¬ Memᴰ p (map permission_of gs)) × AtMostOne p gs

pub record GoodLink (slots steps stepid : ℕ) (s : Step) (l : Link) : Type 0 where
  pub target : l.to < steps
  pub slot : l.slot < slots
  pub usable : Memᴰ l.slot (map (λ (g : StepSlot). g.slot) s.slots)
  pub not_loop : l.to ≢ stepid

pub record GoodIds (slots steps stepid : ℕ) (s : Step) : Type 0 where
  pub grants : All (λ (g : StepSlot). g.slot < slots) s.slots
  pub links : All (GoodLink slots steps stepid s) s.links

-- `validate` lets several slots of a step accept changes, though the doc comment of the permission
-- says that one slot can be granted it; so no rule of that kind is here.
pub record GoodGrants (s : Step) : Type 0 where
  pub one_edit : AtMostOne edit s.slots
  pub one_propose : AtMostOne propose_changes s.slots
  pub edit_propose : Grants edit s → ¬ Grants propose_changes s
  pub edit_accept : Grants edit s → ¬ Grants accept_changes s
  pub propose_accept : Grants propose_changes s → ¬ Grants accept_changes s

-- A step that no link leaves.
abbrev pub IsFinal : List Step → ℕ → Type 0
IsFinal steps k = (s : Step) × (get_elem? steps k ≡ some s) × (s.links ≡ [])

abbrev pub GrantsAt : SlotPermission → List Step → ℕ → Type 0
GrantsAt p steps k = (s : Step) × (get_elem? steps k ≡ some s) × Grants p s

-- Proposed changes are accepted in a step right after them, and a step that accepts changes comes
-- right after steps that propose them, and after no other.
pub record GoodFlow (steps : List Step) : Type 0 where
  pub followed :
      (u : ℕ)
      → GrantsAt propose_changes steps u
      → (v : ℕ) × Edge (step_graph steps) u v × GrantsAt accept_changes steps v
  pub preceded :
      (v : ℕ)
      → GrantsAt accept_changes steps v
      → (u : ℕ) × Edge (step_graph steps) u v × GrantsAt propose_changes steps u
  pub only :
      (u v : ℕ)
      → GrantsAt accept_changes steps v
      → Edge (step_graph steps) u v
      → GrantsAt propose_changes steps u

pub record WellFormed (p : Process) : Type 0 where
  pub named : p.name ≢ ""
  pub slot_names : GoodNames (map slot_name p.slots)
  pub step_names : GoodNames (map step_name p.steps)
  pub link_names : All GoodLinkNames p.steps
  pub starts : p.start < length p.steps
  pub ids : AllFrom (GoodIds (length p.slots) (length p.steps)) 0 p.steps
  pub grants : All GoodGrants p.steps
  -- Every step is reachable from the initial one, which is not final, and leads to a final step.
  pub reachable : (v : ℕ) → v < length p.steps → Reach (step_graph p.steps) (p.start ∷ []) v
  pub goes_on : ¬ IsFinal p.steps p.start
  pub finishes : (v : ℕ) → v < length p.steps → Leads (step_graph p.steps) (IsFinal p.steps) v
  pub flow : GoodFlow p.steps
