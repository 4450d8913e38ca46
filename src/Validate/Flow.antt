-- ===== src/Validate/Flow.antt =====
-- The last two loops: a step that grants propose-changes is followed by one that grants
-- accept-changes, and a step that grants accept-changes is preceded by such steps only.
pub mod Counts
pub mod Checks
use adaptarr_server.Prelude.{
  ℕ, zero, suc, Bool, true, false, not, ◌||◌, ◌==◌, List, [], ◌∷◌, if◌then◌else◌, length, set,
  replicate, Result, ok, index, reject, for_each, ◌>>=◌, ◌>>◌,
}
use adaptarr_server.Process.{
  SlotPermission, view, edit, propose_changes, accept_changes, StepSlot, Link, Step,
  ValidateStructureError, changes_propose_no_accept, changes_accept_no_propose,
  changes_accept_not_only_propose,
}
use adaptarr_server.Validate.{Check}

unfoldable pub permission_eq : SlotPermission → SlotPermission → Bool
permission_eq view view = true
permission_eq edit edit = true
permission_eq propose_changes propose_changes = true
permission_eq accept_changes accept_changes = true
permission_eq p q = false

-- `slots.iter().any(|s| s.permission == p)`.
unfoldable pub any_grants : SlotPermission → List StepSlot → Bool
any_grants p [] = false
any_grants p (g ∷ gs) = permission_eq g.permission p || any_grants p gs

-- For each step the links into it: those from steps that grant propose-changes, and the others.
abbrev pub Incoming : Type 0
Incoming = List (ℕ × ℕ)

abbrev pub add_link : Bool → ℕ × ℕ → ℕ × ℕ
add_link has_propose (propose, other) =
    if has_propose then (suc propose, other) else (propose, suc other)

unfoldable pub count_links : Bool → List Link → Incoming → Result ValidateStructureError Incoming
count_links has_propose [] incoming = ok incoming
count_links has_propose (l ∷ ls) incoming = do
  counts ← index incoming l.to
  count_links has_propose ls (set incoming l.to (add_link has_propose counts))

-- `step.links.iter().flat_map(…).any(…)` stops at the first link whose target grants it.
unfoldable pub accept_follows : List Step → List Link → Result ValidateStructureError Bool
accept_follows steps [] = ok false
accept_follows steps (l ∷ ls) = do
  next ← index steps l.to
  elim (any_grants accept_changes next.slots) [ true ↦ ok true | false ↦ accept_follows steps ls ]

unfoldable pub check_followed : List Step → ℕ → Step → Check
check_followed steps stepid s = if not (any_grants propose_changes s.slots) then ok tt else do
  has_accept ← accept_follows steps s.links
  reject (not has_accept) (changes_propose_no_accept stepid)

unfoldable pub check_proposals :
    List Step → ℕ → List Step → Incoming → Result ValidateStructureError Incoming
check_proposals steps stepid [] incoming = ok incoming
check_proposals steps stepid (s ∷ ss) incoming = do
  incoming' ← count_links (any_grants propose_changes s.slots) s.links incoming
  check_followed steps stepid s
  check_proposals steps (suc stepid) ss incoming'

unfoldable pub check_acceptance : Incoming → ℕ → Step → Check
check_acceptance incoming stepid s = if not (any_grants accept_changes s.slots) then ok tt else do
  counts ← index incoming stepid
  reject (counts.0 == 0) (changes_accept_no_propose stepid)
  reject (not (counts.1 == 0)) (changes_accept_not_only_propose stepid)

unfoldable pub check_flow : List Step → Check
check_flow steps = do
  incoming ← check_proposals steps 0 steps (replicate (length steps) (0, 0))
  for_each (check_acceptance incoming) 0 steps
