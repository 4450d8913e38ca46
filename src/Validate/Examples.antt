-- ===== src/Validate/Examples.antt =====
-- The processes of the test `validation` of structure.rs, and the theorems at concrete inputs.
use mathlib.Core.List.Memᴰ
use adaptarr_server.Prelude.{
  zero, suc, ◌<◌, true, Bool, Memᴰ, length, get_or, ◌↔◌, arith, ℕ, false, List, [], ◌∷◌, String,
  err, ok, ◌≡◌, ◌⊎◌, refl, for_each, index, reject,
}
use adaptarr_server.Process.{
  SlotPermission, view, edit, propose_changes, accept_changes, Slot, StepSlot, Link, Step, Process,
  ValidateStructureError, empty_process_name, unusable_link, looped_link, isolated_step,
  start_is_final, changes_accept_no_propose, unreachable_state, invalid_start_step,
}
use adaptarr_server.Process.Graph.{Graph, Edge, Reach}
use adaptarr_server.Validate.Search.Walk.{walk_from_correct}
use adaptarr_server.Process.WellFormed.{WellFormed}
use adaptarr_server.Validate.{Check}
use adaptarr_server.Validate.Names.{
  is_empty, lookup, fresh_name, check_slot_names, check_link_names, check_step_names,
}
use adaptarr_server.Validate.Ids.{has_slot, check_grant_id, check_link_id, check_ids}
use adaptarr_server.Validate.Grants.{hold, hold_all, check_conflicts, check_grants}
use adaptarr_server.Validate.Search.{
  push_all, walk, edge_count, walk_from, position_unset, check_all_set, check_reachable,
  final_steps, any_eq, check_start, reverse_step, reverse_links, check_isolated,
}
use adaptarr_server.Validate.Flow.{
  permission_eq, any_grants, count_links, accept_follows, check_followed, check_proposals,
  check_acceptance, check_flow,
}
use adaptarr_server.Validate.Whole.{validate, validate_correct}

abbrev slots : List Slot
slots = record { id = 0; name = "Slot"; roles = []; autofill = false } ∷ []

abbrev grant : SlotPermission → List StepSlot
grant p = record { slot = 0; permission = p } ∷ []

abbrev link : String → ℕ → Link
link name to = record { name = name; to = to; slot = 0 }

abbrev step : String → List StepSlot → List Link → Step
step name slots links = record { id = 0; name = name; slots = slots; links = links }

abbrev process : List Step → Process
process steps = record { name = "Process"; start = 0; slots = slots; steps = steps }

abbrev end : Step
end = step "End" [] []

abbrev good : Process
good = process (step "Start" (grant edit) (link "Link" 1 ∷ []) ∷ end ∷ [])

-- Changes are proposed in step 2 and accepted in step 3.
abbrev reviewed : Process
reviewed = process (
    step "Start" (grant edit) (link "Link" 1 ∷ link "To propose" 2 ∷ [])
    ∷ end
    ∷ step "Propose changes" (grant propose_changes) (link "Link" 1 ∷ link "To accept" 3 ∷ [])
    ∷ step "Accept changes" (grant accept_changes) (link "Link" 1 ∷ [])
    ∷ [])

-- `validate`, with what it calls open to evaluation.
run : Process → Check
unfolding validate reject index for_each is_empty lookup fresh_name check_slot_names
    check_link_names check_step_names has_slot check_grant_id check_link_id check_ids hold hold_all
    check_conflicts check_grants push_all walk edge_count walk_from position_unset check_all_set
    check_reachable final_steps any_eq check_start reverse_step reverse_links check_isolated
    permission_eq any_grants count_links accept_follows check_followed check_proposals
    check_acceptance check_flow
run = validate

run-good : run good ≡ ok tt
unfolding run
run-good = refl

run-reviewed : run reviewed ≡ ok tt
unfolding run
run-reviewed = refl

run-unnamed : run (record good { name = "" }) ≡ err empty_process_name
unfolding run
run-unnamed = refl

run-no_steps : run (process []) ≡ err (invalid_start_step 0 0)
unfolding run
run-no_steps = refl

run-final_start : run (process (step "Start" (grant edit) [] ∷ [])) ≡ err start_is_final
unfolding run
run-final_start = refl

run-cut : run (process (step "Start" (grant edit) [] ∷ end ∷ [])) ≡ err (unreachable_state 1)
unfolding run
run-cut = refl

run-isolated :
    run (
      process (
        step "Start" (grant edit) (link "Link" 1 ∷ link "Another link" 2 ∷ [])
        ∷ end
        ∷ step "Isolated A" (grant view) (link "Link" 3 ∷ [])
        ∷ step "Isolated B" (grant view) (link "Link" 2 ∷ [])
        ∷ []))
    ≡ err (isolated_step 2)
unfolding run
run-isolated = refl

run-lonely_accept :
    run (process (step "Start" (grant accept_changes) (link "Link" 1 ∷ []) ∷ end ∷ []))
    ≡ err (changes_accept_no_propose 0)
unfolding run
run-lonely_accept = refl

run-unusable :
    run (process (step "Start" [] (link "Link" 1 ∷ []) ∷ end ∷ [])) ≡ err (unusable_link 0 0 0)
unfolding run
run-unusable = refl

run-looped :
    run (process (step "Start" (grant edit) (link "Link" 1 ∷ link "More" 0 ∷ []) ∷ end ∷ []))
    ≡ err (looped_link 0 1)
unfolding run
run-looped = refl

validate_correct_example :
    ((validate reviewed ≡ ok tt) × WellFormed reviewed)
    ⊎ ((e : ValidateStructureError) × (validate reviewed ≡ err e) × (¬ WellFormed reviewed))
validate_correct_example = validate_correct reviewed

abbrev triangle : Graph
triangle = (1 ∷ []) ∷ (0 ∷ []) ∷ (0 ∷ []) ∷ []

triangle_edges : (u v : ℕ) → Edge triangle u v → v < 3
triangle_edges zero v (Memᴰ.head e) = omega arith
triangle_edges zero v (Memᴰ.tail m) = absurd (Memᴰ.not-nil m)
triangle_edges (suc zero) v (Memᴰ.head e) = omega arith
triangle_edges (suc zero) v (Memᴰ.tail m) = absurd (Memᴰ.not-nil m)
triangle_edges (suc (suc zero)) v (Memᴰ.head e) = omega arith
triangle_edges (suc (suc zero)) v (Memᴰ.tail m) = absurd (Memᴰ.not-nil m)
triangle_edges (suc (suc (suc u))) v m = absurd (Memᴰ.not-nil m)

zero_source : (s : ℕ) → Memᴰ s (0 ∷ []) → s < 3
zero_source s m = omega (arith, Memᴰ.eq_of_singleton m)

walk_from_correct_example :
    (out : List Bool) × (walk_from triangle (0 ∷ []) ≡ ok out)
    × ((length out ≡ 3) × ((v : ℕ) → (get_or out v false ≡ true) ↔ Reach triangle (0 ∷ []) v))
walk_from_correct_example = walk_from_correct triangle (0 ∷ []) triangle_edges zero_source
