-- ===== src/Validate/Whole.antt =====
-- `validate` as a whole.
use adaptarr_server.Prelude.{
  ℕ, ◌<◌, List, [], ◌∷◌, map, length, leb, err, ok, reject, for_each, ◌>>◌, ◌≡◌, ◌↔◌, ◌⊎◌, ◌≢◌, All,
  AllFrom, Decides, Decides->>, Decides-iff, Decides-reject, Decides-reject_of, Decides-for_each,
  Decides-each, Decides-cases, AllFrom-unit, arith,
}
use adaptarr_server.Process.{
  Link, Step, Process, ValidateStructureError, empty_process_name, invalid_start_step,
}
use adaptarr_server.Process.Graph.{Reach, Leads, step_graph}
use adaptarr_server.Process.WellFormed.{
  GoodNames, GoodLinkNames, GoodLink, GoodIds, GoodGrants, GoodFlow, IsFinal, WellFormed, slot_name,
  step_name,
}
use adaptarr_server.Validate.{Check}
use adaptarr_server.Validate.Names.{
  is_empty, is_empty_iff, check_slot_names, check_slot_names-Decides, check_step_names,
  check_step_names-Decides,
}
use adaptarr_server.Validate.Ids.{check_ids, check_ids-Decides}
use adaptarr_server.Validate.Grants.{check_grants, check_grants-Decides}
use adaptarr_server.Validate.Search.{check_reachable, check_start, check_isolated}
use adaptarr_server.Validate.Search.Reverse.{InRange}
use adaptarr_server.Validate.Search.Checks.{
  check_reachable-Decides, check_start-Decides, check_isolated-Decides,
}
use adaptarr_server.Validate.Flow.{check_flow}
use adaptarr_server.Validate.Flow.Checks.{check_flow-Decides}

unfoldable pub validate : Process → Check
validate p = do
  reject (is_empty p.name) empty_process_name
  check_slot_names 0 p.slots []
  check_step_names 0 p.steps []
  reject (leb (length p.steps) p.start) (invalid_start_step p.start (length p.steps))
  for_each (check_ids (length p.slots) (length p.steps)) 0 p.steps
  for_each check_grants 0 p.steps
  check_reachable p.start p.steps
  check_start p.start p.steps
  check_isolated p.steps
  check_flow p.steps

links_in_range :
    (slots n stepid : ℕ) (s : Step) (ls : List Link)
    → All (GoodLink slots n stepid s) ls
    → All (λ (l : Link). l.to < n) ls
links_in_range slots n stepid s [] h = tt
links_in_range slots n stepid s (l ∷ ls) h = (h.0.target, links_in_range slots n stepid s ls h.1)

ids-InRange : (slots n i : ℕ) (ss : List Step) → AllFrom (GoodIds slots n) i ss → InRange n ss
ids-InRange slots n i [] h = tt
ids-InRange slots n i (s ∷ ss) h =
    (links_in_range slots n i s s.links h.0.links, ids-InRange slots n _ ss h.1)

module _ (p : Process) where
  -- The conditions in the order in which `validate` comes to them.
  abbrev Stages : Type 0
  Stages =
      (p.name ≢ "")
      × (GoodNames (map slot_name p.slots)
          × ((GoodNames (map step_name p.steps) × All GoodLinkNames p.steps)
              × ((p.start < length p.steps)
                  × (AllFrom (GoodIds (length p.slots) (length p.steps)) 0 p.steps
                      × (All GoodGrants p.steps
                          × (((v : ℕ)
                                → v < length p.steps
                                → Reach (step_graph p.steps) (p.start ∷ []) v)
                              × ((¬ IsFinal p.steps p.start)
                                  × (((v : ℕ)
                                        → v < length p.steps
                                        → Leads (step_graph p.steps) (IsFinal p.steps) v)
                                      × GoodFlow p.steps))))))))

  Stages_iff : Stages ↔ WellFormed p
  Stages_iff = (
    λ s.
        let t = s.1.1.1.1 in
        let u = t.1.1 in
        record {
          named = s.0;
          slot_names = s.1.0;
          step_names = s.1.1.0.0;
          link_names = s.1.1.0.1;
          starts = s.1.1.1.0;
          ids = t.0;
          grants = t.1.0;
          reachable = u.0;
          goes_on = u.1.0;
          finishes = u.1.1.0;
          flow = u.1.1.1;
        },
    λ w. (
      w.named,
      (
        w.slot_names,
        (
          (w.step_names, w.link_names),
          (w.starts, (w.ids, (w.grants, (w.reachable, (w.goes_on, (w.finishes, w.flow)))))),
        ),
      ),
    ),
  )

  validate-Decides : Decides (validate p) (WellFormed p)
  unfolding validate
  validate-Decides = Decides-iff _ Stages_iff (
      Decides->> _ _ _ (Decides-reject_of _ _ (is_empty_iff p.name)) (λ _.
        Decides->> _ _ _ (check_slot_names-Decides p.slots) (λ _.
          Decides->> _ _ _ (check_step_names-Decides p.steps) (λ _.
            Decides->> _ _ _ (Decides-reject _ _ (ground arith)) (λ starts.
              Decides->> _ _ _ check_all_ids (λ ids.
                let links = ids-InRange (length p.slots) (length p.steps) 0 p.steps ids in
                Decides->> _ _ _ (Decides-each _ _ check_grants-Decides 0 p.steps) (λ _.
                  Decides->> _ _ _ (check_reachable-Decides p.start p.steps starts links) (λ _.
                    Decides->> _ _ _ (check_start-Decides p.start p.steps) (λ _.
                      Decides->> _ _ _ (check_isolated-Decides p.steps links)
                        (λ _. check_flow-Decides p.steps links))))))))))
    where
      check_all_ids :
          Decides
            (for_each (check_ids (length p.slots) (length p.steps)) 0 p.steps)
            (AllFrom (GoodIds (length p.slots) (length p.steps)) 0 p.steps)
      check_all_ids =
          Decides-for_each _ (λ _ _. Unit {0}) _
            (λ i s _. check_ids-Decides (length p.slots) (length p.steps) i s) 0 p.steps
            (AllFrom-unit 0 p.steps)

-- On every description `validate` returns: it does not panic, its searches end, and it accepts
-- exactly the descriptions that are well-formed, where several slots of a step may accept changes,
-- and rejects every other with an error.
pub validate_correct :
    (p : Process)
    → ((validate p ≡ ok tt) × WellFormed p)
      ⊎ ((e : ValidateStructureError) × (validate p ≡ err e) × (¬ WellFormed p))
validate_correct p = Decides-cases (validate p) (validate-Decides p)
