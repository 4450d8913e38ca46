-- ===== src/Xrefs/Examples.antt =====
-- A document with an exercise, whose problem has a figure, and a solution.
use adaptarr_server.Prelude.{
  ℕ, ◌≡◌, ◌⊎◌, ◌==◌, true, false, Bool, none, some, String, List, [], ◌∷◌, map, ok, refl, arith,
}
use adaptarr_server.Storage.{In}
use adaptarr_server.Storage.Lists.{list_table}
use adaptarr_server.Xrefs.{
  Element, element, Nodes, no_nodes, text_then, element_then, iter_tree, kind_of, one_of, target_of,
  context_of, Target,
}
use adaptarr_server.Xrefs.Text.{description_of}
use adaptarr_server.Xrefs.Traversal.{preorder, iter_tree-preorder}
use adaptarr_server.Xrefs.Document.{State, targets_of, process_document}
use adaptarr_server.Xrefs.Stored.{IsStored, process_document_correct}

abbrev cnxml : String → String → Nodes → Element
cnxml name id nodes = element name "http://cnx.rice.edu/cnxml" (some id) none nodes

abbrev figure : Element
figure = cnxml "figure" "f1" no_nodes

abbrev solution : Element
solution =
    cnxml "solution" "s1"
      (element_then (cnxml "para" "p2" (text_then (52 ∷ 50 ∷ []) no_nodes)) no_nodes)

abbrev document : Element
document = cnxml "exercise" "e1" (
    element_then (cnxml "problem" "p1" (element_then figure no_nodes))
      (element_then solution no_nodes))

abbrev is_white : ℕ → Bool
is_white c = c == 32

abbrev start : State (List Target)
start = record { targets = []; ready = false }

iter_tree-preorder_example : iter_tree 5 document ≡ ok (preorder document)
unfolding preorder
iter_tree-preorder_example = iter_tree-preorder 5 document (omega arith)

process_document_correct_example :
    (after : State (List Target)) × (process_document is_white 7
        (list_table Target Target.counter)
        5
        document
        start
      ≡ ok after)
    × (after.ready ≡ true)
    × ((r : Target)
        → In r after.targets
        → In r [] ⊎ IsStored is_white 7 (list_table Target Target.counter) [] (preorder document) r)
unfolding preorder
process_document_correct_example =
    process_document_correct is_white 7 (list_table Target Target.counter) 5 document start
      (omega arith)

-- The figure inside the problem takes the place of the exercise as the context of the solution.
contexts_test :
    map Target.context
      (targets_of is_white 7 (preorder document) (record { last_context = none; counters = [] }))
    ≡ none ∷ none ∷ some "f1" ∷ []
unfolding targets_of preorder description_of kind_of one_of target_of context_of
contexts_test = refl
