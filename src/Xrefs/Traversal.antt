-- ===== src/Xrefs/Traversal.antt =====
-- The traversal visits the elements of a document in document order (xref_targets.rs).
use mathlib.Core.List.{append_assoc, append-nil}
use adaptarr_server.Prelude.{
  ℕ, zero, suc, ◌≤◌, ◌<◌, ◌≡◌, ◌⊎◌, inl, inr, none, some, List, [], ◌∷◌, ◌++◌, length, ok, refl,
  sym, ap, ◌∙◌, arith,
}
use adaptarr_server.Xrefs.{
  Element, element, Nodes, no_nodes, text_then, element_then, comment_then, element_nodes,
  child_elements, next_item, collect_items, iter_tree,
}

-- An element, and then what is inside, in order.
unfoldable mutual
  pub preorder : Element → List Element
  preorder (element n ns i t nodes) = element n ns i t nodes ∷ preorder_in nodes

  pub preorder_in : Nodes → List Element
  preorder_in no_nodes = []
  preorder_in (text_then t rest) = preorder_in rest
  preorder_in (element_then e rest) = preorder e ++ preorder_in rest
  preorder_in (comment_then rest) = preorder_in rest

abbrev all_of : List Element → List Element
all_of [] = []
all_of (e ∷ es) = preorder e ++ all_of es

abbrev left : List (List Element) → List Element
left [] = []
left (es ∷ stack) = all_of es ++ left stack

all_of-element_nodes : (nodes : Nodes) → all_of (element_nodes nodes) ≡ preorder_in nodes
unfolding element_nodes preorder_in
all_of-element_nodes no_nodes = refl
all_of-element_nodes (text_then t rest) = all_of-element_nodes rest
all_of-element_nodes (element_then e rest) = ap (λ x. preorder e ++ x) (all_of-element_nodes rest)
all_of-element_nodes (comment_then rest) = all_of-element_nodes rest

preorder-child_elements : (e : Element) → preorder e ≡ e ∷ all_of (child_elements e)
unfolding preorder child_elements
preorder-child_elements (element n ns i t nodes) =
    ap (λ x. element n ns i t nodes ∷ x) (sym (all_of-element_nodes nodes))

-- The next_item item is the first of what is left on the stack.
next_item-left :
    (stack : List (List Element))
    → ((next_item stack ≡ none) × (left stack ≡ []))
      ⊎ ((e : Element) × (rest : List (List Element)) × (next_item stack ≡ some (e, rest))
          × (left stack ≡ e ∷ left rest))
unfolding next_item
next_item-left [] = inl (refl, refl)
next_item-left ([] ∷ stack) = next_item-left stack
next_item-left ((e ∷ es) ∷ stack) = inr (
  e,
  child_elements e ∷ es ∷ stack,
  refl,
  ap (λ x. (x ++ all_of es) ++ left stack) (preorder-child_elements e)
      ∙ ap (λ x. e ∷ x) (append_assoc (all_of (child_elements e)) (all_of es) (left stack)),
)

collect_items-none :
    (fuel : ℕ) (stack : List (List Element))
    → next_item stack ≡ none
    → collect_items (suc fuel) stack ≡ ok []
unfolding collect_items
collect_items-none fuel stack e = cc e

collect_items-some :
    (fuel : ℕ) (stack rest : List (List Element)) (e : Element) (items : List Element)
    → next_item stack ≡ some (e, rest)
    → collect_items fuel rest ≡ ok items
    → collect_items (suc fuel) stack ≡ ok (e ∷ items)
unfolding collect_items
collect_items-some fuel stack rest e items step run = cc (step, run)

collect_items-left :
    (fuel : ℕ) (stack : List (List Element))
    → length (left stack) < fuel
    → collect_items fuel stack ≡ ok (left stack)
collect_items-left zero stack lt = absurd (omega (arith, lt))
collect_items-left (suc fuel) stack lt = elim (next_item-left stack) [
  | inl (e, f) ↦ collect_items-none fuel stack e ∙ ap ok (sym f)
  | inr (e, rest, step, cut) ↦
      let shorter = collect_items-left fuel rest (omega (arith, lt, ap length cut)) in
      collect_items-some fuel stack rest e (left rest) step shorter ∙ ap ok (sym cut)
]

-- On fuel of one unit for each element the traversal ends, and it gives the elements of the
-- document in the order of a recursive walk.
pub iter_tree-preorder :
    (fuel : ℕ) (e : Element) → length (preorder e) ≤ fuel → iter_tree fuel e ≡ ok (preorder e)
unfolding iter_tree
iter_tree-preorder fuel e le =
    let cut = preorder-child_elements e in
    let flat = append-nil (all_of (child_elements e)) in
    let run =
      collect_items-left fuel (child_elements e ∷ [])
        (omega (arith, le, ap length cut, ap length flat)) in
    rw (run, flat) (ap ok (sym cut))
