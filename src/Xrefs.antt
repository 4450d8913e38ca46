-- ===== src/Xrefs.antt =====
-- Targets of cross references in a document: crates/models/src/processing/xref_targets.rs. A document
-- is the tree that the crate `minidom` parses; names and identifiers are strings, a text is the list of
-- its characters.
pub mod Traversal
pub mod Text
pub mod Document
pub mod Contexts
pub mod Stored
mod Examples
use adaptarr_server.Prelude.{
  ℕ, suc, ◌+◌, Bool, true, false, ◌||◌, Option, none, some, String, str_eq, List, [], ◌∷◌, ◌++◌,
  if◌then◌else◌, Result, ok, stuck, ◌>>=◌, zero, take,
}
use adaptarr_server.Storage.{Table}
use adaptarr_server.Storage.Joins.{upsert}

mutual
  -- The name, the namespace, the attributes `id` and `type`, and the nodes inside.
  pub data Element : Type 0 where
    element : (name ns : String) (id type_attr : Option String) → Nodes → Element

  -- `Vec<Node>`
  pub data Nodes : Type 0 where
    no_nodes : Nodes
    text_then : List ℕ → Nodes → Nodes
    element_then : Element → Nodes → Nodes
    comment_then : Nodes → Nodes

abbrev pub name : Element → String
name (element n ns i t nodes) = n

abbrev pub id_of : Element → Option String
id_of (element n ns i t nodes) = i

abbrev pub type_of : Element → Option String
type_of (element n ns i t nodes) = t

-- `children`: the nodes that are elements.
unfoldable pub element_nodes : Nodes → List Element
element_nodes no_nodes = []
element_nodes (text_then t rest) = element_nodes rest
element_nodes (element_then e rest) = e ∷ element_nodes rest
element_nodes (comment_then rest) = element_nodes rest

unfoldable pub child_elements : Element → List Element
child_elements (element n ns i t nodes) = element_nodes nodes

-- `IterTree::next`: the iterators on the stack, the last one pushed first.
unfoldable pub next_item : List (List Element) → Option (Element × List (List Element))
next_item [] = none
next_item ([] ∷ stack) = next_item stack
next_item ((e ∷ es) ∷ stack) = some (e, child_elements e ∷ es ∷ stack)

-- The items of `IterTree`, one for each unit of fuel.
unfoldable pub collect_items : ℕ → List (List Element) → Result ⊥ (List Element)
collect_items zero stack = stuck
collect_items (suc fuel) stack = elim (next_item stack) [
  | none ↦ ok []
  | some (e, rest) ↦ do items ← collect_items fuel rest; ok (e ∷ items)
]

unfoldable pub iter_tree : ℕ → Element → Result ⊥ (List Element)
iter_tree fuel e = do items ← collect_items fuel (child_elements e ∷ []); ok (e ∷ items)

-- `get_child`
unfoldable pub first_named : String → String → List Element → Option Element
first_named n ns [] = none
first_named n ns (element m ms i t nodes ∷ es) =
    let later = first_named n ns es in
    if str_eq m n then (if str_eq ms ns then some (element m ms i t nodes) else later) else later

unfoldable pub get_child : String → String → Element → Option Element
get_child n ns e = first_named n ns (child_elements e)

abbrev pub cnxml_ns : String
cnxml_ns = "http://cnx.rice.edu/cnxml"

unfoldable pub one_of : List String → String → Bool
one_of [] s = false
one_of (n ∷ ns) s = str_eq s n || one_of ns s

-- A new row of `xref_targets`.
pub record Target : Type 0 where
  pub document : ℕ
  pub element_id : String
  pub type_ : String
  pub description : Option (List ℕ)
  pub context : Option String
  pub counter : ℕ

-- The variables of the loop.
pub record Scope : Type 0 where
  pub last_context : Option String
  pub counters : List (String × ℕ)

-- `insert`
unfoldable pub set_counter : String → ℕ → List (String × ℕ) → List (String × ℕ)
set_counter k v [] = (k, v) ∷ []
set_counter k v ((l, w) ∷ rest) =
    let later = set_counter k v rest in if str_eq l k then (k, v) ∷ rest else (l, w) ∷ later

-- `get`
unfoldable pub look_up : String → List (String × ℕ) → Option ℕ
look_up k [] = none
look_up k ((l, w) ∷ rest) = let later = look_up k rest in if str_eq l k then some w else later

-- `entry(…).and_modify(|x| *x += 1).or_insert(1)`
unfoldable pub count_up : String → List (String × ℕ) → ℕ × List (String × ℕ)
count_up k counters =
    let n : ℕ = elim (look_up k counters) [ none ↦ 1 | some v ↦ v + 1 ] in
    (n, set_counter k n counters)

-- A kind of element, by its name.
pub data TargetKind : Type 0 where
  block captioned exercise other : TargetKind

unfoldable pub kind_of : String → TargetKind
kind_of n =
    if one_of ("example" ∷ "solution" ∷ "commentary" ∷ "note" ∷ []) n
    then block
    else (if one_of ("figure" ∷ "subfigure" ∷ "table" ∷ []) n
        then captioned
        else (if str_eq n "exercise" then exercise else other))

unfoldable pub target_type : Element → String
target_type e =
    if str_eq (name e) "note"
    then elim (type_of e) [ none ↦ "note" | some t ↦ t ]
    else (if str_eq (name e) "subfigure" then "figure" else name e)

-- The context of the target, and the last context from there on.
unfoldable pub context_of : String → String → Option String → Option String × Option String
context_of n id last =
    if one_of ("exercise" ∷ "figure" ∷ []) n
    then (none, some id)
    else (if one_of ("problem" ∷ "solution" ∷ "commentary" ∷ "subfigure" ∷ []) n
        then (last, last)
        else (none, none))

unfoldable pub reset_counters : String → List (String × ℕ) → List (String × ℕ)
reset_counters n counters =
    if str_eq n "exercise"
    then set_counter "solution" 0 counters
    else (if str_eq n "figure" then set_counter "subfigure" 0 counters else counters)

-- The body of the loop behind the two `continue`s.
unfoldable pub target_of : ℕ → Element → String → Option (List ℕ) → Scope → Target × Scope
target_of document e id description scope =
    let (context, last) = context_of (name e) id scope.last_context in
    let (counter, counters) = count_up (name e) (reset_counters (name e) scope.counters) in
    (
      record {
        document = document;
        element_id = id;
        type_ = target_type e;
        description = description;
        context = context;
        counter = counter;
      },
      record { last_context = last; counters = counters },
    )
