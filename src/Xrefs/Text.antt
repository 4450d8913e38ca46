-- ===== src/Xrefs/Text.antt =====
-- The text that describes a target (xref_targets.rs).
use adaptarr_server.Prelude.{
  ℕ, ◌≤◌, ◌≡◌, ◌&&◌, not, Bool, true, false, Option, none, some, List, [], ◌∷◌, ◌++◌, if◌then◌else◌,
  take, length, subst,
}
use adaptarr_server.Storage.Orders.{length-take}
use adaptarr_server.Xrefs.{
  Element, element, Nodes, no_nodes, text_then, element_then, comment_then, one_of, TargetKind,
  block, captioned, exercise, other, kind_of, get_child, cnxml_ns, name,
}

unfoldable pub holds_nothing : List ℕ → Bool
holds_nothing [] = true
holds_nothing (c ∷ cs) = false

-- `split_whitespace`, with the word that was begun.
unfoldable pub words_onto : (ℕ → Bool) → List ℕ → List ℕ → List (List ℕ)
words_onto is_white word [] = if holds_nothing word then [] else word ∷ []
words_onto is_white word (c ∷ cs) =
    let later = words_onto is_white (if is_white c then [] else word ++ c ∷ []) cs in
    if is_white c && not (holds_nothing word) then word ∷ later else later

-- A space before each item but the first.
unfoldable pub spaced : List (List ℕ) → List ℕ
spaced [] = []
spaced (w ∷ ws) = 32 ∷ (w ++ spaced ws)

unfoldable pub join_words : List (List ℕ) → List ℕ
join_words [] = []
join_words (w ∷ ws) = w ++ spaced ws

module _ (is_white : ℕ → Bool) where
  unfoldable pub collapse_spaces : List ℕ → List ℕ
  collapse_spaces s = join_words (words_onto is_white [] s)

  -- `truncate` behind 240 characters, and `None` for nothing.
  unfoldable pub shortened : List ℕ → Option (List ℕ)
  shortened r = if holds_nothing r then none else some (take 240 r)

  unfoldable pub or_nothing : Option (List ℕ) → List ℕ
  or_nothing none = []
  or_nothing (some s) = collapse_spaces s

  unfoldable mutual
    pub line_contex_text : Element → Option (List ℕ)
    line_contex_text (element n ns i t nodes) =
        let line = shortened (line_nodes nodes) in
        let inside = first_line nodes in
        if one_of ("para" ∷ "title" ∷ "item" ∷ "caption" ∷ "emphasis" ∷ "sub" ∷ "sup" ∷ "link" ∷ [])
          n
        then line
        else (if one_of ("math" ∷ "media" ∷ "image" ∷ []) n then none else inside)

    pub line_nodes : Nodes → List ℕ
    line_nodes no_nodes = []
    line_nodes (text_then t rest) = collapse_spaces t ++ line_nodes rest
    line_nodes (element_then e rest) = or_nothing (line_contex_text e) ++ line_nodes rest
    line_nodes (comment_then rest) = line_nodes rest

    -- `children().next_item().and_then(line_contex_text)`
    pub first_line : Nodes → Option (List ℕ)
    first_line no_nodes = none
    first_line (text_then t rest) = first_line rest
    first_line (element_then e rest) = line_contex_text e
    first_line (comment_then rest) = first_line rest

  unfoldable pub and_then : Option Element → Option (List ℕ)
  and_then none = none
  and_then (some e) = line_contex_text e

  -- The description of an element that may be a target; `none` for the others.
  unfoldable pub description_of : Element → Option (Option (List ℕ))
  description_of e = elim (kind_of (name e)) [
    | block ↦ some (line_contex_text e)
    | captioned ↦ some (and_then (get_child "caption" cnxml_ns e))
    | exercise ↦ some (and_then (get_child "problem" cnxml_ns e))
    | other ↦ none
  ]

  -- No more than 240 characters.
  abbrev pub IsShort : Option (List ℕ) → Type 0
  IsShort o = (r : List ℕ) → o ≡ some r → length r ≤ 240

  shortened-IsShort : (r : List ℕ) → IsShort (shortened r)
  unfolding shortened holds_nothing
  shortened-IsShort [] s e = cc e
  shortened-IsShort (c ∷ cs) s e =
      let same : take 240 (c ∷ cs) ≡ s = cc e in
      subst (λ x. length x ≤ 240) same (length-take 240 (c ∷ cs))

  either-IsShort :
      (b : Bool) {x y : Option (List ℕ)} → IsShort x → IsShort y → IsShort (if b then x else y)
  either-IsShort true h k = h
  either-IsShort false h k = k

  mutual
    unfolding line_contex_text first_line

    line_contex_text-IsShort : (e : Element) → IsShort (line_contex_text e)
    line_contex_text-IsShort (element n ns i t nodes) =
        let line = shortened-IsShort (line_nodes nodes) in
        let inside = first_line-IsShort nodes in
        let nothing : IsShort none = λ r e. cc e in
        either-IsShort
          (one_of ("para" ∷ "title" ∷ "item" ∷ "caption" ∷ "emphasis" ∷ "sub" ∷ "sup" ∷ "link" ∷ [])
            n)
          line (either-IsShort (one_of ("math" ∷ "media" ∷ "image" ∷ []) n) nothing inside)

    first_line-IsShort : (nodes : Nodes) → IsShort (first_line nodes)
    first_line-IsShort no_nodes r e = cc e
    first_line-IsShort (text_then t rest) r e = first_line-IsShort rest r e
    first_line-IsShort (element_then e rest) r h = line_contex_text-IsShort e r h
    first_line-IsShort (comment_then rest) r e = first_line-IsShort rest r e

  and_then-IsShort : (o : Option Element) → IsShort (and_then o)
  unfolding and_then
  and_then-IsShort none r e = cc e
  and_then-IsShort (some x) r e = line_contex_text-IsShort x r e

  -- A description has at most 240 characters.
  pub description_of-IsShort :
      (e : Element) (description : Option (List ℕ))
      → description_of e ≡ some description
      → IsShort description
  unfolding description_of
  description_of-IsShort e description h = by_kind (kind_of (name e)) h
    where
      by_kind :
          (k : TargetKind)
          → (elim k [
            | block ↦ some (line_contex_text e)
            | captioned ↦ some (and_then (get_child "caption" cnxml_ns e))
            | exercise ↦ some (and_then (get_child "problem" cnxml_ns e))
            | other ↦ none
          ])
            ≡ some description
          → IsShort description
      by_kind block h =
          let same : (line_contex_text e) ≡ description = cc h in
          subst IsShort same (line_contex_text-IsShort e)
      by_kind captioned h =
          let same : (and_then (get_child "caption" cnxml_ns e)) ≡ description = cc h in
          subst IsShort same (and_then-IsShort (get_child "caption" cnxml_ns e))
      by_kind exercise h =
          let same : (and_then (get_child "problem" cnxml_ns e)) ≡ description = cc h in
          subst IsShort same (and_then-IsShort (get_child "problem" cnxml_ns e))
      by_kind other h = cc h
