-- ===== src/Xrefs/Stored.antt =====
-- What the table holds after a document is processed (xref_targets.rs).
use adaptarr_server.Prelude.{
  ℕ, ◌≤◌, ◌≡◌, ◌⊎◌, inl, inr, Bool, true, Bool-cases, Option, none, some, String, List, [], ◌∷◌,
  length, ok, refl, sym, subst, ◌∙◌, ==_iff, eq_iff, both, parts, str_eq, ◌==◌,
}
use adaptarr_server.Storage.{In, Table}
use adaptarr_server.Storage.Joins.{upsert}
use adaptarr_server.Storage.Upserts.{upsert-from, upsert_iff}
use adaptarr_server.Xrefs.{Element, id_of, iter_tree, Target, Scope}
use adaptarr_server.Xrefs.Text.{IsShort}
use adaptarr_server.Xrefs.Traversal.{preorder, iter_tree-preorder}
use adaptarr_server.Xrefs.Document.{
  State, targets_of, or_old, merged, conflicts, store, process_document,
}
use adaptarr_server.Xrefs.Contexts.{IsOwner, IsTarget, targets_of-IsTarget}

module _ (is_white : ℕ → Bool) (document : ℕ) {key : Target → ℕ} (table : Table Target key)
    (before : table.Content) (es : List Element) where
  -- A row that was there for the same element.
  abbrev pub Was : Target → Target → Type 0
  Was r s = table.Contains before s × (s.document ≡ r.document) × (s.element_id ≡ r.element_id)

  -- A row for an element of the list. Its description is short and its context the identifier of an
  -- exercise or a figure, unless they stay from a row that was there for the element.
  pub record IsStored (r : Target) : Type 0 where
    pub document_id : r.document ≡ document
    pub element : (e : Element) × In e es × (id_of e ≡ some r.element_id)
    pub short :
        IsShort is_white r.description ⊎ ((s : Target) × Was r s × (s.description ≡ r.description))
    pub owner :
        (c : String)
        → r.context ≡ some c
        → IsOwner es c ⊎ ((s : Target) × Was r s × (s.context ≡ some c))

  abbrev IsFine : Target → Type 0
  IsFine r = table.Contains before r ⊎ IsStored r

  own-IsStored : (t : Target) → IsTarget is_white document es none t → IsStored t
  own-IsStored t h = record {
    document_id = h.document_id;
    element = h.element;
    short = inl h.short;
    owner = λ c e. elim (h.owner c e) [ inl other ↦ absurd (cc other) | inr own ↦ inl own ];
  }

  or_old-cases :
      {A : Type 0} (new old : Option A)
      → (or_old is_white document new old ≡ new) ⊎ (or_old is_white document new old ≡ old)
  unfolding or_old
  or_old-cases none old = inr refl
  or_old-cases (some a) old = inl refl

  merged-IsStored :
      (t r : Target)
      → IsTarget is_white document es none t
      → IsFine r
      → r.document ≡ t.document
      → r.element_id ≡ t.element_id
      → IsStored (merged is_white document t r)
  unfolding merged
  merged-IsStored t r h fine same_document same_element = record {
    document_id = h.document_id;
    element = h.element;
    short = elim (or_old-cases t.description r.description) [
      | inl new ↦ inl (subst (IsShort is_white) (sym new) h.short)
      | inr old ↦ elim fine [
        | inl there ↦ inr (r, (there, same_document, same_element), sym old)
        | inr stored ↦ elim stored.short [
          | inl few ↦ inl (subst (IsShort is_white) (sym old) few)
          | inr (s, (there, eb, ee), same) ↦
              inr (s, (there, eb ∙ same_document, ee ∙ same_element), same ∙ sym old)
        ]
      ]
    ];
    owner = λ c e. elim (or_old-cases t.context r.context) [
      | inl new ↦ elim (h.owner c (sym new ∙ e)) [
        | inl other ↦ absurd (cc other)
        | inr own ↦ inl own
      ]
      | inr old ↦ elim fine [
        | inl there ↦ inr (r, (there, same_document, same_element), sym old ∙ e)
        | inr stored ↦ elim (stored.owner c (sym old ∙ e)) [
          | inl own ↦ inl own
          | inr (s, (there, eb, ee), same) ↦
              inr (s, (there, eb ∙ same_document, ee ∙ same_element), same)
        ]
      ]
    ];
  }

  itself : (t : Target) → conflicts is_white document table t t ≡ true
  unfolding conflicts
  itself t =
      both ((==_iff t.document t.document).1 refl) ((eq_iff t.element_id t.element_id).1 refl)

  merged_itself :
      (t r : Target) → conflicts is_white document table t (merged is_white document t r) ≡ true
  unfolding conflicts merged
  merged_itself t r =
      both ((==_iff t.document t.document).1 refl) ((eq_iff t.element_id t.element_id).1 refl)

  same_element :
      (t r : Target)
      → conflicts is_white document table t r ≡ true
      → (r.document ≡ t.document) × (r.element_id ≡ t.element_id)
  unfolding conflicts
  same_element t r hit =
      let (a, b) = parts (r.document == t.document) (str_eq r.element_id t.element_id) hit in
      ((==_iff r.document t.document).0 a, (eq_iff r.element_id t.element_id).0 b)

  upsert-IsFine :
      (t : Target) (c : table.Content)
      → IsTarget is_white document es none t
      → ((r : Target) → table.Contains c r → IsFine r)
      → (r : Target)
      → table.Contains
          (upsert table (conflicts is_white document table t) (merged is_white document t) t c)
          r
      → IsFine r
  upsert-IsFine t c own fine r m =
      let test = conflicts is_white document table t in
      let change = merged is_white document t in
      elim (Bool-cases (test r)) [
        | inl hit ↦ elim (upsert-from table test change t c r m hit) [
          | inl same ↦ inr (subst IsStored (sym same) (own-IsStored t own))
          | inr (s, there, test_s, same) ↦
              let (eb, ee) = same_element t s test_s in
              inr (subst IsStored (sym same) (merged-IsStored t s own (fine s there) eb ee))
        ]
        | inr miss ↦
            fine r
              ((upsert_iff table test change t c (itself t) (λ x k. merged_itself t x) r miss).0 m)
      ]

  store-IsFine :
      (ts : List Target) (c : table.Content)
      → ((t : Target) → In t ts → IsTarget is_white document es none t)
      → ((r : Target) → table.Contains c r → IsFine r)
      → (r : Target) → table.Contains (store is_white document table ts c) r
      → IsFine r
  unfolding store
  store-IsFine [] c own fine r m = fine r m
  store-IsFine (t ∷ ts) c own fine r m =
      store-IsFine ts _ (λ x h. own x (inr h)) (upsert-IsFine t c (own t (inl refl)) fine) r m

module _ (is_white : ℕ → Bool) (document : ℕ) {key : Target → ℕ} (table : Table Target key) where
  processed :
      (fuel : ℕ) (root : Element) (s : State table.Content) (es : List Element)
      → iter_tree fuel root ≡ ok es
      → process_document is_white document table fuel root s
        ≡ ok (record {
          targets =
              store is_white document table
                (targets_of is_white document es (record { last_context = none; counters = [] }))
                s.targets;
          ready = true;
        })
  unfolding process_document
  processed fuel root s es e = rw e

  -- On fuel for its elements a document is processed and marked as ready. A row that was not in the
  -- table belongs to the document and to one of its elements. Its description has at most 240
  -- characters, unless it is that of a row that was there for this element; its context is the
  -- identifier of an exercise or a figure of the document, unless it is that of such a row.
  pub process_document_correct :
      (fuel : ℕ) (root : Element) (s : State table.Content)
      → length (preorder root) ≤ fuel
      → (after : State table.Content) × (process_document is_white document table fuel root s
          ≡ ok after)
        × (after.ready ≡ true)
        × ((r : Target)
            → table.Contains after.targets r
            → table.Contains s.targets r
              ⊎ IsStored is_white document table s.targets (preorder root) r)
  process_document_correct fuel root s le =
      let first : Scope = record { last_context = none; counters = [] } in
      let ts = targets_of is_white document (preorder root) first in
      (
        record { targets = store is_white document table ts s.targets; ready = true },
        processed fuel root s (preorder root) (iter_tree-preorder fuel root le),
        refl,
        store-IsFine is_white document table s.targets (preorder root) ts s.targets
            (targets_of-IsTarget is_white document (preorder root) first) (λ r m. inl m),
      )
