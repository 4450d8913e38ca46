-- ===== src/Xrefs/Contexts.antt =====
-- What the rows of a processed document are (xref_targets.rs).
use adaptarr_server.Prelude.{
  ℕ, ◌≡◌, ◌⊎◌, inl, inr, Bool, true, Bool-cases, Option, none, some, Option-cases, String, List, [],
  ◌∷◌, refl, sym, ap, subst, ◌∙◌,
}
use adaptarr_server.Storage.{In}
use adaptarr_server.Xrefs.{Element, id_of, name, one_of, Target, Scope, context_of, target_of}
use adaptarr_server.Xrefs.Text.{description_of, IsShort, description_of-IsShort}
use adaptarr_server.Xrefs.Document.{targets_of}

-- An exercise or a figure with this identifier.
abbrev pub IsOwner : List Element → String → Type 0
IsOwner es c =
    (o : Element) × In o es
    × (id_of o ≡ some c)
    × (one_of ("exercise" ∷ "figure" ∷ []) (name o) ≡ true)

context_of_lem :
    (n id : String) (last : Option String) (c : String)
    → ((context_of n id last).0 ≡ some c → last ≡ some c)
      × ((context_of n id last).1 ≡ some c
          → (last ≡ some c) ⊎ ((id ≡ c) × (one_of ("exercise" ∷ "figure" ∷ []) n ≡ true)))
unfolding context_of
context_of_lem n id last c = elim (Bool-cases (one_of ("exercise" ∷ "figure" ∷ []) n)) [
  | inl own ↦ rw own ((λ e. cc e), (λ e. inr (cc e, refl)))
  | inr other ↦
      elim (Bool-cases (one_of ("problem" ∷ "solution" ∷ "commentary" ∷ "subfigure" ∷ []) n)) [
        | inl owned ↦ rw (other, owned) ((λ e. e), (λ e. inl e))
        | inr free ↦ rw (other, free) ((λ e. cc e), (λ e. cc e))
      ]
]

module _ (is_white : ℕ → Bool) (document : ℕ) where
  -- A row for an element of the list: a short description, and a context that is an owner's.
  pub record IsTarget (es : List Element) (scope : Option String) (t : Target) : Type 0 where
    pub document_id : t.document ≡ document
    pub element : (e : Element) × In e es × (id_of e ≡ some t.element_id)
    pub short : IsShort is_white t.description
    pub owner : (c : String) → t.context ≡ some c → (scope ≡ some c) ⊎ IsOwner es c

  -- The same row, where one more element stands in front.
  later :
      (e : Element) (es : List Element) (scope after : Option String) (t : Target)
      → ((c : String) → after ≡ some c → (scope ≡ some c) ⊎ IsOwner (e ∷ es) c)
      → IsTarget es after t
      → IsTarget (e ∷ es) scope t
  later e es scope after t h k = record {
    document_id = k.document_id;
    element = let (x, m, i) = k.element in (x, inr m, i);
    short = k.short;
    owner = λ c f. elim (k.owner c f) [ inl g ↦ h c g | inr (o, m, i, n) ↦ inr (o, inr m, i, n) ];
  }

  module _ (e : Element) (es : List Element) (scope : Scope) where
    without_id :
        id_of e ≡ none
        → targets_of is_white document (e ∷ es) scope ≡ targets_of is_white document es scope
    unfolding targets_of
    without_id h = cc h

    module _ (id : String) (h : id_of e ≡ some id) where
      no_target :
          description_of is_white e ≡ none
          → targets_of is_white document (e ∷ es) scope ≡ targets_of is_white document es scope
      unfolding targets_of
      no_target k = cc (h, k)

      module _ (description : Option (List ℕ))
          (k : description_of is_white e ≡ some description) where
        made :
            targets_of is_white document (e ∷ es) scope
            ≡ (target_of document e id description scope).0
              ∷ targets_of is_white document es (target_of document e id description scope).1
        unfolding targets_of
        made = cc (h, k)

        own-IsTarget :
            IsTarget (e ∷ es) scope.last_context (target_of document e id description scope).0
        unfolding target_of
        own-IsTarget = record {
          document_id = refl;
          element = (e, inl refl, h);
          short = description_of-IsShort is_white e description k;
          owner = λ c f. inl ((context_of_lem (name e) id scope.last_context c).0 f);
        }

        passed_on :
            (c : String)
            → (target_of document e id description scope).1.last_context ≡ some c
            → (scope.last_context ≡ some c) ⊎ IsOwner (e ∷ es) c
        unfolding target_of
        passed_on c f = elim ((context_of_lem (name e) id scope.last_context c).1 f) [
          | inl before ↦ inl before
          | inr (same, owner) ↦ inr (e, inl refl, h ∙ ap some same, owner)
        ]

  nothing :
      (scope : Scope) (t : Target)
      → In t (targets_of is_white document [] scope)
      → IsTarget [] scope.last_context t
  unfolding targets_of
  nothing scope t m = absurd m

  pub targets_of-IsTarget :
      (es : List Element) (scope : Scope) (t : Target)
      → In t (targets_of is_white document es scope)
      → IsTarget es scope.last_context t
  targets_of-IsTarget [] scope t m = nothing scope t m
  targets_of-IsTarget (e ∷ es) scope t m = elim (Option-cases (id_of e)) [
    | inl h ↦
        later e es scope.last_context scope.last_context t (λ c f. inl f)
          (targets_of-IsTarget es scope t (subst (In t) (without_id e es scope h) m))
    | inr (id, h) ↦ elim (Option-cases (description_of is_white e)) [
      | inl k ↦
          later e es scope.last_context scope.last_context t (λ c f. inl f)
            (targets_of-IsTarget es scope t (subst (In t) (no_target e es scope id h k) m))
      | inr (description, k) ↦
          let x = target_of document e id description scope in
          elim (subst (In t) (made e es scope id h description k) m) [
            | inl same ↦
                subst (IsTarget (e ∷ es) scope.last_context) (sym same)
                  (own-IsTarget e es scope id h description k)
            | inr m ↦
                later e es scope.last_context x.1.last_context t
                  (passed_on e es scope id h description k) (targets_of-IsTarget es x.1 t m)
          ]
    ]
  ]
