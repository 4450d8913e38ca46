-- ===== src/Xrefs/Document.antt =====
-- Processing a document (xref_targets.rs).
use adaptarr_server.Prelude.{
  ℕ, ◌==◌, ◌&&◌, Bool, true, Option, none, some, str_eq, List, [], ◌∷◌, Result, ok, ◌>>=◌,
}
use adaptarr_server.Storage.{Table}
use adaptarr_server.Storage.Joins.{upsert}
use adaptarr_server.Xrefs.{Element, id_of, iter_tree, Target, Scope, target_of}
use adaptarr_server.Xrefs.Text.{description_of}

-- The table `xref_targets`, and `xrefs_ready` of the document.
pub record State (Content : Type 0) : Type 0 where
  pub targets : Content
  pub ready : Bool

module _ (is_white : ℕ → Bool) (document : ℕ) where
  -- The rows that the loop makes, in order.
  unfoldable pub targets_of : List Element → Scope → List Target
  targets_of [] scope = []
  targets_of (e ∷ es) scope = elim (id_of e) [
    | none ↦ targets_of es scope
    | some id ↦ elim (description_of is_white e) [
      | none ↦ targets_of es scope
      | some description ↦
          (target_of document e id description scope).0
          ∷ targets_of es (target_of document e id description scope).1
    ]
  ]

  -- The `AsChangeset` of `NewXrefTarget` leaves a column alone for which the new row has `None`.
  unfoldable pub or_old {ℓ} : {A : Type ℓ} → Option A → Option A → Option A
  or_old none old = old
  or_old (some a) old = some a

  unfoldable pub merged : Target → Target → Target
  merged t r = record t {
    description = or_old t.description r.description;
    context = or_old t.context r.context;
  }

  module _ {key : Target → ℕ} (table : Table Target key) where
    unfoldable pub conflicts : Target → Target → Bool
    conflicts t r = r.document == t.document && str_eq r.element_id t.element_id

    unfoldable pub store : List Target → table.Content → table.Content
    store [] c = c
    store (t ∷ ts) c = store ts (upsert table (conflicts t) (merged t) t c)

    -- The fuel is for the traversal.
    unfoldable pub process_document :
        ℕ → Element → State table.Content → Result ⊥ (State table.Content)
    process_document fuel root s = do
      found ← iter_tree fuel root
      ok (record {
        targets =
            store (targets_of found (record { last_context = none; counters = [] })) s.targets;
        ready = true;
      })
