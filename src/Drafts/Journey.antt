-- ===== src/Drafts/Journey.antt =====
-- A draft gets to the end of its process along links whose slots are taken (draft.rs).
use adaptarr_server.Prelude.{
  ℕ, ◌≡◌, inl, inr, Option, List, [], ◌∷◌, Result, ok, ◌>>=◌, refl, sym, subst,
}
use adaptarr_server.Drafts.{Draft, Module, Tables, State}
use adaptarr_server.Drafts.Advance.{
  AdvanceDraftError, AdvanceResult, advanced, finished, advance_draft,
}
use adaptarr_server.Drafts.Checks.{IsEnabled, IsStored, HasNext}
use adaptarr_server.Drafts.Advanced.{IsMoved, advance_draft-advanced}
use adaptarr_server.Drafts.Finished.{advance_draft-finished}

-- A user, the slot that the user takes a link with, and the step that the link goes to.
pub record Move : Type 0 where
  pub user : ℕ
  pub slot : ℕ
  pub target : ℕ

module _ (db : Tables) (pick : State db → Option ℕ) where
  -- The calls, one after the other, while the process goes on.
  unfoldable pub run :
      Draft → Move → List Move → State db → Result AdvanceDraftError (AdvanceResult × State db)
  run self m [] s = advance_draft db pick self m.user m.slot m.target s
  run self m (n ∷ more) s = advance_draft db pick self m.user m.slot m.target s >>= λ out.
      elim out.0 [ advanced self ↦ run self n more out.1 | finished x ↦ ok out ]

  -- Every move can be made where the draft then stands, and the last one alone goes to a final step.
  abbrev pub IsRoute : Draft → Move → List Move → State db → Type 0
  IsRoute self m [] s = IsEnabled db self m.user m.slot m.target s × (¬ HasNext db m.target s)
  IsRoute self m (n ∷ more) s =
      IsEnabled db self m.user m.slot m.target s
      × HasNext db m.target s
      × IsRoute (record self { step = m.target }) n more s

  module _ (s after : State db) (seats : after.draft_slots ≡ s.draft_slots)
      (links : after.links ≡ s.links) (steps : after.steps ≡ s.steps) where
    IsEnabled-kept :
        (self : Draft) (user slot target : ℕ)
        → IsEnabled db self user slot target s
        → IsEnabled db self user slot target after
    IsEnabled-kept self user slot target h = record {
      seat =
          let (r, here, draft, at) = h.seat in
          (r, subst (λ c. db.draft_slots.Contains c r) (sym seats) here, draft, at);
      sitter = λ r here. h.sitter r (subst (λ c. db.draft_slots.Contains c r) seats here);
      link =
          let (r, here, f, t, at) = h.link in
          (r, subst (λ c. db.links.Contains c r) (sym links) here, f, t, at);
      next =
          let (r, here, at) = h.next in
          (r, subst (λ c. db.steps.Contains c r) (sym steps) here, at);
    }

    IsRoute-kept :
        (self : Draft) (m : Move) (more : List Move)
        → IsRoute self m more s
        → IsRoute self m more after
    IsRoute-kept self m [] h = (
      IsEnabled-kept self m.user m.slot m.target h.0,
      λ (r, here, e). h.1 (r, subst (λ c. db.links.Contains c r) links here, e),
    )
    IsRoute-kept self m (n ∷ more) h = (
      IsEnabled-kept self m.user m.slot m.target h.0,
      (let (r, here, e) = h.1 in (r, subst (λ c. db.links.Contains c r) (sym links) here, e)),
      IsRoute-kept (record self { step = m.target }) n more h.2,
    )

  moved-IsStored :
      (self : Draft) (step : ℕ) (s after : State db)
      → IsMoved db pick self step s after
      → IsStored db (record self { step = step }) after
  moved-IsStored self step s after moved = (
    (moved.0 (record self { step = step })).1 (inl refl),
    λ r here same. elim ((moved.0 r).0 here) [ inl e ↦ e | inr (old, other) ↦ absurd (other same) ],
  )

  -- A draft, the one row of a module, whose users take a route of enabled links to a final step
  -- gets there: the process ends, and the module has the draft's document.
  pub run-finished :
      (self : Draft) (m : Move) (more : List Move) (s : State db)
      → IsRoute self m more s
      → IsStored db self s
      → (x : Module) × db.modules.Contains s.modules x × (x.id ≡ self.module_id)
      → (x : Module) × (after : State db) × (run self m more s ≡ ok (finished x, after))
        × (x.id ≡ self.module_id)
        × (x.document ≡ self.document)
        × db.modules.Contains after.modules x
  unfolding run
  run-finished self m [] s route stored own =
      let (x, after, e, id, document, there, drafts, seats) =
        advance_draft-finished db pick self m.user m.slot m.target s route.0 route.1 own in
      (x, after, e, id, document, there)
  run-finished self m (n ∷ more) s route stored (x, here, id) =
      let (after, e, moved) =
        advance_draft-advanced db pick self m.user m.slot m.target s route.0 stored route.1 in
      let moved_self : Draft = record self { step = m.target } in
      let kept = IsRoute-kept s after moved.1 moved.2 moved.3 moved_self n more route.2 in
      let (y, last, f, own, document, there) =
        run-finished moved_self n more after kept (moved-IsStored self m.target s after moved)
          (x, subst (λ c. db.modules.Contains c x) (sym moved.4) here, id) in
      (y, last, rw e f, own, document, there)
