-- ===== src/Drafts/Advanced.antt =====
-- What advancing a draft does (draft.rs).
use adaptarr_server.Prelude.{
  ℕ, ◌≡◌, ◌≢◌, ◌↔◌, ◌⊎◌, inl, inr, ◌==◌, ==_iff, if_true, if_false, differ, Bool-cases, Option,
  some, ◌∷◌, ◌++◌, ok, refl, sym, ap, subst, ◌∙◌,
}
use adaptarr_server.Storage.Joins.{group_by, find-some}
use adaptarr_server.Drafts.{Draft, EditProcessStep, EditProcessLink, Tables, State, advance}
use adaptarr_server.Drafts.Slots.{required}
use adaptarr_server.Drafts.Seating.{get_slot_seating, get_slot_seating_lem}
use adaptarr_server.Drafts.Advance.{
  advanced, is_draft, Held, held_in, seats, draft_advanced_to, proceed, advance_draft,
}
use adaptarr_server.Drafts.Checks.{
  IsEnabled, IsStored, HasNext, is_final-HasNext, fill_empty-ok, checked, goes_on,
}

module _ (db : Tables) where
  module _ (pick : State db → Option ℕ) where
    -- The draft stands at a step, and other drafts, seats and processes are as they were.
    abbrev pub IsMoved : Draft → ℕ → State db → State db → Type 0
    IsMoved self step s after =
        ((r : Draft)
          → db.drafts.Contains after.drafts r ↔ (
              (r ≡ record self { step = step })
              ⊎ (db.drafts.Contains s.drafts r × (r.module_id ≢ self.module_id))))
        × (after.draft_slots ≡ s.draft_slots)
        × (after.links ≡ s.links)
        × (after.steps ≡ s.steps)
        × (after.modules ≡ s.modules)

    moved_iff :
        (self : Draft) (step : ℕ) (s : State db)
        → IsStored db self s
        → (r : Draft)
        → db.drafts.Contains
            (db.drafts.update (is_draft self.module_id) (λ r. record r { step = step }) s.drafts)
            r
          ↔ ((r ≡ record self { step = step })
              ⊎ (db.drafts.Contains s.drafts r × (r.module_id ≢ self.module_id)))
    unfolding is_draft
    moved_iff self step s (here, only) r =
        let law =
          db.drafts.update_iff (is_draft self.module_id) (λ r. record r { step = step }) s.drafts
            r in
        (
          λ m.
              let (x, there, e) = law.0 m in
              elim (Bool-cases (x.module_id == self.module_id)) [
                | inl own ↦
                    let same = only x there ((==_iff x.module_id self.module_id).0 own) in
                    inl (e ∙ if_true _ own ∙ ap (λ (d : Draft). record d { step = step }) same)
                | inr other ↦
                    let same = e ∙ if_false _ other in
                    inr (
                      subst (λ d. db.drafts.Contains s.drafts d) (sym same) there,
                      λ k. cc ((==_iff r.module_id self.module_id).1 k, same, other),
                    )
              ],
          λ either. elim either [
            | inl e ↦
                law.1
                  (self, here, e ∙ sym (if_true _ ((==_iff self.module_id self.module_id).1 refl)))
            | inr (there, other) ↦
                law.1 (r, there, sym (if_false _ (differ r.module_id self.module_id other)))
          ],
        )

    found :
        (self : Draft) (step : ℕ) (s : State db)
        → IsStored db self s
        → db.drafts.find
            (is_draft self.module_id)
            (db.drafts.update (is_draft self.module_id) (λ r. record r { step = step }) s.drafts)
          ≡ some (record self { step = step })
    unfolding is_draft
    found self step s stored =
        let iff = moved_iff self step s stored in
        let (x, e, there, test) =
          find-some db.drafts (is_draft self.module_id)
            (db.drafts.update (is_draft self.module_id) (λ r. record r { step = step }) s.drafts)
            (record self { step = step }) ((iff (record self { step = step })).1 (inl refl))
            ((==_iff self.module_id self.module_id).1 refl) in
        elim ((iff x).0 there) [
          | inl same ↦ e ∙ ap some same
          | inr (old, other) ↦ absurd (other ((==_iff x.module_id self.module_id).0 test))
        ]

    -- The state behind a step that is not final.
    abbrev behind : Draft → ℕ → EditProcessLink → EditProcessStep → State db → State db
    behind self user link next s = record s {
      drafts =
          db.drafts.update (is_draft self.module_id) (λ r. record r { step = next.id }) s.drafts;
      notices =
          draft_advanced_to db (record self { step = next.id })
            (group_by (λ (a : Held) (b : Held). a.user == b.user)
              (held_in db next.id (seats db self s) s))
          ++ s.notices;
      log = advance user self.module_id link.from link.to next.id ∷ s.log;
    }

    proceed-ok :
        (self : Draft) (user : ℕ) (link : EditProcessLink) (next : EditProcessStep) (s : State db)
        → IsStored db self s
        → proceed db pick self user link next s
          ≡ ok (advanced (record self { step = next.id }), behind self user link next s)
    unfolding proceed required
    proceed-ok self user link next s stored = rw (
      fill_empty-ok db pick self (get_slot_seating db next self.module_id s)
          (record s { log = advance user self.module_id link.from link.to next.id ∷ s.log })
          (get_slot_seating_lem db next self.module_id s),
      found self next.id s stored,
    )

    -- A user who sits in the slot of a link can take the draft, the one row of its module, to a
    -- step with links of its own: the draft then stands at that step. Other drafts, the seats (no
    -- empty slot is filled), the links, the steps and the modules stay.
    pub advance_draft-advanced :
        (self : Draft) (user slot target : ℕ) (s : State db)
        → IsEnabled db self user slot target s
        → IsStored db self s
        → HasNext db target s
        → (after : State db) × (advance_draft db pick self user slot target s
            ≡ ok (advanced (record self { step = target }), after))
          × IsMoved self target s after
    advance_draft-advanced self user slot target s enabled stored more =
        let (link, next, at, run) = checked db pick self user slot target s enabled in
        let open_end = is_final-HasNext db next s (subst (λ k. HasNext db k s) (sym at) more) in
        subst
          (λ k.
            (after : State db) × (advance_draft db pick self user slot target s
              ≡ ok (advanced (record self { step = k }), after))
            × IsMoved self k s after)
          at
          (
            behind self user link next s,
            goes_on db pick self user slot target s link next run open_end
                ∙ proceed-ok self user link next s stored,
            (moved_iff self next.id s stored, refl, refl, refl, refl),
          )
