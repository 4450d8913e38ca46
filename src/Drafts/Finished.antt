-- ===== src/Drafts/Finished.antt =====
-- What advancing a draft to a final step does (draft.rs).
use adaptarr_server.Prelude.{
  ℕ, ◌≡◌, ◌≢◌, ◌↔◌, inl, inr, ◌==◌, ==_iff, if_true, if_false, differ, Bool-cases, Option, some,
  ◌∷◌, map, ok, sym, ap, subst, ◌∙◌,
}
use adaptarr_server.Storage.Joins.{find-some}
use adaptarr_server.Drafts.{
  Draft, DraftSlot, Module, EditProcessStep, EditProcessLink, Tables, State, process_ended,
  process_document, finish,
}
use adaptarr_server.Drafts.Slots.{required}
use adaptarr_server.Drafts.Advance.{finished, is_draft, seats, finish_draft, advance_draft}
use adaptarr_server.Drafts.Checks.{IsEnabled, HasNext, is_final-none, checked, ends}

module _ (db : Tables) where
  -- The module's row after its document is replaced.
  replaced :
      (id document : ℕ) (c : db.modules.Content) (m : Module)
      → db.modules.Contains c m
      → m.id ≡ id
      → (x : Module) × (db.modules.find
            (λ r. r.id == id)
            (db.modules.update (λ r. r.id == id) (λ r. record r { document = document }) c)
          ≡ some x)
        × (x.id ≡ id)
        × (x.document ≡ document)
        × db.modules.Contains
            (db.modules.update (λ r. r.id == id) (λ r. record r { document = document }) c)
            x
  replaced id document c m here own =
      let law = db.modules.update_iff (λ r. r.id == id) (λ r. record r { document = document }) c in
      let put =
        (law (record m { document = document })).1
          (m, here, sym (if_true _ ((==_iff m.id id).1 own))) in
      let (x, e, there, test) =
        find-some db.modules (λ r. r.id == id)
          (db.modules.update (λ r. r.id == id) (λ r. record r { document = document }) c)
          (record m { document = document }) put ((==_iff m.id id).1 own) in
      let (y, old, f) = (law x).0 there in
      elim (Bool-cases (y.id == id)) [
        | inl hit ↦
            let g = f ∙ if_true _ hit in
            (x, e, (==_iff x.id id).0 test, ap Module.document g, there)
        | inr miss ↦ let g = f ∙ if_false _ miss in absurd (cc (ap Module.id g, test, miss))
      ]

  -- The state behind the final step.
  abbrev ended : Draft → ℕ → EditProcessLink → EditProcessStep → State db → State db
  ended self user link next s = record s {
    drafts = db.drafts.delete (is_draft self.module_id) s.drafts;
    draft_slots = db.draft_slots.delete (λ r. r.draft == self.module_id) s.draft_slots;
    modules =
        db.modules.update (λ r. r.id == self.module_id) (λ r. record r { document = self.document })
          s.modules;
    notices =
        process_ended (map DraftSlot.user (seats db self s)) self.module_id self.document
        ∷ process_document self.document
        ∷ s.notices;
    log = finish user self.module_id link.from link.to next.id self.document ∷ s.log;
  }

  finish_draft-ok :
      (self : Draft) (user : ℕ) (link : EditProcessLink) (next : EditProcessStep) (s : State db)
      (x : Module)
      → db.modules.find
          (λ r. r.id == self.module_id)
          (db.modules.update
            (λ r. r.id == self.module_id)
            (λ r. record r { document = self.document })
            s.modules)
        ≡ some x
      → finish_draft db self user link next s ≡ ok (finished x, ended self user link next s)
  unfolding finish_draft required
  finish_draft-ok self user link next s x e = rw e

  kept_draft :
      (self : Draft) (s : State db) (r : Draft)
      → db.drafts.Contains (db.drafts.delete (is_draft self.module_id) s.drafts) r
        ↔ (db.drafts.Contains s.drafts r × (r.module_id ≢ self.module_id))
  unfolding is_draft
  kept_draft self s r =
      let law = db.drafts.delete_iff (is_draft self.module_id) s.drafts r in
      (
        λ m.
            let (old, other) = law.0 m in
            (old, λ e. cc ((==_iff r.module_id self.module_id).1 e, other)),
        λ h. law.1 (h.0, differ r.module_id self.module_id h.1),
      )

  kept_seat :
      (self : Draft) (s : State db) (r : DraftSlot)
      → db.draft_slots.Contains
          (db.draft_slots.delete (λ x. x.draft == self.module_id) s.draft_slots)
          r
        ↔ (db.draft_slots.Contains s.draft_slots r × (r.draft ≢ self.module_id))
  kept_seat self s r =
      let law = db.draft_slots.delete_iff (λ x. x.draft == self.module_id) s.draft_slots r in
      (
        λ m.
            let (old, other) = law.0 m in
            (old, λ e. cc ((==_iff r.draft self.module_id).1 e, other)),
        λ h. law.1 (h.0, differ r.draft self.module_id h.1),
      )

  module _ (pick : State db → Option ℕ) where
    -- A user who sits in the slot of a link can take a draft of a module to a final step: the
    -- draft's document becomes that of its module, the draft and its seats are gone, and other
    -- drafts and seats stay.
    pub advance_draft-finished :
        (self : Draft) (user slot target : ℕ) (s : State db)
        → IsEnabled db self user slot target s
        → ¬ HasNext db target s
        → (m : Module) × db.modules.Contains s.modules m × (m.id ≡ self.module_id)
        → (m : Module) × (after : State db) × (advance_draft db pick self user slot target s
            ≡ ok (finished m, after))
          × (m.id ≡ self.module_id)
          × (m.document ≡ self.document)
          × db.modules.Contains after.modules m
          × ((r : Draft)
              → db.drafts.Contains after.drafts r
                ↔ (db.drafts.Contains s.drafts r × (r.module_id ≢ self.module_id)))
          × ((r : DraftSlot)
              → db.draft_slots.Contains after.draft_slots r
                ↔ (db.draft_slots.Contains s.draft_slots r × (r.draft ≢ self.module_id)))
    advance_draft-finished self user slot target s enabled last stored =
        let (link, next, at, run) = checked db pick self user slot target s enabled in
        let (m, here, own) = stored in
        let (x, e, id, document, there) =
          replaced self.module_id self.document s.modules m here own in
        let final = is_final-none db next s (subst (λ k. ¬ HasNext db k s) (sym at) last) in
        (
          x,
          ended self user link next s,
          ends db pick self user slot target s link next run final
              ∙ finish_draft-ok self user link next s x e,
          id,
          document,
          there,
          (λ r. kept_draft self s r),
          (λ r. kept_seat self s r),
        )
