-- ===== src/Drafts/Filled.antt =====
-- Filling a slot of a draft with a user (editing/slot.rs).
use adaptarr_server.Prelude.{
  ℕ, ◌≡◌, ◌↔◌, ◌⊎◌, inl, inr, ==_iff, both, Bool, true, false, Bool-cases, some, ◌∷◌, ◌++◌, ok, err,
  reject, refl, ap, ◌∙◌,
}
use adaptarr_server.Storage.Joins.{upsert, find-some}
use adaptarr_server.Storage.Upserts.{upsert-eq, upsert-some, upsert_iff}
use adaptarr_server.Drafts.{
  Draft, DraftSlot, EditProcessSlot, Tables, slot_filled, fill_slot, State,
}
use adaptarr_server.Drafts.Slots.{
  bad_role, is_seat, get_occupant, is_allowed_to_occupy, vacated, fill_with,
}

module _ (db : Tables) (self : EditProcessSlot) (draft : Draft) (user : ℕ) (s : State db) where
  abbrev seated : DraftSlot
  seated = record { draft = draft.module_id; slot = self.id; user = user }

  abbrev sit : DraftSlot → DraftSlot
  sit r = record r { user = user }

  abbrev rows : db.draft_slots.Content
  rows = upsert db.draft_slots (is_seat draft.module_id self.id) sit seated s.draft_slots

  abbrev filled : State db
  filled = record s {
    draft_slots = rows;
    notices =
        vacated db self draft (get_occupant db self draft s)
        ++ slot_filled user self.id draft.module_id draft.document ∷ s.notices;
    log = fill_slot draft.module_id self.id user ∷ s.log;
  }

  runs : is_allowed_to_occupy db self user s ≡ true → fill_with db self draft user s ≡ ok filled
  unfolding fill_with reject
  runs h = rw h

  occupant :
      (t : State db) (x : DraftSlot)
      → db.draft_slots.find (is_seat draft.module_id self.id) t.draft_slots ≡ some x
      → get_occupant db self draft t ≡ some x.user
  unfolding get_occupant
  occupant t x e = rw (e, get_occupant)

  others :
      (r : DraftSlot)
      → (db.draft_slots.Contains rows r × (is_seat draft.module_id self.id r ≡ false))
        ↔ (db.draft_slots.Contains s.draft_slots r × (is_seat draft.module_id self.id r ≡ false))
  unfolding is_seat
  others r =
      let law =
        upsert_iff db.draft_slots (is_seat draft.module_id self.id) sit seated s.draft_slots
          (both ((==_iff draft.module_id draft.module_id).1 refl) ((==_iff self.id self.id).1 refl))
          (λ x k. k) r in
      (λ h. ((law h.1).0 h.0, h.1), λ h. ((law h.1).1 h.0, h.1))

  occupied : get_occupant db self draft filled ≡ some user
  unfolding is_seat
  occupied =
      let seat : DraftSlot → Bool = is_seat draft.module_id self.id in
      let (r, here, hit) =
        upsert-some db.draft_slots seat sit seated s.draft_slots
          (both ((==_iff draft.module_id draft.module_id).1 refl) ((==_iff self.id self.id).1 refl))
          (λ x h. h) in
      let (x, e, there, test) = find-some db.draft_slots seat rows r here hit in
      let who : x.user ≡ user =
        elim (upsert-eq db.draft_slots seat sit seated s.draft_slots x there test) [
          | inl same ↦ ap DraftSlot.user same
          | inr (y, same) ↦ ap DraftSlot.user same
        ] in
      occupant filled x e ∙ ap some who

  -- A user whom the roles of a slot allow is put in the slot of a draft: the user is its occupant then,
  -- whoever was before, and all other seats of all drafts are as they were. Another user is refused.
  pub fill_with_correct :
      ((is_allowed_to_occupy db self user s ≡ true)
        × ((after : State db) × (fill_with db self draft user s ≡ ok after)
            × (get_occupant db self draft after ≡ some user)
            × ((r : DraftSlot)
                → (db.draft_slots.Contains after.draft_slots r
                    × (is_seat draft.module_id self.id r ≡ false))
                  ↔ (db.draft_slots.Contains s.draft_slots r
                      × (is_seat draft.module_id self.id r ≡ false)))))
      ⊎ ((is_allowed_to_occupy db self user s ≡ false)
          × (fill_with db self draft user s ≡ err bad_role))
  unfolding fill_with reject
  fill_with_correct = elim (Bool-cases (is_allowed_to_occupy db self user s)) [
    | inl h ↦ inl (h, (filled, runs h, occupied, others))
    | inr h ↦ inr (h, rw h)
  ]
