-- ===== src/Drafts/Slots.antt =====
-- Slots and their occupants (editing/slot.rs).
use adaptarr_server.Prelude.{
  ℕ, ◌==◌, ◌&&◌, not, Bool, true, false, Option, none, some, List, [], ◌∷◌, ◌++◌, if◌then◌else◌,
  Result, ok, err, reject, ◌>>=◌, ◌>>◌,
}
use adaptarr_server.Storage.Joins.{upsert}
use adaptarr_server.Drafts.{
  Draft, DraftSlot, EditProcessSlot, EditProcessSlotRole, Tables, Notice, slot_filled, slot_vacated,
  fill_slot, State,
}

pub data FillSlotError : Type 0 where
  no_user bad_role : FillSlotError

-- The row of the slot in the draft.
unfoldable pub is_seat : ℕ → ℕ → DraftSlot → Bool
is_seat draft slot r = r.draft == draft && r.slot == slot

unfoldable pub exists_row : {A : Type 0} → Option A → Bool
exists_row none = false
exists_row (some a) = true

unfoldable pub has_role : Option ℕ → ℕ → Bool
has_role none role = false
has_role (some r) role = r == role

-- `?` on an optional row.
unfoldable pub required {ℓ μ} : {E : Type μ} {A : Type ℓ} → E → Option A → Result E A
required e none = err e
required e (some a) = ok a

module _ (db : Tables) where
  -- The user's identifier; the source reads the user's row with it.
  unfoldable pub get_occupant : EditProcessSlot → Draft → State db → Option ℕ
  get_occupant self draft s =
      elim (db.draft_slots.find (is_seat draft.module_id self.id) s.draft_slots) [
        | none ↦ none
        | some seat ↦ some seat.user
      ]

  unfoldable pub is_role_limited : EditProcessSlot → State db → Bool
  is_role_limited self s = exists_row (db.slot_roles.find (λ r. r.slot == self.id) s.slot_roles)

  -- The join: a member of a team with a role of the slot.
  unfoldable pub has_member : ℕ → List EditProcessSlotRole → db.team_members.Content → Bool
  has_member user [] members = false
  has_member user (r ∷ rs) members =
      let later = has_member user rs members in
      if exists_row (db.team_members.find (λ m. m.user == user && has_role m.role r.role) members)
      then true
      else later

  unfoldable pub is_allowed_to_occupy : EditProcessSlot → ℕ → State db → Bool
  is_allowed_to_occupy self user s =
      if not (is_role_limited self s)
      then true
      else has_member user
          (db.slot_roles.select (λ r. r.slot == self.id) EditProcessSlotRole.role s.slot_roles)
          s.team_members

  unfoldable pub vacated : EditProcessSlot → Draft → Option ℕ → List Notice
  vacated self draft none = []
  vacated self draft (some old) = slot_vacated old self.id draft.module_id draft.document ∷ []

  unfoldable pub fill_with :
      EditProcessSlot → Draft → ℕ → State db → Result FillSlotError (State db)
  fill_with self draft user s = do
    reject (not (is_allowed_to_occupy self user s)) bad_role
    let old = get_occupant self draft s
    ok (record s {
      draft_slots =
          upsert db.draft_slots (is_seat draft.module_id self.id) (λ r. record r { user = user })
            (record { draft = draft.module_id; slot = self.id; user = user }) s.draft_slots;
      notices =
          vacated self draft old
          ++ slot_filled user self.id draft.module_id draft.document ∷ s.notices;
      log = fill_slot draft.module_id self.id user ∷ s.log;
    })

  -- `pick` is the query for the member of a team that occupies slots of the fewest drafts.
  unfoldable pub fill :
      (State db → Option ℕ)
      → EditProcessSlot
      → Draft
      → State db
      → Result FillSlotError (Option ℕ × State db)
  fill pick self draft s =
      if not self.autofill
      then ok (none, s)
      else (do user ← required no_user (pick s); s ← fill_with self draft user s; ok (some user, s))
