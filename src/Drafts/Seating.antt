-- ===== src/Drafts/Seating.antt =====
-- Who sits in the slots of a step (editing/step.rs).
use adaptarr_server.Prelude.{
  ℕ, ◌==◌, ◌&&◌, ◌||◌, ◌≡◌, ◌≢◌, Bool, true, false, Option, none, some, List, [], ◌∷◌, ◌++◌, map,
  All, ltb, leb, arith,
}
use adaptarr_server.Process.{SlotPermission}
use adaptarr_server.Storage.Joins.{
  order_by, or_none, keep, group_by, order_by-All, group_by-All, keep-All, AllIn,
}
use adaptarr_server.Drafts.{
  DraftSlot, EditProcessSlot, EditProcessStepSlot, EditProcessStep, EditProcessLink, Tables, State,
}

pub record Seating : Type 0 where
  pub slot : EditProcessSlot
  pub permissions : List SlotPermission
  pub user : Option ℕ

-- A row of the joined tables.
pub record SeatRow : Type 0 where
  pub permission : SlotPermission
  pub slot : EditProcessSlot
  pub seat : Option DraftSlot

unfoldable pub user_of : Option DraftSlot → Option ℕ
user_of none = none
user_of (some seat) = some seat.user

-- A test of a null column does not hold.
unfoldable pub sits_in : ℕ → SeatRow → Bool
sits_in draft r = elim r.seat [ none ↦ false | some seat ↦ seat.draft == draft ]

unfoldable pub same_user : Option ℕ → Option ℕ → Bool
same_user none none = true
same_user none (some u) = false
same_user (some t) none = false
same_user (some t) (some u) = t == u

-- `user.desc()`, where null comes first.
unfoldable pub user_desc : Option ℕ → Option ℕ → Bool
user_desc none u = true
user_desc (some t) none = false
user_desc (some t) (some u) = leb u t

unfoldable pub before : SeatRow → SeatRow → Bool
before a b =
    ltb b.slot.id a.slot.id
    || (a.slot.id == b.slot.id && user_desc (user_of a.seat) (user_of b.seat))

unfoldable pub same_seat : SeatRow → SeatRow → Bool
same_seat a b = a.slot.id == b.slot.id && same_user (user_of a.seat) (user_of b.seat)

unfoldable pub last : {A : Type 0} → A → List A → A
last a [] = a
last a (b ∷ bs) = last b bs

-- The last item of a run gives the slot and the seat.
unfoldable pub seating_of : SeatRow × List SeatRow → Seating
seating_of (r, rs) = record {
  slot = (last r rs).slot;
  permissions = r.permission ∷ map SeatRow.permission rs;
  user = user_of (last r rs).seat;
}

module _ (db : Tables) where
  unfoldable pub is_final : EditProcessStep → State db → Bool
  is_final self s = elim (db.links.find (λ (r : EditProcessLink). r.from == self.id) s.links) [
    | none ↦ true
    | some r ↦ false
  ]

  -- `get_link`
  unfoldable pub get_link : ℕ → ℕ → ℕ → State db → Option EditProcessLink
  get_link step slot target s =
      db.links.find (λ r. (r.from == step && r.to == target) && r.slot == slot) s.links

  unfoldable pub seats_of : EditProcessStepSlot → List EditProcessSlot → State db → List SeatRow
  seats_of ss [] s = []
  seats_of ss (slot ∷ slots) s =
      map (λ seat. record { permission = ss.permission; slot = slot; seat = seat })
        (or_none (db.draft_slots.select (λ r. r.slot == slot.id) DraftSlot.user s.draft_slots))
      ++ seats_of ss slots s

  unfoldable pub joined : List EditProcessStepSlot → State db → List SeatRow
  joined [] s = []
  joined (ss ∷ more) s =
      seats_of ss (db.slots.select (λ r. r.id == ss.slot) EditProcessSlot.id s.slots) s
      ++ joined more s

  unfoldable pub get_slot_seating : EditProcessStep → ℕ → State db → List Seating
  get_slot_seating self draft s =
      let rows =
        joined (db.step_slots.select (λ r. r.step == self.id) EditProcessStepSlot.slot s.step_slots)
          s in
      map seating_of (group_by same_seat (order_by before (keep (sits_in draft) rows)))

  abbrev pub IsTaken : SeatRow → Type 0
  IsTaken r = user_of r.seat ≢ none

  taken : (draft : ℕ) (r : SeatRow) → sits_in draft r ≡ true → IsTaken r
  unfolding sits_in user_of
  taken draft r h = grind (arith, h)

  last-All :
      (P : SeatRow → Type 0) (r : SeatRow) (rs : List SeatRow) → AllIn P (r, rs) → P (last r rs)
  unfolding last
  last-All P r [] h = h.0
  last-All P r (x ∷ xs) h = last-All P x xs h.1

  seating-All :
      (runs : List (SeatRow × List SeatRow))
      → All (AllIn IsTaken) runs
      → All (λ (x : Seating). x.user ≢ none) (map seating_of runs)
  unfolding seating_of
  seating-All [] h = tt
  seating-All ((r, rs) ∷ runs) h = (last-All IsTaken r rs h.0, seating-All runs h.1)

  -- Every seat that `get_slot_seating` gives is taken: a slot that is empty is not among them.
  pub get_slot_seating_lem :
      (self : EditProcessStep) (draft : ℕ) (s : State db)
      → All (λ (x : Seating). x.user ≢ none) (get_slot_seating self draft s)
  unfolding get_slot_seating
  get_slot_seating_lem self draft s =
      let rows =
        joined (db.step_slots.select (λ r. r.step == self.id) EditProcessStepSlot.slot s.step_slots)
          s in
      seating-All (group_by same_seat (order_by before (keep (sits_in draft) rows))) (
        group_by-All IsTaken same_seat (order_by before (keep (sits_in draft) rows)) (
          order_by-All IsTaken before (keep (sits_in draft) rows)
            (keep-All IsTaken (sits_in draft) rows (taken draft))))
