-- ===== src/Drafts/Advance.antt =====
-- Advancing a draft along a link (draft.rs).
use adaptarr_server.Prelude.{
  ℕ, ◌==◌, ◌&&◌, not, Bool, true, false, Option, none, some, List, [], ◌∷◌, ◌++◌, map, Result, ok,
  err, panic, stuck, reject, ◌>>=◌, ◌>>◌,
}
use adaptarr_server.Process.{SlotPermission}
use adaptarr_server.Storage.Joins.{group_by}
use adaptarr_server.Drafts.{
  Draft, DraftSlot, Module, EditProcessStep, EditProcessStepSlot, EditProcessLink, Tables, Notice,
  process_ended, draft_advanced, process_document, finish, advance, State,
}
use adaptarr_server.Drafts.Slots.{FillSlotError, is_seat, required, fill}
use adaptarr_server.Drafts.Seating.{Seating, is_final, get_link, get_slot_seating}

pub data AdvanceDraftError : Type 0 where
  database bad_slot bad_user bad_link : AdvanceDraftError
  fill_slot : ℕ → FillSlotError → AdvanceDraftError

pub data AdvanceResult : Type 0 where
  advanced : Draft → AdvanceResult
  finished : Module → AdvanceResult

unfoldable pub is_draft : ℕ → Draft → Bool
is_draft id r = r.module_id == id

unfoldable pub fill_error {ℓ} :
    {A : Type ℓ} → ℕ → Result FillSlotError A → Result AdvanceDraftError A
fill_error slot (ok a) = ok a
fill_error slot (err e) = err (fill_slot slot e)
fill_error slot panic = panic
fill_error slot stuck = stuck

-- A user and one permission that the user has in the next step.
pub record Held : Type 0 where
  pub user : ℕ
  pub permission : SlotPermission

unfoldable pub held_by : DraftSlot → List EditProcessStepSlot → List Held
held_by seat [] = []
held_by seat (ss ∷ more) =
    record { user = seat.user; permission = ss.permission } ∷ held_by seat more

module _ (db : Tables) where
  -- The rows of the draft's seats joined with the slots of the step, in the order of the users.
  unfoldable pub held_in : ℕ → List DraftSlot → State db → List Held
  held_in step [] s = []
  held_in step (seat ∷ seats) s =
      held_by seat (
        db.step_slots.select (λ r. r.step == step && r.slot == seat.slot) EditProcessStepSlot.slot
          s.step_slots)
      ++ held_in step seats s

  unfoldable pub draft_advanced_to : Draft → List (Held × List Held) → List Notice
  draft_advanced_to self [] = []
  draft_advanced_to self ((h, hs) ∷ more) =
      draft_advanced h.user self.module_id self.document self.step
        (h.permission ∷ map Held.permission hs)
      ∷ draft_advanced_to self more

  unfoldable pub seats : Draft → State db → List DraftSlot
  seats self s = db.draft_slots.select (λ r. r.draft == self.module_id) DraftSlot.user s.draft_slots

  -- The rows of the seats go with the draft, as the foreign key says.
  unfoldable pub finish_draft :
      Draft
      → ℕ
      → EditProcessLink
      → EditProcessStep
      → State db
      → Result AdvanceDraftError (AdvanceResult × State db)
  finish_draft self user link next s = do
    let members = map DraftSlot.user (seats self s)
    let modules =
        db.modules.update (λ r. r.id == self.module_id) (λ r. record r { document = self.document })
          s.modules
    module_row ← required database (db.modules.find (λ r. r.id == self.module_id) modules)
    ok (
      finished module_row,
      record s {
        drafts = db.drafts.delete (is_draft self.module_id) s.drafts;
        draft_slots = db.draft_slots.delete (λ r. r.draft == self.module_id) s.draft_slots;
        modules = modules;
        notices =
            process_ended members self.module_id self.document
            ∷ process_document self.document
            ∷ s.notices;
        log = finish user self.module_id link.from link.to next.id self.document ∷ s.log;
      },
    )

  module _ (pick : State db → Option ℕ) where
    unfoldable pub fill_empty :
        Draft → List Seating → State db → Result AdvanceDraftError (State db)
    fill_empty self [] s = ok s
    fill_empty self (seat ∷ more) s = elim seat.user [
      | some user ↦ fill_empty self more s
      | none ↦ do
        (user, s) ← fill_error seat.slot.id (fill db pick seat.slot self s)
        fill_empty self more s
    ]

    unfoldable pub proceed :
        Draft
        → ℕ
        → EditProcessLink
        → EditProcessStep
        → State db
        → Result AdvanceDraftError (AdvanceResult × State db)
    proceed self user link next s = do
      let permissions =
          group_by (λ (a : Held) (b : Held). a.user == b.user) (held_in next.id (seats self s) s)
      s ←
          fill_empty self (get_slot_seating db next self.module_id s)
            (record s { log = advance user self.module_id link.from link.to next.id ∷ s.log })
      let drafts =
          db.drafts.update (is_draft self.module_id) (λ r. record r { step = next.id }) s.drafts
      self ← required database (db.drafts.find (is_draft self.module_id) drafts)
      ok (
        advanced self,
        record s { drafts = drafts; notices = draft_advanced_to self permissions ++ s.notices },
      )

    unfoldable pub advance_draft :
        Draft → ℕ → ℕ → ℕ → State db → Result AdvanceDraftError (AdvanceResult × State db)
    advance_draft self user slot target s = do
      seat ← required bad_slot (db.draft_slots.find (is_seat self.module_id slot) s.draft_slots)
      reject (not (seat.user == user)) bad_user
      link ← required bad_link (get_link db self.step seat.slot target s)
      next ← required bad_link (db.steps.find (λ (r : EditProcessStep). r.id == link.to) s.steps)
      elim (is_final db next s) [
        | true ↦ finish_draft self user link next s
        | false ↦ proceed self user link next s
      ]
