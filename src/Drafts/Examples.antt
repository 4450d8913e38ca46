-- ===== src/Drafts/Examples.antt =====
-- A process of two steps and a draft in it, in tables that are lists of rows.
use adaptarr_server.Prelude.{
  ℕ, ◌≡◌, ◌≢◌, ◌↔◌, inl, inr, true, Option, some, [], ◌∷◌, ok, refl, sym, subst, ap, arith,
}
use adaptarr_server.Process.{edit}
use adaptarr_server.Storage.{In}
use adaptarr_server.Storage.Lists.{list_table}
use adaptarr_server.Drafts.{
  Draft, DraftSlot, Module, EditProcessSlot, EditProcessSlotRole, EditProcessStep,
  EditProcessStepSlot, EditProcessLink, TeamMember, Tables, State,
}
use adaptarr_server.Drafts.Advance.{advance_draft, advanced, finished}
use adaptarr_server.Drafts.Checks.{IsEnabled, IsStored, HasNext, HasLink}
use adaptarr_server.Drafts.Advanced.{IsMoved, advance_draft-advanced}
use adaptarr_server.Drafts.Finished.{advance_draft-finished}
use adaptarr_server.Drafts.Refused.{advance_draft-eq-ok}
use adaptarr_server.Drafts.Journey.{run, run-finished}

abbrev db : Tables
db = record {
  drafts = list_table Draft Draft.module_id;
  draft_slots = list_table DraftSlot DraftSlot.user;
  modules = list_table Module Module.id;
  slots = list_table EditProcessSlot EditProcessSlot.id;
  slot_roles = list_table EditProcessSlotRole EditProcessSlotRole.role;
  steps = list_table EditProcessStep EditProcessStep.id;
  step_slots = list_table EditProcessStepSlot EditProcessStepSlot.slot;
  links = list_table EditProcessLink EditProcessLink.to;
  team_members = list_table TeamMember TeamMember.user;
}

abbrev draft : Draft
draft = record { module_id = 70; document = 5; step = 1; team = 1 }

abbrev seat : DraftSlot
seat = record { draft = 70; slot = 3; user = 9 }

abbrev editor : EditProcessSlot
editor = record { id = 3; process = 1; name = "editor"; autofill = true }

abbrev step : ℕ → EditProcessStep
step n = record { id = n; process = 1; name = "step" }

abbrev link : ℕ → ℕ → EditProcessLink
link a b = record { from = a; to = b; name = "done"; slot = 3 }

abbrev start : State db
start = record {
  drafts = draft ∷ [];
  draft_slots = seat ∷ [];
  modules = record { id = 70; document = 4; team = 1 } ∷ [];
  slots = editor ∷ [];
  slot_roles = [];
  steps = step 1 ∷ step 2 ∷ step 3 ∷ [];
  step_slots =
      record { step = 1; slot = 3; permission = edit }
      ∷ record { step = 2; slot = 3; permission = edit }
      ∷ [];
  links = link 1 2 ∷ link 2 3 ∷ [];
  team_members = [];
  notices = [];
  log = [];
}

abbrev pick : State db → Option ℕ
pick s = some 9

only_one : {A : Type 0} (P : A → Type 0) (x r : A) → P x → In r (x ∷ []) → P r
only_one P x r h (inl e) = subst P (sym e) h
only_one P x r h (inr e) = absurd e

first-IsEnabled : IsEnabled db draft 9 3 2 start
first-IsEnabled = record {
  seat = (seat, inl refl, refl, refl);
  sitter = λ r here a b. only_one (λ (x : DraftSlot). x.user ≡ 9) seat r refl here;
  link = (link 1 2, inl refl, refl, refl, refl);
  next = (step 2, inr (inl refl), refl);
}

second-IsEnabled : IsEnabled db (record draft { step = 2 }) 9 3 3 start
second-IsEnabled = record {
  seat = (seat, inl refl, refl, refl);
  sitter = λ r here a b. only_one (λ (x : DraftSlot). x.user ≡ 9) seat r refl here;
  link = (link 2 3, inr (inl refl), refl, refl, refl);
  next = (step 3, inr (inr (inl refl)), refl);
}

no_more : ¬ HasNext db 3 start
no_more (r, inl e, from) = absurd (omega (arith, ap EditProcessLink.from e, from))
no_more (r, inr (inl e), from) = absurd (omega (arith, ap EditProcessLink.from e, from))
no_more (r, inr (inr e), from) = absurd e

is_stored :
    (n : ℕ)
    → IsStored db
        (record draft { step = n })
        (record start { drafts = record draft { step = n } ∷ [] })
is_stored n = (
  inl refl,
  λ r here e. only_one (λ x. x ≡ record draft { step = n }) (record draft { step = n }) r refl here,
)

advance_draft-advanced_example :
    (after : State db) × (advance_draft db pick draft 9 3 2 start
      ≡ ok (advanced (record draft { step = 2 }), after))
    × IsMoved db pick draft 2 start after
advance_draft-advanced_example =
    advance_draft-advanced db pick draft 9 3 2 start first-IsEnabled (is_stored 1)
      (link 2 3, inr (inl refl), refl)

advance_draft-finished_example :
    (m : Module) × (after : State db) × (advance_draft db pick
        (record draft { step = 2 })
        9
        3
        3
        start
      ≡ ok (finished m, after))
    × (m.id ≡ 70)
    × (m.document ≡ 5)
    × In m after.modules
    × ((r : Draft) → In r after.drafts ↔ (In r start.drafts × (r.module_id ≢ 70)))
    × ((r : DraftSlot) → In r after.draft_slots ↔ (In r start.draft_slots × (r.draft ≢ 70)))
advance_draft-finished_example =
    advance_draft-finished db pick (record draft { step = 2 }) 9 3 3 start second-IsEnabled no_more
      (record { id = 70; document = 4; team = 1 }, inl refl, refl)

run-finished_example :
    (m : Module) × (after : State db) × (run db pick draft
        (record { user = 9; slot = 3; target = 2 })
        (record { user = 9; slot = 3; target = 3 } ∷ [])
        start
      ≡ ok (finished m, after))
    × (m.id ≡ 70)
    × (m.document ≡ 5)
    × In m after.modules
run-finished_example =
    run-finished db pick draft (record { user = 9; slot = 3; target = 2 })
      (record { user = 9; slot = 3; target = 3 } ∷ []) start
      (first-IsEnabled, (link 2 3, inr (inl refl), refl), (second-IsEnabled, no_more)) (is_stored 1)
      (record { id = 70; document = 4; team = 1 }, inl refl, refl)

advance_draft-eq-ok_example :
    ((r : DraftSlot) × In r start.draft_slots × (r.draft ≡ 70) × (r.slot ≡ 3) × (r.user ≡ 9))
    × HasLink db 1 3 2 start
advance_draft-eq-ok_example =
    advance_draft-eq-ok db pick draft 9 3 2 start
      (advanced (record draft { step = 2 }), advance_draft-advanced_example.0)
      advance_draft-advanced_example.1
